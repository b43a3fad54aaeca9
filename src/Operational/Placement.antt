-- ===== src/Operational/Placement.antt =====
-- src/operational-memory-store.ts: the scopes that are stored.
use abmind.Prelude.{List, [], ◌∷◌, Bool, All, Bool-cases, inl, inr}
use abmind.Prelude.Table.{update}
use abmind.Operational.{Store, is_draft, memory_of, to_promoted, to_rejected}
use abmind.OperationalTypes.{Env}
use abmind.Operational.Scopes.{IsProper}
use abmind.Operational.Soundness.{All-append}
use abmind.Operational.Writes.{
  Change, same, drafted, promotes_one, rejects_one, swaps, Op, step, run, step-Change,
}

-- Every scope that is stored has the one value of its level and no other.
pub record Placed (env : Env) (s : Store) : Type 0 where
  pub drafts : All (λ d. IsProper env d.scope) s.drafts
  pub memories : All (λ m. IsProper env m.scope) s.memories
  pub versions : All (λ v. IsProper env v.scope) s.versions

All-update :
    {A : Type 0} (P : A → Type 0) (p : A → Bool) (f : A → A)
    → ((x : A) → P x → P (f x))
    → (xs : List A) → All P xs
    → All P (update p f xs)
All-update P p f keeps [] h = tt
All-update P p f keeps (x ∷ xs) h = elim (Bool-cases (p x)) [
  | inl hit ↦ rw hit (keeps x h.0, All-update P p f keeps xs h.1)
  | inr miss ↦ rw miss (h.0, All-update P p f keeps xs h.1)
]

module _ (env : Env) {P : Type 0} (s : Store) where
  Change-Placed : {s' : Store} → Change env P s s' → Placed env s → Placed env s'
  Change-Placed same b = b
  Change-Placed (drafted d live proper fresh) b = record {
    drafts = All-append (λ d. IsProper env d.scope) s.drafts d b.drafts proper;
    memories = b.memories;
    versions = b.versions;
  }
  Change-Placed (rejects_one i now) b = record {
    drafts =
        All-update (λ d. IsProper env d.scope) _ (to_rejected i now) (λ x h. h) s.drafts b.drafts;
    memories = b.memories;
    versions = b.versions;
  }
  Change-Placed (promotes_one t i h d found live proper m_new v_new) b = record {
    drafts =
        All-update (λ d. IsProper env d.scope) (is_draft i.draft_id) (to_promoted t.memory_id t.now)
          (λ x h. h) s.drafts b.drafts;
    memories =
        All-append (λ m. IsProper env m.scope) s.memories (memory_of env t h) b.memories proper;
    versions = All-append (λ v. IsProper env v.scope) s.versions _ b.versions proper;
  }
  Change-Placed (swaps v expected f m found keeps w sealed chained proper kept fresh) b = record {
    drafts = b.drafts;
    memories = All-update (λ m. IsProper env m.scope) _ f kept s.memories b.memories;
    versions = All-append (λ v. IsProper env v.scope) s.versions v b.versions proper;
  }

-- After any writes, valid or not: the scope of every draft, memory and version has exactly the value of its
-- level, which is not empty and has at most 512 bytes; a global scope has none.
pub run-Placed : (env : Env) (cs : List Op) (s : Store) → Placed env s → Placed env (run env cs s)
run-Placed env [] s b = b
run-Placed env (c ∷ cs) s b =
    run-Placed env cs (step env c s) (Change-Placed env s (step-Change env c s) b)
