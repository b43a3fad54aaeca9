-- ===== src/Operational/Writes.antt =====
-- src/operational-memory-store.ts: what the writes do to the tables.
use abmind.Prelude.{
  ℕ, ◌≡◌, refl, String, Bool, true, false, ◌&&◌, not, none, some, List, [], ◌∷◌, ◌++◌,
  if◌then◌else◌, inl, inr, Option-cases, str_eq, ◌==◌,
}
use abmind.Prelude.Table.{count, update}
use abmind.Operational.Scopes.{IsProper, normalize_scope-IsProper}
use abmind.Operational.{
  Store, is_draft, get_draft, get_memory, get_version, create_draft, curated_level, curated_values,
  curated, Stamp, version_of, memory_of, to_promoted, insert_memory, promote_new, promote_as,
  promote_draft, is_open, to_rejected, reject_open, reject_as, reject_draft, unchanged,
  compare_and_set, to_revised, to_retired, revised_state, retired_state, revise_found, revise,
  retire_found, retire,
}
use abmind.OperationalTypes.{
  Draft, DraftStatus, Env, HashInput, Memory, Version, draft, normalize_scope, promoted, rejected,
  scope_value,
}
use abmind.OperationalTypes.Checks.{
  DraftInput, PromoteInput, RejectInput, RetireInput, ReviseInput, valid_create, valid_promote,
  valid_reject, valid_retire, valid_revise,
}

-- The state of a version that its hash is made of.
abbrev pub state_of : Version → HashInput
state_of v = record {
  content = v.content;
  status = v.status;
  scope = v.scope;
  confidence = v.confidence;
  provenance = v.provenance;
  evidence = v.evidence;
}

-- The columns of the row that follow its version.
pub record Writes (v : Version) (m m' : Memory) : Type 0 where
  pub id : m'.id ≡ m.id
  pub version : m'.current_version_id ≡ v.id
  pub content_hash : m'.content_hash ≡ v.content_hash
  pub status : m'.status ≡ v.status
  pub confidence : m'.confidence ≡ v.confidence
  pub provenance : m'.provenance ≡ v.provenance

-- What a write does to the store: nothing, or what one of the kinds of writes does. `P` is what may be
-- assumed of the ids that it is given.
pub data Change (env : Env) (P : Type 0) (s : Store) : Store → Type 0 where
  same : Change env P s s
  drafted :
      (d : Draft)
      → is_open d.status ≡ true
      → IsProper env d.scope
      → (P → get_draft d.id s ≡ none)
      → Change env P s (record s { drafts = s.drafts ++ d ∷ [] })
  promotes_one :
      (t : Stamp) (i : PromoteInput) (h : HashInput) (d : Draft)
      → get_draft i.draft_id s ≡ some d
      → is_open d.status ≡ true
      → IsProper env h.scope
      → (P → get_memory t.memory_id s ≡ none)
      → (P → get_version t.version_id s ≡ none)
      → Change env P s (record {
        drafts = update (is_draft i.draft_id) (to_promoted t.memory_id t.now) s.drafts;
        memories = s.memories ++ memory_of env t h ∷ [];
        versions =
            s.versions
            ++ version_of env t.version_id t.memory_id none h i.mutation_reason i.actor_id t.now
              ∷ [];
      })
  rejects_one :
      (i : RejectInput) (now : ℕ)
      → Change env P s (record s {
        drafts =
            update (λ d. is_draft i.draft_id d && is_open d.status) (to_rejected i now) s.drafts;
      })
  swaps :
      (v : Version) (expected : String) (f : Memory → Memory) (m : Memory)
      → get_memory v.memory_id s ≡ some m
      → ((x : Memory) → (f x).id ≡ x.id)
      → Writes v m (f m)
      → v.content_hash ≡ env.hash (state_of v)
      → v.previous_version_id ≡ some m.current_version_id
      → IsProper env v.scope
      → ((x : Memory) → IsProper env x.scope → IsProper env (f x).scope)
      → (P → get_version v.id s ≡ none)
      → Change env P s (record s {
        memories = update (unchanged v.memory_id expected) f s.memories;
        versions = s.versions ++ v ∷ [];
      })

module _ {env : Env} {P : Type 0} {s : Store} where
  Change-if :
      {A : Type 0} (b : Bool) (x y : Store × A)
      → (b ≡ true → Change env P s x.0)
      → (b ≡ false → Change env P s y.0)
      → Change env P s (if b then x else y).0
  Change-if true x y f g = f refl
  Change-if false x y f g = g refl

  create_draft-Change :
      (id : String) (now : ℕ) (i : DraftInput)
      → (P → get_draft id s ≡ none)
      → Change env P s (create_draft env id now i s).0
  unfolding create_draft
  create_draft-Change id now i fresh =
      Change-if (not (valid_create env i)) _ _ (λ h. same)
        (λ h. elim (Option-cases (normalize_scope env i.level (scope_value i.level i.values))) [
          | inl e ↦ rw e same
          | inr (scope, e) ↦ rw e (drafted _ refl (normalize_scope-IsProper env _ _ scope e) fresh)
        ])

  promote_as-Change :
      (t : Stamp) (i : PromoteInput) (d : Draft)
      → get_draft i.draft_id s ≡ some d
      → (P → (get_memory t.memory_id s ≡ none) × (get_version t.version_id s ≡ none))
      → Change env P s (promote_as env t i d s d.status).0
  unfolding promote_new insert_memory curated
  promote_as-Change t i d found fresh = by_status d.status refl
    where
      by_status : (k : DraftStatus) → d.status ≡ k → Change env P s (promote_as env t i d s k).0
      by_status rejected e = same
      by_status promoted e = same
      by_status draft e =
          elim (Option-cases (
            normalize_scope env (curated_level i.curate d)
              (scope_value (curated_level i.curate d) (curated_values i.curate d)))) [
                | inl k ↦ rw (k, promote_new) same
                | inr (scope, k) ↦
                    rw (k, promote_new)
                      (promotes_one t i (curated i.curate d scope) d found (rw e refl)
                        (normalize_scope-IsProper env _ _ scope k) (λ p. (fresh p).0)
                        (λ p. (fresh p).1))
              ]

  promote_draft-Change :
      (t : Stamp) (i : PromoteInput)
      → (P → (get_memory t.memory_id s ≡ none) × (get_version t.version_id s ≡ none))
      → Change env P s (promote_draft env t i s).0
  unfolding promote_draft
  promote_draft-Change t i fresh =
      Change-if (not (valid_promote env i)) _ _ (λ h. same)
        (λ h. elim (Option-cases (get_draft i.draft_id s)) [
          | inl e ↦ rw e same
          | inr (d, e) ↦ rw e (promote_as-Change t i d e fresh)
        ])

  reject_draft-Change : (now : ℕ) (i : RejectInput) → Change env P s (reject_draft env now i s).0
  unfolding reject_draft reject_open
  reject_draft-Change now i =
      Change-if (not (valid_reject env i)) _ _ (λ h. same)
        (λ h. elim (Option-cases (get_draft i.draft_id s)) [
          | inl e ↦ rw e same
          | inr (d, e) ↦ rw e (by_status d d.status)
        ])
    where
      by_status : (d : Draft) (k : DraftStatus) → Change env P s (reject_as i now d s k).0
      by_status d draft = rejects_one i now
      by_status d rejected = same
      by_status d promoted = same

  compare_and_set-Change :
      (v : Version) (expected : String) (f : Memory → Memory) (m : Memory)
      → get_memory v.memory_id s ≡ some m
      → ((x : Memory) → (f x).id ≡ x.id)
      → Writes v m (f m)
      → v.content_hash ≡ env.hash (state_of v)
      → v.previous_version_id ≡ some m.current_version_id
      → IsProper env v.scope
      → ((x : Memory) → IsProper env x.scope → IsProper env (f x).scope)
      → (P → get_version v.id s ≡ none)
      → Change env P s (compare_and_set v expected f (some m) s).0
  compare_and_set-Change v expected f m found keeps w sealed chained proper kept fresh =
      Change-if (not (str_eq m.content_hash expected)) _ _ (λ h. same)
        (λ h.
          Change-if (count (unchanged v.memory_id expected) s.memories == 0) _ _ (λ h. same)
            (λ h. swaps v expected f m found keeps w sealed chained proper kept fresh))

  revise-Change :
      (id : String) (now : ℕ) (i : ReviseInput)
      → (P → get_version id s ≡ none)
      → Change env P s (revise env id now i s).0
  unfolding revise revise_found
  revise-Change id now i fresh =
      Change-if (not (valid_revise env i)) _ _ (λ h. same)
        (λ h. elim (Option-cases (get_memory i.memory_id s)) [
          | inl e ↦ rw e same
          | inr (m, e) ↦ rw (e, revise_found) (found m e)
        ])
    where
      found :
          (m : Memory)
          → get_memory i.memory_id s ≡ some m
          → Change env P s (revise_found env id now i m s).0
      found m e =
          Change-if (not (str_eq m.content_hash i.expected_content_hash)) _ _ (λ h. same)
            (λ h. elim (Option-cases (normalize_scope env i.level (scope_value i.level i.values))) [
              | inl k ↦ rw k same
              | inr (scope, k) ↦
                  rw (k, e)
                    (let v =
                        version_of env id i.memory_id (some m.current_version_id)
                          (revised_state i scope) i.mutation_reason i.actor_id now in
                      compare_and_set-Change v i.expected_content_hash (to_revised v) m e
                        (λ x. refl)
                        (record {
                          id = refl;
                          version = refl;
                          content_hash = refl;
                          status = refl;
                          confidence = refl;
                          provenance = refl;
                        })
                        refl refl (normalize_scope-IsProper env _ _ scope k)
                        (λ x h. normalize_scope-IsProper env _ _ scope k) fresh)
            ])

  retire-Change :
      (id : String) (now : ℕ) (i : RetireInput)
      → (P → get_version id s ≡ none)
      → Change env P s (retire env id now i s).0
  unfolding retire retire_found
  retire-Change id now i fresh =
      Change-if (not (valid_retire env i)) _ _ (λ h. same)
        (λ h. elim (Option-cases (get_memory i.memory_id s)) [
          | inl e ↦ rw e same
          | inr (m, e) ↦ rw (e, retire_found) (found m e)
        ])
    where
      found :
          (m : Memory)
          → get_memory i.memory_id s ≡ some m
          → Change env P s (retire_found env id now i m s).0
      found m e =
          Change-if (not (str_eq m.content_hash i.expected_content_hash)) _ _ (λ h. same)
            (λ h.
              elim (Option-cases
                (normalize_scope env m.scope.level (scope_value m.scope.level m.scope.values))) [
                  | inl k ↦ rw k same
                  | inr (scope, k) ↦
                      rw (k, e)
                        (let v =
                            version_of env id i.memory_id (some m.current_version_id)
                              (retired_state m scope) i.mutation_reason i.actor_id now in
                          compare_and_set-Change v i.expected_content_hash (to_retired v) m e
                            (λ x. refl)
                            (record {
                              id = refl;
                              version = refl;
                              content_hash = refl;
                              status = refl;
                              confidence = refl;
                              provenance = refl;
                            })
                            refl refl (normalize_scope-IsProper env _ _ scope k) (λ x h. h) fresh)
                ])

pub data Op : Type 0 where
  creates : String → ℕ → DraftInput → Op
  promotes : Stamp → PromoteInput → Op
  rejects : ℕ → RejectInput → Op
  revises : String → ℕ → ReviseInput → Op
  retires : String → ℕ → RetireInput → Op

abbrev pub step : Env → Op → Store → Store
step env (creates id now i) s = (create_draft env id now i s).0
step env (promotes t i) s = (promote_draft env t i s).0
step env (rejects now i) s = (reject_draft env now i s).0
step env (revises id now i) s = (revise env id now i s).0
step env (retires id now i) s = (retire env id now i s).0

abbrev pub run : Env → List Op → Store → Store
run env [] s = s
run env (c ∷ cs) s = run env cs (step env c s)

-- The ids that the call gets are new, as those of randomUUID are.
abbrev pub IsFresh : Op → Store → Type 0
IsFresh (creates id now i) s = get_draft id s ≡ none
IsFresh (promotes t i) s = (get_memory t.memory_id s ≡ none) × (get_version t.version_id s ≡ none)
IsFresh (rejects now i) s = Unit
IsFresh (revises id now i) s = get_version id s ≡ none
IsFresh (retires id now i) s = get_version id s ≡ none

abbrev pub FreshRun : Env → List Op → Store → Type 0
FreshRun env [] s = Unit
FreshRun env (c ∷ cs) s = IsFresh c s × FreshRun env cs (step env c s)

pub step-Change : (env : Env) (c : Op) (s : Store) → Change env (IsFresh c s) s (step env c s)
step-Change env (creates id now i) s = create_draft-Change id now i (λ h. h)
step-Change env (promotes t i) s = promote_draft-Change t i (λ h. h)
step-Change env (rejects now i) s = reject_draft-Change now i
step-Change env (revises id now i) s = revise-Change id now i (λ h. h)
step-Change env (retires id now i) s = retire-Change id now i (λ h. h)
