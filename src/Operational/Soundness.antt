-- ===== src/Operational/Soundness.antt =====
-- src/operational-memory-store.ts: every memory is backed by its current version, and no version is lost.
use abmind.Prelude.{
  ◌≤◌, ◌≡◌, refl, sym, ap, ◌∙◌, String, none, some, List, [], ◌∷◌, ◌++◌, arith, inl, inr,
  Bool-cases, str_eq, eq_iff, All, All-map,
}
use text.Mathlib.TextPositions.{eq_refl}
use abmind.Prelude.Table.{
  select, count, update, select-append_none, select-append_some, count-append, count-update,
  count-none, select_holds,
}
use abmind.Operational.{Store, is_memory, is_version, get_memory, version_of, memory_of, unchanged}
use abmind.OperationalTypes.{Env, Memory, Version}
use abmind.Operational.Writes.{
  state_of, Change, same, drafted, promotes_one, rejects_one, swaps, Op, step, run, FreshRun,
  step-Change,
}

-- The version is the memory's, and holds what its row shows.
pub record Shows (v : Version) (m : Memory) : Type 0 where
  pub memory_id : v.memory_id ≡ m.id
  pub content_hash : v.content_hash ≡ m.content_hash
  pub status : v.status ≡ m.status
  pub confidence : v.confidence ≡ m.confidence
  pub provenance : v.provenance ≡ m.provenance

abbrev pub IsBacked : List Version → Memory → Type 0
IsBacked vs m = (v : Version) × (select (is_version m.current_version_id) vs ≡ some v) × Shows v m

abbrev pub IsSealed : Env → Version → Type 0
IsSealed env v = v.content_hash ≡ env.hash (state_of v)

-- One row at most has the id of a memory, each is backed by its current version, and the hash of every
-- version is that of its state.
pub record Sound (env : Env) (s : Store) : Type 0 where
  pub unique : (i : String) → count (is_memory i) s.memories ≤ 1
  pub backed : All (IsBacked s.versions) s.memories
  pub sealed : All (IsSealed env) s.versions

pub All-append :
    {A : Type 0} (P : A → Type 0) (xs : List A) (x : A) → All P xs → P x → All P (xs ++ x ∷ [])
All-append P [] x h p = (p, tt)
All-append P (y ∷ ys) x h p = (h.0, All-append P ys x h.1 p)

IsBacked-append :
    (vs : List Version) (v : Version) (m : Memory) → IsBacked vs m → IsBacked (vs ++ v ∷ []) m
IsBacked-append vs v m (w, found, shows) =
    (w, select-append_some (is_version m.current_version_id) vs (v ∷ []) w found, shows)

-- A new version is the one that its id finds.
new_version :
    (vs : List Version) (v : Version) (m : Memory)
    → select (is_version v.id) vs ≡ none
    → m.current_version_id ≡ v.id
    → Shows v m
    → IsBacked (vs ++ v ∷ []) m
new_version vs v m free at shows =
    (v, ap (λ i. select (is_version i) (vs ++ v ∷ [])) at ∙ found, shows)
  where
    found : select (is_version v.id) (vs ++ v ∷ []) ≡ some v
    found = select-append_none (is_version v.id) vs (v ∷ []) free ∙ rw (eq_refl v.id) refl

update-none :
    (i expected : String) (f : Memory → Memory) (ms : List Memory)
    → count (is_memory i) ms ≡ 0
    → update (unchanged i expected) f ms ≡ ms
update-none i expected f [] h = refl
update-none i expected f (m ∷ ms) h = elim (Bool-cases (is_memory i m)) [
  | inl hit ↦ absurd (ground (arith, hit, h))
  | inr miss ↦ rw miss (ap (◌∷◌ m) (update-none i expected f ms (ground (arith, miss, h))))
]

-- The one row of the id is replaced.
IsBacked-update :
    (vs : List Version) (i expected : String) (f : Memory → Memory) (m : Memory) (ms : List Memory)
    → count (is_memory i) ms ≤ 1
    → select (is_memory i) ms ≡ some m
    → IsBacked vs (f m)
    → All (IsBacked vs) ms
    → All (IsBacked vs) (update (unchanged i expected) f ms)
IsBacked-update vs i expected f m [] u found new b = tt
IsBacked-update vs i expected f m (x ∷ xs) u found new b = elim (Bool-cases (is_memory i x)) [
  | inr miss ↦ rw miss (
    b.0,
    IsBacked-update vs i expected f m xs (ground (arith, miss, u)) (rw miss at found) new b.1,
  )
  | inl hit ↦
      let k : some x ≡ some m = rw hit at found in
      let is : x ≡ m = ap (λ o. elim o [ none ↦ x | some y ↦ y ]) k in
      let rest = update-none i expected f xs (ground (arith, hit, u)) in
      elim (Bool-cases (str_eq x.content_hash expected)) [
        | inl same_hash ↦ rw (hit, same_hash, rest) (rw is new, b.1)
        | inr other ↦ rw (hit, other, rest) b
      ]
]

count-new_memory :
    (i : String) (ms : List Memory) (m : Memory)
    → count (is_memory i) ms ≤ 1
    → select (is_memory m.id) ms ≡ none
    → count (is_memory i) (ms ++ m ∷ []) ≤ 1
count-new_memory i ms m u free = elim (Bool-cases (is_memory i m)) [
  | inl hit ↦
      let e : m.id ≡ i = ground (arith, eq_iff m.id i, hit) in
      ground (
        arith,
        hit,
        count-append (is_memory i) ms (m ∷ []),
        count-none (is_memory i) ms (rw e at free),
      )
  | inr miss ↦ ground (arith, miss, count-append (is_memory i) ms (m ∷ []), u)
]

module _ (env : Env) {P : Type 0} (p : P) (s : Store) where
  Change-Sound : {s' : Store} → Change env P s s' → Sound env s → Sound env s'
  Change-Sound same b = b
  Change-Sound (drafted d e proper fresh) b = record {
    unique = b.unique;
    backed = b.backed;
    sealed = b.sealed;
  }
  Change-Sound (rejects_one i now) b = record {
    unique = b.unique;
    backed = b.backed;
    sealed = b.sealed;
  }
  Change-Sound (promotes_one t i h d found live proper m_new v_new) b =
      let m = memory_of env t h in
      let v = version_of env t.version_id t.memory_id none h i.mutation_reason i.actor_id t.now in
      record {
        unique = λ j. count-new_memory j s.memories m (b.unique j) (m_new p);
        backed =
            All-append (IsBacked _) s.memories m
              (All-map (λ x. IsBacked-append s.versions v x) s.memories b.backed)
              (new_version s.versions v m (v_new p) refl (record {
                memory_id = refl;
                content_hash = refl;
                status = refl;
                confidence = refl;
                provenance = refl;
              }));
        sealed = All-append (IsSealed env) s.versions v b.sealed refl;
      }
  Change-Sound (swaps v expected f m found keeps w sealed chained proper kept fresh) b = record {
    unique = λ j. omega (
      arith,
      b.unique j,
      count-update (is_memory j) (unchanged v.memory_id expected) f
          (λ x. ap (λ k. str_eq k j) (keeps x)) s.memories,
    );
    backed =
        IsBacked-update (s.versions ++ v ∷ []) v.memory_id expected f m s.memories
          (b.unique v.memory_id) found
          (new_version s.versions v (f m) (fresh p) w.version (record {
            memory_id = sym (keeps m ∙ held m found);
            content_hash = sym w.content_hash;
            status = sym w.status;
            confidence = sym w.confidence;
            provenance = sym w.provenance;
          }))
          (All-map (λ x. IsBacked-append s.versions v x) s.memories b.backed);
    sealed = All-append (IsSealed env) s.versions v b.sealed sealed;
  }
    where
      held : (m : Memory) → get_memory v.memory_id s ≡ some m → m.id ≡ v.memory_id
      held m found =
          ground (
            arith,
            eq_iff m.id v.memory_id,
            select_holds (is_memory v.memory_id) s.memories m found,
          )

-- After any writes, where the ids that they get are new: the row of each memory has the content hash, the
-- status, the confidence and the provenance of its current version, which is its own; the content hash of
-- every version is the hash of its state; and no two memories have one id.
pub run-Sound :
    (env : Env) (cs : List Op) (s : Store)
    → FreshRun env cs s
    → Sound env s
    → Sound env (run env cs s)
run-Sound env [] s h b = b
run-Sound env (c ∷ cs) s h b =
    run-Sound env cs (step env c s) h.1 (Change-Sound env h.0 s (step-Change env c s) b)

abbrev pub Extends : List Version → List Version → Type 0
Extends vs ws = (us : List Version) × (ws ≡ vs ++ us)

append_assoc : (xs ys zs : List Version) → (xs ++ ys) ++ zs ≡ xs ++ (ys ++ zs)
append_assoc [] ys zs = refl
append_assoc (x ∷ xs) ys zs = ap (◌∷◌ x) (append_assoc xs ys zs)

append-nil : (xs : List Version) → xs ≡ xs ++ []
append-nil [] = refl
append-nil (x ∷ xs) = ap (◌∷◌ x) (append-nil xs)

Change-Extends :
    (env : Env) {P : Type 0} (s : Store) {s' : Store}
    → Change env P s s'
    → Extends s.versions s'.versions
Change-Extends env s same = ([], append-nil s.versions)
Change-Extends env s (drafted d e proper fresh) = ([], append-nil s.versions)
Change-Extends env s (rejects_one i now) = ([], append-nil s.versions)
Change-Extends env s (promotes_one t i h d found live proper m_new v_new) = (_, refl)
Change-Extends env s (swaps v expected f m found keeps w sealed chained proper kept fresh) =
    (v ∷ [], refl)

-- History is append-only: whatever is written, the versions of before are there, unchanged and in order, with
-- the new ones after them.
pub run-Extends :
    (env : Env) (cs : List Op) (s : Store) → Extends s.versions (run env cs s).versions
run-Extends env [] s = ([], append-nil s.versions)
run-Extends env (c ∷ cs) s =
    let (us, e) = Change-Extends env s (step-Change env c s) in
    let (ws, k) = run-Extends env cs (step env c s) in
    (us ++ ws, k ∙ ap (λ x. x ++ ws) e ∙ append_assoc s.versions us ws)
