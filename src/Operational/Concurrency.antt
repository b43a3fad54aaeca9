-- ===== src/Operational/Concurrency.antt =====
-- src/operational-memory-store.ts: two writers that have read the same state of a memory.
use abmind.Prelude.{
  ℕ, ◌≡◌, ◌≢◌, refl, sym, ap, String, true, false, none, some, List, [], ◌∷◌, ◌++◌, arith, inl, inr,
  Bool-cases, str_eq, eq_iff, ◌==◌,
}
use abmind.Prelude.Table.{select, count, update, select-update_hit, select_holds}
use abmind.Operational.{
  Store, is_memory, get_memory, version_of, current, unchanged, to_revised, revised_state,
  revise_found, revise,
}
use abmind.OperationalTypes.{Env, Memory, Scope, Version, conflict, normalize_scope, scope_value}
use abmind.OperationalTypes.Checks.{ReviseInput, valid_revise}

count-found :
    (i expected : String) (m : Memory) (ms : List Memory)
    → select (is_memory i) ms ≡ some m
    → str_eq m.content_hash expected ≡ true
    → (count (unchanged i expected) ms == 0) ≡ false
count-found i expected m [] found h = absurd (ground (arith, found))
count-found i expected m (x ∷ xs) found h = elim (Bool-cases (is_memory i x)) [
  | inl hit ↦
      let k : some x ≡ some m = rw hit at found in
      let e : m.content_hash ≡ x.content_hash =
        sym (ap (λ o. elim o [ none ↦ x.content_hash | some y ↦ y.content_hash ]) k) in
      rw (hit, rw e at h) (ground arith)
  | inr miss ↦ rw miss (count-found i expected m xs (rw miss at found) h)
]

-- A revision that finds the state that it expects: the memory is the revised one.
module _ (env : Env) (id : String) (now : ℕ) (i : ReviseInput) (s : Store) (m : Memory)
    (scope : Scope) where
  abbrev revision : Version
  revision =
      version_of env id i.memory_id (some m.current_version_id) (revised_state i scope)
        i.mutation_reason i.actor_id now

  abbrev revised_store : Store
  revised_store = record s {
    memories =
        update (unchanged i.memory_id i.expected_content_hash) (to_revised revision) s.memories;
    versions = s.versions ++ revision ∷ [];
  }

  revise-writes :
      valid_revise env i ≡ true
      → get_memory i.memory_id s ≡ some m
      → str_eq m.content_hash i.expected_content_hash ≡ true
      → normalize_scope env i.level (scope_value i.level i.values) ≡ some scope
      → (revise env id now i s).0 ≡ revised_store
  unfolding revise revise_found
  revise-writes valid found same placed =
      rw
        (
          valid,
          found,
          revise_found,
          same,
          placed,
          found,
          same,
          count-found i.memory_id i.expected_content_hash m s.memories found same,
        )
        refl

  revised_row :
      get_memory i.memory_id s ≡ some m
      → str_eq m.content_hash i.expected_content_hash ≡ true
      → get_memory i.memory_id revised_store ≡ some (to_revised revision m)
  revised_row found same =
      let is = select_holds (is_memory i.memory_id) s.memories m found in
      select-update_hit (is_memory i.memory_id) (unchanged i.memory_id i.expected_content_hash)
        (to_revised revision) (λ x. refl) s.memories m found (ground (arith, is, same))

-- A revision that expects another state changes nothing.
revise-stale :
    (env : Env) (id : String) (now : ℕ) (i : ReviseInput) (s : Store) (m : Memory)
    → valid_revise env i ≡ true
    → get_memory i.memory_id s ≡ some m
    → str_eq m.content_hash i.expected_content_hash ≡ false
    → revise env id now i s ≡ (s, conflict (current m))
unfolding revise revise_found
revise-stale env id now i s m valid found other = rw (valid, found, revise_found, other) refl

-- No update is lost. Two writers revise a memory, both expecting the state that its row has. When the first
-- revision is valid and changes the content hash, the second, if it is valid, changes nothing: it is a
-- conflict, and names the version and the hash that the first has written.
pub revise-lost :
    (env : Env) (id second_id : String) (now later : ℕ) (i j : ReviseInput) (s : Store) (m : Memory)
    (scope : Scope)
    → valid_revise env i ≡ true
    → valid_revise env j ≡ true
    → j.memory_id ≡ i.memory_id
    → j.expected_content_hash ≡ i.expected_content_hash
    → get_memory i.memory_id s ≡ some m
    → m.content_hash ≡ i.expected_content_hash
    → normalize_scope env i.level (scope_value i.level i.values) ≡ some scope
    → env.hash (revised_state i scope) ≢ i.expected_content_hash
    → revise env second_id later j (revise env id now i s).0
      ≡ ((revise env id now i s).0, conflict (some (id, env.hash (revised_state i scope))))
revise-lost env id second_id now later i j s m scope vi vj same_memory same_hash found expected
      placed new =
    let same : str_eq m.content_hash i.expected_content_hash ≡ true =
      ground (arith, eq_iff m.content_hash i.expected_content_hash, expected) in
    let other : str_eq (env.hash (revised_state i scope)) i.expected_content_hash ≡ false =
      elim (Bool-cases (str_eq (env.hash (revised_state i scope)) i.expected_content_hash)) [
        | inl e ↦
            absurd (new ((eq_iff (env.hash (revised_state i scope)) i.expected_content_hash).0 e))
        | inr e ↦ e
      ] in
    let store = revised_store env id now i s m scope in
    let row : get_memory j.memory_id store ≡ some (to_revised (revision env id now i s m scope) m) =
      rw same_memory (revised_row env id now i s m scope found same) in
    rw (revise-writes env id now i s m scope vi found same placed) (
      revise-stale env second_id later j store (to_revised (revision env id now i s m scope) m) vj
        row (rw same_hash other))
