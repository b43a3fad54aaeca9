-- ===== src/Operational/Scopes.antt =====
-- src/operational-memory-types.ts: the scopes that are accepted.
use abmind.Prelude.{
  ◌≡◌, ◌⊎◌, ◌||◌, refl, ap, String, true, false, Option, none, some, List, [], ◌∷◌, arith,
  if◌then◌else◌, ℕ, inl, inr, Bool-cases, str_eq, All, ltb, ◌==◌, ◌≤◌,
}
use abmind.Operational.{Store, create_draft}
use abmind.OperationalTypes.{
  Env, Scope, ScopeLevel, Values, global, host, is_global, named, names_one, no_values,
  normalize_scope, only, platform, repository, scope_consistent, scope_value_max, set_values,
  task_environment, validation_error, workspace,
}
use abmind.OperationalTypes.Checks.{DraftInput, valid_create}

named-All :
    (P : String → Type 0) (k : String) (v : Option String) (ks : List String)
    → P k
    → All P ks
    → All P (named k v ks)
named-All P k none ks p h = h
named-All P k (some x) ks p h = (p, h)

abbrev IsOther : String → Type 0
IsOther k = str_eq k "task_environment" ≡ false

set_values-All : (v : Values) → All IsOther (set_values v)
unfolding set_values
set_values-All v = named-All IsOther _ v.platform_value _ refl (
    named-All IsOther _ v.host_value _ refl (
      named-All IsOther _ v.workspace_value _ refl (
        named-All IsOther _ v.repository_value _ refl
          (named-All IsOther _ v.task_environment_value [] refl tt))))

names_one-none : (ks : List String) → All IsOther ks → names_one "task_environment" ks ≡ false
names_one-none [] h = refl
names_one-none (k ∷ []) h = h.0
names_one-none (k ∷ l ∷ ks) h = refl

unplaced : (v : Values) → scope_consistent task_environment v ≡ false
unfolding scope_consistent
unplaced v = names_one-none (set_values v) (set_values-All v)

-- A draft of the scope task_environment is never accepted, whatever values it has: the store is as it was
-- and the answer is a validation error.
pub create_draft-task_environment :
    (env : Env) (id : String) (now : ℕ) (i : DraftInput) (s : Store)
    → i.level ≡ task_environment
    → create_draft env id now i s ≡ (s, validation_error)
unfolding create_draft valid_create
create_draft-task_environment env id now i s e =
    let out : scope_consistent i.level i.values ≡ false = rw e (unplaced i.values) in
    let bad : valid_create env i ≡ false = ground (arith, out) in rw bad refl

-- The scope has the one value of its level, which is not empty and at most 512 bytes long, and no other.
abbrev pub IsProper : Env → Scope → Type 0
IsProper env scope =
    ((is_global scope.level ≡ true) × (scope.values ≡ no_values))
    ⊎ ((x : String) × (is_global scope.level ≡ false)
        × (scope.values ≡ only scope.level x)
        × ((env.bytes x == 0) ≡ false)
        × (env.bytes x ≤ scope_value_max))

module _ (env : Env) where
  abbrev placed : ScopeLevel → String → Option Scope
  placed level x =
      if env.bytes (env.canonical x) == 0 || ltb scope_value_max (env.bytes (env.canonical x))
      then none
      else some (record { level = level; values = only level (env.canonical x) })

  placed-IsProper :
      (level : ScopeLevel) (x : String) (scope : Scope)
      → is_global level ≡ false
      → placed level x ≡ some scope
      → IsProper env scope
  placed-IsProper level x scope local h =
      elim (Bool-cases
        (env.bytes (env.canonical x) == 0 || ltb scope_value_max (env.bytes (env.canonical x)))) [
          | inl bad ↦ absurd (ground (arith, bad, h))
          | inr good ↦
              let put : Scope = record { level = level; values = only level (env.canonical x) } in
              let k : some put ≡ some scope = rw good at h in
              let e : put ≡ scope = ap (λ o. elim o [ none ↦ put | some y ↦ y ]) k in
              rw (← e)
                (inr (env.canonical x, local, refl, ground (arith, good), ground (arith, good)))
        ]

  pub normalize_scope-IsProper :
      (level : ScopeLevel) (x : Option String) (scope : Scope)
      → normalize_scope env level x ≡ some scope
      → IsProper env scope
  unfolding normalize_scope
  normalize_scope-IsProper global none scope h =
      let put : Scope = record { level = global; values = no_values } in
      let e : put ≡ scope = ap (λ o. elim o [ none ↦ scope | some y ↦ y ]) h in
      rw (← e) (inl (refl, refl))
  normalize_scope-IsProper global (some x) scope h = absurd (ground (arith, h))
  normalize_scope-IsProper platform none scope h = absurd (ground (arith, h))
  normalize_scope-IsProper host none scope h = absurd (ground (arith, h))
  normalize_scope-IsProper workspace none scope h = absurd (ground (arith, h))
  normalize_scope-IsProper repository none scope h = absurd (ground (arith, h))
  normalize_scope-IsProper task_environment none scope h = absurd (ground (arith, h))
  normalize_scope-IsProper platform (some x) scope h = placed-IsProper platform x scope refl h
  normalize_scope-IsProper host (some x) scope h = placed-IsProper host x scope refl h
  normalize_scope-IsProper workspace (some x) scope h = placed-IsProper workspace x scope refl h
  normalize_scope-IsProper repository (some x) scope h = placed-IsProper repository x scope refl h
  normalize_scope-IsProper task_environment (some x) scope h =
      placed-IsProper task_environment x scope refl h
