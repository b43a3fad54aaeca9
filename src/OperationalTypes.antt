-- ===== src/OperationalTypes.antt =====
-- src/operational-memory-types.ts: the rows of the operational memory, the scopes and their checks. `Env`
-- is what the language's library decides: the length of a text in bytes, its trimmed lower-case form,
-- whether a JSON value has the shape and the depth allowed, and the SHA-256 of a state's canonical JSON.
-- Evidence and provenance are their JSON texts, and a confidence is a natural number; `sources` are the
-- task, session, executor and host that a draft is of.
pub mod Checks
use abmind.Prelude.{
  ℕ, ◌+◌, String, Bool, true, false, ◌&&◌, ◌||◌, not, Option, none, some, List, [], ◌∷◌, ◌++◌,
  str_eq, ltb, leb, ◌==◌, if◌then◌else◌, is_none, or_else, ◌>>=◌,
}

pub data ScopeLevel : Type 0 where
  global platform host workspace repository task_environment : ScopeLevel

pub data DraftStatus : Type 0 where
  draft promoted rejected : DraftStatus

pub data MemoryStatus : Type 0 where
  active retired : MemoryStatus

-- NormalizedScope, and the optional values of an input.
pub record Values : Type 0 where
  pub platform_value : Option String
  pub host_value : Option String
  pub workspace_value : Option String
  pub repository_value : Option String
  pub task_environment_value : Option String

pub record Scope : Type 0 where
  pub level : ScopeLevel
  pub values : Values

pub record Draft : Type 0 where
  pub id : String
  pub status : DraftStatus
  pub lesson : String
  pub problem : Option String
  pub recommendation : Option String
  pub evidence : String
  pub scope : Scope
  pub confidence : ℕ
  pub sources : List (Option String)
  pub provenance : String
  pub created_at : ℕ
  pub updated_at : ℕ
  pub promoted_memory_id : Option String
  pub rejected_by : Option String
  pub rejected_at : Option ℕ
  pub rejection_reason : Option String

pub record Memory : Type 0 where
  pub id : String
  pub status : MemoryStatus
  pub scope : Scope
  pub content_hash : String
  pub current_version_id : String
  pub confidence : ℕ
  pub provenance : String
  pub created_at : ℕ
  pub updated_at : ℕ

pub record Version : Type 0 where
  pub id : String
  pub memory_id : String
  pub previous_version_id : Option String
  pub status : MemoryStatus
  pub scope : Scope
  pub content : String
  pub content_hash : String
  pub confidence : ℕ
  pub provenance : String
  pub evidence : String
  pub mutation_reason : String
  pub actor_id : String
  pub created_at : ℕ

pub record HashInput : Type 0 where
  pub content : String
  pub status : MemoryStatus
  pub scope : Scope
  pub confidence : ℕ
  pub provenance : String
  pub evidence : String

pub record Env : Type 0 where
  pub bytes : String → ℕ
  pub canonical : String → String
  pub evidence_ok : String → Bool
  pub provenance_ok : String → Bool
  pub hash : HashInput → String

-- OperationalWriteResult.
pub data Result (A : Type 0) : Type 0 where
  ok : A → Result A
  not_found validation_error : Result A
  conflict : Option (String × String) → Result A

abbrev pub id_max : ℕ
id_max = 128

abbrev pub actor_max : ℕ
actor_max = 256

abbrev pub scope_value_max : ℕ
scope_value_max = 512

abbrev pub lesson_max : ℕ
lesson_max = 4096

abbrev pub content_max : ℕ
content_max = 16384

abbrev pub reason_max : ℕ
reason_max = 2048

abbrev pub no_values : Values
no_values = record {
  platform_value = none;
  host_value = none;
  workspace_value = none;
  repository_value = none;
  task_environment_value = none;
}

abbrev pub scope_value : ScopeLevel → Values → Option String
scope_value global v = none
scope_value platform v = v.platform_value
scope_value host v = v.host_value
scope_value workspace v = v.workspace_value
scope_value repository v = v.repository_value
scope_value task_environment v = v.task_environment_value

abbrev pub only : ScopeLevel → String → Values
only global x = no_values
only platform x = record no_values { platform_value = some x }
only host x = record no_values { host_value = some x }
only workspace x = record no_values { workspace_value = some x }
only repository x = record no_values { repository_value = some x }
only task_environment x = record no_values { task_environment_value = some x }

abbrev pub is_global : ScopeLevel → Bool
is_global global = true
is_global l = false

-- `normalizeScope`: none where it throws.
unfoldable pub normalize_scope : Env → ScopeLevel → Option String → Option Scope
normalize_scope env global none = some (record { level = global; values = no_values })
normalize_scope env global (some x) = none
normalize_scope env level none = none
normalize_scope env level (some x) =
    if env.bytes (env.canonical x) == 0 || ltb scope_value_max (env.bytes (env.canonical x))
    then none
    else some (record { level = level; values = only level (env.canonical x) })

-- The keys of the values that are set, in the order of `validateScopeConsistency`.
abbrev pub named : String → Option String → List String → List String
named k none ks = ks
named k (some x) ks = k ∷ ks

unfoldable pub set_values : Values → List String
set_values v = named "platform" v.platform_value (
    named "host" v.host_value (
      named "workspace" v.workspace_value (
        named "repository" v.repository_value
          (named "taskEnvironment" v.task_environment_value []))))

abbrev pub level_name : ScopeLevel → String
level_name global = "global"
level_name platform = "platform"
level_name host = "host"
level_name workspace = "workspace"
level_name repository = "repository"
level_name task_environment = "task_environment"

-- No value for the global scope; for another one, exactly one value is set and the level names it.
abbrev pub names_one : String → List String → Bool
names_one l (k ∷ []) = str_eq k l
names_one l ks = false

abbrev pub is_nil : List String → Bool
is_nil [] = true
is_nil (k ∷ ks) = false

unfoldable pub scope_consistent : ScopeLevel → Values → Bool
scope_consistent level v =
    if is_global level then is_nil (set_values v) else names_one (level_name level) (set_values v)

abbrev pub fits : Env → ℕ → Option String → Bool
fits env m none = true
fits env m (some x) = leb (env.bytes x) m

unfoldable pub values_fit : Env → Values → Bool
values_fit env v =
    fits env scope_value_max v.platform_value
    && fits env scope_value_max v.host_value
    && fits env scope_value_max v.workspace_value
    && fits env scope_value_max v.repository_value
    && fits env scope_value_max v.task_environment_value
