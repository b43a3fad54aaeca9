-- ===== src/OperationalTypes/Checks.antt =====
-- src/operational-memory-types.ts: the inputs of the writes and their validation.
use abmind.Prelude.{ℕ, String, Bool, true, ◌&&◌, Option, none, some, List, [], ◌∷◌, leb}
use abmind.OperationalTypes.{
  Env, ScopeLevel, Values, actor_max, content_max, fits, id_max, is_nil, lesson_max, reason_max,
  scope_consistent, set_values, values_fit,
}

pub record DraftInput : Type 0 where
  pub lesson : String
  pub problem : Option String
  pub recommendation : Option String
  pub evidence : String
  pub level : ScopeLevel
  pub values : Values
  pub confidence : ℕ
  pub sources : List (Option String)
  pub provenance : String

pub record Curation : Type 0 where
  pub lesson : Option String
  pub problem : Option String
  pub recommendation : Option String
  pub evidence : Option String
  pub level : Option ScopeLevel
  pub values : Values
  pub confidence : Option ℕ
  pub provenance : Option String

pub record PromoteInput : Type 0 where
  pub draft_id : String
  pub actor_id : String
  pub mutation_reason : String
  pub curate : Option Curation

pub record RejectInput : Type 0 where
  pub draft_id : String
  pub rejected_by : String
  pub rejection_reason : String

pub record ReviseInput : Type 0 where
  pub memory_id : String
  pub expected_content_hash : String
  pub content : String
  pub level : ScopeLevel
  pub values : Values
  pub confidence : ℕ
  pub provenance : String
  pub evidence : String
  pub mutation_reason : String
  pub actor_id : String

pub record RetireInput : Type 0 where
  pub memory_id : String
  pub expected_content_hash : String
  pub mutation_reason : String
  pub actor_id : String

unfoldable pub valid_create : Env → DraftInput → Bool
valid_create env i =
    leb (env.bytes i.lesson) lesson_max
    && fits env lesson_max i.problem
    && fits env lesson_max i.recommendation
    && values_fit env i.values
    && all_fit env i.sources
    && env.evidence_ok i.evidence
    && env.provenance_ok i.provenance
    && leb i.confidence 100
    && scope_consistent i.level i.values
  where
    all_fit : Env → List (Option String) → Bool
    all_fit env [] = true
    all_fit env (x ∷ xs) = fits env actor_max x && all_fit env xs

abbrev holds_in {ℓ} : {A : Type ℓ} → (A → Bool) → Option A → Bool
holds_in p none = true
holds_in p (some x) = p x

pub valid_curation : Env → Curation → Bool
valid_curation env c =
    fits env lesson_max c.lesson
    && fits env lesson_max c.problem
    && fits env lesson_max c.recommendation
    && values_fit env c.values
    && holds_in env.evidence_ok c.evidence
    && holds_in env.provenance_ok c.provenance
    && holds_in (λ n. leb n 100) c.confidence
    && (elim c.level [
      | some level ↦ scope_consistent level c.values
      | none ↦ is_nil (set_values c.values)
    ])

unfoldable pub valid_promote : Env → PromoteInput → Bool
valid_promote env i =
    leb (env.bytes i.draft_id) id_max
    && leb (env.bytes i.actor_id) actor_max
    && leb (env.bytes i.mutation_reason) reason_max
    && holds_in (valid_curation env) i.curate

pub valid_reject : Env → RejectInput → Bool
valid_reject env i =
    leb (env.bytes i.draft_id) id_max
    && leb (env.bytes i.rejected_by) actor_max
    && leb (env.bytes i.rejection_reason) reason_max

unfoldable pub valid_revise : Env → ReviseInput → Bool
valid_revise env i =
    leb (env.bytes i.memory_id) id_max
    && leb (env.bytes i.content) content_max
    && leb (env.bytes i.actor_id) actor_max
    && leb (env.bytes i.mutation_reason) reason_max
    && values_fit env i.values
    && env.evidence_ok i.evidence
    && env.provenance_ok i.provenance
    && leb i.confidence 100
    && scope_consistent i.level i.values

unfoldable pub valid_retire : Env → RetireInput → Bool
valid_retire env i =
    leb (env.bytes i.memory_id) id_max
    && leb (env.bytes i.actor_id) actor_max
    && leb (env.bytes i.mutation_reason) reason_max
