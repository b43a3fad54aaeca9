-- ===== src/Operational.antt =====
-- src/operational-memory-store.ts: drafts of lessons, the memories that they are promoted to, and the
-- versions of a memory. A transaction is one operation. The ids of a write come with it; that the
-- database refuses an id which exists is left out, as are the foreign keys and the recall query.
pub mod Writes
pub mod Soundness
pub mod Promotion
pub mod Concurrency
pub mod Scopes
pub mod Placement
pub mod Pages
mod Tests
use abmind.Prelude.{
  ℕ, ◌+◌, String, Bool, true, false, ◌&&◌, ◌||◌, not, Option, none, some, List, [], ◌∷◌, ◌++◌,
  str_eq, ltb, leb, ◌==◌, if◌then◌else◌, is_none, or_else, ◌>>=◌,
}
use abmind.Prelude.Table.{select, update, count}
use abmind.OperationalTypes.{
  Draft, DraftStatus, Env, HashInput, Memory, MemoryStatus, Result, Scope, ScopeLevel, Values,
  Version, active, actor_max, conflict, content_max, draft, fits, global, host, id_max, is_global,
  is_nil, lesson_max, level_name, named, names_one, no_values, normalize_scope, not_found, ok, only,
  platform, promoted, reason_max, rejected, repository, retired, scope_consistent, scope_value,
  scope_value_max, set_values, task_environment, validation_error, values_fit, workspace,
}
use abmind.OperationalTypes.Checks.{
  Curation, DraftInput, PromoteInput, RejectInput, RetireInput, ReviseInput, valid_create,
  valid_curation, valid_promote, valid_reject, valid_retire, valid_revise,
}

pub record Store : Type 0 where
  pub drafts : List Draft
  pub memories : List Memory
  pub versions : List Version

abbrev pub is_draft : String → Draft → Bool
is_draft i d = str_eq d.id i

abbrev pub is_memory : String → Memory → Bool
is_memory i m = str_eq m.id i

abbrev pub is_version : String → Version → Bool
is_version i v = str_eq v.id i

abbrev pub get_draft : String → Store → Option Draft
get_draft i s = select (is_draft i) s.drafts

abbrev pub get_memory : String → Store → Option Memory
get_memory i s = select (is_memory i) s.memories

abbrev pub get_version : String → Store → Option Version
get_version i s = select (is_version i) s.versions

-- The row that a write answers with; it is there.
abbrev value_of : {A : Type 0} → Option A → Result A
value_of none = not_found
value_of (some x) = ok x

abbrev new_draft : String → ℕ → DraftInput → Scope → Draft
new_draft id now i scope = record {
  id = id;
  status = draft;
  lesson = i.lesson;
  problem = i.problem;
  recommendation = i.recommendation;
  evidence = i.evidence;
  scope = scope;
  confidence = i.confidence;
  sources = i.sources;
  provenance = i.provenance;
  created_at = now;
  updated_at = now;
  promoted_memory_id = none;
  rejected_by = none;
  rejected_at = none;
  rejection_reason = none;
}

abbrev pub insert_draft : Draft → Store → Store × Result Draft
insert_draft d s =
    let s' : Store = record s { drafts = s.drafts ++ d ∷ [] } in (s', value_of (get_draft d.id s'))

pub create_draft : Env → String → ℕ → DraftInput → Store → Store × Result Draft
create_draft env id now i s =
    if not (valid_create env i)
    then (s, validation_error)
    else (elim (normalize_scope env i.level (scope_value i.level i.values)) [
      | none ↦ (s, validation_error)
      | some scope ↦ insert_draft (new_draft id now i scope) s
    ])

-- What the draft and its curation say of the memory.
abbrev curated_level : Option Curation → Draft → ScopeLevel
curated_level none d = d.scope.level
curated_level (some c) d = or_else c.level d.scope.level

abbrev curated_values : Option Curation → Draft → Values
curated_values none d = d.scope.values
curated_values (some c) d = if is_none c.level then d.scope.values else c.values

pub curated : Option Curation → Draft → Scope → HashInput
curated c d scope = record {
  content = or_else (c >>= (λ x. x.lesson)) d.lesson;
  status = active;
  scope = scope;
  confidence = or_else (c >>= (λ x. x.confidence)) d.confidence;
  provenance = or_else (c >>= (λ x. x.provenance)) d.provenance;
  evidence = or_else (c >>= (λ x. x.evidence)) d.evidence;
}

-- The ids that randomUUID gives to a promotion, and the clock.
pub record Stamp : Type 0 where
  pub memory_id : String
  pub version_id : String
  pub now : ℕ

abbrev pub version_of :
    Env → String → String → Option String → HashInput → String → String → ℕ → Version
version_of env id memory_id previous h reason actor now = record {
  id = id;
  memory_id = memory_id;
  previous_version_id = previous;
  status = h.status;
  scope = h.scope;
  content = h.content;
  content_hash = env.hash h;
  confidence = h.confidence;
  provenance = h.provenance;
  evidence = h.evidence;
  mutation_reason = reason;
  actor_id = actor;
  created_at = now;
}

abbrev pub memory_of : Env → Stamp → HashInput → Memory
memory_of env t h = record {
  id = t.memory_id;
  status = h.status;
  scope = h.scope;
  content_hash = env.hash h;
  current_version_id = t.version_id;
  confidence = h.confidence;
  provenance = h.provenance;
  created_at = t.now;
  updated_at = t.now;
}

abbrev pub to_promoted : String → ℕ → Draft → Draft
to_promoted memory_id now d = record d {
  status = promoted;
  promoted_memory_id = some memory_id;
  updated_at = now;
}

pub insert_memory : Env → Stamp → PromoteInput → HashInput → Store → Store × Result Memory
insert_memory env t i h s =
    let s' : Store = record {
      drafts = update (is_draft i.draft_id) (to_promoted t.memory_id t.now) s.drafts;
      memories = s.memories ++ memory_of env t h ∷ [];
      versions =
          s.versions
          ++ version_of env t.version_id t.memory_id none h i.mutation_reason i.actor_id t.now ∷ [];
    } in
    (s', value_of (get_memory t.memory_id s'))

pub promote_new : Env → Stamp → PromoteInput → Draft → Store → Store × Result Memory
promote_new env t i d s =
    elim (normalize_scope env (curated_level i.curate d)
      (scope_value (curated_level i.curate d) (curated_values i.curate d))) [
        | none ↦ (s, validation_error)
        | some scope ↦ insert_memory env t i (curated i.curate d scope) s
      ]

-- The answer for a draft that was promoted: its memory.
abbrev promoted_memory : Option Memory → Result Memory
promoted_memory none = conflict none
promoted_memory (some m) = ok m

-- What the status of the draft found decides.
abbrev pub promote_as :
    Env → Stamp → PromoteInput → Draft → Store → DraftStatus → Store × Result Memory
promote_as env t i d s draft = promote_new env t i d s
promote_as env t i d s rejected = (s, conflict none)
promote_as env t i d s promoted =
    (s, promoted_memory (d.promoted_memory_id >>= (λ id. get_memory id s)))

pub promote_draft : Env → Stamp → PromoteInput → Store → Store × Result Memory
promote_draft env t i s =
    if not (valid_promote env i) then (s, validation_error) else (elim (get_draft i.draft_id s) [
      | none ↦ (s, not_found)
      | some d ↦ promote_as env t i d s d.status
    ])

abbrev pub is_open : DraftStatus → Bool
is_open draft = true
is_open x = false

abbrev pub to_rejected : RejectInput → ℕ → Draft → Draft
to_rejected i now d = record d {
  status = rejected;
  rejected_by = some i.rejected_by;
  rejected_at = some now;
  rejection_reason = some i.rejection_reason;
  updated_at = now;
}

-- The update changes the row that was read, so its second branch of no changes is not taken.
pub reject_open : RejectInput → ℕ → Store → Store × Result Draft
reject_open i now s =
    let s' : Store = record s {
      drafts = update (λ d. is_draft i.draft_id d && is_open d.status) (to_rejected i now) s.drafts;
    } in
    (s', value_of (get_draft i.draft_id s'))

abbrev pub reject_as : RejectInput → ℕ → Draft → Store → DraftStatus → Store × Result Draft
reject_as i now d s draft = reject_open i now s
reject_as i now d s rejected = (s, ok d)
reject_as i now d s promoted = (s, conflict none)

pub reject_draft : Env → ℕ → RejectInput → Store → Store × Result Draft
reject_draft env now i s =
    if not (valid_reject env i) then (s, validation_error) else (elim (get_draft i.draft_id s) [
      | none ↦ (s, not_found)
      | some d ↦ reject_as i now d s d.status
    ])

abbrev pub current : Memory → Option (String × String)
current m = some (m.current_version_id, m.content_hash)

abbrev pub unchanged : String → String → Memory → Bool
unchanged i expected m = is_memory i m && str_eq m.content_hash expected

-- The compare-and-set of a memory after its version is inserted: `found` is the row as it is read again. A
-- CasConflict rolls back.
abbrev pub compare_and_set :
    Version → String → (Memory → Memory) → Option Memory → Store → Store × Result Memory
compare_and_set v expected f none s = (s, not_found)
compare_and_set v expected f (some m) s =
    if not (str_eq m.content_hash expected)
    then (s, conflict (current m))
    else if count (unchanged v.memory_id expected) s.memories == 0
    then (s, conflict (current m))
    else (let s' : Store = record s {
      memories = update (unchanged v.memory_id expected) f s.memories;
      versions = s.versions ++ v ∷ [];
    } in
        (s', value_of (get_memory v.memory_id s')))

abbrev pub to_revised : Version → Memory → Memory
to_revised v m = record m {
  current_version_id = v.id;
  content_hash = v.content_hash;
  status = v.status;
  scope = v.scope;
  confidence = v.confidence;
  provenance = v.provenance;
  updated_at = v.created_at;
}

abbrev pub to_retired : Version → Memory → Memory
to_retired v m = record m {
  current_version_id = v.id;
  content_hash = v.content_hash;
  status = v.status;
  updated_at = v.created_at;
}

abbrev pub revised_state : ReviseInput → Scope → HashInput
revised_state i scope = record {
  content = i.content;
  status = active;
  scope = scope;
  confidence = i.confidence;
  provenance = i.provenance;
  evidence = i.evidence;
}

abbrev pub retired_state : Memory → Scope → HashInput
retired_state m scope = record {
  content = "";
  status = retired;
  scope = scope;
  confidence = m.confidence;
  provenance = m.provenance;
  evidence = "[]";
}

pub revise_found : Env → String → ℕ → ReviseInput → Memory → Store → Store × Result Memory
revise_found env version_id now i m s =
    if not (str_eq m.content_hash i.expected_content_hash)
    then (s, conflict (current m))
    else (elim (normalize_scope env i.level (scope_value i.level i.values)) [
      | none ↦ (s, validation_error)
      | some scope ↦
          let v =
            version_of env version_id i.memory_id (some m.current_version_id)
              (revised_state i scope) i.mutation_reason i.actor_id now in
          compare_and_set v i.expected_content_hash (to_revised v) (get_memory i.memory_id s) s
    ])

pub revise : Env → String → ℕ → ReviseInput → Store → Store × Result Memory
revise env version_id now i s =
    if not (valid_revise env i) then (s, validation_error) else (elim (get_memory i.memory_id s) [
      | none ↦ (s, not_found)
      | some m ↦ revise_found env version_id now i m s
    ])

pub retire_found : Env → String → ℕ → RetireInput → Memory → Store → Store × Result Memory
retire_found env version_id now i m s =
    if not (str_eq m.content_hash i.expected_content_hash)
    then (s, conflict (current m))
    else (elim (normalize_scope env m.scope.level (scope_value m.scope.level m.scope.values)) [
      | none ↦ (s, validation_error)
      | some scope ↦
          let v =
            version_of env version_id i.memory_id (some m.current_version_id)
              (retired_state m scope) i.mutation_reason i.actor_id now in
          compare_and_set v i.expected_content_hash (to_retired v) (get_memory i.memory_id s) s
    ])

pub retire : Env → String → ℕ → RetireInput → Store → Store × Result Memory
retire env version_id now i s =
    if not (valid_retire env i) then (s, validation_error) else (elim (get_memory i.memory_id s) [
      | none ↦ (s, not_found)
      | some m ↦ retire_found env version_id now i m s
    ])
