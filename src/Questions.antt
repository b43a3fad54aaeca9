-- ===== src/Questions.antt =====
-- src/dream-question-store.ts: `DreamQuestionStore`. The table dream_questions is the list of its
-- rows, and a statement is an operation of Prelude.Table; `id` is its primary key. What the store
-- reads of other tables is a `World`: the memories by their id, and what `isSuppressedByForget`
-- answers. The clock is an argument.
pub mod Rows
pub mod Capacity
pub mod Serving
pub mod Owners
mod Tests
use Prim.Native.String.{compare}
use text.Mathlib.Text.{is_lt, is_le}
use abmind.Prelude.{
  ℕ, zero, suc, ◌+◌, ◌*◌, String, Bool, true, false, ◌&&◌, ◌||◌, not, Option, none, some, List, [],
  ◌∷◌, ◌++◌, str_eq, ltb, leb, ◌==◌, if◌then◌else◌, is_none, filter, take, map, max, min, or_else,
}
use abmind.Prelude.Table.{select, update, delete, count}

pub data Status : Type 0 where
  pending asked resolved expired dismissed : Status

pub record Question : Type 0 where
  pub id : String
  pub user_id : String
  pub memory_a_id : ℕ
  pub memory_b_id : ℕ
  pub memory_a_revision : ℕ
  pub memory_b_revision : ℕ
  pub question : String
  pub status : Status
  pub source_run_id : String
  pub created_at : ℕ
  pub expires_at : ℕ
  pub asked_at : Option ℕ
  pub resolved_at : Option ℕ
  pub dismissed_at : Option ℕ
  pub delivery_key : Option String

-- The columns of a memory that `durableEvidence` reads.
pub record Evidence : Type 0 where
  pub user_id : String
  pub valid_to : Option String
  pub superseded_by_id : Option ℕ
  pub classification : ℕ
  pub encrypted : ℕ
  pub sealed_format_version : ℕ
  pub revision : ℕ

-- What the store reads beside its table; a read that throws is none, or true.
pub record World : Type 0 where
  pub memories : ℕ → Option Evidence
  pub forgotten : String → ℕ → Bool
  pub today : String

abbrev pub global_cap : ℕ
global_cap = 20

abbrev pub week_ms : ℕ
week_ms = 7 * 24 * 3600000

abbrev pub terminal_retention_ms : ℕ
terminal_retention_ms = 30 * 24 * 3600000

abbrev pub list_default_limit : ℕ
list_default_limit = 20

abbrev pub list_max_limit : ℕ
list_max_limit = 50

-- status = 'pending', and the like
abbrev pub is_pending : Status → Bool
is_pending pending = true
is_pending _ = false

abbrev pub is_asked : Status → Bool
is_asked asked = true
is_asked _ = false

abbrev pub is_resolved : Status → Bool
is_resolved resolved = true
is_resolved _ = false

abbrev pub is_expired : Status → Bool
is_expired expired = true
is_expired _ = false

abbrev pub is_dismissed : Status → Bool
is_dismissed dismissed = true
is_dismissed _ = false

-- status IN ('pending','asked')
abbrev pub is_active : Status → Bool
is_active pending = true
is_active asked = true
is_active _ = false

abbrev is_over : Option String → String → Bool
is_over none today = false
is_over (some d) today = is_le (compare d today)

abbrev evidence_fails : World → String → ℕ → ℕ → Option Evidence → Bool
evidence_fails w user id captured none = true
evidence_fails w user id captured (some e) =
    not (str_eq e.user_id user)
    || not (is_none e.superseded_by_id)
    || is_over e.valid_to w.today
    || leb 3 e.classification
    || not (e.encrypted == 0)
    || not (e.sealed_format_version == 0)
    || w.forgotten user id
    || not (e.revision == captured)

pub evidence_invalid : World → String → ℕ → ℕ → Bool
evidence_invalid w user id captured = evidence_fails w user id captured (w.memories id)

abbrev pub is_stale : World → Question → Bool
is_stale w r =
    evidence_invalid w r.user_id r.memory_a_id r.memory_a_revision
    || evidence_invalid w r.user_id r.memory_b_id r.memory_b_revision

abbrev resolve : ℕ → Question → Question
resolve now r = record r { status = resolved; resolved_at = some now }

-- What the loop of `reconcileUser` does with an active row.
pub reconcile_row : World → ℕ → Question → Question
reconcile_row w now r =
    if is_stale w r
    then if w.forgotten r.user_id r.memory_a_id || w.forgotten r.user_id r.memory_b_id
      then record (resolve now r) { question = "[forgotten]" }
      else resolve now r
    else if leb r.expires_at now
    then record r { status = expired }
    else r

-- t < now - terminal_retention_ms, where t is not null
abbrev is_past : ℕ → Option ℕ → Bool
is_past now none = false
is_past now (some t) = ltb (t + terminal_retention_ms) now

-- The rows that the four DELETE statements of `reconcileUser` take.
abbrev pub is_prunable : ℕ → Question → Bool
is_prunable now r =
    is_resolved r.status && is_past now r.resolved_at
    || is_expired r.status && is_past now (some r.expires_at)
    || is_dismissed r.status && is_past now r.dismissed_at
    || is_asked r.status && is_past now r.asked_at

abbrev pub owned : String → Question → Bool
owned user r = str_eq r.user_id user

pub reconcile_user : World → ℕ → String → List Question → List Question
reconcile_user w now user rows =
    delete (λ r. owned user r && is_prunable now r)
      (update (λ r. owned user r && is_active r.status) (reconcile_row w now) rows)

abbrev among : String → List String → Bool
among x [] = false
among x (y ∷ ys) = str_eq x y || among x ys

-- SELECT DISTINCT
distinct : List String → List String
distinct [] = []
distinct (x ∷ xs) = let rest = distinct xs in if among x rest then rest else x ∷ rest

active_owners : List Question → List String
active_owners rows = distinct (map (λ r. r.user_id) (filter (λ r. is_active r.status) rows))

-- The owners other than the caller, one after the other.
pub reconcile_others : World → ℕ → String → List String → List Question → List Question
reconcile_others w now user [] rows = rows
reconcile_others w now user (o ∷ os) rows =
    reconcile_others w now user os (if str_eq o user then rows else reconcile_user w now o rows)

pub reconcile_all : World → ℕ → String → List Question → List Question
reconcile_all w now user rows =
    let own = reconcile_user w now user rows in reconcile_others w now user (active_owners own) own

pub record Candidate : Type 0 where
  pub user_id : String
  pub memory_a_id : ℕ
  pub memory_b_id : ℕ
  pub memory_a_revision : ℕ
  pub memory_b_revision : ℕ
  pub question : String
  pub source_run_id : String

pub data Insertion : Type 0 where
  accepted : String → Insertion
  active_pair recent_asked_or_dismissed over_cap duplicate : Insertion

abbrev pub same_pair : Candidate → Question → Bool
same_pair c r =
    str_eq r.user_id c.user_id && r.memory_a_id == c.memory_a_id && r.memory_b_id == c.memory_b_id

abbrev newest : ℕ → Option ℕ → ℕ
newest t none = t
newest t (some u) = max t u

-- Math.max(MAX(asked_at), MAX(dismissed_at)) of the pair, 0 where both are null
recent_time : Candidate → List Question → ℕ
recent_time c [] = 0
recent_time c (r ∷ rs) =
    let rest = recent_time c rs in
    if same_pair c r then newest (newest rest r.asked_at) r.dismissed_at else rest

abbrev pub new_question : ℕ → String → Candidate → Question
new_question now id c = record {
  id = id;
  user_id = c.user_id;
  memory_a_id = c.memory_a_id;
  memory_b_id = c.memory_b_id;
  memory_a_revision = c.memory_a_revision;
  memory_b_revision = c.memory_b_revision;
  question = c.question;
  status = pending;
  source_run_id = c.source_run_id;
  created_at = now;
  expires_at = now + week_ms;
  asked_at = none;
  resolved_at = none;
  dismissed_at = none;
  delivery_key = none;
}

-- Whether the INSERT throws: the primary key is taken, or the CHECK on the pair fails.
abbrev insert_throws : String → Candidate → List Question → Bool
insert_throws id c rows =
    not (is_none (select (λ r. str_eq r.id id) rows)) || leb c.memory_b_id c.memory_a_id

-- The part of `insertCandidate` that follows the reconciliation.
pub admit : ℕ → String → Candidate → List Question → List Question × Insertion
admit now id c rows =
    let t = recent_time c rows in
    if not (is_none (select (λ r. same_pair c r && is_active r.status) rows))
    then (rows, active_pair)
    else if ltb 0 t && ltb now (t + week_ms)
    then (rows, recent_asked_or_dismissed)
    else if leb global_cap (count (λ r. is_active r.status) rows)
    then (rows, over_cap)
    else if insert_throws id c rows
    then (rows, duplicate)
    else (rows ++ new_question now id c ∷ [], accepted id)

pub insert_candidate : World → ℕ → String → Candidate → List Question → List Question × Insertion
insert_candidate w now id c rows = admit now id c (reconcile_all w now c.user_id rows)

-- created_at ASC, id ASC
abbrev pub precedes : Question → Question → Bool
precedes r s =
    ltb r.created_at s.created_at || r.created_at == s.created_at && is_lt (compare r.id s.id)

pub insert_sorted : Question → List Question → List Question
insert_sorted r [] = r ∷ []
insert_sorted r (s ∷ ss) =
    let rest = insert_sorted r ss in if precedes s r then s ∷ rest else r ∷ s ∷ ss

-- ORDER BY created_at ASC, id ASC
pub ordered : List Question → List Question
ordered [] = []
ordered (r ∷ rs) = insert_sorted r (ordered rs)

abbrev pub head? {ℓ} : {A : Type ℓ} → List A → Option A
head? [] = none
head? (x ∷ xs) = some x

pub next_pending : World → ℕ → String → List Question → List Question × Option Question
next_pending w now user rows =
    let rows' = reconcile_user w now user rows in
    (rows', head? (ordered (filter (λ r. owned user r && is_pending r.status) rows')))

abbrev pub listed : Option Status → Status → Bool
listed none s = is_active s
listed (some pending) s = is_pending s
listed (some asked) s = is_asked s
listed (some resolved) s = is_resolved s
listed (some expired) s = is_expired s
listed (some dismissed) s = is_dismissed s

pub list_questions :
    World → ℕ → String → Option Status → Option ℕ → List Question → List Question × List Question
list_questions w now user status limit rows =
    let rows' = reconcile_user w now user rows in
    let bounded = max 1 (min list_max_limit (or_else limit list_default_limit)) in
    (rows', take bounded (ordered (filter (λ r. owned user r && listed status r.status) rows')))

pub data Marking : Type 0 where
  marked not_found conflict : Marking

-- id = ? AND user_id = ?
abbrev pub is_row : String → String → Question → Bool
is_row user id r = str_eq r.id id && owned user r

abbrev has_key : Option String → String → Bool
has_key none k = false
has_key (some j) k = str_eq j k

-- The answer of `markAsked` for the row that its UPDATE did not change.
abbrev marking : String → Option Question → Marking
marking key none = not_found
marking key (some r) = if is_asked r.status && has_key r.delivery_key key then marked else conflict

abbrev pub asks : String → String → Question → Bool
asks user id r = is_row user id r && is_pending r.status

abbrev pub ask : ℕ → String → Question → Question
ask now key r = record r { status = asked; asked_at = some now; delivery_key = some key }

pub mark_asked : World → ℕ → String → String → String → List Question → List Question × Marking
mark_asked w now user id key rows =
    let rows' = reconcile_user w now user rows in
    let rows'' = update (asks user id) (ask now key) rows' in
    if count (asks user id) rows' == 1
    then (rows'', marked)
    else (rows'', marking key (select (is_row user id) rows''))

pub data Dismissal : Type 0 where
  now_dismissed missing already_terminal : Dismissal

abbrev pub dismisses : String → String → Question → Bool
dismisses user id r = is_row user id r && is_active r.status

abbrev pub set_dismissed : ℕ → Question → Question
set_dismissed now r = record r { status = dismissed; dismissed_at = some now }

pub dismiss : World → ℕ → String → String → List Question → List Question × Dismissal
dismiss w now user id rows =
    let rows' = reconcile_user w now user rows in
    let rows'' = update (dismisses user id) (set_dismissed now) rows' in
    if count (dismisses user id) rows' == 1 then (rows'', now_dismissed) else (
      rows'',
      elim (select (is_row user id) rows'') [ none ↦ missing | some r ↦ already_terminal ],
    )
