-- ===== src/Ledger.antt =====
-- src/abmind-request-ledger.ts: the idempotency ledger of the service. The table
-- abmind_service_requests is the list of its rows; a statement is an operation of Prelude.Table.
-- The clock is an argument, and so is `fails`, whether the statement that a `try` guards throws.
pub mod Phase
pub mod History
pub mod Dispatch
mod Tests
use abmind.Prelude.{
  ℕ, zero, suc, ◌+◌, ◌-◌, ◌*◌, String, Bool, true, false, ◌&&◌, ◌||◌, Option, none, some, List, [],
  ◌∷◌, ◌++◌, str_eq, ltb, leb, ◌==◌, if◌then◌else◌, is_none,
}
use abmind.Prelude.Table.{select, update, delete, count}

pub data State : Type 0 where
  reserved dispatch_started in_flight completed outcome_unknown : State

pub record Row : Type 0 where
  pub principal_id : String
  pub idempotency_key : String
  pub method : String
  pub payload_hash : String
  pub state : State
  pub response_json : Option String
  pub created_at : ℕ
  pub updated_at : ℕ

pub data ReservationResult : Type 0 where
  was_completed : Option String → ReservationResult
  conflict still_in_flight unknown admitted : ReservationResult

abbrev pub is_reserved : State → Bool
is_reserved reserved = true
is_reserved _ = false

abbrev pub is_in_flight : State → Bool
is_in_flight in_flight = true
is_in_flight _ = false

abbrev pub is_completed : State → Bool
is_completed completed = true
is_completed _ = false

abbrev pub is_unknown : State → Bool
is_unknown outcome_unknown = true
is_unknown _ = false

-- state IN ('reserved', 'dispatch_started', 'in_flight')
abbrev pub is_live : State → Bool
is_live completed = false
is_live outcome_unknown = false
is_live _ = true

-- principal_id = ? AND idempotency_key = ?, the table's primary key
abbrev pub key : String → String → Row → Bool
key p k r = str_eq r.principal_id p && str_eq r.idempotency_key k

abbrev pub fresh_row : ℕ → String → String → String → String → Row
fresh_row now p k m h = record {
  principal_id = p;
  idempotency_key = k;
  method = m;
  payload_hash = h;
  state = reserved;
  response_json = none;
  created_at = now;
  updated_at = now;
}

-- What `reserve` answers from the row that it found.
unfoldable pub answer : String → String → Row → ReservationResult
answer m h r =
    if str_eq r.method m && str_eq r.payload_hash h
    then (elim r.state [
      | completed ↦ was_completed r.response_json
      | in_flight ↦ still_in_flight
      | _ ↦ unknown
    ])
    else conflict

-- The guarded INSERT.
unfoldable pub insert : Bool → Row → List Row → List Row × ReservationResult
insert fails r rows = if fails then (rows, unknown) else (rows ++ r ∷ [], admitted)

unfoldable pub reserve :
    Bool → ℕ → String → String → String → String → List Row → List Row × ReservationResult
unfolding insert
reserve fails now p k m h rows = elim (select (key p k) rows) [
  | some r ↦ (rows, answer m h r)
  | none ↦ insert fails (fresh_row now p k m h) rows
]

abbrev set_state : State → ℕ → Row → Row
set_state s now r = record r { state = s; updated_at = now }

abbrev set_completed : String → ℕ → Row → Row
set_completed json now r = record r {
  state = completed;
  response_json = some json;
  updated_at = now;
}

unfoldable pub mark_started : Bool → ℕ → String → String → List Row → List Row × Bool
mark_started fails now p k rows = if fails then (rows, false) else (
  update (λ r. key p k r && is_reserved r.state) (set_state in_flight now) rows,
  count (λ r. key p k r && is_reserved r.state) rows == 1,
)

unfoldable pub complete : Bool → ℕ → String → String → String → List Row → List Row × Bool
complete fails now p k json rows = if fails then (rows, false) else (
  update (λ r. key p k r && is_in_flight r.state) (set_completed json now) rows,
  count (λ r. key p k r && is_in_flight r.state) rows == 1,
)

abbrev state_is_unknown : Option Row → Bool
state_is_unknown none = false
state_is_unknown (some r) = is_unknown r.state

unfoldable pub mark_unknown : Bool → ℕ → String → String → List Row → List Row × Bool
mark_unknown fails now p k rows =
    if fails
    then (rows, false)
    else (let rows' =
          update (λ r. key p k r && is_live r.state) (set_state outcome_unknown now) rows in
        (
          rows',
          (count (λ r. key p k r && is_live r.state) rows == 1)
              || state_is_unknown (select (key p k) rows'),
        ))

pub recover_crashed : ℕ → List Row → List Row
recover_crashed now rows = update (λ r. is_live r.state) (set_state outcome_unknown now) rows

abbrev pub retention : ℕ
retention = 30 * 24 * 3600000

abbrev pub max_completed : ℕ
max_completed = 10000

-- The least updated_at of a completed row.
abbrev older : ℕ → Option ℕ → ℕ
older t none = t
older t (some u) = if ltb u t then u else t

pub oldest : List Row → Option ℕ
oldest [] = none
oldest (r ∷ rs) = if is_completed r.state then some (older r.updated_at (oldest rs)) else oldest rs

abbrev evictable : Option ℕ → Row → Bool
evictable none r = false
evictable (some t) r = is_completed r.state && r.updated_at == t

pub delete_first : Option ℕ → List Row → List Row
delete_first t [] = []
delete_first t (r ∷ rs) = if evictable t r then rs else r ∷ delete_first t rs

-- DELETE … WHERE rowid IN (SELECT rowid … ORDER BY updated_at ASC LIMIT n), one row at a time.
pub evict : ℕ → List Row → List Row
evict zero rows = rows
evict (suc n) rows = evict n (delete_first (oldest rows) rows)

-- `updated_at < now - retention`, over the integers.
pub cleanup : ℕ → List Row → List Row
unfolding evict delete_first oldest
cleanup now rows =
    let kept = delete (λ r. is_completed r.state && ltb (r.updated_at + retention) now) rows in
    let c = count (λ r. is_completed r.state) kept in
    if ltb max_completed c then evict (c - max_completed) kept else kept
