-- ===== src/Service.antt =====
-- src/abmind-service.ts: `AbmindService`, from the request to its answer. A request that awaits its
-- handler is in `reading`, or owns an entry of `in_flight_mutations`; what the handler gives is a `Work`.
-- `stringify` and `parse` stand for JSON. The map of mutations is keyed by the principal and the key
-- themselves; an entry is put before those that are there, and the first under a key is found. `Claim` is
-- what a payload says of its user; `payload_error` is what `validatePayload` answers, and `payload_hash`
-- is the hash of the payload. `dispatched` is the history of the calls of `dispatchMutation`, under the
-- principal and the key, and `replies` that of the answers.
pub mod Guards
pub mod Executions
pub mod Answers
mod Tests
use abmind.Prelude.{
  utf16_length, ℕ, zero, suc, ◌+◌, ◌-◌, String, Bool, true, false, ◌&&◌, ◌||◌, not, Option, none,
  some, List, [], ◌∷◌, ◌++◌, str_eq, ltb, if◌then◌else◌, length, map, is_none,
}
use abmind.Prelude.Table.{select, delete, update}
use abmind.Protocol.{
  Domain, on_system, private, operational, operator, Entry, is_mutate, Safety, unavailable_safety,
  Envelope, Parsed, refused, parsed, parse_envelope, response_max_bytes, Code, unavailable,
  unauthorized, validation_error, idempotency_conflict, outcome_unknown, unsupported_version,
  unsupported_method, other_code,
}
use abmind.Ledger.{
  Row, reserve, mark_started, complete, mark_unknown, recover_crashed, cleanup, ReservationResult,
  was_completed, conflict, still_in_flight, unknown, admitted,
}

-- A field of a payload that names a principal.
pub data Named : Type 0 where
  absent ill_typed : Named
  named : String → Named

pub record Identity : Type 0 where
  pub owned : Named
  pub legacy : Named

pub record Claim : Type 0 where
  pub user_id : Named
  pub identity : Option Identity

pub record Context : Type 0 where
  pub principal_id : String
  pub granted_domains : List Domain
  pub allowed_methods : Option (List String)
  pub capabilities : Option (List String)
  pub allow_private_delegation : Bool

pub record Request : Type 0 where
  pub envelope : Envelope
  pub claim : Claim
  pub payload_error : Bool
  pub payload_hash : String

pub data Body : Type 0 where
  ok : String → Body
  failed : Code → Body

pub record Response : Type 0 where
  pub request_id : String
  pub body : Body

-- An entry of the map, with the requests that wait for its outcome.
pub record InFlightMutation : Type 0 where
  pub principal_id : String
  pub idempotency_key : String
  pub method : String
  pub payload_hash : String
  pub request_id : String
  pub joined : List String

pub record Service : Type 0 where
  pub rows : List Row
  pub has_ledger : Bool
  pub in_flight_mutations : List InFlightMutation
  pub reading : List String
  pub closed : Bool
  pub in_flight : ℕ
  pub request_count : ℕ
  pub dispatched : List (String × String)
  pub replies : List Response

abbrev same_domain : Domain → Domain → Bool
same_domain on_system on_system = true
same_domain private private = true
same_domain operational operational = true
same_domain operator operator = true
same_domain d e = false

abbrev pub has_domain : Domain → List Domain → Bool
has_domain d [] = false
has_domain d (e ∷ es) = same_domain d e || has_domain d es

abbrev has_text : String → List String → Bool
has_text s [] = false
has_text s (t ∷ ts) = str_eq s t || has_text s ts

abbrev pub allows : Option (List String) → String → Bool
allows none m = true
allows (some ms) m = has_text m ms

abbrev pub has_capability : Option String → Option (List String) → Bool
has_capability none cs = true
has_capability (some c) none = false
has_capability (some c) (some cs) = has_text c cs

pub authorize : Entry → Context → Bool
authorize e c =
    has_domain e.domain c.granted_domains
    && allows c.allowed_methods e.name
    && has_capability e.capability c.capabilities

abbrev may_be : Context → String → Bool
may_be c p = str_eq p c.principal_id || c.allow_private_delegation

abbrev user_ok : Context → Named → Bool
user_ok c absent = true
user_ok c ill_typed = false
user_ok c (named p) = may_be c p

-- The principal of an identity, by its new name or its old one.
abbrev identity_ok : Context → Named → Named → Bool
identity_ok c (named p) (named q) = str_eq p q && may_be c p
identity_ok c (named p) absent = may_be c p
identity_ok c absent (named q) = may_be c q
identity_ok c o l = false

abbrev identity_claim_ok : Context → Option Identity → Bool
identity_claim_ok c none = true
identity_claim_ok c (some i) = identity_ok c i.owned i.legacy

pub resolve_user_id : Context → Claim → Bool
resolve_user_id c p =
    has_domain private c.granted_domains && user_ok c p.user_id && identity_claim_ok c p.identity

abbrev is_private : Domain → Bool
is_private private = true
is_private d = false

abbrev is_unavailable : Option Safety → Bool
is_unavailable (some unavailable_safety) = true
is_unavailable s = false

-- The guards of `handleParsed` up to the count of what is in flight.
pub refusal : Entry → Context → Request → Option Code
refusal e c r =
    if not (authorize e c)
    then some unauthorized
    else if is_private e.domain && not (resolve_user_id c r.claim)
    then some unauthorized
    else if r.payload_error
    then some validation_error
    else if is_unavailable e.safety
    then some unavailable
    else none

-- What the ledger's database and the clock do during a call.
pub record Env : Type 0 where
  pub reserve_throws : Bool
  pub reserve_fails : Bool
  pub start_fails : Bool
  pub complete_fails : Bool
  pub unknown_fails : Bool
  pub now : ℕ
  pub later : ℕ

pub data Work : Type 0 where
  returns : String → Work
  returns_error : Code → String → Work
  throws_private : Code → Work
  throws_unauthorized throws : Work

abbrev sized : String → Body
sized text = if ltb response_max_bytes (utf16_length text) then failed validation_error else ok text

pub dispatch_mutation : Work → Body
dispatch_mutation (returns text) = sized text
dispatch_mutation (returns_error code text) = failed code
dispatch_mutation (throws_private code) = failed code
dispatch_mutation throws_unauthorized = failed outcome_unknown
dispatch_mutation throws = failed outcome_unknown

pub dispatch_read : Work → Body
dispatch_read (returns text) = sized text
dispatch_read (returns_error code text) = sized text
dispatch_read (throws_private code) = failed code
dispatch_read throws_unauthorized = failed unauthorized
dispatch_read throws = failed unavailable

abbrev pub respond : Body → String → Response
respond body id = record { request_id = id; body = body }

abbrev pub reply : String → Body → Service → Service
reply id body s = record s { replies = respond body id ∷ s.replies }

abbrev pub owns : String → String → InFlightMutation → Bool
owns p k m = str_eq m.principal_id p && str_eq m.idempotency_key k

pub remove : String → String → List InFlightMutation → List InFlightMutation
remove p k [] = []
remove p k (m ∷ ms) = if owns p k m then ms else m ∷ remove p k ms

pub join : String → String → String → List InFlightMutation → List InFlightMutation
join p k id [] = []
join p k id (m ∷ ms) =
    if owns p k m then record m { joined = id ∷ m.joined } ∷ ms else m ∷ join p k id ms

-- Every request that waits for a mutation, its owner's first.
abbrev pub waiting : InFlightMutation → List String
waiting m = m.request_id ∷ m.joined

abbrev is_unknown_outcome : Body → Bool
is_unknown_outcome (failed outcome_unknown) = true
is_unknown_outcome b = false

module _ (stringify : Response → String) (parse : Option String → Body) where
  -- What is kept of the outcome, and what is answered.
  pub keep_outcome : Env → String → String → String → Body → List Row → List Row × Body
  keep_outcome env p k id body rows =
      let (kept, done) =
        complete env.complete_fails env.now p k (stringify (respond body id)) rows in
      if is_unknown_outcome body
      then ((mark_unknown env.unknown_fails env.now p k rows).0, body)
      else if done
      then (kept, body)
      else ((mark_unknown env.unknown_fails env.later p k kept).0, failed outcome_unknown)

  pub settle_entry : Env → InFlightMutation → Body → Service → Service
  settle_entry env m outcome s =
      let (rows, body) =
        keep_outcome env m.principal_id m.idempotency_key m.request_id outcome s.rows in
      record s {
        rows = rows;
        in_flight_mutations = remove m.principal_id m.idempotency_key s.in_flight_mutations;
        in_flight = s.in_flight - length (waiting m);
        replies = map (respond body) (waiting m) ++ s.replies;
      }

  abbrev entry_of : Context → Request → Entry → String → InFlightMutation
  entry_of c r e k = record {
    principal_id = c.principal_id;
    idempotency_key = k;
    method = e.name;
    payload_hash = r.payload_hash;
    request_id = r.envelope.request_id;
    joined = [];
  }

  abbrev put : InFlightMutation → Service → Service
  put m s = record s {
    in_flight_mutations = m ∷ s.in_flight_mutations;
    in_flight = s.in_flight + 1;
  }

  pub own : Env → InFlightMutation → Service → Service
  own env m s =
      let (rows, done) =
        mark_started env.start_fails env.later m.principal_id m.idempotency_key s.rows in
      let s' = put m (record s { rows = rows }) in
      if done
      then record s' {
        request_count = s.request_count + 1;
        dispatched = (m.principal_id, m.idempotency_key) ∷ s.dispatched;
      }
      else settle_entry env m (failed outcome_unknown) s'

  -- A row that is in flight, with the owner of its dispatch, if there is one.
  pub await_owner : Request → String → String → String → Option InFlightMutation → Service → Service
  await_owner r p k m none s = reply r.envelope.request_id (failed outcome_unknown) s
  await_owner r p k m (some live) s =
      if str_eq live.method m && str_eq live.payload_hash r.payload_hash
      then record s {
        in_flight_mutations = join p k r.envelope.request_id s.in_flight_mutations;
        in_flight = s.in_flight + 1;
      }
      else reply r.envelope.request_id (failed outcome_unknown) s

  pub by_reservation :
      Env → Context → Request → Entry → String → ReservationResult → Service → Service
  by_reservation env c r e k (was_completed json) s =
      if not (authorize e c)
      then reply r.envelope.request_id (failed unauthorized) s
      else reply r.envelope.request_id (parse json) s
  by_reservation env c r e k conflict s =
      reply r.envelope.request_id (failed idempotency_conflict) s
  by_reservation env c r e k unknown s = reply r.envelope.request_id (failed outcome_unknown) s
  by_reservation env c r e k still_in_flight s =
      await_owner r c.principal_id k e.name (select (owns c.principal_id k) s.in_flight_mutations) s
  by_reservation env c r e k admitted s = own env (entry_of c r e k) s

  pub dispatch_with_idempotency : Env → Context → Request → Entry → String → Service → Service
  dispatch_with_idempotency env c r e k s =
      if env.reserve_throws
      then reply r.envelope.request_id (failed outcome_unknown) s
      else (let (rows, res) =
            reserve env.reserve_fails env.now c.principal_id k e.name r.payload_hash s.rows in
          by_reservation env c r e k res (record s { rows = rows }))

  pub begin_read : Request → Service → Service
  begin_read r s = record s {
    reading = r.envelope.request_id ∷ s.reading;
    in_flight = s.in_flight + 1;
    request_count = s.request_count + 1;
  }

  -- !request.idempotencyKey
  abbrev no_key : Option String → Bool
  no_key none = true
  no_key (some k) = str_eq k ""

  abbrev key_of : Option String → String
  key_of none = ""
  key_of (some k) = k

  pub handle_parsed : Env → Context → Request → Entry → Service → Service
  handle_parsed env c r e s = elim (refusal e c r) [
    | some code ↦ reply r.envelope.request_id (failed code) s
    | none ↦
        if not (is_mutate e.mutation)
        then begin_read r s
        else if no_key r.envelope.idempotency_key
        then reply r.envelope.request_id (failed validation_error) s
        else if not s.has_ledger
        then reply r.envelope.request_id (failed unavailable) s
        else dispatch_with_idempotency env c r e (key_of r.envelope.idempotency_key) s
  ]

  pub handle : Env → Context → Request → Service → Service
  handle env c r s =
      if s.closed
      then reply r.envelope.request_id (failed unavailable) s
      else (elim (parse_envelope r.envelope) [
        | refused code ↦ reply r.envelope.request_id (failed code) s
        | parsed e ↦ handle_parsed env c r e s
      ])

  -- The handler of a mutation has returned or thrown.
  pub settle : Env → String → String → Work → Service → Service
  settle env p k work s = elim (select (owns p k) s.in_flight_mutations) [
    | none ↦ s
    | some m ↦ settle_entry env m (dispatch_mutation work) s
  ]

abbrev put_back : String → Option (List String) → Option (List String)
put_back x none = none
put_back x (some ys) = some (x ∷ ys)

-- A request among those that read, taken out.
pub take_out : String → List String → Option (List String)
take_out id [] = none
take_out id (x ∷ xs) = if str_eq x id then some xs else put_back x (take_out id xs)

-- The handler of a read has returned or thrown.
pub settle_read : String → Work → Service → Service
settle_read id work s = elim (take_out id s.reading) [
  | none ↦ s
  | some rest ↦ record s {
    reading = rest;
    in_flight = s.in_flight - 1;
    replies = respond (dispatch_read work) id ∷ s.replies;
  }
]

pub close : Service → Service
close s = record s { closed = true }

-- A service that is made over the same database, after the process of the last one is gone.
pub restart : ℕ → Service → Service
restart now s = record s {
  rows = recover_crashed now s.rows;
  in_flight_mutations = [];
  reading = [];
  closed = false;
  in_flight = 0;
  request_count = 0;
}

pub clean : ℕ → Service → Service
clean now s = record s { rows = cleanup now s.rows }
