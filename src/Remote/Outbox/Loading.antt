-- ===== src/Remote/Outbox/Loading.antt =====
-- src/remote/request-outbox.ts: the load of the outbox file when the process starts, and the file of the
-- first version. An entry of the file is a `RawEntry`, with its times as texts; a field that the code asks
-- the type of is `malformed` where it has another. What JavaScript itself gives, JSON and the dates, is a
-- `Texts`, and the sizes of the JSON are those of a `Sizes`. The last attempt of an entry of the first
-- version, which the code takes as it is, is read as a time here.
pub mod Reload
pub mod Waiting
mod Tests
use abmind.Prelude.{
  utf16_length, ℕ, ◌+◌, ◌*◌, ◌≡◌, refl, String, Bool, true, false, ◌&&◌, ◌||◌, not, Option, none,
  some, List, [], ◌∷◌, map, str_eq, ltb, leb, if◌then◌else◌, length, ◌>>=◌, All, arith, Bool-cases,
  Option-cases, inl, inr, ap, ◌∙◌, ◌≤◌,
}
use abmind.Remote.Outbox.{
  Entry, Outbox, Disk, DeliveryState, admitted, in_flight, retry_wait, terminal_unknown,
  RetryFailure, timeout, send_failed, socket_lost, generation_lost, connection_refused,
  is_in_flight, checkpoint, max_entries, max_entry_bytes, max_file_bytes,
}

pub data Field (A : Type 0) : Type 0 where
  missing malformed : Field A
  present : A → Field A

pub record RawEntry : Type 0 where
  pub id : Field String
  pub method : Field String
  pub request_id : Field String
  pub idempotency_key : Option String
  pub body : Field String
  pub version : Field ℕ
  pub created_at : Field String
  pub attempts : Field ℕ
  pub state : Field String
  pub deadline_at : Field String
  pub last_failure : Field String
  pub next_attempt_at : Field String
  pub last_attempt_at : Field String

abbrev pub method_max : ℕ
method_max = 128

abbrev pub retry_deadline : ℕ
retry_deadline = 15 * 60000

-- What is required of every entry.
pub record Base : Type 0 where
  pub id : String
  pub method : String
  pub request_id : String
  pub body : String
  pub version : ℕ
  pub created_at : ℕ
  pub attempts : ℕ

abbrev required {ℓ} : {A : Type 0} {B : Type ℓ} → Field A → (A → Option B) → Option B
required missing f = none
required malformed f = none
required (present x) f = f x

abbrev filled : String → Option String
filled s = if str_eq s "" then none else some s

abbrev short : String → Option String
short s = if ltb method_max (utf16_length s) then none else filled s

-- What the entry is read with: `Date.parse`, with none for NaN.
pub base : (String → Option ℕ) → RawEntry → Option Base
base date r = do
  id ← required r.id filled
  method ← required r.method short
  request_id ← required r.request_id filled
  body ← required r.body (λ s. some s)
  version ← required r.version (λ n. some n)
  created_at ← required r.created_at date
  attempts ← required r.attempts (λ n. some n)
  some (record {
    id = id;
    method = method;
    request_id = request_id;
    body = body;
    version = version;
    created_at = created_at;
    attempts = attempts;
  })

-- A field that may be missing, but not malformed.
abbrev pub optional : {A B : Type 0} → Field A → (A → Option B) → Option (Option B)
optional missing f = some none
optional malformed f = none
optional (present x) f = f x >>= (λ y. some (some y))

abbrev pub state_of : String → Option DeliveryState
state_of s =
    if str_eq s "admitted"
    then some admitted
    else if str_eq s "in_flight"
    then some in_flight
    else if str_eq s "retry_wait"
    then some retry_wait
    else if str_eq s "terminal_unknown"
    then some terminal_unknown
    else none

abbrev pub failure_of : String → Option RetryFailure
failure_of s =
    if str_eq s "timeout"
    then some timeout
    else if str_eq s "send_failed"
    then some send_failed
    else if str_eq s "socket_lost"
    then some socket_lost
    else if str_eq s "generation_lost"
    then some generation_lost
    else if str_eq s "connection_refused"
    then some connection_refused
    else none

abbrev entry_of :
    Option String → Base → DeliveryState → ℕ → Option ℕ → Option ℕ → Option RetryFailure → Entry
entry_of key b state deadline_at last next failure = record {
  id = b.id;
  method = b.method;
  request_id = b.request_id;
  idempotency_key = key;
  body = b.body;
  version = b.version;
  state = state;
  created_at = b.created_at;
  deadline_at = deadline_at;
  attempts = b.attempts;
  last_attempt_at = last;
  next_attempt_at = next;
  last_failure = failure;
}

abbrev not_before : ℕ → ℕ → Option ℕ
not_before created deadline = if ltb deadline created then none else some deadline

pub valid_v2 : (String → Option ℕ) → RawEntry → Option Entry
unfolding base
valid_v2 date r = do
  b ← base date r
  state ← required r.state state_of
  deadline_at ← required r.deadline_at (λ s. date s >>= not_before b.created_at)
  failure ← optional r.last_failure failure_of
  next ← optional r.next_attempt_at date
  last ← optional r.last_attempt_at date
  some (entry_of r.idempotency_key b state deadline_at last next failure)

abbrev time_of : (String → Option ℕ) → Field String → Option ℕ
time_of date (present s) = date s
time_of date f = none

-- An entry of the first version, whose deadline is reckoned from its age.
abbrev aged : (String → Option ℕ) → ℕ → RawEntry → Base → Entry
aged date now r b =
    if leb (b.created_at + retry_deadline) now
    then entry_of r.idempotency_key b terminal_unknown (b.created_at + retry_deadline)
        (time_of date r.last_attempt_at) none (some timeout)
    else entry_of r.idempotency_key b admitted (b.created_at + retry_deadline)
        (time_of date r.last_attempt_at) none none

pub migrated : (String → Option ℕ) → ℕ → RawEntry → Option Entry
unfolding base
migrated date now r = base date r >>= (λ b. some (aged date now r b))

-- The sizes of the JSON of what is in the file.
pub record Sizes : Type 0 where
  pub file : List RawEntry → ℕ
  pub entry : RawEntry → ℕ

abbrev pub among : String → List String → Bool
among i [] = false
among i (j ∷ js) = str_eq i j || among i js

abbrev new_entry : ℕ → List String → Entry → Option Entry
new_entry size seen e = if among e.id seen || ltb max_entry_bytes size then none else some e

-- The entries one after the other: none, where one is refused, or comes a second time, or is too big.
pub scan : Sizes → (RawEntry → Option Entry) → List String → List RawEntry → Option (List Entry)
scan z read seen [] = some []
scan z read seen (r ∷ rs) = do
  e ← read r
  x ← new_entry (z.entry r) seen e
  es ← scan z read (e.id ∷ seen) rs
  some (x ∷ es)

abbrev pub fits : Sizes → List RawEntry → Bool
fits z rs = not (ltb max_entries (length rs) || ltb max_file_bytes (z.file rs))

abbrev pub read_all : Sizes → (RawEntry → Option Entry) → List RawEntry → Option (List Entry)
read_all z read rs = if fits z rs then scan z read [] rs else none

pub data File : Type 0 where
  garbage : File
  version_1 version_2 : List RawEntry → File

-- `Date.parse` and `toISOString`, and `JSON.parse` and `JSON.stringify` of a file.
pub record Texts : Type 0 where
  pub parse_date : String → Option ℕ
  pub to_iso : ℕ → String
  pub parse_file : String → File
  pub stringify : List RawEntry → String

abbrev pub unloaded : ℕ → Outbox
unloaded wait = record {
  entries = [];
  degraded = false;
  quarantined = false;
  retry_deadline_ms = wait;
  disk = [];
}

-- The file is renamed, so that none is left.
abbrev pub quarantine : Outbox → Outbox
quarantine o = record o { entries = []; quarantined = true; disk = [] }

pub normalize : Entry → Entry
normalize e =
    if is_in_flight e.state then record e { state = retry_wait; next_attempt_at = none } else e

abbrev pub any_in_flight : List Entry → Bool
any_in_flight [] = false
any_in_flight (e ∷ es) = is_in_flight e.state || any_in_flight es

abbrev keep_entries : List Entry → Outbox → Outbox
keep_entries es o = record o { entries = es }

pub validate_v2 : Disk → Option (List Entry) → Outbox → Outbox
validate_v2 d none o = quarantine o
validate_v2 d (some loaded) o =
    let entries = map normalize loaded in
    let read = record o { entries = entries; disk = loaded } in
    if any_in_flight loaded then keep_entries entries (checkpoint d read).0 else read

pub migrate_v1 : Disk → Option (List Entry) → Outbox → Outbox
migrate_v1 d none o = quarantine o
migrate_v1 d (some entries) o =
    let (saved, done) = checkpoint d (record o { entries = entries }) in
    if done then saved else quarantine saved

-- What is in the file; `garbage` is no JSON object of this peer with a list of entries of a version that is
-- known.
pub load_file : (String → Option ℕ) → ℕ → Sizes → Disk → ℕ → File → Outbox
load_file date now z d wait garbage = quarantine (unloaded wait)
load_file date now z d wait (version_1 rs) =
    migrate_v1 d (read_all z (migrated date now) rs) (unloaded wait)
load_file date now z d wait (version_2 rs) =
    validate_v2 d (read_all z (valid_v2 date) rs) (unloaded wait)

-- The constructor over the text of the file, if there is one.
pub load : Texts → ℕ → Sizes → Disk → ℕ → Option String → Outbox
load x now z d wait none = unloaded wait
load x now z d wait (some text) = load_file x.parse_date now z d wait (x.parse_file text)
