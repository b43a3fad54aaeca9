-- ===== src/Remote/Outbox.antt =====
-- src/remote/request-outbox.ts: the client's durable delivery outbox, in memory and on disk. An ISO
-- timestamp is the number of milliseconds that it prints. `size` is the byte length of the file's
-- JSON, `entry_size` that of one entry's; `write_ok` says whether writing and renaming the file
-- succeeds. The payload of an entry is left out.
pub mod Loading
pub mod Delivery
pub mod Terminal
pub mod Due
pub mod Marking
pub mod Credit
pub mod Attempt
pub mod Prune
mod Tests
use abmind.Prelude.{
  ℕ, zero, suc, ◌+◌, ◌-◌, ◌*◌, ◌≤◌, ◌≡◌, refl, String, Bool, true, false, ◌&&◌, ◌||◌, not, Option,
  none, some, List, [], ◌∷◌, ◌++◌, map, str_eq, ltb, leb, ◌==◌, if◌then◌else◌, length, filter,
}
use abmind.Prelude.Table.{select}

-- AbmindDeliveryState and RetryFailureClass of src/remote/route-contract.ts.
pub data DeliveryState : Type 0 where
  admitted in_flight retry_wait terminal_unknown : DeliveryState

pub data RetryFailure : Type 0 where
  timeout send_failed socket_lost generation_lost connection_refused : RetryFailure

pub record Entry : Type 0 where
  pub id : String
  pub method : String
  pub request_id : String
  pub idempotency_key : Option String
  pub body : String
  pub version : ℕ
  pub state : DeliveryState
  pub created_at : ℕ
  pub deadline_at : ℕ
  pub attempts : ℕ
  pub last_attempt_at : Option ℕ
  pub next_attempt_at : Option ℕ
  pub last_failure : Option RetryFailure

-- `disk` is the content of the outbox file.
pub record Outbox : Type 0 where
  pub entries : List Entry
  pub degraded : Bool
  pub quarantined : Bool
  pub retry_deadline_ms : ℕ
  pub disk : List Entry

abbrev pub max_attempts : ℕ
max_attempts = 5

abbrev pub max_entries : ℕ
max_entries = 200

abbrev pub max_entry_bytes : ℕ
max_entry_bytes = 524288

abbrev pub max_file_bytes : ℕ
max_file_bytes = 10000000

abbrev pub terminal_max_entries : ℕ
terminal_max_entries = 50

abbrev pub terminal_retention_ms : ℕ
terminal_retention_ms = 30 * 24 * 60 * 60 * 1000

abbrev pub is_terminal : DeliveryState → Bool
is_terminal terminal_unknown = true
is_terminal _ = false

abbrev pub is_in_flight : DeliveryState → Bool
is_in_flight in_flight = true
is_in_flight _ = false

abbrev pub has_id : String → Entry → Bool
has_id i e = str_eq e.id i

-- The write of `checkpoint` over given entries.
pub record Disk : Type 0 where
  pub size : List Entry → ℕ
  pub entry_size : Entry → ℕ
  pub write_ok : Bool

-- `checkpoint`: the file is replaced whole, or the outbox is degraded.
unfoldable pub checkpoint : Disk → Outbox → Outbox × Bool
checkpoint d o =
    if ltb max_file_bytes (d.size o.entries) || not d.write_ok
    then (record o { degraded = true }, false)
    else (record o { disk = o.entries }, true)

-- A change of the entries, persisted, with what memory holds if the checkpoint fails.
unfoldable pub commit : Disk → Outbox → List Entry → List Entry → Outbox × Bool
unfolding checkpoint
commit d o next restored =
    let (saved, done) = checkpoint d (record o { entries = next }) in
    if done then (saved, true) else (record saved { entries = restored }, false)

-- The first entry of an id is changed in place.
unfoldable pub modify : String → (Entry → Entry) → List Entry → List Entry
modify i f [] = []
modify i f (e ∷ es) = if has_id i e then f e ∷ es else e ∷ modify i f es

unfoldable pub remove : String → List Entry → List Entry
remove i [] = []
remove i (e ∷ es) = if has_id i e then es else e ∷ remove i es

abbrev pub fresh : ℕ → ℕ → String → String → String → Option String → String → ℕ → Entry
fresh now wait i method request_id idempotency_key body version = record {
  id = i;
  method = method;
  request_id = request_id;
  idempotency_key = idempotency_key;
  body = body;
  version = version;
  state = admitted;
  created_at = now;
  deadline_at = now + wait;
  attempts = 0;
  last_attempt_at = none;
  next_attempt_at = none;
  last_failure = none;
}

-- The body of `append` once the entry is built.
unfoldable pub append : Disk → Entry → Outbox → Outbox × Bool
append d e o =
    if o.quarantined || o.degraded
    then (o, false)
    else if leb max_entries (length o.entries)
    then (o, false)
    else if ltb max_entry_bytes (d.entry_size e)
    then (o, false)
    else commit d o (o.entries ++ e ∷ []) o.entries

unfoldable pub get : String → Outbox → Option Entry
get i o = select (has_id i) o.entries

abbrev pub to_in_flight : ℕ → Entry → Entry
to_in_flight now e = record e { state = in_flight; last_attempt_at = some now }

-- What a failed `markInFlight` leaves: the state is restored, lastAttemptAt is cleared.
abbrev undo_in_flight : Entry → Entry
undo_in_flight e = record e { last_attempt_at = none }

unfoldable pub mark_in_flight : Disk → ℕ → String → Outbox → Outbox × Bool
unfolding modify get
mark_in_flight d now i o = elim (get i o) [
  | none ↦ (o, false)
  | some e ↦
      if is_in_flight e.state || is_terminal e.state
      then (o, false)
      else commit d o (modify i (to_in_flight now) o.entries) (modify i undo_in_flight o.entries)
]

abbrev to_retry_wait : RetryFailure → ℕ → ℕ → Entry → Entry
to_retry_wait failure now next e = record e {
  state = retry_wait;
  attempts = e.attempts + 1;
  last_attempt_at = some now;
  next_attempt_at = some next;
  last_failure = some failure;
}

unfoldable pub mark_retry_wait : Disk → ℕ → String → RetryFailure → ℕ → Outbox → Outbox × Bool
unfolding modify get
mark_retry_wait d now i failure next o = elim (get i o) [
  | none ↦ (o, false)
  | some e ↦
      if is_terminal e.state
      then (o, false)
      else commit d o (modify i (to_retry_wait failure now next) o.entries) o.entries
]

abbrev pub to_terminal : RetryFailure → Entry → Entry
to_terminal failure e = record e { state = terminal_unknown; last_failure = some failure }

-- What a failed `markTerminalUnknown` leaves: the state is restored, lastFailure is cleared.
abbrev undo_terminal : Entry → Entry
undo_terminal e = record e { last_failure = none }

pub mark_terminal_unknown : Disk → String → RetryFailure → Outbox → Outbox × Bool
unfolding modify get
mark_terminal_unknown d i failure o = elim (get i o) [
  | none ↦ (o, false)
  | some e ↦
      if is_terminal e.state
      then (o, false)
      else commit d o (modify i (to_terminal failure) o.entries) (modify i undo_terminal o.entries)
]

unfoldable pub acknowledge : Disk → String → Outbox → Outbox × Bool
unfolding remove get
acknowledge d i o = elim (get i o) [
  | none ↦ (o, true)
  | some e ↦ commit d o (remove i o.entries) o.entries
]

unfoldable pub is_exhausted : Entry → ℕ → Bool
is_exhausted e now = leb max_attempts e.attempts || leb e.deadline_at now

-- Not yet reached: `nextAttemptAt !== undefined && nextAttemptAt > now`.
abbrev waits_until : Option ℕ → ℕ → Bool
waits_until none now = false
waits_until (some t) now = ltb now t

-- The three `continue` tests of `peekDue`.
unfoldable pub eligible : ℕ → Entry → Bool
eligible now e =
    (elim e.state [
      | admitted ↦ true
      | retry_wait ↦ not (waits_until e.next_attempt_at now)
      | _ ↦ false
    ])
    && not (leb e.deadline_at now)

-- The code compares the ISO texts, which are in the order of their times from the year 0 to 9999.
abbrev better : Option Entry → Entry → Option Entry
better none e = some e
better (some b) e = if ltb e.created_at b.created_at then some e else some b

unfoldable pub peek_from : ℕ → Option Entry → List Entry → Option Entry
peek_from now best [] = best
peek_from now best (e ∷ es) = peek_from now (if eligible now e then better best e else best) es

unfoldable pub peek_due : ℕ → Outbox → Option Entry
unfolding peek_from eligible
peek_due now o = peek_from now none o.entries

pub record Counts : Type 0 where
  pub retry_eligible : ℕ
  pub terminal_unknown : ℕ
  pub next_attempt_at : Option ℕ

abbrev earlier : Option ℕ → Option ℕ → Option ℕ
earlier acc none = acc
earlier none (some t) = some t
earlier (some a) (some t) = if ltb t a then some t else some a

unfoldable pub tally : Counts → Entry → Counts
tally c e =
    if is_terminal e.state
    then record c { terminal_unknown = c.terminal_unknown + 1 }
    else record c {
      retry_eligible = c.retry_eligible + 1;
      next_attempt_at = earlier c.next_attempt_at e.next_attempt_at;
    }

unfoldable pub counts_from : Counts → List Entry → Counts
counts_from c [] = c
counts_from c (e ∷ es) = counts_from (tally c e) es

unfoldable pub counts : Outbox → Counts
unfolding counts_from tally
counts o =
    counts_from (record { retry_eligible = 0; terminal_unknown = 0; next_attempt_at = none })
      o.entries

-- The test of the loop of `pruneTerminalUnknown` over the terminal records, `kept` counting those
-- kept so far. `createdAt < now - retention` is over the integers.
abbrev pub drops : ℕ → ℕ → Entry → Bool
drops now kept e =
    is_terminal e.state
    && (ltb (e.created_at + terminal_retention_ms) now || leb terminal_max_entries kept)

abbrev pub kept_next : ℕ → ℕ → Entry → ℕ
kept_next now kept e = if is_terminal e.state && not (drops now kept e) then kept + 1 else kept

-- The ids that it drops.
pub dropped : ℕ → ℕ → List Entry → List String
dropped now kept [] = []
dropped now kept (e ∷ es) =
    let rest = dropped now (kept_next now kept e) es in
    if drops now kept e then e.id ∷ rest else rest

pub contains : String → List String → Bool
contains i [] = false
contains i (j ∷ js) = str_eq j i || contains i js

abbrev is_nil : List String → Bool
is_nil [] = true
is_nil (i ∷ is) = false

pub prune_terminal_unknown : Disk → ℕ → Outbox → Outbox × Bool
unfolding dropped contains
prune_terminal_unknown d now o =
    let ids = dropped now 0 o.entries in
    if is_nil ids
    then (o, true)
    else commit d o (filter (λ e. not (contains e.id ids)) o.entries) o.entries
