-- ===== src/SleepService/Runtime.antt =====
-- src/sleep-service/runtime-broker.ts: the state of `RuntimeBroker`, its lease clock, and the waiters
-- that `next` parks. A call reads the clock once, `now`. A promise that is settled is an event of
-- `log`, newest first: a caller of `next` is known by its ticket. A timer is kept by the time at which
-- it is due, and its callback is an operation.
use abmind.Prelude.{
  ℕ, ◌+◌, String, Bool, true, false, ◌&&◌, not, Option, none, some, List, [], ◌∷◌, str_eq, ltb,
  if◌then◌else◌, max,
}

pub record Request : Type 0 where
  pub completion_id : String
  pub run_id : String
  pub step_id : String
  pub prompt : String
  pub deadline : ℕ
  pub proposal_only : Bool
  pub resolved : Bool
  pub awaited : Bool

pub data NextResult : Type 0 where
  ok : Request → NextResult
  lease_expired no_request closed : NextResult

-- Why a completion is rejected.
pub data Reason : Type 0 where
  provider_failed provider_timeout completion_deadline lease_lost run_ended cancelled : Reason

pub data Settlement : Type 0 where
  completed : String → Settlement
  rejected : Reason → Settlement

pub data Event : Type 0 where
  answered : ℕ → NextResult → Event
  settled : String → Settlement → Event

pub record Waiter : Type 0 where
  pub lease : String
  pub ticket : ℕ
  pub due : ℕ

pub record Broker : Type 0 where
  pub lease_id : Option String
  pub lease_expires_at : ℕ
  pub lease_timer : Option ℕ
  pub provider : Option String
  pub proposal_capability : Bool
  pub pending : Option Request
  pub waiters : List Waiter
  pub run_terminal : Bool
  pub log : List Event

abbrev pub initial : Broker
initial = record {
  lease_id = none;
  lease_expires_at = 0;
  lease_timer = none;
  provider = none;
  proposal_capability = false;
  pending = none;
  waiters = [];
  run_terminal = false;
  log = [];
}

abbrev pub idle_lease_ms : ℕ
idle_lease_ms = 120000

abbrev pub default_deadline_ms : ℕ
default_deadline_ms = 180000

abbrev pub settlement_grace_ms : ℕ
settlement_grace_ms = 15000

abbrev pub lease_is : Option String → String → Bool
lease_is none l = false
lease_is (some k) l = str_eq k l

abbrev pub is_some {ℓ} : {A : Type ℓ} → Option A → Bool
is_some none = false
is_some (some a) = true

abbrev pub emit : Event → Broker → Broker
emit e b = record b { log = e ∷ b.log }

unfoldable pub refresh_lease : ℕ → Broker → Broker
refresh_lease now b = record b {
  lease_expires_at = now + idle_lease_ms;
  lease_timer = some (now + idle_lease_ms);
}

-- `refreshLeaseForCompletion`, and the request marked as delivered.
unfoldable pub deliver : ℕ → Request → Broker → Broker
deliver now r b = record b {
  lease_expires_at = r.deadline + settlement_grace_ms;
  lease_timer = some (max (now + 1) (r.deadline + settlement_grace_ms));
  pending = some (record r { resolved = true });
}

unfoldable pub has_provider : ℕ → Broker → Bool
has_provider now b = is_some b.lease_id && ltb now b.lease_expires_at

-- `this.leaseId === leaseId` and the lease is not over.
abbrev pub holds : ℕ → String → Broker → Bool
holds now l b = lease_is b.lease_id l && ltb now b.lease_expires_at

-- `heartbeatFor`, whose answer goes to a ticket.
unfoldable pub heartbeat : ℕ → String → ℕ → Broker → Broker
heartbeat now l ticket b =
    if not (holds now l b)
    then emit (answered ticket lease_expired) b
    else if b.run_terminal
    then emit (answered ticket closed) b
    else emit (answered ticket no_request) (refresh_lease now b)

-- The pending completion that no provider has yet.
abbrev pub undelivered : Option Request → Option Request
undelivered none = none
undelivered (some r) = if r.resolved then none else some r

-- One round of `wakeNext`.
unfoldable pub wake_one : ℕ → Waiter → Broker → Broker
wake_one now w b = elim (undelivered b.pending) [
  | some r ↦
      if lease_is b.lease_id w.lease
      then emit (answered w.ticket (ok r)) (deliver now r b)
      else emit (answered w.ticket lease_expired) b
  | none ↦
      if not (has_provider now b)
      then emit (answered w.ticket lease_expired) b
      else if b.run_terminal
      then emit (answered w.ticket closed) b
      else heartbeat now w.lease w.ticket b
]

unfoldable pub wake_all : ℕ → List Waiter → Broker → Broker
wake_all now [] b = b
wake_all now (w ∷ ws) b = wake_all now ws (wake_one now w b)

unfoldable pub wake_next : ℕ → Broker → Broker
wake_next now b = wake_all now b.waiters (record b { waiters = [] })
