-- ===== src/SleepService/Broker.antt =====
-- src/sleep-service/runtime-broker.ts: the operations of `RuntimeBroker`. An id that `randomUUID`
-- makes is an argument; the callback of a timer or of an abort signal is an operation. The failure
-- details of `fail` (`sanitizeSleepFailure`) are not modelled.
pub mod Kept
pub mod Calm
pub mod Delivery
pub mod Lease
pub mod Steps
mod Tests
use abmind.Prelude.{
  ℕ, zero, suc, ◌+◌, ◌-◌, ◌≤◌, ◌≡◌, refl, String, Bool, true, false, ◌&&◌, ◌||◌, not, Option, none,
  some, List, [], ◌∷◌, ◌++◌, str_eq, ltb, leb, ◌==◌, if◌then◌else◌, max, min,
}
use abmind.SleepService.Runtime.{
  is_some, Request, NextResult, Reason, Settlement, Event, Waiter, Broker, initial, idle_lease_ms,
  default_deadline_ms, settlement_grace_ms, lease_is, emit, refresh_lease, deliver, has_provider,
  holds, heartbeat, undelivered, wake_one, wake_all, wake_next, ok, lease_expired, no_request,
  closed, completed, rejected, provider_failed, provider_timeout, completion_deadline, lease_lost,
  run_ended, cancelled, answered, settled,
}

-- The pending slot is emptied and its promise, if somebody awaits it, is settled.
pub detach : Request → Settlement → Broker → Broker
detach r s b =
    if r.awaited
    then emit (settled r.completion_id s) (record b { pending = none })
    else record b { pending = none }

-- `settlePending` with revokeLease false, once the completion is known to be the pending one.
pub settle : ℕ → Request → Settlement → Broker → Broker
settle now r s b =
    let d = detach r s b in wake_next now (if is_some d.lease_id then refresh_lease now d else d)

abbrev without_lease : Broker → Broker
without_lease b = record b {
  lease_id = none;
  lease_expires_at = 0;
  lease_timer = none;
  provider = none;
  proposal_capability = false;
}

pub settle_lost : ℕ → Option Request → Broker → Broker
settle_lost now none b = b
settle_lost now (some r) b = settle now r (rejected lease_lost) b

pub expire_lease : ℕ → String → Broker → Broker
expire_lease now l b =
    if lease_is b.lease_id l then wake_next now (settle_lost now b.pending (without_lease b)) else b

-- Expiry of whatever lease is held.
pub expire_any : ℕ → Broker → Broker
expire_any now b = elim b.lease_id [ none ↦ b | some l ↦ expire_lease now l b ]

-- `settlePending` with revokeLease true.
pub settle_revoking : ℕ → Request → Settlement → Broker → Broker
settle_revoking now r s b =
    let d = detach r s b in if is_some d.lease_id then expire_any now d else wake_next now d

pub data OpenResult : Type 0 where
  opened already_open : OpenResult

pub open_lease : ℕ → String → String → Bool → Broker → Broker × OpenResult
open_lease now new_id instance_id capable b =
    let b' = if leb b.lease_expires_at now then expire_any now b else b in
    if is_some b'.lease_id then (b', already_open) else (
      record (refresh_lease now (record b' { lease_id = some new_id })) {
        provider = some instance_id;
        proposal_capability = capable;
        run_terminal = false;
      },
      opened,
    )

pub close_lease : ℕ → String → Broker → Broker × Bool
close_lease now l b = if lease_is b.lease_id l then (expire_lease now l b, true) else (b, false)

-- The pending completion ends, or the lease where there is none.
pub end_pending : ℕ → Option Request → Broker → Broker
end_pending now none b = expire_any now b
end_pending now (some r) b = settle_revoking now r (rejected run_ended) b

pub set_run_terminal : ℕ → Broker → Broker
set_run_terminal now b =
    wake_next now (end_pending now b.pending (record b { run_terminal = true }))

pub next : ℕ → String → ℕ → ℕ → Broker → Broker
next now l wait_ms ticket b =
    if not (holds now l b)
    then emit (answered ticket lease_expired) b
    else (elim (undelivered b.pending) [
      | some r ↦ emit (answered ticket (ok r)) (deliver now r b)
      | none ↦
          if b.run_terminal
          then emit (answered ticket closed) b
          else if wait_ms == 0
          then heartbeat now l ticket b
          else record b {
            waiters =
                b.waiters
                ++ record {
                  lease = l;
                  ticket = ticket;
                  due = now + min wait_ms (max 1 (b.lease_expires_at - now));
                }
                  ∷ [];
          }
    ])

pub remove_waiter : ℕ → List Waiter → List Waiter
remove_waiter t [] = []
remove_waiter t (w ∷ ws) = if w.ticket == t then ws else w ∷ remove_waiter t ws

-- The timer of a waiter.
pub waiter_times_out : ℕ → Waiter → Broker → Broker
waiter_times_out now w b =
    heartbeat now w.lease w.ticket (record b { waiters = remove_waiter w.ticket b.waiters })

pub data Admission : Type 0 where
  queued provider_unavailable completion_pending capability_mismatch : Admission

abbrev pub new_request : ℕ → String → String → String → String → Option ℕ → Bool → Request
new_request now id run step prompt deadline_ms proposal = record {
  completion_id = id;
  run_id = run;
  step_id = step;
  prompt = prompt;
  deadline = now + (elim deadline_ms [ none ↦ default_deadline_ms | some d ↦ d ]);
  proposal_only = proposal;
  resolved = false;
  awaited = false;
}

pub queue_completion : ℕ → Request → Broker → Broker × Admission
queue_completion now r b =
    if not (has_provider now b)
    then (b, provider_unavailable)
    else if r.proposal_only && not b.proposal_capability
    then (b, capability_mismatch)
    else if is_some b.pending
    then (b, completion_pending)
    else (wake_next now (record b { pending = some r }), queued)

-- The pending completion of an id.
abbrev pub pending_is : String → Option Request → Option Request
pending_is id none = none
pending_is id (some r) = if str_eq r.completion_id id then some r else none

-- `waitForCompletion`: false is a promise that is rejected at once.
pub wait_for_completion : ℕ → String → Bool → Broker → Broker × Bool
wait_for_completion now id aborted b = elim (pending_is id b.pending) [
  | none ↦ (b, false)
  | some r ↦
      let r' = record r { awaited = true } in
      let b' = record b { pending = some r' } in
      if aborted then (settle now r' (rejected cancelled) b', true) else (b', true)
]

-- The deadline timer, or the abort listener, of a completion.
pub settle_if_pending : ℕ → String → Reason → Broker → Broker
settle_if_pending now id reason b = elim (pending_is id b.pending) [
  | none ↦ b
  | some r ↦ settle now r (rejected reason) b
]

pub data Reply : Type 0 where
  accepted invalid_lease invalid_completion already_terminal : Reply

-- The guards that `complete` and `fail` share, and the settlement that follows them.
pub reply : ℕ → String → String → Settlement → Broker → Broker × Reply
reply now l id s b =
    if not (holds now l b)
    then (b, invalid_lease)
    else if b.run_terminal
    then (b, already_terminal)
    else (elim (pending_is id b.pending) [
      | none ↦ (b, invalid_completion)
      | some r ↦
          if ltb r.deadline now
          then (settle now r (rejected completion_deadline) b, invalid_completion)
          else (settle now r s b, accepted)
    ])

pub complete : ℕ → String → String → String → Broker → Broker × Reply
complete now l id text b = reply now l id (completed text) b

pub fail : ℕ → String → String → String → Broker → Broker × Reply
fail now l id code b =
    reply now l id
      (rejected (if str_eq code "provider_timeout" then provider_timeout else provider_failed)) b

pub proposal_capable : ℕ → Broker → Bool
proposal_capable now b = has_provider now b && b.proposal_capability
