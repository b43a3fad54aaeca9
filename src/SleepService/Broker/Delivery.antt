-- ===== src/SleepService/Broker/Delivery.antt =====
-- src/sleep-service/runtime-broker.ts: the broker over any sequence of its calls, each with the time
-- at which it is made, and how often one completion is delivered and settled.
use abmind.Prelude.{
  ℕ, ◌+◌, ◌≤◌, ◌≡◌, refl, String, Bool, true, false, ◌&&◌, not, Option, none, some, List, [], ◌∷◌,
  arith, str_eq, ltb, leb, if◌then◌else◌, Bool-cases, Option-cases, inl, inr, ◌==◌,
}
use abmind.SleepService.Runtime.{
  Request, Waiter, Broker, Settlement, Reason, undelivered, refresh_lease, lease_is, wake_next,
  is_some, has_provider, holds, initial, Reason,
}
use abmind.SleepService.Broker.{
  expire_any, settle_revoking, detach, open_lease, close_lease, set_run_terminal, end_pending, next,
  new_request, waiter_times_out, remove_waiter, queue_completion, queued, Admission,
  wait_for_completion, settle_if_pending, reply, complete, fail, pending_is,
}
use abmind.SleepService.Broker.Kept.{
  deliveries, settlements, delivery_budget, settlement_budget, owed, Kept, Kept-refl, Kept-trans,
  heartbeat-Kept, deliver-Kept, wake_next-Kept, detach-Kept, settle-Kept, expire_lease-Kept,
  expire_any-Kept,
}

pub data Call : Type 0 where
  opens : String → String → Bool → Call
  closes : String → Call
  lease_ends : Call
  run_ends : Call
  nexts : String → ℕ → ℕ → Call
  times_out : Waiter → Call
  queues : String → String → String → String → Option ℕ → Bool → Call
  waits : String → Bool → Call
  gives_up : String → Reason → Call
  completes : String → String → String → Call
  fails : String → String → String → Call

abbrev pub step : ℕ → Call → Broker → Broker
step now (opens new_id provider capable) b = (open_lease now new_id provider capable b).0
step now (closes l) b = (close_lease now l b).0
step now lease_ends b = expire_any now b
step now run_ends b = set_run_terminal now b
step now (nexts l wait_ms ticket) b = next now l wait_ms ticket b
step now (times_out w) b = waiter_times_out now w b
step now (queues id run stage prompt deadline_ms proposal) b =
    (queue_completion now (new_request now id run stage prompt deadline_ms proposal) b).0
step now (waits id aborted) b = (wait_for_completion now id aborted b).0
step now (gives_up id reason) b = settle_if_pending now id reason b
step now (completes l id text) b = (complete now l id text b).0
step now (fails l id code) b = (fail now l id code b).0

abbrev pub run : List (ℕ × Call) → Broker → Broker
run [] b = b
run ((now, c) ∷ cs) b = run cs (step now c b)

abbrev is_queued : Admission → Bool
is_queued queued = true
is_queued a = false

-- Whether a call admits a completion under the id.
abbrev pub admits : String → ℕ → Call → Broker → ℕ
admits id now (queues i run stage prompt deadline_ms proposal) b =
    if is_queued
        (queue_completion now (new_request now i run stage prompt deadline_ms proposal) b).1
      && str_eq i id
    then 1
    else 0
admits id now c b = 0

abbrev pub admissions : String → List (ℕ × Call) → Broker → ℕ
admissions id [] b = 0
admissions id ((now, c) ∷ cs) b = admits id now c b + admissions id cs (step now c b)

settle_revoking-Kept :
    (id : String) (now : ℕ) (r : Request) (s : Settlement) (b : Broker)
    → b.pending ≡ some r
    → Kept id b (settle_revoking now r s b)
unfolding settle_revoking
settle_revoking-Kept id now r s b e = elim (Bool-cases (is_some (detach r s b).lease_id)) [
  | inl f ↦ rw f (Kept-trans (detach-Kept id r s b e) (expire_any-Kept id now _))
  | inr f ↦ rw f (Kept-trans (detach-Kept id r s b e) (wake_next-Kept id now _))
]

open_lease-Kept :
    (id : String) (now : ℕ) (l p : String) (c : Bool) (b : Broker)
    → Kept id b (open_lease now l p c b).0
unfolding open_lease refresh_lease
open_lease-Kept id now l p c b =
    let first : Kept id b (if leb b.lease_expires_at now then expire_any now b else b) =
      elim (Bool-cases (leb b.lease_expires_at now)) [
        | inl e ↦ rw e (expire_any-Kept id now b)
        | inr e ↦ rw e (Kept-refl id b)
      ] in
    elim (Bool-cases
      (is_some (if leb b.lease_expires_at now then expire_any now b else b).lease_id)) [
        | inl e ↦ rw e first
        | inr e ↦
            rw e (Kept-trans first (record { delivered = omega arith; settled_too = omega arith }))
      ]

close_lease-Kept :
    (id : String) (now : ℕ) (l : String) (b : Broker) → Kept id b (close_lease now l b).0
unfolding close_lease
close_lease-Kept id now l b = elim (Bool-cases (lease_is b.lease_id l)) [
  | inl e ↦ rw e (expire_lease-Kept id now l b)
  | inr e ↦ rw e (Kept-refl id b)
]

end_pending-Kept :
    (id : String) (now : ℕ) (o : Option Request) (b : Broker)
    → b.pending ≡ o
    → Kept id b (end_pending now o b)
unfolding end_pending
end_pending-Kept id now none b e = expire_any-Kept id now b
end_pending-Kept id now (some r) b e = settle_revoking-Kept id now r _ b e

set_run_terminal-Kept : (id : String) (now : ℕ) (b : Broker) → Kept id b (set_run_terminal now b)
unfolding set_run_terminal
set_run_terminal-Kept id now b =
    let ended : Broker = record b { run_terminal = true } in
    let first : Kept id b ended = record { delivered = omega arith; settled_too = omega arith } in
    Kept-trans first
      (Kept-trans (end_pending-Kept id now b.pending ended refl) (wake_next-Kept id now _))

next-Kept :
    (id : String) (now : ℕ) (l : String) (w t : ℕ) (b : Broker) → Kept id b (next now l w t b)
unfolding next
next-Kept id now l w t b = elim (Bool-cases (not (holds now l b))) [
  | inl e ↦ rw (e, next) (record { delivered = omega arith; settled_too = omega arith })
  | inr e ↦ elim (Option-cases (undelivered b.pending)) [
    | inr (r, f) ↦ simp (e, f, next) (deliver-Kept id now t r b f)
    | inl f ↦ elim (Bool-cases b.run_terminal) [
      | inl g ↦ simp (e, f, g, next) (record { delivered = omega arith; settled_too = omega arith })
      | inr g ↦ elim (Bool-cases (w == 0)) [
        | inl h ↦ simp (e, f, g, h, next) (heartbeat-Kept id now l t b)
        | inr h ↦
            simp (e, f, g, h, next) (record { delivered = omega arith; settled_too = omega arith })
      ]
    ]
  ]
]

waiter_times_out-Kept :
    (id : String) (now : ℕ) (w : Waiter) (b : Broker) → Kept id b (waiter_times_out now w b)
unfolding waiter_times_out
waiter_times_out-Kept id now w b =
    let out : Broker = record b { waiters = remove_waiter w.ticket b.waiters } in
    let first : Kept id b out = record { delivered = omega arith; settled_too = omega arith } in
    Kept-trans first (heartbeat-Kept id now w.lease w.ticket out)

pub pending_is-some :
    (id : String) (o : Option Request) (r : Request) → pending_is id o ≡ some r → o ≡ some r
pending_is-some id none r e = ground arith
pending_is-some id (some s) r e = elim (Bool-cases (str_eq s.completion_id id)) [
  | inl f ↦ ground arith
  | inr f ↦ ground arith
]

awaits-Kept :
    (id : String) (r : Request) (b : Broker)
    → b.pending ≡ some r
    → Kept id b (record b { pending = some (record r { awaited = true }) })
awaits-Kept id r b e = record { delivered = rw e (grind arith); settled_too = rw e (omega arith) }

wait_for_completion-Kept :
    (id : String) (now : ℕ) (i : String) (aborted : Bool) (b : Broker)
    → Kept id b (wait_for_completion now i aborted b).0
unfolding wait_for_completion
wait_for_completion-Kept id now i aborted b = elim (Option-cases (pending_is i b.pending)) [
  | inl e ↦ simp (e, wait_for_completion) (Kept-refl id b)
  | inr (r, e) ↦
      let k : Kept id b (record b { pending = some (record r { awaited = true }) }) =
        awaits-Kept id r b (pending_is-some i b.pending r e) in
      elim (Bool-cases aborted) [
        | inl f ↦ simp (e, wait_for_completion, f) (Kept-trans k (settle-Kept id now _ _ _ refl))
        | inr f ↦ simp (e, wait_for_completion, f) k
      ]
]

settle_if_pending-Kept :
    (id : String) (now : ℕ) (i : String) (c : Reason) (b : Broker)
    → Kept id b (settle_if_pending now i c b)
unfolding settle_if_pending
settle_if_pending-Kept id now i c b = elim (Option-cases (pending_is i b.pending)) [
  | inl e ↦ simp (e, settle_if_pending) (Kept-refl id b)
  | inr (r, e) ↦
      simp (e, settle_if_pending) (settle-Kept id now r _ b (pending_is-some i b.pending r e))
]

reply-Kept :
    (id : String) (now : ℕ) (l i : String) (s : Settlement) (b : Broker)
    → Kept id b (reply now l i s b).0
unfolding reply
reply-Kept id now l i s b = elim (Bool-cases (not (holds now l b))) [
  | inl e ↦ simp (e, reply) (Kept-refl id b)
  | inr e ↦ elim (Bool-cases b.run_terminal) [
    | inl f ↦ simp (e, f, reply) (Kept-refl id b)
    | inr f ↦ elim (Option-cases (pending_is i b.pending)) [
      | inl g ↦ simp (e, f, g, reply) (Kept-refl id b)
      | inr (r, g) ↦ elim (Bool-cases (ltb r.deadline now)) [
        | inl h ↦
            simp (e, f, g, h, reply) (settle-Kept id now r _ b (pending_is-some i b.pending r g))
        | inr h ↦
            simp (e, f, g, h, reply) (settle-Kept id now r _ b (pending_is-some i b.pending r g))
      ]
    ]
  ]
]

-- What an operation adds to the two budgets of an id, at most.
record Adds (id : String) (n : ℕ) (b b' : Broker) : Type 0 where
  deliverable : delivery_budget id b' ≤ n + delivery_budget id b
  settleable : settlement_budget id b' ≤ n + settlement_budget id b

Kept-Adds : {id : String} {b b' : Broker} (n : ℕ) → Kept id b b' → Adds id n b b'
Kept-Adds n k = record {
  deliverable = omega (arith, k.delivered);
  settleable = omega (arith, k.settled_too);
}

queued-Adds :
    (id : String) (now : ℕ) (r : Request) (b : Broker)
    → r.resolved ≡ false
    → b.pending ≡ none
    → Adds id
        (if str_eq r.completion_id id then 1 else 0)
        b
        (wake_next now (record b { pending = some r }))
queued-Adds id now r b u e =
    let k = wake_next-Kept id now (record b { pending = some r }) in
    let d : owed id (undelivered b.pending) ≡ 0 = rw e refl in
    let s : owed id b.pending ≡ 0 = rw e refl in
    record {
      deliverable = grind (arith, k.delivered, d, u);
      settleable = grind (arith, k.settled_too, s);
    }

queue_completion-Adds :
    (id : String) (now : ℕ) (r : Request) (b : Broker)
    → r.resolved ≡ false
    → Adds id
        (if is_queued (queue_completion now r b).1 && str_eq r.completion_id id then 1 else 0)
        b
        (queue_completion now r b).0
unfolding queue_completion
queue_completion-Adds id now r b u = elim (Bool-cases (not (has_provider now b))) [
  | inl e ↦ rw e (Kept-Adds _ (Kept-refl id b))
  | inr e ↦ elim (Bool-cases (r.proposal_only && not b.proposal_capability)) [
    | inl f ↦ rw (e, f) (Kept-Adds _ (Kept-refl id b))
    | inr f ↦ elim (Option-cases b.pending) [
      | inr (q, g) ↦ simp (e, f, g, queue_completion) (Kept-Adds _ (Kept-refl id b))
      | inl g ↦ simp (e, f, g, queue_completion) (queued-Adds id now r b u g)
    ]
  ]
]

step-Adds :
    (id : String) (now : ℕ) (c : Call) (b : Broker) → Adds id (admits id now c b) b (step now c b)
unfolding complete fail
step-Adds id now (opens l p c) b = Kept-Adds 0 (open_lease-Kept id now l p c b)
step-Adds id now (closes l) b = Kept-Adds 0 (close_lease-Kept id now l b)
step-Adds id now lease_ends b = Kept-Adds 0 (expire_any-Kept id now b)
step-Adds id now run_ends b = Kept-Adds 0 (set_run_terminal-Kept id now b)
step-Adds id now (nexts l w t) b = Kept-Adds 0 (next-Kept id now l w t b)
step-Adds id now (times_out w) b = Kept-Adds 0 (waiter_times_out-Kept id now w b)
step-Adds id now (queues i r s p d o) b =
    queue_completion-Adds id now (new_request now i r s p d o) b refl
step-Adds id now (waits i a) b = Kept-Adds 0 (wait_for_completion-Kept id now i a b)
step-Adds id now (gives_up i c) b = Kept-Adds 0 (settle_if_pending-Kept id now i c b)
step-Adds id now (completes l i t) b = Kept-Adds 0 (reply-Kept id now l i _ b)
step-Adds id now (fails l i c) b = Kept-Adds 0 (reply-Kept id now l i _ b)

run-Adds :
    (id : String) (cs : List (ℕ × Call)) (b : Broker) → Adds id (admissions id cs b) b (run cs b)
run-Adds id [] b = Kept-Adds 0 (Kept-refl id b)
run-Adds id ((now, c) ∷ cs) b =
    let first = step-Adds id now c b in
    let rest = run-Adds id cs (step now c b) in
    record {
      deliverable = omega (arith, first.deliverable, rest.deliverable);
      settleable = omega (arith, first.settleable, rest.settleable);
    }

-- A completion is handed to a provider at most as often as it was queued: over any calls of a new
-- broker, at any times, the answers to `next` that carry the id are no more than the calls of
-- `queueCompletion` that admitted it.
pub deliveries-le :
    (id : String) (cs : List (ℕ × Call))
    → deliveries id (run cs initial).log ≤ admissions id cs initial
deliveries-le id cs = omega (arith, (run-Adds id cs initial).deliverable)

-- The promise of a completion is settled at most as often as it was queued: a late answer, a deadline,
-- an abort, the end of the lease and the end of the run settle it once between them.
pub settlements-le :
    (id : String) (cs : List (ℕ × Call))
    → settlements id (run cs initial).log ≤ admissions id cs initial
settlements-le id cs = omega (arith, (run-Adds id cs initial).settleable)
