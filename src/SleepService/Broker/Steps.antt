-- ===== src/SleepService/Broker/Steps.antt =====
-- src/sleep-service/runtime-broker.ts: the lease, the pending completion and the parked callers of
-- the broker, call by call.
use abmind.Prelude.{
  ℕ, ◌≡◌, refl, String, Bool, true, false, ◌&&◌, not, some, arith, ltb, Bool-cases, Option-cases,
  inl, inr, ◌==◌,
}
use abmind.SleepService.Runtime.{
  Request, Waiter, Broker, Settlement, undelivered, lease_is, is_some, has_provider, holds, Reason,
  initial,
}
use abmind.SleepService.Broker.{
  next, new_request, waiter_times_out, remove_waiter, queue_completion, wait_for_completion,
  settle_if_pending, reply, complete, fail, pending_is,
}
use abmind.SleepService.Broker.Calm.{
  Calm, heartbeat-Woken, deliver-Woken, wake_next-Settled, settle-Settled, closed-Woken,
  expired-Woken,
}
use abmind.SleepService.Broker.Delivery.{
  Call, opens, closes, lease_ends, run_ends, nexts, times_out, queues, waits, gives_up, completes,
  fails, step, pending_is-some,
}
use abmind.SleepService.Broker.Lease.{
  Sound, Settled-Sound, Woken-Sound, all_hold-append, all_hold-remove, expire_any-Sound,
  set_run_terminal-Settled, open_lease-Sound, close_lease-Sound,
}

holds-parts :
    (now : ℕ) (l : String) (b : Broker)
    → not (holds now l b) ≡ false
    → (is_some b.lease_id ≡ true) × (lease_is b.lease_id l ≡ true)
holds-parts now l b e = elim (Option-cases b.lease_id) [
  | inl f ↦ ground (arith, f, e)
  | inr (k, f) ↦ (rw f refl, ground (arith, e))
]

next-Sound : (now : ℕ) (l : String) (w t : ℕ) (b : Broker) → Sound b → Sound (next now l w t b)
unfolding next
next-Sound now l w t b s = elim (Bool-cases (not (holds now l b))) [
  | inl e ↦ simp (e, next) (Woken-Sound (expired-Woken t b) s)
  | inr e ↦ elim (Option-cases (undelivered b.pending)) [
    | inr (r, f) ↦ simp (e, f, next) (Woken-Sound (deliver-Woken now t r b f) s)
    | inl f ↦ elim (Bool-cases b.run_terminal) [
      | inl g ↦ simp (e, f, g, next) (Woken-Sound (closed-Woken t b (holds-parts now l b e).0 g) s)
      | inr g ↦ elim (Bool-cases (w == 0)) [
        | inl h ↦ simp (e, f, g, h, next) (Woken-Sound (heartbeat-Woken now l t b) s)
        | inr h ↦
            simp (e, f, g, h, next)
              (record {
                calm = record {
                  served = s.calm.served;
                  fenced = s.calm.fenced;
                  ended = refl;
                  unclosed = s.calm.unclosed;
                };
                parked = all_hold-append b.lease_id b.waiters _ s.parked (holds-parts now l b e).1;
              })
      ]
    ]
  ]
]

waiter_times_out-Sound :
    (now : ℕ) (w : Waiter) (b : Broker) → Sound b → Sound (waiter_times_out now w b)
unfolding waiter_times_out
waiter_times_out-Sound now w b s =
    let out : Broker = record b { waiters = remove_waiter w.ticket b.waiters } in
    let first : Sound out = record {
      calm = record {
        served = s.calm.served;
        fenced = s.calm.fenced;
        ended = s.calm.ended;
        unclosed = s.calm.unclosed;
      };
      parked = all_hold-remove b.lease_id w.ticket b.waiters s.parked;
    } in
    Woken-Sound (heartbeat-Woken now w.lease w.ticket out) first

queued-Calm :
    (now : ℕ) (r : Request) (b : Broker)
    → Calm b
    → not (has_provider now b) ≡ false
    → (r.proposal_only && not b.proposal_capability) ≡ false
    → Calm (record b { pending = some r })
unfolding has_provider
queued-Calm now r b c h f = record {
  served = ground (arith, h);
  fenced = f;
  ended = c.ended;
  unclosed = c.unclosed;
}

queue_completion-Sound :
    (now : ℕ) (r : Request) (b : Broker) → Sound b → Sound (queue_completion now r b).0
unfolding queue_completion
queue_completion-Sound now r b s = elim (Bool-cases (not (has_provider now b))) [
  | inl e ↦ rw e s
  | inr e ↦ elim (Bool-cases (r.proposal_only && not b.proposal_capability)) [
    | inl f ↦ rw (e, f) s
    | inr f ↦ elim (Option-cases b.pending) [
      | inr (q, g) ↦ simp (e, f, g, queue_completion) s
      | inl g ↦
          simp (e, f, g, queue_completion)
            (Settled-Sound (wake_next-Settled now _ (queued-Calm now r b s.calm e f)))
    ]
  ]
]

awaits-Calm :
    (r : Request) (b : Broker)
    → b.pending ≡ some r
    → Calm b
    → Calm (record b { pending = some (record r { awaited = true }) })
awaits-Calm r b e c = record {
  served = grind (arith, e, c.served);
  fenced = grind (arith, e, c.fenced);
  ended = c.ended;
  unclosed = c.unclosed;
}

wait_for_completion-Sound :
    (now : ℕ) (i : String) (aborted : Bool) (b : Broker)
    → Sound b
    → Sound (wait_for_completion now i aborted b).0
unfolding wait_for_completion
wait_for_completion-Sound now i aborted b s = elim (Option-cases (pending_is i b.pending)) [
  | inl e ↦ simp (e, wait_for_completion) s
  | inr (r, e) ↦
      let c = awaits-Calm r b (pending_is-some i b.pending r e) s.calm in
      elim (Bool-cases aborted) [
        | inl f ↦ simp (e, wait_for_completion, f) (Settled-Sound (settle-Settled now _ _ _ c))
        | inr f ↦ simp (e, wait_for_completion, f) (record { calm = c; parked = s.parked })
      ]
]

settle_if_pending-Sound :
    (now : ℕ) (i : String) (c : Reason) (b : Broker) → Sound b → Sound (settle_if_pending now i c b)
unfolding settle_if_pending
settle_if_pending-Sound now i c b s = elim (Option-cases (pending_is i b.pending)) [
  | inl e ↦ simp (e, settle_if_pending) s
  | inr (r, e) ↦ simp (e, settle_if_pending) (Settled-Sound (settle-Settled now r _ b s.calm))
]

reply-Sound :
    (now : ℕ) (l i : String) (a : Settlement) (b : Broker) → Sound b → Sound (reply now l i a b).0
unfolding reply
reply-Sound now l i a b s = elim (Bool-cases (not (holds now l b))) [
  | inl e ↦ simp (e, reply) s
  | inr e ↦ elim (Bool-cases b.run_terminal) [
    | inl f ↦ simp (e, f, reply) s
    | inr f ↦ elim (Option-cases (pending_is i b.pending)) [
      | inl g ↦ simp (e, f, g, reply) s
      | inr (r, g) ↦ elim (Bool-cases (ltb r.deadline now)) [
        | inl h ↦ simp (e, f, g, h, reply) (Settled-Sound (settle-Settled now r _ b s.calm))
        | inr h ↦ simp (e, f, g, h, reply) (Settled-Sound (settle-Settled now r _ b s.calm))
      ]
    ]
  ]
]

-- Every call keeps the broker sound: a pending completion has a lease, and a proposal-only one a lease
-- that enforces it; a run that is over has no lease; whoever waits holds the lease; nobody is told
-- `closed`.
pub step-Sound : (now : ℕ) (c : Call) (b : Broker) → Sound b → Sound (step now c b)
unfolding complete fail
step-Sound now (opens l p c) b s = open_lease-Sound now l p c b s
step-Sound now (closes l) b s = close_lease-Sound now l b s
step-Sound now lease_ends b s = expire_any-Sound now b s
step-Sound now run_ends b s = Settled-Sound (set_run_terminal-Settled now b s.calm.unclosed)
step-Sound now (nexts l w t) b s = next-Sound now l w t b s
step-Sound now (times_out w) b s = waiter_times_out-Sound now w b s
step-Sound now (queues i r st p d o) b s =
    queue_completion-Sound now (new_request now i r st p d o) b s
step-Sound now (waits i a) b s = wait_for_completion-Sound now i a b s
step-Sound now (gives_up i c) b s = settle_if_pending-Sound now i c b s
step-Sound now (completes l i t) b s = reply-Sound now l i _ b s
step-Sound now (fails l i c) b s = reply-Sound now l i _ b s

pub initial-Sound : Sound initial
initial-Sound = record {
  calm = record { served = refl; fenced = refl; ended = refl; unclosed = refl };
  parked = refl;
}
