-- ===== src/SleepService/Broker/Kept.antt =====
-- src/sleep-service/runtime-broker.ts: how often a completion is handed to a provider, and how often
-- its promise is settled, over the calls of the broker.
use abmind.Prelude.{
  ℕ, ◌+◌, ◌≤◌, ◌≡◌, refl, String, not, Option, none, some, List, [], ◌∷◌, arith, str_eq,
  if◌then◌else◌, Bool-cases, Option-cases, inl, inr,
}
use abmind.SleepService.Runtime.{
  Request, Event, answered, settled, ok, Waiter, Broker, Settlement, undelivered, emit,
  refresh_lease, deliver, heartbeat, wake_one, wake_all, wake_next, lease_is, is_some, has_provider,
  holds,
}
use abmind.SleepService.Broker.{
  detach, settle, settle_lost, expire_lease, expire_any, without_lease,
}

abbrev pub is_delivery : String → Event → ℕ
is_delivery id (answered t (ok r)) = if str_eq r.completion_id id then 1 else 0
is_delivery id e = 0

abbrev pub is_settlement : String → Event → ℕ
is_settlement id (settled i s) = if str_eq i id then 1 else 0
is_settlement id e = 0

-- How often a completion was handed to a provider.
abbrev pub deliveries : String → List Event → ℕ
deliveries id [] = 0
deliveries id (e ∷ es) = is_delivery id e + deliveries id es

-- How often the promise of a completion was settled.
abbrev pub settlements : String → List Event → ℕ
settlements id [] = 0
settlements id (e ∷ es) = is_settlement id e + settlements id es

abbrev pub owed : String → Option Request → ℕ
owed id none = 0
owed id (some r) = if str_eq r.completion_id id then 1 else 0

-- The deliveries made, and the one that the pending completion may still get.
abbrev pub delivery_budget : String → Broker → ℕ
delivery_budget id b = deliveries id b.log + owed id (undelivered b.pending)

-- The settlements made, and the one that the pending completion may still get.
abbrev pub settlement_budget : String → Broker → ℕ
settlement_budget id b = settlements id b.log + owed id b.pending

-- What an operation leaves of the two budgets of an id.
pub record Kept (id : String) (b b' : Broker) : Type 0 where
  pub delivered : delivery_budget id b' ≤ delivery_budget id b
  pub settled_too : settlement_budget id b' ≤ settlement_budget id b

pub Kept-refl : (id : String) (b : Broker) → Kept id b b
Kept-refl id b = record { delivered = omega arith; settled_too = omega arith }

pub Kept-trans : {id : String} {a b c : Broker} → Kept id a b → Kept id b c → Kept id a c
Kept-trans k l = record {
  delivered = omega (arith, k.delivered, l.delivered);
  settled_too = omega (arith, k.settled_too, l.settled_too);
}

pub heartbeat-Kept :
    (id : String) (now : ℕ) (l : String) (t : ℕ) (b : Broker) → Kept id b (heartbeat now l t b)
unfolding heartbeat refresh_lease
heartbeat-Kept id now l t b = elim (Bool-cases (not (holds now l b))) [
  | inl e ↦ rw e (record { delivered = omega arith; settled_too = omega arith })
  | inr e ↦ elim (Bool-cases b.run_terminal) [
    | inl f ↦ rw (e, f) (record { delivered = omega arith; settled_too = omega arith })
    | inr f ↦ rw (e, f) (record { delivered = omega arith; settled_too = omega arith })
  ]
]

pub undelivered-some : (o : Option Request) (r : Request) → undelivered o ≡ some r → o ≡ some r
undelivered-some none r e = ground arith
undelivered-some (some s) r e = elim (Bool-cases s.resolved) [
  | inl f ↦ ground arith
  | inr f ↦ ground arith
]

pub deliver-Kept :
    (id : String) (now : ℕ) (t : ℕ) (r : Request) (b : Broker)
    → undelivered b.pending ≡ some r
    → Kept id b (emit (answered t (ok r)) (deliver now r b))
unfolding deliver
deliver-Kept id now t r b e = record {
  delivered = rw e (omega arith);
  settled_too = rw (undelivered-some b.pending r e) (omega arith);
}

wake_one-Kept : (id : String) (now : ℕ) (w : Waiter) (b : Broker) → Kept id b (wake_one now w b)
unfolding wake_one
wake_one-Kept id now w b = elim (Option-cases (undelivered b.pending)) [
  | inl e ↦ elim (Bool-cases (not (has_provider now b))) [
    | inl f ↦ rw (e, wake_one, f) (record { delivered = omega arith; settled_too = omega arith })
    | inr f ↦ elim (Bool-cases b.run_terminal) [
      | inl g ↦
          simp (e, wake_one, f, g) (record { delivered = omega arith; settled_too = omega arith })
      | inr g ↦ simp (e, wake_one, f, g) (heartbeat-Kept id now w.lease w.ticket b)
    ]
  ]
  | inr (r, e) ↦ elim (Bool-cases (lease_is b.lease_id w.lease)) [
    | inl f ↦ rw (e, wake_one, f) (deliver-Kept id now w.ticket r b e)
    | inr f ↦ rw (e, wake_one, f) (record { delivered = omega arith; settled_too = omega arith })
  ]
]

wake_all-Kept :
    (id : String) (now : ℕ) (ws : List Waiter) (b : Broker) → Kept id b (wake_all now ws b)
unfolding wake_all
wake_all-Kept id now [] b = Kept-refl id b
wake_all-Kept id now (w ∷ ws) b =
    Kept-trans (wake_one-Kept id now w b) (wake_all-Kept id now ws (wake_one now w b))

pub wake_next-Kept : (id : String) (now : ℕ) (b : Broker) → Kept id b (wake_next now b)
unfolding wake_next
wake_next-Kept id now b =
    Kept-trans (record { delivered = omega arith; settled_too = omega arith })
      (wake_all-Kept id now b.waiters (record b { waiters = [] }))

pub detach-Kept :
    (id : String) (r : Request) (s : Settlement) (b : Broker)
    → b.pending ≡ some r
    → Kept id b (detach r s b)
unfolding detach
detach-Kept id r s b e = elim (Bool-cases r.awaited) [
  | inl f ↦ rw f (record { delivered = omega arith; settled_too = rw e (omega arith) })
  | inr f ↦ rw f (record { delivered = omega arith; settled_too = omega arith })
]

refresh_lease-Kept : (id : String) (now : ℕ) (b : Broker) → Kept id b (refresh_lease now b)
unfolding refresh_lease
refresh_lease-Kept id now b = record { delivered = omega arith; settled_too = omega arith }

pub settle-Kept :
    (id : String) (now : ℕ) (r : Request) (s : Settlement) (b : Broker)
    → b.pending ≡ some r
    → Kept id b (settle now r s b)
unfolding settle
settle-Kept id now r s b e = elim (Bool-cases (is_some (detach r s b).lease_id)) [
  | inl f ↦ rw f (
      Kept-trans (detach-Kept id r s b e)
        (Kept-trans (refresh_lease-Kept id now (detach r s b)) (wake_next-Kept id now _)))
  | inr f ↦ rw f (Kept-trans (detach-Kept id r s b e) (wake_next-Kept id now _))
]

settle_lost-Kept :
    (id : String) (now : ℕ) (o : Option Request) (b : Broker)
    → b.pending ≡ o
    → Kept id b (settle_lost now o b)
unfolding settle_lost
settle_lost-Kept id now none b e = Kept-refl id b
settle_lost-Kept id now (some r) b e = settle-Kept id now r _ b e

without_lease-Kept : (id : String) (b : Broker) → Kept id b (without_lease b)
without_lease-Kept id b = record { delivered = omega arith; settled_too = omega arith }

pub expire_lease-Kept :
    (id : String) (now : ℕ) (l : String) (b : Broker) → Kept id b (expire_lease now l b)
unfolding expire_lease
expire_lease-Kept id now l b = elim (Bool-cases (lease_is b.lease_id l)) [
  | inl e ↦ rw e (
      Kept-trans (without_lease-Kept id b) (
        Kept-trans (settle_lost-Kept id now b.pending (without_lease b) refl)
          (wake_next-Kept id now _)))
  | inr e ↦ rw e (Kept-refl id b)
]

pub expire_any-Kept : (id : String) (now : ℕ) (b : Broker) → Kept id b (expire_any now b)
unfolding expire_any
expire_any-Kept id now b = elim (Option-cases b.lease_id) [
  | inl e ↦ simp (e, expire_any) (Kept-refl id b)
  | inr (l, e) ↦ simp (e, expire_any) (expire_lease-Kept id now l b)
]
