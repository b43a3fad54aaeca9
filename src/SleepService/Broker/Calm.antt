-- ===== src/SleepService/Broker/Calm.antt =====
-- src/sleep-service/runtime-broker.ts: the broker between its answers, through a wake of the
-- waiters, a settlement and the end of a lease.
use abmind.Prelude.{
  ℕ, ◌≡◌, refl, String, Bool, true, false, ◌&&◌, not, Option, none, some, List, [], ◌∷◌, arith,
  Bool-cases, Option-cases, inl, inr, ◌||◌, ◌∙◌,
}
use abmind.SleepService.Runtime.{
  Request, Event, answered, ok, Waiter, Broker, Settlement, undelivered, emit, refresh_lease,
  deliver, heartbeat, wake_one, wake_all, wake_next, lease_is, is_some, has_provider, holds,
  lease_expired, closed,
}
use abmind.SleepService.Broker.{detach, settle, settle_lost, expire_lease, without_lease}
use abmind.SleepService.Broker.Kept.{undelivered-some}

abbrev pub is_closed : Event → Bool
is_closed (answered t closed) = true
is_closed e = false

-- Whether some caller of `next` was told that the run is over.
abbrev pub says_closed : List Event → Bool
says_closed [] = false
says_closed (e ∷ es) = is_closed e || says_closed es

abbrev pub is_fenced : Option Request → Bool
is_fenced none = false
is_fenced (some r) = r.proposal_only

-- A pending completion has a lease, and one that is proposal-only a lease that enforces it; a run
-- that is over has no lease; nobody was told `closed`.
pub record Calm (b : Broker) : Type 0 where
  pub served : (is_some b.pending && not (is_some b.lease_id)) ≡ false
  pub fenced : (is_fenced b.pending && not b.proposal_capability) ≡ false
  pub ended : (b.run_terminal && is_some b.lease_id) ≡ false
  pub unclosed : says_closed b.log ≡ false

-- What a wake of the waiters keeps.
pub record Woken (b b' : Broker) : Type 0 where
  pub same_lease : b'.lease_id ≡ b.lease_id
  pub same_waiters : b'.waiters ≡ b.waiters
  pub calm : Calm b → Calm b'

Woken-refl : (b : Broker) → Woken b b
Woken-refl b = record { same_lease = refl; same_waiters = refl; calm = λ c. c }

Woken-trans : {a b c : Broker} → Woken a b → Woken b c → Woken a c
Woken-trans k l = record {
  same_lease = l.same_lease ∙ k.same_lease;
  same_waiters = l.same_waiters ∙ k.same_waiters;
  calm = λ c. l.calm (k.calm c);
}

pub expired-Woken : (t : ℕ) (b : Broker) → Woken b (emit (answered t lease_expired) b)
expired-Woken t b = record {
  same_lease = refl;
  same_waiters = refl;
  calm =
      λ c. record { served = c.served; fenced = c.fenced; ended = c.ended; unclosed = c.unclosed };
}

pub closed-Woken :
    (t : ℕ) (b : Broker)
    → is_some b.lease_id ≡ true
    → b.run_terminal ≡ true
    → Woken b (record b { run_terminal = true; log = answered t closed ∷ b.log })
closed-Woken t b l r = record {
  same_lease = refl;
  same_waiters = refl;
  calm = λ c. record {
    served = c.served;
    fenced = c.fenced;
    ended = ground (arith, c.ended, l, r);
    unclosed = ground (arith, c.ended, l, r);
  };
}

holds_some :
    (now : ℕ) (l : String) (b : Broker) → not (holds now l b) ≡ false → is_some b.lease_id ≡ true
holds_some now l b e = elim (Option-cases b.lease_id) [
  | inl f ↦ ground (arith, f, e)
  | inr (k, f) ↦ rw f refl
]

pub heartbeat-Woken : (now : ℕ) (l : String) (t : ℕ) (b : Broker) → Woken b (heartbeat now l t b)
unfolding heartbeat refresh_lease
heartbeat-Woken now l t b = elim (Bool-cases (not (holds now l b))) [
  | inl e ↦ simp (e, heartbeat) (expired-Woken t b)
  | inr e ↦ elim (Bool-cases b.run_terminal) [
    | inl f ↦ simp (e, f, heartbeat) (closed-Woken t b (holds_some now l b e) f)
    | inr f ↦
        simp (e, f, heartbeat)
          (record {
            same_lease = refl;
            same_waiters = refl;
            calm = λ c. record {
              served = c.served;
              fenced = c.fenced;
              ended = refl;
              unclosed = c.unclosed;
            };
          })
  ]
]

pub deliver-Woken :
    (now t : ℕ) (r : Request) (b : Broker)
    → undelivered b.pending ≡ some r
    → Woken b (emit (answered t (ok r)) (deliver now r b))
unfolding deliver
deliver-Woken now t r b e =
    let p = undelivered-some b.pending r e in
    record {
      same_lease = refl;
      same_waiters = refl;
      calm = λ c. record {
        served = grind (arith, p, c.served);
        fenced = grind (arith, p, c.fenced);
        ended = c.ended;
        unclosed = c.unclosed;
      };
    }

wake_one-Woken : (now : ℕ) (w : Waiter) (b : Broker) → Woken b (wake_one now w b)
unfolding wake_one has_provider
wake_one-Woken now w b = elim (Option-cases (undelivered b.pending)) [
  | inl e ↦ elim (Bool-cases (not (has_provider now b))) [
    | inl f ↦ simp (e, f, wake_one) (expired-Woken w.ticket b)
    | inr f ↦ elim (Bool-cases b.run_terminal) [
      | inl g ↦ simp (e, f, g, wake_one) (closed-Woken w.ticket b (ground arith) g)
      | inr g ↦ simp (e, f, g, wake_one) (heartbeat-Woken now w.lease w.ticket b)
    ]
  ]
  | inr (r, e) ↦ elim (Bool-cases (lease_is b.lease_id w.lease)) [
    | inl f ↦ simp (e, f, wake_one) (deliver-Woken now w.ticket r b e)
    | inr f ↦ simp (e, f, wake_one) (expired-Woken w.ticket b)
  ]
]

wake_all-Woken : (now : ℕ) (ws : List Waiter) (b : Broker) → Woken b (wake_all now ws b)
unfolding wake_all
wake_all-Woken now [] b = Woken-refl b
wake_all-Woken now (w ∷ ws) b =
    Woken-trans (wake_one-Woken now w b) (wake_all-Woken now ws (wake_one now w b))

-- The broker is calm and nobody waits.
pub record Settled (b : Broker) : Type 0 where
  pub calm : Calm b
  pub alone : b.waiters ≡ []

pub wake_next-Settled : (now : ℕ) (b : Broker) → Calm b → Settled (wake_next now b)
unfolding wake_next
wake_next-Settled now b c =
    let woken = wake_all-Woken now b.waiters (record b { waiters = [] }) in
    record {
      calm =
          woken.calm (record {
            served = c.served;
            fenced = c.fenced;
            ended = c.ended;
            unclosed = c.unclosed;
          });
      alone = woken.same_waiters;
    }

pub wake_next-same_lease : (now : ℕ) (b : Broker) → (wake_next now b).lease_id ≡ b.lease_id
unfolding wake_next
wake_next-same_lease now b = (wake_all-Woken now b.waiters (record b { waiters = [] })).same_lease

-- The lease is over, and nothing is pending.
pub record Vacant (b : Broker) : Type 0 where
  pub unleased : b.lease_id ≡ none
  pub idle : b.pending ≡ none

pub detach-pending : (r : Request) (s : Settlement) (b : Broker) → (detach r s b).pending ≡ none
unfolding detach
detach-pending r s b = elim (Bool-cases r.awaited) [ inl e ↦ rw e refl | inr e ↦ rw e refl ]

pub detach-lease :
    (r : Request) (s : Settlement) (b : Broker) → (detach r s b).lease_id ≡ b.lease_id
unfolding detach
detach-lease r s b = elim (Bool-cases r.awaited) [ inl e ↦ rw e refl | inr e ↦ rw e refl ]

pub detach-log :
    (r : Request) (s : Settlement) (b : Broker) → says_closed (detach r s b).log ≡ says_closed b.log
unfolding detach
detach-log r s b = elim (Bool-cases r.awaited) [ inl e ↦ rw e refl | inr e ↦ rw e refl ]

pub detach-terminal :
    (r : Request) (s : Settlement) (b : Broker) → (detach r s b).run_terminal ≡ b.run_terminal
unfolding detach
detach-terminal r s b = elim (Bool-cases r.awaited) [ inl e ↦ rw e refl | inr e ↦ rw e refl ]

pub Vacant-Calm : (b : Broker) → Vacant b → says_closed b.log ≡ false → Calm b
Vacant-Calm b v u = record {
  served = rw v.idle refl;
  fenced = rw v.idle refl;
  ended = rw v.unleased (ground arith);
  unclosed = u;
}

pub detach-Calm : (r : Request) (s : Settlement) (b : Broker) → Calm b → Calm (detach r s b)
detach-Calm r s b c = record {
  served = rw (detach-pending r s b) refl;
  fenced = rw (detach-pending r s b) refl;
  ended = rw (detach-terminal r s b, detach-lease r s b) c.ended;
  unclosed = detach-log r s b ∙ c.unclosed;
}

pub settle-Settled :
    (now : ℕ) (r : Request) (s : Settlement) (b : Broker) → Calm b → Settled (settle now r s b)
unfolding settle refresh_lease
settle-Settled now r s b c =
    let d = detach-Calm r s b c in
    elim (Bool-cases (is_some (detach r s b).lease_id)) [
      | inl e ↦
          simp (e, settle)
            (wake_next-Settled now (refresh_lease now (detach r s b)) (record {
              served = d.served;
              fenced = d.fenced;
              ended = d.ended;
              unclosed = d.unclosed;
            }))
      | inr e ↦ simp (e, settle) (wake_next-Settled now (detach r s b) d)
    ]

-- A settlement under no lease, as the end of the lease makes it.
settle-Vacant :
    (now : ℕ) (r : Request) (s : Settlement) (b : Broker)
    → b.lease_id ≡ none
    → says_closed b.log ≡ false
    → Calm (settle now r s b)
unfolding settle
settle-Vacant now r s b l u =
    let v : Calm (detach r s b) =
      Vacant-Calm (detach r s b)
        (record { unleased = detach-lease r s b ∙ l; idle = detach-pending r s b })
        (detach-log r s b ∙ u) in
    let e : is_some (detach r s b).lease_id ≡ false = rw (detach-lease r s b, l) refl in
    simp (e, settle) ((wake_next-Settled now (detach r s b) v).calm)

settle_lost-Calm :
    (now : ℕ) (o : Option Request) (b : Broker)
    → b.pending ≡ o
    → b.lease_id ≡ none
    → says_closed b.log ≡ false
    → Calm (settle_lost now o b)
unfolding settle_lost
settle_lost-Calm now none b e l u = Vacant-Calm b (record { unleased = l; idle = e }) u
settle_lost-Calm now (some r) b e l u = settle-Vacant now r _ b l u

pub expire_lease-Settled :
    (now : ℕ) (l : String) (b : Broker)
    → lease_is b.lease_id l ≡ true
    → says_closed b.log ≡ false
    → Settled (expire_lease now l b)
unfolding expire_lease
expire_lease-Settled now l b e u =
    simp (e, expire_lease)
      (wake_next-Settled now _ (settle_lost-Calm now b.pending (without_lease b) refl refl u))
