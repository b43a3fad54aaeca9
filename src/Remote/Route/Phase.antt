-- ===== src/Remote/Route/Phase.antt =====
-- src/remote/route-controller.ts: the phases of the route, and how a phase survives the changes that the
-- operations share.
use abmind.Prelude.{
  ℕ, ◌+◌, ◌≤◌, ◌<◌, ◌≡◌, refl, ◌∙◌, Bool, true, false, ◌||◌, not, Option, none, some, arith, leb,
  ◌==◌, if◌then◌else◌, is_none, ◌⊎◌, inl, inr, Bool-cases,
}
use abmind.Remote.Route.{
  Route, RouteState, reconnecting, Reason, Control, Options, set, is_ready_state, backoff_delay,
  schedule_reconnect, detach_socket, settle_attempt, fail, establish,
}

-- No capabilities, of no generation.
pub record Idle (r : Route) : Type 0 where
  pub not_ready : is_ready_state r.state ≡ false
  pub no_capabilities : r.capabilities ≡ none
  pub not_negotiated : r.negotiated_generation ≡ none

-- Capabilities of the current generation, whose attempt is settled, with no reconnection to come.
pub record Serving (r : Route) : Type 0 where
  pub is_ready : is_ready_state r.state ≡ true
  pub has_capabilities : is_none r.capabilities ≡ false
  pub current : r.negotiated_generation ≡ some r.generation
  pub done : r.settled r.generation ≡ true
  pub untimed : r.reconnect_timer ≡ none
  pub still_open : r.is_closed ≡ false

abbrev pub Timed : Options → Option ℕ → Bool → Type 0
Timed o none b = Unit
Timed o (some d) b = (d ≤ o.max_ms) × (b ≡ true)

pub record Bound (o : Options) (r : Route) : Type 0 where
  pub phase : Idle r ⊎ Serving r
  pub timed : Timed o r.reconnect_timer (r.settled r.generation)
  pub future : (h : ℕ) → r.generation < h → r.settled h ≡ true
  pub attempts : r.reconnect_attempts ≤ o.max_attempts

pub Bound-if :
    (o : Options) (b : Bool) (x y : Route)
    → (b ≡ true → Bound o x)
    → (b ≡ false → Bound o y)
    → Bound o (if b then x else y)
Bound-if o true x y f g = f refl
Bound-if o false x y f g = g refl

pub set-true : (g h : ℕ) (f : ℕ → Bool) → f h ≡ true → set g true f h ≡ true
set-true g h f e = ground (arith, e)

pub set-here : (g : ℕ) (b : Bool) (f : ℕ → Bool) → set g b f g ≡ b
set-here g b f = ground arith

pub Timed-settled :
    (o : Options) (t : Option ℕ) (b b' : Bool) → (b ≡ true → b' ≡ true) → Timed o t b → Timed o t b'
Timed-settled o none b b' f t = tt
Timed-settled o (some d) b b' f t = (t.0, f t.1)

pub settle_attempt-Bound :
    (o : Options) (g : ℕ) (r : Route) → Bound o r → Bound o (settle_attempt g r)
unfolding settle_attempt detach_socket
settle_attempt-Bound o g r b = record {
  phase = elim b.phase [
    | inl i ↦ inl (record {
      not_ready = i.not_ready;
      no_capabilities = i.no_capabilities;
      not_negotiated = i.not_negotiated;
    })
    | inr s ↦ inr (record {
      is_ready = s.is_ready;
      has_capabilities = s.has_capabilities;
      current = s.current;
      done = set-true g r.generation r.settled s.done;
      untimed = s.untimed;
      still_open = s.still_open;
    })
  ];
  timed = Timed-settled o r.reconnect_timer _ _ (set-true g r.generation r.settled) b.timed;
  future = λ h l. set-true g h r.settled (b.future h l);
  attempts = b.attempts;
}

pub backoff_delay-le : (o : Options) (n : ℕ) → backoff_delay o n ≤ o.max_ms
unfolding backoff_delay
backoff_delay-le o n = omega arith

-- A reconnection is scheduled for a route without capabilities whose attempt is settled.
pub schedule_reconnect-Bound :
    (o : Options) (r : Route)
    → Idle r
    → r.settled r.generation ≡ true
    → Bound o r
    → Bound o (schedule_reconnect o r)
unfolding schedule_reconnect
schedule_reconnect-Bound o r i d b =
    elim (Bool-cases (r.is_closed || not (is_none r.reconnect_timer))) [
      | inl e ↦ rw e b
      | inr e ↦ rw e (elim (Bool-cases (leb o.max_attempts r.reconnect_attempts)) [
        | inl f ↦ rw f (record {
          phase = inl (record {
            not_ready = refl;
            no_capabilities = i.no_capabilities;
            not_negotiated = i.not_negotiated;
          });
          timed = b.timed;
          future = b.future;
          attempts = b.attempts;
        })
        | inr f ↦ rw f (record {
          phase = inl (record {
            not_ready = i.not_ready;
            no_capabilities = i.no_capabilities;
            not_negotiated = i.not_negotiated;
          });
          timed = (backoff_delay-le o (r.reconnect_attempts + 1), d);
          future = b.future;
          attempts = ground (arith, f);
        })
      ])
    ]

-- An attempt that has not settled belongs to a route without capabilities.
pub unsettled-Idle : (o : Options) (r : Route) → Bound o r → r.settled r.generation ≡ false → Idle r
unsettled-Idle o r b e = elim b.phase [ inl i ↦ i | inr s ↦ absurd (ground (arith, s.done, e)) ]

-- A change of the state to one that is not ready, in a route without capabilities.
pub restate-Bound :
    (o : Options) (r : Route) (s : RouteState) (q : Option Reason)
    → is_ready_state s ≡ false
    → Idle r
    → Bound o r
    → Bound o (record r { state = s; reason_code = q })
restate-Bound o r s q e i b = record {
  phase = inl (record {
    not_ready = e;
    no_capabilities = i.no_capabilities;
    not_negotiated = i.not_negotiated;
  });
  timed = b.timed;
  future = b.future;
  attempts = b.attempts;
}

pub fail-Bound :
    (o : Options) (g : ℕ) (q : Reason) (t : Bool) (r : Route) → Bound o r → Bound o (fail o g q t r)
unfolding fail settle_attempt detach_socket
fail-Bound o g q t r b = elim (Bool-cases (r.settled g)) [
  | inl e ↦ rw e b
  | inr e ↦ rw e (elim (Bool-cases (r.is_closed || not (g == r.generation))) [
    | inl f ↦ rw f (settle_attempt-Bound o g r b)
    | inr f ↦
        let here : g ≡ r.generation = ground (arith, f) in
        let i = unsettled-Idle o r b (rw here at e) in
        let b' = settle_attempt-Bound o g r b in
        let i' : Idle (settle_attempt g r) = record {
          not_ready = i.not_ready;
          no_capabilities = i.no_capabilities;
          not_negotiated = i.not_negotiated;
        } in
        let d : set g true r.settled r.generation ≡ true =
          rw here (set-here r.generation true r.settled) in
        rw f (elim (Bool-cases t) [
          | inl k ↦ rw k (
              schedule_reconnect-Bound o _
                (record {
                  not_ready = refl;
                  no_capabilities = i.no_capabilities;
                  not_negotiated = i.not_negotiated;
                })
                d (restate-Bound o _ reconnecting (some q) refl i' b'))
          | inr k ↦ rw k (record {
            phase =
                inl (record { not_ready = refl; no_capabilities = refl; not_negotiated = refl });
            timed = b'.timed;
            future = b'.future;
            attempts = b'.attempts;
          })
        ])
  ])
]

-- A new attempt of a route without capabilities and without a timer.
pub establish-Bound :
    (o : Options) (r : Route)
    → Idle r
    → r.reconnect_timer ≡ none
    → Bound o r
    → Bound o (establish r)
unfolding establish
establish-Bound o r i e b = record {
  phase = inl (record {
    not_ready = refl;
    no_capabilities = i.no_capabilities;
    not_negotiated = i.not_negotiated;
  });
  timed = rw e tt;
  future = λ h l. ground (arith, b.future h, l);
  attempts = b.attempts;
}

-- What a change of other fields needs: the phase again.
pub rebound :
    (o : Options) (r r' : Route)
    → Idle r' ⊎ Serving r'
    → r'.reconnect_timer ≡ r.reconnect_timer
    → r'.settled r'.generation ≡ r.settled r.generation
    → ((h : ℕ) → r'.generation < h → r'.settled h ≡ true)
    → r'.reconnect_attempts ≡ r.reconnect_attempts
    → Bound o r
    → Bound o r'
rebound o r r' p t d f a b = record {
  phase = p;
  timed = rw (t, d) b.timed;
  future = f;
  attempts = rw a b.attempts;
}

pub Idle-other :
    {r r' : Route}
    → r'.state ≡ r.state
    → r'.capabilities ≡ r.capabilities
    → r'.negotiated_generation ≡ r.negotiated_generation
    → Idle r
    → Idle r'
Idle-other s c n i = record {
  not_ready = rw s i.not_ready;
  no_capabilities = c ∙ i.no_capabilities;
  not_negotiated = n ∙ i.not_negotiated;
}

pub phase-pending :
    (r : Route) (c : Option Control)
    → Idle r ⊎ Serving r
    → Idle (record r { pending_control = c }) ⊎ Serving (record r { pending_control = c })
phase-pending r c (inl i) = inl (Idle-other refl refl refl i)
phase-pending r c (inr s) = inr (record {
  is_ready = s.is_ready;
  has_capabilities = s.has_capabilities;
  current = s.current;
  done = s.done;
  untimed = s.untimed;
  still_open = s.still_open;
})

pub pending-Bound :
    (o : Options) (r : Route) (c : Option Control)
    → Bound o r
    → Bound o (record r { pending_control = c })
pending-Bound o r c b = rebound o r _ (phase-pending r c b.phase) refl refl b.future refl b

pub settled-Bound :
    (o : Options) (g : ℕ) (r : Route)
    → Bound o r
    → Bound o (record r { settled = set g true r.settled })
settled-Bound o g r b = record {
  phase = elim b.phase [
    | inl i ↦ inl (Idle-other refl refl refl i)
    | inr s ↦ inr (record {
      is_ready = s.is_ready;
      has_capabilities = s.has_capabilities;
      current = s.current;
      done = set-true g r.generation r.settled s.done;
      untimed = s.untimed;
      still_open = s.still_open;
    })
  ];
  timed = Timed-settled o r.reconnect_timer _ _ (set-true g r.generation r.settled) b.timed;
  future = λ h l. set-true g h r.settled (b.future h l);
  attempts = b.attempts;
}
