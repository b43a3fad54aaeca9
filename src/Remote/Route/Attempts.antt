-- ===== src/Remote/Route/Attempts.antt =====
-- src/remote/route-controller.ts: the phases of the route over an attempt, from `negotiate` to the
-- capabilities.
use abmind.Prelude.{
  ℕ, ◌≡◌, refl, ap, String, Bool, true, false, ◌&&◌, ◌||◌, not, Option, none, some, arith, str_eq,
  is_none, inl, inr, Bool-cases, Option-cases,
}
use abmind.Remote.Route.{
  Route, Control, Message, Options, is_at, is_ready_state, establish, negotiate, reconnect, opens,
  authenticated, negotiated, take_control, receives, is_stale, is_authenticating, rearmed,
  is_answer, is_establishing, is_unavailable, disconnected, pin_mismatch, negotiation_failed,
}
use abmind.Remote.Route.Phase.{
  Timed, Idle, Serving, Bound, Bound-if, set-true, set-here, unsettled-Idle, restate-Bound,
  fail-Bound, establish-Bound, rebound, pending-Bound,
}

-- A route without its timer.
pub untimed-Bound :
    (o : Options) (r : Route) → Bound o r → Bound o (record r { reconnect_timer = none })
untimed-Bound o r b = record {
  phase = elim b.phase [
    | inl i ↦ inl (record {
      not_ready = i.not_ready;
      no_capabilities = i.no_capabilities;
      not_negotiated = i.not_negotiated;
    })
    | inr s ↦ inr (record {
      is_ready = s.is_ready;
      has_capabilities = s.has_capabilities;
      current = s.current;
      done = s.done;
      untimed = refl;
      still_open = s.still_open;
    })
  ];
  timed = tt;
  future = b.future;
  attempts = b.attempts;
}

pub untimed-Idle : (r : Route) → Idle r → Idle (record r { reconnect_timer = none })
untimed-Idle r i = record {
  not_ready = i.not_ready;
  no_capabilities = i.no_capabilities;
  not_negotiated = i.not_negotiated;
}

pub Serving-returns :
    (r : Route)
    → Serving r
    → is_ready_state r.state
        && not (is_none r.capabilities)
        && is_at r.generation r.negotiated_generation
      ≡ true
Serving-returns r s = rw s.current (ground (arith, s.is_ready, s.has_capabilities))

pub rearmed-Bound : (o : Options) (r : Route) → Idle r → Bound o r → Bound o (establish (rearmed r))
rearmed-Bound o r i b =
    let c = untimed-Bound o r b in
    let j = untimed-Idle r i in
    elim (Bool-cases (is_unavailable r.state)) [
      | inl g ↦
          let k : Idle
              (record r { reconnect_timer = none; reason_code = none; state = disconnected }) =
            record {
              not_ready = refl;
              no_capabilities = i.no_capabilities;
              not_negotiated = i.not_negotiated;
            } in
          simp g (establish-Bound o _ k refl (restate-Bound o _ disconnected none refl j c))
      | inr g ↦ simp g (establish-Bound o _ j refl c)
    ]

pub negotiate-Bound : (o : Options) (r : Route) → Bound o r → Bound o (negotiate r)
unfolding negotiate
negotiate-Bound o r b =
    Bound-if o r.is_closed r _ (λ e. b)
      (λ e.
        Bound-if o
          (is_ready_state r.state
            && not (is_none r.capabilities)
            && is_at r.generation r.negotiated_generation)
          r _ (λ f. b)
          (λ f.
            Bound-if o (is_establishing r) r _ (λ g. b)
              (λ g. elim b.phase [
                | inl i ↦ rearmed-Bound o r i b
                | inr s ↦ absurd (ground (arith, f, Serving-returns r s))
              ])))

pub reconnect-Bound : (o : Options) (r : Route) → Bound o r → Bound o (reconnect r)
unfolding reconnect
reconnect-Bound o r b =
    Bound-if o (is_none r.reconnect_timer) r _ (λ e. b)
      (λ e.
        Bound-if o r.is_closed _ _ (λ f. untimed-Bound o r b)
          (λ f. elim b.phase [
            | inl i ↦ establish-Bound o _ (untimed-Idle r i) refl (untimed-Bound o r b)
            | inr s ↦ absurd (ground (arith, s.untimed, e))
          ]))

-- A guard that lets an event through says that it is one of the current attempt, which has not settled.
pub here : (g : ℕ) (r : Route) → (r.settled g || is_stale g r) ≡ false → g ≡ r.generation
here g r e = ground (arith, e)

pub open_attempt : (g : ℕ) (r : Route) → (r.settled g || is_stale g r) ≡ false → r.settled g ≡ false
open_attempt g r e = ground (arith, e)

pub opens-Bound : (o : Options) (g : ℕ) (p : Bool) (r : Route) → Bound o r → Bound o (opens o g p r)
unfolding opens
opens-Bound o g p r b =
    Bound-if o (r.settled g || is_stale g r) r _ (λ e. b)
      (λ e.
        Bound-if o (not p) _ _ (λ f. fail-Bound o g pin_mismatch false r b)
          (λ f.
            let i = unsettled-Idle o r b (rw (here g r e) at (open_attempt g r e)) in
            record {
              phase = inl (record {
                not_ready = refl;
                no_capabilities = i.no_capabilities;
                not_negotiated = i.not_negotiated;
              });
              timed = b.timed;
              future = b.future;
              attempts = b.attempts;
            }))

pub authenticated-Bound :
    (o : Options) (g : ℕ) (id q : String) (r : Route)
    → Bound o r
    → Bound o (authenticated o g id q r)
unfolding authenticated
authenticated-Bound o g id q r b =
    Bound-if o
      (r.settled g || is_stale g r || not (is_at g r.socket) || not (is_authenticating r.state)) r _
      (λ e. b)
      (λ e.
        let h : (r.settled g || is_stale g r) ≡ false = ground (arith, e) in
        let i = unsettled-Idle o r b (rw (here g r h) at (open_attempt g r h)) in
        rebound o r _
          (inl (record {
            not_ready = refl;
            no_capabilities = i.no_capabilities;
            not_negotiated = i.not_negotiated;
          }))
          refl refl b.future refl b)

pub unsettled-untimed : (o : Options) (t : Option ℕ) (b : Bool) → Timed o t b → b ≡ false → t ≡ none
unsettled-untimed o none b t e = refl
unsettled-untimed o (some d) b t e = absurd (ground (arith, t.1, e))

pub negotiated-Bound :
    (o : Options) (g : ℕ) (caps : String) (r : Route) → Bound o r → Bound o (negotiated g caps r)
unfolding negotiated
negotiated-Bound o g caps r b =
    Bound-if o (r.settled g || is_stale g r) r _ (λ e. b)
      (λ e.
        let k = here g r e in
        let u : r.settled r.generation ≡ false = rw k at (open_attempt g r e) in
        let t = unsettled-untimed o r.reconnect_timer _ b.timed u in
        record {
          phase = inr (record {
            is_ready = refl;
            has_capabilities = refl;
            current = ap (λ x. some x) k;
            done = rw k (set-here r.generation true r.settled);
            untimed = t;
            still_open = ground (arith, e);
          });
          timed = rw t tt;
          future = λ h l. set-true g h r.settled (b.future h l);
          attempts = omega arith;
        })

pub take_control-Bound :
    (o : Options) (m : Message) (c : Control) (r : Route)
    → Bound o r
    → Bound o (take_control o m c r)
unfolding take_control
take_control-Bound o m c r b =
    let refused = fail-Bound o c.generation negotiation_failed false _ (pending-Bound o r none b) in
    Bound-if o (not (str_eq m.id c.id)) r _ (λ e. b)
      (λ e.
        Bound-if o (not (is_answer c m)) _ _ (λ f. refused)
          (λ f. elim (Option-cases m.result) [
            | inl g ↦ simp (g, take_control) refused
            | inr (caps, g) ↦
                simp (g, take_control)
                  (negotiated-Bound o c.generation caps _ (pending-Bound o r none b))
          ]))

pub receives-Bound :
    (o : Options) (g : ℕ) (m : Message) (r : Route) → Bound o r → Bound o (receives o g m r)
unfolding receives
receives-Bound o g m r b =
    Bound-if o (is_stale g r) r _ (λ e. b)
      (λ e. elim (Option-cases r.pending_control) [
        | inl f ↦ simp (f, receives) b
        | inr (c, f) ↦ simp (f, receives) (take_control-Bound o m c r b)
      ])
