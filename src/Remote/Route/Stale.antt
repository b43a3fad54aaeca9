-- ===== src/Remote/Route/Stale.antt =====
-- src/remote/route-controller.ts: what the events of a socket that is no longer the current one do.
use abmind.Prelude.{
  ℕ, ◌≡◌, refl, Bool, true, false, ◌||◌, not, Option, none, some, arith, ap, ◌==◌, if◌then◌else◌,
}
use abmind.Remote.Route.{
  Route, Reason, Options, is_at, is_stale, is_authenticating, fail, settle_attempt, detach_socket,
  opens, authenticated, authentication_fails, negotiation_fails, receives, socket_closes,
  socket_fails, authentication_failed, negotiation_failed,
}
use abmind.Remote.Route.Bound.{
  Event, negotiates, reconnects, closes, opened, hello_ack, authentication_failure,
  negotiation_failure, socket_close, socket_error, message, step,
}

-- The generation that an event belongs to.
abbrev pub event_generation : Event → Option ℕ
event_generation negotiates = none
event_generation reconnects = none
event_generation closes = none
event_generation (opened g pinned) = some g
event_generation (hello_ack g id q) = some g
event_generation (authentication_failure g) = some g
event_generation (negotiation_failure g) = some g
event_generation (socket_close g) = some g
event_generation (socket_error g) = some g
event_generation (message g m) = some g

-- What the controller shows and what it will do next are the same.
pub record Unmoved (r r' : Route) : Type 0 where
  pub state : r'.state ≡ r.state
  pub generation : r'.generation ≡ r.generation
  pub negotiated : r'.negotiated_generation ≡ r.negotiated_generation
  pub reason : r'.reason_code ≡ r.reason_code
  pub capabilities : r'.capabilities ≡ r.capabilities
  pub attempts : r'.reconnect_attempts ≡ r.reconnect_attempts
  pub timer : r'.reconnect_timer ≡ r.reconnect_timer
  pub news : r'.published ≡ r.published

Unmoved-refl : {r : Route} → Unmoved r r
Unmoved-refl = record {
  state = refl;
  generation = refl;
  negotiated = refl;
  reason = refl;
  capabilities = refl;
  attempts = refl;
  timer = refl;
  news = refl;
}

Unmoved-if :
    (b : Bool) {r x y : Route}
    → (b ≡ true → Unmoved r x)
    → (b ≡ false → Unmoved r y)
    → Unmoved r (if b then x else y)
Unmoved-if true f g = f refl
Unmoved-if false f g = g refl

-- The number of an event, and that it is not the current one.
named : (k g n : ℕ) → some k ≡ some g → (g == n) ≡ false → (k == n) ≡ false
named k g n h s = let e : k ≡ g = ap (λ o. elim o [ none ↦ k | some x ↦ x ]) h in rw e s

fail-Unmoved :
    (o : Options) (g : ℕ) (q : Reason) (t : Bool) (r : Route)
    → (g == r.generation) ≡ false
    → Unmoved r (fail o g q t r)
unfolding fail settle_attempt detach_socket
fail-Unmoved o g q t r e =
    Unmoved-if (r.settled g) (λ f. Unmoved-refl)
      (λ f.
        Unmoved-if (r.is_closed || not (g == r.generation))
          (λ h. record {
            state = refl;
            generation = refl;
            negotiated = refl;
            reason = refl;
            capabilities = refl;
            attempts = refl;
            timer = refl;
            news = refl;
          })
          (λ h. absurd (ground (arith, e, h))))

-- An event of a socket that is not of the current generation does not move the route: its state, its
-- generation, its capabilities, its reason, its count of attempts and its timer stay, and nobody is told
-- anything.
pub step-Unmoved :
    (o : Options) (e : Event) (g : ℕ) (r : Route)
    → event_generation e ≡ some g
    → (g == r.generation) ≡ false
    → Unmoved r (step o e r)
unfolding opens authenticated authentication_fails negotiation_fails receives socket_closes
    socket_fails
step-Unmoved o negotiates g r h s = cc
step-Unmoved o reconnects g r h s = cc
step-Unmoved o closes g r h s = cc
step-Unmoved o (opened k pinned) g r h s =
    let n = named k g r.generation h s in
    Unmoved-if (r.settled k || is_stale k r) (λ e. Unmoved-refl)
      (λ e. absurd (ground (arith, e, n)))
step-Unmoved o (hello_ack k id q) g r h s =
    let n = named k g r.generation h s in
    Unmoved-if
      (r.settled k || is_stale k r || not (is_at k r.socket) || not (is_authenticating r.state))
      (λ e. Unmoved-refl) (λ e. absurd (ground (arith, e, n)))
step-Unmoved o (authentication_failure k) g r h s =
    fail-Unmoved o k authentication_failed false r (named k g r.generation h s)
step-Unmoved o (negotiation_failure k) g r h s =
    let u =
      fail-Unmoved o k negotiation_failed false (record r { pending_control = none })
        (named k g r.generation h s) in
    record {
      state = u.state;
      generation = u.generation;
      negotiated = u.negotiated;
      reason = u.reason;
      capabilities = u.capabilities;
      attempts = u.attempts;
      timer = u.timer;
      news = u.news;
    }
step-Unmoved o (socket_close k) g r h s =
    let n = named k g r.generation h s in
    Unmoved-if r.is_closed
      (λ e. record {
        state = refl;
        generation = refl;
        negotiated = refl;
        reason = refl;
        capabilities = refl;
        attempts = refl;
        timer = refl;
        news = refl;
      })
      (λ e.
        Unmoved-if (not (k == r.generation)) (λ f. Unmoved-refl)
          (λ f. absurd (ground (arith, f, n))))
step-Unmoved o (socket_error k) g r h s =
    let n = named k g r.generation h s in
    Unmoved-if r.is_closed
      (λ e. record {
        state = refl;
        generation = refl;
        negotiated = refl;
        reason = refl;
        capabilities = refl;
        attempts = refl;
        timer = refl;
        news = refl;
      })
      (λ e.
        Unmoved-if (not (k == r.generation) || r.connected k) (λ f. Unmoved-refl)
          (λ f. absurd (ground (arith, f, n))))
step-Unmoved o (message k m) g r h s =
    let n = named k g r.generation h s in
    Unmoved-if (is_stale k r) (λ e. Unmoved-refl) (λ e. absurd (ground (arith, e, n)))
