-- ===== src/Remote/Route/Bound.antt =====
-- src/remote/route-controller.ts: the capabilities and their generation, and the bounds of reconnection.
use abmind.Prelude.{ℕ, refl, String, Bool, false, none, List, [], ◌∷◌, arith, inl}
use abmind.Remote.Route.{
  Route, Message, Options, new_route, negotiate, reconnect, opens, authenticated,
  authentication_fails, negotiation_fails, receives, socket_closes, socket_fails, close,
  negotiation_failed, authentication_failed,
}
use abmind.Remote.Route.Phase.{Bound, fail-Bound, pending-Bound}
use abmind.Remote.Route.Attempts.{
  negotiate-Bound, reconnect-Bound, opens-Bound, authenticated-Bound, receives-Bound,
}
use abmind.Remote.Route.Loss.{socket_closes-Bound, socket_fails-Bound, close-Bound}

pub data Event : Type 0 where
  negotiates reconnects closes : Event
  opened : ℕ → Bool → Event
  hello_ack : ℕ → String → String → Event
  authentication_failure negotiation_failure socket_close socket_error : ℕ → Event
  message : ℕ → Message → Event

abbrev pub step : Options → Event → Route → Route
step o negotiates r = negotiate r
step o reconnects r = reconnect r
step o closes r = close o r
step o (opened g pinned) r = opens o g pinned r
step o (hello_ack g id request_id) r = authenticated o g id request_id r
step o (authentication_failure g) r = authentication_fails o g r
step o (negotiation_failure g) r = negotiation_fails o g r
step o (socket_close g) r = socket_closes o g r
step o (socket_error g) r = socket_fails o g r
step o (message g m) r = receives o g m r

abbrev pub run : Options → List Event → Route → Route
run o [] r = r
run o (e ∷ es) r = run o es (step o e r)

step-Bound : (o : Options) (e : Event) (r : Route) → Bound o r → Bound o (step o e r)
unfolding authentication_fails negotiation_fails
step-Bound o negotiates r b = negotiate-Bound o r b
step-Bound o reconnects r b = reconnect-Bound o r b
step-Bound o closes r b = close-Bound o r b
step-Bound o (opened g pinned) r b = opens-Bound o g pinned r b
step-Bound o (hello_ack g id q) r b = authenticated-Bound o g id q r b
step-Bound o (authentication_failure g) r b = fail-Bound o g authentication_failed false r b
step-Bound o (negotiation_failure g) r b =
    fail-Bound o g negotiation_failed false _ (pending-Bound o r none b)
step-Bound o (socket_close g) r b = socket_closes-Bound o g r b
step-Bound o (socket_error g) r b = socket_fails-Bound o g r b
step-Bound o (message g m) r b = receives-Bound o g m r b

pub new_route-Bound : (o : Options) → Bound o new_route
new_route-Bound o = record {
  phase = inl (record { not_ready = refl; no_capabilities = refl; not_negotiated = refl });
  timed = tt;
  future = λ h l. refl;
  attempts = omega arith;
}

-- Over any events, those of old sockets among them: the route either has no capabilities, or it is ready
-- with the capabilities of its current generation, whose attempt has settled, with no reconnection to
-- come; a reconnection that is scheduled comes within the greatest delay and never beside an attempt that
-- is open; and at most as many are made in a row as the options allow.
pub run-Bound : (o : Options) (es : List Event) (r : Route) → Bound o r → Bound o (run o es r)
run-Bound o [] r b = b
run-Bound o (e ∷ es) r b = run-Bound o es (step o e r) (step-Bound o e r b)
