-- ===== src/Remote/Route/Tests.antt =====
-- A connection of the route of src/remote/route-controller.ts, its loss and what an old socket still says, and
-- the theorems at that run.
use abmind.Prelude.{◌≡◌, refl, some, List, [], ◌∷◌, true}
use abmind.Remote.Route.{
  reconnecting, unavailable, Options, Message, new_route, is_ready, negotiate, establish, opens,
  authenticated, receives, take_control, negotiated, socket_closes, lose_route, fail,
  settle_attempt, detach_socket, schedule_reconnect, backoff_delay, authentication_fails,
}
use abmind.Remote.Route.Bound.{
  Event, negotiates, opened, hello_ack, message, socket_close, authentication_failure, step, run,
  run-Bound, new_route-Bound,
}
use abmind.Remote.Route.Phase.{Bound}
use abmind.Remote.Route.Stale.{Unmoved, step-Unmoved}

abbrev usual : Options
usual = record { base_ms = 1000; max_ms = 60000; max_attempts = 10 }

abbrev welcome : Message
welcome = record { id = "f"; answers = some "q"; result = some "caps" }

abbrev connection : List Event
connection = negotiates ∷ opened 1 true ∷ hello_ack 1 "f" "q" ∷ message 1 welcome ∷ []

abbrev loss : List Event
loss = negotiates ∷ opened 1 true ∷ hello_ack 1 "f" "q" ∷ message 1 welcome ∷ socket_close 1 ∷ []

connection-ready : is_ready true (run usual connection new_route) ≡ true
unfolding is_ready negotiate establish opens authenticated receives take_control negotiated
connection-ready = refl

loss-timer : (run usual loss new_route).reconnect_timer ≡ some 1000
unfolding negotiate establish opens authenticated receives take_control negotiated socket_closes
    lose_route schedule_reconnect backoff_delay
loss-timer = refl

-- The state after a failed authentication, and after the close of its socket.
abbrev refusal : List Event
refusal = negotiates ∷ opened 1 true ∷ authentication_failure 1 ∷ []

refusal-state : (run usual refusal new_route).state ≡ unavailable
unfolding negotiate establish opens authentication_fails fail settle_attempt detach_socket
refusal-state = refl

refusal-close : (step usual (socket_close 1) (run usual refusal new_route)).state ≡ reconnecting
unfolding negotiate establish opens authentication_fails fail settle_attempt detach_socket
    socket_closes lose_route schedule_reconnect
refusal-close = refl

run-Bound_example : Bound usual (run usual loss new_route)
run-Bound_example = run-Bound usual loss new_route (new_route-Bound usual)

loss-generation : (run usual loss new_route).generation ≡ 2
unfolding negotiate establish opens authenticated receives take_control negotiated socket_closes
    lose_route schedule_reconnect
loss-generation = refl

step-Unmoved_example :
    Unmoved (run usual loss new_route) (step usual (message 1 welcome) (run usual loss new_route))
step-Unmoved_example =
    step-Unmoved usual (message 1 welcome) 1 (run usual loss new_route) refl
      (rw loss-generation refl)
