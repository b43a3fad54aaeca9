-- ===== src/Remote/Transport/Runs.antt =====
-- src/remote/signed-wss-transport.ts: what happens to a transport, and runs of it.
use abmind.Prelude.{ℕ, String, List, [], ◌∷◌}
use abmind.Remote.Outbox.{Entry}
use abmind.Remote.Route.Bound.{Event as RouteEvent}
use abmind.Remote.Transport.{
  Options, Moment, Transport, close, request, attempt_expires, pump_fires, route_changes,
}
use abmind.Remote.Transport.Messages.{Incoming, message_arrives}

pub data Event : Type 0 where
  asks : Moment → Entry → Event
  attempt_timeout : Moment → String → Event
  pump_timeout : Moment → Event
  on_route : Moment → RouteEvent → Event
  receives : Moment → Incoming → ℕ → Event
  closes : Event

abbrev pub step : Options → Event → Transport → Transport
step o (asks m e) t = request o m e t
step o (attempt_timeout m i) t = attempt_expires o m i t
step o (pump_timeout m) t = pump_fires o m t
step o (on_route m e) t = route_changes o m e t
step o (receives m f g) t = message_arrives o m f g t
step o closes t = close o t

abbrev pub run : Options → List Event → Transport → Transport
run o [] t = t
run o (e ∷ es) t = run o es (step o e t)
