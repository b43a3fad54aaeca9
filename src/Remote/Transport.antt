-- ===== src/Remote/Transport.antt =====
-- src/remote/signed-wss-transport.ts: `SignedWssTransport` over the outbox and the route. A request is
-- named by the id of its frame. What the outside decides during a handler is a `Moment`: the disk at each
-- kind of write, the clock, which is read once, the jitter drawn, and whether the socket is open and takes
-- a frame. The timer of an attempt may fire at any time. `asked`, `replies` and `wire` are histories: the
-- requests made, the answers to their callers, and the frames sent. The signature of a frame is left
-- out, and so are the payload and the capabilities.
pub mod Messages
pub mod Runs
pub mod Moves
pub mod Handlers
pub mod Serving
pub mod Limits
pub mod Progress
mod Tests
use abmind.Prelude.{
  ℕ, ◌+◌, ◌-◌, ◌*◌, ◌^◌, min, String, Bool, true, false, ◌&&◌, ◌||◌, not, Option, none, some, List,
  [], ◌∷◌, ◌++◌, map, str_eq, ltb, ◌==◌, if◌then◌else◌, length, is_none,
}
use abmind.Prelude.Table.{select}
use abmind.Remote.Outbox.{
  Outbox, Disk, Entry, RetryFailure, timeout, send_failed, socket_lost, is_in_flight, is_terminal,
  append, get, mark_in_flight, mark_retry_wait, mark_terminal_unknown, acknowledge, is_exhausted,
  peek_due, counts,
}
use abmind.Remote.Route.{Route, Published, on_ready, on_route_lost, is_ready}
use abmind.Remote.Route as Controller
use abmind.Remote.Route.Bound.{Event as RouteEvent, step as route_step}

pub record Options : Type 0 where
  pub request_timeout_ms : ℕ
  pub retry_base_ms : ℕ
  pub retry_max_ms : ℕ
  pub route_options : Controller.Options

pub data Write : Type 0 where
  appending sending failing settling acknowledging : Write

pub record Moment : Type 0 where
  pub disk : Write → Disk
  pub now : ℕ
  pub jitter : ℕ
  pub opened : Bool
  pub takes : Bool

-- A caller that waits.
pub record Pending : Type 0 where
  pub frame_id : String
  pub request_id : String

-- A frame and the generation of the socket that it was sent on.
pub record Sent : Type 0 where
  pub frame_id : String
  pub generation : ℕ

-- The timer of the pump: for another look at the outbox, or for the send itself.
pub data PumpTimer : Type 0 where
  looks_again : ℕ → PumpTimer
  sends_due : PumpTimer

pub data Outcome : Type 0 where
  transport_closed unusable not_ready not_persisted outcome_unknown : Outcome
  answered : Bool → String → Outcome

pub record Reply : Type 0 where
  pub frame_id : String
  pub request_id : String
  pub outcome : Outcome

pub record Transport : Type 0 where
  pub outbox : Outbox
  pub route : Route
  pub pending : List Pending
  pub sent_on_gen : List Sent
  pub pump_timer : Option PumpTimer
  pub is_closed : Bool
  pub degraded : Bool
  pub asked : List String
  pub replies : List Reply
  pub wire : List Sent

abbrev pub waits_for : String → Pending → Bool
waits_for i p = str_eq p.frame_id i

abbrev pub is_frame : String → Sent → Bool
is_frame i s = str_eq s.frame_id i

-- `pending.set`, and `delete` of the two maps.
pub put : Pending → List Pending → List Pending
put p [] = p ∷ []
put p (x ∷ xs) = if waits_for p.frame_id x then p ∷ xs else x ∷ put p xs

pub take_out : String → List Pending → List Pending
take_out i [] = []
take_out i (x ∷ xs) = if waits_for i x then xs else x ∷ take_out i xs

pub release : String → List Sent → List Sent
release i [] = []
release i (x ∷ xs) = if is_frame i x then xs else x ∷ release i xs

abbrev pub reply : String → String → Outcome → Reply
reply i request_id outcome = record { frame_id = i; request_id = request_id; outcome = outcome }

abbrev pub reply_to : Outcome → Pending → Reply
reply_to outcome p = reply p.frame_id p.request_id outcome

pub retry_delay : Options → ℕ → ℕ → ℕ
retry_delay o attempts jitter =
    min (min (o.retry_base_ms * 2 ^ (attempts - 1)) o.retry_max_ms + jitter) (o.retry_max_ms + 1000)

abbrev pub route_ready : Moment → Transport → Bool
route_ready m t = is_ready m.opened t.route

-- The state of the constructor, over the outbox as it is loaded.
abbrev pub new_transport : Outbox → Route → Transport
new_transport b r = record {
  outbox = b;
  route = r;
  pending = [];
  sent_on_gen = [];
  pump_timer = none;
  is_closed = false;
  degraded = b.quarantined;
  asked = [];
  replies = [];
  wire = [];
}

-- `negotiate` up to the controller's: whether it is refused.
pub negotiation_refused : Transport → Bool
negotiation_refused t = t.degraded || t.outbox.quarantined

-- All callers are answered, the maps cleared and the controller closed.
abbrev pub abort : Options → Outcome → Transport → Transport
abort o outcome t = record t {
  replies = map (reply_to outcome) t.pending ++ t.replies;
  pending = [];
  sent_on_gen = [];
  route = Controller.close o.route_options t.route;
}

pub close : Options → Transport → Transport
close o t = abort o transport_closed (record t { is_closed = true; pump_timer = none })

pub mark_degraded : Options → Transport → Transport
mark_degraded o t = abort o not_persisted (record t { degraded = true })

-- The timer that `schedulePump` arms when nothing is due.
abbrev look_again : Options → ℕ → Option ℕ → Option PumpTimer
look_again o now none = none
look_again o now (some next) =
    if ltb now next then some (looks_again (min (next - now) o.request_timeout_ms)) else none

pub pump_for : Options → Moment → Transport → Option PumpTimer
pump_for o m t = elim (peek_due m.now t.outbox) [
  | none ↦ look_again o m.now (counts t.outbox).next_attempt_at
  | some e ↦ some sends_due
]

pub schedule_pump : Options → Moment → Transport → Transport
schedule_pump o m t =
    if t.is_closed || t.degraded || not (route_ready m t)
    then t
    else if not (is_none t.pump_timer)
    then t
    else record t { pump_timer = pump_for o m t }

-- The caller of a frame, if it waits, gets an answer.
abbrev answer_pending : Outcome → String → String → Transport → Option Pending → Transport
answer_pending outcome i request_id t none = t
answer_pending outcome i request_id t (some p) = record t {
  pending = take_out i t.pending;
  replies = reply p.frame_id request_id outcome ∷ t.replies;
}

abbrev release_frame : String → Transport → Transport
release_frame i t = record t { sent_on_gen = release i t.sent_on_gen }

-- `entry?.requestId ?? pending?.requestId ?? frameId`.
abbrev request_of : String → Option Entry → Option Pending → String
request_of i (some e) p = e.request_id
request_of i none (some p) = p.request_id
request_of i none none = i

abbrev with_outbox : Outbox → Transport → Transport
with_outbox b t = record t { outbox = b }

pub settle_terminal_unknown : Options → Moment → String → RetryFailure → Transport → Transport
settle_terminal_unknown o m i failure t =
    let waiting = select (waits_for i) t.pending in
    let (b, acked) = mark_terminal_unknown (m.disk settling) i failure t.outbox in
    if not acked && b.degraded
    then mark_degraded o (with_outbox b t)
    else schedule_pump o m (
        release_frame i (
          answer_pending outcome_unknown i (request_of i (get i t.outbox) waiting) (with_outbox b t)
            waiting))

abbrev after_retry_wait : Options → Moment → Outbox × Bool → Transport → Transport
after_retry_wait o m (b, done) t =
    if not done && b.degraded
    then mark_degraded o (with_outbox b t)
    else schedule_pump o m (with_outbox b t)

pub fail_entry : Options → Moment → String → RetryFailure → Entry → Transport → Transport
fail_entry o m i failure e t =
    if is_terminal e.state
    then t
    else if is_exhausted e m.now
    then settle_terminal_unknown o m i timeout (release_frame i t)
    else after_retry_wait o m
        (mark_retry_wait (m.disk failing) m.now i failure
          (m.now + retry_delay o (e.attempts + 1) m.jitter) t.outbox)
        (release_frame i t)

pub record_uncertain_failure : Options → Moment → String → RetryFailure → Transport → Transport
record_uncertain_failure o m i failure t = elim (get i t.outbox) [
  | none ↦ t
  | some e ↦ fail_entry o m i failure e t
]

-- The frame goes out, or its send fails.
pub transmit : Options → Moment → String → Outbox → Transport → Transport
transmit o m i b t =
    if route_ready m t && m.takes
    then record t {
      outbox = b;
      sent_on_gen = record { frame_id = i; generation = t.route.generation } ∷ [];
      wire = record { frame_id = i; generation = t.route.generation } ∷ t.wire;
    }
    else record_uncertain_failure o m i send_failed (record t {
      outbox = b;
      sent_on_gen = record { frame_id = i; generation = t.route.generation } ∷ [];
    })

pub send_found : Options → Moment → String → Entry → Transport → Transport
send_found o m i e t =
    if not (route_ready m t)
    then t
    else if ltb 0 (length t.sent_on_gen)
    then t
    else if is_exhausted e m.now
    then settle_terminal_unknown o m i timeout t
    else if (mark_in_flight (m.disk sending) m.now i t.outbox).1
    then transmit o m i (mark_in_flight (m.disk sending) m.now i t.outbox).0 t
    else if (mark_in_flight (m.disk sending) m.now i t.outbox).0.degraded
    then mark_degraded o (with_outbox (mark_in_flight (m.disk sending) m.now i t.outbox).0 t)
    else with_outbox (mark_in_flight (m.disk sending) m.now i t.outbox).0 t

pub send_entry : Options → Moment → String → Transport → Transport
send_entry o m i t = elim (get i t.outbox) [ none ↦ t | some e ↦ send_found o m i e t ]

abbrev pub refuse : Entry → Outcome → Transport → Transport
refuse e outcome t = record t {
  asked = e.id ∷ t.asked;
  replies = reply e.id e.request_id outcome ∷ t.replies;
}

abbrev pub admit : Entry → Outbox → Transport → Transport
admit e b t = record t {
  outbox = b;
  asked = e.id ∷ t.asked;
  pending = put (record { frame_id = e.id; request_id = e.request_id }) t.pending;
}

-- `e` is the entry that `append` makes of the request and of the ids that it gets.
pub request : Options → Moment → Entry → Transport → Transport
request o m e t =
    if t.is_closed
    then refuse e transport_closed t
    else if t.degraded || t.outbox.quarantined || t.outbox.degraded
    then refuse e unusable t
    else if not (route_ready m t)
    then refuse e not_ready t
    else if (append (m.disk appending) e t.outbox).1
    then send_entry o m e.id (admit e (append (m.disk appending) e t.outbox).0 t)
    else refuse e not_persisted (with_outbox (append (m.disk appending) e t.outbox).0 t)

-- The timer of an attempt fires.
pub attempt_expires : Options → Moment → String → Transport → Transport
attempt_expires o m i t = elim (get i t.outbox) [
  | none ↦ t
  | some e ↦ if is_in_flight e.state then record_uncertain_failure o m i timeout t else t
]

abbrev send_due : Options → Moment → Option Entry → Transport → Transport
send_due o m none t = t
send_due o m (some e) t = send_entry o m e.id t

-- The timer of the pump fires.
pub pump_fires : Options → Moment → Transport → Transport
pump_fires o m t = elim t.pump_timer [
  | none ↦ t
  | some (looks_again delay) ↦ schedule_pump o m (record t { pump_timer = none })
  | some sends_due ↦
      if t.is_closed || t.degraded || not (route_ready m t)
      then record t { pump_timer = none }
      else send_due o m (peek_due m.now t.outbox) (record t { pump_timer = none })
]

-- One turn of the loop of `handleRouteLost`, and whether the loop goes on. The loop is over the frames
-- that were sent when it starts, which are one at most.
pub lose_frame : Options → Moment → String → Entry → Transport → Transport × Bool
lose_frame o m i e t =
    if not (is_in_flight e.state)
    then (t, true)
    else if is_exhausted e m.now
    then (settle_terminal_unknown o m i socket_lost t, true)
    else (let (b, done) =
          mark_retry_wait (m.disk failing) m.now i socket_lost
            (m.now + retry_delay o (e.attempts + 1) m.jitter) t.outbox in
        if not done && b.degraded
        then (mark_degraded o (with_outbox b t), false)
        else (with_outbox b t, true))

abbrev pub lose_sent : Options → Moment → Sent → Transport → Transport × Bool
lose_sent o m s t = elim (get s.frame_id t.outbox) [
  | none ↦ (t, true)
  | some e ↦ lose_frame o m s.frame_id e t
]

pub lose_frames : Options → Moment → List Sent → Transport → Transport
lose_frames o m [] t = record t { sent_on_gen = [] }
lose_frames o m (s ∷ ss) t =
    let rest = lose_frames o m ss (lose_sent o m s t).0 in
    if (lose_sent o m s t).1 then rest else (lose_sent o m s t).0

pub handle_route_lost : Options → Moment → Transport → Transport
handle_route_lost o m t = lose_frames o m t.sent_on_gen t

-- What the controller publishes in a step: one callback at most.
abbrev news : Route → Route → Option Published
news r r' =
    if length r'.published == length r.published
    then none
    else (elim r'.published [ [] ↦ none | p ∷ ps ↦ some p ])

-- `onRouteLost` runs before `scheduleReconnect`, which does nothing when the callback has closed the route:
-- then the attempts are still those before the loss.
abbrev pub unless_closed : ℕ → Transport → Transport
unless_closed attempts t =
    if t.degraded then record t { route = record t.route { reconnect_attempts = attempts } } else t

abbrev hear : Options → Moment → ℕ → Option Published → Transport → Transport
hear o m attempts none t = t
hear o m attempts (some (on_ready g)) t = schedule_pump o m t
hear o m attempts (some (on_route_lost g)) t = unless_closed attempts (handle_route_lost o m t)

pub route_changes : Options → Moment → RouteEvent → Transport → Transport
route_changes o m e t =
    hear o m t.route.reconnect_attempts (news t.route (route_step o.route_options e t.route))
      (record t { route = route_step o.route_options e t.route })
