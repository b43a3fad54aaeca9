-- ===== src/Remote/Transport/Messages.antt =====
-- src/remote/signed-wss-transport.ts: `handleMessage`, and what src/remote/route-controller.ts hands to it.
use abmind.Prelude.{
  ℕ, String, Bool, false, ◌&&◌, ◌||◌, not, Option, none, some, ◌∷◌, str_eq, ◌==◌, if◌then◌else◌,
  is_none,
}
use abmind.Prelude.Table.{select}
use abmind.Remote.Outbox.{Entry, get, acknowledge}
use abmind.Remote.Transport.{
  Options, acknowledging, Moment, Pending, Sent, answered, Transport, waits_for, is_frame, take_out,
  release, reply_to, mark_degraded, schedule_pump,
}

-- The response in the body of a frame, and the frame: `is_response` tells whether its text is JSON with
-- that type and version, and `response` is none if its body is not JSON.
pub record Response : Type 0 where
  pub ok : Bool
  pub request_id : String
  pub body : String

pub record Incoming : Type 0 where
  pub id : String
  pub is_response : Bool
  pub response : Option Response

abbrev frame_level_error : Incoming → Response → Bool
frame_level_error f r = not r.ok && str_eq r.request_id f.id

-- The response is for the request: it names it, or it is an error that names the frame.
abbrev pub answers : Incoming → Response → String → Bool
answers f r request_id = frame_level_error f r || str_eq r.request_id request_id

unfoldable pub settle_caller :
    Options → Moment → Incoming → Response → Pending → Transport → Transport
settle_caller o m f r p t =
    if not (answers f r p.request_id)
    then t
    else if (acknowledge (m.disk acknowledging) f.id t.outbox).1
    then schedule_pump o m (record t {
      pending = take_out f.id t.pending;
      sent_on_gen = release f.id t.sent_on_gen;
      outbox = (acknowledge (m.disk acknowledging) f.id t.outbox).0;
      replies = reply_to (answered r.ok r.body) p ∷ t.replies;
    })
    else mark_degraded o (record t {
      pending = take_out f.id t.pending;
      sent_on_gen = release f.id t.sent_on_gen;
      outbox = (acknowledge (m.disk acknowledging) f.id t.outbox).0;
    })

-- A reply with no live caller.
unfoldable pub settle_replay :
    Options → Moment → Incoming → Response → Entry → Transport → Transport
settle_replay o m f r e t =
    if not (answers f r e.request_id)
    then t
    else if (acknowledge (m.disk acknowledging) f.id t.outbox).1
    then schedule_pump o m (record t {
      sent_on_gen = release f.id t.sent_on_gen;
      outbox = (acknowledge (m.disk acknowledging) f.id t.outbox).0;
    })
    else schedule_pump o m (
        mark_degraded o (record t {
          sent_on_gen = release f.id t.sent_on_gen;
          outbox = (acknowledge (m.disk acknowledging) f.id t.outbox).0;
        }))

unfoldable pub settle_response : Options → Moment → Incoming → Response → Transport → Transport
settle_response o m f r t = elim (select (waits_for f.id) t.pending) [
  | some p ↦ settle_caller o m f r p t
  | none ↦ elim (get f.id t.outbox) [ none ↦ t | some e ↦ settle_replay o m f r e t ]
]

abbrev pub sent_on : ℕ → Option Sent → Bool
sent_on g none = false
sent_on g (some s) = s.generation == g

unfoldable pub handle_message : Options → Moment → Incoming → ℕ → Transport → Transport
handle_message o m f g t =
    if not f.is_response || not (sent_on g (select (is_frame f.id) t.sent_on_gen))
    then t
    else (elim f.response [ none ↦ t | some r ↦ settle_response o m f r t ])

-- The socket hands a message on unless it is an old one or a control request is pending.
unfoldable pub message_arrives : Options → Moment → Incoming → ℕ → Transport → Transport
message_arrives o m f g t =
    if t.route.is_closed || not (g == t.route.generation) || not (is_none t.route.pending_control)
    then t
    else handle_message o m f g t
