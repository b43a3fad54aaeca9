-- ===== src/Remote/Route.antt =====
-- src/remote/route-controller.ts: `RouteController`. A socket is named by the generation that
-- `establish` makes it for; `settled` and `connected` are the variables of that call, and a generation
-- without a socket counts as settled. `established` is left out, since it is set only where `connected`
-- is. The continuation of a promise runs with the event that settles it. Frames and signatures are those
-- of the transport; what a message says is a `Message`. `connectDelay`, a hook of tests, is left out, and so
-- is `onMessage`, which changes nothing here.
mod Phase
mod Attempts
mod Loss
pub mod Bound
pub mod Stale
mod Tests
use abmind.Prelude.{
  ℕ, zero, suc, ◌+◌, ◌-◌, ◌*◌, ◌^◌, min, String, Bool, true, false, ◌&&◌, ◌||◌, not, Option, none,
  some, List, [], ◌∷◌, str_eq, ltb, leb, ◌==◌, if◌then◌else◌, is_none,
}

pub data RouteState : Type 0 where
  disconnected connecting authenticating negotiating ready reconnecting unavailable closed :
      RouteState

pub data Reason : Type 0 where
  transport_closed pin_mismatch negotiation_failed authentication_failed connection_failed
        retry_exhausted :
      Reason

-- Pending control: whose it is, and the ids of its frame and its request.
pub record Control : Type 0 where
  pub generation : ℕ
  pub id : String
  pub request_id : String

pub data Published : Type 0 where
  on_ready on_route_lost : ℕ → Published

pub record Options : Type 0 where
  pub base_ms : ℕ
  pub max_ms : ℕ
  pub max_attempts : ℕ

pub record Route : Type 0 where
  pub state : RouteState
  pub generation : ℕ
  pub negotiated_generation : Option ℕ
  pub reason_code : Option Reason
  pub capabilities : Option String
  pub socket : Option ℕ
  pub connecting_socket : Option ℕ
  pub active_establishment : Option ℕ
  pub pending_control : Option Control
  pub reconnect_attempts : ℕ
  pub reconnect_timer : Option ℕ
  pub is_closed : Bool
  pub settled : ℕ → Bool
  pub connected : ℕ → Bool
  pub published : List Published

abbrev pub new_route : Route
new_route = record {
  state = disconnected;
  generation = 0;
  negotiated_generation = none;
  reason_code = none;
  capabilities = none;
  socket = none;
  connecting_socket = none;
  active_establishment = none;
  pending_control = none;
  reconnect_attempts = 0;
  reconnect_timer = none;
  is_closed = false;
  settled = λ g. true;
  connected = λ g. false;
  published = [];
}

abbrev pub is_at : ℕ → Option ℕ → Bool
is_at g none = false
is_at g (some h) = h == g

abbrev pub set : ℕ → Bool → (ℕ → Bool) → ℕ → Bool
set g b f h = if h == g then b else f h

abbrev pub is_ready_state : RouteState → Bool
is_ready_state ready = true
is_ready_state s = false

abbrev is_unavailable : RouteState → Bool
is_unavailable unavailable = true
is_unavailable s = false

-- `isReady`, where `opened` says whether the socket is open.
unfoldable pub is_ready : Bool → Route → Bool
is_ready opened r =
    is_ready_state r.state
    && is_at r.generation r.negotiated_generation
    && not (is_none r.capabilities)
    && not (is_none r.socket)
    && opened

pub backoff_delay : Options → ℕ → ℕ
backoff_delay o attempt = min (o.base_ms * 2 ^ (attempt - 1)) o.max_ms

pub schedule_reconnect : Options → Route → Route
schedule_reconnect o r =
    if r.is_closed || not (is_none r.reconnect_timer)
    then r
    else if leb o.max_attempts r.reconnect_attempts
    then record r { state = unavailable; reason_code = some retry_exhausted }
    else record r {
      reconnect_attempts = r.reconnect_attempts + 1;
      reconnect_timer = some (backoff_delay o (r.reconnect_attempts + 1));
    }

abbrev clear_at : ℕ → Option ℕ → Option ℕ
clear_at g o = if is_at g o then none else o

pub detach_socket : ℕ → Route → Route
detach_socket g r = record r {
  socket = clear_at g r.socket;
  connecting_socket = clear_at g r.connecting_socket;
  pending_control = (if g == r.generation then none else r.pending_control);
}

-- What `fail` does with an attempt that has not settled, up to its own state.
pub settle_attempt : ℕ → Route → Route
settle_attempt g r = detach_socket g (record r {
  settled = set g true r.settled;
  active_establishment = clear_at g r.active_establishment;
})

pub fail : Options → ℕ → Reason → Bool → Route → Route
fail o g reason transient r =
    if r.settled g
    then r
    else if r.is_closed || not (g == r.generation)
    then settle_attempt g r
    else if transient
    then schedule_reconnect o
        (record (settle_attempt g r) { state = reconnecting; reason_code = some reason })
    else record (settle_attempt g r) {
      state = unavailable;
      reason_code = some reason;
      capabilities = none;
      negotiated_generation = none;
    }

pub establish : Route → Route
establish r = record r {
  generation = r.generation + 1;
  state = connecting;
  reason_code = none;
  settled = set (r.generation + 1) false r.settled;
  connected = set (r.generation + 1) false r.connected;
  connecting_socket = some (r.generation + 1);
  active_establishment = some (r.generation + 1);
}

-- The attempt that `negotiate` and the timer coalesce on: the promise of the current one is open.
abbrev pub is_establishing : Route → Bool
is_establishing r = not (r.settled r.generation)

-- `rearmed` is what `negotiate` does first: no timer, and no verdict of an earlier attempt.
abbrev rearmed : Route → Route
rearmed r =
    if is_unavailable r.state
    then record r { reconnect_timer = none; reason_code = none; state = disconnected }
    else record r { reconnect_timer = none }

pub negotiate : Route → Route
negotiate r =
    if r.is_closed
    then r
    else if is_ready_state r.state
        && not (is_none r.capabilities)
        && is_at r.generation r.negotiated_generation
    then r
    else if is_establishing r
    then r
    else establish (rearmed r)

-- The timer of a reconnection.
pub reconnect : Route → Route
reconnect r =
    if is_none r.reconnect_timer
    then r
    else if r.is_closed
    then record r { reconnect_timer = none }
    else establish (record r { reconnect_timer = none })

abbrev is_stale : ℕ → Route → Bool
is_stale g r = r.is_closed || not (g == r.generation)

-- The socket is open; `pinned` is what `verifyServerPin` says of it.
pub opens : Options → ℕ → Bool → Route → Route
opens o g pinned r =
    if r.settled g || is_stale g r
    then r
    else if not pinned
    then fail o g pin_mismatch false r
    else record r {
      socket = some g;
      connecting_socket = clear_at g r.connecting_socket;
      connected = set g true r.connected;
      state = authenticating;
    }

abbrev is_authenticating : RouteState → Bool
is_authenticating authenticating = true
is_authenticating s = false

-- `hello_ack`, and the start of the negotiation with the ids that the frame gets.
pub authenticated : Options → ℕ → String → String → Route → Route
authenticated o g id request_id r =
    if r.settled g || is_stale g r || not (is_at g r.socket) || not (is_authenticating r.state)
    then r
    else record r {
      state = negotiating;
      pending_control = some (record { generation = g; id = id; request_id = request_id });
    }

-- The timeout of the handshake, a hello that cannot be signed or sent, or a frame that cannot.
pub authentication_fails : Options → ℕ → Route → Route
authentication_fails o g r = fail o g authentication_failed false r

pub negotiation_fails : Options → ℕ → Route → Route
negotiation_fails o g r = fail o g negotiation_failed false (record r { pending_control = none })

-- The capabilities are bound to the generation.
pub negotiated : ℕ → String → Route → Route
negotiated g caps r = if r.settled g || is_stale g r then r else record r {
  settled = set g true r.settled;
  active_establishment = clear_at g r.active_establishment;
  capabilities = some caps;
  negotiated_generation = some g;
  reconnect_attempts = 0;
  state = ready;
  reason_code = none;
  published = on_ready g ∷ r.published;
}

-- A response frame, with what its body holds: the request it answers, and the capabilities if it is ok and
-- they are well formed.
pub record Message : Type 0 where
  pub id : String
  pub answers : Option String
  pub result : Option String

abbrev is_answer : Control → Message → Bool
is_answer ctl m = elim m.answers [ none ↦ false | some q ↦ str_eq q ctl.request_id ]

pub take_control : Options → Message → Control → Route → Route
take_control o m ctl r =
    if not (str_eq m.id ctl.id)
    then r
    else if not (is_answer ctl m)
    then fail o ctl.generation negotiation_failed false (record r { pending_control = none })
    else (elim m.result [
      | none ↦ fail o ctl.generation negotiation_failed false (record r { pending_control = none })
      | some caps ↦ negotiated ctl.generation caps (record r { pending_control = none })
    ])

pub receives : Options → ℕ → Message → Route → Route
receives o g m r =
    if is_stale g r
    then r
    else (elim r.pending_control [ none ↦ r | some ctl ↦ take_control o m ctl r ])

-- The attempt that was active, if it is the one of the generation, fails.
abbrev fail_active : Options → ℕ → Option ℕ → Route → Route
fail_active o g active r = if is_at g active then fail o g transport_closed true r else r

-- The route without its generation, and the news of it.
abbrev cleared : Option ℕ → Route → Route
cleared active r = record r {
  active_establishment = active;
  capabilities = none;
  negotiated_generation = none;
  pending_control = none;
  generation = r.generation + 1;
}

abbrev lost : ℕ → Route → Route
lost g r = record r {
  state = reconnecting;
  reason_code = some transport_closed;
  socket = none;
  published = on_route_lost g ∷ r.published;
}

pub lose_route : Options → ℕ → Route → Route
lose_route o g r =
    if is_stale g r
    then r
    else schedule_reconnect o (
        lost g
          (fail_active o g r.active_establishment (cleared (clear_at g r.active_establishment) r)))

abbrev settle_only : ℕ → Route → Route
settle_only g r = record r { settled = set g true r.settled }

-- The socket is closed.
pub socket_closes : Options → ℕ → Route → Route
socket_closes o g r =
    if r.is_closed
    then settle_only g r
    else if not (g == r.generation)
    then r
    else if r.connected g
    then lose_route o g r
    else if r.settled g
    then r
    else settle_only g (
        schedule_reconnect o
          (record r { state = reconnecting; reason_code = some connection_failed }))

pub socket_fails : Options → ℕ → Route → Route
socket_fails o g r =
    if r.is_closed
    then settle_only g r
    else if not (g == r.generation) || r.connected g
    then r
    else fail o g connection_failed true r

abbrev shut : Route → Route
shut r = record (cleared (clear_at r.generation r.active_establishment) r) {
  is_closed = true;
  state = closed;
  reason_code = some transport_closed;
  reconnect_timer = none;
}

abbrev without_sockets : Route → Route
without_sockets r = record r { connecting_socket = none; socket = none }

unfoldable pub close : Options → Route → Route
close o r = without_sockets (fail_active o r.generation r.active_establishment (shut r))
