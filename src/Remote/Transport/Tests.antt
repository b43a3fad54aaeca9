-- ===== src/Remote/Transport/Tests.antt =====
-- Runs of src/remote/signed-wss-transport.ts, and its theorems at a concrete one.
use abmind.Prelude.{
  ℕ, ◌+◌, ◌≡◌, refl, true, false, none, some, List, [], ◌∷◌, map, arith, length, Bool, String,
}
use abmind.Remote.Outbox.{
  Entry, Disk, fresh, get, mark_in_flight, mark_retry_wait, peek_due, eligible, counts, append,
  acknowledge, commit, modify, remove, is_exhausted, peek_from, checkpoint, counts_from, tally,
}
use abmind.Remote.Route.{Route, new_route, ready, is_ready}
use abmind.Remote.Transport.{
  Options, Moment, Transport, new_transport, request, send_entry, send_found, transmit,
  schedule_pump, take_out, release, put, record_uncertain_failure, fail_entry, retry_delay,
  attempt_expires, pump_fires, pump_for, mark_degraded, close,
}
use abmind.Remote.Transport.Messages.{
  Incoming, handle_message, message_arrives, settle_response, settle_caller,
}
use abmind.Remote.Transport.Runs.{Event, asks, receives, attempt_timeout, pump_timeout, run}
use abmind.Remote.Transport.Serving.{made, answers_given, waiting, run-answered, HoldsRun}

abbrev options : Options
options = record {
  request_timeout_ms = 120000;
  retry_base_ms = 1000;
  retry_max_ms = 60000;
  route_options = record { base_ms = 1000; max_ms = 60000; max_attempts = 10 };
}

abbrev working : Disk
working = record { size = λ es. 0; entry_size = λ e. 100; write_ok = true }

abbrev full : Disk
full = record working { write_ok = false }

abbrev at : ℕ → Moment
at now = record { disk = λ w. working; now = now; jitter = 0; opened = true; takes = true }

abbrev ready_route : Route
ready_route = record new_route {
  state = ready;
  generation = 1;
  negotiated_generation = some 1;
  capabilities = some "v1";
  socket = some 1;
}

abbrev start : Transport
start =
    new_transport
      (record {
        entries = [];
        degraded = false;
        quarantined = false;
        retry_deadline_ms = 900000;
        disk = [];
      })
      ready_route

abbrev first : Entry
first = fresh 1000 900000 "f-1" "private.recall" "r-1" none "{}" 1

abbrev response : Incoming
response = record {
  id = "f-1";
  is_response = true;
  response = some (record { ok = true; request_id = "r-1"; body = "{}" });
}

abbrev exchange : List Event
exchange = asks (at 1000) first ∷ receives (at 1500) response 1 ∷ []

exchange_answered : map (λ r. r.request_id) (run options exchange start).replies ≡ "r-1" ∷ []
unfolding request send_entry send_found transmit message_arrives handle_message settle_response
    settle_caller schedule_pump take_out release put append commit checkpoint get mark_in_flight
    modify acknowledge remove is_exhausted is_ready peek_due peek_from counts counts_from pump_for
exchange_answered = refl

-- A response whose acknowledgement cannot be written: its caller is not answered, and no longer waits.
unacknowledged :
    (length
        (run options
          (asks (at 1000) first ∷ receives (record (at 1500) { disk = λ w. full }) response 1 ∷ [])
          start).replies
      + length
          (run options
            (asks (at 1000) first
              ∷ receives (record (at 1500) { disk = λ w. full }) response 1
              ∷ [])
            start).pending)
    ≡ 0
unfolding request send_entry send_found transmit message_arrives handle_message settle_response
    settle_caller schedule_pump take_out release put append commit checkpoint get mark_in_flight
    modify acknowledge remove is_exhausted is_ready peek_due peek_from counts counts_from pump_for
    mark_degraded
unacknowledged = refl

-- A request that waits for its retry when its deadline passes: its caller waits, and no timer is armed.
abbrev late : List Event
late =
    asks (at 1000) first
    ∷ attempt_timeout (at 900500) "f-1"
    ∷ pump_timeout (at 901500)
    ∷ pump_timeout (at 901501)
    ∷ []

late_waits :
    ((run options late start).pump_timer ≡ none)
    × (map (λ p. p.frame_id) (run options late start).pending ≡ "f-1" ∷ [])
unfolding request send_entry send_found transmit schedule_pump take_out release put append commit
    checkpoint get mark_in_flight modify is_exhausted is_ready peek_due peek_from counts counts_from
    tally pump_for attempt_expires pump_fires record_uncertain_failure fail_entry mark_retry_wait
    retry_delay eligible
late_waits = (refl, refl)

exchange_holds : HoldsRun options exchange start
unfolding get
exchange_holds = (
  record { not_pending = refl; not_held = refl; not_sent = refl },
  (record { small = λ es. omega arith; ok = refl }, tt),
)

abbrev any : String → Bool
any i = true

run-answered_example :
    (made any (run options exchange start)
      ≡ answers_given any (run options exchange start) + waiting any (run options exchange start))
    × (made any (close options (run options exchange start))
        ≡ answers_given any (close options (run options exchange start)))
run-answered_example = run-answered options exchange start any exchange_holds refl

-- An earlier process has left a request behind.
abbrev waiting_start : Transport
waiting_start = record start { outbox = record start.outbox { entries = first ∷ [] } }
