-- ===== src/SleepService/Coordinator/Agreement.antt =====
-- src/sleep-service/sleep-coordinator.ts: the coordinator with its broker and its event ring, over the
-- calls of the service host, of the sleep service, of the provider and of the readers.
use abmind.Prelude.{ℕ, refl, String, Bool, Option, List, [], ◌∷◌}
use abmind.SleepService.Broker.Delivery
use abmind.SleepService.Broker.Lease.{Settled-Sound, set_run_terminal-Settled, close_lease-Sound}
use abmind.SleepService.Broker.Steps.{step-Sound}
use abmind.SleepService.Events.{Reader, read_after, reader_times_out}
use abmind.SleepService.Events.Open.{read_after-terminal, reader_times_out-terminal}
use abmind.SleepService.Events.Ring
use abmind.SleepService.Events.Ring.{Latest, step-Latest, empty_ring-Latest}
use abmind.SleepService.Coordinator.{
  Coordinator, ServiceResult, Validator, register_services, push_event, start, service_settled,
  service_failed, resume, cancel, interrupt, shutdown,
}
use abmind.SleepService.Coordinator.Preservation.{
  Agrees, ring-Agrees, push_event-Agrees, start-Agrees, service_settled-Agrees,
  service_failed-Agrees, resume-Agrees, cancel-Agrees, interrupt-Agrees, interrupt-active,
}

pub data Call : Type 0 where
  registers : Call
  starts : String → String → Call
  resumes : String → Bool → Validator → Option String → Call
  cancels : String → Call
  emits : String → Option String → Call
  service_settles : Bool → String → ServiceResult → Call
  service_fails : Bool → String → Validator → Option String → Call
  reads : Reader → ℕ → Call
  reader_expires : Reader → Call
  provider : Delivery.Call → Call
  shuts_down : Bool → Call

abbrev pub step : ℕ → Call → Coordinator → Coordinator
step now registers c = register_services c
step now (starts id mode) c = (start now id mode c).0
step now (resumes id written validate run_id) c = (resume now id written validate run_id c).0
step now (cancels id) c = (cancel now id c).0
step now (emits kind detail) c = push_event now kind detail c
step now (service_settles written id result) c = service_settled now written id result c
step now (service_fails written id validate report) c =
    service_failed now written id validate report c
step now (reads w wait_ms) c = record c { event_ring = read_after w wait_ms c.event_ring }
step now (reader_expires w) c = record c { event_ring = reader_times_out w c.event_ring }
step now (provider call) c = record c { broker = Delivery.step now call c.broker }
step now (shuts_down written) c = shutdown now written c

abbrev pub run : List (ℕ × Call) → Coordinator → Coordinator
run [] c = c
run ((now, call) ∷ calls) c = run calls (step now call c)

pub shutdown-Agrees :
    (now : ℕ) (written : Bool) (c : Coordinator) → Agrees c → Agrees (shutdown now written c)
unfolding shutdown
shutdown-Agrees now written c a =
    let b = interrupt-Agrees now written c a in
    let c' = interrupt now written c in
    let s = Settled-Sound (set_run_terminal-Settled now c'.broker b.sound.calm.unclosed) in
    record {
      open_ring = rw (interrupt-active now written c) refl;
      has_signal = b.has_signal;
      raised = b.raised;
      sound = close_lease-Sound now "" _ s;
      latest = step-Latest Ring.ends _ b.latest;
    }

step-Agrees : (now : ℕ) (call : Call) (c : Coordinator) → Agrees c → Agrees (step now call c)
unfolding register_services
step-Agrees now registers c a = record {
  open_ring = a.open_ring;
  has_signal = a.has_signal;
  raised = a.raised;
  sound = a.sound;
  latest = a.latest;
}
step-Agrees now (starts id mode) c a = start-Agrees now id mode c a
step-Agrees now (resumes id written validate run_id) c a =
    resume-Agrees now id written validate run_id c a
step-Agrees now (cancels id) c a = cancel-Agrees now id c a
step-Agrees now (emits kind detail) c a = push_event-Agrees now kind detail c a
step-Agrees now (service_settles written id result) c a =
    service_settled-Agrees now written id result c a
step-Agrees now (service_fails written id validate report) c a =
    service_failed-Agrees now written id validate report c a
step-Agrees now (reads w wait_ms) c a =
    ring-Agrees c _ (read_after-terminal w wait_ms c.event_ring)
      (step-Latest (Ring.reads w wait_ms) c.event_ring a.latest) a
step-Agrees now (reader_expires w) c a =
    ring-Agrees c _ (reader_times_out-terminal w c.event_ring)
      (step-Latest (Ring.times_out w) c.event_ring a.latest) a
step-Agrees now (provider call) c a = record {
  open_ring = a.open_ring;
  has_signal = a.has_signal;
  raised = a.raised;
  sound = step-Sound now call c.broker a.sound;
  latest = a.latest;
}
step-Agrees now (shuts_down written) c a = shutdown-Agrees now written c a

-- Over any calls, at any times, the coordinator, its broker and its ring agree: the ring of an active
-- run is open, there is an abort signal just when there is an active run, a cancellation that is pending
-- has raised it, the broker is sound, and the ring holds the last events, numbered without a hole: 200 at
-- most, and one at least as soon as there was one.
pub run-Agrees : (calls : List (ℕ × Call)) (c : Coordinator) → Agrees c → Agrees (run calls c)
run-Agrees [] c a = a
run-Agrees ((now, call) ∷ calls) c a = run-Agrees calls (step now call c) (step-Agrees now call c a)
