-- ===== src/SleepService/Events/Tests.antt =====
-- Runs of the ring of src/sleep-service/sleep-events.ts, and its theorem at a concrete run.
use abmind.Prelude.{◌≡◌, refl, false, none, List, [], ◌∷◌}
use abmind.SleepService.Events.{
  Reader, Reading, empty_ring, push, trim, wake_waiters, wake_each, read_after,
}
use abmind.SleepService.Events.Ring.{Call, pushes, reads, run}
use abmind.SleepService.Events.Gaps.{Complete, read_after-Complete}

abbrev reader : Reader
reader = record { ticket = 4; after_seq = 1; limit = 2 }

-- The reader waits and is woken, and asks again when three more events are there.
abbrev traffic : List Call
traffic =
    pushes 10 "started" none
    ∷ reads reader 50
    ∷ pushes 20 "step" none
    ∷ pushes 30 "step" none
    ∷ pushes 40 "step" none
    ∷ []

abbrev reading : Reading
reading = record {
  events =
      record { seq = 2; at = 20; kind = "step"; detail = none }
      ∷ record { seq = 3; at = 30; kind = "step"; detail = none }
      ∷ [];
  next_seq = 5;
  gap = false;
  terminal = false;
}

answered_now :
    (read_after reader 50 (run traffic empty_ring)).log
    ≡ (reader.ticket, reading) ∷ (run traffic empty_ring).log
unfolding push trim wake_waiters wake_each read_after
answered_now = refl

read_after-Complete_example : Complete reader reading
read_after-Complete_example = read_after-Complete reader 50 traffic reading answered_now refl
