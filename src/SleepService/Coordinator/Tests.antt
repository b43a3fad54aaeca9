-- ===== src/SleepService/Coordinator/Tests.antt =====
-- A day of the coordinator of src/sleep-service/sleep-coordinator.ts, and its theorems at that day.
use abmind.Prelude.{ℕ, ◌≡◌, refl, String, none, some, List, [], ◌∷◌, true}
use abmind.SleepService.Events.{push, wake_waiters, wake_each, trim, empty_ring}
use abmind.SleepService.Coordinator.{
  Coordinator, ActiveRun, LastRun, ServiceResult, Validator, unregistered, new_coordinator,
  register_services, shutdown, start, begin, resume, push_event, finished, running, get_state,
}
use abmind.SleepService.Coordinator.Agreement.{Call, registers, starts, emits, run, run-Agrees}
use abmind.SleepService.Coordinator.Preservation.{Agrees, new_coordinator-Agrees}
use abmind.SleepService.Coordinator.Shutdown.{Over, shutdown-Over}
use abmind.SleepService.Coordinator.Resumption.{is_accepted, may_resume, resume-accepted}
use abmind.SleepService.Coordinator.LastRunFile.{loaded, restart-accepted}

abbrev new : Coordinator
new = new_coordinator true none

abbrev night : List (ℕ × Call)
night =
    (5, registers)
    ∷ (10, starts "run" "nightly")
    ∷ (20, emits "step_completed" none)
    ∷ (30, emits "step_failed" none)
    ∷ []

abbrev asleep : Coordinator
asleep = run night new

asleep-running : get_state asleep ≡ running
unfolding register_services start begin push_event get_state push wake_waiters wake_each trim
asleep-running = refl

abbrev sleeper : ActiveRun
sleeper = record { run_id = "run"; mode = "nightly"; started_at = 10 }

asleep-sleeper : asleep.active_run ≡ some sleeper
unfolding register_services start begin push_event push wake_waiters wake_each trim
asleep-sleeper = refl

asleep-path : asleep.has_path ≡ true
unfolding register_services start begin push_event push wake_waiters wake_each trim
asleep-path = refl

run-Agrees_example : Agrees asleep
run-Agrees_example = run-Agrees night new (new_coordinator-Agrees true none)

abbrev done : ServiceResult
done = record { status = "partial"; report = none; resumable = true }

shutdown-Over_example : Over (shutdown 40 true asleep)
shutdown-Over_example =
    shutdown-Over 40 true asleep (run-Agrees night new (new_coordinator-Agrees true none))

abbrev unvalidated : Validator
unvalidated = λ q. unregistered

resume-accepted_example :
    is_accepted (resume 60 "new" true unvalidated none (shutdown 40 true asleep)).1
    ≡ may_resume unvalidated none (shutdown 40 true asleep)
resume-accepted_example = resume-accepted 60 "new" true unvalidated none (shutdown 40 true asleep)

abbrev redacted : String → String
redacted s = s

abbrev settled : LastRun
settled = finished 40 sleeper done empty_ring

restart-accepted_example :
    is_accepted
      (resume 60 "new" true unvalidated none (
        register_services
          (new_coordinator true (loaded redacted (shutdown 40 true asleep).persisted)))).1
    ≡ true
restart-accepted_example =
    restart-accepted redacted 40 60 "new" true unvalidated none sleeper asleep asleep-sleeper
      asleep-path refl refl
