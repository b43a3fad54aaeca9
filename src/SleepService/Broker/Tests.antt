-- ===== src/SleepService/Broker/Tests.antt =====
-- Runs of the broker of src/sleep-service/runtime-broker.ts, and its theorems at a concrete run.
use abmind.Prelude.{ℕ, ◌≤◌, ◌≡◌, refl, true, false, none, some, List, [], ◌∷◌}
use abmind.SleepService.Runtime.{
  Broker, initial, completion_deadline, wake_next, wake_all, wake_one, deliver, refresh_lease,
  heartbeat, has_provider,
}
use abmind.SleepService.Broker.{
  open_lease, next, queue_completion, wait_for_completion, complete, reply, settle, detach,
  settle_if_pending, expire_any, set_run_terminal, end_pending, expire_lease, settle_lost,
}
use abmind.SleepService.Broker.Kept.{deliveries, settlements}
use abmind.SleepService.Broker.Delivery.{
  Call, opens, nexts, queues, waits, completes, gives_up, run_ends, step, run, admissions,
  deliveries-le, settlements-le,
}
use abmind.SleepService.Broker.Lease.{Sound}
use abmind.SleepService.Broker.Steps.{step-Sound, initial-Sound}

-- A provider waits, a completion is queued for it, is answered, and its deadline passes.
abbrev traffic : List (ℕ × Call)
traffic =
    (0, opens "l" "p" true)
    ∷ (10, nexts "l" 1000 7)
    ∷ (20, queues "c" "r" "s" "prompt" none true)
    ∷ (20, waits "c" false)
    ∷ (500, completes "l" "c" "text")
    ∷ (600, gives_up "c" completion_deadline)
    ∷ (700, nexts "l" 1000 8)
    ∷ (800, run_ends)
    ∷ []

traffic-deliveries : deliveries "c" (run traffic initial).log ≡ 1
unfolding open_lease expire_any refresh_lease next queue_completion has_provider wake_next wake_all
    wake_one deliver wait_for_completion complete reply settle detach settle_if_pending
    set_run_terminal end_pending expire_lease settle_lost heartbeat
traffic-deliveries = refl

traffic-settlements : settlements "c" (run traffic initial).log ≡ 1
unfolding open_lease expire_any refresh_lease next queue_completion has_provider wake_next wake_all
    wake_one deliver wait_for_completion complete reply settle detach settle_if_pending
    set_run_terminal end_pending expire_lease settle_lost heartbeat
traffic-settlements = refl

deliveries-le_example : deliveries "c" (run traffic initial).log ≤ admissions "c" traffic initial
deliveries-le_example = deliveries-le "c" traffic

settlements-le_example : settlements "c" (run traffic initial).log ≤ admissions "c" traffic initial
settlements-le_example = settlements-le "c" traffic

step-Sound_example : Sound (step 5 (opens "l" "p" true) initial)
step-Sound_example = step-Sound 5 (opens "l" "p" true) initial initial-Sound

abbrev open_broker : Broker
open_broker = record initial {
  lease_id = some "l";
  lease_expires_at = 120000;
  lease_timer = some 120000;
}
