-- ===== src/Ledger/Tests.antt =====
-- Runs of the ledger of src/abmind-request-ledger.ts, and its theorems at concrete tables.
use abmind.Prelude.{◌+◌, ◌≤◌, ◌≡◌, refl, false, some, List, [], ◌∷◌, arith}
use abmind.Ledger.{
  Row, in_flight, outcome_unknown, fresh_row, reserve, complete, unknown, was_completed,
  mark_started,
}
use abmind.Ledger.Phase.{IsKeyed}
use abmind.Ledger.History.{
  Call, reserves, marks_started, cleans, recovers, run, run-reserve_unknown,
}
use abmind.Ledger.Dispatch.{dispatches, cleanups, dispatches-le, complete-replay}

abbrev row : Row
row = fresh_row 5 "p" "k" "memory.store" "h"

abbrev lost_row : Row
lost_row = record row { state = outcome_unknown; updated_at = 6 }

abbrev sent_row : Row
sent_row = record row { state = in_flight; updated_at = 6 }

row-IsKeyed : IsKeyed (row ∷ [])
row-IsKeyed p k = ground arith

lost_row-IsKeyed : IsKeyed (lost_row ∷ [])
lost_row-IsKeyed p k = ground arith

sent_row-IsKeyed : IsKeyed (sent_row ∷ [])
sent_row-IsKeyed p k = ground arith

abbrev traffic : List Call
traffic =
    reserves false 1 "p" "k" "m" "h"
    ∷ marks_started false 2 "p" "k"
    ∷ marks_started false 3 "p" "k"
    ∷ []

traffic-dispatches : dispatches "p" "k" traffic [] ≡ 1
unfolding reserve mark_started
traffic-dispatches = refl

run-reserve_unknown_example :
    (reserve false 9 "p" "k" "memory.store" "h" (run (cleans 8 ∷ []) (lost_row ∷ []))).1 ≡ unknown
run-reserve_unknown_example =
    run-reserve_unknown (cleans 8 ∷ []) (lost_row ∷ []) "p" "k" "memory.store" "h" lost_row false 9
      lost_row-IsKeyed refl refl

dispatches-le_example : dispatches "p" "k" traffic [] ≤ 1 + cleanups traffic
dispatches-le_example = dispatches-le "p" "k" traffic [] (λ p k. omega arith)

complete-replay_example :
    (reserve false 9 "p" "k" "memory.store" "h"
      (run (recovers 8 ∷ []) (complete false 7 "p" "k" "{}" (sent_row ∷ [])).0)).1
    ≡ was_completed (some "{}")
unfolding complete
complete-replay_example =
    complete-replay false 7 "p" "k" "{}" (sent_row ∷ []) sent_row (recovers 8 ∷ []) false 9
      sent_row-IsKeyed refl refl (refl, tt)
