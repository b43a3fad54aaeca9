-- ===== src/Sleep/Sending/Tests.antt =====
-- Runs of the supervision of src/sleep/supervision.ts and src/sleep/llm-budget.ts, and its theorems at
-- concrete inputs.
use abmind.Prelude.{ℕ, zero, suc, ◌+◌, ◌≤◌, ◌≡◌, refl, true, false, none, some}
use abmind.Sleep.Supervision.Deciding.{decide_recovery-Justified, Justified}
use abmind.Sleep.Supervision.{
  Facts, FailureInput, transient, classify, interpret, has, positive_ms, decide_recovery,
  decide_class, schedule, scheduled_wait, retry,
}
use abmind.Sleep.Sending.{
  Budget, Turn, rejected, blank, answered, text, send_to_runtime, allowance, attempts, attempt,
  answer_turn, recover, act, accept_blank, accept_text, proceed, consume,
}
use abmind.Sleep.Sending.Allowance.{is_final, send_to_runtime-ends}

abbrev overload : Facts
overload = record {
  failure_class = transient;
  retry_after_ms = some 90000;
  reached_model = none;
  effects = none;
  reason_code = none;
}

hinted : decide_recovery overload 1 4 1000 (some 400000) ≡ retry 90000 true
unfolding decide_recovery decide_class schedule scheduled_wait
hinted = refl

decide_recovery-Justified_example :
    Justified transient
      (some 90000)
      1
      4
      1000
      (some 400000)
      (decide_recovery overload 1 4 1000 (some 400000))
decide_recovery-Justified_example = decide_recovery-Justified overload 1 4 1000 (some 400000)

abbrev failed : FailureInput
failed = record { failure = none; admission_code = ""; text = "http 503 overload" }

-- A transport failure, an empty answer and then a text.
abbrev turns : ℕ → Turn
turns zero = record {
  aborted = false;
  started_at = 100;
  reply = rejected failed;
  decided_at = 200;
  waited = true;
  aborted_after = false;
}
turns (suc zero) = record {
  aborted = false;
  started_at = 21000;
  reply = blank;
  decided_at = 21000;
  waited = true;
  aborted_after = false;
}
turns n = record {
  aborted = false;
  started_at = 22000;
  reply = answered "done";
  decided_at = 22000;
  waited = true;
  aborted_after = false;
}

abbrev fresh_budget : Budget
fresh_budget = record { calls = 0; limit = 10; exhausted = false }

third_time :
    (send_to_runtime turns false true none 300000 0 none fresh_budget).outcome ≡ text "done"
unfolding send_to_runtime attempts attempt answer_turn recover act accept_blank accept_text proceed
    consume allowance classify interpret has positive_ms decide_recovery decide_class schedule
    scheduled_wait
third_time = refl

send_to_runtime-ends_example :
    (is_final (send_to_runtime turns false true none 300000 0 none fresh_budget).outcome ≡ true)
    × ((send_to_runtime turns false true none 300000 0 none fresh_budget).used ≤ allowance none)
    × (allowance none ≤ 4)
    × ((send_to_runtime turns false true none 300000 0 none fresh_budget).budget.calls
        ≤ fresh_budget.calls + allowance none)
send_to_runtime-ends_example = send_to_runtime-ends turns false true none 300000 0 none fresh_budget
