-- ===== src/Questions/Tests.antt =====
-- Runs of the store of src/dream-question-store.ts, and its theorems at a concrete table.
use abmind.Prelude.{ℕ, ◌≤◌, ◌≡◌, refl, false, none, some, List, [], ◌∷◌, arith}
use abmind.Prelude.Table.{count}
use abmind.Questions.{
  Question, Evidence, World, Candidate, global_cap, new_question, insert_candidate, admit,
  reconcile_all, reconcile_user, reconcile_row, reconcile_others, active_owners, distinct,
  recent_time, evidence_invalid, next_pending, ordered, insert_sorted, mark_asked, conflict,
  active_pair,
}
use abmind.Questions.Rows.{Call, inserts, marks_asked, dismissals, step, run}
use abmind.Questions.Capacity.{active, active_of, run-cap, run-pair}

abbrev evidence : Evidence
evidence = record {
  user_id = "u";
  valid_to = none;
  superseded_by_id = none;
  classification = 1;
  encrypted = 0;
  sealed_format_version = 0;
  revision = 4;
}

abbrev world : World
world = record { memories = λ i. some evidence; forgotten = λ u i. false; today = "2026-01-02" }

abbrev candidate : Candidate
candidate = record {
  user_id = "u";
  memory_a_id = 1;
  memory_b_id = 2;
  memory_a_revision = 4;
  memory_b_revision = 4;
  question = "which?";
  source_run_id = "r";
}

abbrev stored : Question
stored = new_question 10 "q" candidate

abbrev foreign : Question
foreign = record stored { id = "f"; user_id = "v" }

abbrev traffic : List (World × ℕ × Call)
traffic =
    (world, 10, inserts "q" candidate)
    ∷ (world, 20, inserts "p" candidate)
    ∷ (world, 30, marks_asked "u" "q" "key")
    ∷ (world, 40, dismissals "u" "q")
    ∷ []

asked_then_conflict :
    (mark_asked world 30 "u" "q" "other"
      (step world 20 (marks_asked "u" "q" "key") (stored ∷ []))).1
    ≡ conflict
unfolding mark_asked reconcile_user reconcile_row evidence_invalid
asked_then_conflict = refl

taken_pair : (insert_candidate world 20 "p" candidate (stored ∷ [])).1 ≡ active_pair
unfolding insert_candidate admit reconcile_all reconcile_others active_owners distinct
    reconcile_user reconcile_row evidence_invalid recent_time
taken_pair = refl

run-cap_example : count active (run traffic []) ≤ global_cap
run-cap_example = run-cap traffic [] (omega arith)

run-pair_example : count (active_of candidate) (run traffic []) ≤ 1
run-pair_example = run-pair candidate traffic [] (omega arith)

served : (next_pending world 30 "u" (foreign ∷ stored ∷ [])).1 ≡ some stored
unfolding next_pending ordered insert_sorted reconcile_user reconcile_row evidence_invalid
served = refl
