-- ===== src/Questions/Rows.antt =====
-- src/dream-question-store.ts: the calls of the store, and what the statements of an operation keep
-- of a count of rows and of a property of the rows.
use abmind.Prelude.{
  ℕ, ◌≤◌, ◌≡◌, String, Bool, true, ◌&&◌, Option, List, [], ◌∷◌, arith, Bool-cases, inl, inr, str_eq,
  ◌==◌,
}
use abmind.Prelude.Table.{update, count, count-delete-le}
use abmind.Questions.{
  Question, Status, World, Candidate, is_active, reconcile_row, reconcile_user, reconcile_others,
  reconcile_all, insert_candidate, next_pending, list_questions, mark_asked, dismiss, asks, ask,
  dismisses, set_dismissed, owned, is_prunable, admit,
}

pub data Call : Type 0 where
  inserts : String → Candidate → Call
  nexts : String → Call
  lists : String → Option Status → Option ℕ → Call
  marks_asked : String → String → String → Call
  dismissals : String → String → Call
  reconciles : String → Call

-- A call at a time, with what the other tables hold then.
abbrev pub step : World → ℕ → Call → List Question → List Question
step w now (inserts id c) rows = (insert_candidate w now id c rows).0
step w now (nexts user) rows = (next_pending w now user rows).0
step w now (lists user status limit) rows = (list_questions w now user status limit rows).0
step w now (marks_asked user id key) rows = (mark_asked w now user id key rows).0
step w now (dismissals user id) rows = (dismiss w now user id rows).0
step w now (reconciles user) rows = reconcile_user w now user rows

abbrev pub run : List (World × ℕ × Call) → List Question → List Question
run [] rows = rows
run ((w, now, c) ∷ cs) rows = run cs (step w now c rows)

module _ (q : Question → Bool) where
  pub count-update-le :
      (p : Question → Bool) (f : Question → Question)
      → ((r : Question) → p r ≡ true → q (f r) ≡ true → q r ≡ true)
      → (rows : List Question) → count q (update p f rows) ≤ count q rows
  count-update-le p f h [] = omega arith
  count-update-le p f h (r ∷ rs) = ground (arith, count-update-le p f h rs, h r)

  -- A test that no statement turns from false to true.
  pub record Fading : Type 0 where
    pub reconciled :
        (w : World) (now : ℕ) (r : Question)
        → is_active r.status ≡ true
        → q (reconcile_row w now r) ≡ true
        → q r ≡ true
    pub on_ask :
        (now : ℕ) (key user id : String) (r : Question)
        → asks user id r ≡ true
        → q (ask now key r) ≡ true
        → q r ≡ true
    pub on_dismiss :
        (now : ℕ) (user id : String) (r : Question)
        → dismisses user id r ≡ true
        → q (set_dismissed now r) ≡ true
        → q r ≡ true

module _ (q : Question → Bool) (fading : Fading q) where
  pub count-reconcile_user :
      (w : World) (now : ℕ) (user : String) (rows : List Question)
      → count q (reconcile_user w now user rows) ≤ count q rows
  unfolding reconcile_user
  count-reconcile_user w now user rows = omega (
    arith,
    count-delete-le q (λ r. owned user r && is_prunable now r)
        (update (λ r. owned user r && is_active r.status) (reconcile_row w now) rows),
    count-update-le q (λ r. owned user r && is_active r.status) (reconcile_row w now)
        (λ r h k. fading.reconciled w now r (ground arith) k) rows,
  )

  count-reconcile_others :
      (w : World) (now : ℕ) (user : String) (os : List String) (rows : List Question)
      → count q (reconcile_others w now user os rows) ≤ count q rows
  unfolding reconcile_others
  count-reconcile_others w now user [] rows = omega arith
  count-reconcile_others w now user (o ∷ os) rows = elim (Bool-cases (str_eq o user)) [
    | inl e ↦ rw e (count-reconcile_others w now user os rows)
    | inr e ↦ rw e (
        omega (
          arith,
          count-reconcile_others w now user os (reconcile_user w now o rows),
          count-reconcile_user w now o rows,
        ))
  ]

  pub count-reconcile_all :
      (w : World) (now : ℕ) (user : String) (rows : List Question)
      → count q (reconcile_all w now user rows) ≤ count q rows
  unfolding reconcile_all
  count-reconcile_all w now user rows = omega (
    arith,
    count-reconcile_others w now user _ (reconcile_user w now user rows),
    count-reconcile_user w now user rows,
  )

  count-mark_asked :
      (w : World) (now : ℕ) (user id key : String) (rows : List Question)
      → count q (mark_asked w now user id key rows).0 ≤ count q rows
  unfolding mark_asked
  count-mark_asked w now user id key rows =
      let le =
        count-update-le q (asks user id) (ask now key)
          (λ r h k. fading.on_ask now key user id r h k) (reconcile_user w now user rows) in
      elim (Bool-cases (count (asks user id) (reconcile_user w now user rows) == 1)) [
        | inl e ↦ rw e (omega (arith, le, count-reconcile_user w now user rows))
        | inr e ↦ rw e (omega (arith, le, count-reconcile_user w now user rows))
      ]

  count-dismiss :
      (w : World) (now : ℕ) (user id : String) (rows : List Question)
      → count q (dismiss w now user id rows).0 ≤ count q rows
  unfolding dismiss
  count-dismiss w now user id rows =
      let le =
        count-update-le q (dismisses user id) (set_dismissed now)
          (λ r h k. fading.on_dismiss now user id r h k) (reconcile_user w now user rows) in
      elim (Bool-cases (count (dismisses user id) (reconcile_user w now user rows) == 1)) [
        | inl e ↦ rw e (omega (arith, le, count-reconcile_user w now user rows))
        | inr e ↦ rw e (omega (arith, le, count-reconcile_user w now user rows))
      ]

  -- What a bound on the count needs of an insertion to be kept by every call.
  pub step-bound :
      (n : ℕ)
      → ((now : ℕ) (id : String) (c : Candidate) (rows : List Question)
          → count q rows ≤ n
          → count q (admit now id c rows).0 ≤ n)
      → (w : World) (now : ℕ) (c : Call) (rows : List Question) → count q rows ≤ n
      → count q (step w now c rows) ≤ n
  unfolding insert_candidate next_pending list_questions
  step-bound n grow w now (inserts id c) rows h =
      grow now id c (reconcile_all w now c.user_id rows)
        (omega (arith, count-reconcile_all w now c.user_id rows))
  step-bound n grow w now (nexts user) rows h = omega (arith, count-reconcile_user w now user rows)
  step-bound n grow w now (lists user s l) rows h =
      omega (arith, count-reconcile_user w now user rows)
  step-bound n grow w now (marks_asked user id key) rows h =
      omega (arith, count-mark_asked w now user id key rows)
  step-bound n grow w now (dismissals user id) rows h =
      omega (arith, count-dismiss w now user id rows)
  step-bound n grow w now (reconciles user) rows h =
      omega (arith, count-reconcile_user w now user rows)

  pub run-bound :
      (n : ℕ)
      → ((now : ℕ) (id : String) (c : Candidate) (rows : List Question)
          → count q rows ≤ n
          → count q (admit now id c rows).0 ≤ n)
      → (cs : List (World × ℕ × Call)) (rows : List Question) → count q rows ≤ n
      → count q (run cs rows) ≤ n
  run-bound n grow [] rows h = h
  run-bound n grow ((w, now, c) ∷ cs) rows h =
      run-bound n grow cs (step w now c rows) (step-bound n grow w now c rows h)
