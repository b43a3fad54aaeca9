-- ===== src/Questions/Capacity.antt =====
-- src/dream-question-store.ts: how many questions are active at a time.
use abmind.Prelude.{
  ℕ, ◌+◌, ◌≤◌, ◌≡◌, refl, String, Bool, true, false, ◌&&◌, ◌||◌, Option, none, some, List, [], ◌∷◌,
  ◌++◌, arith, Bool-cases, inl, inr, not, leb, ltb, str_eq, is_none, eq_iff,
}
use abmind.Prelude.Table.{count, select, count-append, count-none}
use abmind.Questions.{
  Question, World, Candidate, is_active, reconcile_row, global_cap, admit, same_pair, new_question,
  recent_time, week_ms, is_stale,
}
use abmind.Questions.Rows.{Call, run, Fading, run-bound}

abbrev pub active : Question → Bool
active r = is_active r.status

abbrev pub active_of : Candidate → Question → Bool
active_of c r = same_pair c r && is_active r.status

active-Fading : Fading active
active-Fading = record {
  reconciled = λ w now r h k. h;
  on_ask = λ now key user id r h k. ground arith;
  on_dismiss = λ now user id r h k. ground arith;
}

reconcile_row-pair :
    (c : Candidate) (w : World) (now : ℕ) (r : Question)
    → same_pair c (reconcile_row w now r) ≡ same_pair c r
unfolding reconcile_row
reconcile_row-pair c w now r = elim (Bool-cases (is_stale w r)) [
  | inl e ↦
      elim (Bool-cases
        (w.forgotten r.user_id r.memory_a_id || w.forgotten r.user_id r.memory_b_id)) [
          | inl f ↦ rw (e, f) refl
          | inr f ↦ rw (e, f) refl
        ]
  | inr e ↦ elim (Bool-cases (leb r.expires_at now)) [
    | inl f ↦ rw (e, f) refl
    | inr f ↦ rw (e, f) refl
  ]
]

active_of-Fading : (c : Candidate) → Fading (active_of c)
active_of-Fading c = record {
  reconciled = λ w now r h k. ground (arith, reconcile_row-pair c w now r);
  on_ask = λ now key user id r h k. ground arith;
  on_dismiss = λ now user id r h k. ground arith;
}

-- An insertion adds nothing, or a row where no active row of the pair is and the cap is not reached.
data Admitted (c : Candidate) (rows : List Question) : List Question → Type 0 where
  refused : Admitted c rows rows
  added :
      (now : ℕ) (id : String)
      → select (active_of c) rows ≡ none
      → leb global_cap (count active rows) ≡ false
      → Admitted c rows (rows ++ new_question now id c ∷ [])

admit-Admitted :
    (now : ℕ) (id : String) (c : Candidate) (rows : List Question)
    → Admitted c rows (admit now id c rows).0
unfolding admit
admit-Admitted now id c rows = elim (Bool-cases (not (is_none (select (active_of c) rows)))) [
  | inl e ↦ rw e refused
  | inr e ↦
      elim (Bool-cases (ltb 0 (recent_time c rows) && ltb now (recent_time c rows + week_ms))) [
        | inl f ↦ rw (e, f) refused
        | inr f ↦ elim (Bool-cases (leb global_cap (count active rows))) [
          | inl g ↦ rw (e, f, g) refused
          | inr g ↦
              elim (Bool-cases (
                not (is_none (select (λ r. str_eq r.id id) rows))
                || leb c.memory_b_id c.memory_a_id)) [
                  | inl h ↦ rw (e, f, g, h) refused
                  | inr h ↦
                      rw (e, f, g, h) (added now id (unselected (select (active_of c) rows) e) g)
                ]
        ]
      ]
]
  where
    unselected : (o : Option Question) → not (is_none o) ≡ false → o ≡ none
    unselected none k = refl
    unselected (some r) k = ground arith

-- The cap on active questions is never passed: over any calls from a table with at most 20 pending or
-- asked rows, over all owners, it has at most 20.
pub run-cap :
    (cs : List (World × ℕ × Call)) (rows : List Question)
    → count active rows ≤ global_cap
    → count active (run cs rows) ≤ global_cap
run-cap cs rows h = run-bound active active-Fading global_cap grow cs rows h
  where
    grown :
        {rows' : List Question} (c : Candidate) (rows : List Question)
        → Admitted c rows rows'
        → count active rows ≤ global_cap
        → count active rows' ≤ global_cap
    grown c rows refused h = h
    grown c rows (added now id e g) h =
        ground (arith, count-append active rows (new_question now id c ∷ []))

    grow :
        (now : ℕ) (id : String) (c : Candidate) (rows : List Question)
        → count active rows ≤ global_cap
        → count active (admit now id c rows).0 ≤ global_cap
    grow now id c rows h = grown c rows (admit-Admitted now id c rows) h

same_pair-pair :
    (c d : Candidate) (now : ℕ) (id : String) (r : Question)
    → same_pair d (new_question now id c) ≡ true
    → same_pair c r ≡ same_pair d r
same_pair-pair c d now id r e =
    let u : c.user_id ≡ d.user_id = ground (arith, eq_iff c.user_id d.user_id) in
    let a : c.memory_a_id ≡ d.memory_a_id = ground arith in
    let b : c.memory_b_id ≡ d.memory_b_id = ground arith in rw (u, a, b) refl

-- One question per pair: over any calls from a table with at most one active row of an owner and a
-- pair of memories, it has at most one.
pub run-pair :
    (d : Candidate) (cs : List (World × ℕ × Call)) (rows : List Question)
    → count (active_of d) rows ≤ 1
    → count (active_of d) (run cs rows) ≤ 1
run-pair d cs rows h = run-bound (active_of d) (active_of-Fading d) 1 grow cs rows h
  where
    counted :
        (c : Candidate) (now : ℕ) (id : String) (rows : List Question)
        → same_pair d (new_question now id c) ≡ true
        → count (active_of d) rows ≡ count (active_of c) rows
    counted c now id [] e = refl
    counted c now id (r ∷ rs) e = rw (same_pair-pair c d now id r e, counted c now id rs e) refl

    grown :
        {rows' : List Question} (c : Candidate) (rows : List Question)
        → Admitted c rows rows'
        → count (active_of d) rows ≤ 1
        → count (active_of d) rows' ≤ 1
    grown c rows refused h = h
    grown c rows (added now id e g) h = elim (Bool-cases (same_pair d (new_question now id c))) [
      | inl f ↦ ground (
        arith,
        count-append (active_of d) rows (new_question now id c ∷ []),
        counted c now id rows f,
        count-none (active_of c) rows e,
      )
      | inr f ↦ ground (arith, count-append (active_of d) rows (new_question now id c ∷ []))
    ]

    grow :
        (now : ℕ) (id : String) (c : Candidate) (rows : List Question)
        → count (active_of d) rows ≤ 1
        → count (active_of d) (admit now id c rows).0 ≤ 1
    grow now id c rows h = grown c rows (admit-Admitted now id c rows) h
