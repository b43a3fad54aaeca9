-- ===== src/Ledger/Dispatch.antt =====
-- src/abmind-request-ledger.ts: how often a key is dispatched, and the replay of a completed answer.
use abmind.Prelude.{
  ℕ, ◌+◌, ◌≤◌, ◌≡◌, refl, inl, inr, ap, String, Bool, true, false, ◌&&◌, Option, none, some, List,
  [], ◌∷◌, arith, str_eq, eq_iff, if◌then◌else◌, Bool-cases, Option-cases, All,
}
use abmind.Prelude.Table.{
  select, count, count-and_none, count-and_some, select-update_hit, select_holds,
}
use abmind.Ledger.{
  reserved, completed, in_flight, Row, was_completed, is_reserved, is_in_flight, key, answer,
  reserve, mark_started, complete, set_state, set_completed,
}
use text.Mathlib.TextPositions.{eq_refl}
use abmind.Ledger.Phase.{
  IsKeyed, Move, keeps, admits, starts, finishes, loses, forgets, is_reserved_sound,
}
use abmind.Ledger.History.{
  Call, reserves, marks_started, completes, step, run, is_cleanup, step-IsKeyed, step-Move,
  Move-completed, reserve_found,
}

mark_started_hit :
    (fails : Bool) (now : ℕ) (p k : String) (rows : List Row)
    → count (key p k) rows ≤ 1
    → (mark_started fails now p k rows).1 ≡ true
    → (r : Row) × (select (key p k) rows ≡ some r)
      × (r.state ≡ reserved)
      × (select (key p k) (mark_started fails now p k rows).0 ≡ some (set_state in_flight now r))
unfolding mark_started
mark_started_hit true now p k rows u h = cc
mark_started_hit false now p k rows u h = elim (Option-cases (select (key p k) rows)) [
  | inl e ↦ absurd (ground (arith, count-and_none (key p k) (λ r. is_reserved r.state) rows e))
  | inr (r, e) ↦
      let s : is_reserved r.state ≡ true =
        ground (arith, count-and_some (key p k) (λ r. is_reserved r.state) rows r u e) in
      let q : key p k r ≡ true = select_holds (key p k) rows r e in
      (
        r,
        e,
        is_reserved_sound r.state s,
        select-update_hit (key p k) (λ r. key p k r && is_reserved r.state)
            (set_state in_flight now) (λ r. refl) rows r e (rw (q, s)),
      )
]

-- 1 while the key may still be dispatched.
abbrev credit : Option Row → ℕ
credit none = 1
credit (some r) = if is_reserved r.state then 1 else 0

-- 1 where the call is a `markStarted` of the key that answers true.
abbrev pub started : String → String → Call → List Row → ℕ
started p k (marks_started fails now p' k') rows =
    if str_eq p' p && str_eq k' k && (mark_started fails now p' k' rows).1 then 1 else 0
started p k _ rows = 0

abbrev pub dispatches : String → String → List Call → List Row → ℕ
dispatches p k [] rows = 0
dispatches p k (c ∷ cs) rows = started p k c rows + dispatches p k cs (step c rows)

abbrev pub cleanups : List Call → ℕ
cleanups [] = 0
cleanups (c ∷ cs) = (if is_cleanup c then 1 else 0) + cleanups cs

Move-credit :
    {e : Bool} {o o' : Option Row} → Move e o o' → credit o' ≤ credit o + (if e then 1 else 0)
Move-credit keeps = omega arith
Move-credit (admits a) = ground arith
Move-credit (starts a b) = ground arith
Move-credit (finishes a b) = ground arith
Move-credit (loses a b) = ground arith
Move-credit (forgets c a) = ground arith

mark_started-credit :
    (fails : Bool) (now : ℕ) (p k : String) (rows : List Row)
    → count (key p k) rows ≤ 1
    → (mark_started fails now p k rows).1 ≡ true
    → (credit (select (key p k) rows) ≡ 1)
      × (credit (select (key p k) (mark_started fails now p k rows).0) ≡ 0)
mark_started-credit fails now p k rows u h =
    let (r, e, s, e') = mark_started_hit fails now p k rows u h in (rw (e, s) refl, ap credit e')

started-credit :
    (p k : String) (c : Call) (rows : List Row)
    → IsKeyed rows
    → started p k c rows + credit (select (key p k) (step c rows))
      ≤ credit (select (key p k) rows) + (if is_cleanup c then 1 else 0)
started-credit p k (marks_started fails now p' k') rows u =
    elim (Bool-cases (str_eq p' p && str_eq k' k && (mark_started fails now p' k' rows).1)) [
      | inl hit ↦ rw hit (omega (arith, spent hit))
      | inr miss ↦
          rw miss
            (omega (arith, Move-credit (step-Move (marks_started fails now p' k') rows p k u)))
    ]
  where
    spent :
        (str_eq p' p && str_eq k' k && (mark_started fails now p' k' rows).1) ≡ true
        → (credit (select (key p k) rows) ≡ 1)
          × (credit (select (key p k) (mark_started fails now p' k' rows).0) ≡ 0)
    spent hit =
        let ep : p' ≡ p = ground (arith, eq_iff p' p) in
        let ek : k' ≡ k = ground (arith, eq_iff k' k) in
        let h : (mark_started fails now p' k' rows).1 ≡ true = ground arith in
        rw (← ep, ← ek) (mark_started-credit fails now p' k' rows (u p' k') h)
started-credit p k (reserves a b c d e f) rows u =
    omega (arith, Move-credit (step-Move (reserves a b c d e f) rows p k u))
started-credit p k c rows u = omega (arith, Move-credit (step-Move c rows p k u))

dispatches-credit :
    (p k : String) (cs : List Call) (rows : List Row)
    → IsKeyed rows
    → dispatches p k cs rows ≤ credit (select (key p k) rows) + cleanups cs
dispatches-credit p k [] rows u = omega arith
dispatches-credit p k (c ∷ cs) rows u = omega (
  arith,
  started-credit p k c rows u,
  dispatches-credit p k cs (step c rows) (step-IsKeyed c rows u),
)

credit-le : (o : Option Row) → credit o ≤ 1
credit-le none = omega arith
credit-le (some r) = ground arith

-- Between two runs of `cleanup` a key is dispatched once at most: over any calls from any keyed
-- table, the number of `markStarted` calls on the key that answer true is at most one more than the
-- number of `cleanup` calls.
pub dispatches-le :
    (p k : String) (cs : List Call) (rows : List Row)
    → IsKeyed rows
    → dispatches p k cs rows ≤ 1 + cleanups cs
dispatches-le p k cs rows u =
    omega (arith, dispatches-credit p k cs rows u, credit-le (select (key p k) rows))

set_completed_hit :
    (fails : Bool) (now : ℕ) (p k json : String) (rows : List Row) (r : Row)
    → count (key p k) rows ≤ 1
    → select (key p k) rows ≡ some r
    → (complete fails now p k json rows).1 ≡ true
    → select (key p k) (complete fails now p k json rows).0 ≡ some (set_completed json now r)
unfolding complete
set_completed_hit true now p k json rows r u e h = cc
set_completed_hit false now p k json rows r u e h =
    let s : is_in_flight r.state ≡ true =
      ground (arith, count-and_some (key p k) (λ r. is_in_flight r.state) rows r u e) in
    let q : key p k r ≡ true = select_holds (key p k) rows r e in
    select-update_hit (key p k) (λ r. key p k r && is_in_flight r.state) (set_completed json now)
      (λ r. refl) rows r e (rw (q, s))

run-completed :
    (cs : List Call) (rows : List Row) (p k : String) (r : Row)
    → IsKeyed rows
    → All (λ c. is_cleanup c ≡ false) cs
    → select (key p k) rows ≡ some r
    → r.state ≡ completed
    → select (key p k) (run cs rows) ≡ some r
run-completed [] rows p k r u w e h = e
run-completed (c ∷ cs) rows p k r u w e h =
    run-completed cs (step c rows) p k r (step-IsKeyed c rows u) w.1
      (Move-completed r (step-Move c rows p k u) w.0 e h) h

-- Once `complete` has answered true, the answer is replayed: after any further calls but `cleanup`,
-- `reserve` under the same key, method and payload answers `completed` with the recorded response.
pub complete-replay :
    (fails : Bool) (now : ℕ) (p k json : String) (rows : List Row) (r : Row) (cs : List Call)
    (fails' : Bool) (now' : ℕ)
    → IsKeyed rows
    → select (key p k) rows ≡ some r
    → (complete fails now p k json rows).1 ≡ true
    → All (λ c. is_cleanup c ≡ false) cs
    → (reserve fails' now' p k r.method r.payload_hash
        (run cs (complete fails now p k json rows).0)).1
      ≡ was_completed (some json)
unfolding answer
complete-replay fails now p k json rows r cs fails' now' u e h w =
    rw
      (reserve_found fails' now' p k r.method r.payload_hash _ (set_completed json now r) (
        run-completed cs _ p k (set_completed json now r)
          (step-IsKeyed (completes fails now p k json) rows u) w
          (set_completed_hit fails now p k json rows r (u p k) e h) refl))
      (ground (arith, eq_refl r.method, eq_refl r.payload_hash))
