-- ===== src/Ledger/History.antt =====
-- src/abmind-request-ledger.ts over time: any sequence of the ledger's operations.
use abmind.Prelude.{
  ℕ, ◌≡◌, refl, String, Bool, true, false, ◌&&◌, Option, some, List, [], ◌∷◌, arith, str_eq,
  if◌then◌else◌,
}
use abmind.Prelude.Table.{select}
use abmind.Ledger.{
  completed, outcome_unknown, Row, conflict, unknown, key, answer, reserve, mark_started, complete,
  mark_unknown, recover_crashed, cleanup,
}
use abmind.Ledger.Phase.{
  IsKeyed, Move, keeps, admits, starts, finishes, loses, forgets, reserve-Move, mark_started-Move,
  complete-Move, mark_unknown-Move, recover_crashed-Move, cleanup-Move, reserve-IsKeyed,
  mark_started-IsKeyed, complete-IsKeyed, mark_unknown-IsKeyed, recover_crashed-IsKeyed,
  cleanup-IsKeyed,
}

-- A call of a method of the ledger, with what the environment supplies.
pub data Call : Type 0 where
  reserves : Bool → ℕ → String → String → String → String → Call
  marks_started : Bool → ℕ → String → String → Call
  completes : Bool → ℕ → String → String → String → Call
  marks_unknown : Bool → ℕ → String → String → Call
  recovers : ℕ → Call
  cleans : ℕ → Call

abbrev pub step : Call → List Row → List Row
step (reserves fails now p k m h) rows = (reserve fails now p k m h rows).0
step (marks_started fails now p k) rows = (mark_started fails now p k rows).0
step (completes fails now p k json) rows = (complete fails now p k json rows).0
step (marks_unknown fails now p k) rows = (mark_unknown fails now p k rows).0
step (recovers now) rows = recover_crashed now rows
step (cleans now) rows = cleanup now rows

abbrev pub run : List Call → List Row → List Row
run [] rows = rows
run (c ∷ cs) rows = run cs (step c rows)

abbrev pub is_cleanup : Call → Bool
is_cleanup (cleans now) = true
is_cleanup _ = false

-- No call leaves two rows under one key.
pub step-IsKeyed : (c : Call) (rows : List Row) → IsKeyed rows → IsKeyed (step c rows)
step-IsKeyed (reserves fails now p k m h) rows u = reserve-IsKeyed fails now p k m h rows u
step-IsKeyed (marks_started fails now p k) rows u = mark_started-IsKeyed fails now p k rows u
step-IsKeyed (completes fails now p k json) rows u = complete-IsKeyed fails now p k json rows u
step-IsKeyed (marks_unknown fails now p k) rows u = mark_unknown-IsKeyed fails now p k rows u
step-IsKeyed (recovers now) rows u = recover_crashed-IsKeyed now rows u
step-IsKeyed (cleans now) rows u = cleanup-IsKeyed now rows u

-- Each call moves the row of each key by one allowed change, or not at all: it admits a row as
-- `reserved` where there is none, takes it from `reserved` to `in_flight` or from `in_flight` to
-- `completed`, turns a live one into `outcome_unknown`, and removes it only if it is `completed`
-- and the call is `cleanup`.
pub step-Move :
    (c : Call) (rows : List Row) (p k : String)
    → IsKeyed rows
    → Move (is_cleanup c) (select (key p k) rows) (select (key p k) (step c rows))
step-Move (reserves fails now p' k' m h) rows p k u = reserve-Move p k fails now p' k' m h rows
step-Move (marks_started fails now p' k') rows p k u = mark_started-Move p k fails now p' k' rows
step-Move (completes fails now p' k' json) rows p k u = complete-Move p k fails now p' k' json rows
step-Move (marks_unknown fails now p' k') rows p k u = mark_unknown-Move p k fails now p' k' rows
step-Move (recovers now) rows p k u = recover_crashed-Move p k now rows
step-Move (cleans now) rows p k u = cleanup-Move p k now rows (u p k)

Move-unknown :
    {e : Bool} {o o' : Option Row} (r : Row)
    → Move e o o'
    → o ≡ some r
    → r.state ≡ outcome_unknown
    → o' ≡ some r
Move-unknown r keeps e h = e
Move-unknown r (admits a) e h = cc
Move-unknown r (starts a b) e h = ground arith
Move-unknown r (finishes a b) e h = ground arith
Move-unknown r (loses a b) e h = ground arith
Move-unknown r (forgets c a) e h = ground arith

pub Move-completed :
    {e : Bool} {o o' : Option Row} (r : Row)
    → Move e o o'
    → e ≡ false
    → o ≡ some r
    → r.state ≡ completed
    → o' ≡ some r
Move-completed r keeps c e h = e
Move-completed r (admits a) c e h = cc
Move-completed r (starts a b) c e h = ground arith
Move-completed r (finishes a b) c e h = ground arith
Move-completed r (loses a b) c e h = ground arith
Move-completed r (forgets d a) c e h = ground arith

run-unknown :
    (cs : List Call) (rows : List Row) (p k : String) (r : Row)
    → IsKeyed rows
    → select (key p k) rows ≡ some r
    → r.state ≡ outcome_unknown
    → select (key p k) (run cs rows) ≡ some r
run-unknown [] rows p k r u e h = e
run-unknown (c ∷ cs) rows p k r u e h =
    run-unknown cs (step c rows) p k r (step-IsKeyed c rows u)
      (Move-unknown r (step-Move c rows p k u) e h) h

pub reserve_found :
    (fails : Bool) (now : ℕ) (p k m h : String) (rows : List Row) (r : Row)
    → select (key p k) rows ≡ some r
    → (reserve fails now p k m h rows).1 ≡ answer m h r
unfolding reserve
reserve_found fails now p k m h rows r e = rw (e, reserve)

-- A key whose row is `outcome_unknown` is never admitted again: after any further calls, `reserve`
-- answers `outcome_unknown` to the same method and payload, and `conflict` to any other.
pub run-reserve_unknown :
    (cs : List Call) (rows : List Row) (p k m h : String) (r : Row) (fails : Bool) (now : ℕ)
    → IsKeyed rows
    → select (key p k) rows ≡ some r
    → r.state ≡ outcome_unknown
    → (reserve fails now p k m h (run cs rows)).1
      ≡ (if str_eq r.method m && str_eq r.payload_hash h then unknown else conflict)
unfolding answer
run-reserve_unknown cs rows p k m h r fails now u e s =
    rw (reserve_found fails now p k m h (run cs rows) r (run-unknown cs rows p k r u e s), s) refl
