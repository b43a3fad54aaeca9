-- ===== src/Ledger/Phase.antt =====
-- src/abmind-request-ledger.ts, one key at a time: what the statements do to the row of a key.
use abmind.Prelude.{
  ℕ, zero, suc, ◌≤◌, ◌≡◌, refl, ◌+◌, ◌-◌, ltb, inl, inr, String, Bool, true, false, ◌&&◌, Option,
  none, some, List, [], ◌∷◌, ◌++◌, arith, str_eq, eq_iff, Bool-cases, Option-cases,
}
use abmind.Prelude.Table.{
  select, update, delete, count, count-append, count-none, select-append_none, select-append_some,
  count-delete-le, select-none, select-delete_gone, select-delete_kept, select-delete-none,
  count-update, select-update_hit, select-update_miss, select-update-none,
}
use abmind.Ledger.{
  State, reserved, in_flight, completed, outcome_unknown, Row, is_reserved, is_in_flight,
  is_completed, is_live, key, fresh_row, insert, reserve, mark_started, complete, mark_unknown,
  recover_crashed, cleanup, evict, delete_first, oldest, evictable, set_state, set_completed,
  retention, max_completed,
}

-- At most one row has a key: the table's primary key.
abbrev pub IsKeyed : List Row → Type 0
IsKeyed rows = (p k : String) → count (key p k) rows ≤ 1

-- The allowed changes of the row of a key: its admission, its progress, and its removal, which only
-- retention makes.
pub data Move (evicting : Bool) : Option Row → Option Row → Type 0 where
  keeps : {o : Option Row} → Move evicting o o
  admits : {r : Row} → r.state ≡ reserved → Move evicting none (some r)
  starts : {r s : Row} → r.state ≡ reserved → s.state ≡ in_flight → Move evicting (some r) (some s)
  finishes :
      {r s : Row} → r.state ≡ in_flight → s.state ≡ completed → Move evicting (some r) (some s)
  loses :
      {r s : Row}
      → is_live r.state ≡ true
      → s.state ≡ outcome_unknown
      → Move evicting (some r) (some s)
  forgets : {r : Row} → evicting ≡ true → r.state ≡ completed → Move evicting (some r) none

module _ (q p : Row → Bool) (f : Row → Row) (same : (r : Row) → q (f r) ≡ q r) where
  update-Move :
      ((r : Row) → p r ≡ true → Move false (some r) (some (f r)))
      → (rows : List Row) → Move false (select q rows) (select q (update p f rows))
  update-Move move rows = elim (Option-cases (select q rows)) [
    | inl e ↦ rw (e, select-update-none q p f same rows e) keeps
    | inr (r, e) ↦ elim (Bool-cases (p r)) [
      | inl hit ↦ rw (e, select-update_hit q p f same rows r e hit) (move r hit)
      | inr miss ↦ rw (e, select-update_miss q p f same rows r e miss) keeps
    ]
  ]

-- The changes that retention makes: a completed row goes, any other stays.
data Evicts : Option Row → Option Row → Type 0 where
  stays : {o : Option Row} → Evicts o o
  goes : {r : Row} → r.state ≡ completed → Evicts (some r) none

Evicts-trans : {a b c : Option Row} → Evicts a b → Evicts b c → Evicts a c
Evicts-trans stays t = t
Evicts-trans (goes e) stays = goes e

Evicts-Move : {a b : Option Row} → Evicts a b → Move true a b
Evicts-Move stays = keeps
Evicts-Move (goes e) = forgets refl e

is_completed_sound : (s : State) → is_completed s ≡ true → s ≡ completed
is_completed_sound completed h = refl
is_completed_sound _ h = cc

pub is_reserved_sound : (s : State) → is_reserved s ≡ true → s ≡ reserved
is_reserved_sound reserved h = refl
is_reserved_sound _ h = cc

pub is_in_flight_sound : (s : State) → is_in_flight s ≡ true → s ≡ in_flight
is_in_flight_sound in_flight h = refl
is_in_flight_sound _ h = cc

-- A key picks one row at most.
module _ (q : Row → Bool) where
  delete-Evicts :
      (p : Row → Bool)
      → ((r : Row) → p r ≡ true → r.state ≡ completed)
      → (rows : List Row) → count q rows ≤ 1
      → Evicts (select q rows) (select q (delete p rows))
  delete-Evicts p only rows u = elim (Option-cases (select q rows)) [
    | inl e ↦ rw (e, select-delete-none q p rows e) stays
    | inr (r, e) ↦ elim (Bool-cases (p r)) [
      | inl hit ↦ rw (e, select-delete_gone q p rows r u e hit) (goes (only r hit))
      | inr miss ↦ rw (e, select-delete_kept q p rows r e miss) stays
    ]
  ]

  evictable_sound : (t : Option ℕ) (r : Row) → evictable t r ≡ true → r.state ≡ completed
  evictable_sound none r h = cc
  evictable_sound (some n) r h = is_completed_sound r.state (ground arith)

  count-delete_first :
      (t : Option ℕ) (rows : List Row) → count q (delete_first t rows) ≤ count q rows
  unfolding delete_first
  count-delete_first t [] = omega arith
  count-delete_first t (r ∷ rs) = ground (arith, count-delete_first t rs)

  delete_first-Evicts :
      (t : Option ℕ) (rows : List Row)
      → count q rows ≤ 1
      → Evicts (select q rows) (select q (delete_first t rows))
  unfolding delete_first
  delete_first-Evicts t [] u = stays
  delete_first-Evicts t (r ∷ rs) u = elim (Bool-cases (evictable t r)) [
    | inl hit ↦ elim (Bool-cases (q r)) [
      | inl mine ↦ rw (hit, mine, select-none q rs (ground arith)) (goes (evictable_sound t r hit))
      | inr other ↦ rw (hit, other) stays
    ]
    | inr miss ↦ elim (Bool-cases (q r)) [
      | inl mine ↦ rw (miss, mine) stays
      | inr other ↦ rw (miss, other) (delete_first-Evicts t rs (ground arith))
    ]
  ]

  count-evict : (n : ℕ) (rows : List Row) → count q (evict n rows) ≤ count q rows
  unfolding evict
  count-evict zero rows = omega arith
  count-evict (suc n) rows = omega (
    arith,
    count-evict n (delete_first (oldest rows) rows),
    count-delete_first (oldest rows) rows,
  )

  evict-Evicts :
      (n : ℕ) (rows : List Row)
      → count q rows ≤ 1
      → Evicts (select q rows) (select q (evict n rows))
  unfolding evict
  evict-Evicts zero rows u = stays
  evict-Evicts (suc n) rows u = Evicts-trans (delete_first-Evicts (oldest rows) rows u) (
      evict-Evicts n (delete_first (oldest rows) rows)
        (omega (arith, count-delete_first (oldest rows) rows)))

abbrev is_old : ℕ → Row → Bool
is_old now r = is_completed r.state && ltb (r.updated_at + retention) now

abbrev kept : ℕ → List Row → List Row
kept now = delete (is_old now)

abbrev completions : ℕ → List Row → ℕ
completions now rows = count (λ r. is_completed r.state) (kept now rows)

append-Move :
    (q : Row → Bool) (r : Row) (rows : List Row)
    → r.state ≡ reserved
    → Move false (select q rows) (select q (rows ++ r ∷ []))
append-Move q r rows e = elim (Option-cases (select q rows)) [
  | inl none_yet ↦
      rw (none_yet, select-append_none q rows (r ∷ []) none_yet)
        (elim (Bool-cases (q r)) [ inl mine ↦ rw mine (admits e) | inr other ↦ rw other keeps ])
  | inr (s, found) ↦ rw (found, select-append_some q rows (r ∷ []) s found) keeps
]

insert-Move :
    (q : Row → Bool) (fails : Bool) (r : Row) (rows : List Row)
    → r.state ≡ reserved
    → Move false (select q rows) (select q (insert fails r rows).0)
unfolding insert
insert-Move q true r rows e = keeps
insert-Move q false r rows e = append-Move q r rows e

pub reserve-Move :
    (p' k' : String) (fails : Bool) (now : ℕ) (p k m h : String) (rows : List Row)
    → Move false (select (key p' k') rows) (select (key p' k') (reserve fails now p k m h rows).0)
unfolding reserve
reserve-Move p' k' fails now p k m h rows = elim (Option-cases (select (key p k) rows)) [
  | inl absent ↦
      rw (absent, reserve) (insert-Move (key p' k') fails (fresh_row now p k m h) rows refl)
  | inr (r, found) ↦ rw (found, reserve) keeps
]

pub mark_started-Move :
    (p' k' : String) (fails : Bool) (now : ℕ) (p k : String) (rows : List Row)
    → Move false (select (key p' k') rows) (select (key p' k') (mark_started fails now p k rows).0)
unfolding mark_started
mark_started-Move p' k' true now p k rows = keeps
mark_started-Move p' k' false now p k rows =
    update-Move (key p' k') _ (set_state in_flight now) (λ r. refl)
      (λ r h. starts (is_reserved_sound r.state (ground arith)) refl) rows

pub complete-Move :
    (p' k' : String) (fails : Bool) (now : ℕ) (p k json : String) (rows : List Row)
    → Move false (select (key p' k') rows) (select (key p' k') (complete fails now p k json rows).0)
unfolding complete
complete-Move p' k' true now p k json rows = keeps
complete-Move p' k' false now p k json rows =
    update-Move (key p' k') _ (set_completed json now) (λ r. refl)
      (λ r h. finishes (is_in_flight_sound r.state (ground arith)) refl) rows

pub mark_unknown-Move :
    (p' k' : String) (fails : Bool) (now : ℕ) (p k : String) (rows : List Row)
    → Move false (select (key p' k') rows) (select (key p' k') (mark_unknown fails now p k rows).0)
unfolding mark_unknown
mark_unknown-Move p' k' true now p k rows = keeps
mark_unknown-Move p' k' false now p k rows =
    update-Move (key p' k') _ (set_state outcome_unknown now) (λ r. refl)
      (λ r h. loses (ground arith) refl) rows

pub recover_crashed-Move :
    (p' k' : String) (now : ℕ) (rows : List Row)
    → Move false (select (key p' k') rows) (select (key p' k') (recover_crashed now rows))
unfolding recover_crashed
recover_crashed-Move p' k' now rows =
    update-Move (key p' k') _ (set_state outcome_unknown now) (λ r. refl) (λ r h. loses h refl) rows

pub cleanup-Move :
    (p' k' : String) (now : ℕ) (rows : List Row)
    → count (key p' k') rows ≤ 1
    → Move true (select (key p' k') rows) (select (key p' k') (cleanup now rows))
unfolding cleanup
cleanup-Move p' k' now rows u = elim (Bool-cases (ltb max_completed (completions now rows))) [
  | inl over ↦ rw over (
      Evicts-Move (
        Evicts-trans first (
          evict-Evicts (key p' k') (completions now rows - max_completed) (kept now rows)
            (kept_unique u))))
  | inr few ↦ rw few (Evicts-Move first)
]
  where
    kept_unique : count (key p' k') rows ≤ 1 → count (key p' k') (kept now rows) ≤ 1
    kept_unique h = omega (arith, count-delete-le (key p' k') (is_old now) rows)

    first : Evicts (select (key p' k') rows) (select (key p' k') (kept now rows))
    first =
        delete-Evicts (key p' k') (is_old now) (λ r h. is_completed_sound r.state (ground arith))
          rows u

fresh_row-count :
    (p' k' p k m h : String) (now : ℕ) (rows : List Row)
    → select (key p k) rows ≡ none
    → count (key p' k') rows ≤ 1
    → count (key p' k') (rows ++ fresh_row now p k m h ∷ []) ≤ 1
fresh_row-count p' k' p k m h now rows absent u =
    elim (Bool-cases (key p' k' (fresh_row now p k m h))) [
      | inl mine ↦ rw (count-append (key p' k') rows _, mine) (omega (arith, same mine))
      | inr other ↦ rw (count-append (key p' k') rows _, other) (omega arith)
    ]
  where
    same : (str_eq p p' && str_eq k k') ≡ true → count (key p' k') rows ≡ 0
    same mine =
        let ep : p ≡ p' = ground (arith, eq_iff p p') in
        let ek : k ≡ k' = ground (arith, eq_iff k k') in
        rw (← ep, ← ek) (count-none (key p k) rows absent)

insert-count :
    (p' k' p k m h : String) (fails : Bool) (now : ℕ) (rows : List Row)
    → select (key p k) rows ≡ none
    → count (key p' k') rows ≤ 1
    → count (key p' k') (insert fails (fresh_row now p k m h) rows).0 ≤ 1
unfolding insert
insert-count p' k' p k m h true now rows absent u = u
insert-count p' k' p k m h false now rows absent u = fresh_row-count p' k' p k m h now rows absent u

-- The primary key stays one: `reserve` inserts a row only where none has its key.
pub reserve-IsKeyed :
    (fails : Bool) (now : ℕ) (p k m h : String) (rows : List Row)
    → IsKeyed rows
    → IsKeyed (reserve fails now p k m h rows).0
unfolding reserve
reserve-IsKeyed fails now p k m h rows u p' k' = elim (Option-cases (select (key p k) rows)) [
  | inl absent ↦ rw (absent, reserve) (insert-count p' k' p k m h fails now rows absent (u p' k'))
  | inr (r, found) ↦ rw (found, reserve) (u p' k')
]

pub mark_started-IsKeyed :
    (fails : Bool) (now : ℕ) (p k : String) (rows : List Row)
    → IsKeyed rows
    → IsKeyed (mark_started fails now p k rows).0
unfolding mark_started
mark_started-IsKeyed true now p k rows u p' k' = u p' k'
mark_started-IsKeyed false now p k rows u p' k' =
    rw (count-update (key p' k') _ (set_state in_flight now) (λ r. refl) rows) (u p' k')

pub complete-IsKeyed :
    (fails : Bool) (now : ℕ) (p k json : String) (rows : List Row)
    → IsKeyed rows
    → IsKeyed (complete fails now p k json rows).0
unfolding complete
complete-IsKeyed true now p k json rows u p' k' = u p' k'
complete-IsKeyed false now p k json rows u p' k' =
    rw (count-update (key p' k') _ (set_completed json now) (λ r. refl) rows) (u p' k')

pub mark_unknown-IsKeyed :
    (fails : Bool) (now : ℕ) (p k : String) (rows : List Row)
    → IsKeyed rows
    → IsKeyed (mark_unknown fails now p k rows).0
unfolding mark_unknown
mark_unknown-IsKeyed true now p k rows u p' k' = u p' k'
mark_unknown-IsKeyed false now p k rows u p' k' =
    rw (count-update (key p' k') _ (set_state outcome_unknown now) (λ r. refl) rows) (u p' k')

pub recover_crashed-IsKeyed :
    (now : ℕ) (rows : List Row) → IsKeyed rows → IsKeyed (recover_crashed now rows)
unfolding recover_crashed
recover_crashed-IsKeyed now rows u p' k' =
    rw (count-update (key p' k') _ (set_state outcome_unknown now) (λ r. refl) rows) (u p' k')

pub cleanup-IsKeyed : (now : ℕ) (rows : List Row) → IsKeyed rows → IsKeyed (cleanup now rows)
unfolding cleanup
cleanup-IsKeyed now rows u p' k' = ground (
  arith,
  u p' k',
  count-delete-le (key p' k') (is_old now) rows,
  count-evict (key p' k') (completions now rows - max_completed) (kept now rows),
)
