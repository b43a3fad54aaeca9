-- ===== src/Questions/Serving.antt =====
-- src/dream-question-store.ts: which question `nextPending` serves.
use abmind.Prelude.{
  ℕ, ◌≤◌, ◌<◌, ◌≡◌, String, Bool, true, false, ◌&&◌, ◌||◌, some, List, [], ◌∷◌, arith, Bool-cases,
  inl, inr, All, not, leb, ltb, filter, All-map,
}
use abmind.Prelude.Table.{update, delete}
use abmind.Questions.{
  Question, World, is_active, is_pending, is_stale, reconcile_row, reconcile_user, next_pending,
  owned, ordered, insert_sorted, precedes, head?, is_prunable,
}

-- Not stale, and not expired.
abbrev is_fresh : World → ℕ → Question → Bool
is_fresh w now r = not (is_stale w r) && ltb now r.expires_at

-- An active row of the owner is fresh.
abbrev is_guarded : World → ℕ → String → Question → Bool
is_guarded w now user r = not (owned user r && is_active r.status) || is_fresh w now r

reconcile_row-guarded :
    (w : World) (now : ℕ) (user : String) (r : Question)
    → is_guarded w now user (reconcile_row w now r) ≡ true
unfolding reconcile_row
reconcile_row-guarded w now user r = elim (Bool-cases (is_stale w r)) [
  | inl e ↦
      elim (Bool-cases
        (w.forgotten r.user_id r.memory_a_id || w.forgotten r.user_id r.memory_b_id)) [
          | inl f ↦ rw (e, f) (ground arith)
          | inr f ↦ rw (e, f) (ground arith)
        ]
  | inr e ↦ elim (Bool-cases (leb r.expires_at now)) [
    | inl f ↦ rw (e, f) (ground arith)
    | inr f ↦ rw (e, f) (ground arith)
  ]
]

update-guarded :
    (w : World) (now : ℕ) (user : String) (rows : List Question)
    → All
        (λ r. is_guarded w now user r ≡ true)
        (update (λ r. owned user r && is_active r.status) (reconcile_row w now) rows)
update-guarded w now user [] = tt
update-guarded w now user (r ∷ rs) = (
  elim (Bool-cases (owned user r && is_active r.status)) [
    | inl e ↦ rw e (reconcile_row-guarded w now user r)
    | inr e ↦ rw e (ground arith)
  ],
  update-guarded w now user rs,
)

module _ (P : Question → Type 0) where
  All-delete : (p : Question → Bool) (rows : List Question) → All P rows → All P (delete p rows)
  All-delete p [] h = tt
  All-delete p (r ∷ rs) h = elim (Bool-cases (p r)) [
    | inl e ↦ rw e (All-delete p rs h.1)
    | inr e ↦ rw e (h.0, All-delete p rs h.1)
  ]

  All-filter :
      (p : Question → Bool) (rows : List Question)
      → All P rows
      → All (λ r. (p r ≡ true) × P r) (filter p rows)
  All-filter p [] h = tt
  All-filter p (r ∷ rs) h = elim (Bool-cases (p r)) [
    | inl e ↦ rw e ((e, h.0), All-filter p rs h.1)
    | inr e ↦ rw e (All-filter p rs h.1)
  ]

  All-unfilter :
      (p : Question → Bool) (rows : List Question)
      → All P (filter p rows)
      → All (λ r. p r ≡ true → P r) rows
  All-unfilter p [] h = tt
  All-unfilter p (r ∷ rs) h = elim (Bool-cases (p r)) [
    | inl e ↦ let k : All P (r ∷ filter p rs) = rw e at h in (λ x. k.0, All-unfilter p rs k.1)
    | inr e ↦ let k : All P (filter p rs) = rw e at h in (λ x. ground arith, All-unfilter p rs k)
  ]

  All-insert_sorted :
      (r : Question) (ss : List Question) → P r → All P ss → All P (insert_sorted r ss)
  unfolding insert_sorted
  All-insert_sorted r [] h k = (h, tt)
  All-insert_sorted r (s ∷ ss) h k = elim (Bool-cases (precedes s r)) [
    | inl e ↦ rw e (k.0, All-insert_sorted r ss h k.1)
    | inr e ↦ rw e (h, k)
  ]

  All-uninsert : (r : Question) (ss : List Question) → All P (insert_sorted r ss) → P r × All P ss
  unfolding insert_sorted
  All-uninsert r [] h = (h.0, tt)
  All-uninsert r (s ∷ ss) h = elim (Bool-cases (precedes s r)) [
    | inl e ↦
        let k : All P (s ∷ insert_sorted r ss) = rw e at h in
        let (a, b) = All-uninsert r ss k.1 in (a, (k.0, b))
    | inr e ↦ let k : All P (r ∷ s ∷ ss) = rw e at h in k
  ]

  All-ordered : (rows : List Question) → All P rows → All P (ordered rows)
  unfolding ordered
  All-ordered [] h = tt
  All-ordered (r ∷ rs) h = All-insert_sorted r (ordered rs) h.0 (All-ordered rs h.1)

  All-unordered : (rows : List Question) → All P (ordered rows) → All P rows
  unfolding ordered
  All-unordered [] h = tt
  All-unordered (r ∷ rs) h = let (a, b) = All-uninsert r (ordered rs) h in (a, All-unordered rs b)

  All-head : (rows : List Question) (r : Question) → All P rows → head? rows ≡ some r → P r
  All-head [] r h e = ground arith
  All-head (s ∷ ss) r h e = let q : s ≡ r = ground arith in rw⁻¹ q h.0

-- The first row is the oldest.
abbrev Headed : List Question → Type 0
Headed [] = Unit
Headed (r ∷ rs) = All (λ s. r.created_at ≤ s.created_at) rs

insert_sorted-Headed : (r : Question) (ss : List Question) → Headed ss → Headed (insert_sorted r ss)
unfolding insert_sorted
insert_sorted-Headed r [] h = tt
insert_sorted-Headed r (s ∷ ss) h = elim (Bool-cases (precedes s r)) [
  | inl e ↦ rw e (All-insert_sorted _ r ss (ground arith) h)
  | inr e ↦
      let le : r.created_at ≤ s.created_at = ground arith in
      rw e (le, All-map (λ x y. omega (arith, le, y)) ss h)
]

ordered-Headed : (rows : List Question) → Headed (ordered rows)
unfolding ordered
ordered-Headed [] = tt
ordered-Headed (r ∷ rs) = insert_sorted-Headed r (ordered rs) (ordered-Headed rs)

Headed-least :
    (rows : List Question) (r : Question)
    → Headed rows
    → head? rows ≡ some r
    → All (λ s. r.created_at ≤ s.created_at) rows
Headed-least [] r h e = tt
Headed-least (s ∷ ss) r h e =
    let k : s.created_at ≡ r.created_at = ground arith in
    (omega (arith, k), All-map (λ x y. omega (arith, k, y)) ss h)

-- What `nextPending` serves may be asked: it is a pending row of the caller whose evidence is valid for
-- both memories, neither of them forgotten, and which is not expired.
pub next_pending-fresh :
    (w : World) (now : ℕ) (user : String) (rows : List Question) (r : Question)
    → (next_pending w now user rows).1 ≡ some r
    → (owned user r ≡ true)
      × (is_pending r.status ≡ true)
      × (is_stale w r ≡ false)
      × (now < r.expires_at)
unfolding next_pending reconcile_user
next_pending-fresh w now user rows r e =
    let rows' = reconcile_user w now user rows in
    let all = All-ordered _ (filter (λ r. owned user r && is_pending r.status) rows') (
      All-filter _ (λ r. owned user r && is_pending r.status) rows'
        (All-delete _ (λ r. owned user r && is_prunable now r) _
          (update-guarded w now user rows))) in
    let (a, b) = All-head _ _ r all e in
    (ground (arith, a), ground (arith, a), ground (arith, a, b), ground (arith, a, b))

-- The question that `nextPending` serves is the oldest: every pending row of the caller, in the table
-- that the call leaves, was created at the same time or later.
pub next_pending-oldest :
    (w : World) (now : ℕ) (user : String) (rows : List Question) (r : Question)
    → (next_pending w now user rows).1 ≡ some r
    → All
        (λ s. (owned user s && is_pending s.status) ≡ true → r.created_at ≤ s.created_at)
        (next_pending w now user rows).0
unfolding next_pending
next_pending-oldest w now user rows r e =
    All-unfilter _ (λ r. owned user r && is_pending r.status) (reconcile_user w now user rows)
      (All-unordered _ _ (Headed-least _ r (ordered-Headed _) e))
