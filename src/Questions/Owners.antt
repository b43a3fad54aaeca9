-- ===== src/Questions/Owners.antt =====
-- src/dream-question-store.ts: the rows of one owner and those of the others.
use abmind.Prelude.{
  ℕ, ◌≡◌, refl, String, Bool, true, ◌&&◌, ◌||◌, Option, none, some, List, [], ◌∷◌, arith,
  Bool-cases, inl, inr, not, leb, ◌==◌, filter, ap, ◌∙◌,
}
use abmind.Prelude.Table.{count, update, delete}
use abmind.Questions.{
  Question, World, is_active, is_stale, reconcile_row, reconcile_user, next_pending, list_questions,
  mark_asked, dismiss, owned, asks, ask, dismisses, set_dismissed, is_prunable,
}
use abmind.Questions.Rows.{Call, inserts, nexts, lists, marks_asked, dismissals, reconciles, step}

-- The owner for whom a call is made; an insertion, which tidies all owners, has none.
abbrev pub caller : Call → Option String
caller (inserts id c) = none
caller (nexts user) = some user
caller (lists user status limit) = some user
caller (marks_asked user id key) = some user
caller (dismissals user id) = some user
caller (reconciles user) = some user

-- The rows of the other owners.
abbrev pub others : String → List Question → List Question
others user rows = filter (λ r. not (owned user r)) rows

others-update :
    (user : String) (p : Question → Bool) (f : Question → Question)
    → ((r : Question) → p r ≡ true → owned user r ≡ true)
    → ((r : Question) → owned user (f r) ≡ owned user r)
    → (rows : List Question) → others user (update p f rows) ≡ others user rows
others-update user p f own same [] = refl
others-update user p f own same (r ∷ rs) =
    let rest = others-update user p f own same rs in
    elim (Bool-cases (p r)) [
      | inl e ↦ rw (e, same r, own r e) rest
      | inr e ↦ elim (Bool-cases (not (owned user r))) [
        | inl g ↦ rw (e, g) (ap (◌∷◌ r) rest)
        | inr g ↦ rw (e, g) rest
      ]
    ]

others-delete :
    (user : String) (p : Question → Bool)
    → ((r : Question) → p r ≡ true → owned user r ≡ true)
    → (rows : List Question) → others user (delete p rows) ≡ others user rows
others-delete user p own [] = refl
others-delete user p own (r ∷ rs) =
    let rest = others-delete user p own rs in
    elim (Bool-cases (p r)) [
      | inl e ↦ rw (e, own r e) rest
      | inr e ↦ elim (Bool-cases (not (owned user r))) [
        | inl g ↦ rw (e, g) (ap (◌∷◌ r) rest)
        | inr g ↦ rw (e, g) rest
      ]
    ]

reconcile_row-owned :
    (user : String) (w : World) (now : ℕ) (r : Question)
    → owned user (reconcile_row w now r) ≡ owned user r
unfolding reconcile_row
reconcile_row-owned user w now r = elim (Bool-cases (is_stale w r)) [
  | inl e ↦
      elim (Bool-cases
        (w.forgotten r.user_id r.memory_a_id || w.forgotten r.user_id r.memory_b_id)) [
          | inl f ↦ rw (e, f) refl
          | inr f ↦ rw (e, f) refl
        ]
  | inr e ↦ elim (Bool-cases (leb r.expires_at now)) [
    | inl f ↦ rw (e, f) refl
    | inr f ↦ rw (e, f) refl
  ]
]

others-reconcile :
    (w : World) (now : ℕ) (user : String) (rows : List Question)
    → others user (reconcile_user w now user rows) ≡ others user rows
unfolding reconcile_user
others-reconcile w now user rows =
    others-delete user (λ r. owned user r && is_prunable now r) (λ r h. ground arith) _
    ∙ others-update user (λ r. owned user r && is_active r.status) (reconcile_row w now)
        (λ r h. ground arith) (reconcile_row-owned user w now) rows

others-mark_asked :
    (w : World) (now : ℕ) (user id key : String) (rows : List Question)
    → others user (mark_asked w now user id key rows).0 ≡ others user rows
unfolding mark_asked
others-mark_asked w now user id key rows =
    let same =
      others-update user (asks user id) (ask now key) (λ r h. ground arith) (λ r. refl)
        (reconcile_user w now user rows)
      ∙ others-reconcile w now user rows in
    elim (Bool-cases (count (asks user id) (reconcile_user w now user rows) == 1)) [
      | inl e ↦ rw e same
      | inr e ↦ rw e same
    ]

others-dismiss :
    (w : World) (now : ℕ) (user id : String) (rows : List Question)
    → others user (dismiss w now user id rows).0 ≡ others user rows
unfolding dismiss
others-dismiss w now user id rows =
    let same =
      others-update user (dismisses user id) (set_dismissed now) (λ r h. ground arith) (λ r. refl)
        (reconcile_user w now user rows)
      ∙ others-reconcile w now user rows in
    elim (Bool-cases (count (dismisses user id) (reconcile_user w now user rows) == 1)) [
      | inl e ↦ rw e same
      | inr e ↦ rw e same
    ]

-- A call made for one owner leaves the rows of all others as they are, in their order, whatever id it
-- names: every call but `insertCandidate`, which tidies every owner's rows.
pub step-others :
    (w : World) (now : ℕ) (c : Call) (rows : List Question) (user : String)
    → caller c ≡ some user
    → others user (step w now c rows) ≡ others user rows
unfolding next_pending list_questions
step-others w now (inserts id c) rows user e = ground arith
step-others w now (nexts u) rows user e =
    let q : u ≡ user = ground arith in rw q (others-reconcile w now user rows)
step-others w now (lists u s l) rows user e =
    let q : u ≡ user = ground arith in rw q (others-reconcile w now user rows)
step-others w now (marks_asked u id key) rows user e =
    let q : u ≡ user = ground arith in rw q (others-mark_asked w now user id key rows)
step-others w now (dismissals u id) rows user e =
    let q : u ≡ user = ground arith in rw q (others-dismiss w now user id rows)
step-others w now (reconciles u) rows user e =
    let q : u ≡ user = ground arith in rw q (others-reconcile w now user rows)
