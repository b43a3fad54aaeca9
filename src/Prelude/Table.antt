-- ===== src/Prelude/Table.antt =====
-- A table of a relational store as the list of its rows in rowid order, and the statements that the
-- program issues against it: SELECT, UPDATE … WHERE, DELETE … WHERE and the count of rows changed.

use Prim.Native.Nat.{ℕ, suc, ◌+◌, ◌≤◌}
use mathlib.Core.Path.{◌≡◌, refl}
use mathlib.Core.Bool.{Bool, true, false, ◌&&◌}
use mathlib.Core.Option.{Option, none, some}
use mathlib.Core.List.{List, [], ◌∷◌, ◌++◌}
use mathlib.Core.Logic.{inl, inr}
use native.Mathlib.Omega.{arith}
use abmind.Prelude.Test.{if◌then◌else◌, Bool-cases}

module _ {ℓ} {A : Type ℓ} where
  -- SELECT … WHERE p, the first row.
  abbrev pub select : (A → Bool) → List A → Option A
  select p [] = none
  select p (r ∷ rs) = if p r then some r else select p rs

  -- UPDATE … SET f WHERE p.
  abbrev pub update : (A → Bool) → (A → A) → List A → List A
  update p f [] = []
  update p f (r ∷ rs) = (if p r then f r else r) ∷ update p f rs

  -- DELETE … WHERE p.
  abbrev pub delete : (A → Bool) → List A → List A
  delete p [] = []
  delete p (r ∷ rs) = if p r then delete p rs else r ∷ delete p rs

  -- SELECT COUNT(*) … WHERE p, and the rows that an UPDATE … WHERE p changes.
  abbrev pub count : (A → Bool) → List A → ℕ
  count p [] = 0
  count p (r ∷ rs) = if p r then suc (count p rs) else count p rs

  pub count-append : (p : A → Bool) (xs ys : List A) → count p (xs ++ ys) ≡ count p xs + count p ys
  count-append p [] ys = omega arith
  count-append p (x ∷ xs) ys = ground (arith, count-append p xs ys)

  pub count-none : (p : A → Bool) (xs : List A) → select p xs ≡ none → count p xs ≡ 0
  count-none p [] h = refl
  count-none p (x ∷ xs) h = ground (arith, count-none p xs)

  pub select-none : (p : A → Bool) (xs : List A) → count p xs ≡ 0 → select p xs ≡ none
  select-none p [] h = refl
  select-none p (x ∷ xs) h = ground (arith, select-none p xs)

  pub select_holds : (p : A → Bool) (xs : List A) (r : A) → select p xs ≡ some r → p r ≡ true
  select_holds p [] r h = ground arith
  select_holds p (x ∷ xs) r h = ground (arith, select_holds p xs r)

  pub select-append_none :
      (p : A → Bool) (xs ys : List A) → select p xs ≡ none → select p (xs ++ ys) ≡ select p ys
  select-append_none p [] ys h = refl
  select-append_none p (x ∷ xs) ys h = ground (arith, select-append_none p xs ys)

  pub select-append_some :
      (p : A → Bool) (xs ys : List A) (r : A) → select p xs ≡ some r → select p (xs ++ ys) ≡ some r
  select-append_some p [] ys r h = ground arith
  select-append_some p (x ∷ xs) ys r h = ground (arith, select-append_some p xs ys r)

  pub count-delete-le : (q p : A → Bool) (xs : List A) → count q (delete p xs) ≤ count q xs
  count-delete-le q p [] = omega arith
  count-delete-le q p (x ∷ xs) = ground (arith, count-delete-le q p xs)

  -- A row that is not deleted is found as before, where the key picks one row at most.
  pub select-delete_kept :
      (q p : A → Bool) (xs : List A) (r : A)
      → select q xs ≡ some r
      → p r ≡ false
      → select q (delete p xs) ≡ some r
  select-delete_kept q p [] r h k = ground arith
  select-delete_kept q p (x ∷ xs) r h k = ground (arith, select-delete_kept q p xs r)

  pub select-delete-none :
      (q p : A → Bool) (xs : List A) → select q xs ≡ none → select q (delete p xs) ≡ none
  select-delete-none q p [] h = refl
  select-delete-none q p (x ∷ xs) h = ground (arith, select-delete-none q p xs)

module _ {ℓ} {A : Type ℓ} (q p : A → Bool) where
  -- Where the key picks one row at most, deleting that row leaves none.
  pub select-delete_gone :
      (xs : List A) (r : A)
      → count q xs ≤ 1
      → select q xs ≡ some r
      → p r ≡ true
      → select q (delete p xs) ≡ none
  select-delete_gone [] r u h k = refl
  select-delete_gone (x ∷ xs) r u h k = elim (Bool-cases (q x)) [
    | inl hit ↦ ground (arith, select-none q xs, select-delete-none q p xs)
    | inr miss ↦ ground (arith, select-delete_gone xs r)
  ]

  -- A deleted row at the end leaves none where the rows before it have none.
  pub select-delete-append :
      (xs : List A) (x : A)
      → select q xs ≡ none
      → p x ≡ true
      → select q (delete p (xs ++ x ∷ [])) ≡ none
  select-delete-append [] x e h = ground arith
  select-delete-append (y ∷ ys) x e h = ground (arith, select-delete-append ys x)

-- Statements that keep the key `q` of each row.
module _ {ℓ} {A : Type ℓ} (q p : A → Bool) (f : A → A) (keeps : (r : A) → q (f r) ≡ q r) where
  pub count-update : (xs : List A) → count q (update p f xs) ≡ count q xs
  count-update [] = refl
  count-update (x ∷ xs) = ground (arith, count-update xs, keeps x)

  pub select-update_hit :
      (xs : List A) (r : A)
      → select q xs ≡ some r
      → p r ≡ true
      → select q (update p f xs) ≡ some (f r)
  select-update_hit [] r h k = ground arith
  select-update_hit (x ∷ xs) r h k = ground (arith, select-update_hit xs r, keeps x)

  pub select-update_miss :
      (xs : List A) (r : A) → select q xs ≡ some r → p r ≡ false → select q (update p f xs) ≡ some r
  select-update_miss [] r h k = ground arith
  select-update_miss (x ∷ xs) r h k = ground (arith, select-update_miss xs r, keeps x)

  pub select-update-none : (xs : List A) → select q xs ≡ none → select q (update p f xs) ≡ none
  select-update-none [] h = refl
  select-update-none (x ∷ xs) h = ground (arith, select-update-none xs, keeps x)

-- Rows picked by a key and a test, where the key picks one row at most.
module _ {ℓ} {A : Type ℓ} (q s : A → Bool) where
  pub count-and_none : (xs : List A) → select q xs ≡ none → count (λ r. q r && s r) xs ≡ 0
  count-and_none [] h = refl
  count-and_none (x ∷ xs) h = ground (arith, count-and_none xs)

  pub count-and_some :
      (xs : List A) (r : A)
      → count q xs ≤ 1
      → select q xs ≡ some r
      → count (λ r. q r && s r) xs ≡ (if s r then 1 else 0)
  count-and_some [] r u h = ground arith
  count-and_some (x ∷ xs) r u h = elim (Bool-cases (q x)) [
    | inl hit ↦ ground (arith, count-and_none xs, select-none q xs)
    | inr miss ↦ ground (arith, count-and_some xs r)
  ]
