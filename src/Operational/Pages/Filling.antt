-- ===== src/Operational/Pages/Filling.antt =====
-- src/operational-memory-service.ts: what the loop over the rows of a page makes of them.
use abmind.Prelude.{
  ℕ, zero, suc, ◌+◌, ◌≤◌, ◌≡◌, refl, ap, Bool, true, false, ◌||◌, not, Option, none, some, List, [],
  ◌∷◌, ◌++◌, ltb, length, take, drop, arith, inl, inr, Bool-cases, length-append, All,
}
use abmind.Operational.Pages.{
  Key, Cursor, Codec, Paged, page, page_serialized_max, last_key, cursor_at, cut, fill, page_of,
}

abbrev nil : {A : Type 0} → List A → Bool
nil [] = true
nil (x ∷ xs) = false

module _ {A : Type 0} where
  append_nil : (xs : List A) → xs ++ [] ≡ xs
  append_nil [] = refl
  append_nil (x ∷ xs) = ap (◌∷◌ x) (append_nil xs)

  pub append_assoc : (xs ys zs : List A) → (xs ++ ys) ++ zs ≡ xs ++ (ys ++ zs)
  append_assoc [] ys zs = refl
  append_assoc (x ∷ xs) ys zs = ap (◌∷◌ x) (append_assoc xs ys zs)

  take-take : (n : ℕ) (xs : List A) → take n (take (suc n) xs) ≡ take n xs
  take-take zero xs = refl
  take-take (suc n) [] = refl
  take-take (suc n) (x ∷ xs) = ap (◌∷◌ x) (take-take n xs)

  more_iff : (n : ℕ) (xs : List A) → ltb n (length (take (suc n) xs)) ≡ not (nil (drop n xs))
  more_iff zero [] = refl
  more_iff zero (x ∷ xs) = refl
  more_iff (suc n) [] = ground arith
  more_iff (suc n) (x ∷ xs) = ground (arith, more_iff n xs)

  no_more :
      (n : ℕ) (xs : List A) → nil (drop n xs) ≡ true → length (take (suc n) xs) ≡ length (take n xs)
  no_more zero [] h = refl
  no_more zero (x ∷ xs) h = absurd (ground (arith, h))
  no_more (suc n) [] h = refl
  no_more (suc n) (x ∷ xs) h = ap suc (no_more n xs h)

  All-take : (P : A → Type 0) (n : ℕ) (xs : List A) → All P xs → All P (take n xs)
  All-take P zero xs h = tt
  All-take P (suc n) [] h = tt
  All-take P (suc n) (x ∷ xs) h = (h.0, All-take P n xs h.1)

  take-drop : (n : ℕ) (xs : List A) → take n xs ++ drop n xs ≡ xs
  take-drop zero xs = refl
  take-drop (suc n) [] = refl
  take-drop (suc n) (x ∷ xs) = ap (◌∷◌ x) (take-drop n xs)

  take-nil : (n : ℕ) (xs : List A) → nil (take (suc n) xs) ≡ true → nil (drop (suc n) xs) ≡ true
  take-nil n [] h = refl
  take-nil n (x ∷ xs) h = absurd (ground (arith, h))

module _ {A : Type 0} (codec : Codec A) (key : A → Key) (cursor : Key → Cursor) where
  -- A page is the whole of what is left, or a part that is not empty, with the cursor of its last row.
  pub data Fills (xs : List A) : Paged A → Type 0 where
    ends : Fills xs (page xs none)
    breaks :
        (ys : List A) (x z : A) (zs : List A)
        → xs ≡ (ys ++ x ∷ []) ++ z ∷ zs
        → Fills xs (page (ys ++ x ∷ []) (some (cursor (key x))))

  abbrev next_of : A → List A → Option Cursor
  next_of x rest = cursor_at codec key cursor (not (nil rest)) x

  data Filled (rows rest : List A) : List A → Option Cursor → Type 0 where
    at_start : (nil rows ≡ true → nil rest ≡ true) → Filled rows rest [] none
    after_row : (ys : List A) (x : A) → Filled rows rest (ys ++ x ∷ []) (next_of x (rows ++ rest))

  last_key-append : (ys : List A) (x : A) → last_key codec key (ys ++ x ∷ []) ≡ some (key x)
  last_key-append [] x = refl
  last_key-append (y ∷ []) x = refl
  last_key-append (y ∷ z ∷ zs) x = last_key-append (z ∷ zs) x

  more_here :
      (more : Bool) (total n : ℕ) (ds rest : List A)
      → more ≡ not (nil rest)
      → (nil rest ≡ true → total ≡ n + suc (length ds))
      → (more || ltb (n + 1) total) ≡ not (nil (ds ++ rest))
  more_here more total n [] [] m t = ground (arith, m, t refl)
  more_here more total n [] (z ∷ zs) m t = ground (arith, m)
  more_here more total n (d ∷ ds) [] m t = ground (arith, m, t refl)
  more_here more total n (d ∷ ds) (z ∷ zs) m t = ground (arith, m)

  -- The row makes a page of its own, with its cursor or without one.
  pub record Fits (x : A) : Type 0 where
    pub alone : codec.page_bytes (x ∷ []) none ≤ page_serialized_max
    pub onward : codec.page_bytes (x ∷ []) (some (cursor (key x))) ≤ page_serialized_max

  -- A row that does not fit ends the page before it.
  cut-Fills :
      (d : A) (ds rest items : List A) (next : Option Cursor) (more : Bool)
      → Fits d
      → Filled (d ∷ ds) rest items next
      → ltb page_serialized_max
          (codec.page_bytes (items ++ d ∷ []) (cursor_at codec key cursor more d))
        ≡ true
      → Fills (items ++ d ∷ (ds ++ rest)) (cut codec key cursor items (last_key codec key items))
  cut-Fills d ds rest items next true f (at_start h) big = absurd (ground (arith, f.onward, big))
  cut-Fills d ds rest items next false f (at_start h) big = absurd (ground (arith, f.alone, big))
  cut-Fills d ds rest items next more f (after_row ys x) big =
      rw (last_key-append ys x) (breaks ys x d (ds ++ rest) refl)

  fill-Fills :
      (more : Bool) (total : ℕ) (items : List A) (next : Option Cursor) (rows rest : List A)
      → more ≡ not (nil rest)
      → (nil rest ≡ true → total ≡ length items + length rows)
      → All Fits rows
      → Filled rows rest items next
      → Fills (items ++ (rows ++ rest)) (fill codec key cursor more total items next rows)
  unfolding fill
  fill-Fills more total items next [] [] m t f (at_start h) = ends
  fill-Fills more total items next [] [] m t f (after_row ys x) =
      rw (append_nil (ys ++ x ∷ [])) ends
  fill-Fills more total items next [] (z ∷ zs) m t f (at_start h) = absurd (ground (arith, h refl))
  fill-Fills more total items next [] (z ∷ zs) m t f (after_row ys x) = breaks ys x z zs refl
  fill-Fills more total items next (d ∷ ds) rest m t f b =
      let here = more_here more total (length items) ds rest m t in
      let fewer : nil rest ≡ true → total ≡ length (items ++ d ∷ []) + length ds =
        λ h. omega (arith, t h, length-append items (d ∷ [])) in
      let later : Fills (items ++ d ∷ (ds ++ rest))
          (fill codec key cursor more total (items ++ d ∷ []) (next_of d (ds ++ rest)) ds) =
        rw (← append_assoc items (d ∷ []) (ds ++ rest)) (
          fill-Fills more total (items ++ d ∷ []) (next_of d (ds ++ rest)) ds rest m fewer f.1
            (after_row items d)) in
      let c = next_of d (ds ++ rest) in
      rw here (elim (Bool-cases (ltb page_serialized_max (codec.page_bytes (items ++ d ∷ []) c))) [
        | inl big ↦ rw big (cut-Fills d ds rest items next (not (nil (ds ++ rest))) f.0 b big)
        | inr small ↦ rw small later
      ])

  pub page_of-Fills :
      (n : ℕ) (xs : List A)
      → All Fits xs
      → Fills xs (page_of codec key cursor (suc n) (take (suc (suc n)) xs))
  unfolding page_of
  page_of-Fills n xs fitting = rw (take-take (suc n) xs) (
      subst_rows (
        fill-Fills (ltb (suc n) (length (take (suc (suc n)) xs))) (length (take (suc (suc n)) xs))
          [] none (take (suc n) xs) (drop (suc n) xs) (more_iff (suc n) xs)
          (λ h. omega (arith, no_more (suc n) xs h)) (All-take Fits (suc n) xs fitting)
          (at_start (take-nil n xs))))
    where
      subst_rows : {r : Paged A} → Fills (take (suc n) xs ++ drop (suc n) xs) r → Fills xs r
      subst_rows f = rw (take-drop (suc n) xs) at f
