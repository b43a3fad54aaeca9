-- ===== src/Operational/Pages/Walk.antt =====
-- src/operational-memory-service.ts: the pages of listDrafts, one after the other.
use abmind.Prelude.{
  ℕ, zero, suc, ◌≤◌, ◌≡◌, refl, sym, ap, ◌∙◌, String, Bool, true, false, ◌&&◌, Option, none, some,
  List, [], ◌∷◌, ◌++◌, ltb, leb, length, filter, arith, inl, inr, Bool-cases, All, filter_id,
  length-append, length-filter-le,
}
use text.Mathlib.TextPositions.{eq_refl}
use abmind.OperationalTypes.{Draft, DraftStatus, Env, id_max}
use abmind.Operational.Pages.{
  Key, Given, readable, Codec, Paged, invalid, missing, page, page_limit, older, after, accept,
  draft_key, draft_cursor, has_status, fingerprint_of, list_drafts,
}
use abmind.Operational.Pages.Filling.{append_assoc, Fills, ends, breaks, Fits, page_of-Fills}

-- Newest first: every row is older than those before it.
module _ {A : Type 0} (codec : Codec A) (key : A → Key) where
  abbrev pub IsSorted : List A → Type 0
  IsSorted [] = Unit
  IsSorted (x ∷ xs) = All (λ y. older codec key (key x) y ≡ true) xs × IsSorted xs

  filter_all : (p : A → Bool) (xs : List A) → All (λ x. p x ≡ true) xs → filter p xs ≡ xs
  filter_all p [] h = refl
  filter_all p (x ∷ xs) h = rw (h.0) (ap (◌∷◌ x) (filter_all p xs h.1))

  All-filter : (P : A → Type 0) (p : A → Bool) (xs : List A) → All P xs → All P (filter p xs)
  All-filter P p [] h = tt
  All-filter P p (x ∷ xs) h = elim (Bool-cases (p x)) [
    | inl e ↦ rw e (h.0, All-filter P p xs h.1)
    | inr e ↦ rw e (All-filter P p xs h.1)
  ]

  filter-IsSorted : (p : A → Bool) (xs : List A) → IsSorted xs → IsSorted (filter p xs)
  filter-IsSorted p [] h = tt
  filter-IsSorted p (x ∷ xs) h = elim (Bool-cases (p x)) [
    | inl e ↦
        rw e (All-filter (λ y. older codec key (key x) y ≡ true) p xs h.0, filter-IsSorted p xs h.1)
    | inr e ↦ rw e (filter-IsSorted p xs h.1)
  ]

  All-at : (P : A → Type 0) (ys : List A) (x : A) (zs : List A) → All P (ys ++ x ∷ zs) → P x
  All-at P [] x zs h = h.0
  All-at P (y ∷ ys) x zs h = All-at P ys x zs h.1

  All-after : (P : A → Type 0) (ys zs : List A) → All P (ys ++ zs) → All P zs
  All-after P [] zs h = h
  All-after P (y ∷ ys) zs h = All-after P ys zs h.1

  module _ (asym : (a b : String) → codec.id_before a b ≡ true → codec.id_before b a ≡ false) where
    newer : (x y : A) → older codec key (key y) x ≡ true → older codec key (key x) y ≡ false
    newer x y h = ground (arith, h, asym (key x).id (key y).id)

    not_self : (x : A) → older codec key (key x) x ≡ false
    not_self x = elim (Bool-cases (older codec key (key x) x)) [ inl e ↦ newer x x e | inr e ↦ e ]

    -- What is left after a row.
    filter-after :
        (ys : List A) (x : A) (zs : List A)
        → IsSorted (ys ++ x ∷ zs)
        → filter (older codec key (key x)) (ys ++ x ∷ zs) ≡ zs
    filter-after [] x zs h = rw (not_self x) (filter_all (older codec key (key x)) zs h.0)
    filter-after (y ∷ ys) x zs h =
        rw (newer x y (All-at (λ z. older codec key (key y) z ≡ true) ys x zs h.0))
          (filter-after ys x zs h.1)

-- A client that follows the cursors, for n pages at most: none if a page is refused or there are more.
abbrev pub follow : Paged Draft → (Option Given → Option (List Draft)) → Option (List Draft)
follow invalid onward = none
follow missing onward = none
follow (page items none) onward = some items
follow (page items (some c)) onward = elim (onward (some (readable c))) [
  | none ↦ none
  | some others ↦ some (items ++ others)
]

abbrev pub walk :
    Codec Draft
    → Env
    → Option DraftStatus
    → Option ℕ
    → List Draft
    → ℕ
    → Option Given
    → Option (List Draft)
walk codec env status limit drafts zero given = none
walk codec env status limit drafts (suc n) given =
    follow (list_drafts codec env status limit given drafts)
      (λ next. walk codec env status limit drafts n next)

-- The id of a row has from 1 to 128 bytes.
abbrev pub HasId : Env → Draft → Type 0
HasId env d = (ltb 0 (env.bytes d.id) && leb (env.bytes d.id) id_max) ≡ true

accept-own :
    (env : Env) (status : Option DraftStatus) (d : Draft)
    → HasId env d
    → accept env.bytes
        (fingerprint_of status)
        none
        (some (readable (draft_cursor status (draft_key d))))
      ≡ some (some (draft_key d))
unfolding accept
accept-own env status d h = rw (eq_refl (fingerprint_of status), h) refl

accept-first : (bytes : String → ℕ) (f : String) → accept bytes f none none ≡ some none
unfolding accept
accept-first bytes f = refl

page_limit-positive : (limit : Option ℕ) (m : ℕ) → page_limit limit ≡ some m → 1 ≤ m
unfolding page_limit
page_limit-positive limit m h = ground (arith, h)

module _ (codec : Codec Draft) (env : Env) (status : Option DraftStatus) (limit : Option ℕ) (n : ℕ)
    (drafts : List Draft) (limited : page_limit limit ≡ some (suc n))
    (asym : (a b : String) → codec.id_before a b ≡ true → codec.id_before b a ≡ false) where
  abbrev rows : List Draft
  rows = filter (has_status status) drafts

  abbrev cursor_of : Draft → Option Given
  cursor_of d = some (readable (draft_cursor status (draft_key d)))

  onward :
      (fuel : ℕ) (xs : List Draft)
      → ((ys : List Draft) (x z : Draft) (zs : List Draft)
          → xs ≡ (ys ++ x ∷ []) ++ z ∷ zs
          → walk codec env status limit drafts fuel (cursor_of x) ≡ some (z ∷ zs))
      → (r : Paged Draft) → Fills codec draft_key (draft_cursor status) xs r
      → follow r (λ next. walk codec env status limit drafts fuel next) ≡ some xs
  onward fuel xs ih r ends = refl
  onward fuel xs ih r (breaks ys x z zs e) = rw (follow, ih ys x z zs e) (ap some (sym e))

  walk-page :
      (fuel : ℕ) (xs : List Draft) (given : Option Given) (k : Option Key)
      → accept env.bytes (fingerprint_of status) none given ≡ some k
      → filter (after codec draft_key k) rows ≡ xs
      → All (Fits codec draft_key (draft_cursor status)) xs
      → ((ys : List Draft) (x z : Draft) (zs : List Draft)
          → xs ≡ (ys ++ x ∷ []) ++ z ∷ zs
          → walk codec env status limit drafts fuel (cursor_of x) ≡ some (z ∷ zs))
      → walk codec env status limit drafts (suc fuel) given ≡ some xs
  unfolding list_drafts
  walk-page fuel xs given k accepted left fitting ih =
      rw (limited, accepted, left)
        (onward fuel xs ih _ (page_of-Fills codec draft_key (draft_cursor status) n xs fitting))

  module _ (ids : All (HasId env) rows) (sorted : IsSorted codec draft_key rows) where
    left_of :
        (ps ys : List Draft) (x z : Draft) (zs : List Draft)
        → rows ≡ ps ++ ((ys ++ x ∷ []) ++ z ∷ zs)
        → rows ≡ (ps ++ ys) ++ x ∷ z ∷ zs
    left_of ps ys x z zs e =
        e
        ∙ ap (λ l. ps ++ l) (append_assoc ys (x ∷ []) (z ∷ zs))
        ∙ sym (append_assoc ps ys (x ∷ z ∷ zs))

    walk-rest :
        (fuel : ℕ) (ps xs : List Draft) (given : Option Given) (k : Option Key)
        → accept env.bytes (fingerprint_of status) none given ≡ some k
        → filter (after codec draft_key k) rows ≡ xs
        → rows ≡ ps ++ xs
        → All (Fits codec draft_key (draft_cursor status)) xs
        → length xs ≤ fuel
        → walk codec env status limit drafts (suc fuel) given ≡ some xs
    walk-rest zero ps xs given k accepted left split fitting short =
        walk-page zero xs given k accepted left fitting (λ ys x z zs e.
          absurd (omega (arith, short, ap length e, length-append (ys ++ x ∷ []) (z ∷ zs))))
    walk-rest (suc fuel) ps xs given k accepted left split fitting short =
        walk-page (suc fuel) xs given k accepted left fitting (λ ys x z zs e.
          let at : rows ≡ (ps ++ ys) ++ x ∷ z ∷ zs =
            left_of ps ys x z zs (split ∙ ap (λ l. ps ++ l) e) in
          let own : HasId env x =
            All-at codec draft_key (HasId env) (ps ++ ys) x (z ∷ zs) (rw at at ids) in
          let kept : IsSorted codec draft_key ((ps ++ ys) ++ x ∷ z ∷ zs) = rw at at sorted in
          walk-rest fuel (ps ++ (ys ++ x ∷ [])) (z ∷ zs) (cursor_of x) (some (draft_key x))
            (accept-own env status x own)
            (rw at (filter-after codec draft_key asym (ps ++ ys) x (z ∷ zs) kept))
            (split ∙ ap (λ l. ps ++ l) e ∙ sym (append_assoc ps (ys ++ x ∷ []) (z ∷ zs)))
            (All-after codec draft_key (Fits codec draft_key (draft_cursor status)) (ys ++ x ∷ [])
              (z ∷ zs) (rw e at fitting))
            (omega (
              arith,
              short,
              ap length e,
              length-append (ys ++ x ∷ []) (z ∷ zs),
              length-append ys (x ∷ []),
            )))

-- Following the cursors of `listDrafts` from its first page gives every draft of the status exactly once
-- and newest first, and ends within as many pages as there are drafts and one. The limit is one that is
-- accepted, the drafts are in the order of the query, which is strict, with ids of 1 to 128 bytes, and
-- each of them makes a page that is not too big, on its own and with its cursor.
pub walk-all :
    (codec : Codec Draft) (env : Env) (status : Option DraftStatus) (limit : Option ℕ) (m : ℕ)
    (drafts : List Draft)
    → page_limit limit ≡ some m
    → All (Fits codec draft_key (draft_cursor status)) drafts
    → ((a b : String) → codec.id_before a b ≡ true → codec.id_before b a ≡ false)
    → All (HasId env) drafts
    → IsSorted codec draft_key drafts
    → walk codec env status limit drafts (suc (length drafts)) none
      ≡ some (filter (has_status status) drafts)
walk-all codec env status limit zero drafts limited fits asym ids sorted =
    absurd (omega (arith, page_limit-positive limit 0 limited))
walk-all codec env status limit (suc n) drafts limited fits asym ids sorted =
    walk-rest codec env status limit n drafts limited asym
      (All-filter codec draft_key (HasId env) (has_status status) drafts ids)
      (filter-IsSorted codec draft_key (has_status status) drafts sorted) (length drafts) []
      (filter (has_status status) drafts) none none first
      (filter_id (λ d. true) (filter (has_status status) drafts) (λ d. refl)) refl
      (All-filter codec draft_key (Fits codec draft_key (draft_cursor status)) (has_status status)
        drafts fits)
      (length-filter-le (has_status status) drafts)
  where
    first : accept env.bytes (fingerprint_of status) none none ≡ some none
    first = accept-first env.bytes (fingerprint_of status)
