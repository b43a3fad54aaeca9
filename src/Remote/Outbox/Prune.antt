-- ===== src/Remote/Outbox/Prune.antt =====
-- src/remote/request-outbox.ts: `counts` and `pruneTerminalUnknown`.
use text.Mathlib.TextPositions.{eq_refl}
use abmind.Prelude.{
  ℕ, ◌+◌, ◌≤◌, ◌≡◌, ◌≢◌, refl, sym, ◌∙◌, inl, inr, String, Bool, true, false, Option, none, some,
  List, [], ◌∷◌, arith, length, filter, if◌then◌else◌, Bool-cases, str_eq, eq_iff, not, All,
  All-map, All-map₂, All-filter-Among, filter_id, Among, ltb,
}
use abmind.Prelude.Table.{count}
use abmind.Remote.Outbox.{
  Entry, Outbox, is_terminal, Counts, earlier, counts, counts_from, tally, drops, kept_next,
  dropped, contains, terminal_max_entries, terminal_retention_ms, Disk, prune_terminal_unknown,
  is_nil,
}
use abmind.Remote.Outbox.Delivery.{commit-true}

tally-sum :
    (c : Counts) (e : Entry)
    → (tally c e).retry_eligible + (tally c e).terminal_unknown
      ≡ c.retry_eligible + c.terminal_unknown + 1
unfolding tally
tally-sum c e = ground arith

counts_from-sum :
    (c : Counts) (es : List Entry)
    → (counts_from c es).retry_eligible + (counts_from c es).terminal_unknown
      ≡ c.retry_eligible + c.terminal_unknown + length es
unfolding counts_from
counts_from-sum c [] = omega arith
counts_from-sum c (e ∷ es) = omega (arith, counts_from-sum (tally c e) es, tally-sum c e)

tally-terminal :
    (c : Counts) (e : Entry)
    → (tally c e).terminal_unknown ≡ c.terminal_unknown + (if is_terminal e.state then 1 else 0)
unfolding tally
tally-terminal c e = ground arith

abbrev pub terminal : Entry → Bool
terminal e = is_terminal e.state

counts_from-terminal :
    (c : Counts) (es : List Entry)
    → (counts_from c es).terminal_unknown ≡ c.terminal_unknown + count terminal es
unfolding counts_from
counts_from-terminal c [] = omega arith
counts_from-terminal c (e ∷ es) =
    ground (arith, counts_from-terminal (tally c e) es, tally-terminal c e)

-- No later than a scheduled attempt.
abbrev pub Reaches : Option ℕ → Option ℕ → Type 0
Reaches acc none = Unit
Reaches none (some t) = ⊥
Reaches (some a) (some t) = a ≤ t

Reaches-earlier : (acc n x : Option ℕ) → Reaches acc x → Reaches (earlier acc n) x
Reaches-earlier acc n none h = tt
Reaches-earlier none n (some t) h = absurd h
Reaches-earlier (some a) none (some t) h = h
Reaches-earlier (some a) (some b) (some t) h = elim (Bool-cases (ltb b a)) [
  | inl lt ↦ rw lt (ground arith)
  | inr ge ↦ rw ge h
]

Reaches-earlier_new : (acc n : Option ℕ) → Reaches (earlier acc n) n
Reaches-earlier_new acc none = tt
Reaches-earlier_new none (some t) = omega arith
Reaches-earlier_new (some a) (some t) = elim (Bool-cases (ltb t a)) [
  | inl lt ↦ rw lt (omega arith)
  | inr ge ↦ rw ge (ground arith)
]

tally-Reaches :
    (c : Counts) (e : Entry) (x : Option ℕ)
    → Reaches c.next_attempt_at x
    → Reaches (tally c e).next_attempt_at x
unfolding tally
tally-Reaches c e x h = elim (Bool-cases (is_terminal e.state)) [
  | inl t ↦ rw t h
  | inr f ↦ rw f (Reaches-earlier c.next_attempt_at e.next_attempt_at x h)
]

tally-Reaches_new :
    (c : Counts) (e : Entry)
    → is_terminal e.state ≡ false
    → Reaches (tally c e).next_attempt_at e.next_attempt_at
unfolding tally
tally-Reaches_new c e f = rw f (Reaches-earlier_new c.next_attempt_at e.next_attempt_at)

counts_from-Reaches :
    (c : Counts) (es : List Entry) (x : Option ℕ)
    → Reaches c.next_attempt_at x
    → Reaches (counts_from c es).next_attempt_at x
unfolding counts_from
counts_from-Reaches c [] x h = h
counts_from-Reaches c (e ∷ es) x h = counts_from-Reaches (tally c e) es x (tally-Reaches c e x h)

counts_from-All :
    (c : Counts) (es : List Entry)
    → All
        (λ e.
          is_terminal e.state ≡ false
          → Reaches (counts_from c es).next_attempt_at e.next_attempt_at)
        es
unfolding counts_from
counts_from-All c [] = tt
counts_from-All c (e ∷ es) = (
  λ f. counts_from-Reaches (tally c e) es e.next_attempt_at (tally-Reaches_new c e f),
  counts_from-All (tally c e) es,
)

-- `counts` divides the entries: the retry-eligible and the terminal ones add up to all, the terminal
-- count is the number of entries in `terminal_unknown`, and `nextAttemptAt` is present and no later
-- than the next attempt of any other entry that has one.
pub counts_partition :
    (o : Outbox)
    → ((counts o).retry_eligible + (counts o).terminal_unknown ≡ length o.entries)
      × ((counts o).terminal_unknown ≡ count terminal o.entries)
      × All
          (λ e. is_terminal e.state ≡ false → Reaches (counts o).next_attempt_at e.next_attempt_at)
          o.entries
unfolding counts
counts_partition o = (
  counts_from-sum _ o.entries ∙ omega arith,
  counts_from-terminal _ o.entries ∙ omega arith,
  counts_from-All _ o.entries,
)

contains_self : (xs : List String) → All (λ j. contains j xs ≡ true) xs
unfolding contains
contains_self [] = tt
contains_self (x ∷ xs) =
    (rw (eq_refl x) refl, All-map (λ j h. ground (arith, h)) xs (contains_self xs))

module _ (P : String → Type 0) where
  All-if_tail :
      (b : Bool) (i : String) (is : List String) → All P (if b then i ∷ is else is) → All P is
  All-if_tail true i is h = h.1
  All-if_tail false i is h = h

  All-if_head :
      (b : Bool) (i : String) (is : List String) → b ≡ true → All P (if b then i ∷ is else is) → P i
  All-if_head true i is e h = h.0
  All-if_head false i is e h = absurd (ground arith)

str_ne : (a b : String) → a ≢ b → str_eq a b ≡ false
str_ne a b ne = elim (Bool-cases (str_eq a b)) [
  | inl same ↦ absurd (ne ((eq_iff a b).0 same))
  | inr other ↦ other
]

module _ (now : ℕ) (ids : List String) where
  abbrev stays : Entry → Bool
  stays e = not (contains e.id ids)

  -- The loop keeps fifty terminal records at most, and none that is past retention.
  dropped-count :
      (kept : ℕ) (es : List Entry)
      → All (λ j. contains j ids ≡ true) (dropped now kept es)
      → kept ≤ terminal_max_entries
      → kept + count terminal (filter stays es) ≤ terminal_max_entries
  unfolding dropped
  dropped-count kept [] h k = omega arith
  dropped-count kept (e ∷ es) h k = elim (Bool-cases (drops now kept e)) [
    | inl d ↦
        let (hit, rest) = (rw d at h) in rw hit (dropped-count kept es (ground (arith, rest)) k)
    | inr d ↦ elim (Bool-cases (terminal e)) [
      | inl t ↦
          let below : kept + 1 ≤ terminal_max_entries = ground arith in
          ground (arith, t, dropped-count (kept + 1) es (rw (d, t) at h) below)
      | inr f ↦ ground (arith, f, dropped-count kept es (rw (d, f) at h) k)
    ]
  ]

  -- No survivor is a terminal record past retention.
  dropped_recent :
      (kept : ℕ) (es : List Entry)
      → All (λ j. contains j ids ≡ true) (dropped now kept es)
      → All (λ e. terminal e ≡ true → now ≤ e.created_at + terminal_retention_ms) (filter stays es)
  unfolding dropped
  dropped_recent kept [] h = tt
  dropped_recent kept (e ∷ es) h =
      let later = dropped_recent (kept_next now kept e) es rest in
      elim (Bool-cases (stays e)) [ inl s ↦ rw s (λ t. young t s, later) | inr s ↦ rw s later ]
    where
      rest : All (λ j. contains j ids ≡ true) (dropped now (kept_next now kept e) es)
      rest = All-if_tail (λ j. contains j ids ≡ true) (drops now kept e) e.id _ h

      young : terminal e ≡ true → stays e ≡ true → now ≤ e.created_at + terminal_retention_ms
      young t s = elim (Bool-cases (drops now kept e)) [
        | inl d ↦
            let hit : contains e.id ids ≡ true =
              All-if_head (λ j. contains j ids ≡ true) (drops now kept e) e.id _ d h in
            absurd (ground (arith, hit))
        | inr d ↦ ground arith
      ]

-- Entries have distinct ids.
abbrev pub IsDistinct : List Entry → Type 0
IsDistinct [] = Unit
IsDistinct (e ∷ es) = All (λ x. e.id ≢ x.id) es × IsDistinct es

dropped_other :
    (now kept : ℕ) (i : String) (es : List Entry)
    → All (λ x. i ≢ x.id) es
    → contains i (dropped now kept es) ≡ false
unfolding dropped contains
dropped_other now kept i [] h = refl
dropped_other now kept i (e ∷ es) h =
    let ne : str_eq e.id i ≡ false = str_ne e.id i (λ p. h.0 (sym p)) in
    ground (arith, ne, dropped_other now (kept_next now kept e) i es h.1)

dropped_cons :
    (i : String) (b : Bool) (ids : List String) (xs : List Entry)
    → All (λ x. i ≢ x.id) xs
    → All (λ x. terminal x ≡ false → contains x.id ids ≡ false) xs
    → All (λ x. terminal x ≡ false → contains x.id (if b then i ∷ ids else ids) ≡ false) xs
unfolding contains
dropped_cons i b ids [] u h = tt
dropped_cons i b ids (x ∷ xs) u h = (
  λ f. let ne : str_eq i x.id ≡ false = str_ne i x.id u.0 in ground (arith, ne, h.0 f),
  dropped_cons i b ids xs u.1 h.1,
)

contains_if :
    (i : String) (b : Bool) (j : String) (ids : List String)
    → b ≡ false
    → contains i ids ≡ false
    → contains i (if b then j ∷ ids else ids) ≡ false
contains_if i true j ids e h = absurd (ground arith)
contains_if i false j ids e h = h

dropped_live :
    (now kept : ℕ) (es : List Entry)
    → IsDistinct es
    → All (λ e. terminal e ≡ false → contains e.id (dropped now kept es) ≡ false) es
unfolding dropped
dropped_live now kept [] u = tt
dropped_live now kept (e ∷ es) u = (
  λ f.
      let d : drops now kept e ≡ false = ground arith in
      contains_if e.id (drops now kept e) e.id _ d
        (dropped_other now (kept_next now kept e) e.id es u.0),
  dropped_cons e.id (drops now kept e) _ es u.0 (dropped_live now (kept_next now kept e) es u.1),
)

prune-entries :
    (d : Disk) (now : ℕ) (o : Outbox)
    → (prune_terminal_unknown d now o).1 ≡ true
    → (prune_terminal_unknown d now o).0.entries
      ≡ filter (stays now (dropped now 0 o.entries)) o.entries
unfolding prune_terminal_unknown
prune-entries d now o h = elim (Bool-cases (is_nil (dropped now 0 o.entries))) [
  | inl none_old ↦
      rw none_old (sym (filter_id _ o.entries (λ e. nothing (dropped now 0 o.entries) none_old e)))
  | inr some_old ↦ rw some_old ((commit-true d o _ o.entries (rw some_old at h)).0)
]
  where
    nothing : (ids : List String) → is_nil ids ≡ true → (e : Entry) → not (contains e.id ids) ≡ true
    nothing [] n e = refl
    nothing (i ∷ is) n e = absurd (ground arith)

-- After `pruneTerminalUnknown` has answered true, at most fifty terminal records are left and none of
-- them is older than the retention window.
pub prune-terminal :
    (d : Disk) (now : ℕ) (o : Outbox)
    → (prune_terminal_unknown d now o).1 ≡ true
    → (count terminal (prune_terminal_unknown d now o).0.entries ≤ terminal_max_entries)
      × All
          (λ e. terminal e ≡ true → now ≤ e.created_at + terminal_retention_ms)
          (prune_terminal_unknown d now o).0.entries
prune-terminal d now o h =
    let ids = dropped now 0 o.entries in
    let self = contains_self ids in
    rw (prune-entries d now o h) (
      omega (arith, dropped-count now ids 0 o.entries self (omega arith)),
      dropped_recent now ids 0 o.entries self,
    )

-- Where the entries have distinct ids, a `pruneTerminalUnknown` that answers true keeps every entry in
-- another state than `terminal_unknown`.
pub prune-live :
    (d : Disk) (now : ℕ) (o : Outbox)
    → IsDistinct o.entries
    → (prune_terminal_unknown d now o).1 ≡ true
    → All (λ e. terminal e ≡ false → Among e (prune_terminal_unknown d now o).0.entries) o.entries
prune-live d now o u h = rw (prune-entries d now o h) (
    All-map₂ (λ e live kept t. kept (rw (live t) refl)) o.entries (dropped_live now 0 o.entries u)
      (All-filter-Among (stays now (dropped now 0 o.entries)) o.entries))
