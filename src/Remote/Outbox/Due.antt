-- ===== src/Remote/Outbox/Due.antt =====
-- src/remote/request-outbox.ts: `peekDue`.
use abmind.Prelude.{
  ℕ, ◌≤◌, ◌≡◌, ◌⊎◌, inl, inr, true, false, Option, none, some, List, [], ◌∷◌, arith, if◌then◌else◌,
  Bool-cases, All, All-map, Among, ltb,
}
use abmind.Remote.Outbox.{Entry, Outbox, eligible, better, peek_from, peek_due}

-- The entry is there and was created no later.
abbrev pub NotAfter : Option Entry → ℕ → Type 0
NotAfter none t = ⊥
NotAfter (some e) t = e.created_at ≤ t

abbrev IsDue : ℕ → Option Entry → Type 0
IsDue now none = Unit
IsDue now (some e) = eligible now e ≡ true

abbrev pick : ℕ → Option Entry → Entry → Option Entry
pick now best e = if eligible now e then better best e else best

pick-NotAfter :
    (now : ℕ) (best : Option Entry) (e : Entry) (t : ℕ)
    → NotAfter best t
    → NotAfter (pick now best e) t
pick-NotAfter now none e t h = absurd h
pick-NotAfter now (some b) e t h = elim (Bool-cases (eligible now e)) [
  | inl due ↦ elim (Bool-cases (ltb e.created_at b.created_at)) [
    | inl older ↦ rw (due, older) (ground arith)
    | inr newer ↦ rw (due, newer) h
  ]
  | inr not_due ↦ rw not_due h
]

pick-eligible :
    (now : ℕ) (best : Option Entry) (e : Entry)
    → eligible now e ≡ true
    → NotAfter (pick now best e) e.created_at
pick-eligible now none e due = rw due (omega arith)
pick-eligible now (some b) e due = elim (Bool-cases (ltb e.created_at b.created_at)) [
  | inl older ↦ rw (due, older) (omega arith)
  | inr newer ↦ rw (due, newer) (ground arith)
]

pick-IsDue :
    (now : ℕ) (best : Option Entry) (e : Entry) → IsDue now best → IsDue now (pick now best e)
pick-IsDue now none e h = elim (Bool-cases (eligible now e)) [
  | inl due ↦ rw due due
  | inr not_due ↦ rw not_due tt
]
pick-IsDue now (some b) e h = elim (Bool-cases (eligible now e)) [
  | inl due ↦ elim (Bool-cases (ltb e.created_at b.created_at)) [
    | inl older ↦ rw (due, older) due
    | inr newer ↦ rw (due, newer) h
  ]
  | inr not_due ↦ rw not_due h
]

pick-Source :
    (now : ℕ) (best : Option Entry) (e r : Entry)
    → pick now best e ≡ some r
    → (best ≡ some r) ⊎ (r ≡ e)
pick-Source now best e r h = ground arith

peek_from-Source :
    (now : ℕ) (best : Option Entry) (es : List Entry) (r : Entry)
    → peek_from now best es ≡ some r
    → (best ≡ some r) ⊎ Among r es
unfolding peek_from
peek_from-Source now best [] r h = inl h
peek_from-Source now best (e ∷ es) r h = elim (peek_from-Source now (pick now best e) es r h) [
  | inl p ↦ elim (pick-Source now best e r p) [ inl q ↦ inl q | inr q ↦ inr (inl q) ]
  | inr m ↦ inr (inr m)
]

peek_from-NotAfter :
    (now : ℕ) (best : Option Entry) (es : List Entry) (t : ℕ)
    → NotAfter best t
    → NotAfter (peek_from now best es) t
unfolding peek_from
peek_from-NotAfter now best [] t h = h
peek_from-NotAfter now best (e ∷ es) t h =
    peek_from-NotAfter now (pick now best e) es t (pick-NotAfter now best e t h)

peek_from-All :
    (now : ℕ) (best : Option Entry) (es : List Entry)
    → All (λ x. eligible now x ≡ true → NotAfter (peek_from now best es) x.created_at) es
unfolding peek_from
peek_from-All now best [] = tt
peek_from-All now best (e ∷ es) = (
  λ due. peek_from-NotAfter now (pick now best e) es e.created_at (pick-eligible now best e due),
  peek_from-All now (pick now best e) es,
)

peek_from-IsDue :
    (now : ℕ) (best : Option Entry) (es : List Entry)
    → IsDue now best
    → IsDue now (peek_from now best es)
unfolding peek_from
peek_from-IsDue now best [] h = h
peek_from-IsDue now best (e ∷ es) h =
    peek_from-IsDue now (pick now best e) es (pick-IsDue now best e h)

-- `peekDue` answers an entry of the outbox that is due (admitted, or waiting for a retry whose time
-- has come, before its deadline), and no due entry was created before it.
pub peek_due-oldest :
    (now : ℕ) (o : Outbox) (r : Entry)
    → peek_due now o ≡ some r
    → (eligible now r ≡ true)
      × Among r o.entries
      × All (λ x. eligible now x ≡ true → r.created_at ≤ x.created_at) o.entries
unfolding peek_due
peek_due-oldest now o r h = (
  rw h at (peek_from-IsDue now none o.entries tt),
  elim (peek_from-Source now none o.entries r h) [ inl e ↦ cc | inr m ↦ m ],
  All-map (λ x f due. rw h at (f due)) o.entries (peek_from-All now none o.entries),
)

-- `peekDue` answers null only if no entry is due.
pub peek_due-none :
    (now : ℕ) (o : Outbox) → peek_due now o ≡ none → All (λ x. eligible now x ≡ false) o.entries
unfolding peek_due
peek_due-none now o h =
    All-map
      (λ x f. elim (Bool-cases (eligible now x)) [
        | inl due ↦ absurd (rw h at (f due))
        | inr not_due ↦ not_due
      ])
      o.entries (peek_from-All now none o.entries)
