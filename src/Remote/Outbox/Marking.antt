-- ===== src/Remote/Outbox/Marking.antt =====
-- src/remote/request-outbox.ts: the marks of an entry that is due.
use abmind.Prelude.{
  ℕ, ◌≤◌, ◌≡◌, refl, ap, leb, inl, inr, true, false, none, some, List, [], ◌∷◌, String, arith,
  Bool-cases, Option-cases, All, Among, eq_iff,
}
use abmind.Prelude.Table.{select, count}
use abmind.Remote.Outbox.{
  Entry, Outbox, Disk, RetryFailure, has_id, commit, checkpoint, modify, get, mark_in_flight,
  mark_terminal_unknown, is_exhausted, is_in_flight, is_terminal, max_attempts, to_in_flight,
  undo_in_flight, to_terminal, undo_terminal, eligible, peek_due,
}
use abmind.Remote.Outbox.Delivery.{commit-true}
use abmind.Remote.Outbox.Credit.{Writes}
use abmind.Remote.Outbox.Due.{peek_due-none}

-- An entry's id is no other entry's.
abbrev pub Distinct : Outbox → Type 0
Distinct o = (i : String) → count (has_id i) o.entries ≤ 1

own_id : (e : Entry) → has_id e.id e ≡ true
own_id e = ground (arith, eq_iff e.id e.id)

count-Among : (e : Entry) (es : List Entry) → Among e es → 1 ≤ count (has_id e.id) es
count-Among e [] m = absurd m
count-Among e (x ∷ xs) (inl same) = rw (← same, own_id e) (omega arith)
count-Among e (x ∷ xs) (inr m) = ground (arith, count-Among e xs m)

select-Among :
    (e : Entry) (es : List Entry)
    → Among e es
    → count (has_id e.id) es ≤ 1
    → select (has_id e.id) es ≡ some e
select-Among e [] m u = absurd m
select-Among e (x ∷ xs) (inl same) u = rw (← same, own_id e) refl
select-Among e (x ∷ xs) (inr m) u = elim (Bool-cases (has_id e.id x)) [
  | inl hit ↦ absurd (ground (arith, hit, u, count-Among e xs m))
  | inr miss ↦ rw miss (select-Among e xs m (rw miss at u))
]

pub get-Among : (e : Entry) (o : Outbox) → Distinct o → Among e o.entries → get e.id o ≡ some e
unfolding get
get-Among e o u m = select-Among e o.entries m (u e.id)

All-Among : (P : Entry → Type 0) (e : Entry) (es : List Entry) → All P es → Among e es → P e
All-Among P e [] h m = absurd m
All-Among P e (x ∷ xs) h (inl same) = rw same h.0
All-Among P e (x ∷ xs) h (inr m) = All-Among P e xs h.1 m

-- Where an entry is due, `peekDue` answers one.
pub peek_due-some :
    (now : ℕ) (o : Outbox) (x : Entry)
    → Among x o.entries
    → eligible now x ≡ true
    → (e : Entry) × (peek_due now o ≡ some e)
peek_due-some now o x m due = elim (Option-cases (peek_due now o)) [
  | inl h ↦ absurd (
      ground
        (arith, due, All-Among (λ y. eligible now y ≡ false) x o.entries (peek_due-none now o h) m))
  | inr (e, h) ↦ (e, h)
]

pub is_exhausted-eligible :
    (now : ℕ) (e : Entry) → eligible now e ≡ true → is_exhausted e now ≡ leb max_attempts e.attempts
unfolding eligible is_exhausted
is_exhausted-eligible now e due = ground (arith, due)

eligible-state :
    (now : ℕ) (e : Entry)
    → eligible now e ≡ true
    → (is_in_flight e.state ≡ false) × (is_terminal e.state ≡ false)
unfolding eligible
eligible-state now e due = ground (arith, due)

commit-Writes :
    (d : Disk) (o : Outbox) (next restored : List Entry)
    → Writes d
    → (commit d o next restored).1 ≡ true
unfolding commit checkpoint
commit-Writes d o next restored w = ground (arith, w.small next, w.ok)

select-modify :
    (i : String) (f : Entry → Entry) (e : Entry)
    → ((x : Entry) → (f x).id ≡ x.id)
    → (es : List Entry) → select (has_id i) es ≡ some e
    → select (has_id i) (modify i f es) ≡ some (f e)
unfolding modify
select-modify i f e same [] h = absurd (ground (arith, h))
select-modify i f e same (x ∷ xs) h = elim (Bool-cases (has_id i x)) [
  | inl hit ↦
      let k : some x ≡ some e = rw hit at h in
      let again : has_id i (f x) ≡ true = ground (arith, same x, hit) in
      rw (hit, again) (ap (λ o. elim o [ none ↦ none | some y ↦ some (f y) ]) k)
  | inr miss ↦ rw miss (rw miss (select-modify i f e same xs (rw miss at h)))
]

-- A change of the entry that is written is seen.
commit-modify :
    (d : Disk) (i : String) (f : Entry → Entry) (e : Entry) (o : Outbox) (back : List Entry)
    → Writes d
    → get i o ≡ some e
    → ((x : Entry) → (f x).id ≡ x.id)
    → ((commit d o (modify i f o.entries) back).1 ≡ true)
      × (get i (commit d o (modify i f o.entries) back).0 ≡ some (f e))
unfolding get
commit-modify d i f e o back w held same =
    let written = commit-Writes d o (modify i f o.entries) back w in
    (
      written,
      rw ((commit-true d o (modify i f o.entries) back written).0)
          (select-modify i f e same o.entries held),
    )

-- A due entry is marked for a send.
pub mark_in_flight-due :
    (d : Disk) (now : ℕ) (i : String) (e : Entry) (o : Outbox)
    → Writes d
    → get i o ≡ some e
    → eligible now e ≡ true
    → ((mark_in_flight d now i o).1 ≡ true)
      × (get i (mark_in_flight d now i o).0 ≡ some (to_in_flight now e))
unfolding mark_in_flight
mark_in_flight-due d now i e o w held due =
    let (a, b) = eligible-state now e due in
    rw (held, mark_in_flight, a, b)
      (commit-modify d i (to_in_flight now) e o (modify i undo_in_flight o.entries) w held
        (λ x. refl))

-- A due entry is settled.
pub mark_terminal_unknown-due :
    (d : Disk) (now : ℕ) (i : String) (failure : RetryFailure) (e : Entry) (o : Outbox)
    → Writes d
    → get i o ≡ some e
    → eligible now e ≡ true
    → ((mark_terminal_unknown d i failure o).1 ≡ true)
      × (get i (mark_terminal_unknown d i failure o).0 ≡ some (to_terminal failure e))
unfolding mark_terminal_unknown
mark_terminal_unknown-due d now i failure e o w held due =
    let (a, b) = eligible-state now e due in
    rw (held, mark_terminal_unknown, b)
      (commit-modify d i (to_terminal failure) e o (modify i undo_terminal o.entries) w held
        (λ x. refl))
