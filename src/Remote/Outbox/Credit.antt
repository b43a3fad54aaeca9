-- ===== src/Remote/Outbox/Credit.antt =====
-- src/remote/request-outbox.ts: what an entry's attempts say of the sends that it has had.
use abmind.Prelude.{
  ℕ, suc, ◌+◌, ◌≤◌, ◌≡◌, refl, leb, ltb, inl, inr, String, Bool, true, false, ◌||◌, List, [], ◌∷◌,
  ◌++◌, arith, length, filter, Bool-cases, Option-cases, All, if◌then◌else◌,
}
use abmind.Prelude.Table.{count}
use abmind.Remote.Outbox.{
  Entry, Outbox, Disk, RetryFailure, is_terminal, is_in_flight, has_id, commit, checkpoint, modify,
  remove, append, get, mark_in_flight, mark_retry_wait, mark_terminal_unknown, acknowledge,
  prune_terminal_unknown, max_entries, max_entry_bytes, to_in_flight, undo_in_flight, to_retry_wait,
  to_terminal, undo_terminal, dropped, is_nil, max_file_bytes,
}
use abmind.Remote.Outbox.Delivery.{
  Call, appends, marks_in_flight, marks_retry_wait, marks_terminal, acknowledges, prunes, apply,
  commit-true, commit-false,
}

-- Every write of the file succeeds.
pub record Writes (d : Disk) : Type 0 where
  pub small : (es : List Entry) → d.size es ≤ max_file_bytes
  pub ok : d.write_ok ≡ true

pub acknowledge-Writes :
    (d : Disk) (i : String) (o : Outbox) → Writes d → (acknowledge d i o).1 ≡ true
unfolding acknowledge commit checkpoint
acknowledge-Writes d i o w = elim (Option-cases (get i o)) [
  | inl e ↦ rw (e, acknowledge) refl
  | inr (r, e) ↦ rw (e, acknowledge) (ground (arith, w.small (remove i o.entries), w.ok))
]

abbrev pub is_append : Call → Bool
is_append (appends e) = true
is_append c = false

-- The sends that the attempts of an entry account for: those that failed, and one that is open or whose
-- outcome is unknown.
abbrev pub credit : Entry → ℕ
credit e = if is_in_flight e.state || is_terminal e.state then e.attempts + 1 else e.attempts

-- One entry at most has the id, and it accounts for n sends.
pub record Credits (i : String) (n : ℕ) (es : List Entry) : Type 0 where
  pub unique : count (has_id i) es ≤ 1
  pub covered : All (λ e. has_id i e ≡ true → n ≤ credit e) es

module _ (i : String) (n : ℕ) where
  Credits-cons :
      (e : Entry) (es : List Entry)
      → (if has_id i e then suc (count (has_id i) es) else count (has_id i) es) ≤ 1
      → (has_id i e ≡ true → n ≤ credit e)
      → Credits i n es
      → Credits i n (e ∷ es)
  Credits-cons e es u h c = record { unique = u; covered = (h, c.covered) }

  Credits-tail : (e : Entry) (es : List Entry) → Credits i n (e ∷ es) → Credits i n es
  Credits-tail e es c = record { unique = ground (arith, c.unique); covered = c.covered.1 }

  pub count-modify :
      (j : String) (f : Entry → Entry)
      → ((e : Entry) → (f e).id ≡ e.id)
      → (es : List Entry) → count (has_id i) (modify j f es) ≡ count (has_id i) es
  unfolding modify
  count-modify j f same [] = refl
  count-modify j f same (e ∷ es) = elim (Bool-cases (has_id j e)) [
    | inl hit ↦ rw (hit, same e) refl
    | inr miss ↦ rw miss (ground (arith, count-modify j f same es))
  ]

  covered-modify :
      (j : String) (f : Entry → Entry)
      → ((e : Entry) → (f e).id ≡ e.id)
      → ((e : Entry) → credit e ≤ credit (f e))
      → (es : List Entry) → All (λ e. has_id i e ≡ true → n ≤ credit e) es
      → All (λ e. has_id i e ≡ true → n ≤ credit e) (modify j f es)
  unfolding modify
  covered-modify j f same more [] c = tt
  covered-modify j f same more (e ∷ es) c = elim (Bool-cases (has_id j e)) [
    | inl hit ↦ rw hit (λ h. omega (arith, c.0 (rw (same e) at h), more e), c.1)
    | inr miss ↦ rw miss (c.0, covered-modify j f same more es c.1)
  ]

  modify-Credits :
      (j : String) (f : Entry → Entry)
      → ((e : Entry) → (f e).id ≡ e.id)
      → ((e : Entry) → credit e ≤ credit (f e))
      → (es : List Entry) → Credits i n es
      → Credits i n (modify j f es)
  modify-Credits j f same more es c = record {
    unique = omega (arith, count-modify j f same es, c.unique);
    covered = covered-modify j f same more es c.covered;
  }

  count-remove-le :
      (j : String) (es : List Entry) → count (has_id i) (remove j es) ≤ count (has_id i) es
  unfolding remove
  count-remove-le j [] = omega arith
  count-remove-le j (e ∷ es) = ground (arith, count-remove-le j es)

  remove-Credits : (j : String) (es : List Entry) → Credits i n es → Credits i n (remove j es)
  unfolding remove
  remove-Credits j [] c = c
  remove-Credits j (e ∷ es) c = elim (Bool-cases (has_id j e)) [
    | inl hit ↦ rw hit (Credits-tail e es c)
    | inr miss ↦
        let rest = remove-Credits j es (Credits-tail e es c) in
        rw miss (
          Credits-cons e (remove j es) (ground (arith, c.unique, count-remove-le j es)) c.covered.0
            rest)
  ]

  commit-Credits :
      (d : Disk) (o : Outbox) (next restored : List Entry)
      → Credits i n next
      → Credits i n restored
      → Credits i n (commit d o next restored).0.entries
  commit-Credits d o next restored x y = elim (Bool-cases (commit d o next restored).1) [
    | inl done ↦ rw ((commit-true d o next restored done).0) x
    | inr failed ↦ rw ((commit-false d o next restored failed).0) y
  ]

  count-filter-le :
      (p : Entry → Bool) (es : List Entry) → count (has_id i) (filter p es) ≤ count (has_id i) es
  count-filter-le p [] = omega arith
  count-filter-le p (e ∷ es) = ground (arith, count-filter-le p es)

  filter-Credits : (p : Entry → Bool) (es : List Entry) → Credits i n es → Credits i n (filter p es)
  filter-Credits p [] c = c
  filter-Credits p (e ∷ es) c = elim (Bool-cases (p e)) [
    | inl kept ↦ rw kept (
        Credits-cons e (filter p es) (ground (arith, c.unique, count-filter-le p es)) c.covered.0
          (filter-Credits p es (Credits-tail e es c)))
    | inr gone ↦ rw gone (filter-Credits p es (Credits-tail e es c))
  ]

  mark_in_flight-Credits :
      (d : Disk) (now : ℕ) (j : String) (o : Outbox)
      → Credits i n o.entries
      → Credits i n (mark_in_flight d now j o).0.entries
  unfolding mark_in_flight
  mark_in_flight-Credits d now j o c = elim (Option-cases (get j o)) [
    | inl k ↦ rw (k, mark_in_flight) c
    | inr (r, k) ↦ elim (Bool-cases (is_in_flight r.state || is_terminal r.state)) [
      | inl stop ↦ rw (k, mark_in_flight, stop) c
      | inr go ↦
          rw (k, mark_in_flight, go)
            (commit-Credits d o _ _
              (modify-Credits j (to_in_flight now) (λ e. refl) (λ e. ground arith) o.entries c)
              (modify-Credits j undo_in_flight (λ e. refl) (λ e. omega arith) o.entries c))
    ]
  ]

  mark_retry_wait-Credits :
      (d : Disk) (now : ℕ) (j : String) (failure : RetryFailure) (next : ℕ) (o : Outbox)
      → Credits i n o.entries
      → Credits i n (mark_retry_wait d now j failure next o).0.entries
  unfolding mark_retry_wait
  mark_retry_wait-Credits d now j failure next o c = elim (Option-cases (get j o)) [
    | inl k ↦ rw (k, mark_retry_wait) c
    | inr (r, k) ↦ elim (Bool-cases (is_terminal r.state)) [
      | inl stop ↦ rw (k, mark_retry_wait, stop) c
      | inr go ↦
          rw (k, mark_retry_wait, go)
            (commit-Credits d o _ _
              (modify-Credits j (to_retry_wait failure now next) (λ e. refl) (λ e. ground arith)
                o.entries c)
              c)
    ]
  ]

  mark_terminal_unknown-Credits :
      (d : Disk) (j : String) (failure : RetryFailure) (o : Outbox)
      → Credits i n o.entries
      → Credits i n (mark_terminal_unknown d j failure o).0.entries
  unfolding mark_terminal_unknown
  mark_terminal_unknown-Credits d j failure o c = elim (Option-cases (get j o)) [
    | inl k ↦ rw (k, mark_terminal_unknown) c
    | inr (r, k) ↦ elim (Bool-cases (is_terminal r.state)) [
      | inl stop ↦ rw (k, mark_terminal_unknown, stop) c
      | inr go ↦
          rw (k, mark_terminal_unknown, go)
            (commit-Credits d o _ _
              (modify-Credits j (to_terminal failure) (λ e. refl) (λ e. ground arith) o.entries c)
              (modify-Credits j undo_terminal (λ e. refl) (λ e. omega arith) o.entries c))
    ]
  ]

  acknowledge-Credits :
      (d : Disk) (j : String) (o : Outbox)
      → Credits i n o.entries
      → Credits i n (acknowledge d j o).0.entries
  unfolding acknowledge
  acknowledge-Credits d j o c = elim (Option-cases (get j o)) [
    | inl k ↦ rw (k, acknowledge) c
    | inr (r, k) ↦ rw (k, acknowledge) (commit-Credits d o _ _ (remove-Credits j o.entries c) c)
  ]

  prune-Credits :
      (d : Disk) (now : ℕ) (o : Outbox)
      → Credits i n o.entries
      → Credits i n (prune_terminal_unknown d now o).0.entries
  unfolding prune_terminal_unknown
  prune-Credits d now o c = elim (Bool-cases (is_nil (dropped now 0 o.entries))) [
    | inl none_old ↦ rw none_old c
    | inr some_old ↦ rw some_old (commit-Credits d o _ _ (filter-Credits _ o.entries c) c)
  ]

  -- A failed `append` leaves the entries.
  pub append-fails :
      (d : Disk) (x : Entry) (o : Outbox)
      → (append d x o).1 ≡ false
      → Credits i n o.entries
      → Credits i n (append d x o).0.entries
  unfolding append
  append-fails d x o h c = elim (Bool-cases (o.quarantined || o.degraded)) [
    | inl stop ↦ rw stop c
    | inr go ↦ elim (Bool-cases (leb max_entries (length o.entries))) [
      | inl full ↦ rw (go, full) c
      | inr room ↦ elim (Bool-cases (ltb max_entry_bytes (d.entry_size x))) [
        | inl big ↦ rw (go, room, big) c
        | inr fits ↦
            let k : (commit d o (o.entries ++ x ∷ []) o.entries).1 ≡ false =
              rw (go, room, fits) at h in
            rw (go, room, fits) (rw ((commit-false d o (o.entries ++ x ∷ []) o.entries k).0) c)
      ]
    ]
  ]

  pub apply-Credits :
      (d : Disk) (c : Call) (o : Outbox)
      → is_append c ≡ false
      → Credits i n o.entries
      → Credits i n (apply d c o).0.entries
  apply-Credits d (appends x) o w h = absurd (ground (arith, w))
  apply-Credits d (marks_in_flight now j) o w h = mark_in_flight-Credits d now j o h
  apply-Credits d (marks_retry_wait now j failure next) o w h =
      mark_retry_wait-Credits d now j failure next o h
  apply-Credits d (marks_terminal j failure) o w h = mark_terminal_unknown-Credits d j failure o h
  apply-Credits d (acknowledges j) o w h = acknowledge-Credits d j o h
  apply-Credits d (prunes now) o w h = prune-Credits d now o h
