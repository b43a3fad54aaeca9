-- ===== src/Remote/Outbox/Attempt.antt =====
-- src/remote/request-outbox.ts: an entry that is admitted, and one that is marked for a send.
use abmind.Prelude.{
  ℕ, suc, ◌≤◌, ◌≡◌, leb, ltb, inl, inr, String, true, false, ◌||◌, none, some, List, [], ◌∷◌, ◌++◌,
  arith, length, Bool-cases, All, eq_iff, ap,
}
use abmind.Prelude.Table.{select, count, count-append, count-none}
use abmind.Remote.Outbox.{
  Entry, Outbox, Disk, is_terminal, is_in_flight, has_id, commit, modify, append, get,
  mark_in_flight, is_exhausted, max_entries, max_attempts, max_entry_bytes, to_in_flight,
  undo_in_flight,
}
use abmind.Remote.Outbox.Delivery.{commit-true}
use abmind.Remote.Outbox.Credit.{Credits, credit}

abbrev Covers : String → ℕ → Entry → Type 0
Covers i n e = has_id i e ≡ true → n ≤ credit e

All-append :
    (i : String) (n : ℕ) (es : List Entry) (x : Entry)
    → All (Covers i n) es
    → Covers i n x
    → All (Covers i n) (es ++ x ∷ [])
All-append i n [] x h k = (k, tt)
All-append i n (e ∷ es) x h k = (h.0, All-append i n es x h.1 k)

append-true :
    (d : Disk) (x : Entry) (o : Outbox)
    → (append d x o).1 ≡ true
    → (append d x o).0.entries ≡ o.entries ++ x ∷ []
unfolding append
append-true d x o h = elim (Bool-cases (o.quarantined || o.degraded)) [
  | inl stop ↦ absurd (ground (arith, stop, h))
  | inr go ↦ elim (Bool-cases (leb max_entries (length o.entries))) [
    | inl full ↦ absurd (ground (arith, go, full, h))
    | inr room ↦ elim (Bool-cases (ltb max_entry_bytes (d.entry_size x))) [
      | inl big ↦ absurd (ground (arith, go, room, big, h))
      | inr fits ↦
          let k : (commit d o (o.entries ++ x ∷ []) o.entries).1 ≡ true =
            rw (go, room, fits) at h in
          rw (go, room, fits) ((commit-true d o (o.entries ++ x ∷ []) o.entries k).0)
    ]
  ]
]

-- A new entry has had no sends.
pub append-Credits :
    (i : String) (n : ℕ) (d : Disk) (x : Entry) (o : Outbox)
    → (append d x o).1 ≡ true
    → get x.id o ≡ none
    → (i ≡ x.id → n ≡ 0)
    → Credits i n o.entries
    → Credits i n (append d x o).0.entries
unfolding get
append-Credits i n d x o ok free new c = rw (append-true d x o ok) (elim (Bool-cases (has_id i x)) [
  | inl hit ↦
      let same : i ≡ x.id = ground (arith, eq_iff x.id i, hit) in
      record {
        unique = ground (
          arith,
          hit,
          count-append (has_id i) o.entries (x ∷ []),
          count-none (has_id i) o.entries (rw (← same) at free),
        );
        covered = All-append i n o.entries x c.covered (λ h. ground (arith, new same));
      }
  | inr miss ↦ record {
    unique = ground (arith, miss, count-append (has_id i) o.entries (x ∷ []), c.unique);
    covered = All-append i n o.entries x c.covered (λ h. absurd (ground (arith, miss, h)));
  }
])

covered-none :
    (i : String) (n : ℕ) (es : List Entry) → count (has_id i) es ≡ 0 → All (Covers i n) es
covered-none i n [] h = tt
covered-none i n (e ∷ es) h =
    (λ k. absurd (ground (arith, h, k)), covered-none i n es (ground (arith, h)))

covered-held :
    (i : String) (n : ℕ) (es : List Entry) (e : Entry)
    → All (Covers i n) es
    → select (has_id i) es ≡ some e
    → n ≤ credit e
covered-held i n [] e c h = absurd (ground (arith, h))
covered-held i n (x ∷ xs) e c h = elim (Bool-cases (has_id i x)) [
  | inl hit ↦
      let f : some x ≡ some e = rw hit at h in
      let same : x ≡ e = ap (λ o. elim o [ none ↦ x | some y ↦ y ]) f in rw (← same) (c.0 hit)
  | inr miss ↦ covered-held i n xs e c.1 (rw miss at h)
]

-- The only entry of the id is marked: one more send is accounted for.
modify-sends :
    (i : String) (n now : ℕ) (e : Entry) (es : List Entry)
    → select (has_id i) es ≡ some e
    → n ≤ e.attempts
    → Credits i n es
    → Credits i (suc n) (modify i (to_in_flight now) es)
unfolding modify
modify-sends i n now e [] found low c = absurd (ground (arith, found))
modify-sends i n now e (x ∷ xs) found low c = elim (Bool-cases (has_id i x)) [
  | inl hit ↦
      let f : some x ≡ some e = rw hit at found in
      let same : x.attempts ≡ e.attempts =
        ap (λ o. elim o [ none ↦ x.attempts | some y ↦ y.attempts ]) f in
      rw hit (record {
        unique = ground (arith, hit, c.unique);
        covered = (
          λ h. omega (arith, same, low),
          covered-none i (suc n) xs (ground (arith, hit, c.unique)),
        );
      })
  | inr miss ↦
      let tail : Credits i n xs = record {
        unique = ground (arith, miss, c.unique);
        covered = c.covered.1;
      } in
      let rest = modify-sends i n now e xs (rw miss at found) low tail in
      rw miss (record {
        unique = ground (arith, miss, rest.unique);
        covered = (λ h. absurd (ground (arith, miss, h)), rest.covered);
      })
]

-- A frame that is marked for a send, and is not exhausted, has been sent less than the greatest number of
-- attempts; the send is accounted for.
pub mark_in_flight-sends :
    (i : String) (n : ℕ) (d : Disk) (now : ℕ) (e : Entry) (o : Outbox)
    → get i o ≡ some e
    → is_exhausted e now ≡ false
    → (mark_in_flight d now i o).1 ≡ true
    → Credits i n o.entries
    → Credits i (suc n) (mark_in_flight d now i o).0.entries × (suc n ≤ max_attempts)
unfolding mark_in_flight is_exhausted
mark_in_flight-sends i n d now e o held live marked c =
    elim (Bool-cases (is_in_flight e.state || is_terminal e.state)) [
      | inl stop ↦ absurd (ground (arith, rw (held, mark_in_flight, stop) at marked))
      | inr go ↦
          let have : n ≤ credit e = covered-held i n o.entries e c.covered (unfold get in held) in
          let low : n ≤ e.attempts = ground (arith, have, go) in
          let next = modify i (to_in_flight now) o.entries in
          let back = modify i undo_in_flight o.entries in
          let done : (commit d o next back).1 ≡ true = rw (held, mark_in_flight, go) at marked in
          rw (held, mark_in_flight, go)
            (
              rw ((commit-true d o next back done).0)
                  (modify-sends i n now e o.entries (unfold get in held) low c),
              ground (arith, live, low),
            )
    ]
