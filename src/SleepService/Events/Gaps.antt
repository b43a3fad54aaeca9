-- ===== src/SleepService/Events/Gaps.antt =====
-- src/sleep-service/sleep-events.ts: what a reader that is answered at once is told and given.
use abmind.Prelude.{
  ℕ, zero, suc, ◌+◌, ◌≤◌, ◌<◌, ◌≡◌, refl, sym, ◌∙◌, ap, Bool, true, false, List, [], ◌∷◌, ltb,
  filter, take, length, arith, Bool-cases, inl, inr, ◌⊎◌, ◌==◌,
}
use abmind.SleepService.Events.{
  Item, Reader, Reading, EventRing, empty_ring, is_empty, results, starts_late, read_after,
}
use abmind.SleepService.Events.Ring.{Call, run, Counted, Latest, run-Latest, empty_ring-Latest}

abbrev newer : ℕ → Item → Bool
newer after x = ltb after x.seq

filter-newer :
    (after s : ℕ) (items : List Item) (e : ℕ)
    → Counted s items e
    → after < s
    → filter (newer after) items ≡ items
filter-newer after s [] e c h = refl
filter-newer after s (x ∷ xs) e c h =
    let k : newer after x ≡ true = ground (arith, c.0) in
    rw k (ap (◌∷◌ x) (filter-newer after (suc s) xs e c.1 (omega arith)))

filter-Counted :
    (after s : ℕ) (items : List Item) (e : ℕ)
    → Counted s items e
    → starts_late after (filter (newer after) items) ≡ false
    → (filter (newer after) items ≡ []) ⊎ Counted (suc after) (filter (newer after) items) e
filter-Counted after s [] e c g = inl refl
filter-Counted after s (x ∷ xs) e c g = elim (Bool-cases (newer after x)) [
  | inl k ↦
      let late : starts_late after (x ∷ filter (newer after) xs) ≡ false = rw k at g in
      let q : s ≡ suc after = ground (arith, c.0, k, late) in
      let all = filter-newer after (suc s) xs e c.1 (omega arith) in
      rw (k, all) (inr (c.0 ∙ q, rw⁻¹ q c.1))
  | inr k ↦
      let late : starts_late after (filter (newer after) xs) ≡ false = rw k at g in
      rw k (filter-Counted after (suc s) xs e c.1 late)
]

Counted-length : (s : ℕ) (items : List Item) (e : ℕ) → Counted s items e → s + length items ≡ e
Counted-length s [] e c = omega (arith, c)
Counted-length s (x ∷ xs) e c = omega (arith, Counted-length (suc s) xs e c.1)

Counted-take :
    (n s : ℕ) (items : List Item) (e : ℕ)
    → Counted s items e
    → Counted s (take n items) (s + length (take n items))
Counted-take zero s items e c = omega arith
Counted-take (suc n) s [] e c = omega arith
Counted-take (suc n) s (x ∷ xs) e c =
    (c.0, rw (shift s (length (take n xs))) (Counted-take n (suc s) xs e c.1))
  where
    shift : (a b : ℕ) → a + suc b ≡ suc a + b
    shift a b = omega arith

-- No event is newer: the last number given is not.
all_read :
    (after s : ℕ) (items : List Item) (e : ℕ)
    → Counted s items e
    → is_empty items ≡ false
    → filter (newer after) items ≡ []
    → e ≤ suc after
all_read after s [] e c h f = absurd (ground (arith, h))
all_read after s (x ∷ []) e c h f = elim (Bool-cases (newer after x)) [
  | inl k ↦ absurd (ground (arith, ap length (rw k at f)))
  | inr k ↦ ground (arith, k, c.0, c.1)
]
all_read after s (x ∷ y ∷ ys) e c h f = elim (Bool-cases (newer after x)) [
  | inl k ↦ absurd (ground (arith, ap length (rw k at f)))
  | inr k ↦ all_read after (suc s) (y ∷ ys) e c.1 refl (rw k at f)
]

-- The events are the next ones after the number, without a hole: as many as the limit, or up to the last.
pub record Complete (w : Reader) (x : Reading) : Type 0 where
  pub in_turn : Counted (suc w.after_seq) x.events (suc w.after_seq + length x.events)
  pub limited : length x.events ≤ w.limit
  pub to_the_end : (length x.events ≡ w.limit) ⊎ (x.next_seq ≤ suc w.after_seq + length x.events)

found-cases : (xs : List Item) → (xs ≡ []) ⊎ ((y : Item) × (ys : List Item) × (xs ≡ y ∷ ys))
found-cases [] = inl refl
found-cases (y ∷ ys) = inr (y, ys, refl)

head-same : {x y : ℕ × Reading} {xs : List (ℕ × Reading)} → x ∷ xs ≡ y ∷ xs → x.1 ≡ y.1
head-same {x = x} e = ap (λ l. elim l [ [] ↦ x.1 | z ∷ zs ↦ z.1 ]) e

take-none : (n : ℕ) → take {A = Item} n [] ≡ []
take-none zero = refl
take-none (suc n) = refl

-- A reading answered at once holds what is found, cut to the limit.
reading-parts :
    (w : Reader) (wait_ms : ℕ) (r : EventRing) (x : Reading)
    → (read_after w wait_ms r).log ≡ (w.ticket, x) ∷ r.log
    → (x.events ≡ take w.limit (results w.after_seq r))
      × (x.next_seq ≡ r.next_seq)
      × (x.gap ≡ false → starts_late w.after_seq (results w.after_seq r) ≡ false)
unfolding read_after
reading-parts w wait_ms r x h = elim (found-cases (results w.after_seq r)) [
  | inr (y, ys, e) ↦
      let same = head-same (rw e at h) in
      (
        rw e (sym (ap (λ z. z.events) same)),
        sym (ap (λ z. z.next_seq) same),
        λ g. rw e (ground (arith, g, ap (λ z. z.gap) same)),
      )
  | inl e ↦ elim (Bool-cases r.terminal) [
    | inl t ↦
        let same = head-same (rw (e, t) at h) in
        (rw e (sym (ap (λ z. z.events) same)), sym (ap (λ z. z.next_seq) same), λ g. rw e refl)
    | inr t ↦ elim (Bool-cases (wait_ms == 0)) [
      | inl q ↦
          let same = head-same (rw (e, t, q) at h) in
          (
            rw (e, take-none w.limit) (sym (ap (λ z. z.events) same)),
            sym (ap (λ z. z.next_seq) same),
            λ g. rw e refl,
          )
      | inr q ↦ absurd (omega (arith, ap length (rw (e, t, q) at h)))
    ]
  ]
]

take-length-le : (n : ℕ) (xs : List Item) → length (take n xs) ≤ n
take-length-le zero xs = omega arith
take-length-le (suc n) [] = omega arith
take-length-le (suc n) (x ∷ xs) = omega (arith, take-length-le n xs)

take-whole : (n : ℕ) (xs : List Item) → (length (take n xs) ≡ n) ⊎ (length (take n xs) ≡ length xs)
take-whole zero xs = inl refl
take-whole (suc n) [] = inr refl
take-whole (suc n) (x ∷ xs) = elim (take-whole n xs) [
  | inl e ↦ inl (ap suc e)
  | inr e ↦ inr (ap suc e)
]

none_newer : (after : ℕ) (r : EventRing) → Latest r → results after r ≡ [] → r.next_seq ≤ suc after
none_newer after r l f = elim (Bool-cases (is_empty r.items)) [
  | inl i ↦ omega (arith, l.started i)
  | inr i ↦ all_read after l.from r.items r.next_seq l.counted i f
]

found-Complete :
    (w : Reader) (r : EventRing) (x : Reading)
    → Latest r
    → x.events ≡ take w.limit (results w.after_seq r)
    → x.next_seq ≡ r.next_seq
    → starts_late w.after_seq (results w.after_seq r) ≡ false
    → Complete w x
found-Complete w r x l e n g =
    elim (filter-Counted w.after_seq l.from r.items r.next_seq l.counted g) [
      | inl f ↦
          let given : x.events ≡ [] = e ∙ ap (take w.limit) f ∙ take-none w.limit in
          record {
            in_turn = rw given (omega arith);
            limited = rw given (omega arith);
            to_the_end = inr (omega (arith, n, none_newer w.after_seq r l f));
          }
      | inr c ↦ record {
        in_turn = rw e (Counted-take w.limit (suc w.after_seq) _ r.next_seq c);
        limited = rw e (take-length-le w.limit (results w.after_seq r));
        to_the_end = elim (take-whole w.limit (results w.after_seq r)) [
          | inl k ↦ inl (rw e k)
          | inr k ↦
              inr (rw (e, n) (omega (arith, k, Counted-length (suc w.after_seq) _ r.next_seq c)))
        ];
      }
    ]

-- A reader that `readAfter` answers at once, after any calls, and tells of no gap has missed nothing: it is
-- given the events that follow its own number, without a hole, up to its limit or to the last event there is.
pub read_after-Complete :
    (w : Reader) (wait_ms : ℕ) (cs : List Call) (x : Reading)
    → (read_after w wait_ms (run cs empty_ring)).log ≡ (w.ticket, x) ∷ (run cs empty_ring).log
    → x.gap ≡ false
    → Complete w x
read_after-Complete w wait_ms cs x h g =
    let l = run-Latest cs empty_ring empty_ring-Latest in
    let (e, n, gap) = reading-parts w wait_ms (run cs empty_ring) x h in
    found-Complete w (run cs empty_ring) x l e n (gap g)
