-- ===== src/SleepService/Events/Ring.antt =====
-- src/sleep-service/sleep-events.ts: the numbers of the events in the ring, and what a reader misses.
use abmind.Prelude.{
  ℕ, suc, ◌+◌, ◌≤◌, ◌≡◌, refl, sym, ◌∙◌, String, true, false, Option, List, [], ◌∷◌, ◌++◌, ltb,
  drop, length, length-append, arith, Bool-cases, inl, inr,
}
use abmind.SleepService.Events.{
  Item, Reader, EventRing, max_events, empty_ring, wake_each, wake_waiters, trim, push,
  set_terminal, is_empty, read_after, reader_times_out,
}

pub data Call : Type 0 where
  pushes : ℕ → String → Option String → Call
  ends : Call
  reads : Reader → ℕ → Call
  times_out : Reader → Call

abbrev pub step : Call → EventRing → EventRing
step (pushes now kind detail) r = push now kind detail r
step ends r = set_terminal r
step (reads w wait_ms) r = read_after w wait_ms r
step (times_out w) r = reader_times_out w r

abbrev pub run : List Call → EventRing → EventRing
run [] r = r
run (c ∷ cs) r = run cs (step c r)

-- The items are numbered one after the other, from s up to just below e.
abbrev pub Counted : ℕ → List Item → ℕ → Type 0
Counted s [] e = s ≡ e
Counted s (x ∷ xs) e = (x.seq ≡ s) × Counted (suc s) xs e

-- The items are numbered without a hole up to the last number given, at most `max_events` of them, and they
-- are there unless no number has been given.
pub record Latest (r : EventRing) : Type 0 where
  pub from : ℕ
  pub counted : Counted from r.items r.next_seq
  pub bounded : length r.items ≤ max_events
  pub started : is_empty r.items ≡ true → r.next_seq ≡ 1

wake_each-same :
    (ws : List Reader) (r : EventRing)
    → ((wake_each ws r).items ≡ r.items) × ((wake_each ws r).next_seq ≡ r.next_seq)
unfolding wake_each
wake_each-same [] r = (refl, refl)
wake_each-same (w ∷ ws) r = wake_each-same ws _

same-Latest :
    {r r' : EventRing} → r'.items ≡ r.items → r'.next_seq ≡ r.next_seq → Latest r → Latest r'
same-Latest e f l = record {
  from = l.from;
  counted = rw (e, f) l.counted;
  bounded = rw e l.bounded;
  started = rw (e, f) l.started;
}

wake_waiters-Latest : (r : EventRing) → Latest r → Latest (wake_waiters r)
unfolding wake_waiters
wake_waiters-Latest r l =
    let (e, f) = wake_each-same r.waiters (record r { waiters = [] }) in same-Latest e f l

Counted-append :
    (s : ℕ) (items : List Item) (x : Item) (e : ℕ)
    → Counted s items e
    → x.seq ≡ e
    → Counted s (items ++ x ∷ []) (e + 1)
Counted-append s [] x e c h = (h ∙ sym c, omega (arith, c))
Counted-append s (y ∷ ys) x e c h = (c.0, Counted-append (suc s) ys x e c.1 h)

trim-Latest :
    (s : ℕ) (items : List Item) (e : ℕ)
    → Counted s items e
    → length items ≤ suc max_events
    → is_empty items ≡ false
    → (n : ℕ) × Counted n (trim items) e
      × (length (trim items) ≤ max_events)
      × (is_empty (trim items) ≡ false)
unfolding trim
trim-Latest s items e c h k = elim (Bool-cases (ltb max_events (length items))) [
  | inl f ↦ rw f (shorter items c h f)
  | inr f ↦ rw f (s, c, ground arith, k)
]
  where
    shorter :
        (items : List Item)
        → Counted s items e
        → length items ≤ suc max_events
        → ltb max_events (length items) ≡ true
        → (n : ℕ) × Counted n (drop 1 items) e
          × (length (drop 1 items) ≤ max_events)
          × (is_empty (drop 1 items) ≡ false)
    shorter [] c h f = absurd (ground (arith, f))
    shorter (x ∷ []) c h f = absurd (ground (arith, f))
    shorter (x ∷ y ∷ ys) c h f = (suc s, c.1, omega (arith, h), refl)

is_empty-append : (items : List Item) (x : Item) → is_empty (items ++ x ∷ []) ≡ false
is_empty-append [] x = refl
is_empty-append (y ∷ ys) x = refl

push-Latest :
    (now : ℕ) (kind : String) (detail : Option String) (r : EventRing)
    → Latest r
    → Latest (push now kind detail r)
unfolding push
push-Latest now kind detail r l = elim (Bool-cases r.terminal) [
  | inl e ↦ simp (e, push) l
  | inr e ↦
      let x : Item = record { seq = r.next_seq; at = now; kind = kind; detail = detail } in
      let (n, c, h, k) =
        trim-Latest l.from (r.items ++ x ∷ []) (r.next_seq + 1)
          (Counted-append l.from r.items x r.next_seq l.counted refl)
          (omega (arith, length-append r.items (x ∷ []), l.bounded)) (is_empty-append r.items x) in
      simp (e, push)
        (wake_waiters-Latest _ (record {
          from = n;
          counted = c;
          bounded = h;
          started = λ m. absurd (ground (arith, k, m));
        }))
]

read_after-same :
    (w : Reader) (wait_ms : ℕ) (r : EventRing)
    → ((read_after w wait_ms r).items ≡ r.items) × ((read_after w wait_ms r).next_seq ≡ r.next_seq)
unfolding read_after
read_after-same w wait_ms r = ground arith

pub step-Latest : (c : Call) (r : EventRing) → Latest r → Latest (step c r)
unfolding set_terminal reader_times_out
step-Latest (pushes now kind detail) r l = push-Latest now kind detail r l
step-Latest ends r l =
    wake_waiters-Latest (record r { terminal = true })
      (record { from = l.from; counted = l.counted; bounded = l.bounded; started = l.started })
step-Latest (reads w wait_ms) r l = let (e, f) = read_after-same w wait_ms r in same-Latest e f l
step-Latest (times_out w) r l = record {
  from = l.from;
  counted = l.counted;
  bounded = l.bounded;
  started = l.started;
}

-- Any calls keep the items of the ring numbered without a hole up to the last number given, at most 200 of
-- them, and at least one as soon as a number has been given.
pub run-Latest : (cs : List Call) (r : EventRing) → Latest r → Latest (run cs r)
run-Latest [] r l = l
run-Latest (c ∷ cs) r l = run-Latest cs (step c r) (step-Latest c r l)

pub empty_ring-Latest : Latest empty_ring
empty_ring-Latest = record { from = 1; counted = refl; bounded = omega arith; started = λ h. refl }
