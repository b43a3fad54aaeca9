-- ===== src/Remote/Outbox/Delivery.antt =====
-- src/remote/request-outbox.ts: what the mutating methods keep, over memory and disk.
use abmind.Prelude.{
  ℕ, suc, ◌≤◌, ◌≡◌, refl, sym, ap, ◌∙◌, leb, ltb, inl, inr, String, Bool, true, false, ◌||◌, Option,
  List, [], ◌∷◌, ◌++◌, map, arith, length, length-append, length-filter-le, Bool-cases,
  Option-cases, not,
}
use abmind.Remote.Outbox.{
  Entry, Outbox, Disk, DeliveryState, RetryFailure, is_terminal, is_in_flight, has_id, commit,
  modify, remove, append, get, mark_in_flight, mark_retry_wait, mark_terminal_unknown, acknowledge,
  prune_terminal_unknown, max_entries, max_entry_bytes, to_in_flight, undo_in_flight, to_retry_wait,
  to_terminal, undo_terminal, dropped, contains, is_nil,
}

-- A call of a mutating method, with the clock that it reads.
pub data Call : Type 0 where
  appends : Entry → Call
  marks_in_flight : ℕ → String → Call
  marks_retry_wait : ℕ → String → RetryFailure → ℕ → Call
  marks_terminal : String → RetryFailure → Call
  acknowledges : String → Call
  prunes : ℕ → Call

abbrev pub apply : Disk → Call → Outbox → Outbox × Bool
apply d (appends e) o = append d e o
apply d (marks_in_flight now i) o = mark_in_flight d now i o
apply d (marks_retry_wait now i failure next) o = mark_retry_wait d now i failure next o
apply d (marks_terminal i failure) o = mark_terminal_unknown d i failure o
apply d (acknowledges i) o = acknowledge d i o
apply d (prunes now) o = prune_terminal_unknown d now o

-- A call with the disk as it is at that time.
abbrev pub run : List (Disk × Call) → Outbox → Outbox
run [] o = o
run ((d, c) ∷ cs) o = run cs (apply d c o).0

-- What identifies an entry and decides its delivery.
abbrev pub core : Entry → String × DeliveryState × ℕ × Option ℕ
core e = (e.id, e.state, e.attempts, e.next_attempt_at)

-- A change of the entries: it stays within the limit, and what a failed write restores has the
-- entries of before, up to lastAttemptAt and lastFailure.
record Change (es next restored : List Entry) : Type 0 where
  bounded : length es ≤ max_entries → length next ≤ max_entries
  restores : map core restored ≡ map core es

length-core : (es : List Entry) → length (map core es) ≡ length es
length-core [] = refl
length-core (e ∷ es) = ap suc (length-core es)

abbrev survives : ℕ → Outbox → Entry → Bool
survives now o e = not (contains e.id (dropped now 0 o.entries))

-- A method leaves the outbox alone or commits a change.
data Effect (d : Disk) (o : Outbox) : Outbox × Bool → Type 0 where
  leaves : (b : Bool) → Effect d o (o, b)
  commits :
      (next restored : List Entry)
      → Change o.entries next restored
      → Effect d o (commit d o next restored)

length-modify :
    (i : String) (f : Entry → Entry) (es : List Entry) → length (modify i f es) ≡ length es
unfolding modify
length-modify i f [] = refl
length-modify i f (e ∷ es) = ground (arith, length-modify i f es)

length-remove : (i : String) (es : List Entry) → length (remove i es) ≤ length es
unfolding remove
length-remove i [] = omega arith
length-remove i (e ∷ es) = ground (arith, length-remove i es)

core-modify :
    (i : String) (f : Entry → Entry)
    → ((e : Entry) → core (f e) ≡ core e)
    → (es : List Entry) → map core (modify i f es) ≡ map core es
unfolding modify
core-modify i f same [] = refl
core-modify i f same (e ∷ es) = elim (Bool-cases (has_id i e)) [
  | inl hit ↦ rw hit (ap (λ x. x ∷ map core es) (same e))
  | inr miss ↦ rw miss (ap (◌∷◌ (core e)) (core-modify i f same es))
]

modify-Change :
    (i : String) (f g : Entry → Entry) (es : List Entry)
    → ((e : Entry) → core (g e) ≡ core e)
    → Change es (modify i f es) (modify i g es)
modify-Change i f g es same = record {
  bounded = λ h. omega (arith, length-modify i f es);
  restores = core-modify i g same es;
}

append-Effect : (d : Disk) (e : Entry) (o : Outbox) → Effect d o (append d e o)
unfolding append
append-Effect d e o = elim (Bool-cases (o.quarantined || o.degraded)) [
  | inl stop ↦ rw stop (leaves false)
  | inr go ↦ elim (Bool-cases (leb max_entries (length o.entries))) [
    | inl full ↦ rw (go, full) (leaves false)
    | inr room ↦ elim (Bool-cases (ltb max_entry_bytes (d.entry_size e))) [
      | inl big ↦ rw (go, room, big) (leaves false)
      | inr fits ↦
          rw (go, room, fits)
            (commits (o.entries ++ e ∷ []) o.entries (record {
              bounded = λ h. ground (arith, length-append o.entries (e ∷ []));
              restores = refl;
            }))
    ]
  ]
]

mark_in_flight-Effect :
    (d : Disk) (now : ℕ) (i : String) (o : Outbox) → Effect d o (mark_in_flight d now i o)
unfolding mark_in_flight
mark_in_flight-Effect d now i o = elim (Option-cases (get i o)) [
  | inl e ↦ rw (e, mark_in_flight) (leaves false)
  | inr (r, e) ↦ elim (Bool-cases (is_in_flight r.state || is_terminal r.state)) [
    | inl stop ↦ rw (e, mark_in_flight, stop) (leaves false)
    | inr go ↦
        rw (e, mark_in_flight, go)
          (commits _ _ (modify-Change i (to_in_flight now) undo_in_flight o.entries (λ e. refl)))
  ]
]

mark_retry_wait-Effect :
    (d : Disk) (now : ℕ) (i : String) (failure : RetryFailure) (next : ℕ) (o : Outbox)
    → Effect d o (mark_retry_wait d now i failure next o)
unfolding mark_retry_wait
mark_retry_wait-Effect d now i failure next o = elim (Option-cases (get i o)) [
  | inl e ↦ rw (e, mark_retry_wait) (leaves false)
  | inr (r, e) ↦ elim (Bool-cases (is_terminal r.state)) [
    | inl stop ↦ rw (e, mark_retry_wait, stop) (leaves false)
    | inr go ↦
        rw (e, mark_retry_wait, go)
          (commits _ _ (record {
            bounded =
                λ h. omega (arith, length-modify i (to_retry_wait failure now next) o.entries);
            restores = refl;
          }))
  ]
]

mark_terminal_unknown-Effect :
    (d : Disk) (i : String) (failure : RetryFailure) (o : Outbox)
    → Effect d o (mark_terminal_unknown d i failure o)
unfolding mark_terminal_unknown
mark_terminal_unknown-Effect d i failure o = elim (Option-cases (get i o)) [
  | inl e ↦ rw (e, mark_terminal_unknown) (leaves false)
  | inr (r, e) ↦ elim (Bool-cases (is_terminal r.state)) [
    | inl stop ↦ rw (e, mark_terminal_unknown, stop) (leaves false)
    | inr go ↦
        rw (e, mark_terminal_unknown, go)
          (commits _ _ (modify-Change i (to_terminal failure) undo_terminal o.entries (λ e. refl)))
  ]
]

acknowledge-Effect : (d : Disk) (i : String) (o : Outbox) → Effect d o (acknowledge d i o)
unfolding acknowledge
acknowledge-Effect d i o = elim (Option-cases (get i o)) [
  | inl e ↦ rw (e, acknowledge) (leaves true)
  | inr (r, e) ↦
      rw (e, acknowledge)
        (commits (remove i o.entries) o.entries
          (record { bounded = λ h. omega (arith, length-remove i o.entries); restores = refl }))
]

prune-Effect : (d : Disk) (now : ℕ) (o : Outbox) → Effect d o (prune_terminal_unknown d now o)
unfolding prune_terminal_unknown
prune-Effect d now o = elim (Bool-cases (is_nil (dropped now 0 o.entries))) [
  | inl none_old ↦ rw none_old (leaves true)
  | inr some_old ↦ rw some_old (
      commits _ o.entries (record {
        bounded = λ h. omega (arith, length-filter-le (survives now o) o.entries);
        restores = refl;
      }))
]

apply-Effect : (d : Disk) (c : Call) (o : Outbox) → Effect d o (apply d c o)
apply-Effect d (appends e) o = append-Effect d e o
apply-Effect d (marks_in_flight now i) o = mark_in_flight-Effect d now i o
apply-Effect d (marks_retry_wait now i failure next) o =
    mark_retry_wait-Effect d now i failure next o
apply-Effect d (marks_terminal i failure) o = mark_terminal_unknown-Effect d i failure o
apply-Effect d (acknowledges i) o = acknowledge-Effect d i o
apply-Effect d (prunes now) o = prune-Effect d now o

-- `commit` either persists the change or restores memory and marks the outbox degraded.
pub commit-true :
    (d : Disk) (o : Outbox) (next restored : List Entry)
    → (commit d o next restored).1 ≡ true
    → ((commit d o next restored).0.entries ≡ next) × ((commit d o next restored).0.disk ≡ next)
unfolding commit
commit-true d o next restored h = ground arith

pub commit-false :
    (d : Disk) (o : Outbox) (next restored : List Entry)
    → (commit d o next restored).1 ≡ false
    → ((commit d o next restored).0.entries ≡ restored)
      × ((commit d o next restored).0.disk ≡ o.disk)
      × ((commit d o next restored).0.degraded ≡ true)
unfolding commit
commit-false d o next restored h = ground arith

Effect-synced :
    {d : Disk} {o : Outbox} {r : Outbox × Bool}
    → Effect d o r
    → o.disk ≡ o.entries
    → r.1 ≡ true
    → r.0.disk ≡ r.0.entries
Effect-synced (leaves b) s h = s
Effect-synced {d} {o} (commits next restored c) s h =
    let (m, k) = commit-true d o next restored h in k ∙ sym m

Effect-restored :
    {d : Disk} {o : Outbox} {r : Outbox × Bool}
    → Effect d o r
    → r.1 ≡ false
    → (r.0.disk ≡ o.disk) × (map core r.0.entries ≡ map core o.entries)
Effect-restored (leaves b) h = (refl, refl)
Effect-restored {d} {o} (commits next restored c) h =
    let (m, k, _) = commit-false d o next restored h in (k, ap (map core) m ∙ c.restores)

Effect-bounded :
    {d : Disk} {o : Outbox} {r : Outbox × Bool}
    → Effect d o r
    → length o.entries ≤ max_entries
    → length r.0.entries ≤ max_entries
Effect-bounded (leaves b) h = h
Effect-bounded {d} {o} (commits next restored c) h =
    elim (Bool-cases (commit d o next restored).1) [
      | inl done ↦ rw ((commit-true d o next restored done).0) (c.bounded h)
      | inr failed ↦
          rw ((commit-false d o next restored failed).0)
            (omega (arith, length-core restored, length-core o.entries, ap length c.restores))
    ]

-- Durability: a call of any mutating method that answers true leaves the file equal to the entries in
-- memory, if it was before.
pub apply-durable :
    (d : Disk) (c : Call) (o : Outbox)
    → o.disk ≡ o.entries
    → (apply d c o).1 ≡ true
    → (apply d c o).0.disk ≡ (apply d c o).0.entries
apply-durable d c o s h = Effect-synced (apply-Effect d c o) s h

-- Atomicity: a call of any mutating method that answers false leaves the file as it was, and the
-- entries in memory as they were in number, order, id, state, attempts and next attempt.
pub apply-atomic :
    (d : Disk) (c : Call) (o : Outbox)
    → (apply d c o).1 ≡ false
    → ((apply d c o).0.disk ≡ o.disk) × (map core (apply d c o).0.entries ≡ map core o.entries)
apply-atomic d c o h = Effect-restored (apply-Effect d c o) h

-- The outbox never holds more than 200 entries, after any calls on any disk.
pub run-bounded :
    (cs : List (Disk × Call)) (o : Outbox)
    → length o.entries ≤ max_entries
    → length (run cs o).entries ≤ max_entries
run-bounded [] o h = h
run-bounded ((d, c) ∷ cs) o h =
    run-bounded cs (apply d c o).0 (Effect-bounded (apply-Effect d c o) h)
