-- ===== src/Sleep/Supervision/Deciding.antt =====
-- src/sleep/supervision.ts: what each decision on a failed attempt rests on.
use abmind.Prelude.{
  ℕ, ◌+◌, ◌<◌, ◌≤◌, ◌⊎◌, inl, inr, Bool-cases, ◌≡◌, refl, true, false, ◌&&◌, not, Option, none,
  some, ltb, leb, ◌==◌, arith,
}
use abmind.Sleep.Supervision.{
  FailureClass, transient, permanent, cancelled, unavailable, unknown, Facts, blocker,
  was_cancelled, exhausted, Decision, retry, suspend, stop, scheduled_wait, fits, hint_over,
  hinted_wait, schedule, decide_class, decide_recovery, is_retryable,
}

-- After a wait, 30 s of cleanup and 30 s of an attempt end by the cap; or not.
abbrev pub LeavesRoom : ℕ → Option ℕ → ℕ → Type 0
LeavesRoom now none wait = Unit
LeavesRoom now (some cap_at) wait = now + wait + 60000 ≤ cap_at

abbrev pub LeavesNone : ℕ → Option ℕ → ℕ → Type 0
LeavesNone now none wait = ⊥
LeavesNone now (some cap_at) wait = cap_at < now + wait + 60000

-- What a decision says of a failure, the attempts used, the allowance, the time and the cap.
abbrev pub Justified : FailureClass → Option ℕ → ℕ → ℕ → ℕ → Option ℕ → Decision → Type 0
Justified c hint used allowance now cap_at (retry wait hinted) =
    (is_retryable c ≡ true)
    × (used < allowance)
    × LeavesRoom now cap_at wait
    × (scheduled_wait used ≤ wait)
    × (hinted ≡ true → hint ≡ some wait)
    × (hinted ≡ false → wait ≡ scheduled_wait used)
Justified c hint used allowance now cap_at suspend =
    (is_retryable c ≡ true) × (used < allowance) × LeavesNone now cap_at (scheduled_wait used)
Justified c hint used allowance now cap_at (stop exhausted) =
    (is_retryable c ≡ true) × (allowance ≤ used)
Justified c hint used allowance now cap_at (stop was_cancelled) = c ≡ cancelled
Justified c hint used allowance now cap_at (stop blocker) = (c ≡ permanent) ⊎ (c ≡ unavailable)

fits-LeavesRoom :
    (now : ℕ) (cap_at : Option ℕ) (wait : ℕ)
    → fits now cap_at wait ≡ true
    → LeavesRoom now cap_at wait
fits-LeavesRoom now none wait h = tt
fits-LeavesRoom now (some cap_at) wait h = ground (arith, h)

fits-LeavesNone :
    (now : ℕ) (cap_at : Option ℕ) (wait : ℕ)
    → fits now cap_at wait ≡ false
    → LeavesNone now cap_at wait
fits-LeavesNone now none wait h = absurd (ground (arith, h))
fits-LeavesNone now (some cap_at) wait h = ground (arith, h)

-- The wait that is tried first.
hinted_wait-le :
    (hint : Option ℕ) (scheduled : ℕ)
    → (scheduled ≤ hinted_wait hint scheduled)
      × (hint_over hint scheduled ≡ true → hint ≡ some (hinted_wait hint scheduled))
      × (hint_over hint scheduled ≡ false → hinted_wait hint scheduled ≡ scheduled)
hinted_wait-le none scheduled = (omega arith, λ h. absurd (ground (arith, h)), λ h. refl)
hinted_wait-le (some t) scheduled = elim (Bool-cases (ltb scheduled t)) [
  | inl e ↦ rw e (ground (arith, e), λ h. refl, λ h. absurd (ground (arith, h)))
  | inr e ↦ rw e (omega arith, λ h. absurd (ground (arith, h)), λ h. refl)
]

schedule-Justified :
    (c : FailureClass) (facts : Facts) (used allowance now : ℕ) (cap_at : Option ℕ)
    → is_retryable c ≡ true
    → Justified c facts.retry_after_ms used allowance now cap_at
        (schedule facts used allowance now cap_at)
unfolding schedule
schedule-Justified c facts used allowance now cap_at go =
    let scheduled = scheduled_wait used in
    let hinted = hinted_wait facts.retry_after_ms scheduled in
    elim (Bool-cases (leb allowance used)) [
      | inl e ↦ rw e (go, ground (arith, e))
      | inr e ↦ elim (Bool-cases (fits now cap_at hinted)) [
        | inl f ↦
            rw (e, f)
              (let (low, over, same) = hinted_wait-le facts.retry_after_ms scheduled in
                (go, ground (arith, e), fits-LeavesRoom now cap_at hinted f, low, over, same))
        | inr f ↦ elim (Bool-cases (fits now cap_at scheduled)) [
          | inl g ↦ elim (Bool-cases (hinted == scheduled)) [
            | inl h ↦
                let same : hinted ≡ scheduled = ground (arith, h) in
                absurd (ground (arith, rw same at f, g))
            | inr h ↦
                rw (e, f, g, h)
                  (
                    go,
                    ground (arith, e),
                    fits-LeavesRoom now cap_at scheduled g,
                    omega arith,
                    λ k. absurd (ground (arith, k)),
                    λ k. refl,
                  )
          ]
          | inr g ↦
              let stop : (not (hinted == scheduled) && false) ≡ false = ground arith in
              rw (e, f, g, stop) (go, ground (arith, e), fits-LeavesNone now cap_at scheduled g)
        ]
      ]
    ]

decide_class-Justified :
    (c : FailureClass) (facts : Facts) (used allowance now : ℕ) (cap_at : Option ℕ)
    → Justified c facts.retry_after_ms used allowance now cap_at
        (decide_class c (schedule facts used allowance now cap_at))
unfolding decide_class
decide_class-Justified transient facts used allowance now cap_at =
    schedule-Justified transient facts used allowance now cap_at refl
decide_class-Justified unknown facts used allowance now cap_at =
    schedule-Justified unknown facts used allowance now cap_at refl
decide_class-Justified cancelled facts used allowance now cap_at = refl
decide_class-Justified permanent facts used allowance now cap_at = inl refl
decide_class-Justified unavailable facts used allowance now cap_at = inr refl

-- The decision on a failed attempt, in every case. It retries only a transient or unknown failure with
-- attempts left, where the wait, 30 s of cleanup and 30 s of an attempt end by the cap of the run, if it has
-- one; the wait is the one of the schedule, or a hint of the provider that is not shorter. It suspends such
-- work only where even the wait of the schedule leaves too little, calls it exhausted only when no attempt
-- is left, and stops at once only for a cancelled, a permanent or an unavailable failure.
pub decide_recovery-Justified :
    (facts : Facts) (used allowance now : ℕ) (cap_at : Option ℕ)
    → Justified facts.failure_class facts.retry_after_ms used allowance now cap_at
        (decide_recovery facts used allowance now cap_at)
unfolding decide_recovery
decide_recovery-Justified facts used allowance now cap_at =
    decide_class-Justified facts.failure_class facts used allowance now cap_at
