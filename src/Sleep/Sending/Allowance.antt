-- ===== src/Sleep/Sending/Allowance.antt =====
-- src/sleep/llm-budget.ts: the attempts of `sendToRuntime` and the calls charged, counted.
use abmind.Prelude.{
  ℕ, zero, suc, ◌+◌, ◌-◌, ◌≤◌, ◌<◌, ◌≡◌, refl, String, Bool, true, false, ◌&&◌, not, Option, none,
  some, ltb, leb, arith, Bool-cases, inl, inr,
}
use abmind.Sleep.Supervision.Deciding.{decide_recovery-Justified}
use abmind.Sleep.Supervision.{Facts, classify, Decision, retry, suspend, stop, cleanup_headroom_ms}
use abmind.Sleep.Sending.{
  Budget, consume, Reply, deadline_exceeded, refused, rejected, blank, answered, Turn, Outcome,
  proceed, out_of_fuel, Sent, allowance, charge, is_charged, Ending, ends, goes_on, act, recover,
  accept_text, accept_blank, answer_turn, attempt, attempts, send_to_runtime, cycle_cap,
  cycle_too_near, cap_passed, max_domain_retries,
}

-- A result of the code, not of the bound on the rounds.
abbrev pub is_final : Outcome → Bool
is_final out_of_fuel = false
is_final o = true

-- What a round keeps: it charges one call at most, and goes on only below the allowance.
abbrev Fair : ℕ → ℕ → Budget → Ending → Type 0
Fair max used b (ends o n b') = (is_final o ≡ true) × (n ≤ suc used) × (b'.calls ≤ suc b.calls)
Fair max used b (goes_on b') = (suc used < max) × (b'.calls ≤ suc b.calls)

consume-calls : (b : Budget) → (consume b).0.calls ≡ suc b.calls
unfolding consume
consume-calls b = elim (Bool-cases (ltb b.limit (b.calls + 1))) [
  | inl e ↦ rw e (omega arith)
  | inr e ↦ rw e (omega arith)
]

charge-calls : (facts : Facts) (b : Budget) → (charge facts b).calls ≤ suc b.calls
charge-calls facts b = elim (Bool-cases (is_charged facts.reached_model)) [
  | inl e ↦ rw e (omega (arith, consume-calls b))
  | inr e ↦ rw e (omega arith)
]

act-Fair :
    (max used : ℕ) (b b' : Budget) (t : Turn) (d : Decision)
    → ((wait : ℕ) (hint : Bool) → d ≡ retry wait hint → suc used < max)
    → b'.calls ≤ suc b.calls
    → Fair max used b (act d t (suc used) b')
unfolding act
act-Fair max used b b' t (retry wait hint) below h = elim (Bool-cases t.waited) [
  | inl e ↦ rw e (below wait hint refl, h)
  | inr e ↦ rw e (refl, omega arith, h)
]
act-Fair max used b b' t suspend below h = (refl, omega arith, h)
act-Fair max used b b' t (stop d) below h = (refl, omega arith, h)

accept_text-Fair :
    (max used : ℕ) (b : Budget) (s : String) (r : Budget × Bool)
    → r.0.calls ≤ suc b.calls
    → Fair max used b (accept_text s (suc used) r)
unfolding accept_text
accept_text-Fair max used b s (b', true) h = (refl, omega arith, h)
accept_text-Fair max used b s (b', false) h = (refl, omega arith, h)

accept_blank-Fair :
    (max used : ℕ) (b : Budget) (t : Turn) (r : Budget × Bool)
    → r.0.calls ≤ suc b.calls
    → Fair max used b (accept_blank t max (suc used) r)
unfolding accept_blank
accept_blank-Fair max used b t (b', false) h = (refl, omega arith, h)
accept_blank-Fair max used b t (b', true) h = elim (Bool-cases (leb max (suc used))) [
  | inl e ↦ rw e (refl, omega arith, h)
  | inr e ↦ elim (Bool-cases t.aborted_after) [
    | inl f ↦ rw (e, f) (refl, omega arith, h)
    | inr f ↦ rw (e, f) (ground arith, h)
  ]
]

answer_turn-Fair :
    (r : Reply) (t : Turn) (max : ℕ) (cap_at : Option ℕ) (used : ℕ) (b : Budget)
    → Fair max used b (answer_turn r t max cap_at used b)
unfolding answer_turn recover
answer_turn-Fair deadline_exceeded t max cap_at used b =
    (refl, omega arith, omega (arith, consume-calls b))
answer_turn-Fair refused t max cap_at used b = (refl, omega arith, omega arith)
answer_turn-Fair (rejected failure) t max cap_at used b =
    act-Fair max used b (charge (classify failure) b) t _
      (λ wait hint e.
        (rw e at
          (decide_recovery-Justified (classify failure) (suc used) max t.decided_at cap_at)).1)
      (charge-calls (classify failure) b)
answer_turn-Fair blank t max cap_at used b =
    accept_blank-Fair max used b t (consume b) (omega (arith, consume-calls b))
answer_turn-Fair (answered s) t max cap_at used b =
    accept_text-Fair max used b s (consume b) (omega (arith, consume-calls b))

attempt-Fair :
    (t : Turn) (max window : ℕ) (cap_at : Option ℕ) (used : ℕ) (b : Budget)
    → Fair max used b (attempt t max window cap_at used b)
unfolding attempt
attempt-Fair t max window cap_at used b = elim (Bool-cases t.aborted) [
  | inl e ↦ rw e (refl, omega arith, omega arith)
  | inr e ↦ elim (Bool-cases (leb window cleanup_headroom_ms)) [
    | inl f ↦ rw (e, f) (refl, omega arith, omega arith)
    | inr f ↦ elim (Bool-cases (cap_passed cap_at t.started_at)) [
      | inl g ↦ rw (e, f, g) (refl, omega arith, omega arith)
      | inr g ↦ simp (e, f, g, attempt) (answer_turn-Fair t.reply t max cap_at used b)
    ]
  ]
]

-- What is promised of a run of attempts.
record Within (max used : ℕ) (b : Budget) (s : Sent) : Type 0 where
  final : is_final s.outcome ≡ true
  few : s.used ≤ max
  charged : s.budget.calls + used ≤ b.calls + max

proceed-Within :
    (max used : ℕ) (b : Budget) (e : Ending) (k : Budget → Sent)
    → used < max
    → Fair max used b e
    → ((b' : Budget) → suc used < max → Within max (suc used) b' (k b'))
    → Within max used b (proceed e k)
unfolding proceed
proceed-Within max used b (ends o n b') k below f rest = record {
  final = f.0;
  few = omega (arith, f);
  charged = omega (arith, f);
}
proceed-Within max used b (goes_on b') k below f rest =
    let r = rest b' f.0 in
    record { final = r.final; few = r.few; charged = omega (arith, f, r.charged) }

attempts-Within :
    (fuel : ℕ) (turns : ℕ → Turn) (max window : ℕ) (cap_at : Option ℕ) (used : ℕ) (b : Budget)
    → used < max
    → max ≤ used + fuel
    → Within max used b (attempts fuel turns max window cap_at used b)
unfolding attempts
attempts-Within zero turns max window cap_at used b h k = ground arith
attempts-Within (suc fuel) turns max window cap_at used b h k =
    proceed-Within max used b _ _ h (attempt-Fair (turns used) max window cap_at used b)
      (λ b' below. attempts-Within fuel turns max window cap_at (suc used) b' below (omega arith))

allowance-bounds : (o : Option ℕ) → (0 < allowance o) × (allowance o ≤ max_domain_retries)
unfolding allowance
allowance-bounds none = (omega arith, omega arith)
allowance-bounds (some n) = elim (Bool-cases (leb 1 n)) [
  | inl e ↦ rw e (ground arith, ground arith)
  | inr e ↦ rw e (omega arith, omega arith)
]

-- `sendToRuntime` comes to a result, and stays within its allowance: whatever the runtime answers and
-- the clock shows, it ends after at most the allowed attempts, four at most, and charges the budget no
-- more calls than that.
pub send_to_runtime-ends :
    (turns : ℕ → Turn) (proposal_only capable : Bool) (max_attempts : Option ℕ)
    (deadline_at now : ℕ) (cycle : Option ℕ) (b : Budget)
    → (is_final
          (send_to_runtime turns proposal_only capable max_attempts deadline_at now cycle b).outcome
        ≡ true)
      × ((send_to_runtime turns proposal_only capable max_attempts deadline_at now cycle b).used
          ≤ allowance max_attempts)
      × (allowance max_attempts ≤ 4)
      × ((send_to_runtime turns proposal_only capable max_attempts deadline_at now cycle
            b).budget.calls
          ≤ b.calls + allowance max_attempts)
unfolding send_to_runtime
send_to_runtime-ends turns proposal_only capable max_attempts deadline_at now cycle b =
    let (some_left, four) = allowance-bounds max_attempts in
    elim (Bool-cases b.exhausted) [
      | inl e ↦ rw e (refl, omega arith, four, omega arith)
      | inr e ↦ elim (Bool-cases (proposal_only && not capable)) [
        | inl f ↦ simp (e, f, send_to_runtime) (refl, omega arith, four, omega arith)
        | inr f ↦ elim (Bool-cases (leb deadline_at (now + cleanup_headroom_ms))) [
          | inl g ↦ simp (e, f, g, send_to_runtime) (refl, omega arith, four, omega arith)
          | inr g ↦ elim (Bool-cases (cycle_too_near cycle now)) [
            | inl h ↦ simp (e, f, g, h, send_to_runtime) (refl, omega arith, four, omega arith)
            | inr h ↦
                let w =
                  attempts-Within (allowance max_attempts) turns (allowance max_attempts)
                    (deadline_at - now) (cycle_cap cycle) 0 b some_left (omega arith) in
                simp (e, f, g, h, send_to_runtime) (w.final, w.few, four, omega (arith, w.charged))
          ]
        ]
      ]
    ]
