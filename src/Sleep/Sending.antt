-- ===== src/Sleep/Sending.antt =====
-- src/sleep/llm-budget.ts: `LlmBudget`, and the attempts of `sendToRuntime`. What an attempt meets
-- (its clock, the runtime's answer, the caller's signal) is a `Turn`, given for each number of
-- attempts used. The length of a wait, the deadline in a request, the messages and the evidence are
-- left out.
pub mod Allowance
mod Tests
use abmind.Prelude.{
  ℕ, zero, suc, ◌+◌, ◌-◌, ◌≤◌, ◌<◌, ◌≡◌, ◌≢◌, refl, String, Bool, true, false, ◌&&◌, ◌||◌, not,
  Option, none, some, ltb, leb, if◌then◌else◌, min, arith, Bool-cases, inl, inr, Option-cases,
}
use abmind.Sleep.Supervision.{
  Facts, FailureInput, classify, decide_recovery, Decision, Disposition, retry, suspend, stop,
  cleanup_headroom_ms,
}

pub record Budget : Type 0 where
  pub calls : ℕ
  pub limit : ℕ
  pub exhausted : Bool

-- The budget after a call, and whether it lasts.
pub consume : Budget → Budget × Bool
consume b =
    if ltb b.limit (b.calls + 1)
    then (record b { calls = b.calls + 1; exhausted = true }, false)
    else (record b { calls = b.calls + 1 }, true)

pub can_spend_ordinary : ℕ → Budget → Bool
can_spend_ordinary reserve_slots b = not b.exhausted && leb (b.calls + reserve_slots) b.limit

-- What `runtime.complete` does: `blank` is a text that `trim` empties.
pub data Reply : Type 0 where
  deadline_exceeded refused : Reply
  rejected : FailureInput → Reply
  blank : Reply
  answered : String → Reply

pub record Turn : Type 0 where
  pub aborted : Bool
  pub started_at : ℕ
  pub reply : Reply
  pub decided_at : ℕ
  pub waited : Bool
  pub aborted_after : Bool

pub data Outcome : Type 0 where
  text : String → Outcome
  null : Outcome
  unenforced step_deadline no_provider invalid_response : Outcome
  transport_failed : Disposition → Outcome
  out_of_fuel : Outcome

pub record Sent : Type 0 where
  pub outcome : Outcome
  pub used : ℕ
  pub budget : Budget

abbrev pub max_domain_retries : ℕ
max_domain_retries = 4

pub allowance : Option ℕ → ℕ
allowance none = max_domain_retries
allowance (some n) = if leb 1 n then min n max_domain_retries else max_domain_retries

abbrev pub ended : Outcome → ℕ → Budget → Sent
ended o used b = record { outcome = o; used = used; budget = b }

abbrev pub cap_passed : Option ℕ → ℕ → Bool
cap_passed none t = false
cap_passed (some cap_at) t = leb cap_at (t + cleanup_headroom_ms)

-- facts.reachedModel !== false
abbrev pub is_charged : Option Bool → Bool
is_charged (some false) = false
is_charged o = true

abbrev pub charge : Facts → Budget → Budget
charge facts b = if is_charged facts.reached_model then (consume b).0 else b

-- What ends the loop at a turn, or the budget with which it goes on.
pub data Ending : Type 0 where
  ends : Outcome → ℕ → Budget → Ending
  goes_on : Budget → Ending

-- What a decision makes of a turn.
pub act : Decision → Turn → ℕ → Budget → Ending
act (retry wait hint) t used b = if t.waited then goes_on b else ends null used b
act suspend t used b = ends null used b
act (stop d) t used b = ends (transport_failed d) used b

-- The catch branch for a rejection that is neither a deadline nor a refusal.
pub recover : Turn → FailureInput → ℕ → Option ℕ → ℕ → Budget → Ending
recover t failure max cap_at used b =
    let facts = classify failure in
    act (decide_recovery facts used max t.decided_at cap_at) t used (charge facts b)

-- The branch for an answer: `used` counts it already.
pub accept_text : String → ℕ → Budget × Bool → Ending
accept_text s used (b, false) = ends null used b
accept_text s used (b, true) = ends (text s) used b

pub accept_blank : Turn → ℕ → ℕ → Budget × Bool → Ending
accept_blank t max used (b, false) = ends null used b
accept_blank t max used (b, true) =
    if leb max used
    then ends invalid_response used b
    else if t.aborted_after
    then ends null used b
    else goes_on b

pub answer_turn : Reply → Turn → ℕ → Option ℕ → ℕ → Budget → Ending
answer_turn deadline_exceeded t max cap_at used b = ends step_deadline used (consume b).0
answer_turn refused t max cap_at used b = ends no_provider used b
answer_turn (rejected failure) t max cap_at used b = recover t failure max cap_at (suc used) b
answer_turn blank t max cap_at used b = accept_blank t max (suc used) (consume b)
answer_turn (answered s) t max cap_at used b = accept_text s (suc used) (consume b)

-- One round of the loop, at the number of attempts used so far.
pub attempt : Turn → ℕ → ℕ → Option ℕ → ℕ → Budget → Ending
attempt t max window cap_at used b =
    if t.aborted
    then ends null used b
    else if leb window cleanup_headroom_ms
    then ends step_deadline used b
    else if cap_passed cap_at t.started_at
    then ends null used b
    else answer_turn t.reply t max cap_at used b

pub proceed : Ending → (Budget → Sent) → Sent
proceed (ends o n b) k = ended o n b
proceed (goes_on b) k = k b

-- The loop, at most `fuel` rounds of it.
pub attempts : ℕ → (ℕ → Turn) → ℕ → ℕ → Option ℕ → ℕ → Budget → Sent
attempts zero turns max window cap_at used b = ended out_of_fuel used b
attempts (suc fuel) turns max window cap_at used b =
    proceed (attempt (turns used) max window cap_at used b)
      (λ b'. attempts fuel turns max window cap_at (suc used) b')

-- The cap of the attempt windows; a cycle deadline that is too near never gets here.
abbrev pub cycle_cap : Option ℕ → Option ℕ
cycle_cap none = none
cycle_cap (some cycle) = some (cycle - cleanup_headroom_ms)

abbrev pub cycle_too_near : Option ℕ → ℕ → Bool
cycle_too_near none now = false
cycle_too_near (some cycle) now = leb cycle (now + cleanup_headroom_ms + cleanup_headroom_ms)

-- `sendToRuntime` with a budget: `capable` is `isProposalCapable`, `now` the clock on entry.
pub send_to_runtime : (ℕ → Turn) → Bool → Bool → Option ℕ → ℕ → ℕ → Option ℕ → Budget → Sent
send_to_runtime turns proposal_only capable max_attempts deadline_at now cycle b =
    if b.exhausted
    then ended null 0 b
    else if proposal_only && not capable
    then ended unenforced 0 b
    else if leb deadline_at (now + cleanup_headroom_ms)
    then ended step_deadline 0 b
    else if cycle_too_near cycle now
    then ended null 0 b
    else attempts (allowance max_attempts) turns (allowance max_attempts) (deadline_at - now)
        (cycle_cap cycle) 0 b
