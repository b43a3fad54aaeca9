-- ===== src/Sleep/Supervision.antt =====
-- src/sleep/supervision.ts: what becomes of a failed attempt. The details and reasons that are only
-- shown are left out. A reason code is what `boundedReasonCode` makes of it, and the text that is
-- searched is the message and the detail in lower case.
pub mod Deciding
use text.Mathlib.Text.{find?}
use abmind.Prelude.{
  ℕ, zero, suc, ◌+◌, ◌<◌, ◌≤◌, ◌⊎◌, inl, inr, Bool-cases, ◌≡◌, refl, String, Bool, true, false,
  ◌&&◌, ◌||◌, not, Option, none, some, List, [], ◌∷◌, str_eq, ltb, leb, ◌==◌, if◌then◌else◌,
  is_none, min, arith,
}

pub data FailureClass : Type 0 where
  transient permanent cancelled unavailable unknown : FailureClass

pub data Effects : Type 0 where
  absent reconcilable unknown_effects : Effects

pub record Facts : Type 0 where
  pub failure_class : FailureClass
  pub retry_after_ms : Option ℕ
  pub reached_model : Option Bool
  pub effects : Option Effects
  pub reason_code : Option String

-- The fields of a `SleepFailure` that are read here.
pub record Failure : Type 0 where
  pub cause : String
  pub failure_class : Option FailureClass
  pub retry_after_ms : Option ℕ
  pub reached_model : Option Bool
  pub effects : Option Effects
  pub reason_code : Option String

pub record FailureInput : Type 0 where
  pub failure : Option Failure
  pub admission_code : String
  pub text : String

abbrev pub max_supervised_attempts : ℕ
max_supervised_attempts = 4

abbrev pub cleanup_headroom_ms : ℕ
cleanup_headroom_ms = 30000

abbrev pub min_attempt_window_ms : ℕ
min_attempt_window_ms = 30000

unfoldable pub positive_ms : Option ℕ → Option ℕ
positive_ms none = none
positive_ms (some t) = if leb t 0 then none else some (min t 3600000)

unfoldable pub has : List String → String → Bool
has [] text = false
has (n ∷ ns) text = not (is_none (find? text n)) || has ns text

abbrev pub cause_is : String → Option Failure → Bool
cause_is c none = false
cause_is c (some f) = str_eq f.cause c

abbrev pub code_of : Option Failure → Option String
code_of none = none
code_of (some f) = f.reason_code

abbrev pub retry_after_of : Option Failure → Option ℕ
retry_after_of none = none
retry_after_of (some f) = positive_ms f.retry_after_ms

abbrev pub reached_of : Option Failure → Option Bool
reached_of none = none
reached_of (some f) = f.reached_model

abbrev pub class_of : Option Failure → Option FailureClass
class_of none = none
class_of (some f) = f.failure_class

abbrev pub effects_of : Option Failure → Option Effects
effects_of none = none
effects_of (some f) = f.effects

abbrev pub cancel_words : List String
cancel_words =
    "cancelled" ∷ "abort" ∷ "sleep cancelled" ∷ "cycle timeout" ∷ "sleep cycle timeout" ∷ []

abbrev pub blocker_words : List String
blocker_words =
    "401" ∷ "unauthorized" ∷ "unauthenticated" ∷ "forbidden" ∷ "403" ∷ "credit" ∷ "billing"
    ∷ "quota" ∷ "insufficient" ∷ "payment" ∷ "policy_rejected" ∷ "capability_mismatch"
    ∷ "permission denied" ∷ []

abbrev pub transient_words : List String
transient_words =
    "429" ∷ "rate limit" ∷ "ratelimit" ∷ "retry" ∷ "503" ∷ "502" ∷ "504" ∷ "overload"
    ∷ "temporarily" ∷ "try again" ∷ "econnreset" ∷ "etimedout" ∷ "econnrefused" ∷ "enotfound"
    ∷ "connection refused" ∷ "connection reset" ∷ "refused" ∷ "reset by peer" ∷ "network"
    ∷ "socket hang up" ∷ "timeout" ∷ "timed out" ∷ "deadline" ∷ "provider_failed" ∷ []

abbrev pub is_admission_refusal : String → Bool
is_admission_refusal code =
    str_eq code "provider_unavailable"
    || str_eq code "completion_pending"
    || str_eq code "capability_mismatch"

-- The part of `classifyExecutionFailure` for a failure without a class.
unfoldable pub interpret : FailureInput → Facts
interpret i =
    let code = code_of i.failure in
    if cause_is "aborted" i.failure
      || str_eq i.admission_code "cancelled"
      || has cancel_words i.text
    then record {
      failure_class = cancelled;
      retry_after_ms = none;
      reached_model = none;
      effects = none;
      reason_code = code;
    }
    else if is_admission_refusal i.admission_code
        || cause_is "completion_settlement_failed" i.failure
    then record {
      failure_class = unavailable;
      retry_after_ms = none;
      reached_model = some false;
      effects = none;
      reason_code = code;
    }
    else if cause_is "policy_rejected" i.failure || has blocker_words i.text
    then record {
      failure_class = permanent;
      retry_after_ms = none;
      reached_model = some false;
      effects = none;
      reason_code = code;
    }
    else if has transient_words i.text
    then record {
      failure_class = transient;
      retry_after_ms = retry_after_of i.failure;
      reached_model = reached_of i.failure;
      effects = none;
      reason_code = code;
    }
    else record {
      failure_class = unknown;
      retry_after_ms = none;
      reached_model = none;
      effects = some unknown_effects;
      reason_code = code;
    }

unfoldable pub classify : FailureInput → Facts
classify i = elim (class_of i.failure) [
  | some c ↦ record {
    failure_class = c;
    retry_after_ms = retry_after_of i.failure;
    reached_model = reached_of i.failure;
    effects = effects_of i.failure;
    reason_code = code_of i.failure;
  }
  | none ↦ interpret i
]

pub data Disposition : Type 0 where
  blocker was_cancelled exhausted : Disposition

pub data Decision : Type 0 where
  retry : ℕ → Bool → Decision
  suspend : Decision
  stop : Disposition → Decision

-- SUPERVISION_WAITS_MS at an attempt, and 0 before the first
unfoldable pub scheduled_wait : ℕ → ℕ
scheduled_wait zero = 0
scheduled_wait (suc zero) = 20000
scheduled_wait (suc (suc zero)) = 60000
scheduled_wait n = 300000

-- A cap of none is the infinite one.
abbrev pub fits : ℕ → Option ℕ → ℕ → Bool
fits now none wait = true
fits now (some cap_at) wait = leb (now + wait + cleanup_headroom_ms + min_attempt_window_ms) cap_at

abbrev pub hint_over : Option ℕ → ℕ → Bool
hint_over none scheduled = false
hint_over (some h) scheduled = ltb scheduled h

abbrev pub hinted_wait : Option ℕ → ℕ → ℕ
hinted_wait none scheduled = scheduled
hinted_wait (some h) scheduled = if ltb scheduled h then h else scheduled

-- The part of `decideRecovery` that follows the classes which end the work.
unfoldable pub schedule : Facts → ℕ → ℕ → ℕ → Option ℕ → Decision
schedule facts used allowance now cap_at =
    if leb allowance used
    then stop exhausted
    else let scheduled = scheduled_wait used in
      let hinted = hinted_wait facts.retry_after_ms scheduled in
      if fits now cap_at hinted
      then retry hinted (hint_over facts.retry_after_ms scheduled)
      else if not (hinted == scheduled) && fits now cap_at scheduled
      then retry scheduled false
      else suspend

-- A class that ends the work, or the decision of the schedule.
unfoldable pub decide_class : FailureClass → Decision → Decision
decide_class cancelled d = stop was_cancelled
decide_class permanent d = stop blocker
decide_class unavailable d = stop blocker
decide_class transient d = d
decide_class unknown d = d

unfoldable pub decide_recovery : Facts → ℕ → ℕ → ℕ → Option ℕ → Decision
decide_recovery facts used allowance now cap_at =
    decide_class facts.failure_class (schedule facts used allowance now cap_at)

-- `withExecutionFacts`
abbrev later {ℓ} : {A : Type ℓ} → Option A → Option A → Option A
later none o = o
later (some a) o = some a

pub with_execution_facts : Failure → Facts → Failure
with_execution_facts f facts = record f {
  failure_class = some facts.failure_class;
  retry_after_ms = later facts.retry_after_ms f.retry_after_ms;
  reached_model = later facts.reached_model f.reached_model;
  effects = later facts.effects f.effects;
  reason_code = later facts.reason_code f.reason_code;
}

-- The classes after which the work may go on.
abbrev pub is_retryable : FailureClass → Bool
is_retryable transient = true
is_retryable unknown = true
is_retryable c = false
