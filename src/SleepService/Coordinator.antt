-- ===== src/SleepService/Coordinator.antt =====
-- src/sleep-service/sleep-coordinator.ts: `SleepCoordinator`, over the broker and the event ring. An id
-- that `randomUUID` makes and the clock are arguments. The promise of the service is settled by the
-- operations `service_settled` and `service_failed`; a report is what `redactSecrets` and the bound on
-- its length leave of it. `Checkpoint` is what a registered validator answers. The ring of an earlier
-- run is let go when the next one starts. A number of a format that is not a safe integer is `malformed`.
pub mod Preservation
pub mod Agreement
pub mod Shutdown
pub mod Resumption
pub mod LastRunFile
mod Tests
use abmind.Prelude.{
  ℕ, zero, suc, ◌+◌, String, Bool, true, false, ◌&&◌, ◌||◌, not, Option, none, some, List, [], ◌∷◌,
  str_eq, if◌then◌else◌, is_none, ◌==◌,
}
use abmind.Prelude.Table.{count}
use abmind.SleepService.Runtime.{Broker, initial}
use abmind.SleepService.Broker.{close_lease, set_run_terminal}
use abmind.SleepService.Events.{EventRing, Item, empty_ring, push, set_terminal}

pub record ActiveRun : Type 0 where
  pub run_id : String
  pub mode : String
  pub started_at : ℕ

pub data FormatVersion : Type 0 where
  numbered : ℕ → FormatVersion
  malformed : FormatVersion

pub record LastRun : Type 0 where
  pub run_id : Option String
  pub attempted_at : ℕ
  pub finished_at : Option ℕ
  pub status : String
  pub report : Option String
  pub resumable : Bool
  pub completed_steps : ℕ
  pub failed_steps : ℕ
  pub format_version : Option FormatVersion

pub record ServiceResult : Type 0 where
  pub status : String
  pub report : Option String
  pub resumable : Bool

pub record Coordinator : Type 0 where
  pub active_run : Option ActiveRun
  pub last_run : Option LastRun
  pub abort : Option Bool
  pub event_ring : EventRing
  pub broker : Broker
  pub registered : Bool
  pub has_path : Bool
  pub pending_cancel : Bool
  pub persisted : Option LastRun

pub data Checkpoint : Type 0 where
  unregistered valid invalid : Checkpoint

-- The `validateResumeCheckpoint` of a call, by the run that it is asked about.
abbrev pub Validator : Type 0
Validator = Option String → Checkpoint

abbrev pub new_coordinator : Bool → Option LastRun → Coordinator
new_coordinator has_path last = record {
  active_run = none;
  last_run = last;
  abort = none;
  event_ring = empty_ring;
  broker = initial;
  registered = false;
  has_path = has_path;
  pending_cancel = false;
  persisted = last;
}

pub register_services : Coordinator → Coordinator
register_services c = record c { registered = true }

pub push_event : ℕ → String → Option String → Coordinator → Coordinator
push_event now kind detail c = record c { event_ring = push now kind detail c.event_ring }

-- `persistLastRun_`, where `written` says whether the file is written.
pub persist : Bool → Coordinator → Coordinator
persist written c =
    if c.has_path && not (is_none c.last_run) && written
    then record c { persisted = c.last_run }
    else c

pub data StartResult : Type 0 where
  accepted : String → StartResult
  already_running : String → StartResult
  unavailable : StartResult

pub begin : ℕ → String → String → Coordinator → Coordinator
begin now id mode c = record c {
  active_run = some (record { run_id = id; mode = mode; started_at = now });
  abort = some false;
  pending_cancel = false;
  event_ring = push now "cycle_started" (some mode) empty_ring;
}

pub start : ℕ → String → String → Coordinator → Coordinator × StartResult
start now id mode c = elim c.active_run [
  | some a ↦ (c, already_running a.run_id)
  | none ↦ if c.registered then (begin now id mode c, accepted id) else (c, unavailable)
]

abbrev pub is_kind : String → Item → Bool
is_kind kind e = str_eq e.kind kind

abbrev pub steps : String → EventRing → ℕ
steps kind r = count (is_kind kind) r.items

-- The active run, if it is the one of the id.
abbrev pub active_is : String → Option ActiveRun → Option ActiveRun
active_is id none = none
active_is id (some a) = if str_eq a.run_id id then some a else none

abbrev pub finished : ℕ → ActiveRun → ServiceResult → EventRing → LastRun
finished now a result ring = record {
  run_id = some a.run_id;
  attempted_at = a.started_at;
  finished_at = some now;
  status = result.status;
  report = result.report;
  resumable = result.resumable;
  completed_steps = steps "step_completed" ring;
  failed_steps = steps "step_failed" ring;
  format_version = some (numbered 2);
}

-- What `finishRun` and `shutdown` do with a run that ends.
abbrev pub clear : LastRun → Coordinator → Coordinator
clear last c = record c {
  last_run = some last;
  active_run = none;
  abort = none;
  pending_cancel = false;
}

pub close_run : ℕ → Bool → ActiveRun → ServiceResult → Coordinator → Coordinator
close_run now written a result c =
    let ring = set_terminal c.event_ring in
    persist written (
      clear (finished now a result ring)
        (record c { event_ring = ring; broker = set_run_terminal now c.broker }))

-- `finishRun`, which a settled service calls.
pub service_settled : ℕ → Bool → String → ServiceResult → Coordinator → Coordinator
service_settled now written id result c = elim (active_is id c.active_run) [
  | none ↦ c
  | some a ↦ close_run now written a result c
]

abbrev pub is_valid : Checkpoint → Bool
is_valid valid = true
is_valid x = false

-- The service throws or rejects; `report` is the text for it.
pub service_failed : ℕ → Bool → String → Validator → Option String → Coordinator → Coordinator
service_failed now written id validate report c = elim (active_is id c.active_run) [
  | none ↦ c
  | some a ↦
      service_settled now written id
        (record { status = "failed"; report = report; resumable = is_valid (validate (some id)) })
        (push_event now "cycle_finished" (some "failed")
          (push_event now "step_failed" (some "service_failed") c))
]

pub data ResumeResult : Type 0 where
  started : StartResult → ResumeResult
  busy : String → ResumeResult
  no_service not_found not_resumable : ResumeResult

-- !runId
abbrev pub no_id : Option String → Bool
no_id none = true
no_id (some id) = str_eq id ""

abbrev is_run : Option String → Option String → Bool
is_run (some id) (some r) = str_eq r id
is_run none none = true
is_run x r = false

abbrev pub names : Option String → Option String → Bool
names id r = no_id id || is_run id r

abbrev pub is_unsupported : Option FormatVersion → Bool
is_unsupported none = false
is_unsupported (some malformed) = true
is_unsupported (some (numbered n)) = not (n == 2)

abbrev pub is_healthy : String → Bool
is_healthy s = str_eq s "completed" || str_eq s "no_work"

abbrev pub is_legacy : LastRun → Bool
is_legacy l =
    is_none l.format_version
    && (str_eq l.status "failed" || str_eq l.status "partial")
    && not l.resumable

abbrev start_resumed : ℕ → String → Coordinator → Coordinator × ResumeResult
start_resumed now id c = let (c', r) = start now id "resume" c in (c', started r)

abbrev pub repaired : LastRun → LastRun
repaired l = record l { resumable = true; format_version = some (numbered 2) }

pub repair : ℕ → String → Bool → Checkpoint → LastRun → Coordinator → Coordinator × ResumeResult
repair now id written unregistered l c = (c, not_found)
repair now id written invalid l c = (c, not_found)
repair now id written valid l c =
    start_resumed now id (persist written (record c { last_run = some (repaired l) }))

-- The part of `resume` for a last run that the call names.
pub resume_last : ℕ → String → Bool → Validator → LastRun → Coordinator → Coordinator × ResumeResult
resume_last now id written validate l c =
    if is_unsupported l.format_version
    then (c, not_resumable)
    else if is_healthy l.status
    then (c, not_resumable)
    else if l.resumable && no_id l.run_id
    then (c, not_resumable)
    else if is_legacy l
    then repair now id written (validate l.run_id) l c
    else if l.resumable
    then start_resumed now id c
    else (c, not_resumable)

abbrev pub named_run : Option String → Option LastRun → Option LastRun
named_run id none = none
named_run id (some l) = if names id l.run_id then some l else none

pub resume :
    ℕ → String → Bool → Validator → Option String → Coordinator → Coordinator × ResumeResult
resume now new_id written validate run_id c = elim c.active_run [
  | some a ↦ (c, busy a.run_id)
  | none ↦ if not c.registered then (c, no_service) else (elim (named_run run_id c.last_run) [
    | none ↦ (c, not_found)
    | some l ↦ resume_last now new_id written validate l c
  ])
]

pub data CancelResult : Type 0 where
  cancelling already_terminal not_known : CancelResult

pub cancel : ℕ → String → Coordinator → Coordinator × CancelResult
cancel now id c = elim c.active_run [
  | none ↦ (c, already_terminal)
  | some a ↦
      if str_eq a.run_id id
      then (
        push_event now "run_cancelled" none (record c { abort = some true; pending_cancel = true }),
        cancelling,
      )
      else (c, not_known)
]

pub data State : Type 0 where
  idle running terminal interrupted : State

pub get_state : Coordinator → State
get_state c = elim c.active_run [
  | some a ↦ running
  | none ↦ elim c.last_run [
    | none ↦ idle
    | some l ↦ if str_eq l.status "interrupted" then interrupted else terminal
  ]
]

abbrev pub interruption : ServiceResult
interruption = record { status = "interrupted"; report = none; resumable = true }

-- The active run of a service that shuts down.
pub interrupt : ℕ → Bool → Coordinator → Coordinator
interrupt now written c = elim c.active_run [
  | none ↦ c
  | some a ↦
      let ring = push now "run_interrupted" none c.event_ring in
      persist written (clear (finished now a interruption ring) (record c { event_ring = ring }))
]

pub shutdown : ℕ → Bool → Coordinator → Coordinator
shutdown now written c =
    let c' = interrupt now written c in
    record c' {
      event_ring = set_terminal c'.event_ring;
      broker = (close_lease now "" (set_run_terminal now c'.broker)).0;
    }
