-- ===== src/SleepService/Coordinator/LastRunFile.antt =====
-- src/sleep-service/sleep-coordinator.ts: the record of the last run on disk. A field of the JSON object
-- is a `Value`, and `other` is one of another type. The times and the counts of the file are natural
-- numbers; a format that is no safe integer is an `other`. `redact` stands for `redactSecrets` and the
-- bound on the length of a report; the length of a run's id is its number of UTF-16 units.
use abmind.Prelude.{
  utf16_length, ℕ, ◌≡◌, refl, ◌∙◌, String, Bool, true, false, ◌||◌, Option, none, some, arith,
  if◌then◌else◌, str_eq, ltb, ◌>>=◌,
}
use abmind.SleepService.Events.{push}
use abmind.SleepService.Coordinator.{
  Coordinator, ActiveRun, LastRun, Validator, FormatVersion, numbered, malformed, no_id, names,
  new_coordinator, register_services, shutdown, resume, finished, interruption,
}
use abmind.SleepService.Coordinator.Resumption.{is_accepted, resume-accepted}
use abmind.SleepService.Coordinator.Shutdown.{shutdown-persisted}

pub data Value : Type 0 where
  missing other : Value
  text : String → Value
  natural : ℕ → Value
  truth : Bool → Value

-- The object of the file, field by field.
pub record RawRun : Type 0 where
  pub run_id : Value
  pub attempted_at : Value
  pub finished_at : Value
  pub status : Value
  pub report : Value
  pub resumable : Value
  pub completed_steps : Value
  pub failed_steps : Value
  pub format_version : Value

abbrev is_status : String → Bool
is_status s =
    str_eq s "completed"
    || str_eq s "no_work"
    || str_eq s "partial"
    || str_eq s "failed"
    || str_eq s "cancelled"
    || str_eq s "already_running"
    || str_eq s "interrupted"

abbrev pub read_status : Value → Option String
read_status (text s) = if is_status s then some s else none
read_status v = none

abbrev read_natural : Value → Option ℕ
read_natural (natural n) = some n
read_natural v = none

abbrev read_count : Value → ℕ
read_count (natural n) = n
read_count v = 0

abbrev read_truth : Value → Bool
read_truth (truth b) = b
read_truth v = false

abbrev read_report : (String → String) → Value → Option String
read_report redact (text s) = some (redact s)
read_report redact v = none

-- Number.MAX_SAFE_INTEGER
abbrev max_safe : ℕ
max_safe = 9007199254740991

abbrev read_version : Value → Option FormatVersion
read_version missing = none
read_version (natural n) = some (if ltb max_safe n then malformed else numbered n)
read_version v = some malformed

abbrev max_run_id : ℕ
max_run_id = 128

-- The run's id, where it is a text or absent, and none where it is refused.
abbrev pub read_run_id : Value → Option (Option String)
read_run_id missing = some none
read_run_id (text s) =
    if str_eq s "" || ltb max_run_id (utf16_length s) then none else some (some s)
read_run_id v = none

abbrev sanitized : (String → String) → RawRun → String → ℕ → Option String → LastRun
sanitized redact raw status at id = record {
  run_id = id;
  attempted_at = at;
  finished_at = read_natural raw.finished_at;
  status = status;
  report = read_report redact raw.report;
  resumable = read_truth raw.resumable;
  completed_steps = read_count raw.completed_steps;
  failed_steps = read_count raw.failed_steps;
  format_version = read_version raw.format_version;
}

pub sanitize_last_run : (String → String) → RawRun → Option LastRun
sanitize_last_run redact raw = do
  status ← read_status raw.status
  at ← read_natural raw.attempted_at
  id ← read_run_id raw.run_id
  some (sanitized redact raw status at id)

abbrev write_natural : Option ℕ → Value
write_natural none = missing
write_natural (some n) = natural n

abbrev write_text : Option String → Value
write_text none = missing
write_text (some s) = text s

abbrev write_version : Option FormatVersion → Value
write_version none = missing
write_version (some malformed) = other
write_version (some (numbered n)) = natural n

-- JSON.stringify(this.lastRun)
abbrev pub write_last_run : LastRun → RawRun
write_last_run l = record {
  run_id = write_text l.run_id;
  attempted_at = natural l.attempted_at;
  finished_at = write_natural l.finished_at;
  status = text l.status;
  report = write_text l.report;
  resumable = truth l.resumable;
  completed_steps = natural l.completed_steps;
  failed_steps = natural l.failed_steps;
  format_version = write_version l.format_version;
}

-- What the constructor loads of a last run that is written, or of no file.
abbrev pub loaded : (String → String) → Option LastRun → Option LastRun
loaded redact none = none
loaded redact (some l) = sanitize_last_run redact (write_last_run l)

read_natural-write_natural : (o : Option ℕ) → read_natural (write_natural o) ≡ o
read_natural-write_natural none = refl
read_natural-write_natural (some n) = refl

-- A last run that is written and read again is the same, when its status is one that the code knows, its
-- id is neither empty nor too long, its format is that of today, and its report has no secret left in it.
pub sanitize_last_run-write_last_run :
    (redact : String → String) (l : LastRun)
    → is_status l.status ≡ true
    → read_run_id (write_text l.run_id) ≡ some l.run_id
    → read_report redact (write_text l.report) ≡ l.report
    → l.format_version ≡ some (numbered 2)
    → sanitize_last_run redact (write_last_run l) ≡ some l
unfolding sanitize_last_run
sanitize_last_run-write_last_run redact l s i r v =
    let f = read_natural-write_natural l.finished_at in
    let n : read_version (write_version l.format_version) ≡ l.format_version = rw v refl in
    simp (s, i, r, f, n, sanitize_last_run) refl

read_run_id-no_id : (s : String) → read_run_id (text s) ≡ some (some s) → no_id (some s) ≡ false
read_run_id-no_id s e = ground (arith, e)

-- A run that the end of the daemon interrupts is taken up by the next daemon: when the record is
-- written, the coordinator that starts from the file accepts a call of `resume` for that run, or for any,
-- whatever the checkpoint validator says.
pub restart-accepted :
    (redact : String → String) (now later : ℕ) (id : String) (written : Bool) (validate : Validator)
    (q : Option String) (a : ActiveRun) (c : Coordinator)
    → c.active_run ≡ some a
    → c.has_path ≡ true
    → read_run_id (text a.run_id) ≡ some (some a.run_id)
    → names q (some a.run_id) ≡ true
    → is_accepted
        (resume later id written validate q (
          register_services
            (new_coordinator true (loaded redact (shutdown now true c).persisted)))).1
      ≡ true
unfolding register_services
restart-accepted redact now later id written validate q a c e p i n =
    let l = finished now a interruption (push now "run_interrupted" none c.event_ring) in
    let w : (shutdown now true c).persisted ≡ some l = shutdown-persisted now a c e p in
    let s = sanitize_last_run-write_last_run redact l refl i refl refl in
    resume-accepted later id written validate q _
    ∙ rw (w, s) (rw (n, read_run_id-no_id a.run_id i) refl)
