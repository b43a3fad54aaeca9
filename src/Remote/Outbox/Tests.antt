-- ===== src/Remote/Outbox/Tests.antt =====
-- Runs of the outbox of src/remote/request-outbox.ts, and its theorems at concrete outboxes.
use abmind.Prelude.{ℕ, ◌*◌, ◌≡◌, refl, true, false, none, some, [], ◌∷◌, map, length}
use abmind.Remote.Outbox.{
  Entry, Outbox, Disk, terminal_unknown, retry_wait, timeout, fresh, get, mark_in_flight,
  mark_retry_wait, peek_due, commit,
}
use abmind.Remote.Outbox.Delivery.{
  marks_in_flight, marks_retry_wait, apply, run, core, apply-durable, apply-atomic,
}
use abmind.Remote.Outbox.Terminal.{run-terminal}

abbrev working : Disk
working = record { size = λ es. 100 * length es; entry_size = λ e. 100; write_ok = true }

abbrev failing : Disk
failing = record working { write_ok = false }

abbrev first : Entry
first = fresh 1000 900000 "f-1" "memory.store" "r-1" none "{}" 1

abbrev second : Entry
second = fresh 500 900000 "f-2" "memory.store" "r-2" none "{}" 1

abbrev ended : Entry
ended = record (fresh 1 900000 "f-3" "memory.store" "r-3" none "{}" 1) { state = terminal_unknown }

abbrev box : Outbox
box = record {
  entries = first ∷ second ∷ ended ∷ [];
  degraded = false;
  quarantined = false;
  retry_deadline_ms = 900000;
  disk = first ∷ second ∷ ended ∷ [];
}

peek_second : peek_due 2000 box ≡ some second
unfolding peek_due
peek_second = refl

-- A failed write clears the time of the previous attempt.
retrying_loses_attempt :
    map
      (λ e. e.last_attempt_at)
      (mark_in_flight failing 3000 "f-1" (record box {
        entries = record first { state = retry_wait; last_attempt_at = some 2000 } ∷ [];
      })).0.entries
    ≡ none ∷ []
unfolding mark_in_flight commit
retrying_loses_attempt = refl

apply-durable_example :
    (apply working (marks_in_flight 3000 "f-1") box).0.disk
    ≡ (apply working (marks_in_flight 3000 "f-1") box).0.entries
unfolding mark_in_flight commit
apply-durable_example = apply-durable working (marks_in_flight 3000 "f-1") box refl refl

apply-atomic_example :
    ((apply failing (marks_retry_wait 3000 "f-1" timeout 4000) box).0.disk ≡ box.disk)
    × (map core (apply failing (marks_retry_wait 3000 "f-1" timeout 4000) box).0.entries
        ≡ map core box.entries)
unfolding mark_retry_wait commit
apply-atomic_example = apply-atomic failing (marks_retry_wait 3000 "f-1" timeout 4000) box refl

run-terminal_example :
    get "f-3"
      (run ((working, marks_in_flight 3000 "f-3") ∷ (working, marks_in_flight 3000 "f-1") ∷ []) box)
    ≡ some ended
unfolding get
run-terminal_example =
    run-terminal "f-3" ended refl
      ((working, marks_in_flight 3000 "f-3") ∷ (working, marks_in_flight 3000 "f-1") ∷ []) box
      (refl, (refl, tt)) refl

abbrev much_later : ℕ
much_later = 2592000002
