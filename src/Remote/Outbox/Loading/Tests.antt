-- ===== src/Remote/Outbox/Loading/Tests.antt =====
-- A file of src/remote/request-outbox.ts with an entry that was being sent, and its theorems at that file.
use abmind.Prelude.{
  ℕ, zero, suc, String, if◌then◌else◌, str_eq, ◌≡◌, refl, true, false, none, some, List, [], ◌∷◌,
  map,
}
use abmind.Remote.Outbox.{Entry, Disk, in_flight, retry_wait, checkpoint, fresh}
use abmind.Remote.Outbox.Loading.{
  Sizes, Texts, RawEntry, garbage, load_file, version_2, version_1, normalize, load, valid_v2, base,
  scan, validate_v2, migrate_v1, migrated,
}
use abmind.Remote.Outbox.Loading.Reload.{write_entry}

abbrev waiting_entry : Entry
waiting_entry = fresh 5 900 "a" "private.recall" "r1" none "{}" 1

abbrev sent_entry : Entry
sent_entry = record (fresh 7 900 "b" "private.instantStore" "r2" (some "k") "{}" 1) {
  state = in_flight;
  attempts = 1;
  next_attempt_at = some 20;
}

abbrev left : List Entry
left = waiting_entry ∷ sent_entry ∷ []

abbrev sizes : Sizes
sizes = record { file = λ rs. 300; entry = λ r. 150 }

abbrev disk : Disk
disk = record { size = λ es. 300; entry_size = λ e. 150; write_ok = true }

-- A time as a text of so many strokes.
abbrev strokes : ℕ → String
strokes zero = ""
strokes (suc n) = String.◌∷◌ "|" (strokes n)

abbrev tally : String → ℕ
tally String.[] = 0
tally (String.◌∷◌ c s) = suc (tally s)

abbrev left_file : List RawEntry
left_file = map (write_entry strokes) left

abbrev old_file : List RawEntry
old_file = map (write_entry strokes) (waiting_entry ∷ [])

abbrev texts : Texts
texts = record {
  parse_date = λ s. some (tally s);
  to_iso = strokes;
  parse_file = λ s.
      if str_eq s "new"
      then version_2 left_file
      else if str_eq s "old"
      then version_1 old_file
      else garbage;
  stringify = λ rs. "new";
}

left-reloaded :
    (load texts 30 sizes disk 900 (some "new")).entries
    ≡ waiting_entry ∷ record sent_entry { state = retry_wait; next_attempt_at = none } ∷ []
unfolding load load_file scan valid_v2 base validate_v2 normalize checkpoint
left-reloaded = refl

-- A file of the first version, read after the deadline of its entry.
left-expired : (load texts 1000000 sizes disk 900 (some "old")).quarantined ≡ false
unfolding load load_file scan migrated base migrate_v1 checkpoint
left-expired = refl
