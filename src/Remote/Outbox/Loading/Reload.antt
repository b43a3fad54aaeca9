-- ===== src/Remote/Outbox/Loading/Reload.antt =====
-- src/remote/request-outbox.ts: what a process finds in the outbox that an earlier one has left.
use abmind.Prelude.{
  utf16_length, ◌≤◌, ℕ, ◌≡◌, refl, ◌∙◌, String, Bool, true, false, ◌&&◌, ◌||◌, not, Option, none,
  some, List, [], ◌∷◌, map, str_eq, ltb, Bool-cases, inl, inr,
}
use abmind.Remote.Outbox.{
  Entry, Outbox, Disk, DeliveryState, admitted, in_flight, retry_wait, terminal_unknown,
  RetryFailure, timeout, send_failed, socket_lost, generation_lost, connection_refused, checkpoint,
  max_file_bytes,
}
use abmind.Remote.Outbox.Loading.{
  Field, missing, present, RawEntry, Texts, among, normalize, any_in_flight, validate_v2,
  method_max,
}

abbrev pub write_state : DeliveryState → String
write_state admitted = "admitted"
write_state in_flight = "in_flight"
write_state retry_wait = "retry_wait"
write_state terminal_unknown = "terminal_unknown"

abbrev pub write_failure : Option RetryFailure → Field String
write_failure none = missing
write_failure (some timeout) = present "timeout"
write_failure (some send_failed) = present "send_failed"
write_failure (some socket_lost) = present "socket_lost"
write_failure (some generation_lost) = present "generation_lost"
write_failure (some connection_refused) = present "connection_refused"

abbrev pub write_time : (ℕ → String) → Option ℕ → Field String
write_time iso none = missing
write_time iso (some n) = present (iso n)

-- An entry as it stands in the file, with its times as ISO texts.
abbrev pub write_entry : (ℕ → String) → Entry → RawEntry
write_entry iso e = record {
  id = present e.id;
  method = present e.method;
  request_id = present e.request_id;
  idempotency_key = e.idempotency_key;
  body = present e.body;
  version = present e.version;
  created_at = present (iso e.created_at);
  attempts = present e.attempts;
  state = present (write_state e.state);
  deadline_at = present (iso e.deadline_at);
  last_failure = write_failure e.last_failure;
  next_attempt_at = write_time iso e.next_attempt_at;
  last_attempt_at = write_time iso e.last_attempt_at;
}

-- The greatest time of a Date.
abbrev pub date_max : ℕ
date_max = 8640000000000000

abbrev pub IsDate : Option ℕ → Type 0
IsDate none = Unit
IsDate (some t) = t ≤ date_max

-- `Date.parse` reads what `toISOString` writes of a Date.
abbrev pub Dates : Texts → Type 0
Dates x = (t : ℕ) → t ≤ date_max → x.parse_date (x.to_iso t) ≡ some t

-- An entry whose texts are there and not too long, whose deadline is not before its creation, and whose times
-- are those of Dates.
pub record WellFormed (e : Entry) : Type 0 where
  pub has_id : str_eq e.id "" ≡ false
  pub has_method : str_eq e.method "" ≡ false
  pub short_method : ltb method_max (utf16_length e.method) ≡ false
  pub has_request_id : str_eq e.request_id "" ≡ false
  pub in_order : ltb e.deadline_at e.created_at ≡ false
  pub deadline_date : e.deadline_at ≤ date_max
  pub next_date : IsDate e.next_attempt_at
  pub last_date : IsDate e.last_attempt_at

-- No id comes twice.
abbrev pub distinct : List String → List Entry → Bool
distinct seen [] = true
distinct seen (e ∷ es) = not (among e.id seen) && distinct (e.id ∷ seen) es

-- A write of the file does not put it aside.
checkpoint-quarantined : (d : Disk) (o : Outbox) → (checkpoint d o).0.quarantined ≡ o.quarantined
unfolding checkpoint
checkpoint-quarantined d o =
    elim (Bool-cases (ltb max_file_bytes (d.size o.entries) || not d.write_ok)) [
      | inl e ↦ rw e refl
      | inr e ↦ rw e refl
    ]

-- What `validateV2` keeps of entries that it has read: the ones in flight wait to be sent again.
pub validate_v2-entries :
    (d : Disk) (es : List Entry) (o : Outbox)
    → o.quarantined ≡ false
    → ((validate_v2 d (some es) o).entries ≡ map normalize es)
      × ((validate_v2 d (some es) o).quarantined ≡ false)
unfolding validate_v2
validate_v2-entries d es o q = elim (Bool-cases (any_in_flight es)) [
  | inr e ↦ rw e (refl, q)
  | inl e ↦
      rw e (refl, checkpoint-quarantined d (record o { entries = map normalize es; disk = es }) ∙ q)
]
