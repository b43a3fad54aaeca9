-- ===== src/Protocol.antt =====
-- src/abmind-protocol.ts and src/abmind-request-validation.ts: the methods of the service and the check
-- of a request's envelope. The type of a field is the one that the protocol declares; the length of a
-- text is its number of UTF-16 units, and that of a payload the number of bytes of its JSON. The names that
-- every JavaScript object has are not taken for methods.
use abmind.Prelude.{
  utf16_length, ℕ, min, String, Bool, true, false, ◌||◌, not, Option, none, some, List, [], ◌∷◌,
  str_eq, ltb, ◌==◌, if◌then◌else◌,
}
use abmind.Prelude.Table.{select}

pub data Domain : Type 0 where
  on_system private operational operator : Domain

pub data Mutation : Type 0 where
  read mutate : Mutation

pub data Safety : Type 0 where
  append_idempotent semantic_revision_cas single_row_state_cas owner_delete owner_cascade_delete
        atomic_counter unavailable_safety :
      Safety

pub record Entry : Type 0 where
  pub name : String
  pub domain : Domain
  pub mutation : Mutation
  pub safety : Option Safety
  pub capability : Option String
  pub max_input_bytes : ℕ
  pub max_output_bytes : ℕ

abbrev method : String → Domain → Mutation → Option Safety → Option String → ℕ → ℕ → Entry
method n d m s c i o = record {
  name = n;
  domain = d;
  mutation = m;
  safety = s;
  capability = c;
  max_input_bytes = i;
  max_output_bytes = o;
}

abbrev pub response_max_bytes : ℕ
response_max_bytes = 524288

abbrev pub request_max_bytes : ℕ
request_max_bytes = 262144

abbrev pub request_id_max : ℕ
request_id_max = 128

abbrev pub idempotency_key_max : ℕ
idempotency_key_max = 128

abbrev pub session_origin_max : ℕ
session_origin_max = 256

abbrev pub protocol_version : ℕ
protocol_version = 1

unfoldable pub method_registry : List Entry
method_registry =
    method "system.negotiate" on_system read none none 1024 65536
    ∷ method "system.health" on_system read none none 1024 4096
    ∷ method "system.status" on_system read none none 1024 16384
    ∷ method "system.capabilities" on_system read none none 1024 16384
    ∷ method "private.recall" private read none none 32768 response_max_bytes
    ∷ method "private.instantStore" private mutate (some append_idempotent) none 65536 8192
    ∷ method "private.edit" private mutate (some semantic_revision_cas) none 65536 8192
    ∷ method "private.reclassify" private mutate (some semantic_revision_cas) none 4096 1024
    ∷ method "private.merge" private mutate (some semantic_revision_cas) none 4096 4096
    ∷ method "private.cascadeDelete" private mutate (some owner_cascade_delete) none 65536 8192
    ∷ method "private.rebuildFts" operator mutate none (some "rebuild_fts") 1024 4096
    ∷ method "private.embed" private read none none 65536 response_max_bytes
    ∷ method "private.findSealedSecrets" private read none none 4096 16384
    ∷ method "private.resolveSealedSecret" private read none none 4096 65536
    ∷ method "operational.submitDraft" operational mutate none none 65536 65536
    ∷ method "operational.listDrafts" operational read none none 4096 response_max_bytes
    ∷ method "operational.getMemory" operational read none none 2048 response_max_bytes
    ∷ method "operational.getHistory" operational read none none 4096 response_max_bytes
    ∷ method "operational.promoteDraft" operational mutate none none 65536 response_max_bytes
    ∷ method "operational.rejectDraft" operational mutate none none 4096 65536
    ∷ method "operational.revise" operational mutate none none 65536 response_max_bytes
    ∷ method "operational.retire" operational mutate none none 4096 response_max_bytes
    ∷ method "operational.recall" operational read none none 4096 response_max_bytes
    ∷ method "private.recordMessage" private mutate (some atomic_counter) none 65536 1024
    ∷ method "private.getRecentConversation" private read none none 4096 262144
    ∷ method "private.assembleSessionContext" private read none none 4096 131072
    ∷ method "private.getRuntimeStatus" private read none none 1024 65536
    ∷ method "private.getCoreKnowledge" private read none none 1024 65536
    ∷ method "private.modelContext" private read none none 1024 131072
    ∷ method "private.lifecycleStartSession" private read none none 4096 65536
    ∷ method "private.lifecyclePrepareTurn" private read none none 32768 response_max_bytes
    ∷ method "private.lifecycleCompleteTurn" private mutate (some atomic_counter) none 65536 1024
    ∷ method "private.lifecycleStore" private mutate (some append_idempotent) none 65536 8192
    ∷ method "private.lifecycleCheckpoint" private mutate (some atomic_counter) none 65536 4096
    ∷ method "private.lifecycleObserve" private read none none 32768 2048
    ∷ method "private.dreamQuestions.nextPending" private read none none 2048 8192
    ∷ method "private.dreamQuestions.list" private read none none 2048 65536
    ∷ method "private.dreamQuestions.markAsked" private mutate (some single_row_state_cas) none 4096
        1024
    ∷ method "private.dreamQuestions.dismiss" private mutate (some single_row_state_cas) none 2048
        1024
    ∷ method "sleep.start" on_system mutate none (some "sleep_start") 2048 2048
    ∷ method "sleep.status" on_system read none (some "sleep_status") 1024 16384
    ∷ method "sleep.resume" on_system mutate none (some "sleep_resume") 2048 2048
    ∷ method "sleep.cancel" on_system mutate none (some "sleep_cancel") 2048 1024
    ∷ method "sleep.events" on_system read none (some "sleep_events") 4096 65536
    ∷ method "sleep.runtime.open" on_system mutate none (some "sleep_runtime_provider") 2048 2048
    ∷ method "sleep.runtime.next" on_system read none (some "sleep_runtime_provider") 2048 131072
    ∷ method "sleep.runtime.complete" on_system mutate none (some "sleep_runtime_provider") 131072
        1024
    ∷ method "sleep.runtime.fail" on_system mutate none (some "sleep_runtime_provider") 4096 1024
    ∷ method "sleep.runtime.close" on_system mutate none (some "sleep_runtime_provider") 2048 1024
    ∷ method "operator.diagnose" operator read none (some "doctor_diagnose") 1024 response_max_bytes
    ∷ method "operator.repair" operator mutate none (some "doctor_fix") 4096 65536
    ∷ []

unfoldable pub find_method : String → Option Entry
find_method m = select (λ e. str_eq e.name m) method_registry

abbrev pub is_mutate : Mutation → Bool
is_mutate mutate = true
is_mutate read = false

pub data Code : Type 0 where
  unavailable unauthorized validation_error idempotency_conflict outcome_unknown unsupported_version
        unsupported_method :
      Code
  other_code : String → Code

pub record Envelope : Type 0 where
  pub version : ℕ
  pub method : String
  pub request_id : String
  pub idempotency_key : Option String
  pub session_id : Option String
  pub origin : Option String
  pub payload_bytes : Option ℕ

abbrev too_long : ℕ → Option String → Bool
too_long m none = false
too_long m (some s) = ltb m (utf16_length s)

abbrev too_big : ℕ → Option ℕ → Bool
too_big m none = true
too_big m (some n) = ltb m n

pub data Parsed : Type 0 where
  refused : Code → Parsed
  parsed : Entry → Parsed

abbrev check_entry : Envelope → Option Entry → Parsed
check_entry r none = refused unsupported_method
check_entry r (some e) =
    if ltb request_id_max (utf16_length r.request_id)
      || too_long idempotency_key_max r.idempotency_key
      || too_long session_origin_max r.session_id
      || too_long session_origin_max r.origin
      || too_big (min request_max_bytes e.max_input_bytes) r.payload_bytes
    then refused validation_error
    else parsed e

unfoldable pub parse_envelope : Envelope → Parsed
unfolding find_method
parse_envelope r =
    if not (r.version == protocol_version)
    then refused unsupported_version
    else check_entry r (find_method r.method)
