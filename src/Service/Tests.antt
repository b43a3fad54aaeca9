-- ===== src/Service/Tests.antt =====
-- Two clients and one mutation at the service of src/abmind-service.ts, and its theorems at that run.
use abmind.Prelude.{
  ◌≤◌, ◌≡◌, refl, ◌⊎◌, String, Bool, Option, none, some, List, [], ◌∷◌, true, false, ◌+◌, str_eq,
  arith,
}
use abmind.Protocol.{private, parse_envelope, find_method, method_registry}
use abmind.Ledger.{reserve, mark_started, complete, mark_unknown, insert, answer}
use abmind.Service.{
  Service, Env, Context, Request, Response, Body, ok, failed, returns, named, handle, handle_parsed,
  refusal, authorize, resolve_user_id, dispatch_with_idempotency, by_reservation, own, await_owner,
  join, settle, settle_entry, keep_outcome, remove, dispatch_mutation, reply,
}
use abmind.Service.Executions.{
  Step, asks, settles, run, executions, executions-le, cleanings, Simulates, run-Simulates,
}
use abmind.Service.Answers.{answered, pending, asked, drained-answered}
use abmind.Service.Guards.{Allowed, handle-Allowed}

abbrev text_of : Body → String
text_of (ok text) = text
text_of (failed code) = "failed"

abbrev written : Response → String
written r = text_of r.body

abbrev read_back : Option String → Body
read_back none = ok ""
read_back (some text) = ok text

abbrev fresh : Service
fresh = record {
  rows = [];
  has_ledger = true;
  in_flight_mutations = [];
  reading = [];
  closed = false;
  in_flight = 0;
  request_count = 0;
  dispatched = [];
  replies = [];
}

abbrev calm : Env
calm = record {
  reserve_throws = false;
  reserve_fails = false;
  start_fails = false;
  complete_fails = false;
  unknown_fails = false;
  now = 5;
  later = 6;
}

abbrev caller : Context
caller = record {
  principal_id = "ann";
  granted_domains = private ∷ [];
  allowed_methods = none;
  capabilities = none;
  allow_private_delegation = false;
}

abbrev store : String → Request
store id = record {
  envelope = record {
    version = 1;
    method = "private.instantStore";
    request_id = id;
    idempotency_key = some "key";
    session_id = none;
    origin = none;
    payload_bytes = some 20;
  };
  claim = record { user_id = named "ann"; identity = none };
  payload_error = false;
  payload_hash = "hash";
}

-- The request and its repetition before the handler returns, then a third after.
abbrev traffic : List Step
traffic =
    asks calm caller (store "one")
    ∷ asks calm caller (store "two")
    ∷ settles calm "ann" "key" (returns "stored")
    ∷ asks calm caller (store "three")
    ∷ []

traffic-replies :
    (run written read_back traffic fresh).replies
    ≡ record { request_id = "three"; body = ok "stored" }
      ∷ record { request_id = "one"; body = ok "stored" }
      ∷ record { request_id = "two"; body = ok "stored" }
      ∷ []
unfolding handle parse_envelope find_method method_registry handle_parsed refusal authorize
    resolve_user_id dispatch_with_idempotency by_reservation own await_owner join settle
    settle_entry keep_outcome remove dispatch_mutation reserve mark_started complete mark_unknown
    insert answer
traffic-replies = refl

traffic-dispatched : (run written read_back traffic fresh).dispatched ≡ ("ann", "key") ∷ []
unfolding handle parse_envelope find_method method_registry handle_parsed refusal authorize
    resolve_user_id dispatch_with_idempotency by_reservation own await_owner join settle
    settle_entry keep_outcome remove dispatch_mutation reserve mark_started complete mark_unknown
    insert answer
traffic-dispatched = refl

traffic-drained : (run written read_back traffic fresh).in_flight ≡ 0
unfolding handle parse_envelope find_method method_registry handle_parsed refusal authorize
    resolve_user_id dispatch_with_idempotency by_reservation own await_owner join settle
    settle_entry keep_outcome remove dispatch_mutation reserve mark_started complete mark_unknown
    insert answer
traffic-drained = refl

executions-le_example :
    executions "ann" "key" (run written read_back traffic fresh) ≤ 1 + cleanings traffic
executions-le_example =
    executions-le written read_back "ann" "key" traffic fresh (λ p k. omega arith) refl

run-Simulates_example :
    Simulates "ann" "key" (cleanings traffic) fresh (run written read_back traffic fresh)
run-Simulates_example = run-Simulates written read_back "ann" "key" traffic fresh

abbrev is_two : String → Bool
is_two id = str_eq id "two"

drained-answered_example :
    answered is_two (run written read_back traffic fresh)
    ≡ answered is_two fresh + pending is_two fresh + asked is_two traffic
drained-answered_example =
    drained-answered written read_back is_two traffic fresh (refl, (refl, (refl, (refl, tt)))) refl
      traffic-drained

handle-Allowed_example :
    ((b : Body) × (handle written read_back calm caller (store "one") fresh ≡ reply "one" b fresh))
    ⊎ Allowed caller (store "one") fresh
handle-Allowed_example = handle-Allowed written read_back calm caller (store "one") fresh
