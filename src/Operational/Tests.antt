-- ===== src/Operational/Tests.antt =====
-- Runs of src/operational-memory-store.ts, and its theorems at concrete stores.
use abmind.Prelude.{◌≡◌, refl, true, none, some, List, [], ◌∷◌, map, arith, eq_iff}
use Prim.Native.String.{count as count_chars}
use abmind.Operational.{
  Store, create_draft, curated, Stamp, memory_of, insert_memory, promote_new, promote_draft,
  revise_found, revise, retire_found, retire,
}
use abmind.OperationalTypes.{
  Env, active, conflict, global, host, no_values, normalize_scope, scope_consistent, set_values,
  task_environment, validation_error, values_fit,
}
use abmind.OperationalTypes.Checks.{
  DraftInput, PromoteInput, RetireInput, ReviseInput, valid_create, valid_promote, valid_retire,
  valid_revise,
}
use abmind.Operational.Writes.{Op, creates, promotes, revises, retires, run, FreshRun}
use abmind.Operational.Soundness.{Sound, run-Sound, Extends, run-Extends}
use abmind.Operational.Promotion.{Once, run-Once}
use abmind.Operational.Concurrency.{revise-lost}
use abmind.Operational.Scopes.{create_draft-task_environment}
use abmind.Operational.Placement.{Placed, run-Placed}

abbrev env : Env
env = record {
  bytes = count_chars;
  canonical = λ s. s;
  evidence_ok = λ s. true;
  provenance_ok = λ s. true;
  hash = λ h. h.content;
}

abbrev empty : Store
empty = record { drafts = []; memories = []; versions = [] }

abbrev lesson : DraftInput
lesson = record {
  lesson = "retry after a lost socket";
  problem = none;
  recommendation = none;
  evidence = "[]";
  level = host;
  values = record no_values { host_value = some "alpha" };
  confidence = 70;
  sources = none ∷ [];
  provenance = "{}";
}

abbrev promotion : PromoteInput
promotion = record {
  draft_id = "d-1";
  actor_id = "operator";
  mutation_reason = "seen twice";
  curate = none;
}

abbrev stamp : Stamp
stamp = record { memory_id = "m-1"; version_id = "v-1"; now = 200 }

abbrev revision : ReviseInput
revision = record {
  memory_id = "m-1";
  expected_content_hash = "retry after a lost socket";
  content = "retry twice";
  level = global;
  values = no_values;
  confidence = 80;
  provenance = "{}";
  evidence = "[]";
  mutation_reason = "measured";
  actor_id = "operator";
}

abbrev retirement : RetireInput
retirement = record {
  memory_id = "m-1";
  expected_content_hash = "retry twice";
  mutation_reason = "obsolete";
  actor_id = "operator";
}

abbrev writes : List Op
writes =
    creates "d-1" 100 lesson
    ∷ promotes stamp promotion
    ∷ promotes stamp promotion
    ∷ revises "v-2" 300 revision
    ∷ retires "v-3" 400 retirement
    ∷ []

abbrev promoted_store : Store
promoted_store = run env (creates "d-1" 100 lesson ∷ promotes stamp promotion ∷ []) empty

lineage :
    map (λ v. v.previous_version_id) (run env writes empty).versions
    ≡ none ∷ some "v-1" ∷ some "v-2" ∷ []
unfolding create_draft valid_create values_fit scope_consistent set_values normalize_scope
    promote_draft valid_promote promote_new insert_memory curated revise valid_revise revise_found
    retire valid_retire retire_found
lineage = refl

abbrev once_writes : List Op
once_writes = creates "d-1" 100 lesson ∷ promotes stamp promotion ∷ revises "v-2" 300 revision ∷ []

once_fresh : FreshRun env once_writes empty
unfolding create_draft valid_create values_fit scope_consistent set_values normalize_scope
    promote_draft valid_promote promote_new insert_memory curated
once_fresh = (refl, ((refl, refl), (refl, tt)))

run-Sound_example : Sound env (run env once_writes empty)
run-Sound_example =
    run-Sound env once_writes empty once_fresh
      (record { unique = λ i. omega arith; backed = tt; sealed = tt })

run-Extends_example : Extends empty.versions (run env writes empty).versions
run-Extends_example = run-Extends env writes empty

run-Once_example : Once (run env once_writes empty)
run-Once_example =
    run-Once env once_writes empty once_fresh (record { unique = λ i. omega arith; paired = refl })

run-Placed_example : Placed env (run env writes empty)
run-Placed_example =
    run-Placed env writes empty (record { drafts = tt; memories = tt; versions = tt })

abbrev second_revision : ReviseInput
second_revision = record revision { content = "give up" }

revise-lost_example :
    revise env "v-9" 301 second_revision (revise env "v-2" 300 revision promoted_store).0
    ≡ ((revise env "v-2" 300 revision promoted_store).0, conflict (some ("v-2", "retry twice")))
unfolding create_draft valid_create values_fit scope_consistent set_values normalize_scope
    promote_draft valid_promote promote_new insert_memory curated valid_revise
revise-lost_example =
    revise-lost env "v-2" "v-9" 300 301 revision second_revision promoted_store
      (memory_of env stamp (record {
        content = "retry after a lost socket";
        status = active;
        scope = record { level = host; values = record no_values { host_value = some "alpha" } };
        confidence = 70;
        provenance = "{}";
        evidence = "[]";
      }))
      (record { level = global; values = no_values }) refl refl refl refl refl refl refl
      (λ p. cc ((eq_iff "retry twice" "retry after a lost socket").1 p))

abbrev task_lesson : DraftInput
task_lesson = record lesson {
  level = task_environment;
  values = record no_values { task_environment_value = some "ci" };
}

create_draft-task_environment_example :
    create_draft env "d-1" 100 task_lesson empty ≡ (empty, validation_error)
create_draft-task_environment_example =
    create_draft-task_environment env "d-1" 100 task_lesson empty refl
