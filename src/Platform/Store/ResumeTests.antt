-- ===== src/Platform/Store/ResumeTests.antt =====
-- A resumption in InMemoryPlatformStore on a small input.
use route_pilot.Common.{◌≡◌, refl, true, false, some, [], ◌∷◌, any, all}
use route_pilot.Common.Eq.{text_equality, pair_eq, pair_beq, triple_beq, quad_beq}
use route_pilot.Common.Dict.{lookup, insert}
use route_pilot.Common.Exec.{ok}
use route_pilot.Common.Json.{Json, pos}
use route_pilot.Platform.Input.{validate_run_input_values}
use route_pilot.Platform.Models.{
  RunView, RunLifecycle, RunPendingInput, InputType, EventType, is_admin,
}
use route_pilot.Platform.Store.State.{Store, run_locked, trip_locked}
use route_pilot.Platform.Store.Trips.{create_trip, upsert_trip_member}
use route_pilot.Platform.Store.Runs.{
  IdempotentRunResult, create_run, replay_or_accept, accept_run, record_acceptance, base_conflict,
  snapshot_at,
}
use route_pilot.Platform.Store.Artifacts.{create_artifact}
use route_pilot.Platform.Store.Mutation.{
  Mutation, mutate_run, check_fence, publish_result, record_transition,
}
use route_pilot.Platform.Store.Resume.{
  ResumeRequest, ResumeReadings, resume_run, replay_or_resume, resume_waiting, record_resumption,
  resumed,
}
use route_pilot.Platform.Store.History.{run, after_call}
use route_pilot.Platform.Store.Resumption.{Answered, resume_run-Answered}
use route_pilot.Platform.Store.Tests.{ann, as_is, prepared, the_run, to_running, at_60}

abbrev question : RunPendingInput
question = record {
  request_id = "req_1";
  prompt = "Book it?";
  fields =
      record {
        field_id = "ok";
        label = "Ok";
        input_type = InputType.confirmation;
        required = true;
        options = [];
      }
      ∷ [];
  expires_at = 90_000_000;
}

abbrev to_waiting : Mutation
to_waiting = record to_running {
  lifecycle_state = some RunLifecycle.waiting_input;
  pending_input = some question;
  event_type = EventType.input_required;
}

abbrev waiting : Store
waiting = (mutate_run ann "run_1" to_waiting at_60 prepared).1

abbrev waiting_run : RunView
waiting_run = record the_run {
  lifecycle_state = RunLifecycle.waiting_input;
  phase = "planning";
  control_version = 2;
  pending_input = some question;
  updated_at = 60_000_301;
}

abbrev yes : ResumeRequest
yes = record {
  expected_control_version = 2;
  request_id = "req_1";
  values = ("ok", Json.bool true) ∷ [];
  idempotency_key = "key_2";
  request_hash = "hash_2";
}

abbrev at_70 : ResumeReadings
at_70 = record { checked_at = 70_000_000; now = 70_000_001; event_id = "evt_3" }

abbrev answer : IdempotentRunResult
answer = record {
  run = resumed "req_1" (("ok", Json.bool true) ∷ []) 70_000_001 waiting_run;
  event = some (record {
    event_id = "evt_3";
    seq = 3;
    type = EventType.run_lifecycle_changed;
    occurred_at = 70_000_001;
    trip_id = "trip_1";
    run_id = "run_1";
    trace_id = "trace_1";
    payload =
        ("previous_state", Json.text "waiting_input")
        ∷ ("lifecycle_state", Json.text "queued")
        ∷ ("reason_code", Json.text "INPUT_SUPPLIED")
        ∷ ("control_version", Json.int (pos 3))
        ∷ [];
  });
  replayed = false;
}

abbrev answered : Store
answered = (resume_run as_is ann "run_1" yes at_70 waiting).1

yes_works : resume_run as_is ann "run_1" yes at_70 waiting ≡ (ok answer, answered)
unfolding run after_call create_trip upsert_trip_member create_run replay_or_accept accept_run
    record_acceptance create_artifact run_locked trip_locked base_conflict snapshot_at lookup insert
    pair_beq triple_beq quad_beq is_admin any all mutate_run check_fence publish_result
    record_transition resume_run replay_or_resume resume_waiting record_resumption
    validate_run_input_values resumed
yes_works = refl

resume_run-Answered_example : Answered as_is ann "run_1" yes at_70 waiting answer answered
resume_run-Answered_example =
    resume_run-Answered as_is ann "run_1" yes at_70 waiting answered answer yes_works refl
