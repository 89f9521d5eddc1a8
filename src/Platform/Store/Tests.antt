-- ===== src/Platform/Store/Tests.antt =====
-- Runs of InMemoryPlatformStore on small inputs.
use route_pilot.Common.{
  String, ◌≡◌, ◌≢◌, ◌⊎◌, refl, false, Option, none, some, List, [], ◌∷◌, arith,
}
use route_pilot.Common.Eq.{text_equality, pair_eq, triple_eq, pair_beq, triple_beq, quad_eq}
use route_pilot.Common.Dict.{lookup, insert}
use route_pilot.Common.Exec.{ok}
use route_pilot.Common.Json.{Json, pos}
use route_pilot.Platform.Contracts.{Models}
use route_pilot.Platform.Models.{
  Principal, RunView, CommandType, RunEvent, EventType, RunLifecycle, ArtifactStatus,
  TripMemberRole,
}
use route_pilot.Platform.Store.State.{Store, RunExecutionLease, init, run_locked, trip_locked}
use route_pilot.Platform.Store.Trips.{create_trip, upsert_trip_member}
use route_pilot.Platform.Store.Runs.{
  replay_or_accept, accept_run, record_acceptance, base_conflict, snapshot_at, RunRequest, Fresh,
  create_run,
}
use route_pilot.Platform.Store.Mutation.{
  Mutation, Readings, mutate_run, check_fence, publish_result, record_transition,
}
use route_pilot.Platform.Store.Artifacts.{NewArtifact, create_artifact}
use route_pilot.Platform.Store.History.{
  Call, run, after_call, creates_trip, creates_run, claims, upserts_member, creates_artifact,
}
use route_pilot.Platform.Store.Fencing.{Refused, stale_run_lease_fenced, mutate_run_once}
use route_pilot.Platform.Store.Leases.{
  claim_run_execution, renew_run_execution, release_run_execution,
}
use route_pilot.Platform.Store.Core.Quiet.{core}
use route_pilot.Platform.Store.Invariant.{Sound, run-Sound, init-Sound}
use route_pilot.Platform.Store.Progress.{attempts_at}

abbrev pub ann : Principal
ann = record { tenant_id = "acme"; user_id = "ann"; roles = [] }

abbrev pub eve : Principal
eve = record { tenant_id = "acme"; user_id = "eve"; roles = [] }

-- An administrator of another tenant.
abbrev pub mallory : Principal
mallory = record { tenant_id = "rival"; user_id = "mallory"; roles = "admin" ∷ [] }

abbrev pub as_is : String → Option String
as_is = some

-- A registry whose models accept every content.
abbrev pub lenient : Models
lenient = record { run_event = some; model_validate = λ contract content. some content }

abbrev pub plan_request : RunRequest
plan_request = record {
  trip_id = "trip_1";
  command = record { type = CommandType.trip_plan; message = "plan"; payload = [] };
  base_artifact_id = none;
  base_artifact_version = none;
  idempotency_key = "key_1";
  request_hash = "hash_1";
  trace_id = "trace_1";
}

abbrev pub fresh : Fresh
fresh = record { run_id = "run_1"; event_id = "evt_1"; now = 20 }

abbrev pub draft : NewArtifact
draft = record {
  trip_id = "trip_1";
  artifact_id = none;
  artifact_type = "TripSnapshot";
  schema_version = 1;
  content = [];
  status = ArtifactStatus.candidate;
  parent_version = none;
  execution_lease = none;
}

-- Ann plans a trip that eve may look at; a worker claims the run, and is overtaken.
abbrev pub setting : List (Principal × Call)
setting =
    (
      ann,
      creates_trip (record { title = "Kyoto"; locale = "en"; timezone = "Asia/Tokyo" }) "trip_1" 10,
    )
    ∷ (ann, upserts_member "trip_1" "eve" TripMemberRole.viewer 15)
    ∷ (ann, creates_run plan_request fresh)
    ∷ (ann, creates_artifact draft "art_1" 25 30)
    ∷ []

run-Sound_example : Sound (core (run as_is lenient init setting))
run-Sound_example = run-Sound as_is lenient init setting init-Sound

abbrev pub prepared : Store
prepared = run as_is lenient init setting

abbrev pub the_run : RunView
the_run = record {
  run_id = "run_1";
  trip_id = "trip_1";
  tenant_id = "acme";
  actor_id = "ann";
  trace_id = "trace_1";
  lifecycle_state = RunLifecycle.queued;
  phase = "accepted";
  control_version = 1;
  command = plan_request.command;
  base_artifact_id = none;
  base_artifact_version = none;
  pending_input = none;
  result_artifact_id = none;
  result_artifact_version = none;
  public_error_code = none;
  created_at = 20;
  updated_at = 20;
}

abbrev pub claims_twice : List (Principal × Call)
claims_twice =
    (ann, claims "run_1" "w1" 60_000_000 100)
    ∷ (ann, claims "run_1" "w2" 60_000_000 60_000_200)
    ∷ []

abbrev pub overtaken : Store
overtaken = run as_is lenient prepared claims_twice

abbrev pub first : RunExecutionLease
first = record { run_id = "run_1"; owner = "w1"; attempt = 1; lease_until = 60_000_100 }

overtaken_twice : attempts_at "run_1" (core overtaken) ≡ 2
unfolding run after_call create_trip upsert_trip_member create_run replay_or_accept accept_run
    record_acceptance create_artifact run_locked trip_locked base_conflict snapshot_at lookup insert
    pair_beq triple_beq claim_run_execution
overtaken_twice = refl

abbrev pub to_running : Mutation
to_running = record {
  expected_control_version = 1;
  lifecycle_state = some RunLifecycle.running;
  phase = some "planning";
  pending_input = none;
  result_artifact = none;
  public_error_code = none;
  execution_lease = none;
  event_type = EventType.run_lifecycle_changed;
  payload = [];
}

abbrev pub stale_mutation : Mutation
stale_mutation = record to_running { execution_lease = some first }

abbrev pub stale_draft : NewArtifact
stale_draft = record draft { execution_lease = some first }

abbrev pub at_60 : Readings
at_60 = record { checked_at = 60_000_300; now = 60_000_301; event_id = "evt_2" }

stale_run_lease_fenced_example :
    let t = run as_is lenient overtaken [] in
    Refused (mutate_run ann "run_1" stale_mutation at_60 t) t
    × Refused (create_artifact ann stale_draft "art_2" 60_000_300 60_000_301 t) t
    × ((renew_run_execution ann first 60_000_000 60_000_300 60_000_301 t ≡ (ok none, t))
        ⊎ Refused (renew_run_execution ann first 60_000_000 60_000_300 60_000_301 t) t)
    × ((release_run_execution ann first t ≡ (ok false, t))
        ⊎ Refused (release_run_execution ann first t) t)
stale_run_lease_fenced_example =
    stale_run_lease_fenced as_is lenient overtaken first [] ann stale_mutation at_60 stale_draft
      "art_2" 60_000_000 60_000_300 60_000_301
      (run-Sound as_is lenient prepared claims_twice
        (run-Sound as_is lenient init setting init-Sound))
      (omega (arith, overtaken_twice)) refl refl

abbrev pub after_running : Store
after_running = (mutate_run ann "run_1" to_running at_60 prepared).1

abbrev pub running_run : RunView
running_run = record the_run {
  lifecycle_state = RunLifecycle.running;
  phase = "planning";
  control_version = 2;
  updated_at = 60_000_301;
}

abbrev pub running_event : RunEvent
running_event = record {
  event_id = "evt_2";
  seq = 2;
  type = EventType.run_lifecycle_changed;
  occurred_at = 60_000_301;
  trip_id = "trip_1";
  run_id = "run_1";
  trace_id = "trace_1";
  payload = ("control_version", Json.int (pos 2)) ∷ [];
}

to_running_works :
    mutate_run ann "run_1" to_running at_60 prepared
    ≡ (ok (running_run, running_event), after_running)
unfolding run after_call create_trip upsert_trip_member create_run replay_or_accept accept_run
    record_acceptance create_artifact run_locked trip_locked base_conflict snapshot_at lookup insert
    pair_beq triple_beq mutate_run check_fence publish_result record_transition
to_running_works = refl

mutate_run_once_example :
    mutate_run ann "run_1" to_running at_60
      (run as_is lenient after_running ((ann, claims "run_1" "w1" 60_000_000 100) ∷ []))
    ≢ (ok (running_run, running_event), after_running)
mutate_run_once_example =
    mutate_run_once as_is lenient prepared after_running ann ann "run_1" to_running to_running at_60
      at_60 running_run running_event to_running_works
      ((ann, claims "run_1" "w1" 60_000_000 100) ∷ []) ((λ same. absurd (ground (arith, same))), tt)
      refl running_run running_event after_running
