-- ===== src/Platform/Store/Scenarios.antt =====
-- Publications, refusals and retries in InMemoryPlatformStore on small inputs.
use route_pilot.Common.{
  ◌+◌, String, ◌≡◌, ◌≢◌, ◌≢◌, refl, true, none, some, List, [], ◌∷◌, ◌++◌, arith, any, find_first,
}
use route_pilot.Common.Eq.{==_iff, text_equality, pair_eq, triple_eq, pair_beq, triple_beq}
use route_pilot.Common.Dict.{Dict, lookup, insert}
use route_pilot.Common.Exec.{ok, err}
use route_pilot.Common.Json.{Json, pos}
use route_pilot.Platform.Contracts.{validate_contract, contract_id}
use route_pilot.Platform.Models.{
  Principal, TripView, TripStatus, RunView, RunEvent, EventType, RunLifecycle, ArtifactView,
  ArtifactStatus, ArtifactPatchRequest, TripPatchRequest, is_admin,
}
use route_pilot.Platform.Store.State.{
  Store, forbidden, version_conflict, run_locked, trip_locked, artifact_locked, versions_of,
  latest_of, at_version,
}
use route_pilot.Platform.Store.Trips.{create_trip, upsert_trip_member}
use route_pilot.Platform.Store.Runs.{
  RunRequest, IdempotentRunResult, create_run, replay_or_accept, accept_run, record_acceptance,
  base_conflict, snapshot_at,
}
use route_pilot.Platform.Store.Mutation.{
  Mutation, mutate_run, check_fence, publish_result, promote_snapshot, publish_version,
  supersede_all, is_rival, point_trip, record_transition, with_artifact_status,
}
use route_pilot.Platform.Store.Artifacts.{create_artifact, patch_artifact}
use route_pilot.Platform.Store.History.{Call, run, after_call, patches_trip, mutates}
use route_pilot.Platform.Store.Access.{Barred, TripsKeyed}
use route_pilot.Platform.Store.Barring.{Barred-keeps_trip}
use route_pilot.Platform.Store.Tenancy.{tenants_isolated}
use route_pilot.Platform.Store.Superseding.{EveryVersion, SoleSnapshot, stored_at}
use route_pilot.Platform.Store.Publication.{Shown, publish_exclusive}
use route_pilot.Platform.Store.Torn.{torn_publication}
use route_pilot.Platform.Store.Retry.{create_run_retry, repeated}
use route_pilot.Platform.Store.Editing.{patch_artifact_chain}
use route_pilot.Platform.Store.Tests.{
  ann, eve, mallory, as_is, lenient, plan_request, fresh, prepared, the_run, to_running, at_60,
}

abbrev the_draft : ArtifactView
the_draft = record {
  artifact_id = "art_1";
  version = 1;
  trip_id = "trip_1";
  tenant_id = "acme";
  artifact_type = "TripSnapshot";
  schema_version = 1;
  status = ArtifactStatus.candidate;
  content = [];
  created_by = "ann";
  created_at = 30;
  parent_version = none;
}

abbrev to_completed : Mutation
to_completed = record to_running {
  lifecycle_state = some RunLifecycle.completed;
  result_artifact = some the_draft;
  event_type = EventType.run_completed;
}

abbrev completed_run : RunView
completed_run = record the_run {
  lifecycle_state = RunLifecycle.completed;
  phase = "planning";
  control_version = 2;
  result_artifact_id = some "art_1";
  result_artifact_version = some 1;
  updated_at = 60_000_301;
}

abbrev completed_event : RunEvent
completed_event = record {
  event_id = "evt_2";
  seq = 2;
  type = EventType.run_completed;
  occurred_at = 60_000_301;
  trip_id = "trip_1";
  run_id = "run_1";
  trace_id = "trace_1";
  payload = ("control_version", Json.int (pos 2)) ∷ [];
}

abbrev completed : Store
completed = (mutate_run ann "run_1" to_completed at_60 prepared).1

to_completed_works :
    mutate_run ann "run_1" to_completed at_60 prepared
    ≡ (ok (completed_run, completed_event), completed)
unfolding run after_call create_trip upsert_trip_member create_run replay_or_accept accept_run
    record_acceptance create_artifact run_locked trip_locked base_conflict snapshot_at lookup insert
    pair_beq triple_beq is_admin any at_version find_first mutate_run check_fence publish_result
    promote_snapshot publish_version supersede_all is_rival point_trip record_transition
to_completed_works = refl

found_by_ann : run_locked ann "run_1" prepared ≡ ok the_run
unfolding run after_call create_trip upsert_trip_member create_run replay_or_accept accept_run
    record_acceptance create_artifact run_locked trip_locked base_conflict snapshot_at lookup insert
    pair_beq triple_beq is_admin any at_version find_first
found_by_ann = refl

found_by_eve : run_locked eve "run_1" prepared ≡ ok the_run
unfolding run after_call create_trip upsert_trip_member create_run replay_or_accept accept_run
    record_acceptance create_artifact run_locked trip_locked base_conflict snapshot_at lookup insert
    pair_beq triple_beq is_admin any at_version find_first
found_by_eve = refl

eve_may_not_write : trip_locked eve "trip_1" true prepared ≡ err forbidden
unfolding run after_call create_trip upsert_trip_member create_run replay_or_accept accept_run
    record_acceptance create_artifact run_locked trip_locked base_conflict snapshot_at lookup insert
    pair_beq triple_beq is_admin any at_version find_first
eve_may_not_write = refl

the_draft_stored : stored_at "art_1" 1 prepared ≡ some the_draft
unfolding run after_call create_trip upsert_trip_member create_run replay_or_accept accept_run
    record_acceptance create_artifact run_locked trip_locked base_conflict snapshot_at lookup insert
    pair_beq triple_beq is_admin any at_version find_first
the_draft_stored = refl

publish_exclusive_example :
    EveryVersion (SoleSnapshot "trip_1" "art_1" 1) completed
    × Shown "trip_1" "art_1" 1 completed
    × (stored_at "art_1" 1 completed
        ≡ some (with_artifact_status ArtifactStatus.published the_draft))
publish_exclusive_example =
    publish_exclusive prepared completed ann "run_1" to_completed at_60 the_run the_draft the_draft
      completed_run completed_event found_by_ann refl the_draft_stored refl to_completed_works

torn_publication_example :
    (t : Store) × (mutate_run eve "run_1" to_completed at_60 prepared ≡ (err forbidden, t))
    × (t.trips ≡ prepared.trips)
    × (t.runs ≡ prepared.runs)
    × (t.events ≡ prepared.events)
    × EveryVersion (SoleSnapshot "trip_1" "art_1" 1) t
    × (stored_at "art_1" 1 t ≡ some (with_artifact_status ArtifactStatus.published the_draft))
torn_publication_example =
    torn_publication prepared eve "run_1" to_completed at_60 the_run the_draft the_draft
      found_by_eve refl refl refl the_draft_stored refl refl eve_may_not_write

abbrev again : RunRequest
again = record plan_request { request_hash = "hash_2" }

abbrev replay : IdempotentRunResult
replay = record { run = the_run; event = none; replayed = true }

create_replayed : create_run ann plan_request fresh prepared ≡ (ok replay, prepared)
unfolding run after_call create_trip upsert_trip_member create_run replay_or_accept accept_run
    record_acceptance create_artifact run_locked trip_locked base_conflict snapshot_at lookup insert
    pair_beq triple_beq is_admin any at_version find_first
create_replayed = refl

create_run_retry_example :
    create_run ann again fresh prepared ≡ (repeated plan_request again the_run, prepared)
create_run_retry_example =
    create_run_retry ann plan_request again fresh fresh prepared prepared replay create_replayed
      refl refl

abbrev the_trip : TripView
the_trip = record {
  trip_id = "trip_1";
  tenant_id = "acme";
  owner_id = "ann";
  title = some "Kyoto";
  locale = some "en";
  timezone = some "Asia/Tokyo";
  status = TripStatus.active;
  version = 1;
  current_artifact_id = none;
  current_artifact_version = none;
  created_at = 10;
  updated_at = 10;
}

the_trip_stored : lookup "trip_1" prepared.trips ≡ some the_trip
unfolding run after_call create_trip upsert_trip_member create_run replay_or_accept accept_run
    record_acceptance create_artifact run_locked trip_locked base_conflict snapshot_at lookup insert
    pair_beq triple_beq is_admin any at_version find_first
the_trip_stored = refl

prepared_keyed : TripsKeyed prepared
unfolding run after_call create_trip upsert_trip_member create_run replay_or_accept accept_run
    record_acceptance create_artifact run_locked trip_locked base_conflict snapshot_at lookup insert
    pair_beq triple_beq is_admin any at_version find_first
prepared_keyed = (refl, tt)

abbrev retitle : TripPatchRequest
retitle = record { title = some (some "mine"); locale = none; timezone = none }

eve-Barred : Barred eve "trip_1" the_trip prepared
eve-Barred = record {
  keyed = prepared_keyed;
  stored = the_trip_stored;
  refused = λ t h. absurd (ground (arith, h, eve_may_not_write));
}

Barred-keeps_trip_example :
    lookup "trip_1" (after_call as_is lenient eve (patches_trip "trip_1" retitle 90) prepared).trips
    ≡ some the_trip
Barred-keeps_trip_example =
    Barred-keeps_trip as_is lenient prepared eve (patches_trip "trip_1" retitle 90) "trip_1"
      the_trip eve-Barred (λ same. absurd (ground (arith, same)))

abbrev meddling : List (Principal × Call)
meddling =
    (mallory, patches_trip "trip_1" retitle 90) ∷ (mallory, mutates "run_1" to_completed at_60) ∷ []

from_elsewhere : mallory.tenant_id ≢ the_trip.tenant_id
from_elsewhere same = absurd (ground (arith, ==_iff mallory.tenant_id the_trip.tenant_id, same))

tenants_isolated_example :
    (lookup "trip_1" (run as_is lenient prepared meddling).trips ≡ some the_trip)
    × TripsKeyed (run as_is lenient prepared meddling)
tenants_isolated_example =
    tenants_isolated as_is lenient prepared "trip_1" the_trip meddling prepared_keyed
      the_trip_stored
      (
        (from_elsewhere, λ same. absurd (ground (arith, same))),
        ((from_elsewhere, λ same. absurd (ground (arith, same))), tt),
      )

abbrev edited : Dict String Json
edited =
    ("artifact_id", Json.text "art_1")
    ∷ ("artifact_type", Json.text "TripSnapshot")
    ∷ ("schema_version", Json.int (pos 1))
    ∷ ("version", Json.int (pos 2))
    ∷ []

abbrev edit : ArtifactPatchRequest
edit = record { base_version = 1; content = edited }

abbrev second_draft : ArtifactView
second_draft = record the_draft {
  version = 2;
  content = edited;
  created_at = 70;
  parent_version = some 1;
}

abbrev after_edit : Store
after_edit = (patch_artifact lenient ann "art_1" edit 70 prepared).1

edit_works : patch_artifact lenient ann "art_1" edit 70 prepared ≡ (ok second_draft, after_edit)
unfolding run after_call create_trip upsert_trip_member create_run replay_or_accept accept_run
    record_acceptance create_artifact run_locked trip_locked base_conflict snapshot_at lookup insert
    pair_beq triple_beq is_admin any at_version find_first patch_artifact artifact_locked
edit_works = refl

patch_artifact_chain_example :
    (versions_of "art_1" after_edit ≡ versions_of "art_1" prepared ++ second_draft ∷ [])
    × (latest_of (versions_of "art_1" after_edit) ≡ some second_draft)
    × (2 ≡ edit.base_version + 1)
    × (some 1 ≡ some edit.base_version)
    × (ArtifactStatus.candidate ≡ ArtifactStatus.candidate)
    × (validate_contract lenient (contract_id "TripSnapshot" 1) edited ≡ some edited)
    × (patch_artifact lenient ann "art_1" edit 80 after_edit
        ≡ (err (version_conflict 2), after_edit))
    × ((b : ArtifactView) (u : Store)
        → patch_artifact lenient eve "art_1" edit 80 after_edit ≢ (ok b, u))
patch_artifact_chain_example =
    patch_artifact_chain lenient ann eve "art_1" edit edit 70 80 prepared after_edit second_draft
      edit_works refl
