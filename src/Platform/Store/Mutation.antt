-- ===== src/Platform/Store/Mutation.antt =====
-- `mutate_run` of InMemoryPlatformStore (backend/moyuan_web/v1/store.py): a transition of a run,
-- with the publication of its result. Writes that stand before a raise stay.
use route_pilot.Common.{
  ℕ, ◌+◌, String, Bool, true, ◌&&◌, not, Option, none, some, List, [], ◌∷◌, eqb, if◌then◌else◌,
  each,
}
use route_pilot.Common.Eq.{◌==◌, text_equality}
use route_pilot.Common.Dict.{Dict, insert, map_values}
use route_pilot.Common.Exec.{pure, modify, guard, require, reads, with_state, ◌>>=◌, ◌>>◌}
use route_pilot.Common.Json.{Json, pos}
use route_pilot.Platform.Models.{
  Principal, TripView, RunView, RunLifecycle, RunPendingInput, RunEvent, EventType, ArtifactView,
  ArtifactStatus, is_published, is_terminal,
}
use route_pilot.Platform.Store.State.{
  RunExecutionLease, Store, Method, not_found, lease_lost, version_conflict, run_locked,
  trip_locked, assert_execution_lease_locked, at_version, versions_of, append_event_locked,
}
use route_pilot.Platform.Store.Leases.{drop_lease}

pub record Mutation : Type 0 where
  pub expected_control_version : ℕ
  pub lifecycle_state : Option RunLifecycle
  pub phase : Option String
  pub pending_input : Option RunPendingInput
  pub result_artifact : Option ArtifactView
  pub public_error_code : Option String
  pub execution_lease : Option RunExecutionLease
  pub event_type : EventType
  pub payload : Dict String Json

-- The clock at the lease's check and after it, and the event's identifier.
pub record Readings : Type 0 where
  pub checked_at : ℕ
  pub now : ℕ
  pub event_id : String

unfoldable pub check_fence : Principal → String → Option RunExecutionLease → ℕ → Method (Unit {0})
check_fence p run_id none now = pure tt
check_fence p run_id (some lease) now = do
  guard (lease.run_id == run_id) lease_lost
  reads (assert_execution_lease_locked p lease none now)
  pure tt

-- `versions[versions.index(stored)] = f(stored)`, where `stored` is the first of its version.
unfoldable pub update_version :
    ℕ → (ArtifactView → ArtifactView) → List ArtifactView → List ArtifactView
update_version version f [] = []
update_version version f (a ∷ rest) =
    if eqb a.version version then f a ∷ rest else a ∷ update_version version f rest

abbrev pub with_artifact_status : ArtifactStatus → ArtifactView → ArtifactView
with_artifact_status status a = record a { status = status }

unfoldable pub publish_version : String → ℕ → Store → Store
unfolding update_version
publish_version id version s = record s {
  artifacts =
      insert id
        (update_version version (with_artifact_status ArtifactStatus.published) (versions_of id s))
        s.artifacts;
}

abbrev pub is_version : String → ℕ → ArtifactView → Bool
is_version id version a = a.artifact_id == id && eqb a.version version

-- Another published TripSnapshot of the trip.
unfoldable pub is_rival : String → String → ℕ → ArtifactView → Bool
is_rival trip_id id version a =
    a.trip_id == trip_id
    && a.artifact_type == "TripSnapshot"
    && is_published a.status
    && not (is_version id version a)

unfoldable pub supersede : (ArtifactView → Bool) → ArtifactView → ArtifactView
supersede rival a = if rival a then with_artifact_status ArtifactStatus.superseded a else a

-- Over the lists of `self._artifacts.values()`.
unfoldable pub supersede_all : (ArtifactView → Bool) → Store → Store
unfolding supersede
supersede_all rival s = record s { artifacts = map_values (each (supersede rival)) s.artifacts }

unfoldable pub point_trip : String → TripView → Option String → Option ℕ → ℕ → Store → Store
point_trip trip_id trip id version now s = record s {
  trips =
      insert trip_id
        (record trip {
          current_artifact_id = id;
          current_artifact_version = version;
          version = trip.version + 1;
          updated_at = now;
        })
        s.trips;
}

-- A TripSnapshot takes the place of the trip's other ones.
unfoldable pub promote_snapshot : Principal → String → ArtifactView → ℕ → Method (Unit {0})
promote_snapshot p trip_id stored now = do
  modify (supersede_all (is_rival trip_id stored.artifact_id stored.version))
  trip ← reads (trip_locked p trip_id true)
  modify (point_trip trip_id trip (some stored.artifact_id) (some stored.version) now)

unfoldable pub publish_result : Principal → RunView → Option ArtifactView → ℕ → Method (Unit {0})
publish_result p current none now = pure tt
publish_result p current (some result) now = do
  stored ←
      with_state
        (λ s. require (at_version result.version (versions_of result.artifact_id s)) not_found)
  guard (stored.trip_id == current.trip_id) not_found
  modify (publish_version result.artifact_id result.version)
  if stored.artifact_type == "TripSnapshot"
      then promote_snapshot p current.trip_id stored now
      else pure tt

-- `updates[field] = value`, where a value is given.
abbrev pub given {ℓ} : {A : Type ℓ} → Option A → A → A
given none old = old
given (some new) old = new

abbrev pub given_some {ℓ} : {A : Type ℓ} → Option A → Option A → Option A
given_some none old = old
given_some (some new) old = some new

abbrev pub result_id : Option ArtifactView → Option String → Option String
result_id none old = old
result_id (some a) old = some a.artifact_id

abbrev pub result_version : Option ArtifactView → Option ℕ → Option ℕ
result_version none old = old
result_version (some a) old = some a.version

unfoldable pub mutated : Mutation → ℕ → RunView → RunView
mutated m now current = record current {
  lifecycle_state = given m.lifecycle_state current.lifecycle_state;
  phase = given m.phase current.phase;
  control_version = current.control_version + 1;
  pending_input = given_some m.pending_input current.pending_input;
  result_artifact_id = result_id m.result_artifact current.result_artifact_id;
  result_artifact_version = result_version m.result_artifact current.result_artifact_version;
  public_error_code = given_some m.public_error_code current.public_error_code;
  updated_at = now;
}

-- A terminal, cancelling or waiting run gives its lease up.
unfoldable pub releases_lease : RunLifecycle → Bool
unfolding is_terminal
releases_lease RunLifecycle.cancel_requested = true
releases_lease RunLifecycle.waiting_input = true
releases_lease state = is_terminal state

unfoldable pub set_run : String → RunView → Store → Store
set_run run_id run s = record s { runs = insert run_id run s.runs }

unfoldable pub write_run : String → RunView → Store → Store
unfolding set_run drop_lease releases_lease
write_run run_id run s =
    if releases_lease run.lifecycle_state
    then drop_lease run_id (set_run run_id run s)
    else set_run run_id run s

-- `{**event_data, "control_version": version}`.
unfoldable pub with_control_version : Dict String Json → ℕ → Dict String Json
with_control_version payload version = insert "control_version" (Json.int (pos version)) payload

-- The writes that follow the publication.
unfoldable pub record_transition :
    String → RunView → Mutation → Readings → Method (RunView × RunEvent)
unfolding mutated write_run with_control_version append_event_locked
record_transition run_id current m readings = do
  let updated = mutated m readings.now current
  modify (write_run run_id updated)
  event ←
      append_event_locked updated m.event_type
        (with_control_version m.payload updated.control_version) updated.trace_id readings.now
        readings.event_id
  pure (updated, event)

unfoldable pub mutate_run : Principal → String → Mutation → Readings → Method (RunView × RunEvent)
mutate_run p run_id m readings = do
  current ← reads (run_locked p run_id)
  check_fence p run_id m.execution_lease readings.checked_at
  guard (eqb current.control_version m.expected_control_version)
      (version_conflict current.control_version)
  publish_result p current m.result_artifact readings.now
  record_transition run_id current m readings
