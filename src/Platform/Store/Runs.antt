-- ===== src/Platform/Store/Runs.antt =====
-- The methods of InMemoryPlatformStore on runs and their events (backend/moyuan_web/v1/store.py).
-- `lifecycle_text` and the like are the values of the source's enumerations.
use route_pilot.Common.{
  ℕ, String, Bool, true, false, ◌&&◌, ◌||◌, Option, none, some, List, [], ◌∷◌, ltb, eqb,
  if◌then◌else◌, keep, any,
}
use route_pilot.Common.Eq.{◌==◌, text_equality, triple_eq, quad_eq, Equality, number_equality}
use route_pilot.Common.Dict.{Dict, lookup, insert}
use route_pilot.Common.Exec.{
  Result, ok, err, pure, raise, gets, modify, guard, require, reads, with_state, ◌>>=◌, ◌>>◌,
}
use route_pilot.Common.Json.{Json, pos}
use route_pilot.Platform.Models.{
  Principal, TripStatus, TripView, RunView, RunLifecycle, RunCommand, CommandType, RunEvent,
  EventType, ArtifactView, is_published, is_terminal,
}
use route_pilot.Platform.Store.State.{
  Store, StoreError, Method, version_conflict, idempotency_conflict, key_error, run_locked,
  trip_locked, at_version, versions_of, events_of, append_event_locked,
}

pub record IdempotentRunResult : Type 0 where
  pub run : RunView
  pub event : Option RunEvent
  pub replayed : Bool

unfoldable pub lifecycle_text : RunLifecycle → String
lifecycle_text RunLifecycle.queued = "queued"
lifecycle_text RunLifecycle.running = "running"
lifecycle_text RunLifecycle.waiting_input = "waiting_input"
lifecycle_text RunLifecycle.cancel_requested = "cancel_requested"
lifecycle_text RunLifecycle.completed = "completed"
lifecycle_text RunLifecycle.failed = "failed"
lifecycle_text RunLifecycle.canceled = "canceled"

unfoldable pub is_active : TripStatus → Bool
is_active TripStatus.active = true
is_active TripStatus.archived = false

-- `version or 1`.
abbrev pub or_one : Option ℕ → ℕ
or_one none = 1
or_one (some version) = if eqb version 0 then 1 else version

-- `a == b` where `b` may be `None`.
unfoldable pub is_same {ℓ} : {A : Type ℓ} ⦃e : Equality A⦄ → A → Option A → Bool
is_same a none = false
is_same a (some b) = a == b

-- The version of the trip's current artifact that is stored, if there is one.
unfoldable pub snapshot_at : Option String → Option ℕ → Store → Option ArtifactView
snapshot_at (some id) (some version) s = at_version version (versions_of id s)
snapshot_at _ _ s = none

-- A published TripSnapshot.
unfoldable pub is_snapshot : ArtifactView → Bool
is_snapshot a = a.artifact_type == "TripSnapshot" && is_published a.status

-- The checks on the base of a `trip.plan` and of a `trip.replan`; the conflict names a version.
unfoldable pub base_conflict :
    CommandType → TripView → Option ArtifactView → Option String → Option ℕ → Option ℕ
unfolding is_snapshot
base_conflict CommandType.trip_plan trip none base_id base_version = none
base_conflict CommandType.trip_plan trip (some a) base_id base_version =
    if is_snapshot a then some a.version else none
base_conflict CommandType.trip_replan trip none base_id base_version =
    some (or_one trip.current_artifact_version)
base_conflict CommandType.trip_replan trip (some a) base_id base_version =
    if is_snapshot a && is_same a.artifact_id base_id && is_same a.version base_version
    then none
    else some (or_one trip.current_artifact_version)
base_conflict _ trip a base_id base_version = none

-- `if conflict: raise VersionConflict(version)`.
unfoldable pub refuse_conflict : Option ℕ → Method (Unit {0})
refuse_conflict none = pure tt
refuse_conflict (some version) = raise (version_conflict version)

pub record RunRequest : Type 0 where
  pub trip_id : String
  pub command : RunCommand
  pub base_artifact_id : Option String
  pub base_artifact_version : Option ℕ
  pub idempotency_key : String
  pub request_hash : String
  pub trace_id : String

-- What the call makes up: two identifiers, and a reading of the clock.
pub record Fresh : Type 0 where
  pub run_id : String
  pub event_id : String
  pub now : ℕ

unfoldable pub new_run : Principal → TripView → RunRequest → Fresh → RunView
new_run p trip r fresh = record {
  run_id = fresh.run_id;
  trip_id = trip.trip_id;
  tenant_id = p.tenant_id;
  actor_id = p.user_id;
  trace_id = r.trace_id;
  lifecycle_state = RunLifecycle.queued;
  phase = "accepted";
  control_version = 1;
  command = r.command;
  base_artifact_id = r.base_artifact_id;
  base_artifact_version = r.base_artifact_version;
  pending_input = none;
  result_artifact_id = none;
  result_artifact_version = none;
  public_error_code = none;
  created_at = fresh.now;
  updated_at = fresh.now;
}

unfoldable pub accepted_payload : RunView → Dict String Json
unfolding lifecycle_text
accepted_payload run =
    ("lifecycle_state", Json.text (lifecycle_text run.lifecycle_state))
    ∷ ("phase", Json.text run.phase)
    ∷ ("control_version", Json.int (pos run.control_version))
    ∷ []

-- The run with an empty list of events.
unfoldable pub insert_run : RunView → Store → Store
insert_run run s = record s {
  runs = insert run.run_id run s.runs;
  events = insert run.run_id [] s.events;
}

abbrev pub run_scope : Principal → String → String × String × String
run_scope p key = (p.tenant_id, p.user_id, key)

unfoldable pub remember_run : String × String × String → String → String → Store → Store
remember_run scope hash run_id s = record s {
  idempotency = insert scope (hash, run_id) s.idempotency;
}

unfoldable pub replay_run : String → Method IdempotentRunResult
replay_run run_id = do
  run ← with_state (λ s. require (lookup run_id s.runs) key_error)
  pure (record { run = run; event = none; replayed = true })

-- The writes of a new run.
unfoldable pub record_acceptance :
    Principal → TripView → RunRequest → Fresh → Method IdempotentRunResult
unfolding new_run accepted_payload insert_run remember_run append_event_locked
record_acceptance p trip r fresh = do
  let run = new_run p trip r fresh
  modify (insert_run run)
  event ←
      append_event_locked run EventType.run_accepted (accepted_payload run) r.trace_id fresh.now
        fresh.event_id
  modify (remember_run (run_scope p r.idempotency_key) r.request_hash fresh.run_id)
  pure (record { run = run; event = some event; replayed = false })

unfoldable pub accept_run : Principal → TripView → RunRequest → Fresh → Method IdempotentRunResult
unfolding refuse_conflict
accept_run p trip r fresh = do
  snapshot ← gets (snapshot_at trip.current_artifact_id trip.current_artifact_version)
  refuse_conflict
      (base_conflict r.command.type trip snapshot r.base_artifact_id r.base_artifact_version)
  record_acceptance p trip r fresh

-- The reply to a key that was used before, or else a new run.
unfoldable pub replay_or_accept :
    Principal
    → TripView
    → RunRequest
    → Fresh
    → Option (String × String)
    → Method IdempotentRunResult
unfolding replay_run
replay_or_accept p trip r fresh none = accept_run p trip r fresh
replay_or_accept p trip r fresh (some (hash, run_id)) = do
  guard (hash == r.request_hash) idempotency_conflict
  replay_run run_id

unfoldable pub create_run : Principal → RunRequest → Fresh → Method IdempotentRunResult
unfolding is_active
create_run p r fresh = do
  trip ← reads (trip_locked p r.trip_id true)
  guard (is_active trip.status) (version_conflict trip.version)
  existing ← gets (λ s. lookup (run_scope p r.idempotency_key) s.idempotency)
  replay_or_accept p trip r fresh existing

unfoldable pub get_run : Principal → String → Method RunView
get_run p run_id = reads (run_locked p run_id)

unfoldable pub list_events : Principal → String → ℕ → Method (List RunEvent)
list_events p run_id after_seq = do
  reads (run_locked p run_id)
  gets (λ s. keep (λ event. ltb after_seq event.seq) (events_of run_id s))

-- The predicate of a subscriber; an exception in it ends the wait.
unfoldable pub event_available : String → ℕ → Store → RunView → Bool
unfolding is_terminal
event_available run_id after_seq s run =
    any (λ event. ltb after_seq event.seq) (events_of run_id s) || is_terminal run.lifecycle_state

-- The states at which the subscriber evaluates its predicate before the timeout. The run is checked
-- once more before the first.
unfoldable pub await_events : Principal → String → ℕ → List Store → Result StoreError Bool
unfolding event_available
await_events p run_id after_seq [] = ok false
await_events p run_id after_seq (s ∷ later) =
    let rest = await_events p run_id after_seq later in
    elim (run_locked p run_id s) [
      | err e ↦ err e
      | ok run ↦ if event_available run_id after_seq s run then ok true else rest
    ]

unfoldable pub wait_for_events :
    Principal → String → ℕ → Store → List Store → Result StoreError Bool
unfolding await_events
wait_for_events p run_id after_seq s later = await_events p run_id after_seq (s ∷ later)
