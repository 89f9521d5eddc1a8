-- ===== src/Platform/Store/State.antt =====
-- The state of InMemoryPlatformStore, its errors, and the checks that its methods share
-- (backend/moyuan_web/v1/store.py). A method body runs under one lock, so it is one step; what it
-- reads of the clock and each identifier that it makes up are its arguments.
use route_pilot.Common.{
  ℕ, ◌+◌, String, Bool, true, false, ◌&&◌, ◌||◌, Option, none, some, List, [], ◌∷◌, ◌++◌, length,
  ltb, eqb, if◌then◌else◌, find_first, or_empty,
}
use route_pilot.Common.Eq.{◌==◌, text_equality, pair_eq, triple_eq, quad_eq}
use route_pilot.Common.Dict.{Dict, lookup, insert}
use route_pilot.Common.Exec.{Result, ok, Exec}
use route_pilot.Common.Json.{Json}
use route_pilot.Common.Outcome.{present, check, ◌>>=◌, ◌>>◌}
use route_pilot.Platform.Models.{
  Principal, TripView, TripMemberView, TripMemberRole, RunView, RunLifecycle, RunEvent, EventType,
  ArtifactView, ArtifactStatus, ArtifactCommand, is_admin,
}

pub record RunExecutionLease : Type 0 where
  pub run_id : String
  pub owner : String
  pub attempt : ℕ
  pub lease_until : ℕ

pub record Store : Type 0 where
  pub trips : Dict String TripView
  pub runs : Dict String RunView
  pub events : Dict String (List RunEvent)
  pub artifacts : Dict String (List ArtifactView)
  pub idempotency : Dict (String × String × String) (String × String)
  pub run_control_idempotency : Dict (String × String × String × String) (String × String)
  pub artifact_idempotency : Dict (String × String × String × String) (String × ArtifactView)
  pub members : Dict (String × String) TripMemberView
  pub execution_leases : Dict String RunExecutionLease
  pub execution_attempts : Dict String ℕ

abbrev pub init : Store
init = record {
  trips = [];
  runs = [];
  events = [];
  artifacts = [];
  idempotency = [];
  run_control_idempotency = [];
  artifact_idempotency = [];
  members = [];
  execution_leases = [];
  execution_attempts = [];
}

-- The last three are Python's own `KeyError`, `ValueError` and `OverflowError`.
pub data StoreError : Type 0 where
  not_found forbidden idempotency_conflict lease_lost input_expired input_invalid : StoreError
  version_conflict : ℕ → StoreError
  transition_conflict : ℕ → ArtifactStatus → ArtifactCommand → StoreError
  artifact_read_only : String → ℕ → StoreError
  content_invalid : ℕ → StoreError
  key_error value_error overflow_error : StoreError

abbrev pub Method : Type 0 → Type 0
Method = Exec Store StoreError

-- A membership that lets its member read or, if it is an editor's, write.
unfoldable pub membership_allows : Option TripMemberView → Bool → Bool
membership_allows none write = false
membership_allows (some m) write =
    if write then elim m.role [ TripMemberRole.editor ↦ true | _ ↦ false ] else true

unfoldable pub may_access : Principal → TripView → Option TripMemberView → Bool → Bool
unfolding membership_allows
may_access p trip member write =
    trip.owner_id == p.user_id || is_admin p || membership_allows member write

unfoldable pub trip_locked : Principal → String → Bool → Store → Result StoreError TripView
unfolding may_access
trip_locked p trip_id write s = do
  trip ← present (lookup trip_id s.trips) not_found
  check (p.tenant_id == trip.tenant_id) not_found
  check (may_access p trip (lookup (trip_id, p.user_id) s.members) write) forbidden
  ok trip

unfoldable pub run_locked : Principal → String → Store → Result StoreError RunView
run_locked p run_id s = do
  run ← present (lookup run_id s.runs) not_found
  check (p.tenant_id == run.tenant_id) not_found
  trip_locked p run.trip_id false s
  ok run

-- The states in which a worker may hold a run.
unfoldable pub is_executable : RunLifecycle → Bool
is_executable RunLifecycle.queued = true
is_executable RunLifecycle.running = true
is_executable _ = false

-- The lease that is held has the owner and the attempt of this one.
unfoldable pub same_fence : Option RunExecutionLease → RunExecutionLease → Bool
same_fence none lease = false
same_fence (some held) lease = held.owner == lease.owner && eqb held.attempt lease.attempt

-- A lease is held and has not run out.
unfoldable pub is_held : Option RunExecutionLease → ℕ → Bool
is_held none now = false
is_held (some held) now = ltb now held.lease_until

unfoldable pub targets : Option String → String → Bool
targets none trip_id = true
targets (some wanted) trip_id = trip_id == wanted

unfoldable pub assert_execution_lease_locked :
    Principal → RunExecutionLease → Option String → ℕ → Store → Result StoreError RunView
unfolding same_fence is_held targets is_executable
assert_execution_lease_locked p lease trip_id now s = do
  run ← run_locked p lease.run_id s
  check
      (same_fence (lookup lease.run_id s.execution_leases) lease
        && is_held (lookup lease.run_id s.execution_leases) now
        && is_executable run.lifecycle_state
        && targets trip_id run.trip_id)
      lease_lost
  ok run

-- `max(versions, key=lambda item: item.version)`: the first of the latest.
unfoldable pub latest : ArtifactView → List ArtifactView → ArtifactView
latest best [] = best
latest best (a ∷ rest) = latest (if ltb best.version a.version then a else best) rest

unfoldable pub latest_of : List ArtifactView → Option ArtifactView
unfolding latest
latest_of [] = none
latest_of (a ∷ rest) = some (latest a rest)

-- `next((item for item in versions if item.version == version), None)`.
unfoldable pub at_version : ℕ → List ArtifactView → Option ArtifactView
at_version version = find_first (λ a. eqb a.version version)

abbrev pub versions_of : String → Store → List ArtifactView
versions_of id s = or_empty (lookup id s.artifacts)

resolve : Option ℕ → List ArtifactView → Option ArtifactView
unfolding latest_of at_version
resolve none versions = latest_of versions
resolve (some version) versions = at_version version versions

unfoldable pub artifact_locked :
    Principal → String → Option ℕ → Bool → Store → Result StoreError ArtifactView
unfolding resolve
artifact_locked p artifact_id version write s = do
  resolved ← present (resolve version (versions_of artifact_id s)) not_found
  check (p.tenant_id == resolved.tenant_id) not_found
  trip_locked p resolved.trip_id write s
  ok resolved

abbrev pub events_of : String → Store → List RunEvent
events_of id s = or_empty (lookup id s.events)

unfoldable pub next_event :
    RunView → EventType → Dict String Json → String → ℕ → String → Store → RunEvent
next_event run type payload trace_id occurred_at event_id s = record {
  event_id = event_id;
  seq = length (events_of run.run_id s) + 1;
  type = type;
  occurred_at = occurred_at;
  trip_id = run.trip_id;
  run_id = run.run_id;
  trace_id = trace_id;
  payload = payload;
}

unfoldable pub push_event : RunEvent → Store → Store
push_event event s = record s {
  events = insert event.run_id (events_of event.run_id s ++ event ∷ []) s.events;
}

unfoldable pub append_event_locked :
    RunView → EventType → Dict String Json → String → ℕ → String → Method RunEvent
unfolding next_event push_event
append_event_locked run type payload trace_id occurred_at event_id s =
    let event = next_event run type payload trace_id occurred_at event_id s in
    (ok event, push_event event s)
