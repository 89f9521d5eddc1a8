-- ===== src/Platform/Store/Commands.antt =====
-- `command_artifact` of InMemoryPlatformStore (backend/moyuan_web/v1/store.py): select, publish and
-- revoke.
use route_pilot.Common.{
  ℕ, String, Bool, true, false, ◌&&◌, not, Option, none, some, eqb, if◌then◌else◌,
}
use route_pilot.Common.Eq.{◌==◌, text_equality, number_equality, quad_eq}
use route_pilot.Common.Dict.{lookup, insert}
use route_pilot.Common.Exec.{pure, gets, modify, guard, reads, ◌>>=◌, ◌>>◌}
use route_pilot.Platform.Models.{
  Principal, TripView, ArtifactView, ArtifactStatus, ArtifactCommand, ArtifactCommandRequest,
  is_published,
}
use route_pilot.Platform.Store.State.{
  Store, Method, version_conflict, idempotency_conflict, transition_conflict, trip_locked,
  artifact_locked, versions_of,
}
use route_pilot.Platform.Store.Runs.{is_same}
use route_pilot.Platform.Store.Mutation.{
  update_version, with_artifact_status, is_version, supersede_all, point_trip,
}
use route_pilot.Platform.Store.Artifacts.{ensure_artifact_mutable}

pub record IdempotentArtifactResult : Type 0 where
  pub artifact : ArtifactView
  pub replayed : Bool

unfoldable pub required : ArtifactCommand → ArtifactStatus
required ArtifactCommand.select = ArtifactStatus.candidate
required ArtifactCommand.publish = ArtifactStatus.validated
required ArtifactCommand.revoke = ArtifactStatus.published

unfoldable pub target : ArtifactCommand → ArtifactStatus
target ArtifactCommand.select = ArtifactStatus.selected
target ArtifactCommand.publish = ArtifactStatus.published
target ArtifactCommand.revoke = ArtifactStatus.revoked

-- The statuses in the order of their declaration.
rank : ArtifactStatus → ℕ
rank ArtifactStatus.candidate = 0
rank ArtifactStatus.selected = 1
rank ArtifactStatus.validated = 2
rank ArtifactStatus.published = 3
rank ArtifactStatus.superseded = 4
rank ArtifactStatus.revoked = 5

unfoldable pub same_status : ArtifactStatus → ArtifactStatus → Bool
unfolding rank
same_status a b = eqb (rank a) (rank b)

-- Any other published artifact of the trip.
unfoldable pub is_published_rival : ArtifactView → ArtifactView → Bool
is_published_rival current a =
    a.trip_id == current.trip_id
    && is_published a.status
    && not (is_version current.artifact_id current.version a)

unfoldable pub set_status : String → ArtifactView → ArtifactStatus → Store → Store
unfolding update_version
set_status id current status s = record s {
  artifacts =
      insert id (update_version current.version (with_artifact_status status) (versions_of id s))
        s.artifacts;
}

-- The trip shows this version.
unfoldable pub shows : TripView → ArtifactView → Bool
unfolding is_same
shows trip a =
    is_same a.artifact_id trip.current_artifact_id
    && is_same a.version trip.current_artifact_version

-- What follows the change of status.
unfoldable pub follow_up : Principal → ArtifactCommand → ArtifactView → ℕ → Method (Unit {0})
unfolding is_published_rival supersede_all point_trip shows
follow_up p ArtifactCommand.select current now = pure tt
follow_up p ArtifactCommand.publish current now = do
  modify (supersede_all (is_published_rival current))
  trip ← reads (trip_locked p current.trip_id true)
  modify (point_trip trip.trip_id trip (some current.artifact_id) (some current.version) now)
follow_up p ArtifactCommand.revoke current now = do
  trip ← reads (trip_locked p current.trip_id true)
  if shows trip current then modify (point_trip trip.trip_id trip none none now) else pure tt

abbrev pub Scope : Type 0
Scope = String × String × String × String

abbrev pub command_scope : Principal → String → String → Scope
command_scope p artifact_id key = (p.tenant_id, p.user_id, artifact_id, key)

unfoldable pub remember_command : Scope → String → ArtifactView → Store → Store
remember_command scope hash response s = record s {
  artifact_idempotency = insert scope (hash, response) s.artifact_idempotency;
}

unfoldable pub apply_command :
    Principal
    → String
    → ArtifactView
    → ArtifactCommandRequest
    → String
    → String
    → ℕ
    → Method IdempotentArtifactResult
unfolding same_status set_status remember_command
apply_command p artifact_id current r key hash now = do
  guard (eqb current.version r.base_version) (version_conflict current.version)
  guard (same_status current.status (required r.type))
      (transition_conflict current.version current.status r.type)
  modify (set_status artifact_id current (target r.type))
  follow_up p r.type current now
  let response = with_artifact_status (target r.type) current
  modify (remember_command (command_scope p artifact_id key) hash response)
  pure (record { artifact = response; replayed = false })

unfoldable pub replay_or_apply :
    Principal
    → String
    → ArtifactView
    → ArtifactCommandRequest
    → String
    → String
    → ℕ
    → Option (String × ArtifactView)
    → Method IdempotentArtifactResult
replay_or_apply p artifact_id current r key hash now none =
    apply_command p artifact_id current r key hash now
replay_or_apply p artifact_id current r key hash now (some (old_hash, response)) = do
  guard (old_hash == hash) idempotency_conflict
  pure (record { artifact = response; replayed = true })

unfoldable pub command_artifact :
    Principal
    → String
    → ArtifactCommandRequest
    → String
    → String
    → ℕ
    → Method IdempotentArtifactResult
command_artifact p artifact_id r key hash now = do
  current ← reads (artifact_locked p artifact_id none true)
  ensure_artifact_mutable current
  existing ← gets (λ s. lookup (command_scope p artifact_id key) s.artifact_idempotency)
  replay_or_apply p artifact_id current r key hash now existing
