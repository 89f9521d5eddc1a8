-- ===== src/Platform/Store/Core/Quiet.antt =====
-- The part of InMemoryPlatformStore that runs live in, and the methods that leave it alone.
use route_pilot.Common.{ℕ, String, ◌≡◌, refl, Option, none, some, List, arith, true, inl, inr}
use route_pilot.Common.Dict.{Dict, lookup}
use route_pilot.Common.Eq.{text_equality, quad_eq}
use route_pilot.Common.Outcome.{Result-cases}
use route_pilot.Platform.Contracts.{Models}
use route_pilot.Platform.Models.{
  Principal, TripCreateRequest, TripPatchRequest, TripStatus, TripMemberRole, RunView, RunEvent,
  ArtifactPatchRequest, ArtifactCommandRequest, ArtifactView, ArtifactCommand,
}
use route_pilot.Platform.Store.State.{RunExecutionLease, Store, artifact_locked}
use route_pilot.Platform.Store.Trips.{
  create_trip, patch_trip, set_trip_status, upsert_trip_member, remove_trip_member,
}
use route_pilot.Platform.Store.Mutation.{
  publish_result, promote_snapshot, publish_version, supersede_all, point_trip,
}
use route_pilot.Platform.Store.Artifacts.{
  NewArtifact, create_artifact, patch_artifact, ensure_artifact_mutable,
}
use route_pilot.Platform.Store.Commands.{
  command_artifact, apply_command, follow_up, set_status, target, replay_or_apply, command_scope,
}

pub record Core : Type 0 where
  pub runs : Dict String RunView
  pub events : Dict String (List RunEvent)
  pub execution_leases : Dict String RunExecutionLease
  pub execution_attempts : Dict String ℕ

abbrev pub core : Store → Core
core s = record {
  runs = s.runs;
  events = s.events;
  execution_leases = s.execution_leases;
  execution_attempts = s.execution_attempts;
}

module _ (s : Store) (p : Principal) where
  pub core-create_trip :
      (r : TripCreateRequest) (id : String) (now : ℕ) → core (create_trip p r id now s).1 ≡ core s
  unfolding create_trip
  core-create_trip r id now = refl

  pub core-patch_trip :
      (id : String) (r : TripPatchRequest) (now : ℕ) → core (patch_trip p id r now s).1 ≡ core s
  unfolding patch_trip
  core-patch_trip id r now = ground arith

  pub core-set_trip_status :
      (id : String) (status : TripStatus) (now : ℕ)
      → core (set_trip_status p id status now s).1 ≡ core s
  unfolding set_trip_status
  core-set_trip_status id status now = ground arith

  pub core-upsert_trip_member :
      (id user : String) (role : TripMemberRole) (now : ℕ)
      → core (upsert_trip_member p id user role now s).1 ≡ core s
  unfolding upsert_trip_member
  core-upsert_trip_member id user role now = ground arith

  pub core-remove_trip_member :
      (id user : String) → core (remove_trip_member p id user s).1 ≡ core s
  unfolding remove_trip_member
  core-remove_trip_member id user = ground arith

  pub core-publish_result :
      (run : RunView) (result : Option ArtifactView) (now : ℕ)
      → core (publish_result p run result now s).1 ≡ core s
  unfolding publish_result promote_snapshot publish_version supersede_all point_trip
  core-publish_result run result now = ground arith

  pub core-create_artifact :
      (r : NewArtifact) (id : String) (checked_at now : ℕ)
      → core (create_artifact p r id checked_at now s).1 ≡ core s
  unfolding create_artifact
  core-create_artifact r id checked_at now = ground arith

  pub core-patch_artifact :
      (m : Models) (id : String) (r : ArtifactPatchRequest) (now : ℕ)
      → core (patch_artifact m p id r now s).1 ≡ core s
  unfolding patch_artifact
  core-patch_artifact m id r now = ground arith

  core-follow_up :
      (c : ArtifactCommand) (a : ArtifactView) (now : ℕ) → core (follow_up p c a now s).1 ≡ core s
  unfolding follow_up
  core-follow_up ArtifactCommand.select a now = refl
  core-follow_up ArtifactCommand.publish a now = ground arith
  core-follow_up ArtifactCommand.revoke a now = ground arith

core-apply_command :
    (s : Store) (p : Principal) (id : String) (a : ArtifactView) (r : ArtifactCommandRequest)
    (key hash : String) (now : ℕ)
    → core (apply_command p id a r key hash now s).1 ≡ core s
unfolding apply_command
core-apply_command s p id a r key hash now =
    ground (arith, core-follow_up (set_status id a (target r.type) s) p r.type a now)

core-replay_or_apply :
    (s : Store) (p : Principal) (id : String) (a : ArtifactView) (r : ArtifactCommandRequest)
    (key hash : String) (now : ℕ) (old : Option (String × ArtifactView))
    → core (replay_or_apply p id a r key hash now old s).1 ≡ core s
unfolding replay_or_apply
core-replay_or_apply s p id a r key hash now none = core-apply_command s p id a r key hash now
core-replay_or_apply s p id a r key hash now (some (old, response)) = ground arith

pub core-command_artifact :
    (s : Store) (p : Principal) (id : String) (r : ArtifactCommandRequest) (key hash : String)
    (now : ℕ)
    → core (command_artifact p id r key hash now s).1 ≡ core s
unfolding command_artifact ensure_artifact_mutable
core-command_artifact s p id r key hash now =
    elim (Result-cases (artifact_locked p id none true s)) [
      | inr (e, h) ↦ ground arith
      | inl (a, h) ↦ ground (
        arith,
        core-replay_or_apply s p id a r key hash now
            (lookup (command_scope p id key) s.artifact_idempotency),
      )
    ]
