-- ===== src/Platform/Store/Barring.antt =====
-- The write access to a trip over all the calls of the store.
use route_pilot.Common.{ℕ, ◌+◌, String, ◌≡◌, ◌≢◌, refl, ap, ◌∙◌, Option, none, some, arith}
use route_pilot.Common.Eq.{text_equality, quad_eq}
use route_pilot.Common.Dict.{lookup}
use route_pilot.Common.Exec.{Result, ok, err}
use route_pilot.Platform.Contracts.{Models}
use route_pilot.Platform.Models.{Principal, TripView, TripMemberRole, RunView, ArtifactPatchRequest}
use route_pilot.Platform.Store.State.{
  Store, StoreError, RunExecutionLease, assert_execution_lease_locked,
}
use route_pilot.Platform.Store.Trips.{upsert_trip_member, remove_trip_member}
use route_pilot.Platform.Store.Leases.{
  claim_run_execution, renew_run_execution, renew_locked, release_run_execution, new_lease,
}
use route_pilot.Platform.Store.Runs.{
  RunRequest, Fresh, create_run, replay_or_accept, accept_run, record_acceptance, refuse_conflict,
}
use route_pilot.Platform.Store.Resume.{
  ResumeRequest, ResumeReadings, resume_run, replay_or_resume, resume_waiting, record_resumption,
  or_invalid,
}
use route_pilot.Platform.Store.Artifacts.{NewArtifact, create_artifact, patch_artifact}
use route_pilot.Platform.Store.History.{Call, creates_trip, after_call}
use route_pilot.Platform.Store.Access.{
  Barred, patch-Kept, status-Kept, create-Kept, mutate-Kept, command-Kept,
}

module _ (p : Principal) (s : Store) where
  pub trips-upsert_trip_member :
      (id user : String) (role : TripMemberRole) (now : ℕ)
      → (upsert_trip_member p id user role now s).1.trips ≡ s.trips
  unfolding upsert_trip_member
  trips-upsert_trip_member id user role now = ground arith

  pub trips-remove_trip_member :
      (id user : String) → (remove_trip_member p id user s).1.trips ≡ s.trips
  unfolding remove_trip_member
  trips-remove_trip_member id user = ground arith

  pub trips-claim :
      (id owner : String) (duration now : ℕ)
      → (claim_run_execution p id owner duration now s).1.trips ≡ s.trips
  unfolding claim_run_execution
  trips-claim id owner duration now = ground arith

  pub trips-release :
      (lease : RunExecutionLease) → (release_run_execution p lease s).1.trips ≡ s.trips
  unfolding release_run_execution
  trips-release lease = ground arith

  pub trips-renew_locked :
      (r : Result StoreError RunView) (renewed : RunExecutionLease)
      → (renew_locked r renewed s).1.trips ≡ s.trips
  unfolding renew_locked
  trips-renew_locked (ok x) renewed = refl
  trips-renew_locked (err StoreError.lease_lost) renewed = refl
  trips-renew_locked (err e) renewed = refl

  pub trips-renew :
      (lease : RunExecutionLease) (duration checked_at now : ℕ)
      → (renew_run_execution p lease duration checked_at now s).1.trips ≡ s.trips
  unfolding renew_run_execution
  trips-renew lease duration checked_at now = ground (
    arith,
    trips-renew_locked (assert_execution_lease_locked p lease none checked_at s)
        (new_lease lease.run_id lease.owner lease.attempt (now + duration)),
  )

  pub trips-create_artifact :
      (r : NewArtifact) (id : String) (checked_at now : ℕ)
      → (create_artifact p r id checked_at now s).1.trips ≡ s.trips
  unfolding create_artifact
  trips-create_artifact r id checked_at now = ground arith

  pub trips-patch_artifact :
      (m : Models) (id : String) (r : ArtifactPatchRequest) (now : ℕ)
      → (patch_artifact m p id r now s).1.trips ≡ s.trips
  unfolding patch_artifact
  trips-patch_artifact m id r now = ground arith

  pub trips-create_run :
      (r : RunRequest) (fresh : Fresh) → (create_run p r fresh s).1.trips ≡ s.trips
  unfolding create_run replay_or_accept accept_run record_acceptance refuse_conflict
  trips-create_run r fresh = ground arith

  pub trips-resume_run :
      (iso_date : String → Option String) (id : String) (r : ResumeRequest)
      (readings : ResumeReadings)
      → (resume_run iso_date p id r readings s).1.trips ≡ s.trips
  unfolding resume_run replay_or_resume resume_waiting record_resumption or_invalid
  trips-resume_run iso_date id r readings = ground arith

-- The identifier of the trip that a call may create.
abbrev pub made_trip : Call → Option String
made_trip (creates_trip r id now) = some id
made_trip _ = none

-- Of all the calls, and whether they return or raise, none changes a trip that its caller may not
-- write, when trips stand under their own identifiers and a new trip's identifier is fresh.
pub Barred-keeps_trip :
    (iso_date : String → Option String) (models : Models) (s : Store) (p : Principal) (c : Call)
    (id : String) (trip : TripView)
    → Barred p id trip s
    → made_trip c ≢ some id
    → lookup id (after_call iso_date models p c s).trips ≡ some trip
unfolding after_call
Barred-keeps_trip iso_date models s p (Call.creates_trip r new now) id trip b fresh =
    create-Kept p id trip s r new now b (λ same. fresh (ap some same))
Barred-keeps_trip iso_date models s p (Call.patches_trip at r now) id trip b fresh =
    patch-Kept p id trip s at r now b
Barred-keeps_trip iso_date models s p (Call.sets_trip_status at status now) id trip b fresh =
    status-Kept p id trip s at status now b
Barred-keeps_trip iso_date models s p (Call.upserts_member at user role now) id trip b fresh =
    ap (lookup id) (trips-upsert_trip_member p s at user role now) ∙ b.stored
Barred-keeps_trip iso_date models s p (Call.removes_member at user) id trip b fresh =
    ap (lookup id) (trips-remove_trip_member p s at user) ∙ b.stored
Barred-keeps_trip iso_date models s p (Call.creates_run r new) id trip b fresh =
    ap (lookup id) (trips-create_run p s r new) ∙ b.stored
Barred-keeps_trip iso_date models s p (Call.claims at owner duration now) id trip b fresh =
    ap (lookup id) (trips-claim p s at owner duration now) ∙ b.stored
Barred-keeps_trip iso_date models s p (Call.renews lease duration checked_at now) id trip b fresh =
    ap (lookup id) (trips-renew p s lease duration checked_at now) ∙ b.stored
Barred-keeps_trip iso_date models s p (Call.releases lease) id trip b fresh =
    ap (lookup id) (trips-release p s lease) ∙ b.stored
Barred-keeps_trip iso_date models s p (Call.mutates at m readings) id trip b fresh =
    mutate-Kept p id trip s b at m readings
Barred-keeps_trip iso_date models s p (Call.resumes at r readings) id trip b fresh =
    ap (lookup id) (trips-resume_run p s iso_date at r readings) ∙ b.stored
Barred-keeps_trip iso_date models s p (Call.creates_artifact r new checked_at now) id trip b fresh =
    ap (lookup id) (trips-create_artifact p s r new checked_at now) ∙ b.stored
Barred-keeps_trip iso_date models s p (Call.patches_artifact at r now) id trip b fresh =
    ap (lookup id) (trips-patch_artifact p s models at r now) ∙ b.stored
Barred-keeps_trip iso_date models s p (Call.commands_artifact at r key hash now) id trip b fresh =
    command-Kept p id trip s b at r key hash now
