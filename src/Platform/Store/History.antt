-- ===== src/Platform/Store/History.antt =====
-- The calls that change InMemoryPlatformStore, and histories of them.
use route_pilot.Common.{ℕ, String, Option, none, some, List, [], ◌∷◌}
use route_pilot.Platform.Contracts.{Models}
use route_pilot.Platform.Models.{
  Principal, TripCreateRequest, TripPatchRequest, TripStatus, TripMemberRole, ArtifactPatchRequest,
  ArtifactCommandRequest,
}
use route_pilot.Platform.Store.State.{Store, RunExecutionLease}
use route_pilot.Platform.Store.Trips.{
  create_trip, patch_trip, set_trip_status, upsert_trip_member, remove_trip_member,
}
use route_pilot.Platform.Store.Leases.{
  claim_run_execution, renew_run_execution, release_run_execution,
}
use route_pilot.Platform.Store.Runs.{RunRequest, Fresh, create_run}
use route_pilot.Platform.Store.Mutation.{Mutation, Readings, mutate_run}
use route_pilot.Platform.Store.Resume.{ResumeRequest, ResumeReadings, resume_run}
use route_pilot.Platform.Store.Artifacts.{NewArtifact, create_artifact, patch_artifact}
use route_pilot.Platform.Store.Commands.{command_artifact}
use route_pilot.Platform.Store.Core.Quiet.{
  Core, core, core-create_trip, core-patch_trip, core-set_trip_status, core-upsert_trip_member,
  core-remove_trip_member, core-create_artifact, core-patch_artifact, core-command_artifact,
}
use route_pilot.Platform.Store.Core.Steps.{
  Step, stay, claim-Step, renew-Step, release-Step, mutate-Step,
}
use route_pilot.Platform.Store.Core.Runs.{create_run-Step, resume_run-Step}

pub data Call : Type 0 where
  creates_trip : TripCreateRequest → String → ℕ → Call
  patches_trip : String → TripPatchRequest → ℕ → Call
  sets_trip_status : String → TripStatus → ℕ → Call
  upserts_member : String → String → TripMemberRole → ℕ → Call
  removes_member : String → String → Call
  creates_run : RunRequest → Fresh → Call
  claims : String → String → ℕ → ℕ → Call
  renews : RunExecutionLease → ℕ → ℕ → ℕ → Call
  releases : RunExecutionLease → Call
  mutates : String → Mutation → Readings → Call
  resumes : String → ResumeRequest → ResumeReadings → Call
  creates_artifact : NewArtifact → String → ℕ → ℕ → Call
  patches_artifact : String → ArtifactPatchRequest → ℕ → Call
  commands_artifact : String → ArtifactCommandRequest → String → String → ℕ → Call

-- The identifier of the run that a call may create.
abbrev pub made_by : Call → Option String
made_by (creates_run r fresh) = some fresh.run_id
made_by _ = none

-- A call in somebody's name; one that raises leaves what it had written.
module _ (iso_date : String → Option String) (models : Models) where
  unfoldable pub after_call : Principal → Call → Store → Store
  after_call p (creates_trip r id now) s = (create_trip p r id now s).1
  after_call p (patches_trip id r now) s = (patch_trip p id r now s).1
  after_call p (sets_trip_status id status now) s = (set_trip_status p id status now s).1
  after_call p (upserts_member id user role now) s = (upsert_trip_member p id user role now s).1
  after_call p (removes_member id user) s = (remove_trip_member p id user s).1
  after_call p (creates_run r fresh) s = (create_run p r fresh s).1
  after_call p (claims id owner duration now) s = (claim_run_execution p id owner duration now s).1
  after_call p (renews lease duration checked_at now) s =
      (renew_run_execution p lease duration checked_at now s).1
  after_call p (releases lease) s = (release_run_execution p lease s).1
  after_call p (mutates id m readings) s = (mutate_run p id m readings s).1
  after_call p (resumes id r readings) s = (resume_run iso_date p id r readings s).1
  after_call p (creates_artifact r id checked_at now) s =
      (create_artifact p r id checked_at now s).1
  after_call p (patches_artifact id r now) s = (patch_artifact models p id r now s).1
  after_call p (commands_artifact id r key hash now) s = (command_artifact p id r key hash now s).1

  unfoldable pub run : Store → List (Principal × Call) → Store
  run s [] = s
  run s ((p, c) ∷ calls) = run (after_call p c s) calls

  pub after_call-Step :
      (p : Principal) (c : Call) (s : Store) → Step (made_by c) (core s) (core (after_call p c s))
  unfolding after_call
  after_call-Step p (creates_trip r id now) s = stay (core-create_trip s p r id now)
  after_call-Step p (patches_trip id r now) s = stay (core-patch_trip s p id r now)
  after_call-Step p (sets_trip_status id status now) s =
      stay (core-set_trip_status s p id status now)
  after_call-Step p (upserts_member id user role now) s =
      stay (core-upsert_trip_member s p id user role now)
  after_call-Step p (removes_member id user) s = stay (core-remove_trip_member s p id user)
  after_call-Step p (creates_run r fresh) s = create_run-Step s p r fresh
  after_call-Step p (claims id owner duration now) s = claim-Step s p id owner duration now
  after_call-Step p (renews lease duration checked_at now) s =
      renew-Step s p lease duration checked_at now
  after_call-Step p (releases lease) s = release-Step s p lease
  after_call-Step p (mutates id m readings) s = mutate-Step s p id m readings
  after_call-Step p (resumes id r readings) s = resume_run-Step iso_date s p id r readings
  after_call-Step p (creates_artifact r id checked_at now) s =
      stay (core-create_artifact s p r id checked_at now)
  after_call-Step p (patches_artifact id r now) s = stay (core-patch_artifact s p models id r now)
  after_call-Step p (commands_artifact id r key hash now) s =
      stay (core-command_artifact s p id r key hash now)

  -- What every change of the runs keeps, every history keeps.
  pub run_induction :
      (P : Core → Type 0)
      → ((made : Option String) (s t : Core) → Step made s t → P s → P t)
      → (s : Store) (calls : List (Principal × Call)) → P (core s)
      → P (core (run s calls))
  unfolding run
  run_induction P step s [] h = h
  run_induction P step s ((p, c) ∷ calls) h =
      run_induction P step (after_call p c s) calls
        (step (made_by c) (core s) (core (after_call p c s)) (after_call-Step p c s) h)
