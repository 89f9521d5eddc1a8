-- ===== src/Platform/Store/Keying.antt =====
-- Trips stand under their own identifiers, whatever is called.
use route_pilot.Common.{
  ℕ, String, ◌≡◌, ◌⊎◌, inl, inr, refl, sym, subst, ◌∙◌, true, Option, none, some, arith, Bool-cases,
  Option-cases,
}
use route_pilot.Common.Eq.{◌==◌, text_equality, quad_eq}
use route_pilot.Common.Dict.{Dict, lookup, insert, Entries, Entries-insert}
use route_pilot.Common.Exec.{ok, err}
use route_pilot.Common.Outcome.{Result-cases}
use route_pilot.Platform.Models.{
  Principal, TripView, TripCreateRequest, TripPatchRequest, TripStatus, RunView, ArtifactView,
  ArtifactStatus, ArtifactCommand, ArtifactCommandRequest,
}
use route_pilot.Platform.Store.State.{
  Store, StoreError, trip_locked, artifact_locked, run_locked, at_version, versions_of,
}
use route_pilot.Platform.Store.Trips.{create_trip, patch_trip, set_trip_status}
use route_pilot.Platform.Store.Mutation.{
  Mutation, Readings, mutate_run, publish_result, promote_snapshot, publish_version, supersede_all,
  point_trip,
}
use route_pilot.Platform.Store.Core.Steps.{check_fence-state}
use route_pilot.Platform.Store.Commands.{
  command_artifact, apply_command, follow_up, set_status, target, replay_or_apply, command_scope,
  shows, remember_command,
}
use route_pilot.Platform.Store.Artifacts.{ensure_artifact_mutable}
use route_pilot.Platform.Store.Access.{TripsKeyed, own-id, record_transition-trips}

-- A trip that was read keeps its identifier when it is written back.
written-Keyed :
    (p : Principal) (s : Store) (at : String) (t new : TripView)
    → TripsKeyed s
    → trip_locked p at true s ≡ ok t
    → new.trip_id ≡ t.trip_id
    → Entries (λ id (trip : TripView). trip.trip_id ≡ id) (insert at new s.trips)
written-Keyed p s at t new k h same = Entries-insert _ at new s.trips (same ∙ own-id p s at t k h) k

module _ (p : Principal) (s : Store) (k : TripsKeyed s) where
  pub create-Keyed :
      (r : TripCreateRequest) (new : String) (now : ℕ) → TripsKeyed (create_trip p r new now s).1
  unfolding create_trip
  create-Keyed r new now = Entries-insert _ new _ s.trips refl k

  pub patch-Keyed :
      (at : String) (r : TripPatchRequest) (now : ℕ) → TripsKeyed (patch_trip p at r now s).1
  unfolding patch_trip
  patch-Keyed at r now = elim (Result-cases (trip_locked p at true s)) [
    | inr (e, h) ↦ rw h k
    | inl (t, h) ↦ rw h (written-Keyed p s at t _ k h refl)
  ]

  pub status-Keyed :
      (at : String) (status : TripStatus) (now : ℕ)
      → TripsKeyed (set_trip_status p at status now s).1
  unfolding set_trip_status
  status-Keyed at status now = elim (Result-cases (trip_locked p at true s)) [
    | inr (e, h) ↦ rw h k
    | inl (t, h) ↦ rw h (written-Keyed p s at t _ k h refl)
  ]

  promote-Keyed :
      (at : String) (stored : ArtifactView) (now : ℕ)
      → TripsKeyed (promote_snapshot p at stored now s).1
  unfolding promote_snapshot point_trip supersede_all trip_locked
  promote-Keyed at stored now = elim (Result-cases (trip_locked p at true s)) [
    | inr (e, h) ↦ rw h k
    | inl (t, h) ↦ rw h (written-Keyed p s at t _ k h refl)
  ]

  follow_up-Keyed :
      (c : ArtifactCommand) (a : ArtifactView) (now : ℕ) → TripsKeyed (follow_up p c a now s).1
  unfolding follow_up point_trip supersede_all trip_locked
  follow_up-Keyed ArtifactCommand.select a now = k
  follow_up-Keyed ArtifactCommand.publish a now =
      elim (Result-cases (trip_locked p a.trip_id true s)) [
        | inr (e, h) ↦ rw h k
        | inl (t, h) ↦ rw h (Entries-insert _ t.trip_id _ s.trips refl k)
      ]
  follow_up-Keyed ArtifactCommand.revoke a now =
      elim (Result-cases (trip_locked p a.trip_id true s)) [
        | inr (e, h) ↦ rw h k
        | inl (t, h) ↦ elim (Bool-cases (shows t a)) [
          | inl w ↦ rw (h, w) (Entries-insert _ t.trip_id _ s.trips refl k)
          | inr w ↦ rw (h, w) k
        ]
      ]

publish_version-Keyed :
    (s : Store) (at : String) (version : ℕ)
    → TripsKeyed s
    → TripsKeyed (publish_version at version s)
unfolding publish_version
publish_version-Keyed s at version k = k

set_status-Keyed :
    (s : Store) (at : String) (a : ArtifactView) (status : ArtifactStatus)
    → TripsKeyed s
    → TripsKeyed (set_status at a status s)
unfolding set_status
set_status-Keyed s at a status k = k

apply-trips :
    (p : Principal) (s : Store) (at : String) (a : ArtifactView) (r : ArtifactCommandRequest)
    (key hash : String) (now : ℕ)
    → ((apply_command p at a r key hash now s).1.trips ≡ s.trips)
      ⊎ ((apply_command p at a r key hash now s).1.trips
          ≡ (follow_up p r.type a now (set_status at a (target r.type) s)).1.trips)
unfolding apply_command remember_command
apply-trips p s at a r key hash now = ground arith

replay-trips :
    (p : Principal) (s : Store) (at : String) (a : ArtifactView) (r : ArtifactCommandRequest)
    (key hash : String) (now : ℕ) (old : Option (String × ArtifactView))
    → ((replay_or_apply p at a r key hash now old s).1.trips ≡ s.trips)
      ⊎ ((replay_or_apply p at a r key hash now old s).1.trips
          ≡ (apply_command p at a r key hash now s).1.trips)
unfolding replay_or_apply
replay-trips p s at a r key hash now none = inr refl
replay-trips p s at a r key hash now (some (h, response)) = inl (ground arith)

command-trips :
    (p : Principal) (s : Store) (at : String) (r : ArtifactCommandRequest) (key hash : String)
    (now : ℕ) (a : ArtifactView)
    → artifact_locked p at none true s ≡ ok a
    → ((command_artifact p at r key hash now s).1.trips ≡ s.trips)
      ⊎ ((command_artifact p at r key hash now s).1.trips
          ≡ (apply_command p at a r key hash now s).1.trips)
unfolding command_artifact ensure_artifact_mutable
command-trips p s at r key hash now a h = ground (
  arith,
  replay-trips p s at a r key hash now (lookup (command_scope p at key) s.artifact_idempotency),
)

mutate-trips :
    (p : Principal) (s : Store) (id : String) (m : Mutation) (readings : Readings) (run : RunView)
    → run_locked p id s ≡ ok run
    → ((mutate_run p id m readings s).1.trips ≡ s.trips)
      ⊎ ((mutate_run p id m readings s).1.trips
          ≡ (publish_result p run m.result_artifact readings.now s).1.trips)
unfolding mutate_run
mutate-trips p s id m readings run h = ground (
  arith,
  check_fence-state p id m.execution_lease readings.checked_at s,
  record_transition-trips id run m readings
      (publish_result p run m.result_artifact readings.now s).1,
)

-- The same trips are as well keyed.
pub same-Keyed :
    (d e : Dict String TripView)
    → e ≡ d
    → Entries (λ id (trip : TripView). trip.trip_id ≡ id) d
    → Entries (λ id (trip : TripView). trip.trip_id ≡ id) e
same-Keyed d e h k = subst (Entries (λ id (trip : TripView). trip.trip_id ≡ id)) (sym h) k

module _ (p : Principal) (s : Store) (k : TripsKeyed s) where
  command-refused :
      (e : StoreError) (at : String) (r : ArtifactCommandRequest) (key hash : String) (now : ℕ)
      → artifact_locked p at none true s ≡ err e
      → (command_artifact p at r key hash now s).1.trips ≡ s.trips
  unfolding command_artifact
  command-refused e at r key hash now h = ground arith

  mutate-Refused :
      (e : StoreError) (id : String) (m : Mutation) (readings : Readings)
      → run_locked p id s ≡ err e
      → (mutate_run p id m readings s).1.trips ≡ s.trips
  unfolding mutate_run
  mutate-Refused e id m readings h = ground arith

  publish-Keyed :
      (run : RunView) (result : Option ArtifactView) (now : ℕ)
      → TripsKeyed (publish_result p run result now s).1
  unfolding publish_result
  publish-Keyed run none now = k
  publish-Keyed run (some a) now =
      elim (Option-cases (at_version a.version (versions_of a.artifact_id s))) [
        | inl e ↦ rw e k
        | inr (stored, e) ↦
            let published = publish_version a.artifact_id a.version s in
            let published-Keyed = publish_version-Keyed s a.artifact_id a.version k in
            elim (Bool-cases (stored.trip_id == run.trip_id)) [
              | inr w ↦ rw (e, w) k
              | inl w ↦ elim (Bool-cases (stored.artifact_type == "TripSnapshot")) [
                | inr v ↦ rw (e, w, v) published-Keyed
                | inl v ↦
                    rw (e, w, v) (promote-Keyed p published published-Keyed run.trip_id stored now)
              ]
            ]
      ]

  apply-Keyed :
      (at : String) (a : ArtifactView) (r : ArtifactCommandRequest) (key hash : String) (now : ℕ)
      → TripsKeyed (apply_command p at a r key hash now s).1
  unfolding apply_command remember_command
  apply-Keyed at a r key hash now =
      let next = set_status at a (target r.type) s in
      elim (apply-trips p s at a r key hash now) [
        | inl e ↦ same-Keyed _ _ e k
        | inr e ↦
            same-Keyed _ _ e
              (follow_up-Keyed p next (set_status-Keyed s at a (target r.type) k) r.type a now)
      ]

  pub command-Keyed :
      (at : String) (r : ArtifactCommandRequest) (key hash : String) (now : ℕ)
      → TripsKeyed (command_artifact p at r key hash now s).1
  command-Keyed at r key hash now = elim (Result-cases (artifact_locked p at none true s)) [
    | inr (e, h) ↦ same-Keyed _ _ (command-refused e at r key hash now h) k
    | inl (a, h) ↦ elim (command-trips p s at r key hash now a h) [
      | inl e ↦ same-Keyed _ _ e k
      | inr e ↦ same-Keyed _ _ e (apply-Keyed at a r key hash now)
    ]
  ]

  pub mutate-Keyed :
      (id : String) (m : Mutation) (readings : Readings)
      → TripsKeyed (mutate_run p id m readings s).1
  mutate-Keyed id m readings = elim (Result-cases (run_locked p id s)) [
    | inr (e, h) ↦ same-Keyed _ _ (mutate-Refused e id m readings h) k
    | inl (run, h) ↦ elim (mutate-trips p s id m readings run h) [
      | inl e ↦ same-Keyed _ _ e k
      | inr e ↦ same-Keyed _ _ e (publish-Keyed run m.result_artifact readings.now)
    ]
  ]
