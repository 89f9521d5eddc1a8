-- ===== src/Platform/Store/Access.antt =====
-- Who may change a trip: of all the calls, none gets past `_trip_locked(write=True)`.
use route_pilot.Common.{
  ℕ, String, ◌≡◌, ◌≢◌, inl, inr, sym, ap, ◌∙◌, true, Option, none, some, arith, Bool-cases,
  Option-cases,
}
use route_pilot.Common.Eq.{◌==◌, ==_iff, text_equality, quad_eq}
use route_pilot.Common.Dict.{lookup, insert, lookup-insert, Entries, Entries-lookup}
use route_pilot.Common.Exec.{ok}
use route_pilot.Common.Outcome.{Result-cases}
use route_pilot.Platform.Models.{
  Principal, TripView, TripCreateRequest, TripPatchRequest, TripStatus, RunView, ArtifactView,
  ArtifactStatus, ArtifactCommand, ArtifactCommandRequest,
}
use route_pilot.Platform.Store.State.{
  Store, trip_locked, artifact_locked, append_event_locked, run_locked, at_version, versions_of,
}
use route_pilot.Platform.Store.Trips.{create_trip, patch_trip, set_trip_status}
use route_pilot.Platform.Store.Mutation.{
  Mutation, Readings, mutate_run, publish_result, promote_snapshot, publish_version, supersede_all,
  point_trip, record_transition, write_run, set_run,
}
use route_pilot.Platform.Store.Leases.{drop_lease}
use route_pilot.Platform.Store.Artifacts.{ensure_artifact_mutable}
use route_pilot.Platform.Store.Commands.{
  command_artifact, apply_command, follow_up, set_status, target, replay_or_apply, command_scope,
  shows, remember_command,
}
use route_pilot.Platform.Store.Core.Steps.{check_fence-state}

-- A trip is stored under its own identifier.
abbrev pub TripsKeyed : Store → Type 0
TripsKeyed s = Entries (λ id (trip : TripView). trip.trip_id ≡ id) s.trips

-- The trip is stored, and the principal may not write it.
pub record Barred (p : Principal) (id : String) (trip : TripView) (s : Store) : Type 0 where
  pub keyed : TripsKeyed s
  pub stored : lookup id s.trips ≡ some trip
  pub refused : (t : TripView) → trip_locked p id true s ≢ ok t

abbrev pub Kept : String → TripView → Store → Type 0
Kept id trip s = lookup id s.trips ≡ some trip

module _ (p : Principal) (s : Store) where
  pub trip_locked-stored :
      (at : String) (t : TripView) → trip_locked p at true s ≡ ok t → lookup at s.trips ≡ some t
  unfolding trip_locked
  trip_locked-stored at t h = elim (Option-cases (lookup at s.trips)) [
    | inl e ↦ absurd (ground (arith, e, h))
    | inr (x, e) ↦ ground (arith, e, h)
  ]

  pub own-id :
      (at : String) (t : TripView) → TripsKeyed s → trip_locked p at true s ≡ ok t → t.trip_id ≡ at
  own-id at t k h = Entries-lookup _ at t s.trips k (trip_locked-stored at t h)

module _ (p : Principal) (id : String) (trip : TripView) (s : Store) where
  -- A trip that the principal may write is another one.
  other-trip :
      (at : String) (t : TripView) → Barred p id trip s → trip_locked p at true s ≡ ok t → at ≢ id
  other-trip at t b h same = b.refused t (ap (λ x. trip_locked p x true s) (sym same) ∙ h)

  write-kept :
      (at : String) (t new : TripView)
      → Barred p id trip s
      → trip_locked p at true s ≡ ok t
      → lookup id (insert at new s.trips) ≡ some trip
  write-kept at t new b h =
      rw lookup-insert (ground (arith, other-trip at t b h, b.stored, ==_iff at id))

  pub patch-Kept :
      (at : String) (r : TripPatchRequest) (now : ℕ)
      → Barred p id trip s
      → Kept id trip (patch_trip p at r now s).1
  unfolding patch_trip
  patch-Kept at r now b = elim (Result-cases (trip_locked p at true s)) [
    | inr (e, h) ↦ ground (arith, b.stored)
    | inl (t, h) ↦ rw h (write-kept at t _ b h)
  ]

  pub status-Kept :
      (at : String) (status : TripStatus) (now : ℕ)
      → Barred p id trip s
      → Kept id trip (set_trip_status p at status now s).1
  unfolding set_trip_status
  status-Kept at status now b = elim (Result-cases (trip_locked p at true s)) [
    | inr (e, h) ↦ ground (arith, b.stored)
    | inl (t, h) ↦ rw h (write-kept at t _ b h)
  ]

  pub create-Kept :
      (r : TripCreateRequest) (new : String) (now : ℕ)
      → Barred p id trip s
      → new ≢ id
      → Kept id trip (create_trip p r new now s).1
  unfolding create_trip
  create-Kept r new now b other = rw lookup-insert (ground (arith, b.stored, ==_iff new id))

  -- The access to trips does not turn on the artifacts.
  promote-Kept :
      (at : String) (stored : ArtifactView) (now : ℕ)
      → Barred p id trip s
      → Kept id trip (promote_snapshot p at stored now s).1
  unfolding promote_snapshot point_trip supersede_all trip_locked
  promote-Kept at stored now b = elim (Result-cases (trip_locked p at true s)) [
    | inr (e, h) ↦ rw h b.stored
    | inl (t, h) ↦ rw h (write-kept at t _ b h)
  ]

  own-kept :
      (at : String) (t new : TripView)
      → Barred p id trip s
      → trip_locked p at true s ≡ ok t
      → lookup id (insert t.trip_id new s.trips) ≡ some trip
  own-kept at t new b h = rw (own-id p s at t b.keyed h) (write-kept at t new b h)

  follow_up-Kept :
      (c : ArtifactCommand) (a : ArtifactView) (now : ℕ)
      → Barred p id trip s
      → Kept id trip (follow_up p c a now s).1
  unfolding follow_up point_trip supersede_all trip_locked
  follow_up-Kept ArtifactCommand.select a now b = b.stored
  follow_up-Kept ArtifactCommand.publish a now b =
      elim (Result-cases (trip_locked p a.trip_id true s)) [
        | inr (e, h) ↦ rw h b.stored
        | inl (t, h) ↦ rw h (own-kept a.trip_id t _ b h)
      ]
  follow_up-Kept ArtifactCommand.revoke a now b =
      elim (Result-cases (trip_locked p a.trip_id true s)) [
        | inr (e, h) ↦ rw h b.stored
        | inl (t, h) ↦ elim (Bool-cases (shows t a)) [
          | inl w ↦ rw (h, w) (own-kept a.trip_id t _ b h)
          | inr w ↦ rw (h, w) b.stored
        ]
      ]

set_status-Barred :
    (p : Principal) (id : String) (trip : TripView) (s : Store) (at : String) (a : ArtifactView)
    (status : ArtifactStatus)
    → Barred p id trip s
    → Barred p id trip (set_status at a status s)
unfolding trip_locked set_status
set_status-Barred p id trip s at a status b = record {
  keyed = b.keyed;
  stored = b.stored;
  refused = b.refused;
}

publish_version-Barred :
    (p : Principal) (id : String) (trip : TripView) (s : Store) (at : String) (version : ℕ)
    → Barred p id trip s
    → Barred p id trip (publish_version at version s)
unfolding trip_locked publish_version
publish_version-Barred p id trip s at version b = record {
  keyed = b.keyed;
  stored = b.stored;
  refused = b.refused;
}

pub record_transition-trips :
    (id : String) (current : RunView) (m : Mutation) (readings : Readings) (s : Store)
    → (record_transition id current m readings s).1.trips ≡ s.trips
unfolding record_transition write_run set_run drop_lease append_event_locked
record_transition-trips id current m readings s = ground arith

module _ (p : Principal) (id : String) (trip : TripView) (s : Store) (b : Barred p id trip s) where
  apply-Kept :
      (at : String) (a : ArtifactView) (r : ArtifactCommandRequest) (key hash : String) (now : ℕ)
      → Kept id trip (apply_command p at a r key hash now s).1
  unfolding apply_command remember_command
  apply-Kept at a r key hash now = ground (
    arith,
    b.stored,
    follow_up-Kept p id trip (set_status at a (target r.type) s) r.type a now
        (set_status-Barred p id trip s at a (target r.type) b),
  )

  replay-Kept :
      (at : String) (a : ArtifactView) (r : ArtifactCommandRequest) (key hash : String) (now : ℕ)
      (old : Option (String × ArtifactView))
      → Kept id trip (replay_or_apply p at a r key hash now old s).1
  unfolding replay_or_apply
  replay-Kept at a r key hash now none = apply-Kept at a r key hash now
  replay-Kept at a r key hash now (some (h, response)) = ground (arith, b.stored)

  pub command-Kept :
      (at : String) (r : ArtifactCommandRequest) (key hash : String) (now : ℕ)
      → Kept id trip (command_artifact p at r key hash now s).1
  unfolding command_artifact ensure_artifact_mutable
  command-Kept at r key hash now = elim (Result-cases (artifact_locked p at none true s)) [
    | inr (e, h) ↦ ground (arith, b.stored)
    | inl (a, h) ↦ ground (
      arith,
      b.stored,
      replay-Kept at a r key hash now (lookup (command_scope p at key) s.artifact_idempotency),
    )
  ]

  publish-Kept :
      (run : RunView) (result : Option ArtifactView) (now : ℕ)
      → Kept id trip (publish_result p run result now s).1
  unfolding publish_result
  publish-Kept run none now = b.stored
  publish-Kept run (some a) now =
      elim (Option-cases (at_version a.version (versions_of a.artifact_id s))) [
        | inl e ↦ ground (arith, e, b.stored)
        | inr (stored, e) ↦
            let published = publish_version a.artifact_id a.version s in
            let published-Barred = publish_version-Barred p id trip s a.artifact_id a.version b in
            let promoted =
              promote-Kept p id trip published run.trip_id stored now published-Barred in
            elim (Bool-cases (stored.trip_id == run.trip_id)) [
              | inr w ↦ rw (e, w) b.stored
              | inl w ↦ elim (Bool-cases (stored.artifact_type == "TripSnapshot")) [
                | inr v ↦ rw (e, w, v) published-Barred.stored
                | inl v ↦ rw (e, w, v) promoted
              ]
            ]
      ]

  pub mutate-Kept :
      (run_id : String) (m : Mutation) (readings : Readings)
      → Kept id trip (mutate_run p run_id m readings s).1
  unfolding mutate_run
  mutate-Kept run_id m readings = elim (Result-cases (run_locked p run_id s)) [
    | inr (e, h) ↦ ground (arith, b.stored)
    | inl (run, h) ↦ ground (
      arith,
      b.stored,
      check_fence-state p run_id m.execution_lease readings.checked_at s,
      publish-Kept run m.result_artifact readings.now,
      record_transition-trips run_id run m readings
          (publish_result p run m.result_artifact readings.now s).1,
    )
  ]
