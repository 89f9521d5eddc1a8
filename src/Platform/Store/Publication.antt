-- ===== src/Platform/Store/Publication.antt =====
-- What the publication of an artifact leaves: of a trip, one version is published and shown.
use route_pilot.Common.{
  ℕ, ◌+◌, String, ◌≡◌, inl, inr, refl, sym, ap, subst, ◌∙◌, Bool, true, some, arith, eqb_iff, All,
  or_empty,
}
use route_pilot.Common.Eq.{==_iff, ==_refl, text_equality}
use route_pilot.Common.Dict.{Entries, lookup, lookup-insert}
use route_pilot.Common.Exec.{Result, ok}
use route_pilot.Common.Outcome.{Result-cases}
use route_pilot.Platform.Models.{
  Principal, TripView, RunView, RunEvent, ArtifactView, ArtifactStatus,
}
use route_pilot.Platform.Store.State.{Store, StoreError, trip_locked, run_locked, at_version}
use route_pilot.Platform.Store.Leases.{drop_lease}
use route_pilot.Platform.Store.State.{append_event_locked}
use route_pilot.Platform.Store.Inversion.{mutate-inverted}
use route_pilot.Platform.Store.Mutation.{
  Mutation, Readings, mutate_run, publish_result, promote_snapshot, publish_version, supersede_all,
  supersede, is_rival, point_trip, with_artifact_status, record_transition, write_run, set_run,
}
use route_pilot.Platform.Store.Superseding.{
  EveryVersion, SoleSnapshot, supersede_all-sole, stored_at, stored-publish_version,
  stored-supersede_all,
}

-- The writes of `publish_result` for a TripSnapshot.
unfoldable pub promoted : String → ℕ → ArtifactView → String → TripView → ℕ → Store → Store
promoted id version stored trip_id trip now s =
    point_trip trip_id trip (some stored.artifact_id) (some stored.version) now (
      supersede_all (is_rival trip_id stored.artifact_id stored.version)
        (publish_version id version s))

-- The access to a trip does not turn on the artifacts.
trip_locked-artifacts :
    (p : Principal) (trip_id id : String) (version : ℕ) (rival : ArtifactView → Bool) (write : Bool)
    (s : Store)
    → trip_locked p trip_id write (supersede_all rival (publish_version id version s))
      ≡ trip_locked p trip_id write s
unfolding trip_locked supersede_all publish_version
trip_locked-artifacts p trip_id id version rival write s = refl

promote-inverted :
    (p : Principal) (trip_id : String) (stored : ArtifactView) (now : ℕ) (s t : Store)
    → promote_snapshot p trip_id stored now s ≡ (ok tt, t)
    → let s' = supersede_all (is_rival trip_id stored.artifact_id stored.version) s in
      (trip : TripView) × (trip_locked p trip_id true s' ≡ ok trip)
      × (t ≡ point_trip trip_id trip (some stored.artifact_id) (some stored.version) now s')
unfolding promote_snapshot
promote-inverted p trip_id stored now s t h =
    elim (Result-cases (
      trip_locked p trip_id true
        (supersede_all (is_rival trip_id stored.artifact_id stored.version) s))) [
          | inr (e, g) ↦ absurd (ground arith)
          | inl (trip, g) ↦ (trip, g, ground arith)
        ]

publish-inverted :
    (p : Principal) (current : RunView) (a stored : ArtifactView) (now : ℕ) (s t : Store)
    → stored_at a.artifact_id a.version s ≡ some stored
    → stored.artifact_type ≡ "TripSnapshot"
    → publish_result p current (some a) now s ≡ (ok tt, t)
    → promote_snapshot p current.trip_id stored now (publish_version a.artifact_id a.version s)
      ≡ (ok tt, t)
unfolding publish_result
publish-inverted p current a stored now s t h snapshot done =
    ground (arith, ==_iff stored.artifact_type "TripSnapshot")

publish_result-promoted :
    (p : Principal) (current : RunView) (a stored : ArtifactView) (now : ℕ) (s t : Store)
    → stored_at a.artifact_id a.version s ≡ some stored
    → stored.artifact_type ≡ "TripSnapshot"
    → publish_result p current (some a) now s ≡ (ok tt, t)
    → (trip : TripView) × (trip_locked p current.trip_id true s ≡ ok trip)
      × (t ≡ promoted a.artifact_id a.version stored current.trip_id trip now s)
unfolding promoted
publish_result-promoted p current a stored now s t h snapshot done =
    let (trip, allowed, became) =
      promote-inverted p current.trip_id stored now (publish_version a.artifact_id a.version s) t
        (publish-inverted p current a stored now s t h snapshot done) in
    (
      trip,
      sym (trip_locked-artifacts p current.trip_id a.artifact_id a.version _ true s) ∙ allowed,
      became,
    )

-- The shown version of a trip.
abbrev pub Shown : String → String → ℕ → Store → Type 0
Shown trip_id id version t =
    (trip : TripView) × (lookup trip_id t.trips ≡ some trip)
    × (trip.current_artifact_id ≡ some id)
    × (trip.current_artifact_version ≡ some version)

Shown-promoted :
    (id : String) (version : ℕ) (stored : ArtifactView) (trip_id : String) (trip : TripView)
    (now : ℕ) (s : Store)
    → Shown trip_id stored.artifact_id stored.version
        (promoted id version stored trip_id trip now s)
unfolding promoted point_trip
Shown-promoted id version stored trip_id trip now s = (
  record trip {
    current_artifact_id = some stored.artifact_id;
    current_artifact_version = some stored.version;
    version = trip.version + 1;
    updated_at = now;
  },
  rw (lookup-insert, ==_refl) refl,
  refl,
  refl,
)

pub supersede_self :
    (trip_id : String) (stored : ArtifactView)
    → supersede
        (is_rival trip_id stored.artifact_id stored.version)
        (with_artifact_status ArtifactStatus.published stored)
      ≡ with_artifact_status ArtifactStatus.published stored
unfolding supersede is_rival
supersede_self trip_id stored =
    ground (arith, ==_refl stored.artifact_id, eqb_iff stored.version stored.version)

sole-promoted :
    (id : String) (version : ℕ) (stored : ArtifactView) (trip_id : String) (trip : TripView)
    (now : ℕ) (s : Store)
    → EveryVersion
        (SoleSnapshot trip_id stored.artifact_id stored.version)
        (promoted id version stored trip_id trip now s)
unfolding promoted point_trip
sole-promoted id version stored trip_id trip now s =
    supersede_all-sole trip_id stored.artifact_id stored.version (publish_version id version s)

stored-promoted :
    (id : String) (version : ℕ) (stored : ArtifactView) (trip_id : String) (trip : TripView)
    (now : ℕ) (s : Store)
    → stored_at id version s ≡ some stored
    → stored_at id version (promoted id version stored trip_id trip now s)
      ≡ some (with_artifact_status ArtifactStatus.published stored)
unfolding promoted point_trip
stored-promoted id version stored trip_id trip now s h =
    stored-supersede_all (is_rival trip_id stored.artifact_id stored.version) id version
      (publish_version id version s)
    ∙ rw (stored-publish_version id version s, h) (ap some (supersede_self trip_id stored))

record_transition-keeps :
    (s t : Store) (id : String) (current : RunView) (m : Mutation) (readings : Readings)
    (x : RunView) (event : RunEvent)
    → record_transition id current m readings s ≡ (ok (x, event), t)
    → (t.trips ≡ s.trips) × (t.artifacts ≡ s.artifacts)
unfolding record_transition write_run set_run drop_lease append_event_locked
record_transition-keeps s t id current m readings x event h = (
  sym (ap (λ (r : Result StoreError (RunView × RunEvent) × Store). r.1.trips) h) ∙ ground arith,
  sym (ap (λ (r : Result StoreError (RunView × RunEvent) × Store). r.1.artifacts) h) ∙ ground arith,
)

promoted-written :
    (s s' t : Store) (run_id trip_id : String) (a stored : ArtifactView) (trip : TripView) (now : ℕ)
    (current : RunView) (m : Mutation) (readings : Readings) (x : RunView) (event : RunEvent)
    → stored_at a.artifact_id a.version s ≡ some stored
    → s' ≡ promoted a.artifact_id a.version stored trip_id trip now s
    → record_transition run_id current m readings s' ≡ (ok (x, event), t)
    → EveryVersion (SoleSnapshot trip_id stored.artifact_id stored.version) t
      × Shown trip_id stored.artifact_id stored.version t
      × (stored_at a.artifact_id a.version t
          ≡ some (with_artifact_status ArtifactStatus.published stored))
promoted-written s s' t run_id trip_id a stored trip now current m readings x event found became
      written =
    let after = promoted a.artifact_id a.version stored trip_id trip now s in
    let (trips, artifacts) =
      record_transition-keeps s' t run_id current m readings x event written in
    let same_trips = trips ∙ ap (λ (u : Store). u.trips) became in
    let same_artifacts = artifacts ∙ ap (λ (u : Store). u.artifacts) became in
    let (shown, at, id, version) =
      Shown-promoted a.artifact_id a.version stored trip_id trip now s in
    (
      subst
          (λ d.
            Entries
              (λ _ versions. All (SoleSnapshot trip_id stored.artifact_id stored.version) versions)
              d)
          (sym same_artifacts) (sole-promoted a.artifact_id a.version stored trip_id trip now s),
      (shown, ap (lookup trip_id) same_trips ∙ at, id, version),
      ap (λ d. at_version a.version (or_empty (lookup a.artifact_id d))) same_artifacts
          ∙ stored-promoted a.artifact_id a.version stored trip_id trip now s found,
    )

found-once : (r : Result StoreError RunView) (a b : RunView) → r ≡ ok a → r ≡ ok b → a ≡ b
found-once r a b h g = ground (arith, h, g)

-- When a run's transition succeeds with a stored TripSnapshot as its result, then afterwards that
-- version is stored as published, it is the only published TripSnapshot of the run's trip under
-- whatever identifier, and the trip shows it.
pub publish_exclusive :
    (s t : Store) (p : Principal) (run_id : String) (m : Mutation) (readings : Readings)
    (current : RunView) (a stored : ArtifactView) (x : RunView) (event : RunEvent)
    → run_locked p run_id s ≡ ok current
    → m.result_artifact ≡ some a
    → stored_at a.artifact_id a.version s ≡ some stored
    → stored.artifact_type ≡ "TripSnapshot"
    → mutate_run p run_id m readings s ≡ (ok (x, event), t)
    → EveryVersion (SoleSnapshot current.trip_id stored.artifact_id stored.version) t
      × Shown current.trip_id stored.artifact_id stored.version t
      × (stored_at a.artifact_id a.version t
          ≡ some (with_artifact_status ArtifactStatus.published stored))
publish_exclusive s t p run_id m readings current a stored x event found given at snapshot h =
    let (same, s', g, _, published, written) = mutate-inverted s t p run_id m readings x event h in
    let (trip, _, became) =
      publish_result-promoted p same a stored readings.now s s' at snapshot
        (ap (λ r. (publish_result p same r readings.now s)) (sym given) ∙ published) in
    subst
      (λ (r : RunView).
        EveryVersion (SoleSnapshot r.trip_id stored.artifact_id stored.version) t
        × Shown r.trip_id stored.artifact_id stored.version t
        × (stored_at a.artifact_id a.version t
            ≡ some (with_artifact_status ArtifactStatus.published stored)))
      (found-once (run_locked p run_id s) same current g found)
      (promoted-written s s' t run_id same.trip_id a stored trip readings.now same m readings x
        event at became written)
