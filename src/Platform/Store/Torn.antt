-- ===== src/Platform/Store/Torn.antt =====
-- The publication inside `mutate_run` when the caller may read the run's trip and not write it
-- (backend/moyuan_web/v1/store.py): the artifacts are written before the access is checked.
use route_pilot.Common.{ℕ, String, ◌≡◌, refl, ap, ◌∙◌, true, none, some, arith, eqb_iff}
use route_pilot.Common.Eq.{==_iff, text_equality}
use route_pilot.Common.Exec.{ok, err}
use route_pilot.Platform.Models.{Principal, RunView, ArtifactView, ArtifactStatus}
use route_pilot.Platform.Store.State.{Store, forbidden, trip_locked, run_locked}
use route_pilot.Platform.Store.Mutation.{
  Mutation, Readings, mutate_run, publish_result, promote_snapshot, publish_version, supersede_all,
  is_rival, check_fence, with_artifact_status,
}
use route_pilot.Platform.Store.Superseding.{
  EveryVersion, SoleSnapshot, stored_at, supersede_all-sole, stored-supersede_all,
  stored-publish_version,
}
use route_pilot.Platform.Store.Publication.{supersede_self}

published_anyway : ArtifactView → ArtifactView → RunView → Store → Store
published_anyway a stored current s =
    supersede_all (is_rival current.trip_id stored.artifact_id stored.version)
      (publish_version a.artifact_id a.version s)

promote-forbidden :
    (p : Principal) (trip_id : String) (stored : ArtifactView) (now : ℕ) (s : Store)
    → trip_locked p trip_id true s ≡ err forbidden
    → promote_snapshot p trip_id stored now s
      ≡ (err forbidden, supersede_all (is_rival trip_id stored.artifact_id stored.version) s)
unfolding promote_snapshot supersede_all trip_locked
promote-forbidden p trip_id stored now s h = rw h refl

publish_version-access :
    (p : Principal) (trip_id id : String) (version : ℕ) (s : Store)
    → trip_locked p trip_id true (publish_version id version s) ≡ trip_locked p trip_id true s
unfolding trip_locked publish_version
publish_version-access p trip_id id version s = refl

publish-forbidden :
    (p : Principal) (current : RunView) (a stored : ArtifactView) (now : ℕ) (s : Store)
    → stored_at a.artifact_id a.version s ≡ some stored
    → stored.trip_id ≡ current.trip_id
    → stored.artifact_type ≡ "TripSnapshot"
    → trip_locked p current.trip_id true s ≡ err forbidden
    → publish_result p current (some a) now s ≡ (err forbidden, published_anyway a stored current s)
unfolding publish_result published_anyway
publish-forbidden p current a stored now s at same snapshot h = ground (
  arith,
  ==_iff stored.trip_id current.trip_id,
  ==_iff stored.artifact_type "TripSnapshot",
  promote-forbidden p current.trip_id stored now (publish_version a.artifact_id a.version s)
      (publish_version-access p current.trip_id a.artifact_id a.version s ∙ h),
)

mutate-forbidden :
    (s : Store) (p : Principal) (run_id : String) (m : Mutation) (readings : Readings)
    (current : RunView) (a stored : ArtifactView)
    → run_locked p run_id s ≡ ok current
    → m.execution_lease ≡ none
    → current.control_version ≡ m.expected_control_version
    → m.result_artifact ≡ some a
    → publish_result p current (some a) readings.now s
      ≡ (err forbidden, published_anyway a stored current s)
    → mutate_run p run_id m readings s ≡ (err forbidden, published_anyway a stored current s)
unfolding mutate_run check_fence
mutate-forbidden s p run_id m readings current a stored found free version given h =
    ground (arith, eqb_iff current.control_version m.expected_control_version)

-- A transition is not atomic in the store in memory. When a caller may read the run's trip but not
-- write it, gives the run's control version and no lease, and names a stored TripSnapshot of the trip
-- as the result, the transition raises and leaves the trips, the runs and the events as they were,
-- but the snapshot is published, and every other published snapshot of the trip has been superseded.
pub torn_publication :
    (s : Store) (p : Principal) (run_id : String) (m : Mutation) (readings : Readings)
    (current : RunView) (a stored : ArtifactView)
    → run_locked p run_id s ≡ ok current
    → m.execution_lease ≡ none
    → current.control_version ≡ m.expected_control_version
    → m.result_artifact ≡ some a
    → stored_at a.artifact_id a.version s ≡ some stored
    → stored.trip_id ≡ current.trip_id
    → stored.artifact_type ≡ "TripSnapshot"
    → trip_locked p current.trip_id true s ≡ err forbidden
    → (t : Store) × (mutate_run p run_id m readings s ≡ (err forbidden, t))
      × (t.trips ≡ s.trips)
      × (t.runs ≡ s.runs)
      × (t.events ≡ s.events)
      × EveryVersion (SoleSnapshot current.trip_id stored.artifact_id stored.version) t
      × (stored_at a.artifact_id a.version t
          ≡ some (with_artifact_status ArtifactStatus.published stored))
unfolding published_anyway supersede_all publish_version
torn_publication s p run_id m readings current a stored found free version given at same snapshot
      h =
    (
      published_anyway a stored current s,
      mutate-forbidden s p run_id m readings current a stored found free version given
          (publish-forbidden p current a stored readings.now s at same snapshot h),
      refl,
      refl,
      refl,
      supersede_all-sole current.trip_id stored.artifact_id stored.version
          (publish_version a.artifact_id a.version s),
      stored-supersede_all (is_rival current.trip_id stored.artifact_id stored.version)
            a.artifact_id a.version (publish_version a.artifact_id a.version s)
          ∙ rw (stored-publish_version a.artifact_id a.version s, at)
              (ap some (supersede_self current.trip_id stored)),
    )
