-- ===== src/Platform/Store/Tenancy.antt =====
-- Tenants do not reach each other's trips, whatever is called in InMemoryPlatformStore.
use route_pilot.Common.{String, ◌≡◌, ◌≢◌, Option, some, List, [], ◌∷◌, arith, All}
use route_pilot.Common.Eq.{==_iff, text_equality}
use route_pilot.Common.Dict.{lookup}
use route_pilot.Platform.Contracts.{Models}
use route_pilot.Platform.Models.{Principal, TripView}
use route_pilot.Platform.Store.State.{Store, trip_locked}
use route_pilot.Platform.Store.History.{Call, after_call, run}
use route_pilot.Platform.Store.Access.{Barred, TripsKeyed}
use route_pilot.Platform.Store.Keying.{
  same-Keyed, create-Keyed, patch-Keyed, status-Keyed, command-Keyed, mutate-Keyed,
}
use route_pilot.Platform.Store.Barring.{
  made_trip, Barred-keeps_trip, trips-upsert_trip_member, trips-remove_trip_member, trips-claim,
  trips-release, trips-renew, trips-create_artifact, trips-patch_artifact, trips-create_run,
  trips-resume_run,
}

after_call-Keyed :
    (iso_date : String → Option String) (models : Models) (s : Store) (p : Principal) (c : Call)
    → TripsKeyed s
    → TripsKeyed (after_call iso_date models p c s)
unfolding after_call
after_call-Keyed iso_date models s p (Call.creates_trip r new now) k = create-Keyed p s k r new now
after_call-Keyed iso_date models s p (Call.patches_trip at r now) k = patch-Keyed p s k at r now
after_call-Keyed iso_date models s p (Call.sets_trip_status at status now) k =
    status-Keyed p s k at status now
after_call-Keyed iso_date models s p (Call.upserts_member at user role now) k =
    same-Keyed _ _ (trips-upsert_trip_member p s at user role now) k
after_call-Keyed iso_date models s p (Call.removes_member at user) k =
    same-Keyed _ _ (trips-remove_trip_member p s at user) k
after_call-Keyed iso_date models s p (Call.creates_run r new) k =
    same-Keyed _ _ (trips-create_run p s r new) k
after_call-Keyed iso_date models s p (Call.claims at owner duration now) k =
    same-Keyed _ _ (trips-claim p s at owner duration now) k
after_call-Keyed iso_date models s p (Call.renews lease duration checked_at now) k =
    same-Keyed _ _ (trips-renew p s lease duration checked_at now) k
after_call-Keyed iso_date models s p (Call.releases lease) k =
    same-Keyed _ _ (trips-release p s lease) k
after_call-Keyed iso_date models s p (Call.mutates at m readings) k =
    mutate-Keyed p s k at m readings
after_call-Keyed iso_date models s p (Call.resumes at r readings) k =
    same-Keyed _ _ (trips-resume_run p s iso_date at r readings) k
after_call-Keyed iso_date models s p (Call.creates_artifact r new checked_at now) k =
    same-Keyed _ _ (trips-create_artifact p s r new checked_at now) k
after_call-Keyed iso_date models s p (Call.patches_artifact at r now) k =
    same-Keyed _ _ (trips-patch_artifact p s models at r now) k
after_call-Keyed iso_date models s p (Call.commands_artifact at r key hash now) k =
    command-Keyed p s k at r key hash now

foreign-Barred :
    (p : Principal) (id : String) (trip : TripView) (s : Store)
    → TripsKeyed s
    → lookup id s.trips ≡ some trip
    → p.tenant_id ≢ trip.tenant_id
    → Barred p id trip s
unfolding trip_locked
foreign-Barred p id trip s k stored foreign = record {
  keyed = k;
  stored = stored;
  refused = λ t h. absurd (ground (arith, ==_iff p.tenant_id trip.tenant_id, stored, foreign, h));
}

-- Callers of other tenants, none of whom creates a trip under this identifier.
abbrev pub Foreign : String → TripView → List (Principal × Call) → Type 0
Foreign id trip = All (λ (call : Principal × Call).
    (call.0.tenant_id ≢ trip.tenant_id) × (made_trip call.1 ≢ some id))

-- Whatever the callers of other tenants do, administrators and members of the trip among them, a trip
-- stays as it is, provided that a new trip's identifier is fresh and the trips stand under their own
-- identifiers, as they do in every store that calls have built.
pub tenants_isolated :
    (iso_date : String → Option String) (models : Models) (s : Store) (id : String)
    (trip : TripView) (calls : List (Principal × Call))
    → TripsKeyed s
    → lookup id s.trips ≡ some trip
    → Foreign id trip calls
    → (lookup id (run iso_date models s calls).trips ≡ some trip)
      × TripsKeyed (run iso_date models s calls)
unfolding run
tenants_isolated iso_date models s id trip [] k stored foreign = (stored, k)
tenants_isolated iso_date models s id trip ((p, c) ∷ calls) k stored ((other, fresh), rest) =
    tenants_isolated iso_date models (after_call iso_date models p c s) id trip calls
      (after_call-Keyed iso_date models s p c k)
      (Barred-keeps_trip iso_date models s p c id trip (foreign-Barred p id trip s k stored other)
        fresh)
      rest
