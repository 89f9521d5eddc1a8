-- ===== src/Platform/Store/Trips.antt =====
-- The methods of InMemoryPlatformStore on trips and their members
-- (backend/moyuan_web/v1/store.py).
use Prim.Native.String.{count}
use route_pilot.Common.{
  ℕ, ◌+◌, String, Bool, true, false, ◌&&◌, ◌||◌, not, Option, none, some, List, ltb, leb, eqb,
  if◌then◌else◌, keep, is_some,
}
use route_pilot.Common.Eq.{◌==◌, text_equality, pair_eq}
use route_pilot.Common.Dict.{lookup, insert, remove, values}
use route_pilot.Common.Text.{text_lt}
use route_pilot.Common.Sort.{sorted}
use route_pilot.Common.Exec.{pure, gets, modify, guard, reads, ◌>>=◌, ◌>>◌}
use route_pilot.Platform.Models.{
  Principal, TripStatus, TripView, TripCreateRequest, TripPatchRequest, TripMemberRole,
  TripMemberView, is_admin,
}
use route_pilot.Platform.Store.State.{
  Store, Method, not_found, forbidden, version_conflict, trip_locked,
}

new_trip : Principal → TripCreateRequest → String → ℕ → TripView
new_trip p request trip_id now = record {
  trip_id = trip_id;
  tenant_id = p.tenant_id;
  owner_id = p.user_id;
  title = some request.title;
  locale = some request.locale;
  timezone = some request.timezone;
  status = TripStatus.active;
  version = 1;
  current_artifact_id = none;
  current_artifact_version = none;
  created_at = now;
  updated_at = now;
}

owner_member : TripView → String → ℕ → TripMemberView
owner_member trip user_id now = record {
  trip_id = trip.trip_id;
  tenant_id = trip.tenant_id;
  user_id = user_id;
  role = TripMemberRole.owner;
  version = 1;
  created_at = now;
  updated_at = now;
}

insert_trip : TripView → TripMemberView → Store → Store
insert_trip trip member s = record s {
  trips = insert trip.trip_id trip s.trips;
  members = insert (trip.trip_id, member.user_id) member s.members;
}

unfoldable pub create_trip : Principal → TripCreateRequest → String → ℕ → Method TripView
unfolding new_trip owner_member insert_trip
create_trip p request trip_id now = do
  let trip = new_trip p request trip_id now
  modify (insert_trip trip (owner_member trip p.user_id now))
  pure trip

unfoldable pub is_listed : Principal → Store → String × TripView → Bool
is_listed p s (_, trip) =
    trip.tenant_id == p.tenant_id
    && (trip.owner_id == p.user_id
        || is_admin p
        || is_some (lookup (trip.trip_id, p.user_id) s.members))

-- `reverse=True` keeps equal elements in their order.
later_trip : TripView → TripView → Bool
unfolding text_lt
later_trip a b =
    ltb b.updated_at a.updated_at || (eqb b.updated_at a.updated_at && text_lt b.trip_id a.trip_id)

unfoldable pub list_trips : Principal → Method (List TripView)
unfolding is_listed later_trip
list_trips p = gets (λ s. sorted later_trip (values (keep (is_listed p s) s.trips)))

unfoldable pub get_trip : Principal → String → Method TripView
get_trip p trip_id = reads (trip_locked p trip_id false)

-- `model_copy(update=changes)`: a field that is set replaces the trip's, also by `None`.
patched : Option (Option String) → Option String → Option String
patched none old = old
patched (some new) old = new

apply_patch : TripPatchRequest → ℕ → TripView → TripView
unfolding patched
apply_patch request now trip = record trip {
  title = patched request.title trip.title;
  locale = patched request.locale trip.locale;
  timezone = patched request.timezone trip.timezone;
  version = trip.version + 1;
  updated_at = now;
}

set_trip : String → TripView → Store → Store
set_trip trip_id trip s = record s { trips = insert trip_id trip s.trips }

unfoldable pub patch_trip : Principal → String → TripPatchRequest → ℕ → Method TripView
unfolding apply_patch set_trip
patch_trip p trip_id request now = do
  current ← reads (trip_locked p trip_id true)
  modify (set_trip trip_id (apply_patch request now current))
  pure (apply_patch request now current)

with_status : TripStatus → ℕ → TripView → TripView
with_status status now trip = record trip {
  status = status;
  version = trip.version + 1;
  updated_at = now;
}

unfoldable pub set_trip_status : Principal → String → TripStatus → ℕ → Method TripView
unfolding with_status set_trip
set_trip_status p trip_id status now = do
  current ← reads (trip_locked p trip_id true)
  modify (set_trip trip_id (with_status status now current))
  pure (with_status status now current)

listed_member : Principal → String → (String × String) × TripMemberView → Bool
listed_member p trip_id ((member_trip_id, _), member) =
    member_trip_id == trip_id && member.tenant_id == p.tenant_id

is_owner_role : TripMemberRole → Bool
is_owner_role TripMemberRole.owner = true
is_owner_role _ = false

-- The key `(role != OWNER, user_id)`.
before_member : TripMemberView → TripMemberView → Bool
unfolding is_owner_role text_lt
before_member a b =
    (is_owner_role a.role && not (is_owner_role b.role))
    || ((if is_owner_role a.role then is_owner_role b.role else not (is_owner_role b.role))
        && text_lt a.user_id b.user_id)

unfoldable pub list_trip_members : Principal → String → Method (List TripMemberView)
unfolding listed_member before_member
list_trip_members p trip_id = do
  reads (trip_locked p trip_id false)
  gets (λ s. sorted before_member (values (keep (listed_member p trip_id) s.members)))

-- The trip, if the caller may manage its members and `user_id` is not its owner.
unfoldable pub managed_trip : Principal → String → String → Method TripView
managed_trip p trip_id user_id = do
  trip ← reads (trip_locked p trip_id true)
  guard (trip.owner_id == p.user_id || is_admin p) forbidden
  guard (not (user_id == trip.owner_id)) (version_conflict trip.version)
  pure trip

-- A new membership, or the next version of the one that is there.
next_member :
    Principal → String → String → TripMemberRole → ℕ → Option TripMemberView → TripMemberView
next_member p trip_id user_id role now none = record {
  trip_id = trip_id;
  tenant_id = p.tenant_id;
  user_id = user_id;
  role = role;
  version = 1;
  created_at = now;
  updated_at = now;
}
next_member p trip_id user_id role now (some current) = record {
  trip_id = trip_id;
  tenant_id = p.tenant_id;
  user_id = user_id;
  role = role;
  version = current.version + 1;
  created_at = current.created_at;
  updated_at = now;
}

set_member : TripMemberView → Store → Store
set_member member s = record s {
  members = insert (member.trip_id, member.user_id) member s.members;
}

-- The role of a request is editor or viewer.
unfoldable pub upsert_trip_member :
    Principal → String → String → TripMemberRole → ℕ → Method TripMemberView
unfolding managed_trip next_member set_member
upsert_trip_member p trip_id user_id role now = do
  guard (not (eqb (count user_id) 0) && leb (count user_id) 128) not_found
  managed_trip p trip_id user_id
  current ← gets (λ s. lookup (trip_id, user_id) s.members)
  modify (set_member (next_member p trip_id user_id role now current))
  pure (next_member p trip_id user_id role now current)

drop_member : String → String → Store → Store
drop_member trip_id user_id s = record s { members = remove (trip_id, user_id) s.members }

unfoldable pub remove_trip_member : Principal → String → String → Method (Unit {0})
unfolding managed_trip drop_member
remove_trip_member p trip_id user_id = do
  managed_trip p trip_id user_id
  member ← gets (λ s. lookup (trip_id, user_id) s.members)
  guard (is_some member) not_found
  modify (drop_member trip_id user_id)
