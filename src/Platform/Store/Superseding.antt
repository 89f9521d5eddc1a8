-- ===== src/Platform/Store/Superseding.antt =====
-- What superseding and publishing do to the stored versions of InMemoryPlatformStore
-- (backend/moyuan_web/v1/store.py).
use mathlib.Core.Option
use route_pilot.Common.{
  ℕ, String, ◌≡◌, refl, Bool, true, Option, none, some, List, [], ◌∷◌, arith, All, each, or_empty,
  find_first,
}
use route_pilot.Common.Eq.{==_iff, ==_refl, text_equality}
use route_pilot.Common.Dict.{Dict, Entries, lookup, map_values, lookup-insert, lookup-map_values}
use route_pilot.Platform.Models.{ArtifactView, ArtifactStatus, is_published}
use route_pilot.Platform.Store.State.{Store, at_version, versions_of}
use route_pilot.Platform.Store.Mutation.{
  publish_version, supersede_all, supersede, is_rival, update_version, with_artifact_status,
}

-- A property of every stored version.
abbrev pub EveryVersion : (ArtifactView → Type 0) → Store → Type 0
EveryVersion P s = Entries (λ _ versions. All P versions) s.artifacts

pub All-each :
    (P : ArtifactView → Type 0) (f : ArtifactView → ArtifactView)
    → ((a : ArtifactView) → P (f a))
    → (xs : List ArtifactView) → All P (each f xs)
unfolding each
All-each P f h [] = tt
All-each P f h (x ∷ xs) = (h x, All-each P f h xs)

pub every-map_values :
    (P : ArtifactView → Type 0) (f : ArtifactView → ArtifactView)
    → ((a : ArtifactView) → P (f a))
    → (d : Dict String (List ArtifactView))
    → Entries (λ _ versions. All P versions) (map_values (each f) d)
unfolding map_values
every-map_values P f h [] = tt
every-map_values P f h ((id, versions) ∷ d) = (All-each P f h versions, every-map_values P f h d)

-- A published TripSnapshot of the trip is this version.
abbrev pub SoleSnapshot : String → String → ℕ → ArtifactView → Type 0
SoleSnapshot trip_id id version a =
    a.trip_id ≡ trip_id
    → a.artifact_type ≡ "TripSnapshot"
    → is_published a.status ≡ true
    → (a.artifact_id ≡ id) × (a.version ≡ version)

pub supersede-sole :
    (trip_id id : String) (version : ℕ) (a : ArtifactView)
    → SoleSnapshot trip_id id version (supersede (is_rival trip_id id version) a)
unfolding supersede is_rival is_published
supersede-sole trip_id id version a same_trip same_type published = ground (
  arith,
  ==_iff a.trip_id trip_id,
  ==_iff a.artifact_type "TripSnapshot",
  ==_iff a.artifact_id id,
)

pub supersede_all-sole :
    (trip_id id : String) (version : ℕ) (s : Store)
    → EveryVersion (SoleSnapshot trip_id id version) (supersede_all (is_rival trip_id id version) s)
unfolding supersede_all
supersede_all-sole trip_id id version s =
    every-map_values (SoleSnapshot trip_id id version) (supersede (is_rival trip_id id version))
      (supersede-sole trip_id id version) s.artifacts

-- The version that is stored under an identifier.
abbrev pub stored_at : String → ℕ → Store → Option ArtifactView
stored_at id version s = at_version version (versions_of id s)

pub at_version-each :
    (version : ℕ) (f : ArtifactView → ArtifactView)
    → ((a : ArtifactView) → (f a).version ≡ a.version)
    → (xs : List ArtifactView)
    → at_version version (each f xs) ≡ Option.map f (at_version version xs)
unfolding at_version each find_first
at_version-each version f h [] = refl
at_version-each version f h (x ∷ xs) = ground (arith, h x, at_version-each version f h xs)

pub at_version-update :
    (version : ℕ) (status : ArtifactStatus) (xs : List ArtifactView)
    → at_version version (update_version version (with_artifact_status status) xs)
      ≡ Option.map (with_artifact_status status) (at_version version xs)
unfolding at_version update_version find_first
at_version-update version status [] = refl
at_version-update version status (x ∷ xs) = ground (arith, at_version-update version status xs)

pub stored-publish_version :
    (id : String) (version : ℕ) (s : Store)
    → stored_at id version (publish_version id version s)
      ≡ Option.map (with_artifact_status ArtifactStatus.published) (stored_at id version s)
unfolding publish_version
stored-publish_version id version s =
    rw (lookup-insert, ==_refl)
      (at_version-update version ArtifactStatus.published (versions_of id s))

pub or_empty-map :
    (f : ArtifactView → ArtifactView) (o : Option (List ArtifactView))
    → or_empty (Option.map (each f) o) ≡ each f (or_empty o)
unfolding each
or_empty-map f none = refl
or_empty-map f (some xs) = refl

pub version-supersede :
    (rival : ArtifactView → Bool) (a : ArtifactView) → (supersede rival a).version ≡ a.version
unfolding supersede
version-supersede rival a = ground arith

pub stored-supersede_all :
    (rival : ArtifactView → Bool) (id : String) (version : ℕ) (s : Store)
    → stored_at id version (supersede_all rival s)
      ≡ Option.map (supersede rival) (stored_at id version s)
unfolding supersede_all
stored-supersede_all rival id version s =
    rw (lookup-map_values, or_empty-map (supersede rival) (lookup id s.artifacts))
      (at_version-each version (supersede rival) (version-supersede rival) (versions_of id s))
