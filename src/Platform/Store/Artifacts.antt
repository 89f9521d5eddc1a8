-- ===== src/Platform/Store/Artifacts.antt =====
-- The methods of InMemoryPlatformStore on artifacts (backend/moyuan_web/v1/store.py).
use route_pilot.Common.{
  ℕ, ◌+◌, String, Bool, true, false, ◌&&◌, ◌||◌, not, Option, none, some, List, [], ◌∷◌, ◌++◌, eqb,
  ltb, if◌then◌else◌, keep, length, is_some, or_empty,
}
use route_pilot.Common.Eq.{◌==◌, text_equality, quad_eq}
use route_pilot.Common.Dict.{Dict, lookup, insert}
use route_pilot.Common.Exec.{pure, gets, modify, guard, require, reads, ◌>>=◌, ◌>>◌}
use route_pilot.Common.Json.{Json, is_text, is_number}
use route_pilot.Common.Sort.{sorted}
use route_pilot.Common.Text.{text_lt}
use route_pilot.Platform.Contracts.{Models, is_registered, contract_id, validate_contract}
use route_pilot.Platform.Models.{Principal, ArtifactView, ArtifactStatus, ArtifactPatchRequest}
use route_pilot.Platform.Store.State.{
  RunExecutionLease, Store, Method, version_conflict, artifact_read_only, content_invalid,
  trip_locked, artifact_locked, assert_execution_lease_locked, versions_of,
}

unfoldable pub ensure_artifact_mutable : ArtifactView → Method (Unit {0})
unfolding is_registered contract_id
ensure_artifact_mutable a =
    guard (is_registered (contract_id a.artifact_type a.schema_version))
      (artifact_read_only a.artifact_type a.version)

-- The content repeats the artifact's identity and names the next version.
unfoldable pub has_header : ArtifactView → Dict String Json → Bool
unfolding is_text is_number
has_header a content =
    is_text (lookup "artifact_id" content) a.artifact_id
    && is_text (lookup "artifact_type" content) a.artifact_type
    && is_number (lookup "schema_version" content) a.schema_version
    && is_number (lookup "version" content) (a.version + 1)

unfoldable pub validate_artifact_patch_content :
    Models → ArtifactView → ArtifactPatchRequest → Method (Dict String Json)
unfolding ensure_artifact_mutable has_header validate_contract
validate_artifact_patch_content m a r = do
  ensure_artifact_mutable a
  guard (has_header a r.content) (content_invalid a.version)
  require (validate_contract m (contract_id a.artifact_type a.schema_version) r.content)
      (content_invalid a.version)

pub record NewArtifact : Type 0 where
  pub trip_id : String
  pub artifact_id : Option String
  pub artifact_type : String
  pub schema_version : ℕ
  pub content : Dict String Json
  pub status : ArtifactStatus
  pub parent_version : Option ℕ
  pub execution_lease : Option RunExecutionLease

-- `artifact_id or new_public_id("artifact")`: the empty text counts as absent.
unfoldable pub resolved_id : Option String → String → String
resolved_id none fresh = fresh
resolved_id (some id) fresh = if id == "" then fresh else id

unfoldable pub check_writer :
    Principal → NewArtifact → ℕ → Option RunExecutionLease → Method (Unit {0})
check_writer p r now none = pure tt
check_writer p r now (some lease) = do
  reads (assert_execution_lease_locked p lease (some r.trip_id) now)
  pure tt

unfoldable pub first_version : Principal → NewArtifact → String → ℕ → ArtifactView
first_version p r id now = record {
  artifact_id = id;
  version = 1;
  trip_id = r.trip_id;
  tenant_id = p.tenant_id;
  artifact_type = r.artifact_type;
  schema_version = r.schema_version;
  status = r.status;
  content = r.content;
  created_by = p.user_id;
  created_at = now;
  parent_version = r.parent_version;
}

unfoldable pub set_versions : String → List ArtifactView → Store → Store
set_versions id versions s = record s { artifacts = insert id versions s.artifacts }

unfoldable pub create_artifact : Principal → NewArtifact → String → ℕ → ℕ → Method ArtifactView
unfolding check_writer resolved_id first_version set_versions
create_artifact p r fresh_id checked_at now = do
  reads (trip_locked p r.trip_id true)
  check_writer p r checked_at r.execution_lease
  let id = resolved_id r.artifact_id fresh_id
  taken ← gets (λ s. lookup id s.artifacts)
  guard (not (is_some taken)) (version_conflict (length (or_empty taken)))
  let artifact = first_version p r id now
  modify (set_versions id (artifact ∷ []))
  pure artifact

unfoldable pub all_versions : Dict String (List ArtifactView) → List ArtifactView
all_versions [] = []
all_versions ((id, versions) ∷ rest) = versions ++ all_versions rest

unfoldable pub is_of_trip : Principal → String → ArtifactView → Bool
is_of_trip p trip_id a = a.trip_id == trip_id && a.tenant_id == p.tenant_id

unfoldable pub later_artifact : ArtifactView → ArtifactView → Bool
unfolding text_lt
later_artifact a b =
    ltb b.created_at a.created_at
    || (eqb b.created_at a.created_at && text_lt b.artifact_id a.artifact_id)

unfoldable pub list_artifacts : Principal → String → Method (List ArtifactView)
unfolding is_of_trip later_artifact all_versions
list_artifacts p trip_id = do
  reads (trip_locked p trip_id false)
  gets (λ s. sorted later_artifact (keep (is_of_trip p trip_id) (all_versions s.artifacts)))

unfoldable pub get_artifact : Principal → String → Option ℕ → Method ArtifactView
get_artifact p artifact_id version = reads (artifact_locked p artifact_id version false)

unfoldable pub next_version : ArtifactView → Dict String Json → ℕ → ArtifactView
next_version current content now = record {
  artifact_id = current.artifact_id;
  version = current.version + 1;
  trip_id = current.trip_id;
  tenant_id = current.tenant_id;
  artifact_type = current.artifact_type;
  schema_version = current.schema_version;
  status = ArtifactStatus.candidate;
  content = content;
  created_by = current.created_by;
  created_at = now;
  parent_version = some current.version;
}

unfoldable pub push_version : String → ArtifactView → Store → Store
push_version id a s = record s { artifacts = insert id (versions_of id s ++ a ∷ []) s.artifacts }

unfoldable pub patch_artifact :
    Models → Principal → String → ArtifactPatchRequest → ℕ → Method ArtifactView
unfolding validate_artifact_patch_content next_version push_version
patch_artifact m p artifact_id r now = do
  current ← reads (artifact_locked p artifact_id none true)
  ensure_artifact_mutable current
  guard (eqb current.version r.base_version) (version_conflict current.version)
  content ← validate_artifact_patch_content m current r
  modify (push_version artifact_id (next_version current content now))
  pure (next_version current content now)
