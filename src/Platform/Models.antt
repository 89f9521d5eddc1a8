-- ===== src/Platform/Models.antt =====
-- The values of backend/moyuan_web/v1/models.py. A time is in microseconds.
use route_pilot.Common.{ℕ, String, Bool, true, false, ◌||◌, Option, List, any}
use route_pilot.Common.Eq.{◌==◌, text_equality}
use route_pilot.Common.Dict.{Dict}
use route_pilot.Common.Json.{Json}

pub record Principal : Type 0 where
  pub tenant_id : String
  pub user_id : String
  pub roles : List String

pub data TripStatus : Type 0 where
  active archived : TripStatus

-- A text field holds what the last patch put there: `none` is Python's `None`.
pub record TripView : Type 0 where
  pub trip_id : String
  pub tenant_id : String
  pub owner_id : String
  pub title : Option String
  pub locale : Option String
  pub timezone : Option String
  pub status : TripStatus
  pub version : ℕ
  pub current_artifact_id : Option String
  pub current_artifact_version : Option ℕ
  pub created_at : ℕ
  pub updated_at : ℕ

pub record TripCreateRequest : Type 0 where
  pub title : String
  pub locale : String
  pub timezone : String

-- Each field is unset, or set to a value, which may be `None`.
pub record TripPatchRequest : Type 0 where
  pub title : Option (Option String)
  pub locale : Option (Option String)
  pub timezone : Option (Option String)

pub data TripMemberRole : Type 0 where
  owner editor viewer : TripMemberRole

pub record TripMemberView : Type 0 where
  pub trip_id : String
  pub tenant_id : String
  pub user_id : String
  pub role : TripMemberRole
  pub version : ℕ
  pub created_at : ℕ
  pub updated_at : ℕ

pub data RunLifecycle : Type 0 where
  queued running waiting_input cancel_requested completed failed canceled : RunLifecycle

-- `TERMINAL_RUN_STATES`.
unfoldable pub is_terminal : RunLifecycle → Bool
is_terminal RunLifecycle.completed = true
is_terminal RunLifecycle.failed = true
is_terminal RunLifecycle.canceled = true
is_terminal _ = false

pub data CommandType : Type 0 where
  trip_ask trip_plan trip_replan artifact_select artifact_publish artifact_revoke : CommandType

pub record RunCommand : Type 0 where
  pub type : CommandType
  pub message : String
  pub payload : Dict String Json

pub data InputType : Type 0 where
  text date number single_select multi_select confirmation : InputType

pub record RunInputField : Type 0 where
  pub field_id : String
  pub label : String
  pub input_type : InputType
  pub required : Bool
  pub options : List String

pub record RunPendingInput : Type 0 where
  pub request_id : String
  pub prompt : String
  pub fields : List RunInputField
  pub expires_at : ℕ

pub record RunView : Type 0 where
  pub run_id : String
  pub trip_id : String
  pub tenant_id : String
  pub actor_id : String
  pub trace_id : String
  pub lifecycle_state : RunLifecycle
  pub phase : String
  pub control_version : ℕ
  pub command : RunCommand
  pub base_artifact_id : Option String
  pub base_artifact_version : Option ℕ
  pub pending_input : Option RunPendingInput
  pub result_artifact_id : Option String
  pub result_artifact_version : Option ℕ
  pub public_error_code : Option String
  pub created_at : ℕ
  pub updated_at : ℕ

pub data EventType : Type 0 where
  run_accepted run_lifecycle_changed run_phase_changed agent_activity : EventType
  artifact_candidate_updated artifact_published citation_added risk_detected : EventType
  input_required approval_required run_completed run_failed run_canceled heartbeat : EventType

pub record RunEvent : Type 0 where
  pub event_id : String
  pub seq : ℕ
  pub type : EventType
  pub occurred_at : ℕ
  pub trip_id : String
  pub run_id : String
  pub trace_id : String
  pub payload : Dict String Json

pub data ArtifactStatus : Type 0 where
  candidate selected validated published superseded revoked : ArtifactStatus

pub record ArtifactView : Type 0 where
  pub artifact_id : String
  pub version : ℕ
  pub trip_id : String
  pub tenant_id : String
  pub artifact_type : String
  pub schema_version : ℕ
  pub status : ArtifactStatus
  pub content : Dict String Json
  pub created_by : String
  pub created_at : ℕ
  pub parent_version : Option ℕ

pub record ArtifactPatchRequest : Type 0 where
  pub base_version : ℕ
  pub content : Dict String Json

pub data ArtifactCommand : Type 0 where
  select publish revoke : ArtifactCommand

pub record ArtifactCommandRequest : Type 0 where
  pub type : ArtifactCommand
  pub base_version : ℕ

-- `principal.roles.intersection({"admin", "tenant_admin"})` is not empty.
unfoldable pub is_admin : Principal → Bool
is_admin p = any (λ role. role == "admin" || role == "tenant_admin") p.roles

unfoldable pub is_published : ArtifactStatus → Bool
is_published ArtifactStatus.published = true
is_published _ = false
