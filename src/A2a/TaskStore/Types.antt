-- ===== src/A2a/TaskStore/Types.antt =====
-- The state and the values of agent/travel_agent/a2a/store.py.
use route_pilot.Common.{ℕ, String, Bool, ◌||◌, Option, List, [], ltb, eqb, if◌then◌else◌}
use route_pilot.Common.Eq.{text_equality, triple_eq}
use route_pilot.Common.Dict.{Dict}
use route_pilot.Common.Exec.{Exec}

-- The protobuf `Task`: the parts that the store reads, and the rest as its encoding.
pub record Task : Type 0 where
  pub id : String
  pub context_id : String
  pub state : ℕ
  pub rest : String

pub record VersionedEvent : Type 0 where
  pub version : ℕ
  pub event : String

-- The invocation and the input response are carried and never read: their encodings stand for them.
pub record TaskRecord : Type 0 where
  pub tenant_id : String
  pub actor_id : String
  pub agent_interface_id : String
  pub run_id : String
  pub dispatch_id : String
  pub request_fingerprint : String
  pub task : Task
  pub invocation : String
  pub deadline : ℕ
  pub reference_task_ids : List String
  pub version : ℕ
  pub created_at : Option ℕ
  pub updated_at : Option ℕ
  pub pending_input_request_id : Option String
  pub execution_input : Option String
  pub message_fingerprints : Dict String String
  pub events : List VersionedEvent

pub record TaskExecutionLease : Type 0 where
  pub tenant_id : String
  pub agent_interface_id : String
  pub task_id : String
  pub owner : String
  pub attempt : ℕ
  pub lease_until : ℕ

abbrev pub Key : Type 0
Key = String × String × String

pub record Store : Type 0 where
  pub records : Dict Key TaskRecord
  pub dispatch_index : Dict Key Key
  pub execution_leases : Dict Key TaskExecutionLease
  pub execution_attempts : Dict Key ℕ

-- `key_error` is the `KeyError` of a subscript.
pub data StoreError : Type 0 where
  task_missing version_conflict lease_lost dispatch_conflict key_error : StoreError

abbrev pub Method : Type 0 → Type 0
Method = Exec Store StoreError

abbrev pub init : Store
init = record { records = []; dispatch_index = []; execution_leases = []; execution_attempts = [] }

abbrev pub task_key : TaskRecord → Key
task_key r = (r.tenant_id, r.agent_interface_id, r.task.id)

abbrev pub dispatch_key : TaskRecord → Key
dispatch_key r = (r.tenant_id, r.agent_interface_id, r.dispatch_id)

abbrev pub lease_key : TaskExecutionLease → Key
lease_key l = (l.tenant_id, l.agent_interface_id, l.task_id)

-- `int(state) in {1, 2}`: submitted or working.
unfoldable pub is_executable : ℕ → Bool
is_executable state = eqb state 1 || eqb state 2

-- `max(0.05, lease_seconds)`.
unfoldable pub lease_duration : ℕ → ℕ
lease_duration micros = if ltb 50_000 micros then micros else 50_000
