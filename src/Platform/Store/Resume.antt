-- ===== src/Platform/Store/Resume.antt =====
-- `resume_run` of InMemoryPlatformStore (backend/moyuan_web/v1/store.py).
use route_pilot.Common.{ℕ, ◌+◌, String, true, false, Option, none, some, [], ◌∷◌, eqb, ltb, ◌&&◌}
use route_pilot.Common.Eq.{◌==◌, text_equality, quad_eq}
use route_pilot.Common.Dict.{Dict, lookup, insert}
use route_pilot.Common.Exec.{
  ok, err, pure, raise, gets, modify, guard, require, reads, with_state, ◌>>=◌, ◌>>◌,
}
use route_pilot.Common.Json.{Json, Fields, field, end, pos}
use route_pilot.Platform.Input.{Validated, InputFault, validate_run_input_values}
use route_pilot.Platform.Models.{Principal, RunView, RunLifecycle, RunPendingInput, EventType}
use route_pilot.Platform.Store.State.{
  Store, Method, version_conflict, idempotency_conflict, input_invalid, input_expired,
  overflow_error, key_error, run_locked, append_event_locked,
}
use route_pilot.Platform.Store.Runs.{IdempotentRunResult, lifecycle_text}
use route_pilot.Platform.Store.Mutation.{set_run}

pub record ResumeRequest : Type 0 where
  pub expected_control_version : ℕ
  pub request_id : String
  pub values : Dict String Json
  pub idempotency_key : String
  pub request_hash : String

-- The clock at the expiry check and after the validation, and the event's identifier.
pub record ResumeReadings : Type 0 where
  pub checked_at : ℕ
  pub now : ℕ
  pub event_id : String

abbrev pub Scope : Type 0
Scope = String × String × String × String

abbrev pub resume_scope : Principal → String → Scope
resume_scope p key = (p.tenant_id, p.user_id, "run.resume", key)

-- The interruption that the request answers.
unfoldable pub pending_of : RunView → Option RunPendingInput
pending_of run = elim run.lifecycle_state [
  | RunLifecycle.waiting_input ↦ run.pending_input
  | _ ↦ none
]

-- `except ValueError: raise RunInputInvalid`; an OverflowError passes.
unfoldable pub or_invalid : {A : Type 0} → Validated A → Method A
or_invalid (ok a) = pure a
or_invalid (err InputFault.value_fault) = raise input_invalid
or_invalid (err InputFault.overflow_fault) = raise overflow_error

to_fields : Dict String Json → Fields
to_fields [] = end
to_fields ((k, v) ∷ rest) = field k v (to_fields rest)

resume_input : String → Dict String Json → Json
unfolding to_fields
resume_input request_id values =
    Json.obj
      (field "request_id" (Json.text request_id) (field "values" (Json.obj (to_fields values)) end))

unfoldable pub resumed : String → Dict String Json → ℕ → RunView → RunView
unfolding resume_input
resumed request_id values now run = record run {
  lifecycle_state = RunLifecycle.queued;
  phase = "accepted";
  control_version = run.control_version + 1;
  command = record {
    type = run.command.type;
    message = run.command.message;
    payload = insert "resume_input" (resume_input request_id values) run.command.payload;
  };
  pending_input = none;
  updated_at = now;
}

unfoldable pub resume_payload : RunView → Dict String Json
unfolding lifecycle_text
resume_payload run =
    ("previous_state", Json.text (lifecycle_text RunLifecycle.waiting_input))
    ∷ ("lifecycle_state", Json.text (lifecycle_text RunLifecycle.queued))
    ∷ ("reason_code", Json.text "INPUT_SUPPLIED")
    ∷ ("control_version", Json.int (pos run.control_version))
    ∷ []

unfoldable pub remember_resume : Scope → String → String → Store → Store
remember_resume scope hash run_id s = record s {
  run_control_idempotency = insert scope (hash, run_id) s.run_control_idempotency;
}

-- The writes of a resumption.
unfoldable pub record_resumption :
    Principal
    → String
    → RunView
    → ResumeRequest
    → Dict String Json
    → ResumeReadings
    → Method IdempotentRunResult
unfolding resumed resume_payload set_run remember_resume append_event_locked
record_resumption p run_id current r values readings = do
  let updated = resumed r.request_id values readings.now current
  modify (set_run run_id updated)
  event ←
      append_event_locked updated EventType.run_lifecycle_changed (resume_payload updated)
        updated.trace_id readings.now readings.event_id
  modify (remember_resume (resume_scope p r.idempotency_key) r.request_hash run_id)
  pure (record { run = updated; event = some event; replayed = false })

module _ (iso_date : String → Option String) where
  unfoldable pub resume_waiting :
      Principal → String → RunView → ResumeRequest → ResumeReadings → Method IdempotentRunResult
  unfolding pending_of or_invalid
  resume_waiting p run_id current r readings = do
    guard (eqb current.control_version r.expected_control_version)
        (version_conflict current.control_version)
    pending ← with_state (λ s. require (pending_of current) input_invalid)
    guard (pending.request_id == r.request_id) input_invalid
    guard (ltb readings.checked_at pending.expires_at) input_expired
    values ← or_invalid (validate_run_input_values iso_date pending r.values)
    record_resumption p run_id current r values readings

  unfoldable pub replay_or_resume :
      Principal
      → String
      → RunView
      → ResumeRequest
      → ResumeReadings
      → Option (String × String)
      → Method IdempotentRunResult
  replay_or_resume p run_id current r readings none = resume_waiting p run_id current r readings
  replay_or_resume p run_id current r readings (some (hash, existing_run_id)) = do
    guard (hash == r.request_hash && existing_run_id == run_id) idempotency_conflict
    run ← with_state (λ s. require (lookup run_id s.runs) key_error)
    pure (record { run = run; event = none; replayed = true })

  unfoldable pub resume_run :
      Principal → String → ResumeRequest → ResumeReadings → Method IdempotentRunResult
  resume_run p run_id r readings = do
    current ← reads (run_locked p run_id)
    existing ← gets (λ s. lookup (resume_scope p r.idempotency_key) s.run_control_idempotency)
    replay_or_resume p run_id current r readings existing
