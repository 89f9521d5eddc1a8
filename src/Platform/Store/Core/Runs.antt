-- ===== src/Platform/Store/Core/Runs.antt =====
-- `create_run` and `resume_run` of InMemoryPlatformStore as changes of the part that runs live in.
use route_pilot.Common.{
  String, ◌≡◌, refl, subst, true, ◌&&◌, Option, none, some, arith, inl, inr, eqb, ltb, Bool-cases,
  Option-cases,
}
use route_pilot.Common.Eq.{◌==◌, text_equality, triple_eq, quad_eq}
use route_pilot.Common.Dict.{Dict, lookup}
use route_pilot.Common.Json.{Json}
use route_pilot.Common.Outcome.{Result-cases}
use route_pilot.Platform.Input.{validate_run_input_values}
use route_pilot.Platform.Models.{Principal, TripView, RunView, RunEvent, EventType}
use route_pilot.Platform.Store.State.{Store, run_locked, trip_locked, is_executable, next_event}
use route_pilot.Platform.Store.Mutation.{releases_lease}
use route_pilot.Platform.Store.Runs.{
  RunRequest, Fresh, new_run, accepted_payload, insert_run, record_acceptance, accept_run,
  create_run, replay_or_accept, snapshot_at, base_conflict, is_active, run_scope,
}
use route_pilot.Platform.Store.Resume.{
  ResumeRequest, ResumeReadings, resumed, resume_payload, record_resumption, resume_waiting,
  resume_run, replay_or_resume, pending_of, resume_scope,
}
use route_pilot.Platform.Store.Core.Quiet.{core}
use route_pilot.Platform.Store.Core.Steps.{
  Step, stay, accepted, changed, changed_core, accepted_core, appended, run_locked-stored,
}

acceptance_event : RunView → RunRequest → Fresh → Store → RunEvent
acceptance_event run r fresh s =
    next_event run EventType.run_accepted (accepted_payload run) r.trace_id fresh.now fresh.event_id
      (insert_run run s)

record_acceptance-Step :
    (s : Store) (p : Principal) (trip : TripView) (r : RunRequest) (fresh : Fresh)
    → Step (some fresh.run_id) (core s) (core (record_acceptance p trip r fresh s).1)
unfolding record_acceptance accepted_core appended acceptance_event next_event new_run insert_run
    is_executable
record_acceptance-Step s p trip r fresh =
    accepted (new_run p trip r fresh) (acceptance_event (new_run p trip r fresh) r fresh s) refl
      refl refl refl refl refl

accept-Step :
    (s : Store) (p : Principal) (trip : TripView) (r : RunRequest) (fresh : Fresh)
    → Step (some fresh.run_id) (core s) (core (accept_run p trip r fresh s).1)
unfolding accept_run
accept-Step s p trip r fresh =
    elim (Option-cases (
      base_conflict r.command.type trip
        (snapshot_at trip.current_artifact_id trip.current_artifact_version s) r.base_artifact_id
        r.base_artifact_version)) [
          | inr (v, e) ↦ stay (ground arith)
          | inl e ↦
              subst (Step (some fresh.run_id) (core s)) (ground arith)
                (record_acceptance-Step s p trip r fresh)
        ]

replay_or_accept-Step :
    (s : Store) (p : Principal) (trip : TripView) (r : RunRequest) (fresh : Fresh)
    (old : Option (String × String))
    → Step (some fresh.run_id) (core s) (core (replay_or_accept p trip r fresh old s).1)
unfolding replay_or_accept
replay_or_accept-Step s p trip r fresh none = accept-Step s p trip r fresh
replay_or_accept-Step s p trip r fresh (some (hash, id)) = stay (ground arith)

module _ (s : Store) (p : Principal) where
  pub create_run-Step :
      (r : RunRequest) (fresh : Fresh)
      → Step (some fresh.run_id) (core s) (core (create_run p r fresh s).1)
  unfolding create_run
  create_run-Step r fresh = elim (Result-cases (trip_locked p r.trip_id true s)) [
    | inr (e, h) ↦ stay (ground arith)
    | inl (trip, h) ↦ elim (Bool-cases (is_active trip.status)) [
      | inr x ↦ stay (ground arith)
      | inl x ↦ subst (Step (some fresh.run_id) (core s)) (ground arith) (
          replay_or_accept-Step s p trip r fresh
            (lookup (run_scope p r.idempotency_key) s.idempotency))
    ]
  ]

resumption_event : RunView → ResumeReadings → Store → RunEvent
resumption_event updated readings s =
    next_event updated EventType.run_lifecycle_changed (resume_payload updated) updated.trace_id
      readings.now readings.event_id s

record_resumption-Step :
    (s : Store) (p : Principal) (id : String) (current : RunView) (r : ResumeRequest)
    (values : Dict String Json) (readings : ResumeReadings)
    → lookup id s.runs ≡ some current
    → Step none (core s) (core (record_resumption p id current r values readings s).1)
unfolding record_resumption changed_core appended resumption_event next_event resumed releases_lease
record_resumption-Step s p id current r values readings h =
    changed id current (resumed r.request_id values readings.now current)
      (resumption_event (resumed r.request_id values readings.now current) readings s) h refl refl
      refl refl refl

module _ (iso_date : String → Option String) (s : Store) (p : Principal) where
  resume_waiting-Step :
      (id : String) (current : RunView) (r : ResumeRequest) (readings : ResumeReadings)
      → lookup id s.runs ≡ some current
      → Step none (core s) (core (resume_waiting iso_date p id current r readings s).1)
  unfolding resume_waiting
  resume_waiting-Step id current r readings h =
      elim (Bool-cases (eqb current.control_version r.expected_control_version)) [
        | inr e ↦ stay (ground arith)
        | inl e ↦ elim (Option-cases (pending_of current)) [
          | inl e' ↦ stay (ground arith)
          | inr (pending, e') ↦
              elim (Bool-cases (
                pending.request_id == r.request_id && ltb readings.checked_at pending.expires_at)) [
                  | inr x ↦ stay (ground arith)
                  | inl x ↦
                      elim (Result-cases (validate_run_input_values iso_date pending r.values)) [
                        | inr (f, y) ↦ stay (ground arith)
                        | inl (values, y) ↦
                            subst (Step none (core s)) (ground arith)
                              (record_resumption-Step s p id current r values readings h)
                      ]
                ]
        ]
      ]

  replay_or_resume-Step :
      (id : String) (current : RunView) (r : ResumeRequest) (readings : ResumeReadings)
      (old : Option (String × String))
      → lookup id s.runs ≡ some current
      → Step none (core s) (core (replay_or_resume iso_date p id current r readings old s).1)
  unfolding replay_or_resume
  replay_or_resume-Step id current r readings none h = resume_waiting-Step id current r readings h
  replay_or_resume-Step id current r readings (some (hash, run)) h = stay (ground arith)

  pub resume_run-Step :
      (id : String) (r : ResumeRequest) (readings : ResumeReadings)
      → Step none (core s) (core (resume_run iso_date p id r readings s).1)
  unfolding resume_run
  resume_run-Step id r readings = elim (Result-cases (run_locked p id s)) [
    | inr (e, h) ↦ stay (ground arith)
    | inl (current, h) ↦ subst (Step none (core s)) (ground arith) (
        replay_or_resume-Step id current r readings
          (lookup (resume_scope p r.idempotency_key) s.run_control_idempotency)
          (run_locked-stored p id s current h))
  ]
