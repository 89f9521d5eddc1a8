-- ===== src/Platform/Store/Resumption.antt =====
-- What a successful `resume_run` of InMemoryPlatformStore went through
-- (backend/moyuan_web/v1/store.py).
use route_pilot.Common.{
  ◌<◌, String, ◌≡◌, inl, inr, refl, sym, ap, ◌∙◌, true, false, ◌&&◌, Option, none, some, arith, eqb,
  ltb, Bool-cases, Option-cases,
}
use route_pilot.Common.Eq.{◌==◌, ==_iff, ==_refl, text_equality, quad_eq}
use route_pilot.Common.Dict.{Dict, lookup, lookup-insert}
use route_pilot.Common.Exec.{Result, ok}
use route_pilot.Common.Json.{Json}
use route_pilot.Common.Outcome.{Result-cases}
use route_pilot.Platform.Input.{validate_run_input_values}
use route_pilot.Platform.Models.{Principal, RunView, RunLifecycle, RunPendingInput}
use route_pilot.Platform.Store.State.{Store, StoreError, run_locked, append_event_locked}
use route_pilot.Platform.Store.Runs.{IdempotentRunResult}
use route_pilot.Platform.Store.Mutation.{set_run}
use route_pilot.Platform.Store.Resume.{
  ResumeRequest, ResumeReadings, resume_scope, pending_of, or_invalid, resumed, remember_resume,
  record_resumption, resume_waiting, replay_or_resume, resume_run,
}

-- The run waited for just this input, in time, and is queued with it.
pub record Answered (iso_date : String → Option String) (p : Principal) (id : String)
    (r : ResumeRequest) (readings : ResumeReadings) (s : Store) (result : IdempotentRunResult)
    (t : Store) : Type 0 where
  pub current : RunView
  pub pending : RunPendingInput
  pub values : Dict String Json
  pub found : run_locked p id s ≡ ok current
  pub version : current.control_version ≡ r.expected_control_version
  pub waiting : current.lifecycle_state ≡ RunLifecycle.waiting_input
  pub asked : current.pending_input ≡ some pending
  pub request : pending.request_id ≡ r.request_id
  pub in_time : readings.checked_at < pending.expires_at
  pub valid : validate_run_input_values iso_date pending r.values ≡ ok values
  pub queued : result.run ≡ resumed r.request_id values readings.now current
  pub written : lookup id t.runs ≡ some result.run
  pub remembered :
      lookup (resume_scope p r.idempotency_key) t.run_control_idempotency
      ≡ some (r.request_hash, id)

pending_of-waiting :
    (run : RunView) (pending : RunPendingInput)
    → pending_of run ≡ some pending
    → (run.lifecycle_state ≡ RunLifecycle.waiting_input) × (run.pending_input ≡ some pending)
unfolding pending_of
pending_of-waiting run pending h = (ground arith, ground arith)

recorded :
    (p : Principal) (id : String) (current : RunView) (r : ResumeRequest)
    (values : Dict String Json) (readings : ResumeReadings) (s t : Store)
    (result : IdempotentRunResult)
    → record_resumption p id current r values readings s ≡ (ok result, t)
    → (result.run ≡ resumed r.request_id values readings.now current)
      × (lookup id t.runs ≡ some (resumed r.request_id values readings.now current))
      × (lookup (resume_scope p r.idempotency_key) t.run_control_idempotency
          ≡ some (r.request_hash, id))
unfolding record_resumption set_run remember_resume append_event_locked
recorded p id current r values readings s t result h =
    let after : (record_resumption p id current r values readings s).1 ≡ t =
      ap (λ (x : Result StoreError IdempotentRunResult × Store). x.1) h in
    (
      ground (arith, h),
      ap (λ (u : Store). lookup id u.runs) (sym after) ∙ rw (lookup-insert, ==_refl id) refl,
      ap (λ (u : Store). lookup (resume_scope p r.idempotency_key) u.run_control_idempotency)
            (sym after)
          ∙ rw (lookup-insert, ==_refl (resume_scope p r.idempotency_key)) refl,
    )

module _ (iso_date : String → Option String) where
  waiting-Answered :
      (p : Principal) (id : String) (current : RunView) (r : ResumeRequest)
      (readings : ResumeReadings) (s t : Store) (result : IdempotentRunResult)
      → run_locked p id s ≡ ok current
      → resume_waiting iso_date p id current r readings s ≡ (ok result, t)
      → Answered iso_date p id r readings s result t
  unfolding resume_waiting or_invalid
  waiting-Answered p id current r readings s t result found h =
      elim (Option-cases (pending_of current)) [
        | inl e ↦ absurd (ground (arith, h, e))
        | inr (pending, e) ↦
            elim (Bool-cases (
              eqb current.control_version r.expected_control_version
              && (pending.request_id == r.request_id
                  && ltb readings.checked_at pending.expires_at))) [
                    | inr w ↦ absurd (ground (arith, h, e, w))
                    | inl w ↦
                        elim (Result-cases (validate_run_input_values iso_date pending r.values)) [
                          | inr (f, v) ↦ absurd (ground (arith, h, e, w, v))
                          | inl (values, v) ↦
                              let (run, stored, key) =
                                recorded p id current r values readings s t result
                                  (ground (arith, h, e, w, v)) in
                              let (state, asked) = pending_of-waiting current pending e in
                              record {
                                current = current;
                                pending = pending;
                                values = values;
                                found = found;
                                version = ground (arith, w);
                                waiting = state;
                                asked = asked;
                                request = ground (arith, w, ==_iff pending.request_id r.request_id);
                                in_time = ground (arith, w);
                                valid = v;
                                queued = run;
                                written = stored ∙ ap some (sym run);
                                remembered = key;
                              }
                        ]
                  ]
      ]

  replayed-old :
      (p : Principal) (id : String) (current : RunView) (r : ResumeRequest)
      (readings : ResumeReadings) (s t : Store) (result : IdempotentRunResult)
      (old : String × String)
      → replay_or_resume iso_date p id current r readings (some old) s ≡ (ok result, t)
      → result.replayed ≡ true
  unfolding replay_or_resume
  replayed-old p id current r readings s t result (hash, run) h =
      elim (Bool-cases (hash == r.request_hash && run == id)) [
        | inr w ↦ absurd (ground (arith, h, w))
        | inl w ↦ elim (Option-cases (lookup id s.runs)) [
          | inl e ↦ absurd (ground (arith, h, w, e, ==_iff run id))
          | inr (x, e) ↦ ground (arith, h, w, e, ==_iff run id)
        ]
      ]

  old-Answered :
      (p : Principal) (id : String) (current : RunView) (r : ResumeRequest)
      (readings : ResumeReadings) (s t : Store) (result : IdempotentRunResult)
      (old : Option (String × String))
      → run_locked p id s ≡ ok current
      → result.replayed ≡ false
      → replay_or_resume iso_date p id current r readings old s ≡ (ok result, t)
      → Answered iso_date p id r readings s result t
  unfolding replay_or_resume
  old-Answered p id current r readings s t result none found new h =
      waiting-Answered p id current r readings s t result found h
  old-Answered p id current r readings s t result (some old) found new h =
      absurd (ground (arith, new, replayed-old p id current r readings s t result old h))

  -- A resumption that succeeds, and is no replay of an earlier one, finds the run waiting, at the
  -- control version that the request names, for just the input that it answers, before that expires,
  -- and with values that pass the validation; it stores the run as queued with the validated values and
  -- returns it, and remembers the request's hash under its key.
  pub resume_run-Answered :
      (p : Principal) (id : String) (r : ResumeRequest) (readings : ResumeReadings) (s t : Store)
      (result : IdempotentRunResult)
      → resume_run iso_date p id r readings s ≡ (ok result, t)
      → result.replayed ≡ false
      → Answered iso_date p id r readings s result t
  unfolding resume_run
  resume_run-Answered p id r readings s t result h new = elim (Result-cases (run_locked p id s)) [
    | inr (e, g) ↦ absurd (ground (arith, g, h))
    | inl (current, g) ↦
        old-Answered p id current r readings s t result
          (lookup (resume_scope p r.idempotency_key) s.run_control_idempotency) g new
          (ground (arith, g, h))
  ]
