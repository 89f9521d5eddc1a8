-- ===== src/Platform/Store/Retry.antt =====
-- Idempotency of `create_run` (backend/moyuan_web/v1/store.py).
use route_pilot.Common.{
  String, ◌≡◌, inl, inr, refl, ap, ◌∙◌, true, Option, none, some, arith, if◌then◌else◌, Bool-cases,
  Option-cases,
}
use mathlib.Core.Path.{subst₂}
use route_pilot.Common.Eq.{◌==◌, ==_refl, eq_of_==, text_equality, triple_eq}
use route_pilot.Common.Dict.{lookup, lookup-insert}
use route_pilot.Common.Exec.{Result, ok, err}
use route_pilot.Common.Outcome.{Result-cases}
use route_pilot.Platform.Models.{Principal, TripView, RunView}
use route_pilot.Platform.Store.State.{
  Store, StoreError, idempotency_conflict, trip_locked, append_event_locked,
}
use route_pilot.Platform.Store.Runs.{
  IdempotentRunResult, RunRequest, Fresh, create_run, replay_or_accept, accept_run,
  record_acceptance, replay_run, run_scope, is_active, base_conflict, snapshot_at, insert_run,
  remember_run, new_run,
}

-- The trip is there and active, and the key stands for a stored run.
record Answered (p : Principal) (r : RunRequest) (run : RunView) (t : Store) : Type 0 where
  trip : TripView
  allowed : trip_locked p r.trip_id true t ≡ ok trip
  active : is_active trip.status ≡ true
  run_id : String
  remembered : lookup (run_scope p r.idempotency_key) t.idempotency ≡ some (r.request_hash, run_id)
  stored : lookup run_id t.runs ≡ some run

record_acceptance-Answered :
    (p : Principal) (trip : TripView) (r : RunRequest) (fresh : Fresh) (s : Store)
    → trip_locked p r.trip_id true s ≡ ok trip
    → is_active trip.status ≡ true
    → Answered p r (new_run p trip r fresh) (record_acceptance p trip r fresh s).1
unfolding record_acceptance insert_run remember_run append_event_locked new_run trip_locked
record_acceptance-Answered p trip r fresh s allowed active = record {
  trip = trip;
  allowed = allowed;
  active = active;
  run_id = fresh.run_id;
  remembered = rw (lookup-insert, ==_refl (run_scope p r.idempotency_key)) refl;
  stored = rw (lookup-insert, ==_refl fresh.run_id) refl;
}

acceptance-result :
    (p : Principal) (trip : TripView) (r : RunRequest) (fresh : Fresh) (s t : Store)
    (result : IdempotentRunResult)
    → record_acceptance p trip r fresh s ≡ (ok result, t)
    → (new_run p trip r fresh ≡ result.run) × ((record_acceptance p trip r fresh s).1 ≡ t)
unfolding record_acceptance
acceptance-result p trip r fresh s t result h = (ground arith, ap (λ r. r.1) h)

accept-Answered :
    (p : Principal) (trip : TripView) (r : RunRequest) (fresh : Fresh) (s t : Store)
    (result : IdempotentRunResult)
    → trip_locked p r.trip_id true s ≡ ok trip
    → is_active trip.status ≡ true
    → accept_run p trip r fresh s ≡ (ok result, t)
    → Answered p r result.run t
unfolding accept_run
accept-Answered p trip r fresh s t result allowed active h =
    elim (Option-cases (
      base_conflict r.command.type trip
        (snapshot_at trip.current_artifact_id trip.current_artifact_version s) r.base_artifact_id
        r.base_artifact_version)) [
          | inr (v, e) ↦ absurd (ground arith)
          | inl e ↦
              let (same, at) = acceptance-result p trip r fresh s t result (ground arith) in
              subst₂ (Answered p r) same at
                (record_acceptance-Answered p trip r fresh s allowed active)
        ]

replay-Answered :
    (p : Principal) (trip : TripView) (r : RunRequest) (fresh : Fresh) (s t : Store)
    (result : IdempotentRunResult) (old : Option (String × String))
    → trip_locked p r.trip_id true s ≡ ok trip
    → is_active trip.status ≡ true
    → lookup (run_scope p r.idempotency_key) s.idempotency ≡ old
    → replay_or_accept p trip r fresh old s ≡ (ok result, t)
    → Answered p r result.run t
unfolding replay_or_accept
replay-Answered p trip r fresh s t result none allowed active known h =
    accept-Answered p trip r fresh s t result allowed active h
replay-Answered p trip r fresh s t result (some (hash, run_id)) allowed active known h =
    elim (Bool-cases (hash == r.request_hash)) [
      | inr w ↦ absurd (ground arith)
      | inl w ↦ elim (Option-cases (lookup run_id s.runs)) [
        | inl e ↦ absurd (ground arith)
        | inr (run, e) ↦ subst₂ (Answered p r) (ground arith) (ground arith) (record {
          trip = trip;
          allowed = allowed;
          active = active;
          run_id = run_id;
          remembered = known ∙ ap (λ x. some (x, run_id)) (eq_of_== hash r.request_hash w);
          stored = e;
        })
      ]
    ]

create_run-Answered :
    (p : Principal) (r : RunRequest) (fresh : Fresh) (s t : Store) (result : IdempotentRunResult)
    → create_run p r fresh s ≡ (ok result, t)
    → Answered p r result.run t
unfolding create_run
create_run-Answered p r fresh s t result h = elim (Result-cases (trip_locked p r.trip_id true s)) [
  | inr (e, g) ↦ absurd (ground arith)
  | inl (trip, g) ↦ elim (Bool-cases (is_active trip.status)) [
    | inr w ↦ absurd (ground arith)
    | inl w ↦
        replay-Answered p trip r fresh s t result
          (lookup (run_scope p r.idempotency_key) s.idempotency) g w refl (ground arith)
  ]
]

-- The answer to a key that is known.
abbrev pub repeated : RunRequest → RunRequest → RunView → Result StoreError IdempotentRunResult
repeated r again run =
    if r.request_hash == again.request_hash
    then ok (record { run = run; event = none; replayed = true })
    else err idempotency_conflict

Answered-again :
    (p : Principal) (r again : RunRequest) (fresh : Fresh) (t : Store) (run : RunView)
    → Answered p r run t
    → again.trip_id ≡ r.trip_id
    → again.idempotency_key ≡ r.idempotency_key
    → create_run p again fresh t ≡ (repeated r again run, t)
unfolding create_run replay_or_accept replay_run
Answered-again p r again fresh t run a trip key =
    rw (trip, key, a.allowed, a.active, a.remembered) (ground (arith, a.stored))

-- After a run was created or found, another request under the same key on the same trip creates
-- nothing and changes nothing: it returns that run if its hash is the same, whatever else it asks
-- for, and raises an idempotency conflict if not.
pub create_run_retry :
    (p : Principal) (r again : RunRequest) (fresh other : Fresh) (s t : Store)
    (result : IdempotentRunResult)
    → create_run p r fresh s ≡ (ok result, t)
    → again.trip_id ≡ r.trip_id
    → again.idempotency_key ≡ r.idempotency_key
    → create_run p again other t ≡ (repeated r again result.run, t)
create_run_retry p r again fresh other s t result h =
    Answered-again p r again other t result.run (create_run-Answered p r fresh s t result h)
