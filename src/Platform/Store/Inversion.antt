-- ===== src/Platform/Store/Inversion.antt =====
-- What a successful `mutate_run` went through.
use route_pilot.Common.{String, ◌≡◌, refl, ap, inl, inr, true, arith, Bool-cases, eqb}
use route_pilot.Common.Exec.{Result, ok, err, continue}
use route_pilot.Common.Outcome.{Result-cases}
use route_pilot.Platform.Models.{Principal, RunView, RunEvent}
use route_pilot.Platform.Store.State.{Store, StoreError, run_locked}
use route_pilot.Platform.Store.Mutation.{
  Mutation, Readings, mutate_run, check_fence, publish_result, record_transition,
}
use route_pilot.Platform.Store.Core.Steps.{check_fence-state}

pair-path : {A B : Type 0} (r : A × B) (a : A) → r.0 ≡ a → r ≡ (a, r.1)
pair-path (x, y) a h = ap (λ z. (z, y)) h

publish-then :
    (r : Result StoreError (Unit {0}) × Store) (t : Store) (id : String) (current : RunView)
    (m : Mutation) (readings : Readings) (x : RunView) (event : RunEvent)
    → continue r.0 (λ _. record_transition id current m readings) r.1 ≡ (ok (x, event), t)
    → (s' : Store) × (r ≡ (ok tt, s'))
      × (record_transition id current m readings s' ≡ (ok (x, event), t))
publish-then (ok _, s') t id current m readings x event h = (s', refl, h)
publish-then (err e, s') t id current m readings x event h = absurd (ground arith)

pub mutate-inverted :
    (s t : Store) (p : Principal) (id : String) (m : Mutation) (readings : Readings) (x : RunView)
    (event : RunEvent)
    → mutate_run p id m readings s ≡ (ok (x, event), t)
    → (current : RunView) × (s' : Store) × (run_locked p id s ≡ ok current)
      × (eqb current.control_version m.expected_control_version ≡ true)
      × (publish_result p current m.result_artifact readings.now s ≡ (ok tt, s'))
      × (record_transition id current m readings s' ≡ (ok (x, event), t))
unfolding mutate_run
mutate-inverted s t p id m readings x event h = elim (Result-cases (run_locked p id s)) [
  | inr (e, g) ↦ absurd (ground arith)
  | inl (current, g) ↦
      let fence = check_fence-state p id m.execution_lease readings.checked_at s in
      elim (Result-cases (check_fence p id m.execution_lease readings.checked_at s).0) [
        | inr (e, g') ↦ absurd (ground (arith, fence))
        | inl (u, g') ↦ elim (Bool-cases (eqb current.control_version m.expected_control_version)) [
          | inr w ↦ absurd (ground (arith, fence))
          | inl w ↦
              let (s', published, written) =
                publish-then (publish_result p current m.result_artifact readings.now s) t id
                  current m readings x event (ground (arith, fence)) in
              (current, s', g, w, published, written)
        ]
      ]
]
