-- ===== src/Platform/Store/Fencing.antt =====
-- Execution leases of runs as fencing tokens, and the control version as a compare-and-swap.
use route_pilot.Common.{
  ℕ, suc, ◌+◌, ◌<◌, String, ◌≡◌, ◌≢◌, ◌⊎◌, inl, inr, refl, ap, true, false, Option, none, some,
  List, arith, Bool-cases, Option-cases,
}
use route_pilot.Common.Eq.{==_refl, text_equality}
use route_pilot.Common.Dict.{lookup}
use route_pilot.Common.Exec.{Result, ok, err}
use route_pilot.Common.Outcome.{Result-cases}
use route_pilot.Platform.Contracts.{Models}
use route_pilot.Platform.Models.{Principal, RunView, RunEvent}
use route_pilot.Platform.Store.State.{
  Store, StoreError, RunExecutionLease, value_error, same_fence, run_locked, trip_locked,
  assert_execution_lease_locked,
}
use route_pilot.Platform.Store.Leases.{
  renew_run_execution, release_run_execution, is_lease_request, renew_locked, new_lease,
}
use route_pilot.Platform.Store.Mutation.{Mutation, Readings, mutate_run, check_fence}
use route_pilot.Platform.Store.Artifacts.{NewArtifact, create_artifact, check_writer}
use route_pilot.Platform.Store.Inversion.{mutate-inverted}
use route_pilot.Platform.Store.History.{Call, run}
use route_pilot.Platform.Store.Invariant.{Sound, run-Sound}
use route_pilot.Platform.Store.Progress.{
  attempts_at, attempts-run-le, version_at, version-run-le, Avoids,
}
use route_pilot.Platform.Store.Core.Quiet.{core}
use route_pilot.Platform.Store.Core.Steps.{
  assert-held, run_locked-stored, lookup-record, mutated_lem,
}

-- The call raises and changes nothing.
abbrev pub Refused : {A : Type 0} → Result StoreError A × Store → Store → Type 0
Refused r s = (e : StoreError) × (r ≡ (err e, s))

-- A stale lease fails the check, with whichever error comes first.
stale-assert :
    (p : Principal) (l : RunExecutionLease) (trip : Option String) (now : ℕ) (s : Store)
    → Sound (core s)
    → l.attempt < attempts_at l.run_id (core s)
    → (e : StoreError) × (assert_execution_lease_locked p l trip now s ≡ err e)
stale-assert p l trip now s v h =
    elim (Result-cases (assert_execution_lease_locked p l trip now s)) [
      | inr (e, g) ↦ (e, g)
      | inl (r, g) ↦
          let (active, held, same, _, _, _, _) = assert-held p l trip now s r g in
          absurd (omega (arith, v.latest l.run_id active held))
    ]

stale-same_fence :
    (l : RunExecutionLease) (s : Store)
    → Sound (core s)
    → l.attempt < attempts_at l.run_id (core s)
    → same_fence (lookup l.run_id s.execution_leases) l ≡ false
unfolding same_fence
stale-same_fence l s v h = elim (Option-cases (lookup l.run_id s.execution_leases)) [
  | inl e ↦ ground (arith, e)
  | inr (a, e) ↦ ground (arith, e, v.latest l.run_id a e)
]

mutate-Refused :
    (p : Principal) (l : RunExecutionLease) (m : Mutation) (readings : Readings) (s : Store)
    (e : StoreError)
    → assert_execution_lease_locked p l none readings.checked_at s ≡ err e
    → m.execution_lease ≡ some l
    → Refused (mutate_run p l.run_id m readings s) s
unfolding mutate_run check_fence
mutate-Refused p l m readings s e h given = elim (Result-cases (run_locked p l.run_id s)) [
  | inr (f, g) ↦ (f, ground arith)
  | inl (r, g) ↦ (e, ground (arith, ==_refl l.run_id))
]

create_artifact-Refused :
    (p : Principal) (l : RunExecutionLease) (r : NewArtifact) (id : String) (checked_at now : ℕ)
    (s : Store) (e : StoreError)
    → assert_execution_lease_locked p l (some r.trip_id) checked_at s ≡ err e
    → r.execution_lease ≡ some l
    → Refused (create_artifact p r id checked_at now s) s
unfolding create_artifact check_writer
create_artifact-Refused p l r id checked_at now s e h given =
    elim (Result-cases (trip_locked p r.trip_id true s)) [
      | inr (f, g) ↦ (f, ground arith)
      | inl (t, g) ↦ (e, ground arith)
    ]

renew_locked-err :
    (e : StoreError) (renewed : RunExecutionLease) (s : Store)
    → (renew_locked {A = RunView} (err e) renewed s ≡ (ok none, s))
      ⊎ Refused (renew_locked {A = RunView} (err e) renewed s) s
unfolding renew_locked
renew_locked-err StoreError.lease_lost renewed s = inl refl
renew_locked-err e renewed s = inr (e, refl)

renew-Refused :
    (p : Principal) (l : RunExecutionLease) (duration checked_at now : ℕ) (s : Store)
    (e : StoreError)
    → assert_execution_lease_locked p l none checked_at s ≡ err e
    → (renew_run_execution p l duration checked_at now s ≡ (ok none, s))
      ⊎ Refused (renew_run_execution p l duration checked_at now s) s
unfolding renew_run_execution
renew-Refused p l duration checked_at now s e h =
    elim (Bool-cases (is_lease_request l.owner duration)) [
      | inr bad ↦ inr (value_error, ground arith)
      | inl good ↦
          let renewed = new_lease l.run_id l.owner l.attempt (now + duration) in
          elim (renew_locked-err e renewed s) [
            | inl q ↦ inl (ground arith)
            | inr (f, q) ↦ inr (f, ground arith)
          ]
    ]

release-Refused :
    (p : Principal) (l : RunExecutionLease) (s : Store)
    → same_fence (lookup l.run_id s.execution_leases) l ≡ false
    → (release_run_execution p l s ≡ (ok false, s)) ⊎ Refused (release_run_execution p l s) s
unfolding release_run_execution
release-Refused p l s h = elim (Result-cases (run_locked p l.run_id s)) [
  | inr (f, g) ↦ inr (f, ground arith)
  | inl (r, g) ↦ inl (ground arith)
]

module _ (iso_date : String → Option String) (models : Models) where
  -- From a store that is Sound (Invariant), in which a newer attempt on a lease's run has been granted,
  -- and whatever calls follow, the old lease is good for nothing: a transition of the run or a new artifact under it raises, its renewal
  -- returns no lease or raises, its release returns false or raises, and none of the four changes the
  -- store.
  pub stale_run_lease_fenced :
      (s : Store) (l : RunExecutionLease) (calls : List (Principal × Call)) (p : Principal)
      (m : Mutation) (readings : Readings) (r : NewArtifact) (id : String)
      (duration checked_at now : ℕ)
      → Sound (core s)
      → l.attempt < attempts_at l.run_id (core s)
      → m.execution_lease ≡ some l
      → r.execution_lease ≡ some l
      → let t = run iso_date models s calls in
        Refused (mutate_run p l.run_id m readings t) t
        × Refused (create_artifact p r id checked_at now t) t
        × ((renew_run_execution p l duration checked_at now t ≡ (ok none, t))
            ⊎ Refused (renew_run_execution p l duration checked_at now t) t)
        × ((release_run_execution p l t ≡ (ok false, t)) ⊎ Refused (release_run_execution p l t) t)
  stale_run_lease_fenced s l calls p m readings r id duration checked_at now v h gm gr =
      let t = run iso_date models s calls in
      let w = run-Sound iso_date models s calls v in
      let old = attempts-run-le l.run_id iso_date models (suc l.attempt) s calls h in
      let (e, f) = stale-assert p l none readings.checked_at t w old in
      let (e', f') = stale-assert p l (some r.trip_id) checked_at t w old in
      let (e'', f'') = stale-assert p l none checked_at t w old in
      (
        mutate-Refused p l m readings t e f gm,
        create_artifact-Refused p l r id checked_at now t e' f' gr,
        renew-Refused p l duration checked_at now t e'' f'',
        release-Refused p l t (stale-same_fence l t w old),
      )

-- A successful transition writes the run that it found, one version on.
mutate-wrote :
    (s t : Store) (p : Principal) (id : String) (m : Mutation) (readings : Readings) (x : RunView)
    (event : RunEvent)
    → mutate_run p id m readings s ≡ (ok (x, event), t)
    → (version_at id (core s) ≡ m.expected_control_version)
      × (version_at id (core t) ≡ m.expected_control_version + 1)
mutate-wrote s t p id m readings x event h =
    let (current, s', g, w, _, written) = mutate-inverted s t p id m readings x event h in
    (
      ground (arith, run_locked-stored p id s current g),
      ground (
        arith,
        ap (λ (r : Result StoreError (RunView × RunEvent) × Store). lookup id r.1.runs) written,
        lookup-record s' id current m readings,
        mutated_lem m readings.now current,
      ),
    )

-- Each control version of a run is left once: after a successful transition from it, and whatever
-- calls follow that create no run under the same identifier, no further transition from the same
-- version succeeds.
pub mutate_run_once :
    (iso_date : String → Option String) (models : Models) (s t : Store) (p q : Principal)
    (id : String) (m n : Mutation) (readings later : Readings) (x : RunView) (event : RunEvent)
    → mutate_run p id m readings s ≡ (ok (x, event), t)
    → (calls : List (Principal × Call)) → Avoids id calls
    → n.expected_control_version ≡ m.expected_control_version
    → (y : RunView) (other : RunEvent) (u : Store)
    → mutate_run q id n later (run iso_date models t calls) ≢ (ok (y, other), u)
mutate_run_once iso_date models s t p q id m n readings later x event h calls a same y other u
      again =
    let (_, left) = mutate-wrote s t p id m readings x event h in
    let grown =
      version-run-le id iso_date models (m.expected_control_version + 1) t calls a
        (omega (arith, left)) in
    let (found, _) = mutate-wrote (run iso_date models t calls) u q id n later y other again in
    absurd (omega (arith, grown, found))
