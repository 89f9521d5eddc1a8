-- ===== src/Platform/Store/Core/Steps.antt =====
-- Each method of InMemoryPlatformStore as one of six changes of the part that runs live in.
use mathlib.Core.Option.{get_or}
use route_pilot.Common.{
  ℕ, ◌+◌, String, ◌≡◌, refl, sym, ap, subst, ◌∙◌, true, Option, none, some, List, [], ◌∷◌, ◌++◌,
  arith, inl, inr, length, or_empty, if◌then◌else◌, eqb, Bool-cases, Option-cases, ◌<◌,
}
use route_pilot.Common.Eq.{eq_of_==, ==_refl, text_equality, triple_eq, quad_eq}
use route_pilot.Common.Dict.{Dict, lookup, insert, remove, lookup-insert}
use route_pilot.Common.Exec.{Result, ok, err, continue}
use route_pilot.Common.Outcome.{Result-cases}
use route_pilot.Platform.Models.{Principal, RunView, RunEvent}
use route_pilot.Platform.Store.State.{
  RunExecutionLease, Store, StoreError, run_locked, is_executable, is_held, same_fence,
  assert_execution_lease_locked, next_event,
}
use route_pilot.Platform.Store.Leases.{
  attempts, is_lease_request, new_lease, claim_run_execution, renew_run_execution,
  release_run_execution,
}
use route_pilot.Platform.Store.Mutation.{
  Mutation, Readings, mutate_run, mutated, releases_lease, publish_result, check_fence,
  with_control_version, record_transition,
}
use route_pilot.Platform.Store.Core.Quiet.{Core, core, core-publish_result}

-- An event at the end of its run's list.
unfoldable pub appended : RunEvent → Dict String (List RunEvent) → Dict String (List RunEvent)
appended event events =
    insert event.run_id (or_empty (lookup event.run_id events) ++ event ∷ []) events

abbrev pub next_seq : String → Dict String (List RunEvent) → ℕ
next_seq id events = length (or_empty (lookup id events)) + 1

-- A run replaced under its key, with its event.
unfoldable pub changed_core : String → RunView → RunEvent → Core → Core
changed_core id updated event c = record {
  runs = insert id updated c.runs;
  events = appended event c.events;
  execution_leases =
      if releases_lease updated.lifecycle_state
      then remove id c.execution_leases
      else c.execution_leases;
  execution_attempts = c.execution_attempts;
}

unfoldable pub accepted_core : RunView → RunEvent → Core → Core
accepted_core run event c = record c {
  runs = insert run.run_id run c.runs;
  events = appended event (insert run.run_id [] c.events);
}

-- `made` is the identifier of a run that the change creates.
pub data Step (made : Option String) (s t : Core) : Type 0 where
  stay : t ≡ s → Step made s t
  accepted :
      (run : RunView) (event : RunEvent)
      → run.control_version ≡ 1
      → is_executable run.lifecycle_state ≡ true
      → made ≡ some run.run_id
      → event.run_id ≡ run.run_id
      → event.seq ≡ next_seq run.run_id (insert run.run_id [] s.events)
      → t ≡ accepted_core run event s
      → Step made s t
  changed :
      (id : String) (current updated : RunView) (event : RunEvent)
      → lookup id s.runs ≡ some current
      → updated.run_id ≡ current.run_id
      → updated.control_version ≡ current.control_version + 1
      → event.run_id ≡ updated.run_id
      → event.seq ≡ next_seq updated.run_id s.events
      → t ≡ changed_core id updated event s
      → Step made s t
  granted :
      (lease : RunExecutionLease) (current : RunView)
      → lookup lease.run_id s.runs ≡ some current
      → is_executable current.lifecycle_state ≡ true
      → lease.attempt ≡ get_or (lookup lease.run_id s.execution_attempts) 0 + 1
      → t ≡ record s {
        execution_leases = insert lease.run_id lease s.execution_leases;
        execution_attempts = insert lease.run_id lease.attempt s.execution_attempts;
      }
      → Step made s t
  renewed :
      (lease active : RunExecutionLease)
      → lookup lease.run_id s.execution_leases ≡ some active
      → lease.attempt ≡ active.attempt
      → t ≡ record s { execution_leases = insert lease.run_id lease s.execution_leases }
      → Step made s t
  dropped :
      (id : String)
      → t ≡ record s { execution_leases = remove id s.execution_leases }
      → Step made s t

-- A run that the caller may read is stored under its identifier.
pub run_locked-stored :
    (p : Principal) (id : String) (s : Store) (run : RunView)
    → run_locked p id s ≡ ok run
    → lookup id s.runs ≡ some run
unfolding run_locked
run_locked-stored p id s run h = ground arith

-- A lease that passes the check is the one that is held, and its run is executable.
pub assert-held :
    (p : Principal) (lease : RunExecutionLease) (trip : Option String) (now : ℕ) (s : Store)
    (run : RunView)
    → assert_execution_lease_locked p lease trip now s ≡ ok run
    → (active : RunExecutionLease) × (lookup lease.run_id s.execution_leases ≡ some active)
      × (active.attempt ≡ lease.attempt)
      × (active.owner ≡ lease.owner)
      × (now < active.lease_until)
      × (lookup lease.run_id s.runs ≡ some run)
      × (is_executable run.lifecycle_state ≡ true)
unfolding assert_execution_lease_locked
assert-held p lease trip now s run h = elim (Result-cases (run_locked p lease.run_id s)) [
  | inr (e, g) ↦ absurd (ground arith)
  | inl (r, g) ↦ elim (Option-cases (lookup lease.run_id s.execution_leases)) [
    | inl e ↦ absurd (ground arith)
    | inr (active, e) ↦ (
      active,
      e,
      ground arith,
      ground (arith, eq_of_== active.owner lease.owner),
      ground arith,
      ground (arith, run_locked-stored p lease.run_id s r g),
      ground arith,
    )
  ]
]

module _ (s : Store) (p : Principal) where
  pub claim-Step :
      (id owner : String) (duration now : ℕ)
      → Step none (core s) (core (claim_run_execution p id owner duration now s).1)
  unfolding claim_run_execution
  claim-Step id owner duration now = elim (Result-cases (run_locked p id s)) [
    | inr (e, h) ↦ stay (ground arith)
    | inl (run, h) ↦ elim (Bool-cases (is_lease_request owner duration)) [
      | inr h' ↦ stay (ground arith)
      | inl h' ↦ elim (Bool-cases (is_executable run.lifecycle_state)) [
        | inr x ↦ stay (ground arith)
        | inl x ↦ elim (Bool-cases (is_held (lookup id s.execution_leases) now)) [
          | inl y ↦ stay (ground arith)
          | inr y ↦
              granted (new_lease id owner (attempts id s + 1) (now + duration)) run
                (run_locked-stored p id s run h) x refl (ground arith)
        ]
      ]
    ]
  ]

  pub renew-Step :
      (lease : RunExecutionLease) (duration checked_at now : ℕ)
      → Step none (core s) (core (renew_run_execution p lease duration checked_at now s).1)
  unfolding renew_run_execution
  renew-Step lease duration checked_at now =
      elim (Bool-cases (is_lease_request lease.owner duration)) [
        | inr h ↦ stay (ground arith)
        | inl h ↦ elim (Result-cases (assert_execution_lease_locked p lease none checked_at s)) [
          | inr (e, g) ↦ stay (ground arith)
          | inl (run, g) ↦
              let (active, held, same, _, _, _, _) = assert-held p lease none checked_at s run g in
              renewed (new_lease lease.run_id lease.owner lease.attempt (now + duration)) active
                held (sym same) (ground arith)
        ]
      ]

  pub release-Step :
      (lease : RunExecutionLease) → Step none (core s) (core (release_run_execution p lease s).1)
  unfolding release_run_execution
  release-Step lease = elim (Result-cases (run_locked p lease.run_id s)) [
    | inr (e, h) ↦ stay (ground arith)
    | inl (run, h) ↦ elim (Bool-cases (same_fence (lookup lease.run_id s.execution_leases) lease)) [
      | inr x ↦ stay (ground arith)
      | inl x ↦ dropped lease.run_id (ground arith)
    ]
  ]

unfoldable pub transition_event : RunView → Mutation → Readings → Store → RunEvent
transition_event updated m readings s =
    next_event updated m.event_type (with_control_version m.payload updated.control_version)
      updated.trace_id readings.now readings.event_id s

transition_event_lem :
    (s : Store) (current : RunView) (m : Mutation) (readings : Readings)
    → let event = transition_event (mutated m readings.now current) m readings s in
      (event.run_id ≡ current.run_id) × (event.seq ≡ next_seq current.run_id (core s).events)
unfolding transition_event next_event mutated
transition_event_lem s current m readings = (refl, refl)

pub record-core :
    (s : Store) (id : String) (current : RunView) (m : Mutation) (readings : Readings)
    → core (record_transition id current m readings s).1
      ≡ changed_core id
          (mutated m readings.now current)
          (transition_event (mutated m readings.now current) m readings s)
          (core s)
unfolding record_transition changed_core appended transition_event next_event
record-core s id current m readings = ground arith

-- The transition stores the new run.
pub lookup-record :
    (s : Store) (id : String) (current : RunView) (m : Mutation) (readings : Readings)
    → lookup id (core (record_transition id current m readings s).1).runs
      ≡ some (mutated m readings.now current)
lookup-record s id current m readings =
    ap (λ (c : Core). lookup id c.runs) (record-core s id current m readings)
    ∙ unfold changed_core in rw lookup-insert (rw ==_refl)

pub mutated_lem :
    (m : Mutation) (now : ℕ) (current : RunView)
    → ((mutated m now current).run_id ≡ current.run_id)
      × ((mutated m now current).control_version ≡ current.control_version + 1)
unfolding mutated
mutated_lem m now current = (refl, refl)

record-Step :
    (s : Store) (id : String) (current : RunView) (m : Mutation) (readings : Readings)
    → lookup id s.runs ≡ some current
    → Step none (core s) (core (record_transition id current m readings s).1)
unfolding mutated
record-Step s id current m readings h =
    let (same_run, next) = mutated_lem m readings.now current in
    let (of_run, numbered) = transition_event_lem s current m readings in
    changed id current (mutated m readings.now current)
      (transition_event (mutated m readings.now current) m readings s) h same_run next of_run
      numbered (record-core s id current m readings)

pub check_fence-state :
    (p : Principal) (id : String) (lease : Option RunExecutionLease) (now : ℕ) (s : Store)
    → (check_fence p id lease now s).1 ≡ s
unfolding check_fence
check_fence-state p id none now s = refl
check_fence-state p id (some lease) now s = ground arith

-- The publication, which may raise, and then the transition.
published-Step :
    (s s' : Store) (r : Result StoreError (Unit {0})) (id : String) (current : RunView)
    (m : Mutation) (readings : Readings)
    → core s' ≡ core s
    → lookup id s.runs ≡ some current
    → Step none (core s) (core (continue r (λ _. record_transition id current m readings) s').1)
published-Step s s' (err e) id current m readings kept h = stay kept
published-Step s s' (ok _) id current m readings kept h =
    subst (λ c. Step none c (core (record_transition id current m readings s').1)) kept
      (record-Step s' id current m readings (ap (λ (c : Core). lookup id c.runs) kept ∙ h))

module _ (s : Store) (p : Principal) where
  pub mutate-Step :
      (id : String) (m : Mutation) (readings : Readings)
      → Step none (core s) (core (mutate_run p id m readings s).1)
  unfolding mutate_run
  mutate-Step id m readings = elim (Result-cases (run_locked p id s)) [
    | inr (e, h) ↦ stay (ground arith)
    | inl (current, h) ↦
        let fence = check_fence-state p id m.execution_lease readings.checked_at s in
        elim (Result-cases (check_fence p id m.execution_lease readings.checked_at s).0) [
          | inr (e, g) ↦ stay (ground (arith, fence))
          | inl (u, g) ↦
              elim (Bool-cases (eqb current.control_version m.expected_control_version)) [
                | inr x ↦ stay (ground (arith, fence))
                | inl x ↦ subst (Step none (core s)) (ground (arith, fence)) (
                    published-Step s (publish_result p current m.result_artifact readings.now s).1
                      (publish_result p current m.result_artifact readings.now s).0 id current m
                      readings (core-publish_result s p current m.result_artifact readings.now)
                      (run_locked-stored p id s current h))
              ]
        ]
  ]
