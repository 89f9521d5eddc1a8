-- ===== src/A2a/TaskStore/Methods.antt =====
-- The methods of InMemoryAgentTaskStore (agent/travel_agent/a2a/store.py). A body runs under one
-- lock, so it is one step on the state. `now` is what its call of `datetime.now` returns and a
-- duration is in microseconds; a stored copy is the value itself, since values never change here.
use mathlib.Core.Option.{get_or}
use route_pilot.Common.{
  ℕ, ◌+◌, String, Bool, true, false, ◌&&◌, ◌||◌, not, Option, none, some, List, [], ◌∷◌, ltb, eqb,
  if◌then◌else◌, keep,
}
use route_pilot.Common.Eq.{Equality, ◌==◌, number_equality, text_equality, triple_eq}
use route_pilot.Common.Dict.{lookup, insert, remove, values}
use route_pilot.Common.Text.{text_lt}
use route_pilot.Common.Sort.{sorted}
use route_pilot.Common.Exec.{
  Result, ok, err, pure, raise, gets, require, modify, guard, with_state, ◌>>=◌, ◌>>◌,
}
use route_pilot.A2a.TaskStore.Types.{
  TaskRecord, TaskExecutionLease, Key, Store, StoreError, Method, task_missing, version_conflict,
  lease_lost, dispatch_conflict, key_error, task_key, dispatch_key, lease_key, is_executable,
  lease_duration,
}

unfoldable pub insert_task : TaskRecord → Store → Store
insert_task r s = record s {
  records = insert (task_key r) r s.records;
  dispatch_index = insert (dispatch_key r) (task_key r) s.dispatch_index;
}

-- The task, and whether the call created it.
unfoldable pub create_or_get : TaskRecord → Method (TaskRecord × Bool)
unfolding insert_task
create_or_get r = do
  existing_key ← gets (λ s. lookup (dispatch_key r) s.dispatch_index)
  elim existing_key [
    | some key ↦ do
      existing ← with_state (λ s. require (lookup key s.records) key_error)
      guard (existing.request_fingerprint == r.request_fingerprint) dispatch_conflict
      pure (existing, false)
    | none ↦ do
      present ← gets (λ s. lookup (task_key r) s.records)
      elim present [
        | some _ ↦ raise dispatch_conflict
        | none ↦ do modify (insert_task r); pure (r, true)
      ]
  ]

unfoldable pub get : Key → Method TaskRecord
get key = with_state (λ s. require (lookup key s.records) task_missing)

unfoldable pub get_by_dispatch : Key → Method TaskRecord
get_by_dispatch key = do
  found ← gets (λ s. lookup key s.dispatch_index)
  elim found [
    | none ↦ raise task_missing
    | some k ↦ with_state (λ s. require (lookup k s.records) task_missing)
  ]

-- The lease that is held is the caller's, and has not run out.
unfoldable pub owns : Option TaskExecutionLease → TaskExecutionLease → ℕ → Bool
owns none lease now = false
owns (some active) lease now =
    active.owner == lease.owner && eqb active.attempt lease.attempt && ltb now active.lease_until

-- The fence of `replace`, where a lease is given.
unfoldable pub lease_passes : Option TaskExecutionLease → Option TaskExecutionLease → ℕ → Bool
unfolding owns
lease_passes none active now = true
lease_passes (some lease) active now = owns active lease now

unfoldable pub write_task : TaskRecord → Store → Store
unfolding is_executable
write_task r s = record s {
  records = insert (task_key r) r s.records;
  execution_leases =
      if is_executable r.task.state
      then s.execution_leases
      else remove (task_key r) s.execution_leases;
}

unfoldable pub replace : TaskRecord → ℕ → Option TaskExecutionLease → ℕ → Method TaskRecord
unfolding lease_passes write_task
replace r expected_version lease now = do
  current ← with_state (λ s. require (lookup (task_key r) s.records) task_missing)
  held ← gets (λ s. lookup (task_key r) s.execution_leases)
  guard (lease_passes lease held now) lease_lost
  guard (eqb current.version expected_version && eqb r.version (expected_version + 1))
      version_conflict
  modify (write_task r)
  pure r

-- A lease is held and has not run out.
unfoldable pub is_held : Option TaskExecutionLease → ℕ → Bool
is_held none now = false
is_held (some active) now = ltb now active.lease_until

unfoldable pub grant : TaskExecutionLease → Store → Store
grant lease s = record s {
  execution_attempts = insert (lease_key lease) lease.attempt s.execution_attempts;
  execution_leases = insert (lease_key lease) lease s.execution_leases;
}

abbrev pub attempts : Key → Store → ℕ
attempts key s = get_or (lookup key s.execution_attempts) 0

unfoldable pub new_lease : Key → String → ℕ → ℕ → ℕ → TaskExecutionLease
unfolding lease_duration
new_lease (tenant, interface, task) owner seconds now attempt = record {
  tenant_id = tenant;
  agent_interface_id = interface;
  task_id = task;
  owner = owner;
  attempt = attempt;
  lease_until = now + lease_duration seconds;
}

unfoldable pub claim_execution : Key → String → ℕ → ℕ → Method (Option TaskExecutionLease)
unfolding is_executable is_held grant new_lease
claim_execution key owner seconds now = do
  current ← with_state (λ s. require (lookup key s.records) task_missing)
  held ← gets (λ s. is_held (lookup key s.execution_leases) now)
  if not (is_executable current.task.state) || held then pure none else do
    lease ← gets (λ s. new_lease key owner seconds now (attempts key s + 1))
    modify (grant lease)
    pure (some lease)

unfoldable pub executable_task : Option TaskRecord → Bool
unfolding is_executable
executable_task none = false
executable_task (some r) = is_executable r.task.state

unfoldable pub extended : Option TaskExecutionLease → ℕ → Option TaskExecutionLease
extended none until = none
extended (some active) until = some (record active { lease_until = until })

unfoldable pub store_lease : Key → Option TaskExecutionLease → Store → Store
store_lease key none s = s
store_lease key (some lease) s = record s { execution_leases = insert key lease s.execution_leases }

unfoldable pub renew_execution : TaskExecutionLease → ℕ → ℕ → Method (Option TaskExecutionLease)
unfolding executable_task owns extended store_lease lease_duration
renew_execution lease seconds now = do
  let key = lease_key lease
  active ← gets (λ s. lookup key s.execution_leases)
  task ← gets (λ s. lookup key s.records)
  if not (executable_task task && owns active lease now) then pure none else do
    let renewed = extended active (now + lease_duration seconds)
    modify (store_lease key renewed)
    pure renewed

unfoldable pub same_fence : Option TaskExecutionLease → TaskExecutionLease → Bool
same_fence none lease = false
same_fence (some active) lease = active.owner == lease.owner && eqb active.attempt lease.attempt

unfoldable pub drop_lease : TaskExecutionLease → Store → Store
unfolding same_fence
drop_lease lease s =
    if same_fence (lookup (lease_key lease) s.execution_leases) lease
    then record s { execution_leases = remove (lease_key lease) s.execution_leases }
    else s

unfoldable pub release_execution : TaskExecutionLease → Method (Unit {0})
unfolding drop_lease
release_execution lease = modify (drop_lease lease)

-- `datetime` and identifier order of the listings: `created_at or deadline`, then the task's id.
listed_at : TaskRecord → ℕ
listed_at r = get_or r.created_at r.deadline

unfoldable pub listed_before : TaskRecord → TaskRecord → Bool
unfolding listed_at text_lt
listed_before a b =
    ltb (listed_at a) (listed_at b)
    || (eqb (listed_at a) (listed_at b) && text_lt a.task.id b.task.id)

-- An absent filter passes everything.
unfoldable pub passes {ℓ} : {A : Type ℓ} ⦃e : Equality A⦄ → Option A → A → Bool
passes none a = true
passes (some wanted) a = a == wanted

unfoldable pub listed_task : String → String → Option String → Option ℕ → Key × TaskRecord → Bool
unfolding passes
listed_task tenant interface context state ((t, i, _), r) =
    t == tenant && i == interface && passes context r.task.context_id && passes state r.task.state

unfoldable pub list_tasks : String → String → Option String → Option ℕ → Method (List TaskRecord)
unfolding listed_before listed_task
list_tasks tenant interface context state = gets (λ s.
    sorted listed_before (values (keep (listed_task tenant interface context state) s.records)))

unfoldable pub of_run : String → String → Key × TaskRecord → Bool
of_run tenant run ((t, _, _), r) = t == tenant && r.run_id == run

unfoldable pub list_for_run : String → String → Method (List TaskRecord)
unfolding listed_before of_run
list_for_run tenant run =
    gets (λ s. sorted listed_before (values (keep (of_run tenant run) s.records)))

-- The predicate that a waiter evaluates: the task is gone or has a later version.
unfoldable pub has_changed : Option TaskRecord → ℕ → Bool
has_changed none after = true
has_changed (some r) after = ltb after r.version

-- The states at which the waiter holds the lock and evaluates its predicate, the last of them
-- before the timeout; `none` is the timeout. The lock is kept until the task is read.
unfoldable pub wait_for_change : Key → ℕ → List Store → Result StoreError (Option TaskRecord)
unfolding has_changed
wait_for_change key after [] = ok none
wait_for_change key after (s ∷ later) =
    let rest = wait_for_change key after later in
    if has_changed (lookup key s.records) after
    then elim (lookup key s.records) [ none ↦ err task_missing | some r ↦ ok (some r) ]
    else rest
