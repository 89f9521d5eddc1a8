-- ===== src/A2a/TaskStore/Invariant.antt =====
-- What every history of InMemoryAgentTaskStore keeps: leases are held by executable tasks under the
-- latest attempt number, and the dispatch index points at tasks.
use route_pilot.Common.{ℕ, ◌+◌, ◌≡◌, refl, true, none, some, List, arith, is_some}
use route_pilot.Common.Eq.{==_iff, ==_refl, text_equality, triple_eq}
use route_pilot.Common.Dict.{lookup, insert, remove, dict_laws, lookup-insert, lookup-remove}
use route_pilot.A2a.TaskStore.Types.{
  TaskRecord, TaskExecutionLease, Key, Store, init, task_key, lease_key, is_executable,
}
use route_pilot.A2a.TaskStore.Steps.{
  Step, Call, run, run_induction, stay, inserted, written, granted, prolonged, dropped,
}
use route_pilot.A2a.TaskStore.Methods.{
  attempts, executable_task, insert_task, write_task, grant, new_lease,
}

pub record Inv (s : Store) : Type 0 where
  -- a held lease carries the latest attempt number
  pub numbered :
      (k : Key) (l : TaskExecutionLease)
      → lookup k s.execution_leases ≡ some l
      → l.attempt ≡ attempts k s
  -- and belongs to a task that is submitted or working
  pub executable :
      (k : Key) (l : TaskExecutionLease)
      → lookup k s.execution_leases ≡ some l
      → executable_task (lookup k s.records) ≡ true
  pub indexed :
      (d k : Key) → lookup d s.dispatch_index ≡ some k → is_some (lookup k s.records) ≡ true
  -- each task is stored under its own key
  pub keyed : (k : Key) (r : TaskRecord) → lookup k s.records ≡ some r → task_key r ≡ k

pub init-Inv : Inv init
unfolding lookup
init-Inv = record {
  numbered = λ k l e. cc;
  executable = λ k l e. cc;
  indexed = λ d k e. cc;
  keyed = λ k r e. cc;
}

inserted-Inv :
    (r : TaskRecord) (s : Store)
    → lookup (task_key r) s.records ≡ none
    → Inv s
    → Inv (insert_task r s)
unfolding insert_task executable_task
inserted-Inv r s e v = record {
  numbered = v.numbered;
  executable =
      λ k l. simp dict_laws (λ h. ground (arith, ==_iff (task_key r) k, v.executable k l h));
  indexed = λ d k. simp dict_laws (ground (arith, ==_refl k, ==_iff (task_key r) k, v.indexed d k));
  keyed = λ k x. simp dict_laws (ground (arith, ==_iff (task_key r) k, v.keyed k x));
}

written-Inv :
    (r current : TaskRecord) (s : Store)
    → lookup (task_key r) s.records ≡ some current
    → Inv s
    → Inv (write_task r s)
unfolding write_task executable_task
written-Inv r current s e v = record {
  numbered = λ k l. ground (
    arith,
    ==_iff (task_key r) k,
    lookup-remove (task_key r) k s.execution_leases,
    v.numbered k l,
  );
  executable = λ k l. simp lookup-insert (
      ground (
        arith,
        ==_iff (task_key r) k,
        lookup-remove (task_key r) k s.execution_leases,
        v.executable k l,
      ));
  indexed = λ d k. simp lookup-insert (ground (arith, ==_iff (task_key r) k, v.indexed d k));
  keyed = λ k x. simp lookup-insert (ground (arith, ==_iff (task_key r) k, v.keyed k x));
}

granted-Inv :
    (key : Key) (lease : TaskExecutionLease) (r : TaskRecord) (s : Store)
    → lease_key lease ≡ key
    → lease.attempt ≡ attempts key s + 1
    → lookup key s.records ≡ some r
    → is_executable r.task.state ≡ true
    → Inv s
    → Inv (grant lease s)
unfolding grant executable_task
granted-Inv key lease r s k a e x v = record {
  numbered = λ j l. simp dict_laws (ground (arith, ==_iff (lease_key lease) j, v.numbered j l));
  executable = λ j l. simp dict_laws (ground (arith, ==_iff (lease_key lease) j, v.executable j l));
  indexed = v.indexed;
  keyed = v.keyed;
}

prolonged-Inv :
    (key : Key) (active : TaskExecutionLease) (until : ℕ) (s : Store)
    → lookup key s.execution_leases ≡ some active
    → Inv s
    → Inv (record s {
      execution_leases = insert key (record active { lease_until = until }) s.execution_leases;
    })
prolonged-Inv key active until s e v = record {
  numbered =
      λ j l. simp dict_laws (ground (arith, ==_iff key j, v.numbered j l, v.numbered key active));
  executable = λ j l.
      simp dict_laws (ground (arith, ==_iff key j, v.executable j l, v.executable key active));
  indexed = v.indexed;
  keyed = v.keyed;
}

dropped-Inv :
    (key : Key) (s : Store)
    → Inv s
    → Inv (record s { execution_leases = remove key s.execution_leases })
dropped-Inv key s v = record {
  numbered = λ j l. simp dict_laws (ground (arith, v.numbered j l));
  executable = λ j l. simp dict_laws (ground (arith, v.executable j l));
  indexed = v.indexed;
  keyed = v.keyed;
}

-- Every change of the store keeps the invariant.
pub Step-Inv : {s t : Store} → Step s t → Inv s → Inv t
unfolding new_lease
Step-Inv (stay e) v = rw e v
Step-Inv {s} (inserted r _ e p) v = rw p (inserted-Inv r s e v)
Step-Inv {s} (written r c e _ p) v = rw p (written-Inv r c s e v)
Step-Inv {s} (granted key owner seconds now c e x _ p) v =
    rw p
      (granted-Inv key (new_lease key owner seconds now (attempts key s + 1)) c s refl refl e x v)
Step-Inv {s} (prolonged key a u e p) v = rw p (prolonged-Inv key a u s e v)
Step-Inv {s} (dropped key p) v = rw p (dropped-Inv key s v)

-- From a state that satisfies the invariant, as the empty store does, every history of calls keeps
-- it: a held lease carries the latest attempt number of its key and belongs to a task that is
-- submitted or working, the dispatch index points at tasks, and each task stands under its own key.
pub run-Inv : (s : Store) (calls : List Call) → Inv s → Inv (run s calls)
run-Inv = run_induction Inv (λ s t st. Step-Inv st)
