-- ===== src/A2a/TaskStore/Progress.antt =====
-- What only grows over a history of InMemoryAgentTaskStore: attempt numbers, versions and the
-- dispatch index.
use route_pilot.Common.{ℕ, ◌≤◌, ◌≡◌, Option, none, some, List, arith}
use route_pilot.Common.Eq.{==_iff, text_equality, triple_eq}
use route_pilot.Common.Dict.{lookup, dict_laws}
use route_pilot.A2a.TaskStore.Types.{TaskRecord, Key, Store, task_key, dispatch_key}
use route_pilot.A2a.TaskStore.Steps.{
  Step, Call, run, run_induction, stay, inserted, written, granted, prolonged, dropped,
}
use route_pilot.A2a.TaskStore.Methods.{attempts, insert_task, write_task, grant, new_lease}

-- The version that a key has reached; 0 where there is no task.
abbrev pub version_of : Option TaskRecord → ℕ
version_of none = 0
version_of (some r) = r.version

abbrev pub version_at : Key → Store → ℕ
version_at k s = version_of (lookup k s.records)

module _ (k : Key) where
  attempts-Step-le : (s t : Store) → Step s t → attempts k s ≤ attempts k t
  unfolding insert_task write_task grant new_lease
  attempts-Step-le s t (stay e) = rw e (omega arith)
  attempts-Step-le s t (inserted r _ e p) = rw p (omega arith)
  attempts-Step-le s t (written r c e _ p) = rw p (omega arith)
  attempts-Step-le s t (granted key owner seconds now c e x _ p) =
      rw p (simp dict_laws (ground (arith, ==_iff key k)))
  attempts-Step-le s t (prolonged key a u e p) = rw p (omega arith)
  attempts-Step-le s t (dropped key p) = rw p (omega arith)

  -- Attempt numbers never fall.
  pub attempts-run-le :
      (n : ℕ) (s : Store) (calls : List Call) → n ≤ attempts k s → n ≤ attempts k (run s calls)
  attempts-run-le n =
      run_induction (λ s. n ≤ attempts k s) (λ s t st h. omega (arith, attempts-Step-le s t st))

  version_at-Step-le : (s t : Store) → Step s t → version_at k s ≤ version_at k t
  unfolding insert_task write_task grant new_lease
  version_at-Step-le s t (stay e) = rw e (omega arith)
  version_at-Step-le s t (inserted r _ e p) =
      rw p (simp dict_laws (ground (arith, ==_iff (task_key r) k)))
  version_at-Step-le s t (written r c e n p) =
      rw p (simp dict_laws (ground (arith, ==_iff (task_key r) k)))
  version_at-Step-le s t (granted key owner seconds now c e x _ p) = rw p (omega arith)
  version_at-Step-le s t (prolonged key a u e p) = rw p (omega arith)
  version_at-Step-le s t (dropped key p) = rw p (omega arith)

  -- Versions never fall.
  pub version_at-run-le :
      (n : ℕ) (s : Store) (calls : List Call) → n ≤ version_at k s → n ≤ version_at k (run s calls)
  version_at-run-le n =
      run_induction (λ s. n ≤ version_at k s) (λ s t st h. omega (arith, version_at-Step-le s t st))

  dispatch-Step :
      (d : Key) (s t : Store)
      → Step s t
      → lookup d s.dispatch_index ≡ some k
      → lookup d t.dispatch_index ≡ some k
  unfolding insert_task write_task grant new_lease
  dispatch-Step d s t (stay e) h = rw e h
  dispatch-Step d s t (inserted r n _ p) h =
      rw p (simp dict_laws (ground (arith, ==_iff (dispatch_key r) d)))
  dispatch-Step d s t (written r c e n p) h = rw p h
  dispatch-Step d s t (granted key owner seconds now c e x _ p) h = rw p h
  dispatch-Step d s t (prolonged key a u e p) h = rw p h
  dispatch-Step d s t (dropped key p) h = rw p h

  -- A dispatch keeps its task.
  pub dispatch-run :
      (d : Key) (s : Store) (calls : List Call)
      → lookup d s.dispatch_index ≡ some k
      → lookup d (run s calls).dispatch_index ≡ some k
  dispatch-run d = run_induction (λ s. lookup d s.dispatch_index ≡ some k) (dispatch-Step d)
