-- ===== src/A2a/TaskStore/Steps.antt =====
-- The changes that the methods of InMemoryAgentTaskStore make, as a relation on its states.
use route_pilot.Common.{
  ℕ, ◌+◌, String, ◌≡◌, true, false, ◌&&◌, Option, none, some, List, [], ◌∷◌, arith, inl, inr, eqb,
  Bool-cases, Option-cases,
}
use route_pilot.Common.Eq.{text_equality, triple_eq}
use route_pilot.Common.Dict.{lookup, insert, remove}
use route_pilot.A2a.TaskStore.Types.{
  TaskRecord, TaskExecutionLease, Key, Store, task_key, dispatch_key, lease_key, is_executable,
  lease_duration,
}
use route_pilot.A2a.TaskStore.Methods.{
  create_or_get, replace, claim_execution, renew_execution, release_execution, attempts, is_held,
  insert_task, write_task, grant, new_lease, owns, same_fence, lease_passes, executable_task,
}

pub data Step (s t : Store) : Type 0 where
  stay : t ≡ s → Step s t
  inserted :
      (r : TaskRecord)
      → lookup (dispatch_key r) s.dispatch_index ≡ none
      → lookup (task_key r) s.records ≡ none
      → t ≡ insert_task r s
      → Step s t
  written :
      (r current : TaskRecord)
      → lookup (task_key r) s.records ≡ some current
      → r.version ≡ current.version + 1
      → t ≡ write_task r s
      → Step s t
  granted :
      (key : Key) (owner : String) (seconds now : ℕ) (current : TaskRecord)
      → lookup key s.records ≡ some current
      → is_executable current.task.state ≡ true
      → is_held (lookup key s.execution_leases) now ≡ false
      → t ≡ grant (new_lease key owner seconds now (attempts key s + 1)) s
      → Step s t
  prolonged :
      (key : Key) (active : TaskExecutionLease) (until : ℕ)
      → lookup key s.execution_leases ≡ some active
      → t ≡ record s {
        execution_leases = insert key (record active { lease_until = until }) s.execution_leases;
      }
      → Step s t
  dropped :
      (key : Key) → t ≡ record s { execution_leases = remove key s.execution_leases } → Step s t

module _ (s : Store) where
  pub create_or_get-Step : (r : TaskRecord) → Step s (create_or_get r s).1
  unfolding create_or_get
  create_or_get-Step r = elim (Option-cases (lookup (dispatch_key r) s.dispatch_index)) [
    | inr (k, e) ↦ stay (ground arith)
    | inl e ↦ elim (Option-cases (lookup (task_key r) s.records)) [
      | inl e' ↦ inserted r e e' (ground arith)
      | inr (_, e') ↦ stay (ground arith)
    ]
  ]

  pub claim_execution-Step :
      (key : Key) (owner : String) (seconds now : ℕ)
      → Step s (claim_execution key owner seconds now s).1
  unfolding claim_execution
  claim_execution-Step key owner seconds now = elim (Option-cases (lookup key s.records)) [
    | inl e ↦ stay (ground arith)
    | inr (r, e) ↦ elim (Bool-cases (is_held (lookup key s.execution_leases) now)) [
      | inl h ↦ stay (ground arith)
      | inr h ↦ elim (Bool-cases (is_executable r.task.state)) [
        | inl x ↦ granted key owner seconds now r e x h (ground arith)
        | inr x ↦ stay (ground arith)
      ]
    ]
  ]

  pub renew_execution-Step :
      (lease : TaskExecutionLease) (seconds now : ℕ)
      → Step s (renew_execution lease seconds now s).1
  unfolding renew_execution
  renew_execution-Step lease seconds now =
      elim (Option-cases (lookup (lease_key lease) s.execution_leases)) [
        | inl e ↦ stay (ground arith)
        | inr (active, e) ↦
            elim (Bool-cases (
              executable_task (lookup (lease_key lease) s.records)
              && owns (some active) lease now)) [
                | inl h ↦
                    prolonged (lease_key lease) active (now + lease_duration seconds) e
                      (ground arith)
                | inr h ↦ stay (ground arith)
              ]
      ]

  pub release_execution-Step : (lease : TaskExecutionLease) → Step s (release_execution lease s).1
  unfolding release_execution
  release_execution-Step lease =
      elim (Bool-cases (same_fence (lookup (lease_key lease) s.execution_leases) lease)) [
        | inl h ↦ dropped (lease_key lease) (ground arith)
        | inr h ↦ stay (ground arith)
      ]

  pub replace-Step :
      (r : TaskRecord) (expected : ℕ) (lease : Option TaskExecutionLease) (now : ℕ)
      → Step s (replace r expected lease now s).1
  unfolding replace
  replace-Step r expected lease now = elim (Option-cases (lookup (task_key r) s.records)) [
    | inl e ↦ stay (ground arith)
    | inr (current, e) ↦
        elim (Bool-cases (lease_passes lease (lookup (task_key r) s.execution_leases) now)) [
          | inr h ↦ stay (ground arith)
          | inl h ↦
              elim (Bool-cases (eqb current.version expected && eqb r.version (expected + 1))) [
                | inr h' ↦ stay (ground arith)
                | inl h' ↦ written r current e (ground arith) (ground arith)
              ]
        ]
  ]

-- The calls that a client makes.
pub data Call : Type 0 where
  creates : TaskRecord → Call
  replaces : TaskRecord → ℕ → Option TaskExecutionLease → ℕ → Call
  claims : Key → String → ℕ → ℕ → Call
  renews : TaskExecutionLease → ℕ → ℕ → Call
  releases : TaskExecutionLease → Call

unfoldable pub after_call : Call → Store → Store
after_call (creates r) s = (create_or_get r s).1
after_call (replaces r expected lease now) s = (replace r expected lease now s).1
after_call (claims key owner seconds now) s = (claim_execution key owner seconds now s).1
after_call (renews lease seconds now) s = (renew_execution lease seconds now s).1
after_call (releases lease) s = (release_execution lease s).1

unfoldable pub run : Store → List Call → Store
run s [] = s
run s (c ∷ cs) = run (after_call c s) cs

pub after_call-Step : (c : Call) (s : Store) → Step s (after_call c s)
unfolding after_call
after_call-Step (creates r) s = create_or_get-Step s r
after_call-Step (replaces r expected lease now) s = replace-Step s r expected lease now
after_call-Step (claims key owner seconds now) s = claim_execution-Step s key owner seconds now
after_call-Step (renews lease seconds now) s = renew_execution-Step s lease seconds now
after_call-Step (releases lease) s = release_execution-Step s lease

-- What every change keeps, every history keeps.
pub run_induction :
    (P : Store → Type 0)
    → ((s t : Store) → Step s t → P s → P t)
    → (s : Store) (calls : List Call) → P s
    → P (run s calls)
unfolding run
run_induction P step s [] h = h
run_induction P step s (c ∷ cs) h =
    run_induction P step (after_call c s) cs (step s (after_call c s) (after_call-Step c s) h)
