-- ===== src/A2a/TaskStore/Dispatch.antt =====
-- Dispatches are delivered once, listings stay inside their tenant, and waiters see progress.
use route_pilot.Common.{
  subst, sym, ◌≡◌, inl, inr, Bool, true, false, Option, none, some, List, arith, if◌then◌else◌,
  is_some, Option-cases, ◌∙◌,
}
use route_pilot.Common.Eq.{◌==◌, ==_refl, text_equality, triple_eq, number_equality}
use route_pilot.Common.Dict.{lookup, lookup-insert}
use route_pilot.Common.Exec.{Result, ok, err}
use route_pilot.A2a.TaskStore.Types.{
  TaskRecord, Key, Store, StoreError, task_key, dispatch_key, dispatch_conflict, key_error,
}
use route_pilot.A2a.TaskStore.Steps.{Call, run}
use route_pilot.A2a.TaskStore.Invariant.{Inv, run-Inv}
use route_pilot.A2a.TaskStore.Progress.{dispatch-run}
use route_pilot.A2a.TaskStore.Methods.{create_or_get, insert_task}

-- The reply to a dispatch that the store has seen.
abbrev pub repeated : Option TaskRecord → TaskRecord → Result StoreError (TaskRecord × Bool)
repeated none r = err key_error
repeated (some existing) r =
    if existing.request_fingerprint == r.request_fingerprint
    then ok (existing, false)
    else err dispatch_conflict

create-inserted :
    (s t : Store) (r x : TaskRecord) (created : Bool)
    → create_or_get r s ≡ (ok (x, created), t)
    → lookup (dispatch_key r) s.dispatch_index ≡ none
    → (t ≡ insert_task r s) × (x ≡ r)
unfolding create_or_get
create-inserted s t r x created h e = ground arith

lookups-insert_task :
    (r : TaskRecord) (s : Store)
    → (lookup (dispatch_key r) (insert_task r s).dispatch_index ≡ some (task_key r))
      × (lookup (task_key r) (insert_task r s).records ≡ some r)
unfolding insert_task
lookups-insert_task r s = (rw lookup-insert (rw ==_refl), rw lookup-insert (rw ==_refl))

create-known :
    (s : Store) (r : TaskRecord) (k : Key)
    → lookup (dispatch_key r) s.dispatch_index ≡ some k
    → create_or_get r s ≡ (repeated (lookup k s.records) r, s)
unfolding create_or_get
create-known s r k e = ground arith

create-indexed :
    (s t : Store) (r x : TaskRecord) (created : Bool)
    → create_or_get r s ≡ (ok (x, created), t)
    → (k : Key) × (lookup (dispatch_key r) t.dispatch_index ≡ some k)
      × (lookup k t.records ≡ some x)
unfolding create_or_get
create-indexed s t r x created h = elim (Option-cases (lookup (dispatch_key r) s.dispatch_index)) [
  | inr (k, e) ↦ (k, ground arith, ground arith)
  | inl e ↦
      let (became, same) = create-inserted s t r x created h e in
      let (index, stored) = lookups-insert_task r s in
      (task_key r, rw became index, rw (became, same) stored)
]

create-fingerprint :
    (s t : Store) (r x : TaskRecord) (created : Bool)
    → create_or_get r s ≡ (ok (x, created), t)
    → (x.request_fingerprint == r.request_fingerprint) ≡ true
unfolding create_or_get
create-fingerprint s t r x created h = ground (arith, ==_refl r.request_fingerprint)

-- Each dispatch creates one task: after a call has created or found the task of a dispatch in a store
-- with the invariant Inv, and whatever calls follow, a call with the same dispatch key changes nothing
-- and is answered from that task, which is still there: by the task if the request's fingerprint is
-- the task's, and by a conflict if it is not.
pub create_or_get_once :
    (s t : Store) (r x : TaskRecord) (created : Bool)
    → create_or_get r s ≡ (ok (x, created), t)
    → Inv t
    → (calls : List Call) (q : TaskRecord) → dispatch_key q ≡ dispatch_key r
    → let u = run t calls in
      (is_some (lookup (task_key x) u.records) ≡ true)
      × (create_or_get q u ≡ (repeated (lookup (task_key x) u.records) q, u))
create_or_get_once s t r x created h v calls q same =
    let (k, index, stored) = create-indexed s t r x created h in
    let kept = dispatch-run k (dispatch_key r) t calls index in
    let u = run t calls in
    subst
      (λ j.
        (is_some (lookup j u.records) ≡ true)
        × (create_or_get q u ≡ (repeated (lookup j u.records) q, u)))
      (sym (v.keyed k x stored))
      ((run-Inv t calls v).indexed (dispatch_key r) k kept, create-known u q k (rw same kept))

-- A retry of the same request returns the same task, says that it was not created now, and changes
-- nothing.
pub create_or_get_retry :
    (s t : Store) (r x : TaskRecord) (created : Bool)
    → create_or_get r s ≡ (ok (x, created), t)
    → create_or_get r t ≡ (ok (x, false), t)
create_or_get_retry s t r x created h =
    let (k, index, stored) = create-indexed s t r x created h in
    create-known t r k index ∙ rw stored (rw (create-fingerprint s t r x created h))
