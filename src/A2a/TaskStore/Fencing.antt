-- ===== src/A2a/TaskStore/Fencing.antt =====
-- Execution leases as fencing tokens, and the versions of a task as a compare-and-swap register.
use route_pilot.Common.{
  ℕ, ◌+◌, ◌<◌, String, ◌≡◌, ◌≢◌, ◌⊎◌, inl, inr, refl, false, Option, none, some, List, arith, ◌∙◌,
  ap, subst, sym, suc, Option-cases,
}
use route_pilot.Common.Eq.{==_iff, ==_refl, text_equality, triple_eq}
use route_pilot.Common.Dict.{lookup, lookup-insert}
use route_pilot.Common.Exec.{ok, err}
use route_pilot.A2a.TaskStore.Types.{
  TaskRecord, TaskExecutionLease, Key, Store, task_key, lease_key, lease_lost, task_missing,
}
use route_pilot.A2a.TaskStore.Steps.{Call, run}
use route_pilot.A2a.TaskStore.Invariant.{Inv, run-Inv}
use route_pilot.A2a.TaskStore.Progress.{attempts-run-le, version_at-run-le, version_at}
use route_pilot.A2a.TaskStore.Methods.{
  attempts, owns, same_fence, replace, claim_execution, renew_execution, release_execution,
  new_lease, grant, write_task,
}

-- A lease with an older attempt number passes no fence.
stale-owns :
    (k : Key) (s : Store) (l : TaskExecutionLease) (now : ℕ)
    → Inv s
    → l.attempt < attempts k s
    → owns (lookup k s.execution_leases) l now ≡ false
unfolding owns
stale-owns k s l now v h = elim (Option-cases (lookup k s.execution_leases)) [
  | inl e ↦ ground (arith, e)
  | inr (a, e) ↦ ground (arith, e, v.numbered k a e)
]

stale-same_fence :
    (k : Key) (s : Store) (l : TaskExecutionLease)
    → Inv s
    → l.attempt < attempts k s
    → same_fence (lookup k s.execution_leases) l ≡ false
unfolding same_fence
stale-same_fence k s l v h = elim (Option-cases (lookup k s.execution_leases)) [
  | inl e ↦ ground (arith, e)
  | inr (a, e) ↦ ground (arith, e, v.numbered k a e)
]

replace-stale :
    (s : Store) (l : TaskExecutionLease) (r : TaskRecord) (expected now : ℕ)
    → owns (lookup (task_key r) s.execution_leases) l now ≡ false
    → (replace r expected (some l) now s ≡ (err lease_lost, s))
      ⊎ (replace r expected (some l) now s ≡ (err task_missing, s))
unfolding replace
replace-stale s l r expected now o = elim (Option-cases (lookup (task_key r) s.records)) [
  | inl e ↦ inr (ground arith)
  | inr (c, e) ↦ inl (ground arith)
]

renew-stale :
    (s : Store) (l : TaskExecutionLease) (seconds now : ℕ)
    → owns (lookup (lease_key l) s.execution_leases) l now ≡ false
    → renew_execution l seconds now s ≡ (ok none, s)
unfolding renew_execution
renew-stale s l seconds now o = ground arith

release-stale :
    (s : Store) (l : TaskExecutionLease)
    → same_fence (lookup (lease_key l) s.execution_leases) l ≡ false
    → release_execution l s ≡ (ok tt, s)
unfolding release_execution
release-stale s l o = ground arith

-- From a store with the invariant Inv in which a newer attempt on a lease's task has been granted, and
-- whatever calls follow, a write under the old lease raises (the lease is lost, or the task is
-- missing), its renewal returns nothing, its release does nothing, and none of the three changes the
-- store.
pub stale_lease_fenced :
    (s : Store) (l : TaskExecutionLease) (calls : List Call) (r : TaskRecord)
    (expected seconds now : ℕ)
    → Inv s
    → task_key r ≡ lease_key l
    → l.attempt < attempts (lease_key l) s
    → let t = run s calls in
      ((replace r expected (some l) now t ≡ (err lease_lost, t))
        ⊎ (replace r expected (some l) now t ≡ (err task_missing, t)))
      × (renew_execution l seconds now t ≡ (ok none, t))
      × (release_execution l t ≡ (ok tt, t))
stale_lease_fenced s l calls r expected seconds now v e h =
    let t = run s calls in
    let w = run-Inv s calls v in
    let old = attempts-run-le (lease_key l) (suc l.attempt) s calls h in
    let refused = stale-owns (lease_key l) t l now w old in
    (
      replace-stale t l r expected now
          (subst (λ k. owns (lookup k t.execution_leases) l now ≡ false) (sym e) refused),
      renew-stale t l seconds now refused,
      release-stale t l (stale-same_fence (lease_key l) t l w old),
    )

claim-granted :
    (s t : Store) (key : Key) (owner : String) (seconds now : ℕ) (l : TaskExecutionLease)
    → claim_execution key owner seconds now s ≡ (ok (some l), t)
    → (l ≡ new_lease key owner seconds now (attempts key s + 1))
      × (t ≡ grant l s)
      × (c : TaskRecord) × (lookup key t.records ≡ some c)
unfolding claim_execution
claim-granted s t key owner seconds now l h = elim (Option-cases (lookup key s.records)) [
  | inl e ↦ absurd (ground arith)
  | inr (c, e) ↦ (ground arith, ground arith, c, ground arith)
]

attempts-granted :
    (s t : Store) (key : Key) (l : TaskExecutionLease)
    → lease_key l ≡ key
    → t ≡ grant l s
    → attempts key t ≡ l.attempt
unfolding grant
attempts-granted s t key l e p = rw (p, lookup-insert) (ground (arith, ==_iff (lease_key l) key))

lease-granted :
    (s t : Store) (key : Key) (l : TaskExecutionLease)
    → lease_key l ≡ key
    → t ≡ grant l s
    → lookup key t.execution_leases ≡ some l
unfolding grant
lease-granted s t key l e p = rw (p, lookup-insert) (ground (arith, ==_iff (lease_key l) key))

claim-held :
    (t : Store) (key : Key) (owner : String) (seconds now : ℕ) (l : TaskExecutionLease)
    (c : TaskRecord)
    → lookup key t.records ≡ some c
    → lookup key t.execution_leases ≡ some l
    → now < l.lease_until
    → claim_execution key owner seconds now t ≡ (ok none, t)
unfolding claim_execution
claim-held t key owner seconds now l c e h early = ground arith

lease_key-new_lease :
    (key : Key) (owner : String) (seconds now n : ℕ)
    → lease_key (new_lease key owner seconds now n) ≡ key
unfolding new_lease
lease_key-new_lease key owner seconds now n = refl

attempt-new_lease :
    (key : Key) (owner : String) (seconds now n : ℕ)
    → (new_lease key owner seconds now n).attempt ≡ n
unfolding new_lease
attempt-new_lease key owner seconds now n = refl

-- A claim that returns a lease numbers it one above every earlier attempt on the task, so that each
-- lease held before it is stale from then on; and no other claim succeeds on the state that it leaves
-- at a time before the new lease runs out.
pub claim_execution_lem :
    (s t : Store) (key : Key) (owner other : String) (seconds now length later : ℕ)
    (l : TaskExecutionLease)
    → claim_execution key owner seconds now s ≡ (ok (some l), t)
    → later < l.lease_until
    → (l.attempt ≡ attempts key s + 1)
      × (attempts key t ≡ l.attempt)
      × (lookup key t.execution_leases ≡ some l)
      × (claim_execution key other length later t ≡ (ok none, t))
claim_execution_lem s t key owner other seconds now length later l h early =
    let (made, became, c, stored) = claim-granted s t key owner seconds now l h in
    let same_key = ap lease_key made ∙ lease_key-new_lease key owner seconds now _ in
    let held = lease-granted s t key l same_key became in
    (
      ap (λ (x : TaskExecutionLease). x.attempt) made ∙ attempt-new_lease key owner seconds now _,
      attempts-granted s t key l same_key became,
      held,
      claim-held t key other length later l c stored held early,
    )

replace-written :
    (s t : Store) (r x : TaskRecord) (expected now : ℕ) (lease : Option TaskExecutionLease)
    → replace r expected lease now s ≡ (ok x, t)
    → (r.version ≡ expected + 1) × (t ≡ write_task r s) × (version_at (task_key r) s ≡ expected)
unfolding replace
replace-written s t r x expected now lease h = elim (Option-cases (lookup (task_key r) s.records)) [
  | inl e ↦ absurd (ground arith)
  | inr (c, e) ↦ (ground arith, ground arith, ground arith)
]

version_at-written :
    (r : TaskRecord) (s : Store) → version_at (task_key r) (write_task r s) ≡ r.version
unfolding write_task
version_at-written r s = rw lookup-insert (rw ==_refl)

-- Each version of a task is written once: after a successful replacement of version `expected`, and
-- whatever calls follow, no replacement of the same version of that task succeeds.
pub replace_once :
    (s t : Store) (r x : TaskRecord) (expected now : ℕ) (lease : Option TaskExecutionLease)
    → replace r expected lease now s ≡ (ok x, t)
    → (calls : List Call) (q y : TaskRecord) (later : ℕ) (other : Option TaskExecutionLease)
      (u : Store)
    → task_key q ≡ task_key r
    → replace q expected other later (run t calls) ≢ (ok y, u)
replace_once s t r x expected now lease h calls q y later other u same again =
    let (next, became, _) = replace-written s t r x expected now lease h in
    let reached : version_at (task_key r) t ≡ expected + 1 =
      rw (became, version_at-written r s) next in
    let grown = version_at-run-le (task_key r) (expected + 1) t calls (omega arith) in
    let found = (replace-written (run t calls) u q y expected later other again).2 in
    let there : version_at (task_key r) (run t calls) ≡ expected =
      subst (λ k. version_at k (run t calls) ≡ expected) same found in
    absurd (omega arith)
