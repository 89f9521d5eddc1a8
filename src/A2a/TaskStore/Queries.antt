-- ===== src/A2a/TaskStore/Queries.antt =====
-- Listings of InMemoryAgentTaskStore stay inside their tenant, and waiters see progress.
use mathlib.Core.List.Perm
use mathlib.Core.List.{Perm}
use route_pilot.Common.{
  ℕ, ◌<◌, ◌≤◌, subst, String, ◌≡◌, ◌⊎◌, inl, inr, refl, Bool, ◌&&◌, Option, none, some, List, [],
  ◌∷◌, arith, Option-cases, All, keep, ◌↔◌,
}
use route_pilot.Common.Eq.{◌==◌, text_equality, triple_eq, number_equality}
use route_pilot.Common.Dict.{Dict, lookup, values, Entries, Entries-insert}
use route_pilot.Common.Sort.{sorted, sorted-perm}
use route_pilot.Common.Exec.{Result, ok, err}
use route_pilot.A2a.TaskStore.Types.{
  TaskRecord, Key, Store, StoreError, task_missing, init, task_key,
}
use route_pilot.A2a.TaskStore.Steps.{
  Step, Call, run, run_induction, stay, inserted, written, granted, prolonged, dropped,
}
use route_pilot.A2a.TaskStore.Methods.{
  has_changed, wait_for_change, passes, listed_task, of_run, listed_before, list_tasks,
  list_for_run, insert_task, write_task, grant,
}

-- A task that was found is in a later version.
abbrev pub IsNews : ℕ → Result StoreError (Option TaskRecord) → Type 0
IsNews after (ok (some r)) = after < r.version
IsNews after _ = Unit {0}

result-IsNews :
    (after : ℕ) (result : Result StoreError (Option TaskRecord))
    → ((r : TaskRecord) → result ≡ ok (some r) → after < r.version)
    → IsNews after result
result-IsNews after (ok (some r)) h = h r refl
result-IsNews after (ok none) h = tt
result-IsNews after (err e) h = tt

-- The task is there, in no version after the one named.
abbrev pub IsQuiet : ℕ → Option TaskRecord → Type 0
IsQuiet after none = ⊥
IsQuiet after (some r) = r.version ≤ after

module _ (key : Key) (after : ℕ) where
  wait-news :
      (states : List Store) (r : TaskRecord)
      → wait_for_change key after states ≡ ok (some r)
      → after < r.version
  unfolding wait_for_change
  wait-news [] r h = absurd (ground arith)
  wait-news (s ∷ later) r h = elim (Option-cases (lookup key s.records)) [
    | inl e ↦ absurd (ground arith)
    | inr (x, e) ↦ ground (arith, wait-news later r)
  ]

  wait-IsQuiet :
      (states : List Store)
      → wait_for_change key after states ≡ ok none
      → All (λ s. IsQuiet after (lookup key s.records)) states
  unfolding wait_for_change has_changed
  wait-IsQuiet [] h = tt
  wait-IsQuiet (s ∷ later) h = elim (Option-cases (lookup key s.records)) [
    | inl e ↦ absurd (ground (arith, e))
    | inr (x, e) ↦ (rw e (ground (arith, e)), wait-IsQuiet later (ground (arith, e)))
  ]

  quiet-wait :
      (states : List Store)
      → All (λ s. IsQuiet after (lookup key s.records)) states
      → wait_for_change key after states ≡ ok none
  unfolding wait_for_change has_changed
  quiet-wait [] h = refl
  quiet-wait (s ∷ later) (h, hs) = elim (Option-cases (lookup key s.records)) [
    | inl e ↦ absurd (subst (IsQuiet after) e h)
    | inr (x, e) ↦
        let quiet : x.version ≤ after = subst (IsQuiet after) e h in
        ground (arith, e, quiet, quiet-wait later hs)
  ]

  -- At one of the states the task is not there.
  abbrev pub LacksTask : List Store → Type 0
  LacksTask [] = ⊥
  LacksTask (s ∷ later) = (lookup key s.records ≡ none) ⊎ LacksTask later

  wait-LacksTask :
      (states : List Store) (e : StoreError)
      → wait_for_change key after states ≡ err e
      → (e ≡ task_missing) × LacksTask states
  unfolding wait_for_change has_changed
  wait-LacksTask [] e h = absurd (ground arith)
  wait-LacksTask (s ∷ later) e h = elim (Option-cases (lookup key s.records)) [
    | inl n ↦ (ground (arith, n), inl n)
    | inr (x, n) ↦
        let (missing, lacks) = wait-LacksTask later e (ground (arith, n)) in (missing, inr lacks)
  ]

  found-IsNews : (states : List Store) → IsNews after (wait_for_change key after states)
  found-IsNews states = result-IsNews after (wait_for_change key after states) (wait-news states)

  -- A waiter that gets a task gets a version later than the one it named, and it times out exactly
  -- when, at every evaluation of its predicate, the task is there and its version is no later one.
  -- It raises only that the task is missing, and only if it was.
  pub wait_for_change_lem :
      (states : List Store)
      → IsNews after (wait_for_change key after states)
        × ((wait_for_change key after states ≡ ok none)
            ↔ All (λ s. IsQuiet after (lookup key s.records)) states)
        × ((e : StoreError)
            → wait_for_change key after states ≡ err e
            → (e ≡ task_missing) × LacksTask states)
  wait_for_change_lem states =
      (found-IsNews states, (wait-IsQuiet states, quiet-wait states), wait-LacksTask states)

abbrev pub IsKeyed : Store → Type 0
IsKeyed s = Entries (λ k r. task_key r ≡ k) s.records

Step-IsKeyed : (s t : Store) → Step s t → IsKeyed s → IsKeyed t
unfolding insert_task write_task grant
Step-IsKeyed s t (stay e) h = rw e h
Step-IsKeyed s t (inserted r _ e p) h = rw p (Entries-insert _ (task_key r) r s.records refl h)
Step-IsKeyed s t (written r c e _ p) h = rw p (Entries-insert _ (task_key r) r s.records refl h)
Step-IsKeyed s t (granted key owner seconds now c e x _ p) h = rw p h
Step-IsKeyed s t (prolonged key a u e p) h = rw p h
Step-IsKeyed s t (dropped key p) h = rw p h

pub run-IsKeyed : (s : Store) (calls : List Call) → IsKeyed s → IsKeyed (run s calls)
run-IsKeyed = run_induction IsKeyed Step-IsKeyed

-- A filter on keys and tasks, read off the task alone.
own_tasks :
    (p : Key × TaskRecord → Bool) (m : Dict Key TaskRecord)
    → Entries (λ k r. task_key r ≡ k) m
    → values (keep p m) ≡ keep (λ r. p (task_key r, r)) (values m)
unfolding keep values
own_tasks p [] h = refl
own_tasks p ((k, r) ∷ m) h = ground (arith, own_tasks p m h.1)

-- The tests of the two listings on the task's own fields.
abbrev pub belongs : String → String → Option String → Option ℕ → TaskRecord → Bool
belongs tenant interface context state r =
    r.tenant_id == tenant
    && r.agent_interface_id == interface
    && passes context r.task.context_id
    && passes state r.task.state

abbrev pub runs : String → String → TaskRecord → Bool
runs tenant run r = r.tenant_id == tenant && r.run_id == run

abbrev pub Lists :
    Store → (Store → Result StoreError (List TaskRecord) × Store) → (TaskRecord → Bool) → Type 0
Lists s m p = (xs : List TaskRecord) × (m s ≡ (ok xs, s)) × Perm xs (keep p (values s.records))

-- After any history from the empty store, each listing returns, in some order, exactly the stored
-- tasks whose own tenant is the one asked for and that pass the other filters, each once, and
-- changes nothing.
pub listings_isolated :
    (calls : List Call) (tenant interface of : String) (context : Option String) (state : Option ℕ)
    → let s = run init calls in
      Lists s (list_tasks tenant interface context state) (belongs tenant interface context state)
      × Lists s (list_for_run tenant of) (runs tenant of)
unfolding list_tasks list_for_run
listings_isolated calls tenant interface of context state =
    let s = run init calls in
    let keyed = run-IsKeyed init calls tt in
    (
      (
        sorted listed_before (values (keep (listed_task tenant interface context state) s.records)),
        refl,
        Perm.trans (sorted-perm listed_before _) (rw (own_tasks _ s.records keyed) (Perm.refl _)),
      ),
      (
        sorted listed_before (values (keep (of_run tenant of) s.records)),
        refl,
        Perm.trans (sorted-perm listed_before _) (rw (own_tasks _ s.records keyed) (Perm.refl _)),
      ),
    )
