-- ===== src/A2a/TaskStore/Tests.antt =====
-- Runs of InMemoryAgentTaskStore on small inputs.
use route_pilot.Common.{
  ◌+◌, ◌≡◌, ◌≢◌, ◌⊎◌, refl, true, false, none, some, List, [], ◌∷◌, arith, is_some, ◌↔◌, All,
}
use route_pilot.Common.Eq.{text_equality, triple_eq, triple_beq}
use route_pilot.Common.Dict.{lookup, insert}
use route_pilot.Common.Exec.{ok, err}
use route_pilot.A2a.TaskStore.Types.{
  StoreError, task_missing, TaskRecord, TaskExecutionLease, Key, Store, init, lease_lost,
  task_missing,
}
use route_pilot.A2a.TaskStore.Steps.{Call, creates, claims, releases, run, after_call}
use route_pilot.A2a.TaskStore.Invariant.{Inv, init-Inv, run-Inv}
use route_pilot.A2a.TaskStore.Fencing.{stale_lease_fenced, claim_execution_lem, replace_once}
use route_pilot.A2a.TaskStore.Dispatch.{create_or_get_once, create_or_get_retry, repeated}
use route_pilot.A2a.TaskStore.Queries.{
  wait_for_change_lem, IsNews, IsQuiet, LacksTask, listings_isolated, Lists, belongs, runs,
}
use route_pilot.A2a.TaskStore.Methods.{
  create_or_get, replace, claim_execution, renew_execution, release_execution, attempts,
  wait_for_change, list_tasks, list_for_run,
}

abbrev submitted : TaskRecord
submitted = record {
  tenant_id = "acme";
  actor_id = "ann";
  agent_interface_id = "planner";
  run_id = "run_1";
  dispatch_id = "d1";
  request_fingerprint = "f1";
  task = record { id = "t1"; context_id = "c1"; state = 1; rest = "" };
  invocation = "{}";
  deadline = 900;
  reference_task_ids = [];
  version = 1;
  created_at = some 10;
  updated_at = none;
  pending_input_request_id = none;
  execution_input = none;
  message_fingerprints = [];
  events = [];
}

abbrev working : TaskRecord
working = record submitted {
  task = record { id = "t1"; context_id = "c1"; state = 2; rest = "" };
  version = 2;
}

abbrev key : Key
key = ("acme", "planner", "t1")

-- A worker claims for a minute at time 100 and is overtaken at 60000200.
abbrev overtaken : List Call
overtaken =
    creates submitted ∷ claims key "w1" 60_000_000 100 ∷ claims key "w2" 60_000_000 60_000_200 ∷ []

abbrev first : TaskExecutionLease
first = record {
  tenant_id = "acme";
  agent_interface_id = "planner";
  task_id = "t1";
  owner = "w1";
  attempt = 1;
  lease_until = 60_000_100;
}

overtaken_twice : attempts key (run init overtaken) ≡ 2
unfolding run after_call create_or_get claim_execution lookup insert triple_beq
overtaken_twice = refl

run-Inv_example : Inv (run init overtaken)
run-Inv_example = run-Inv init overtaken init-Inv

abbrev overtaken_store : Store
overtaken_store = run init overtaken

stale_lease_fenced_example :
    let t = run overtaken_store (releases first ∷ []) in
    ((replace working 1 (some first) 60_000_300 t ≡ (err lease_lost, t))
      ⊎ (replace working 1 (some first) 60_000_300 t ≡ (err task_missing, t)))
    × (renew_execution first 5 60_000_300 t ≡ (ok none, t))
    × (release_execution first t ≡ (ok tt, t))
stale_lease_fenced_example =
    stale_lease_fenced overtaken_store first (releases first ∷ []) working 1 5 60_000_300
      (run-Inv init overtaken init-Inv) refl (omega (arith, overtaken_twice))

abbrev created : Store
created = (create_or_get submitted init).1

first_claim :
    claim_execution key "w1" 60_000_000 100 created
    ≡ (ok (some first), (claim_execution key "w1" 60_000_000 100 created).1)
unfolding create_or_get claim_execution lookup insert triple_beq
first_claim = refl

claim_execution_lem_example :
    let t = (claim_execution key "w1" 60_000_000 100 created).1 in
    (first.attempt ≡ attempts key created + 1)
    × (attempts key t ≡ first.attempt)
    × (lookup key t.execution_leases ≡ some first)
    × (claim_execution key "w2" 60_000_000 200 t ≡ (ok none, t))
claim_execution_lem_example =
    claim_execution_lem created (claim_execution key "w1" 60_000_000 100 created).1 key "w1" "w2"
      60_000_000 100 60_000_000 200 first first_claim (omega arith)

abbrev replaced : Store
replaced = (replace working 1 none 200 created).1

first_replace : replace working 1 none 200 created ≡ (ok working, replaced)
unfolding create_or_get replace lookup insert triple_beq
first_replace = refl

replace_once_example :
    replace working 1 none 300 (run replaced (claims key "w1" 60_000_000 250 ∷ []))
    ≢ (ok working, replaced)
replace_once_example =
    replace_once created replaced working working 1 200 none first_replace
      (claims key "w1" 60_000_000 250 ∷ []) working working 300 none replaced refl

create_once : create_or_get submitted init ≡ (ok (submitted, true), created)
unfolding create_or_get lookup insert triple_beq
create_once = refl

created-Inv : Inv created
unfolding run after_call
created-Inv = run-Inv init (creates submitted ∷ []) init-Inv

create_or_get_once_example :
    let u = run created (claims key "w1" 60_000_000 100 ∷ []) in
    (is_some (lookup key u.records) ≡ true)
    × (create_or_get submitted u ≡ (repeated (lookup key u.records) submitted, u))
create_or_get_once_example =
    create_or_get_once init created submitted submitted true create_once created-Inv
      (claims key "w1" 60_000_000 100 ∷ []) submitted refl

create_or_get_retry_example : create_or_get submitted created ≡ (ok (submitted, false), created)
create_or_get_retry_example = create_or_get_retry init created submitted submitted true create_once

wait_for_change_lem_example :
    IsNews 1 (wait_for_change key 1 (created ∷ replaced ∷ []))
    × ((wait_for_change key 1 (created ∷ replaced ∷ []) ≡ ok none)
        ↔ All (λ s. IsQuiet 1 (lookup key s.records)) (created ∷ replaced ∷ []))
    × ((e : StoreError)
        → wait_for_change key 1 (created ∷ replaced ∷ []) ≡ err e
        → (e ≡ task_missing) × LacksTask key 1 (created ∷ replaced ∷ []))
wait_for_change_lem_example = wait_for_change_lem key 1 (created ∷ replaced ∷ [])

wait_woken : wait_for_change key 1 (created ∷ replaced ∷ []) ≡ ok (some working)
unfolding create_or_get replace lookup insert triple_beq wait_for_change
wait_woken = refl

listings_isolated_example :
    let s = run init overtaken in
    Lists s (list_tasks "acme" "planner" none (some 1)) (belongs "acme" "planner" none (some 1))
    × Lists s (list_for_run "acme" "run_1") (runs "acme" "run_1")
listings_isolated_example = listings_isolated overtaken "acme" "planner" "run_1" none (some 1)
