-- ===== src/Platform/Store/Leases.antt =====
-- Execution leases of InMemoryPlatformStore (backend/moyuan_web/v1/store.py). A duration is in
-- microseconds, and each reading of the clock is an argument.
use Prim.Native.String.{count}
use mathlib.Core.Option.{get_or}
use route_pilot.Common.{
  ℕ, ◌+◌, String, Bool, true, false, ◌&&◌, ◌||◌, not, Option, none, some, leb, eqb, if◌then◌else◌,
}
use route_pilot.Common.Eq.{text_equality}
use route_pilot.Common.Dict.{lookup, insert, remove}
use route_pilot.Common.Exec.{Result, ok, err, pure, raise, gets, modify, guard, reads, ◌>>=◌, ◌>>◌}
use route_pilot.Platform.Models.{Principal}
use route_pilot.Platform.Store.State.{
  RunExecutionLease, Store, StoreError, Method, value_error, run_locked, is_executable, is_held,
  same_fence, assert_execution_lease_locked,
}

-- 1 to 128 characters, and 0.05 to 3600 seconds.
unfoldable pub is_lease_request : String → ℕ → Bool
is_lease_request owner duration =
    not (eqb (count owner) 0)
    && leb (count owner) 128
    && leb 50_000 duration
    && leb duration 3_600_000_000

unfoldable pub validate_execution_lease_request : String → ℕ → Method (Unit {0})
unfolding is_lease_request
validate_execution_lease_request owner duration =
    guard (is_lease_request owner duration) value_error

abbrev pub attempts : String → Store → ℕ
attempts run_id s = get_or (lookup run_id s.execution_attempts) 0

unfoldable pub grant : RunExecutionLease → Store → Store
grant lease s = record s {
  execution_attempts = insert lease.run_id lease.attempt s.execution_attempts;
  execution_leases = insert lease.run_id lease s.execution_leases;
}

abbrev pub new_lease : String → String → ℕ → ℕ → RunExecutionLease
new_lease run_id owner attempt until = record {
  run_id = run_id;
  owner = owner;
  attempt = attempt;
  lease_until = until;
}

unfoldable pub claim_run_execution :
    Principal → String → String → ℕ → ℕ → Method (Option RunExecutionLease)
unfolding validate_execution_lease_request is_executable is_held grant
claim_run_execution p run_id owner duration now = do
  validate_execution_lease_request owner duration
  run ← reads (run_locked p run_id)
  held ← gets (λ s. is_held (lookup run_id s.execution_leases) now)
  if not (is_executable run.lifecycle_state) || held then pure none else do
    attempt ← gets (λ s. attempts run_id s + 1)
    let lease = new_lease run_id owner attempt (now + duration)
    modify (grant lease)
    pure (some lease)

unfoldable pub set_lease : RunExecutionLease → Store → Store
set_lease lease s = record s { execution_leases = insert lease.run_id lease s.execution_leases }

-- `except RunExecutionLeaseLost: return None`; other errors pass.
unfoldable pub renew_locked :
    {A : Type 0} → Result StoreError A → RunExecutionLease → Method (Option RunExecutionLease)
unfolding set_lease
renew_locked (ok _) renewed = do modify (set_lease renewed); pure (some renewed)
renew_locked (err StoreError.lease_lost) renewed = pure none
renew_locked (err e) renewed = raise e

unfoldable pub renew_run_execution :
    Principal → RunExecutionLease → ℕ → ℕ → ℕ → Method (Option RunExecutionLease)
unfolding validate_execution_lease_request renew_locked
renew_run_execution p lease duration checked_at now = do
  validate_execution_lease_request lease.owner duration
  checked ← gets (assert_execution_lease_locked p lease none checked_at)
  renew_locked checked (new_lease lease.run_id lease.owner lease.attempt (now + duration))

unfoldable pub drop_lease : String → Store → Store
drop_lease run_id s = record s { execution_leases = remove run_id s.execution_leases }

unfoldable pub release_run_execution : Principal → RunExecutionLease → Method Bool
unfolding drop_lease same_fence
release_run_execution p lease = do
  reads (run_locked p lease.run_id)
  mine ← gets (λ s. same_fence (lookup lease.run_id s.execution_leases) lease)
  if mine then (do modify (drop_lease lease.run_id); pure true) else pure false
