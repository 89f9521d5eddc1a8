-- ===== src/Providers/Gateway/Circuit.antt =====
-- Circuit breaker and request window of ProviderGateway (agent/travel_agent/providers/gateway.py).
use route_pilot.Common.{
  ℕ, zero, suc, ◌+◌, String, true, false, not, none, some, List, [], ◌∷◌, ◌++◌, length, ltb, leb,
  if◌then◌else◌, or_empty,
}
use route_pilot.Common.Eq.{text_equality, pair_eq}
use route_pilot.Common.Dict.{lookup, insert}
use route_pilot.Common.Exec.{pure, raise, gets, modify, guard, require, with_state, ◌>>=◌, ◌>>◌}
use route_pilot.Providers.Gateway.Types.{
  ProviderError, circuit_open, rate_limited, key_error, counts_toward_circuit, GatewayPolicy,
  Circuit, Gateway, Method,
}

unfoldable pub set_circuit : String → Circuit → Gateway → Gateway
set_circuit id c g = record g { circuits = insert id c g.circuits }

-- `while window and window[0] <= cutoff: window.popleft()`, with the cutoff `now - length`.
unfoldable pub drop_expired : ℕ → ℕ → List ℕ → List ℕ
drop_expired length now [] = []
drop_expired length now (t ∷ window) =
    let rest = drop_expired length now window in if leb (t + length) now then rest else t ∷ window

-- `[now] * cost`.
unfoldable pub repeated : ℕ → ℕ → List ℕ
repeated zero now = []
repeated (suc cost) now = now ∷ repeated cost now

abbrev pub Key : Type 0
Key = String × String

abbrev pub window_of : Key → Gateway → List ℕ
window_of key g = or_empty (lookup key g.rate_windows)

unfoldable pub set_window : Key → List ℕ → Gateway → Gateway
set_window key window g = record g { rate_windows = insert key window g.rate_windows }

-- The circuit lets the call through, as its probe if it is open and its time is over.
unfoldable pub pass_circuit : GatewayPolicy → String → Circuit → ℕ → Method (Unit {0})
unfolding set_circuit
pass_circuit policy id circuit now = elim circuit.opened_at [
  | none ↦ pure tt
  | some opened ↦ do
    guard (not (ltb now (opened + policy.circuit_open))) circuit_open
    guard (not circuit.half_open_inflight) circuit_open
    modify (set_circuit id (record circuit { half_open_inflight = true }))
]

-- `if circuit.opened_at is not None: circuit.half_open_inflight = False`.
unfoldable pub yield_probe : Circuit → Circuit
yield_probe circuit = elim circuit.opened_at [
  | none ↦ circuit
  | some _ ↦ record circuit { half_open_inflight = false }
]

unfoldable pub take_quota : GatewayPolicy → String → Circuit → String → ℕ → ℕ → Method (Unit {0})
unfolding set_circuit set_window drop_expired repeated yield_probe
take_quota policy id circuit tenant_id cost now = do
  window ← gets (λ g. drop_expired policy.rate_limit_window now (window_of (id, tenant_id) g))
  modify (set_window (id, tenant_id) window)
  if ltb policy.rate_limit_requests (length window + cost)
      then (do modify (set_circuit id (yield_probe circuit)); raise rate_limited)
      else modify (set_window (id, tenant_id) (window ++ repeated cost now))

unfoldable pub before_call : GatewayPolicy → String → String → ℕ → ℕ → Method (Unit {0})
unfolding pass_circuit
before_call policy id tenant_id cost now = do
  circuit ← with_state (λ g. require (lookup id g.circuits) key_error)
  pass_circuit policy id circuit now
  take_quota policy id circuit tenant_id cost now

unfoldable pub record_success : String → Method (Unit {0})
unfolding set_circuit
record_success id = do
  with_state (λ g. require (lookup id g.circuits) key_error)
  modify (set_circuit id (record { failures = 0; opened_at = none; half_open_inflight = false }))

unfoldable pub failed : GatewayPolicy → ℕ → Circuit → Circuit
failed policy now circuit =
    if leb policy.circuit_failure_threshold (circuit.failures + 1)
    then record {
      failures = circuit.failures + 1;
      opened_at = some now;
      half_open_inflight = false;
    }
    else record circuit { failures = circuit.failures + 1 }

unfoldable pub after_failure : GatewayPolicy → ProviderError → ℕ → Circuit → Circuit
unfolding failed yield_probe
after_failure policy e now circuit =
    if counts_toward_circuit e then failed policy now (yield_probe circuit) else yield_probe circuit

unfoldable pub record_failure : GatewayPolicy → String → ProviderError → ℕ → Method (Unit {0})
unfolding after_failure set_circuit
record_failure policy id e now = do
  circuit ← with_state (λ g. require (lookup id g.circuits) key_error)
  modify (set_circuit id (after_failure policy e now circuit))

unfoldable pub release_half_open : String → Method (Unit {0})
unfolding set_circuit
release_half_open id = do
  circuit ← with_state (λ g. require (lookup id g.circuits) key_error)
  modify (set_circuit id (record circuit { half_open_inflight = false }))

-- What the handlers of `_execute_locked` do with an error of one attempt.
unfoldable pub settle : GatewayPolicy → String → ProviderError → ℕ → Method (Unit {0})
unfolding release_half_open record_failure
settle policy id ProviderError.cancelled now = release_half_open id
settle policy id ProviderError.input_error now = release_half_open id
settle policy id e now = record_failure policy id e now
