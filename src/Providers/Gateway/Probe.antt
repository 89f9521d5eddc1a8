-- ===== src/Providers/Gateway/Probe.antt =====
-- Refusals by an open circuit of ProviderGateway, and the probe of a half-open one
-- (agent/travel_agent/providers/gateway.py).
use route_pilot.Common.{
  List, [], ◌∷◌, All, sym, ap, subst, ℕ, ◌+◌, ◌≤◌, ◌<◌, String, ◌≡◌, refl, true, false, some, arith,
  length,
}
use route_pilot.Common.Eq.{==_refl, text_equality, pair_eq}
use route_pilot.Common.Dict.{lookup, lookup-insert}
use route_pilot.Common.Exec.{Result, ok, err}
use route_pilot.Providers.Gateway.Types.{
  ProviderError, circuit_open, counts_toward_circuit, GatewayPolicy, Circuit, Gateway,
}
use route_pilot.Providers.Gateway.Circuit.{
  window_of, set_circuit, drop_expired, pass_circuit, yield_probe, take_quota, before_call, failed,
  after_failure, record_failure, settle,
}
use route_pilot.Providers.Gateway.Calls.{Call, run}
use route_pilot.Providers.Gateway.Counting.{streak, Tripped}
use route_pilot.Providers.Gateway.Breaker.{run-Tripped}

still_open :
    (policy : GatewayPolicy) (g : Gateway) (id tenant_id : String) (cost now opened : ℕ)
    (c : Circuit)
    → lookup id g.circuits ≡ some c
    → c.opened_at ≡ some opened
    → now < opened + policy.circuit_open
    → before_call policy id tenant_id cost now g ≡ (err circuit_open, g)
unfolding before_call pass_circuit
still_open policy g id tenant_id cost now opened c found is_open early =
    ground (arith, found, is_open, early)

failure-opens :
    (policy : GatewayPolicy) (g : Gateway) (id : String) (e : ProviderError) (at : ℕ) (c : Circuit)
    → lookup id g.circuits ≡ some c
    → policy.circuit_failure_threshold ≤ c.failures + 1
    → counts_toward_circuit e ≡ true
    → (d : Circuit) × (lookup id (record_failure policy id e at g).1.circuits ≡ some d)
      × (d.opened_at ≡ some at)
unfolding record_failure set_circuit after_failure failed yield_probe
failure-opens policy g id e at c found reached counts = (
  after_failure policy e at c,
  ground (arith, found, ==_refl id, lookup-insert id id (after_failure policy e at c) g.circuits),
  ground (arith, reached, counts),
)

-- A call, by whichever tenant.
pub record Attempt : Type 0 where
  pub tenant_id : String
  pub cost : ℕ
  pub now : ℕ

-- One after the other, the calls are refused, and change nothing.
abbrev pub Refused : GatewayPolicy → String → List Attempt → Gateway → Type 0
Refused policy id [] g = Unit
Refused policy id (a ∷ attempts) g =
    (before_call policy id a.tenant_id a.cost a.now g ≡ (err circuit_open, g))
    × Refused policy id attempts (before_call policy id a.tenant_id a.cost a.now g).1

all-Refused :
    (policy : GatewayPolicy) (id : String) (at : ℕ) (d : Circuit) (attempts : List Attempt)
    (g : Gateway)
    → lookup id g.circuits ≡ some d
    → d.opened_at ≡ some at
    → All (λ (a : Attempt). a.now < at + policy.circuit_open) attempts
    → Refused policy id attempts g
all-Refused policy id at d [] g found opened h = tt
all-Refused policy id at d (a ∷ attempts) g found opened (early, h) =
    let refused = still_open policy g id a.tenant_id a.cost a.now at d found opened early in
    (
      refused,
      subst (Refused policy id attempts)
          (sym (ap (λ (r : Result ProviderError Unit × Gateway). r.1) refused))
          (all-Refused policy id at d attempts g found opened h),
    )

-- From a circuit that counts its failures (Tripped) with a threshold of at least 1, and after any
-- calls: if the failures of the provider since its last success reach the threshold with one
-- more that counts, then from that failure on and until the circuit's time is over, calls to it
-- are refused one after the other, whichever tenant makes them, and cost no quota: the gateway stays
-- as it is.
pub open_circuit_refuses :
    (policy : GatewayPolicy) (id : String) (n : ℕ) (g : Gateway) (calls : List Call)
    (e : ProviderError) (at : ℕ) (attempts : List Attempt)
    → 1 ≤ policy.circuit_failure_threshold
    → Tripped policy id n g
    → policy.circuit_failure_threshold ≤ streak id n calls + 1
    → counts_toward_circuit e ≡ true
    → All (λ (a : Attempt). a.now < at + policy.circuit_open) attempts
    → Refused policy id attempts (record_failure policy id e at (run policy g calls)).1
open_circuit_refuses policy id n g calls e at attempts positive t reached counts early =
    let u = run-Tripped policy id n g calls positive t in
    let (d, found, opened) =
      failure-opens policy (run policy g calls) id e at u.circuit u.found
        (omega (arith, u.counted, reached)) counts in
    all-Refused policy id at d attempts (record_failure policy id e at (run policy g calls)).1 found
      opened early

-- A circuit that is half open, with its probe under way.
pub record Probing (policy : GatewayPolicy) (id : String) (now : ℕ) (g : Gateway) : Type 0 where
  pub circuit : Circuit
  pub opened : ℕ
  pub found : lookup id g.circuits ≡ some circuit
  pub is_open : circuit.opened_at ≡ some opened
  pub over : opened + policy.circuit_open ≤ now
  pub inflight : circuit.half_open_inflight ≡ true

probe-refused :
    (policy : GatewayPolicy) (g : Gateway) (id tenant_id : String) (cost now : ℕ)
    → Probing policy id now g
    → before_call policy id tenant_id cost now g ≡ (err circuit_open, g)
unfolding before_call pass_circuit
probe-refused policy g id tenant_id cost now p =
    ground (arith, p.found, p.is_open, p.over, p.inflight)

abbrev without_probe : Circuit → Circuit
without_probe c = record c { half_open_inflight = false }

probe-freed :
    (policy : GatewayPolicy) (g : Gateway) (id : String) (now : ℕ)
    → (p : Probing policy id now g)
    → (settle policy id circuit_open now g).1 ≡ set_circuit id (without_probe p.circuit) g
unfolding settle record_failure after_failure yield_probe counts_toward_circuit
probe-freed policy g id now p = ground (arith, p.found, p.is_open)

-- A circuit without its probe lets a call through, where there is quota.
quota-passes :
    (policy : GatewayPolicy) (id : String) (c : Circuit) (tenant_id : String) (cost now : ℕ)
    (g : Gateway)
    → length (drop_expired policy.rate_limit_window now (window_of (id, tenant_id) g)) + cost
      ≤ policy.rate_limit_requests
    → (take_quota policy id c tenant_id cost now g).0 ≡ ok tt
unfolding take_quota
quota-passes policy id c tenant_id cost now g room = ground (arith, room)

pass-freed :
    (policy : GatewayPolicy) (g : Gateway) (id : String) (c : Circuit) (opened later : ℕ)
    → c.opened_at ≡ some opened
    → opened + policy.circuit_open ≤ later
    → pass_circuit policy id (without_probe c) later g
      ≡ (ok tt, set_circuit id (record c { half_open_inflight = true }) g)
unfolding pass_circuit
pass-freed policy g id c opened later is_open over = ground (arith, is_open, over)

window-set_circuit :
    (g : Gateway) (id : String) (c d : Circuit) (key : String × String)
    → window_of key (set_circuit id c (set_circuit id d g)) ≡ window_of key g
unfolding set_circuit
window-set_circuit g id c d key = refl

lookup-set_circuit :
    (g : Gateway) (id : String) (c : Circuit) → lookup id (set_circuit id c g).circuits ≡ some c
unfolding set_circuit
lookup-set_circuit g id c = rw (lookup-insert, ==_refl id) refl

freed-passes :
    (policy : GatewayPolicy) (g : Gateway) (id tenant_id : String) (cost later opened : ℕ)
    (c : Circuit)
    → c.opened_at ≡ some opened
    → opened + policy.circuit_open ≤ later
    → length (drop_expired policy.rate_limit_window later (window_of (id, tenant_id) g)) + cost
      ≤ policy.rate_limit_requests
    → (before_call policy id tenant_id cost later (set_circuit id (without_probe c) g)).0 ≡ ok tt
unfolding before_call
freed-passes policy g id tenant_id cost later opened c is_open over room =
    let h = set_circuit id (without_probe c) g in
    let found : lookup id h.circuits ≡ some (without_probe c) =
      lookup-set_circuit g id (without_probe c) in
    rw (found, pass-freed policy h id c opened later is_open over)
      (quota-passes policy id (without_probe c) tenant_id cost later
        (set_circuit id (record c { half_open_inflight = true }) h)
        (rw
          (window-set_circuit g id (record c { half_open_inflight = true }) (without_probe c)
            (id, tenant_id))
          room))

-- The probe of a half-open circuit is not the only call. While one is under way, another call is
-- refused with the error of an open circuit; but the handling of that error gives the probe's place
-- back, so that a third call, or the second one's own retry, is let through beside the probe, as long
-- as the tenant has quota.
pub refused_call_frees_probe :
    (policy : GatewayPolicy) (g : Gateway) (id tenant_id : String) (cost now later : ℕ)
    → Probing policy id now g
    → now ≤ later
    → length (drop_expired policy.rate_limit_window later (window_of (id, tenant_id) g)) + cost
      ≤ policy.rate_limit_requests
    → (before_call policy id tenant_id cost now g ≡ (err circuit_open, g))
      × ((before_call policy id tenant_id cost later (settle policy id circuit_open now g).1).0
          ≡ ok tt)
refused_call_frees_probe policy g id tenant_id cost now later p le room = (
  probe-refused policy g id tenant_id cost now p,
  rw (probe-freed policy g id now p) (
      freed-passes policy g id tenant_id cost later p.opened p.circuit p.is_open
        (omega (arith, p.over, le)) room),
)
