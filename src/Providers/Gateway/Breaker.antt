-- ===== src/Providers/Gateway/Breaker.antt =====
-- The circuit breaker of ProviderGateway (agent/travel_agent/providers/gateway.py).
use route_pilot.Common.{
  ℕ, ◌+◌, ◌≤◌, String, ◌≡◌, inl, inr, refl, subst, ◌∙◌, ◌&&◌, some, List, [], ◌∷◌, arith, ltb,
  if◌then◌else◌, is_some, Bool-cases, Option-cases, length,
}
use route_pilot.Common.Eq.{◌==◌, text_equality, pair_eq}
use route_pilot.Common.Dict.{Dict, lookup}
use route_pilot.Common.Exec.{Result, ok, err, continue}
use route_pilot.Providers.Gateway.Types.{
  ProviderError, counts_toward_circuit, GatewayPolicy, Circuit, Gateway,
}
use route_pilot.Providers.Gateway.Circuit.{
  Key, window_of, set_circuit, set_window, drop_expired, pass_circuit, yield_probe, take_quota,
  before_call, record_success, record_failure, release_half_open,
}
use route_pilot.Providers.Gateway.Prune.{
  drop_window, keep_window, prune_window, prune_windows, prune_cached, prune_state,
}
use route_pilot.Providers.Gateway.Calls.{
  Call, begins, succeeds, fails, releases, prunes, after_call, run,
}
use route_pilot.Providers.Gateway.Counting.{
  streak, Tripped, replaced-Tripped, own-circuit, pass-Tripped, same-Tripped, success-Tripped,
  release-Tripped, failure-Tripped,
}

yield_probe-keeps :
    (c : Circuit)
    → ((yield_probe c).failures ≡ c.failures)
      × (is_some (yield_probe c).opened_at ≡ is_some c.opened_at)
unfolding yield_probe
yield_probe-keeps c = (ground arith, ground arith)

module _ (policy : GatewayPolicy) (id : String) (n : ℕ) (g h : Gateway) (tg : Tripped policy id n g)
    (th : Tripped policy id n h) where
  -- The probe is given back in a state where the circuit has only this been changed.
  give-Tripped :
      (other : String) (c : Circuit) (h' : Gateway)
      → lookup other g.circuits ≡ some c
      → h'.circuits ≡ h.circuits
      → Tripped policy id n (set_circuit other (yield_probe c) h')
  give-Tripped other c h' found same =
      let (failures, opened) = yield_probe-keeps c in
      subst (λ m. Tripped policy id m (set_circuit other (yield_probe c) h')) (ground arith)
        (replaced-Tripped policy id other n n (yield_probe c) h'
          (same-Tripped policy id n h th h' same)
          (λ eq.
            let (a, b) = own-circuit policy id other n c g tg found eq in
            (failures ∙ a, opened ∙ b)))

  quota-Tripped :
      (other : String) (c : Circuit) (tenant_id : String) (cost now : ℕ)
      → lookup other g.circuits ≡ some c
      → Tripped policy id n (take_quota policy other c tenant_id cost now h).1
  unfolding take_quota set_window
  quota-Tripped other c tenant_id cost now found =
      let window = drop_expired policy.rate_limit_window now (window_of (other, tenant_id) h) in
      elim (Bool-cases (ltb policy.rate_limit_requests (length window + cost))) [
        | inl w ↦ rw w (give-Tripped other c (set_window (other, tenant_id) window h) found refl)
        | inr w ↦ rw w (same-Tripped policy id n h th _ refl)
      ]

passed-Tripped :
    (policy : GatewayPolicy) (id : String) (n : ℕ) (g : Gateway) (other : String) (c : Circuit)
    (tenant_id : String) (cost now : ℕ) (r : Result ProviderError (Unit {0}) × Gateway)
    → Tripped policy id n g
    → lookup other g.circuits ≡ some c
    → Tripped policy id n r.1
    → Tripped policy id n (continue r.0 (λ _. take_quota policy other c tenant_id cost now) r.1).1
passed-Tripped policy id n g other c tenant_id cost now (ok u, h) tg found th =
    quota-Tripped policy id n g h tg th other c tenant_id cost now found
passed-Tripped policy id n g other c tenant_id cost now (err e, h) tg found th = th

before-Tripped :
    (policy : GatewayPolicy) (id : String) (n : ℕ) (g : Gateway) (other tenant_id : String)
    (cost now : ℕ)
    → Tripped policy id n g
    → Tripped policy id n (before_call policy other tenant_id cost now g).1
unfolding before_call
before-Tripped policy id n g other tenant_id cost now t =
    elim (Option-cases (lookup other g.circuits)) [
      | inl e ↦ rw e t
      | inr (c, e) ↦ rw e (
          passed-Tripped policy id n g other c tenant_id cost now
            (pass_circuit policy other c now g) t e (pass-Tripped policy id n g t other c now e))
    ]

circuits-keep_window :
    (key : Key) (times : List ℕ) (g : Gateway) → (keep_window key times g).circuits ≡ g.circuits
unfolding keep_window drop_window set_window
circuits-keep_window key [] g = refl
circuits-keep_window key (t ∷ times) g = refl

circuits-prune_window :
    (span now : ℕ) (key : Key) (g : Gateway) → (prune_window span now key g).circuits ≡ g.circuits
unfolding prune_window
circuits-prune_window span now key g =
    circuits-keep_window key (drop_expired span now (window_of key g)) g

circuits-prune_windows :
    (span now : ℕ) (d : Dict Key (List ℕ)) (g : Gateway)
    → (prune_windows span now d g).circuits ≡ g.circuits
unfolding prune_windows
circuits-prune_windows span now [] g = refl
circuits-prune_windows span now ((key, _) ∷ rest) g =
    circuits-prune_windows span now rest (prune_window span now key g)
    ∙ circuits-prune_window span now key g

circuits-prune_state :
    (policy : GatewayPolicy) (now : ℕ) (g : Gateway)
    → (prune_state policy now g).circuits ≡ g.circuits
unfolding prune_state prune_cached
circuits-prune_state policy now g =
    circuits-prune_windows policy.rate_limit_window now g.rate_windows (prune_cached now g)

-- Whatever callers do, a circuit counts the failures of its provider since the last success, those
-- that count, on top of the ones it had; and it is open exactly if they reach the threshold, which is
-- at least 1. No other call opens or closes it.
pub run-Tripped :
    (policy : GatewayPolicy) (id : String) (n : ℕ) (g : Gateway) (calls : List Call)
    → 1 ≤ policy.circuit_failure_threshold
    → Tripped policy id n g
    → Tripped policy id (streak id n calls) (run policy g calls)
unfolding run after_call streak
run-Tripped policy id n g [] positive t = t
run-Tripped policy id n g (begins other tenant_id cost now ∷ calls) positive t =
    run-Tripped policy id n (before_call policy other tenant_id cost now g).1 calls positive
      (before-Tripped policy id n g other tenant_id cost now t)
run-Tripped policy id n g (succeeds other ∷ calls) positive t =
    run-Tripped policy id (if other == id then 0 else n) (record_success other g).1 calls positive
      (success-Tripped policy id n g t other positive)
run-Tripped policy id n g (fails other e now ∷ calls) positive t =
    run-Tripped policy id (if other == id && counts_toward_circuit e then n + 1 else n)
      (record_failure policy other e now g).1 calls positive
      (failure-Tripped policy id n g t other e now)
run-Tripped policy id n g (releases other ∷ calls) positive t =
    run-Tripped policy id n (release_half_open other g).1 calls positive
      (release-Tripped policy id n g t other)
run-Tripped policy id n g (prunes now ∷ calls) positive t =
    run-Tripped policy id n (prune_state policy now g) calls positive
      (same-Tripped policy id n g t (prune_state policy now g) (circuits-prune_state policy now g))
