-- ===== src/Providers/Gateway/Window.antt =====
-- Times in a window, and what one call does with the window of its provider and tenant, in
-- ProviderGateway (agent/travel_agent/providers/gateway.py).
use route_pilot.Common.{
  ℕ, zero, suc, ◌+◌, ◌≤◌, ◌<◌, String, ◌≡◌, inl, inr, refl, ap, subst, ◌∙◌, false, ◌&&◌, List, [],
  ◌∷◌, ◌++◌, arith, length, ltb, leb, if◌then◌else◌, or_empty, Bool-cases, Option-cases,
}
use route_pilot.Common.Eq.{◌==◌, ==_refl, text_equality, pair_eq}
use route_pilot.Common.Dict.{lookup, lookup-insert}
use route_pilot.Common.Exec.{Result, ok, err, continue}
use route_pilot.Providers.Gateway.Types.{ProviderError, GatewayPolicy, Circuit, Gateway}
use route_pilot.Providers.Gateway.Circuit.{
  Key, window_of, drop_expired, repeated, set_window, set_circuit, pass_circuit, take_quota,
  before_call,
}
use route_pilot.Providers.Gateway.Calls.{admitted_by}

-- How many of these times lie in the window that ends at `now`.
unfoldable pub in_window : ℕ → ℕ → List ℕ → ℕ
in_window span now [] = 0
in_window span now (t ∷ times) =
    let rest = in_window span now times in
    if leb t now && ltb now (t + span) then suc rest else rest

pub in_window-append :
    (span now : ℕ) (xs ys : List ℕ)
    → in_window span now (xs ++ ys) ≡ in_window span now xs + in_window span now ys
unfolding in_window
in_window-append span now [] ys = omega arith
in_window-append span now (x ∷ xs) ys = ground (arith, in_window-append span now xs ys)

pub in_window-length : (span now : ℕ) (xs : List ℕ) → in_window span now xs ≤ length xs
unfolding in_window
in_window-length span now [] = omega arith
in_window-length span now (x ∷ xs) = ground (arith, in_window-length span now xs)

pub in_window-drop_expired :
    (span now later : ℕ) (xs : List ℕ)
    → now ≤ later
    → in_window span later (drop_expired span now xs) ≡ in_window span later xs
unfolding in_window drop_expired
in_window-drop_expired span now later [] h = refl
in_window-drop_expired span now later (x ∷ xs) h =
    ground (arith, h, in_window-drop_expired span now later xs h)

pub in_window-repeated : (span later cost now : ℕ) → in_window span later (repeated cost now) ≤ cost
unfolding in_window repeated
in_window-repeated span later zero now = omega arith
in_window-repeated span later (suc cost) now =
    ground (arith, in_window-repeated span later cost now)

pub in_window-before :
    (span earlier cost now : ℕ) → earlier < now → in_window span earlier (repeated cost now) ≡ 0
unfolding in_window repeated
in_window-before span earlier zero now h = refl
in_window-before span earlier (suc cost) now h =
    ground (arith, h, in_window-before span earlier cost now h)

-- What a call may do with one window.
pub data Begun (policy : GatewayPolicy) (cost now : ℕ) (before after granted : List ℕ)
    : Type 0 where
  idle : after ≡ before → granted ≡ [] → Begun policy cost now before after granted
  trimmed :
      after ≡ drop_expired policy.rate_limit_window now before
      → granted ≡ []
      → Begun policy cost now before after granted
  taken :
      after ≡ drop_expired policy.rate_limit_window now before ++ repeated cost now
      → granted ≡ repeated cost now
      → length (drop_expired policy.rate_limit_window now before) + cost
        ≤ policy.rate_limit_requests
      → Begun policy cost now before after granted

pub take_quota-Begun :
    (policy : GatewayPolicy) (id : String) (circuit : Circuit) (tenant_id : String) (cost now : ℕ)
    (g : Gateway)
    → Begun policy cost now
        (window_of (id, tenant_id) g)
        (window_of (id, tenant_id) (take_quota policy id circuit tenant_id cost now g).1)
        (admitted_by (take_quota policy id circuit tenant_id cost now g).0 cost now)
unfolding take_quota set_window set_circuit
take_quota-Begun policy id circuit tenant_id cost now g =
    let key : Key = (id, tenant_id) in
    let window = drop_expired policy.rate_limit_window now (window_of key g) in
    elim (Bool-cases (ltb policy.rate_limit_requests (length window + cost))) [
      | inl w ↦ rw w (trimmed (rw (lookup-insert, ==_refl key) refl) refl)
      | inr w ↦ rw w (taken (rw (lookup-insert, ==_refl key) refl) refl (ground (arith, w)))
    ]

pub pass_circuit-windows :
    (policy : GatewayPolicy) (id : String) (circuit : Circuit) (now : ℕ) (g : Gateway)
    → (pass_circuit policy id circuit now g).1.rate_windows ≡ g.rate_windows
unfolding pass_circuit set_circuit
pass_circuit-windows policy id circuit now g = ground arith

pub passed-Begun :
    (policy : GatewayPolicy) (id : String) (circuit : Circuit) (tenant_id : String) (cost now : ℕ)
    (g : Gateway) (r : Result ProviderError (Unit {0}) × Gateway)
    → r.1.rate_windows ≡ g.rate_windows
    → Begun policy cost now
        (window_of (id, tenant_id) g)
        (window_of
          (id, tenant_id)
          (continue r.0 (λ _. take_quota policy id circuit tenant_id cost now) r.1).1)
        (admitted_by
          (continue r.0 (λ _. take_quota policy id circuit tenant_id cost now) r.1).0
          cost
          now)
passed-Begun policy id circuit tenant_id cost now g (ok u, h) same =
    subst
      (λ w.
        Begun policy cost now (or_empty (lookup (id, tenant_id) w))
          (window_of (id, tenant_id) (take_quota policy id circuit tenant_id cost now h).1)
          (admitted_by (take_quota policy id circuit tenant_id cost now h).0 cost now))
      same (take_quota-Begun policy id circuit tenant_id cost now h)
passed-Begun policy id circuit tenant_id cost now g (err e, h) same =
    idle (ap (λ w. or_empty (lookup (id, tenant_id) w)) same) refl

pub before_call-Begun :
    (policy : GatewayPolicy) (id tenant_id : String) (cost now : ℕ) (g : Gateway)
    → Begun policy cost now
        (window_of (id, tenant_id) g)
        (window_of (id, tenant_id) (before_call policy id tenant_id cost now g).1)
        (admitted_by (before_call policy id tenant_id cost now g).0 cost now)
unfolding before_call
before_call-Begun policy id tenant_id cost now g = elim (Option-cases (lookup id g.circuits)) [
  | inl e ↦ rw e (idle refl refl)
  | inr (circuit, e) ↦ rw e (
      passed-Begun policy id circuit tenant_id cost now g (pass_circuit policy id circuit now g)
        (pass_circuit-windows policy id circuit now g))
]

pub take_quota-other :
    (policy : GatewayPolicy) (id : String) (circuit : Circuit) (tenant_id : String) (cost now : ℕ)
    (g : Gateway) (key : Key)
    → ((id, tenant_id) == key) ≡ false
    → window_of key (take_quota policy id circuit tenant_id cost now g).1 ≡ window_of key g
unfolding take_quota set_window set_circuit
take_quota-other policy id circuit tenant_id cost now g key other =
    let window = drop_expired policy.rate_limit_window now (window_of (id, tenant_id) g) in
    elim (Bool-cases (ltb policy.rate_limit_requests (length window + cost))) [
      | inl w ↦ rw w (rw (lookup-insert, other) refl)
      | inr w ↦ rw w (simp (lookup-insert, other) refl)
    ]

pub passed-other :
    (policy : GatewayPolicy) (id : String) (circuit : Circuit) (tenant_id : String) (cost now : ℕ)
    (g : Gateway) (key : Key) (r : Result ProviderError (Unit {0}) × Gateway)
    → r.1.rate_windows ≡ g.rate_windows
    → ((id, tenant_id) == key) ≡ false
    → window_of key (continue r.0 (λ _. take_quota policy id circuit tenant_id cost now) r.1).1
      ≡ window_of key g
passed-other policy id circuit tenant_id cost now g key (ok u, h) same other =
    take_quota-other policy id circuit tenant_id cost now h key other
    ∙ ap (λ w. or_empty (lookup key w)) same
passed-other policy id circuit tenant_id cost now g key (err e, h) same other =
    ap (λ w. or_empty (lookup key w)) same

-- A call leaves the windows of other providers and tenants alone.
pub before_call-other :
    (policy : GatewayPolicy) (id tenant_id : String) (cost now : ℕ) (g : Gateway) (key : Key)
    → ((id, tenant_id) == key) ≡ false
    → window_of key (before_call policy id tenant_id cost now g).1 ≡ window_of key g
unfolding before_call
before_call-other policy id tenant_id cost now g key other =
    elim (Option-cases (lookup id g.circuits)) [
      | inl e ↦ rw e refl
      | inr (circuit, e) ↦ rw e (
          passed-other policy id circuit tenant_id cost now g key
            (pass_circuit policy id circuit now g) (pass_circuit-windows policy id circuit now g)
            other)
    ]
