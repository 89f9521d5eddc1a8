-- ===== src/Providers/Gateway/Counting.antt =====
-- The failures that a circuit of ProviderGateway has counted, kept by what replaces one circuit
-- (agent/travel_agent/providers/gateway.py).
use route_pilot.Common.{
  ℕ, ◌+◌, ◌≤◌, String, ◌≡◌, inl, inr, refl, sym, ap, subst, ◌∙◌, true, false, ◌&&◌, some, List, [],
  ◌∷◌, arith, ltb, leb, if◌then◌else◌, is_some, Bool-cases, Option-cases,
}
use mathlib.Core.Option.{some-injective}
use route_pilot.Common.Eq.{◌==◌, ==_iff, eq_of_==, text_equality, pair_eq}
use route_pilot.Common.Dict.{lookup, lookup-insert}
use route_pilot.Providers.Gateway.Types.{
  ProviderError, counts_toward_circuit, GatewayPolicy, Circuit, Gateway,
}
use route_pilot.Providers.Gateway.Circuit.{
  set_circuit, pass_circuit, yield_probe, failed, after_failure, record_success, record_failure,
  release_half_open,
}
use route_pilot.Providers.Gateway.Calls.{Call, succeeds, fails}

-- The failures of a provider that count, since its last success.
unfoldable pub streak : String → ℕ → List Call → ℕ
streak id n [] = n
streak id n (succeeds other ∷ calls) = streak id (if other == id then 0 else n) calls
streak id n (fails other e now ∷ calls) =
    streak id (if other == id && counts_toward_circuit e then n + 1 else n) calls
streak id n (_ ∷ calls) = streak id n calls

-- The circuit of a provider has this many failures, and is open if they reach the threshold.
pub record Tripped (policy : GatewayPolicy) (id : String) (n : ℕ) (g : Gateway) : Type 0 where
  pub circuit : Circuit
  pub found : lookup id g.circuits ≡ some circuit
  pub counted : circuit.failures ≡ n
  pub opened : is_some circuit.opened_at ≡ leb policy.circuit_failure_threshold n

-- One circuit replaces another.
pub replaced-Tripped :
    (policy : GatewayPolicy) (id other : String) (n m : ℕ) (c : Circuit) (g : Gateway)
    → Tripped policy id n g
    → ((other ≡ id)
        → (c.failures ≡ m) × (is_some c.opened_at ≡ leb policy.circuit_failure_threshold m))
    → Tripped policy id (if other == id then m else n) (set_circuit other c g)
unfolding set_circuit
replaced-Tripped policy id other n m c g t same = elim (Bool-cases (other == id)) [
  | inr w ↦ record {
    circuit = t.circuit;
    found = rw (lookup-insert, w) t.found;
    counted = rw w t.counted;
    opened = rw w t.opened;
  }
  | inl w ↦ record {
    circuit = c;
    found = rw (lookup-insert, w) refl;
    counted = rw w (same (eq_of_== other id w)).0;
    opened = rw w (same (eq_of_== other id w)).1;
  }
]

-- The circuit that was found is the provider's.
pub own-circuit :
    (policy : GatewayPolicy) (id other : String) (n : ℕ) (c : Circuit) (g : Gateway)
    → Tripped policy id n g
    → lookup other g.circuits ≡ some c
    → other ≡ id
    → (c.failures ≡ n) × (is_some c.opened_at ≡ leb policy.circuit_failure_threshold n)
own-circuit policy id other n c g t h same =
    let both : c ≡ t.circuit =
      some-injective c t.circuit (sym h ∙ (ap (λ i. lookup i g.circuits) same ∙ t.found)) in
    (
      ap (λ (x : Circuit). x.failures) both ∙ t.counted,
      ap (λ (x : Circuit). is_some x.opened_at) both ∙ t.opened,
    )

pub failed-counted :
    (policy : GatewayPolicy) (e : ProviderError) (now : ℕ) (c : Circuit) (n : ℕ)
    → (c.failures ≡ n) × (is_some c.opened_at ≡ leb policy.circuit_failure_threshold n)
    → let m = if counts_toward_circuit e then n + 1 else n in
      ((after_failure policy e now c).failures ≡ m)
      × (is_some (after_failure policy e now c).opened_at ≡ leb policy.circuit_failure_threshold m)
unfolding after_failure failed yield_probe
failed-counted policy e now c n (counted, opened) =
    (ground (arith, counted, opened), ground (arith, counted, opened))

-- A circuit with the same count and the same opening.
pub kept-Tripped :
    (policy : GatewayPolicy) (id other : String) (n : ℕ) (c d : Circuit) (g h : Gateway)
    → Tripped policy id n g
    → h.circuits ≡ g.circuits
    → lookup other g.circuits ≡ some c
    → d.failures ≡ c.failures
    → is_some d.opened_at ≡ is_some c.opened_at
    → Tripped policy id n (set_circuit other d h)
kept-Tripped policy id other n c d g h t circuits found failures opened =
    subst (λ m. Tripped policy id m (set_circuit other d h)) (ground arith)
      (replaced-Tripped policy id other n n d h
        (record {
          circuit = t.circuit;
          found = ap (lookup id) circuits ∙ t.found;
          counted = t.counted;
          opened = t.opened;
        })
        (λ same.
          let (a, b) = own-circuit policy id other n c g t found same in
          (failures ∙ a, opened ∙ b)))

module _ (policy : GatewayPolicy) (id : String) (n : ℕ) (g : Gateway)
    (t : Tripped policy id n g) where
  pub pass-Tripped :
      (other : String) (c : Circuit) (now : ℕ)
      → lookup other g.circuits ≡ some c
      → Tripped policy id n (pass_circuit policy other c now g).1
  unfolding pass_circuit
  pass-Tripped other c now h = elim (Option-cases c.opened_at) [
    | inl e ↦ rw e t
    | inr (opened, e) ↦ elim (Bool-cases (ltb now (opened + policy.circuit_open))) [
      | inl w ↦ rw (e, w) t
      | inr w ↦ elim (Bool-cases c.half_open_inflight) [
        | inl v ↦ rw (e, w, v) t
        | inr v ↦
            rw (e, w, v)
              (kept-Tripped policy id other n c
                (record {
                  failures = c.failures;
                  opened_at = some opened;
                  half_open_inflight = true;
                })
                g g t refl h refl (sym (ap is_some e)))
      ]
    ]
  ]

  pub same-Tripped : (h : Gateway) → h.circuits ≡ g.circuits → Tripped policy id n h
  same-Tripped h same = record {
    circuit = t.circuit;
    found = ap (lookup id) same ∙ t.found;
    counted = t.counted;
    opened = t.opened;
  }

  pub success-Tripped :
      (other : String)
      → 1 ≤ policy.circuit_failure_threshold
      → Tripped policy id (if other == id then 0 else n) (record_success other g).1
  unfolding record_success
  success-Tripped other positive = elim (Option-cases (lookup other g.circuits)) [
    | inl e ↦
        rw e (subst (λ m. Tripped policy id m g) (ground (arith, e, t.found, ==_iff other id)) t)
    | inr (c, e) ↦
        rw e (replaced-Tripped policy id other n 0 _ g t (λ same. (refl, ground (arith, positive))))
  ]

  pub release-Tripped : (other : String) → Tripped policy id n (release_half_open other g).1
  unfolding release_half_open
  release-Tripped other = elim (Option-cases (lookup other g.circuits)) [
    | inl e ↦ rw e t
    | inr (c, e) ↦ rw e (
        kept-Tripped policy id other n c (record c { half_open_inflight = false }) g g t refl e refl
          refl)
  ]

  pub yield-Tripped :
      (other : String) (c : Circuit) (h : Gateway)
      → lookup other g.circuits ≡ some c
      → h.circuits ≡ g.circuits
      → Tripped policy id n (set_circuit other (yield_probe c) h)
  unfolding yield_probe
  yield-Tripped other c h found same =
      kept-Tripped policy id other n c (yield_probe c) g h t same found (ground arith)
        (ground arith)

  pub failure-Tripped :
      (other : String) (e : ProviderError) (now : ℕ)
      → Tripped policy id
          (if other == id && counts_toward_circuit e then n + 1 else n)
          (record_failure policy other e now g).1
  unfolding record_failure
  failure-Tripped other e now = elim (Option-cases (lookup other g.circuits)) [
    | inl x ↦
        rw x (subst (λ m. Tripped policy id m g) (ground (arith, x, t.found, ==_iff other id)) t)
    | inr (c, x) ↦ rw x (
        subst (λ m. Tripped policy id m (set_circuit other (after_failure policy e now c) g))
          (ground arith)
          (replaced-Tripped policy id other n (if counts_toward_circuit e then n + 1 else n)
            (after_failure policy e now c) g t
            (λ same. failed-counted policy e now c n (own-circuit policy id other n c g t x same))))
  ]
