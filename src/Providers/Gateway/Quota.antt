-- ===== src/Providers/Gateway/Quota.antt =====
-- The request window of ProviderGateway: a rate limit over every window of time.
use route_pilot.Common.{
  ℕ, ◌+◌, ◌≤◌, String, inl, inr, sym, subst, List, [], ◌++◌, arith, length, ltb, Bool-cases,
}
use route_pilot.Common.Eq.{◌==◌, eq_of_==, text_equality, pair_eq}
use route_pilot.Providers.Gateway.Types.{GatewayPolicy, Gateway}
use route_pilot.Providers.Gateway.Circuit.{Key, window_of, drop_expired, repeated, before_call}
use route_pilot.Providers.Gateway.Calls.{admitted_by, begins, grants}
use route_pilot.Providers.Gateway.Window.{
  in_window, in_window-append, in_window-length, in_window-drop_expired, in_window-repeated,
  in_window-before, Begun, idle, trimmed, taken, before_call-Begun, before_call-other,
}

-- What is known of a window once these calls have been admitted, the last of them by now.
pub record Kept (policy : GatewayPolicy) (now : ℕ) (window log : List ℕ) : Type 0 where
  pub covered :
      (later : ℕ)
      → now ≤ later
      → in_window policy.rate_limit_window later log
        ≤ in_window policy.rate_limit_window later window
  pub limited : (at : ℕ) → in_window policy.rate_limit_window at log ≤ policy.rate_limit_requests

pub untouched-Kept :
    (policy : GatewayPolicy) (from now : ℕ) (window log : List ℕ)
    → from ≤ now
    → Kept policy from window log
    → Kept policy now window (log ++ [])
unfolding in_window
untouched-Kept policy from now window log le k = record {
  covered = λ later h. omega (
    arith,
    in_window-append policy.rate_limit_window later log [],
    k.covered later (omega (arith, le, h)),
  );
  limited = λ at. omega (arith, in_window-append policy.rate_limit_window at log [], k.limited at);
}

pub trimmed-Kept :
    (policy : GatewayPolicy) (now : ℕ) (window log : List ℕ)
    → Kept policy now window log
    → Kept policy now (drop_expired policy.rate_limit_window now window) log
trimmed-Kept policy now window log k = record {
  covered = λ later h. omega (
    arith,
    in_window-drop_expired policy.rate_limit_window now later window h,
    k.covered later h,
  );
  limited = k.limited;
}

taken-limited :
    (policy : GatewayPolicy) (cost now at : ℕ) (window log : List ℕ)
    → length window + cost ≤ policy.rate_limit_requests
    → Kept policy now window log
    → in_window policy.rate_limit_window at (log ++ repeated cost now) ≤ policy.rate_limit_requests
taken-limited policy cost now at window log room k =
    let span = policy.rate_limit_window in
    elim (Bool-cases (ltb at now)) [
      | inl w ↦ omega (
        arith,
        in_window-append span at log (repeated cost now),
        k.limited at,
        in_window-before span at cost now (ground (arith, w)),
      )
      | inr w ↦ omega (
        arith,
        in_window-append span at log (repeated cost now),
        k.covered at (ground (arith, w)),
        in_window-length span at window,
        in_window-repeated span at cost now,
        room,
      )
    ]

taken-Kept :
    (policy : GatewayPolicy) (cost now : ℕ) (window log : List ℕ)
    → length window + cost ≤ policy.rate_limit_requests
    → Kept policy now window log
    → Kept policy now (window ++ repeated cost now) (log ++ repeated cost now)
taken-Kept policy cost now window log room k =
    let span = policy.rate_limit_window in
    record {
      covered = λ later h. omega (
        arith,
        in_window-append span later log (repeated cost now),
        in_window-append span later window (repeated cost now),
        k.covered later h,
      );
      limited = λ at. taken-limited policy cost now at window log room k;
    }

pub later-Kept :
    (policy : GatewayPolicy) (from now : ℕ) (window log : List ℕ)
    → from ≤ now
    → Kept policy from window log
    → Kept policy now window log
later-Kept policy from now window log le k = record {
  covered = λ later h. k.covered later (omega (arith, le, h));
  limited = k.limited;
}

Begun-Kept :
    (policy : GatewayPolicy) (cost from now : ℕ) (before after granted log : List ℕ)
    → from ≤ now
    → Begun policy cost now before after granted
    → Kept policy from before log
    → Kept policy now after (log ++ granted)
Begun-Kept policy cost from now before after granted log le (idle same none_granted) k =
    rw (same, none_granted) (untouched-Kept policy from now before log le k)
Begun-Kept policy cost from now before after granted log le (trimmed same none_granted) k =
    rw (same, none_granted)
      (untouched-Kept policy now now (drop_expired policy.rate_limit_window now before) log
        (omega arith)
        (trimmed-Kept policy now before log (later-Kept policy from now before log le k)))
Begun-Kept policy cost from now before after granted log le (taken same took room) k =
    rw (same, took)
      (taken-Kept policy cost now (drop_expired policy.rate_limit_window now before) log room
        (trimmed-Kept policy now before log (later-Kept policy from now before log le k)))

pub begins-Kept :
    (policy : GatewayPolicy) (key : Key) (id tenant_id : String) (cost from now : ℕ) (g : Gateway)
    (log : List ℕ)
    → from ≤ now
    → Kept policy from (window_of key g) log
    → Kept policy now
        (window_of key (before_call policy id tenant_id cost now g).1)
        (log ++ grants policy key (begins id tenant_id cost now) g)
unfolding grants
begins-Kept policy key id tenant_id cost from now g log le k =
    elim (Bool-cases ((id, tenant_id) == key)) [
      | inr w ↦
          rw (w, before_call-other policy id tenant_id cost now g key w)
            (untouched-Kept policy from now (window_of key g) log le k)
      | inl w ↦ rw w (
          subst
            (λ (j : Key).
              Kept policy now (window_of j (before_call policy id tenant_id cost now g).1)
                (log ++ admitted_by (before_call policy id tenant_id cost now g).0 cost now))
            (eq_of_== (id, tenant_id) key w)
            (Begun-Kept policy cost from now _ _ _ log le
              (before_call-Begun policy id tenant_id cost now g)
              (subst (λ (j : Key). Kept policy from (window_of j g) log)
                (sym (eq_of_== (id, tenant_id) key w)) k)))
    ]
