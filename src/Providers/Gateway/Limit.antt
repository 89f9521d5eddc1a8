-- ===== src/Providers/Gateway/Limit.antt =====
-- The rate limit of ProviderGateway over histories of calls.
use route_pilot.Common.{
  inl, inr, Bool-cases, if◌then◌else◌, ℕ, ◌≤◌, String, ◌≡◌, refl, sym, ap, subst, List, [], ◌∷◌,
  ◌++◌, arith, or_empty,
}
use route_pilot.Common.Eq.{◌==◌, eq_of_==, text_equality, pair_eq}
use route_pilot.Common.Dict.{Dict, lookup, lookup-insert, lookup-remove}
use route_pilot.Providers.Gateway.Types.{ProviderError, GatewayPolicy, Gateway}
use route_pilot.Providers.Gateway.Circuit.{
  Key, window_of, drop_expired, set_window, set_circuit, before_call, record_success,
  record_failure, release_half_open,
}
use route_pilot.Providers.Gateway.Prune.{
  drop_window, keep_window, prune_window, prune_windows, prune_cached, prune_state,
}
use route_pilot.Providers.Gateway.Calls.{
  Call, begins, succeeds, fails, releases, prunes, after_call, grants, admitted, InOrder,
}
use route_pilot.Providers.Gateway.Window.{in_window}
use route_pilot.Providers.Gateway.Quota.{
  Kept, begins-Kept, untouched-Kept, trimmed-Kept, later-Kept,
}

module _ (g : Gateway) (id : String) where
  windows-record_success : (record_success id g).1.rate_windows ≡ g.rate_windows
  unfolding record_success set_circuit
  windows-record_success = ground arith

  windows-record_failure :
      (policy : GatewayPolicy) (e : ProviderError) (now : ℕ)
      → (record_failure policy id e now g).1.rate_windows ≡ g.rate_windows
  unfolding record_failure set_circuit
  windows-record_failure policy e now = ground arith

  windows-release_half_open : (release_half_open id g).1.rate_windows ≡ g.rate_windows
  unfolding release_half_open set_circuit
  windows-release_half_open = ground arith

-- A call that is no request keeps the windows.
quiet-Kept :
    (policy : GatewayPolicy) (key : Key) (from : ℕ) (g h : Gateway) (log : List ℕ)
    → h.rate_windows ≡ g.rate_windows
    → Kept policy from (window_of key g) log
    → Kept policy from (window_of key h) (log ++ [])
quiet-Kept policy key from g h log same k =
    subst (λ w. Kept policy from (or_empty (lookup key w)) (log ++ [])) (sym same)
      (untouched-Kept policy from from (window_of key g) log (omega arith) k)

append_assoc : (xs ys zs : List ℕ) → (xs ++ ys) ++ zs ≡ xs ++ (ys ++ zs)
append_assoc [] ys zs = refl
append_assoc (x ∷ xs) ys zs = ap (λ w. x ∷ w) (append_assoc xs ys zs)

window-keep_window :
    (key at : Key) (times : List ℕ) (g : Gateway)
    → window_of key (keep_window at times g) ≡ (if at == key then times else window_of key g)
unfolding keep_window drop_window set_window
window-keep_window key at [] g = rw lookup-remove (ground arith)
window-keep_window key at (t ∷ times) g = rw lookup-insert (ground arith)

prune_window-Kept :
    (policy : GatewayPolicy) (key at : Key) (now : ℕ) (g : Gateway) (log : List ℕ)
    → Kept policy now (window_of key g) log
    → Kept policy now (window_of key (prune_window policy.rate_limit_window now at g)) log
unfolding prune_window
prune_window-Kept policy key at now g log k =
    let span = policy.rate_limit_window in
    elim (Bool-cases (at == key)) [
      | inr w ↦ rw (window-keep_window key at (drop_expired span now (window_of at g)) g, w) k
      | inl w ↦
          rw (window-keep_window key at (drop_expired span now (window_of at g)) g, w)
            (subst (λ j. Kept policy now (drop_expired span now (window_of j g)) log)
              (sym (eq_of_== at key w)) (trimmed-Kept policy now (window_of key g) log k))
    ]

prune_windows-Kept :
    (policy : GatewayPolicy) (key : Key) (now : ℕ) (log : List ℕ) (d : Dict Key (List ℕ))
    (g : Gateway)
    → Kept policy now (window_of key g) log
    → Kept policy now (window_of key (prune_windows policy.rate_limit_window now d g)) log
unfolding prune_windows
prune_windows-Kept policy key now log [] g k = k
prune_windows-Kept policy key now log ((at, _) ∷ rest) g k =
    prune_windows-Kept policy key now log rest (prune_window policy.rate_limit_window now at g)
      (prune_window-Kept policy key at now g log k)

prune_state-Kept :
    (policy : GatewayPolicy) (key : Key) (from now : ℕ) (g : Gateway) (log : List ℕ)
    → from ≤ now
    → Kept policy from (window_of key g) log
    → Kept policy now (window_of key (prune_state policy now g)) (log ++ [])
unfolding prune_state prune_cached
prune_state-Kept policy key from now g log le k =
    untouched-Kept policy now now _ log (omega arith) (
      prune_windows-Kept policy key now log g.rate_windows (prune_cached now g)
        (later-Kept policy from now (window_of key g) log le k))

rate-Kept :
    (policy : GatewayPolicy) (key : Key) (from : ℕ) (g : Gateway) (log : List ℕ) (calls : List Call)
    (at : ℕ)
    → InOrder from calls
    → Kept policy from (window_of key g) log
    → in_window policy.rate_limit_window at (log ++ admitted policy key g calls)
      ≤ policy.rate_limit_requests
unfolding admitted after_call grants
rate-Kept policy key from g log [] at order k =
    (untouched-Kept policy from from (window_of key g) log (omega arith) k).limited at
rate-Kept policy key from g log (begins id tenant_id cost now ∷ calls) at (le, order) k =
    subst (λ l. in_window policy.rate_limit_window at l ≤ policy.rate_limit_requests)
      (append_assoc log (grants policy key (begins id tenant_id cost now) g) _)
      (rate-Kept policy key now (before_call policy id tenant_id cost now g).1 _ calls at order
        (begins-Kept policy key id tenant_id cost from now g log le k))
rate-Kept policy key from g log (succeeds id ∷ calls) at order k =
    subst (λ l. in_window policy.rate_limit_window at l ≤ policy.rate_limit_requests)
      (append_assoc log [] _)
      (rate-Kept policy key from (record_success id g).1 _ calls at order
        (quiet-Kept policy key from g (record_success id g).1 log (windows-record_success g id) k))
rate-Kept policy key from g log (fails id e now ∷ calls) at order k =
    subst (λ l. in_window policy.rate_limit_window at l ≤ policy.rate_limit_requests)
      (append_assoc log [] _)
      (rate-Kept policy key from (record_failure policy id e now g).1 _ calls at order (
        quiet-Kept policy key from g (record_failure policy id e now g).1 log
          (windows-record_failure g id policy e now) k))
rate-Kept policy key from g log (releases id ∷ calls) at order k =
    subst (λ l. in_window policy.rate_limit_window at l ≤ policy.rate_limit_requests)
      (append_assoc log [] _)
      (rate-Kept policy key from (release_half_open id g).1 _ calls at order (
        quiet-Kept policy key from g (release_half_open id g).1 log (windows-release_half_open g id)
          k))
rate-Kept policy key from g log (prunes now ∷ calls) at (le, order) k =
    subst (λ l. in_window policy.rate_limit_window at l ≤ policy.rate_limit_requests)
      (append_assoc log [] _)
      (rate-Kept policy key now (prune_state policy now g) _ calls at order
        (prune_state-Kept policy key from now g log le k))

-- Whatever callers do, in every span of time that is as long as the window and ends at whatever time,
-- a tenant gets no more calls through to a provider than the limit, each counted by its cost, as long
-- as the clock does not go back. The gateway starts without earlier calls of the two.
pub rate_limit_kept :
    (policy : GatewayPolicy) (key : Key) (g : Gateway) (calls : List Call) (from at : ℕ)
    → window_of key g ≡ []
    → InOrder from calls
    → in_window policy.rate_limit_window at (admitted policy key g calls)
      ≤ policy.rate_limit_requests
unfolding in_window
rate_limit_kept policy key g calls from at fresh order =
    rate-Kept policy key from g [] calls at order
      (record { covered = λ later h. omega arith; limited = λ at. omega arith })
