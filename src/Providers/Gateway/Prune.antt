-- ===== src/Providers/Gateway/Prune.antt =====
-- `_prune_state` and the local answers of ProviderGateway (agent/travel_agent/providers/gateway.py):
-- what `_execute_locked` does before it turns to a provider. The locks of idempotency keys are
-- asyncio's.
use route_pilot.Common.{ℕ, String, Option, none, some, List, [], ◌∷◌, ltb, if◌then◌else◌, keep}
use route_pilot.Common.Eq.{◌==◌, text_equality, pair_eq, triple_eq}
use route_pilot.Common.Dict.{Dict, lookup, remove}
use route_pilot.Common.Exec.{pure, gets, modify, guard, ◌>>=◌, ◌>>◌}
use route_pilot.Providers.Gateway.Types.{
  idempotency_conflict, GatewayPolicy, CacheSettings, ProviderResult, CacheEntry, IdempotencyEntry,
  OperationKey, Gateway, Method,
}
use route_pilot.Providers.Gateway.Circuit.{Key, drop_expired, window_of, set_window}
use route_pilot.Providers.Gateway.Cache.{find_cached, with_current_freshness, reply}

unfoldable pub drop_window : Key → Gateway → Gateway
drop_window key g = record g { rate_windows = remove key g.rate_windows }

-- What is left of a window; an empty one goes as a whole.
unfoldable pub keep_window : Key → List ℕ → Gateway → Gateway
unfolding drop_window set_window
keep_window key [] g = drop_window key g
keep_window key (t ∷ times) g = set_window key (t ∷ times) g

-- One turn of the loop: the expired times go.
unfoldable pub prune_window : ℕ → ℕ → Key → Gateway → Gateway
unfolding keep_window drop_expired
prune_window span now key g = keep_window key (drop_expired span now (window_of key g)) g

-- The loop over the keys that were there at its start.
unfoldable pub prune_windows : ℕ → ℕ → Dict Key (List ℕ) → Gateway → Gateway
unfolding prune_window
prune_windows span now [] g = g
prune_windows span now ((key, _) ∷ rest) g =
    prune_windows span now rest (prune_window span now key g)

unfoldable pub prune_cached : ℕ → Gateway → Gateway
prune_cached now g = record g {
  cache = keep (λ (entry : String × CacheEntry). ltb now entry.1.stale_expires_at) g.cache;
  idempotency =
      keep (λ (entry : OperationKey × IdempotencyEntry). ltb now entry.1.expires_at) g.idempotency;
}

unfoldable pub prune_state : GatewayPolicy → ℕ → Gateway → Gateway
unfolding prune_windows prune_cached
prune_state policy now g =
    prune_windows policy.rate_limit_window now g.rate_windows (prune_cached now g)

abbrev pub find_prior : Option OperationKey → Gateway → Option IdempotencyEntry
find_prior none g = none
find_prior (some key) g = lookup key g.idempotency

unfoldable pub fresh_entry : Option CacheEntry → ℕ → Option ProviderResult
fresh_entry none now = none
fresh_entry (some entry) now = if ltb now entry.fresh_expires_at then some entry.result else none

-- The reply of an earlier call under the same key, or a fresh entry of the cache.
unfoldable pub answer_prior :
    CacheSettings
    → Option String
    → Option OperationKey
    → String
    → ℕ
    → ℕ
    → Option IdempotencyEntry
    → Method (Option ProviderResult)
unfolding fresh_entry reply
answer_prior settings key operation_key hash now wall none = do
  found ← gets (λ g. fresh_entry (find_cached key g) now)
  reply settings operation_key hash found now
answer_prior settings key operation_key hash now wall (some prior) = do
  guard (prior.request_hash == hash) idempotency_conflict
  pure (some (with_current_freshness prior.result wall))

unfoldable pub answer_locally :
    GatewayPolicy
    → CacheSettings
    → Option String
    → Option OperationKey
    → String
    → ℕ
    → ℕ
    → Method (Option ProviderResult)
unfolding prune_state answer_prior
answer_locally policy settings key operation_key hash now wall = do
  modify (prune_state policy now)
  prior ← gets (find_prior operation_key)
  answer_prior settings key operation_key hash now wall prior
