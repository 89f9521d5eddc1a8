-- ===== src/Providers/Gateway/Bounds.antt =====
-- The caches of ProviderGateway stay within their limits (agent/travel_agent/providers/gateway.py).
use route_pilot.Common.{
  ℕ, ◌≤◌, String, inl, inr, ap, Option, none, some, arith, length, ltb, Bool-cases,
}
use route_pilot.Common.Eq.{◌==◌, text_equality, triple_eq}
use route_pilot.Common.Dict.{Dict}
use route_pilot.Providers.Gateway.Types.{
  GatewayPolicy, CacheSettings, Capability, ProviderResult, CacheEntry, IdempotencyEntry,
  OperationKey, Gateway,
}
use route_pilot.Providers.Gateway.Cache.{
  put_cached, store_idempotency_locked, effective_ttl, cache_result, remember_success, reply,
  find_cached, stale_entry, get_stale_fallback,
}
use route_pilot.Providers.Gateway.Prune.{
  prune_cached, prune_state, find_prior, fresh_entry, answer_prior, answer_locally,
}
use route_pilot.Providers.Gateway.Replay.{remembered-prune_windows}
use route_pilot.Providers.Gateway.Room.{length-keep, length-put}

-- Both caches are within their limits.
pub record Bounded (settings : CacheSettings) (g : Gateway) : Type 0 where
  pub cached : length g.cache ≤ settings.max_cache_entries
  pub replies : length g.idempotency ≤ settings.max_idempotency_entries

-- Limits that the policy allows.
pub record Positive (settings : CacheSettings) : Type 0 where
  pub cache_entry : 1 ≤ settings.max_cache_entries
  pub idempotency_entry : 1 ≤ settings.max_idempotency_entries

module _ (settings : CacheSettings) (positive : Positive settings) where
  pub store-Bounded :
      (key : Option OperationKey) (hash : String) (result : ProviderResult) (now : ℕ) (g : Gateway)
      → Bounded settings g
      → Bounded settings (store_idempotency_locked settings key hash result now g)
  unfolding store_idempotency_locked
  store-Bounded none hash result now g b = b
  store-Bounded (some key) hash result now g b = record {
    cached = b.cached;
    replies =
        length-put (λ (held : IdempotencyEntry). held.expires_at) settings.max_idempotency_entries
          key _ g.idempotency positive.idempotency_entry b.replies;
  }

  pub cache-Bounded :
      (capability : Capability) (key : Option String) (result : ProviderResult) (now wall : ℕ)
      (g : Gateway)
      → Bounded settings g
      → Bounded settings (cache_result settings capability key result now wall g)
  unfolding cache_result put_cached
  cache-Bounded capability none result now wall g b = b
  cache-Bounded capability (some key) result now wall g b =
      elim (Bool-cases (ltb 0 (effective_ttl settings capability result wall))) [
        | inr w ↦ rw w b
        | inl w ↦ rw w (record {
          cached =
              length-put (λ (held : CacheEntry). held.inserted_at) settings.max_cache_entries key _
                g.cache positive.cache_entry b.cached;
          replies = b.replies;
        })
      ]

  pub reply-Bounded :
      (key : Option OperationKey) (hash : String) (found : Option ProviderResult) (now : ℕ)
      (g : Gateway)
      → Bounded settings g
      → Bounded settings (reply settings key hash found now g).1
  unfolding reply
  reply-Bounded key hash none now g b = b
  reply-Bounded key hash (some result) now g b = store-Bounded key hash result now g b

  pub prune-Bounded :
      (policy : GatewayPolicy) (now : ℕ) (g : Gateway)
      → Bounded settings g
      → Bounded settings (prune_state policy now g)
  unfolding prune_state prune_cached
  prune-Bounded policy now g b =
      let (cached, replies) =
        remembered-prune_windows policy.rate_limit_window now g.rate_windows (prune_cached now g) in
      record {
        cached = omega (
          arith,
          ap (λ (d : Dict String CacheEntry). length d) cached,
          length-keep (λ (entry : String × CacheEntry). ltb now entry.1.stale_expires_at) g.cache,
          b.cached,
        );
        replies = omega (
          arith,
          ap (λ (d : Dict OperationKey IdempotencyEntry). length d) replies,
          length-keep (λ (entry : OperationKey × IdempotencyEntry). ltb now entry.1.expires_at)
              g.idempotency,
          b.replies,
        );
      }

  pub prior-Bounded :
      (cached : Option String) (key : Option OperationKey) (hash : String) (now wall : ℕ)
      (prior : Option IdempotencyEntry) (g : Gateway)
      → Bounded settings g
      → Bounded settings (answer_prior settings cached key hash now wall prior g).1
  unfolding answer_prior
  prior-Bounded cached key hash now wall none g b =
      reply-Bounded key hash (fresh_entry (find_cached cached g) now) now g b
  prior-Bounded cached key hash now wall (some prior) g b =
      elim (Bool-cases (prior.request_hash == hash)) [ inl w ↦ rw w b | inr w ↦ rw w b ]

  pub fallback-Bounded :
      (capability : Capability) (hash : String) (cached : Option String) (key : Option OperationKey)
      (now : ℕ) (g : Gateway)
      → Bounded settings g
      → Bounded settings (get_stale_fallback settings capability hash cached key now g).1
  unfolding get_stale_fallback
  fallback-Bounded capability hash cached key now g b =
      elim (Bool-cases (ltb 0 (settings.stale_if_error capability))) [
        | inl w ↦ rw w (reply-Bounded key hash (stale_entry (find_cached cached g) now) now g b)
        | inr w ↦ rw w b
      ]

  -- None of the three operations that touch the caches, remembering a success, answering from what is
  -- remembered, and falling back on a stale observation, takes a cache beyond its limit, where the
  -- limits are at least 1 and hold before it.
  pub caches-Bounded :
      (policy : GatewayPolicy) (capability : Capability) (hash : String) (cached : Option String)
      (key : Option OperationKey) (result : ProviderResult) (now wall : ℕ) (g : Gateway)
      → Bounded settings g
      → Bounded settings (remember_success settings capability hash cached key result now wall g).1
        × Bounded settings (answer_locally policy settings cached key hash now wall g).1
        × Bounded settings (get_stale_fallback settings capability hash cached key now g).1
  unfolding remember_success answer_locally
  caches-Bounded policy capability hash cached key result now wall g b = (
    store-Bounded key hash result now (cache_result settings capability cached result now wall g)
        (cache-Bounded capability cached result now wall g b),
    prior-Bounded cached key hash now wall (find_prior key (prune_state policy now g))
        (prune_state policy now g) (prune-Bounded policy now g b),
    fallback-Bounded capability hash cached key now g b,
  )
