-- ===== src/Providers/Gateway/Cache.antt =====
-- The cache and the idempotent replies of ProviderGateway (agent/travel_agent/providers/gateway.py).
-- `now` is the monotonic clock and `wall` the time of day, in microseconds.
use Prim.Native.Nat.{◌-◌}
use Prim.Native.String.{◌++◌}
use route_pilot.Common.{
  ℕ, ◌+◌, String, Bool, true, false, ◌&&◌, Option, none, some, [], ◌∷◌, length, ltb, leb,
  if◌then◌else◌,
}
use route_pilot.Common.Eq.{Equality, text_equality, pair_eq, triple_eq}
use route_pilot.Common.Dict.{Dict, lookup, insert, remove}
use route_pilot.Common.Exec.{pure, gets, modify, ◌>>=◌, ◌>>◌}
use route_pilot.Providers.Gateway.Types.{
  CacheSettings, Capability, capability_text, CacheScope, FreshnessStatus, ProviderResult,
  CacheEntry, IdempotencyEntry, OperationKey, Gateway, Method,
}

unfoldable pub cache_key : Capability → String → CacheScope → String → Option String
cache_key capability hash CacheScope.disabled tenant_id = none
cache_key capability hash CacheScope.public tenant_id =
    some ("public" ++ ":" ++ capability_text capability ++ ":" ++ hash)
cache_key capability hash CacheScope.tenant tenant_id =
    some ("tenant:" ++ tenant_id ++ ":" ++ capability_text capability ++ ":" ++ hash)

module _ {K V : Type 0} where
  -- `min(d, key=...)`: the first of the entries of least rank.
  unfoldable pub least : (V → ℕ) → K × V → Dict K V → K × V
  least rank best [] = best
  least rank best (entry ∷ rest) =
      least rank (if ltb (rank entry.1) (rank best.1) then entry else best) rest

module _ {K V : Type 0} ⦃e : Equality K⦄ where
  -- The entry of least rank leaves a full dictionary. A limit is at least 1, so that a full one is not
  -- empty.
  unfoldable pub make_room : (V → ℕ) → ℕ → Dict K V → Dict K V
  unfolding least
  make_room rank limit [] = []
  make_room rank limit (entry ∷ rest) =
      if leb limit (length (entry ∷ rest))
      then remove (least rank entry rest).0 (entry ∷ rest)
      else entry ∷ rest

unfoldable pub put_cached : CacheSettings → String → CacheEntry → Gateway → Gateway
unfolding make_room
put_cached settings key entry g = record g {
  cache =
      insert key entry
        (make_room (λ (held : CacheEntry). held.inserted_at) settings.max_cache_entries g.cache);
}

unfoldable pub store_idempotency_locked :
    CacheSettings → Option OperationKey → String → ProviderResult → ℕ → Gateway → Gateway
unfolding make_room
store_idempotency_locked settings none hash result now g = g
store_idempotency_locked settings (some key) hash result now g = record g {
  idempotency =
      insert key
        (record {
          request_hash = hash;
          result = result;
          expires_at = now + settings.idempotency_ttl;
        })
        (make_room (λ (held : IdempotencyEntry). held.expires_at) settings.max_idempotency_entries
          g.idempotency);
}

abbrev pub min : ℕ → ℕ → ℕ
min a b = if ltb b a then b else a

-- How long a result may be used: the capability's time, or until the result's own validity ends.
unfoldable pub effective_ttl : CacheSettings → Capability → ProviderResult → ℕ → ℕ
effective_ttl settings capability result wall =
    min (settings.cache_ttl capability) (result.valid_until - wall)

unfoldable pub cached_entry : CacheSettings → Capability → ProviderResult → ℕ → ℕ → CacheEntry
cached_entry settings capability result ttl now = record {
  result = result;
  fresh_expires_at = now + ttl;
  stale_expires_at = now + ttl + settings.stale_if_error capability;
  inserted_at = now;
}

unfoldable pub cache_result :
    CacheSettings → Capability → Option String → ProviderResult → ℕ → ℕ → Gateway → Gateway
unfolding put_cached effective_ttl cached_entry
cache_result settings capability none result now wall g = g
cache_result settings capability (some key) result now wall g =
    let ttl = effective_ttl settings capability result wall in
    if ltb 0 ttl
    then put_cached settings key (cached_entry settings capability result ttl now) g
    else g

unfoldable pub remember_success :
    CacheSettings
    → Capability
    → String
    → Option String
    → Option OperationKey
    → ProviderResult
    → ℕ
    → ℕ
    → Method ProviderResult
unfolding cache_result store_idempotency_locked
remember_success settings capability hash key operation_key result now wall = do
  modify (cache_result settings capability key result now wall)
  modify (store_idempotency_locked settings operation_key hash result now)
  pure result

abbrev pub as_stale : ProviderResult → ProviderResult
as_stale result = record result { freshness_status = FreshnessStatus.stale }

unfoldable pub is_fresh : FreshnessStatus → Bool
is_fresh FreshnessStatus.fresh = true
is_fresh _ = false

unfoldable pub with_current_freshness : ProviderResult → ℕ → ProviderResult
unfolding is_fresh
with_current_freshness result wall =
    if is_fresh result.freshness_status && leb result.valid_until wall
    then as_stale result
    else result

-- The entry may stand in for an answer although it is no longer fresh.
unfoldable pub stale_entry : Option CacheEntry → ℕ → Option ProviderResult
stale_entry none now = none
stale_entry (some entry) now =
    if leb entry.fresh_expires_at now && ltb now entry.stale_expires_at
    then some (as_stale entry.result)
    else none

unfoldable pub reply :
    CacheSettings
    → Option OperationKey
    → String
    → Option ProviderResult
    → ℕ
    → Method (Option ProviderResult)
unfolding store_idempotency_locked
reply settings operation_key hash none now = pure none
reply settings operation_key hash (some result) now = do
  modify (store_idempotency_locked settings operation_key hash result now)
  pure (some result)

unfoldable pub find_cached : Option String → Gateway → Option CacheEntry
find_cached none g = none
find_cached (some key) g = lookup key g.cache

unfoldable pub get_stale_fallback :
    CacheSettings
    → Capability
    → String
    → Option String
    → Option OperationKey
    → ℕ
    → Method (Option ProviderResult)
unfolding stale_entry find_cached reply
get_stale_fallback settings capability hash key operation_key now =
    if ltb 0 (settings.stale_if_error capability)
    then (do
      found ← gets (λ g. stale_entry (find_cached key g) now)
      reply settings operation_key hash found now)
    else pure none
