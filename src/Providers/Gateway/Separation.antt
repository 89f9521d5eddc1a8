-- ===== src/Providers/Gateway/Separation.antt =====
-- The cache of ProviderGateway is apart for each tenant
-- (agent/travel_agent/providers/gateway.py).
use route_pilot.Common.{
  ℕ, String, true, ◌≡◌, ◌≢◌, ◌⊎◌, inl, inr, refl, ap, ◌∙◌, Option, none, some, arith, ltb,
  Bool-cases,
}
use route_pilot.Common.Eq.{==_iff, text_equality, triple_eq}
use route_pilot.Common.Dict.{lookup, lookup-insert}
use route_pilot.Providers.Gateway.Types.{
  CacheSettings, Capability, CacheScope, ProviderResult, CacheEntry, OperationKey, Gateway,
}
use route_pilot.Providers.Gateway.Cache.{
  cache_key, make_room, put_cached, store_idempotency_locked, effective_ttl, cached_entry,
  cache_result, remember_success, find_cached,
}
use route_pilot.Providers.Gateway.Room.{lookup-make_room}
use route_pilot.Providers.Gateway.Room.{lookup-make_room}
use route_pilot.Providers.Gateway.Keys.{has_no_colon, cache_key-tenant}

put-elsewhere :
    (settings : CacheSettings) (key at : String) (entry : CacheEntry) (g : Gateway)
    → at ≢ key
    → (lookup key (put_cached settings at entry g).cache ≡ none)
      ⊎ (lookup key (put_cached settings at entry g).cache ≡ lookup key g.cache)
unfolding put_cached
put-elsewhere settings key at entry g other =
    let room =
      make_room (λ (held : CacheEntry). held.inserted_at) settings.max_cache_entries g.cache in
    ground (
      arith,
      ==_iff at key,
      other,
      lookup-insert at key entry room,
      lookup-make_room (λ (held : CacheEntry). held.inserted_at) settings.max_cache_entries key
          g.cache,
    )

cached-elsewhere :
    (settings : CacheSettings) (capability : Capability) (result : ProviderResult) (now wall : ℕ)
    (g : Gateway) (at key : Option String)
    → at ≢ key
    → (find_cached key (cache_result settings capability at result now wall g) ≡ none)
      ⊎ (find_cached key (cache_result settings capability at result now wall g)
          ≡ find_cached key g)
unfolding find_cached cache_result
cached-elsewhere settings capability result now wall g at none other = inl refl
cached-elsewhere settings capability result now wall g none (some key) other = inr refl
cached-elsewhere settings capability result now wall g (some at) (some key) other =
    elim (Bool-cases (ltb 0 (effective_ttl settings capability result wall))) [
      | inr w ↦ rw w (inr refl)
      | inl w ↦ rw w (
          put-elsewhere settings key at
            (cached_entry settings capability result (effective_ttl settings capability result wall)
              now)
            g (λ same. other (ap some same)))
    ]

cache-remember_success :
    (settings : CacheSettings) (capability : Capability) (hash : String) (at : Option String)
    (operation_key : Option OperationKey) (result : ProviderResult) (now wall : ℕ) (g : Gateway)
    → (remember_success settings capability hash at operation_key result now wall g).1.cache
      ≡ (cache_result settings capability at result now wall g).cache
unfolding remember_success store_idempotency_locked
cache-remember_success settings capability hash at none result now wall g = refl
cache-remember_success settings capability hash at (some key) result now wall g = refl

find_cached-same :
    (key : Option String) (g h : Gateway)
    → g.cache ≡ h.cache
    → find_cached key g ≡ find_cached key h
unfolding find_cached
find_cached-same none g h same = refl
find_cached-same (some key) g h same = ap (lookup key) same

-- After a result of any request was remembered for one tenant, under whatever scope, each entry that
-- another tenant looks up under its own scope, for any request, is what it was before, or has been
-- evicted. A request's hash has no colon in it.
pub tenants_apart :
    (settings : CacheSettings) (scope : CacheScope) (capability asked : Capability)
    (hash own_hash t u : String) (operation_key : Option OperationKey) (result : ProviderResult)
    (now wall : ℕ) (g : Gateway)
    → has_no_colon hash ≡ true
    → has_no_colon own_hash ≡ true
    → t ≢ u
    → let s =
        (remember_success settings capability hash
          (cache_key capability hash scope t)
          operation_key
          result
          now
          wall
          g).1 in
      let mine = cache_key asked own_hash CacheScope.tenant u in
      (find_cached mine s ≡ none) ⊎ (find_cached mine s ≡ find_cached mine g)
tenants_apart settings scope capability asked hash own_hash t u operation_key result now wall g p q
      other =
    let at = cache_key capability hash scope t in
    let mine = cache_key asked own_hash CacheScope.tenant u in
    let same =
      find_cached-same mine
        (remember_success settings capability hash at operation_key result now wall g).1
        (cache_result settings capability at result now wall g)
        (cache-remember_success settings capability hash at operation_key result now wall g) in
    elim (cached-elsewhere settings capability result now wall g at mine
      (cache_key-tenant scope capability asked hash own_hash t u p q other)) [
        | inl e ↦ inl (same ∙ e)
        | inr e ↦ inr (same ∙ e)
      ]
