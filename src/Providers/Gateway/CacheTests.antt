-- ===== src/Providers/Gateway/CacheTests.antt =====
-- The caches of ProviderGateway on small inputs.
use mathlib.Core.Option.{some-injective}
use route_pilot.Providers.Gateway.Keys.{has_no_colon}
use route_pilot.Common.{
  refl, ap, List, [], ◌∷◌, String, ◌≡◌, ◌≢◌, ◌⊎◌, Option, none, some, arith, if◌then◌else◌,
}
use route_pilot.Common.Eq.{triple_beq, ◌==◌, ==_iff, text_equality, triple_eq, pair_eq}
use route_pilot.Common.Dict.{insert}
use route_pilot.Common.Exec.{ok, err}
use route_pilot.Providers.Gateway.Types.{
  idempotency_conflict, CacheSettings, Capability, CacheScope, FreshnessStatus, ProviderResult,
  OperationKey, Gateway,
}
use route_pilot.Providers.Gateway.Cache.{
  cache_key, remember_success, find_cached, with_current_freshness, get_stale_fallback,
}
use route_pilot.Providers.Gateway.Prune.{answer_locally, prune_state}
use route_pilot.Providers.Gateway.Idempotency.{
  Operation, asks, remembers, after_operation, run_operations, replay_once,
}
use route_pilot.Providers.Gateway.Bounds.{Bounded, caches-Bounded}
use route_pilot.Providers.Gateway.Separation.{tenants_apart}
use route_pilot.Providers.Gateway.Tests.{strict, fresh}

abbrev hour : CacheSettings
hour = record {
  max_cache_entries = 2;
  max_idempotency_entries = 2;
  idempotency_ttl = 3_600_000_000;
  cache_ttl = λ capability. 300_000_000;
  stale_if_error = λ capability. 600_000_000;
}

abbrev sunny : ProviderResult
sunny = record {
  valid_until = 900_000_000;
  freshness_status = FreshnessStatus.fresh;
  observation = "sunny";
}

abbrev key : OperationKey
key = ("acme", "weather", "operation_1")

abbrev scoped : String → Option String
scoped = cache_key Capability.weather "hash_1" CacheScope.tenant

abbrev hash_1 : String
hash_1 = "hash_1"

abbrev hash_2 : String
hash_2 = "hash_2"

abbrev operation_1 : String
operation_1 = "operation_1"

abbrev operation_2 : String
operation_2 = "operation_2"

abbrev other_key : OperationKey
other_key = ("acme", "weather", "operation_2")

other_operation : some key ≢ some other_key
other_operation same = absurd (
    ground (
      arith,
      ==_iff operation_1 operation_2,
      ap (λ (z : OperationKey). z.2) (some-injective _ _ same),
    ))

abbrev between : List Operation
between =
    remembers Capability.weather "hash_3" none (some other_key) sunny 150 250
    ∷ asks none (some other_key) "hash_3" 160 260
    ∷ []

abbrev roomy : CacheSettings
roomy = record hour { max_idempotency_entries = 9 }

replay_once_example :
    let s =
      run_operations strict roomy between
        (remember_success roomy Capability.weather "hash_1"
          (scoped "acme")
          (some key)
          sunny
          100
          200
          fresh).1 in
    answer_locally strict roomy none (some key) "hash_2" 300 400 s ≡ (
      (if hash_1 == hash_2
          then ok (some (with_current_freshness sunny 400))
          else err idempotency_conflict),
      prune_state strict 300 s,
    )
unfolding after_operation remember_success answer_locally insert cache_key triple_beq
replay_once_example =
    replay_once strict roomy Capability.weather "hash_1" "hash_2" (scoped "acme") none key sunny 100
      200 300 400 fresh between
      ((other_operation, omega arith), ((other_operation, omega arith, omega arith), tt))
      (omega arith)

caches-Bounded_example :
    Bounded hour
      (remember_success hour Capability.weather "hash_1"
        (scoped "acme")
        (some key)
        sunny
        100
        200
        fresh).1
    × Bounded hour (answer_locally strict hour (scoped "acme") (some key) "hash_1" 100 200 fresh).1
    × Bounded hour
        (get_stale_fallback hour Capability.weather "hash_1" (scoped "acme") (some key) 100 fresh).1
caches-Bounded_example =
    caches-Bounded hour (record { cache_entry = omega arith; idempotency_entry = omega arith })
      strict Capability.weather "hash_1" (scoped "acme") (some key) sunny 100 200 fresh
      (record { cached = omega arith; replies = omega arith })

abbrev acme : String
acme = "acme"

abbrev rival : String
rival = "rival"

two_tenants : acme ≢ rival
two_tenants same = absurd (ground (arith, ==_iff acme rival, same))

-- The rival has an entry for another request.
abbrev shared : Gateway
shared =
    (remember_success hour Capability.geocode "hash_2"
      (cache_key Capability.geocode "hash_2" CacheScope.tenant "rival") none sunny 50 60 fresh).1

tenants_apart_example :
    let s =
      (remember_success hour Capability.weather "hash_1"
        (cache_key Capability.weather "hash_1" CacheScope.tenant "acme")
        (some key)
        sunny
        100
        200
        shared).1 in
    let mine = cache_key Capability.geocode "hash_2" CacheScope.tenant "rival" in
    (find_cached mine s ≡ none) ⊎ (find_cached mine s ≡ find_cached mine shared)
unfolding has_no_colon
tenants_apart_example =
    tenants_apart hour CacheScope.tenant Capability.weather Capability.geocode "hash_1" "hash_2"
      "acme" "rival" (some key) sunny 100 200 shared refl refl two_tenants
