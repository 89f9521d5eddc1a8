-- ===== src/Providers/Gateway/Types.antt =====
-- The state of ProviderGateway (agent/travel_agent/providers/gateway.py) and the errors of errors.py.
-- A time is a reading of the monotonic clock, in microseconds, and so is a length of time.
use route_pilot.Common.{ℕ, String, Bool, true, false, Option, none, List}
use route_pilot.Common.Dict.{Dict}
use route_pilot.Common.Exec.{Exec}

-- One for each class of errors.py; the provider's identifier that an instance carries is not read.
-- The last is Python's own `KeyError`.
pub data ProviderError : Type 0 where
  input_error unavailable timeout rate_limited circuit_open authentication : ProviderError
  response cancelled idempotency_conflict not_allowed key_error : ProviderError

unfoldable pub retryable : ProviderError → Bool
retryable ProviderError.unavailable = true
retryable ProviderError.timeout = true
retryable ProviderError.rate_limited = true
retryable ProviderError.circuit_open = true
retryable ProviderError.response = true
retryable _ = false

unfoldable pub counts_toward_circuit : ProviderError → Bool
counts_toward_circuit ProviderError.unavailable = true
counts_toward_circuit ProviderError.timeout = true
counts_toward_circuit ProviderError.authentication = true
counts_toward_circuit ProviderError.response = true
counts_toward_circuit _ = false

-- The part of GatewayPolicy that quota and circuit read.
pub record GatewayPolicy : Type 0 where
  pub rate_limit_requests : ℕ
  pub rate_limit_window : ℕ
  pub circuit_failure_threshold : ℕ
  pub circuit_open : ℕ

pub record Circuit : Type 0 where
  pub failures : ℕ
  pub opened_at : Option ℕ
  pub half_open_inflight : Bool

pub data Capability : Type 0 where
  place_search geocode route_matrix opening_hours weather : Capability

unfoldable pub capability_text : Capability → String
capability_text Capability.place_search = "place_search"
capability_text Capability.geocode = "geocode"
capability_text Capability.route_matrix = "route_matrix"
capability_text Capability.opening_hours = "opening_hours"
capability_text Capability.weather = "weather"

pub data CacheScope : Type 0 where
  public tenant disabled : CacheScope

pub data FreshnessStatus : Type 0 where
  fresh stale unknown : FreshnessStatus

-- What the gateway reads of a result; `observation` is the rest of it.
pub record ProviderResult : Type 0 where
  pub valid_until : ℕ
  pub freshness_status : FreshnessStatus
  pub observation : String

pub record CacheEntry : Type 0 where
  pub result : ProviderResult
  pub fresh_expires_at : ℕ
  pub stale_expires_at : ℕ
  pub inserted_at : ℕ

pub record IdempotencyEntry : Type 0 where
  pub request_hash : String
  pub result : ProviderResult
  pub expires_at : ℕ

-- Tenant, capability and idempotency key.
abbrev pub OperationKey : Type 0
OperationKey = String × String × String

-- The part of GatewayPolicy that the caches read, and the times of each capability.
pub record CacheSettings : Type 0 where
  pub max_cache_entries : ℕ
  pub max_idempotency_entries : ℕ
  pub idempotency_ttl : ℕ
  pub cache_ttl : Capability → ℕ
  pub stale_if_error : Capability → ℕ

-- The circuit of each provider, the request window of each provider and tenant, and what is
-- remembered of earlier answers.
pub record Gateway : Type 0 where
  pub circuits : Dict String Circuit
  pub rate_windows : Dict (String × String) (List ℕ)
  pub cache : Dict String CacheEntry
  pub idempotency : Dict OperationKey IdempotencyEntry

abbrev pub closed : Circuit
closed = record { failures = 0; opened_at = none; half_open_inflight = false }

abbrev pub Method : Type 0 → Type 0
Method = Exec Gateway ProviderError
