-- ===== src/Providers/Gateway/Calls.antt =====
-- Histories of what callers do with the circuits and windows of ProviderGateway. Each is one hold of
-- the state lock, so that an interleaving of callers is a list.
use route_pilot.Common.{ℕ, ◌≤◌, String, List, [], ◌∷◌, ◌++◌, if◌then◌else◌}
use route_pilot.Common.Eq.{◌==◌, text_equality, pair_eq}
use route_pilot.Common.Exec.{Result, ok, err}
use route_pilot.Providers.Gateway.Types.{ProviderError, GatewayPolicy, Gateway}
use route_pilot.Providers.Gateway.Prune.{prune_state}
use route_pilot.Providers.Gateway.Circuit.{
  Key, repeated, before_call, record_success, record_failure, release_half_open,
}

pub data Call : Type 0 where
  begins : String → String → ℕ → ℕ → Call
  succeeds : String → Call
  fails : String → ProviderError → ℕ → Call
  releases : String → Call
  prunes : ℕ → Call

module _ (policy : GatewayPolicy) where
  unfoldable pub after_call : Call → Gateway → Gateway
  after_call (begins id tenant_id cost now) g = (before_call policy id tenant_id cost now g).1
  after_call (succeeds id) g = (record_success id g).1
  after_call (fails id e now) g = (record_failure policy id e now g).1
  after_call (releases id) g = (release_half_open id g).1
  after_call (prunes now) g = prune_state policy now g

  unfoldable pub run : Gateway → List Call → Gateway
  run g [] = g
  run g (c ∷ calls) = run (after_call c g) calls

-- The times of the calls to a provider that a step lets a tenant make.
abbrev pub admitted_by : {A : Type 0} → Result ProviderError A → ℕ → ℕ → List ℕ
admitted_by (ok _) cost now = repeated cost now
admitted_by (err _) cost now = []

unfoldable pub grants : GatewayPolicy → Key → Call → Gateway → List ℕ
grants policy key (begins id tenant_id cost now) g =
    if (id, tenant_id) == key
    then admitted_by (before_call policy id tenant_id cost now g).0 cost now
    else []
grants policy key _ g = []

-- The times of all the calls that a history lets a tenant make to a provider.
unfoldable pub admitted : GatewayPolicy → Key → Gateway → List Call → List ℕ
admitted policy key g [] = []
admitted policy key g (c ∷ calls) =
    grants policy key c g ++ admitted policy key (after_call policy c g) calls

-- The clock does not go back from one call to the next.
abbrev pub InOrder : ℕ → List Call → Type 0
InOrder from [] = Unit {0}
InOrder from (begins id tenant_id cost now ∷ calls) = (from ≤ now) × InOrder now calls
InOrder from (prunes now ∷ calls) = (from ≤ now) × InOrder now calls
InOrder from (_ ∷ calls) = InOrder from calls
