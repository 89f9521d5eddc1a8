-- ===== src/Providers/Gateway/Tests.antt =====
-- Circuit and quota of ProviderGateway on small inputs.
use route_pilot.Common.{◌≤◌, ◌≡◌, refl, true, some, List, [], ◌∷◌, arith}
use route_pilot.Common.Eq.{text_equality, pair_eq, pair_beq}
use route_pilot.Common.Dict.{lookup, insert}
use route_pilot.Common.Exec.{ok, err}
use route_pilot.Providers.Gateway.Types.{
  ProviderError, circuit_open, counts_toward_circuit, GatewayPolicy, Circuit, Gateway, closed,
}
use route_pilot.Providers.Gateway.Circuit.{
  record_failure, drop_expired, repeated, before_call, pass_circuit, take_quota, set_circuit,
  set_window, settle,
}
use route_pilot.Providers.Gateway.Calls.{Call, begins, fails, admitted, grants, after_call, run}
use route_pilot.Providers.Gateway.Window.{in_window}
use route_pilot.Providers.Gateway.Limit.{rate_limit_kept}
use route_pilot.Providers.Gateway.Counting.{Tripped, streak}
use route_pilot.Providers.Gateway.Breaker.{run-Tripped}
use route_pilot.Providers.Gateway.Probe.{
  Attempt, Refused, open_circuit_refuses, refused_call_frees_probe,
}

-- Two calls in a minute; two failures open a circuit for half a minute.
abbrev pub strict : GatewayPolicy
strict = record {
  rate_limit_requests = 2;
  rate_limit_window = 60_000_000;
  circuit_failure_threshold = 2;
  circuit_open = 30_000_000;
}

abbrev pub fresh : Gateway
fresh = record { circuits = ("amap", closed) ∷ []; rate_windows = []; cache = []; idempotency = [] }

abbrev three_requests : List Call
three_requests =
    begins "amap" "acme" 1 100 ∷ begins "amap" "acme" 1 200 ∷ begins "amap" "acme" 1 300 ∷ []

two_pass : admitted strict ("amap", "acme") fresh three_requests ≡ 100 ∷ 200 ∷ []
unfolding admitted grants after_call before_call pass_circuit take_quota set_circuit set_window
    drop_expired repeated lookup insert pair_beq
two_pass = refl

rate_limit_kept_example :
    in_window 60_000_000 300 (admitted strict ("amap", "acme") fresh three_requests) ≤ 2
unfolding lookup
rate_limit_kept_example =
    rate_limit_kept strict ("amap", "acme") fresh three_requests 0 300 refl
      (omega arith, (omega arith, (omega arith, tt)))

abbrev two_failures : List Call
two_failures = fails "amap" ProviderError.timeout 400 ∷ fails "amap" ProviderError.timeout 500 ∷ []

fresh_closed : Tripped strict "amap" 0 fresh
unfolding lookup
fresh_closed = record { circuit = closed; found = refl; counted = refl; opened = refl }

run-Tripped_example :
    Tripped strict "amap" (streak "amap" 0 two_failures) (run strict fresh two_failures)
run-Tripped_example = run-Tripped strict "amap" 0 fresh two_failures (omega arith) fresh_closed

counted_twice : streak "amap" 0 two_failures ≡ 2
unfolding streak counts_toward_circuit
counted_twice = refl

abbrev tripped : Circuit
tripped = record { failures = 2; opened_at = some 500; half_open_inflight = true }

-- A probe has begun after half a minute.
abbrev probed : Gateway
probed = record {
  circuits = ("amap", tripped) ∷ [];
  rate_windows = [];
  cache = [];
  idempotency = [];
}

abbrev one_failure : List Call
one_failure = fails "amap" ProviderError.timeout 400 ∷ []

abbrev attempts : List Attempt
attempts =
    record { tenant_id = "acme"; cost = 1; now = 600 }
    ∷ record { tenant_id = "rival"; cost = 2; now = 700 }
    ∷ []

open_circuit_refuses_example :
    Refused strict "amap" attempts
      (record_failure strict "amap" ProviderError.timeout 500 (run strict fresh one_failure)).1
unfolding streak counts_toward_circuit
open_circuit_refuses_example =
    open_circuit_refuses strict "amap" 0 fresh one_failure ProviderError.timeout 500 attempts
      (omega arith) fresh_closed (omega arith) refl (omega arith, (omega arith, tt))

refused_call_frees_probe_example :
    (before_call strict "amap" "acme" 1 30_000_600 probed ≡ (err circuit_open, probed))
    × ((before_call strict "amap" "acme" 1 30_000_700
          (settle strict "amap" circuit_open 30_000_600 probed).1).0
        ≡ ok tt)
unfolding lookup drop_expired
refused_call_frees_probe_example =
    refused_call_frees_probe strict probed "amap" "acme" 1 30_000_600 30_000_700
      (record {
        circuit = tripped;
        opened = 500;
        found = refl;
        is_open = refl;
        over = omega arith;
        inflight = refl;
      })
      (omega arith) (omega arith)
