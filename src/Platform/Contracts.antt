-- ===== src/Platform/Contracts.antt =====
-- The contract registry of packages/python/routepilot_contracts (validation.py). The models
-- themselves are Pydantic's work, and a parameter.
use Prim.Native.String.{◌++◌}
use route_pilot.Common.{ℕ, String, Bool, Option, none, List, [], ◌∷◌, any, if◌then◌else◌}
use route_pilot.Common.Eq.{◌==◌, text_equality}
use route_pilot.Common.Dict.{Dict}
use route_pilot.Common.Json.{Json}
use route_pilot.Common.Text.{decimal}

-- The keys of `CONTRACT_MODELS`.
unfoldable pub contract_models : List String
contract_models =
    "TravelQuestion@1" ∷ "TravelAnswer@1" ∷ "TripBrief@1" ∷ "EvidenceBundle@1" ∷ "CandidateSet@1"
    ∷ "ItineraryPlan@1" ∷ "ConstraintReport@1" ∷ "SemanticRiskReport@1" ∷ "ValidationReport@1"
    ∷ "TripSnapshot@1" ∷ "ShareSnapshot@1" ∷ []

unfoldable pub is_registered : String → Bool
unfolding contract_models
is_registered contract = any (λ c. c == contract) contract_models

unfoldable pub contract_id : String → ℕ → String
unfolding decimal
contract_id artifact_type schema_version = artifact_type ++ "@" ++ decimal schema_version

-- `model_validate` and the dump of its result, with `none` for a ValidationError.
pub record Models : Type 0 where
  pub run_event : Dict String Json → Option (Dict String Json)
  pub model_validate : String → Dict String Json → Option (Dict String Json)

unfoldable pub validate_contract : Models → String → Dict String Json → Option (Dict String Json)
unfolding is_registered
validate_contract m contract payload =
    if contract == "RunEvent@1"
    then m.run_event payload
    else if is_registered contract
    then m.model_validate contract payload
    else none
