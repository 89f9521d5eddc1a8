-- ===== src/Itinerary/Review.antt =====
-- DeterministicSemanticVerifier of agent/travel_agent/runtime_v2/validation.py. A coverage ratio is a
-- fraction, and a risk's fresh identifier and suggested resolution are left out.
use route_pilot.Common.{
  ℕ, String, Bool, true, false, not, none, some, List, [], ◌∷◌, ◌++◌, ◌-◌, eqb, if◌then◌else◌, any,
  keep, each, length,
}
use route_pilot.Common.Eq.{text_equality}
use route_pilot.Common.Dict.{Dict, lookup, insert}
use route_pilot.Common.Sets.{count, member, subset}
use route_pilot.Common.Sort.{sorted}
use route_pilot.Common.Text.{text_lt}
use route_pilot.Itinerary.Types.{
  Severity, Outcome, pass, warning, fail, EvidenceItem, EvidenceConflict, ResolutionStatus,
  EvidenceBundle, PlanTimeBlock, PlanAssumption, ItineraryPlan,
}
use route_pilot.Itinerary.Constraints.{blocks_of}
use route_pilot.Itinerary.Validate.{is_outdated}

pub data RiskCategory : Type 0 where
  evidence_gap assumption source_conflict soft_constraint ambiguity : RiskCategory

pub record SemanticRisk : Type 0 where
  pub category : RiskCategory
  pub severity : Severity
  pub message : String
  pub affected_block_ids : List String
  pub evidence_refs : List String

-- `coverage_ratio` is the quotient of its two fields.
pub record Ratio : Type 0 where
  pub numerator : ℕ
  pub denominator : ℕ

pub record EvidenceCoverage : Type 0 where
  pub claims_total : ℕ
  pub claims_supported : ℕ
  pub claims_missing : ℕ
  pub coverage_ratio : Ratio

pub record SemanticRiskReport : Type 0 where
  pub plan_ref : String
  pub evidence_bundle_ref : String
  pub outcome : Outcome
  pub evidence_coverage : EvidenceCoverage
  pub risks : List SemanticRisk
  pub source_conflicts : List EvidenceConflict

unfoldable pub is_grave : Severity → Bool
is_grave Severity.high = true
is_grave Severity.critical = true
is_grave _ = false

unfoldable pub is_unresolved : EvidenceConflict → Bool
is_unresolved c = elim c.resolution_status [ ResolutionStatus.unresolved ↦ true | _ ↦ false ]

-- The references of each block and of each assumption.
unfoldable pub used : ItineraryPlan → List (List String)
unfolding blocks_of each
used plan =
    each (λ (b : PlanTimeBlock). b.evidence_refs) (blocks_of plan.days)
    ++ each (λ (a : PlanAssumption). a.evidence_refs) plan.assumptions

-- `bool(refs) and refs.issubset(known)`.
unfoldable pub is_supported : List String → List String → Bool
unfolding subset
is_supported known [] = false
is_supported known (r ∷ rs) = subset (r ∷ rs) known

unfoldable pub coverage : List String → List (List String) → EvidenceCoverage
unfolding count is_supported
coverage known refs =
    let total = length refs in
    let supported = count (is_supported known) refs in
    record {
      claims_total = total;
      claims_supported = supported;
      claims_missing = total - supported;
      coverage_ratio =
          if eqb total 0
          then record { numerator = 1; denominator = 1 }
          else record { numerator = supported; denominator = total };
    }

-- `sorted(set(xs))`.
unfoldable pub sorted_set : List String → List String
unfolding member sorted text_lt
sorted_set xs = sorted text_lt (once xs)
  where
    once : List String → List String
    once [] = []
    once (y ∷ ys) = let rest = once ys in if member y ys then rest else y ∷ rest

unfoldable pub unknown_refs : List String → PlanTimeBlock → List String
unfolding keep member
unknown_refs known b = keep (λ r. not (member r known)) b.evidence_refs

unfoldable pub reference_risks : List String → List PlanTimeBlock → List SemanticRisk
unfolding unknown_refs sorted_set
reference_risks known [] = []
reference_risks known (b ∷ bs) =
    let rest = reference_risks known bs in
    elim (unknown_refs known b) [
      | [] ↦ rest
      | r ∷ rs ↦
          record {
            category = RiskCategory.evidence_gap;
            severity = Severity.high;
            message = "计划时间块包含未知证据引用。";
            affected_block_ids = b.block_id ∷ [];
            evidence_refs = sorted_set (r ∷ rs);
          }
          ∷ rest
    ]

-- `{item.evidence_id: item for item in evidence.evidence}`.
unfoldable pub evidence_by_id :
    Dict String EvidenceItem → List EvidenceItem → Dict String EvidenceItem
evidence_by_id d [] = d
evidence_by_id d (item ∷ rest) = evidence_by_id (insert item.evidence_id item d) rest

unfoldable pub stale_risks : Dict String EvidenceItem → List String → List SemanticRisk
unfolding is_outdated
stale_risks d [] = []
stale_risks d (r ∷ rs) =
    let rest = stale_risks d rs in
    elim (lookup r d) [
      | none ↦ rest
      | some item ↦
          if is_outdated item.freshness
          then record {
            category = RiskCategory.evidence_gap;
            severity = Severity.medium;
            message =
                Prim.Native.String.◌++◌ "证据“" (Prim.Native.String.◌++◌ item.title "”不是 fresh 状态。");
            affected_block_ids = [];
            evidence_refs = r ∷ [];
          }
            ∷ rest
          else rest
    ]

unfoldable pub assumption_risks : List PlanAssumption → List SemanticRisk
assumption_risks [] = []
assumption_risks (a ∷ rest) =
    let others = assumption_risks rest in
    elim a.evidence_refs [
      | [] ↦
          record {
            category = RiskCategory.assumption;
            severity = Severity.medium;
            message = "计划包含未被证据支持的假设。";
            affected_block_ids = [];
            evidence_refs = [];
          }
          ∷ others
      | _ ∷ _ ↦ others
    ]

unfoldable pub conflict_risk : EvidenceConflict → SemanticRisk
conflict_risk c = record {
  category = RiskCategory.source_conflict;
  severity = Severity.high;
  message = Prim.Native.String.◌++◌ "来源冲突尚未解决：" c.topic;
  affected_block_ids = [];
  evidence_refs = c.evidence_refs;
}

-- `set().union(*used)`.
unfoldable pub joined : List (List String) → List String
joined [] = []
joined (xs ∷ rest) = xs ++ joined rest

unfoldable pub all_risks : ItineraryPlan → EvidenceBundle → List SemanticRisk
unfolding reference_risks stale_risks assumption_risks conflict_risk joined sorted_set
    evidence_by_id each keep is_unresolved blocks_of used member
all_risks plan bundle =
    let known = each (λ (i : EvidenceItem). i.evidence_id) bundle.evidence in
    (reference_risks known (blocks_of plan.days)
      ++ stale_risks (evidence_by_id [] bundle.evidence)
          (sorted_set (keep (λ r. member r known) (joined (used plan)))))
    ++ (assumption_risks plan.assumptions
        ++ each conflict_risk (keep is_unresolved bundle.conflicts))

unfoldable pub is_grave_risk : SemanticRisk → Bool
is_grave_risk r = is_grave r.severity

unfoldable pub risk_outcome : List SemanticRisk → Outcome
unfolding any is_grave is_grave_risk
risk_outcome [] = pass
risk_outcome (r ∷ rs) = if any is_grave_risk (r ∷ rs) then fail else warning

unfoldable pub verify : ItineraryPlan → EvidenceBundle → SemanticRiskReport
unfolding all_risks risk_outcome coverage each keep is_unresolved used
verify plan bundle =
    let known = each (λ (i : EvidenceItem). i.evidence_id) bundle.evidence in
    let risks = all_risks plan bundle in
    record {
      plan_ref = plan.artifact_id;
      evidence_bundle_ref = bundle.artifact_id;
      outcome = risk_outcome risks;
      evidence_coverage = coverage known (used plan);
      risks = risks;
      source_conflicts = keep is_unresolved bundle.conflicts;
    }
