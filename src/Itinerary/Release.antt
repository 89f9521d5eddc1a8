-- ===== src/Itinerary/Release.antt =====
-- When a plan may be published: ValidationPolicyService.combine and the two reports that it reads
-- (agent/travel_agent/runtime_v2/validation.py).
use route_pilot.Common.{true, false, List, [], ◌∷◌, ◌++◌, ◌*◌, ◌≤◌, ◌≡◌, ◌↔◌, refl, arith, All}
use route_pilot.Common.Eq.{text_equality}
use route_pilot.Itinerary.Types.{Severity, ItineraryPlan, ConstraintCheck}
use route_pilot.Itinerary.Validate.{is_fail}
use route_pilot.Itinerary.Review.{SemanticRisk, Ratio, is_grave_risk}
use route_pilot.Itinerary.Policy.{
  Issues, ValidationIssue, decide, add_check, add_risk, Origin, add_checks, add_risks, add_policy,
  is_thin, is_empty, no_issues,
}
use route_pilot.Itinerary.Soundness.{Clean}

is_empty-last : (xs : List ValidationIssue) (i : ValidationIssue) → is_empty (xs ++ i ∷ []) ≡ false
unfolding is_empty
is_empty-last [] i = refl
is_empty-last (x ∷ xs) i = refl

add_check_lem :
    (c : ConstraintCheck) (s : Issues)
    → (is_empty (add_check c s).blockers ≡ true)
      ↔ ((is_empty s.blockers ≡ true) × (is_fail c ≡ false))
unfolding add_check is_fail
add_check_lem c s =
    let i : ValidationIssue = record {
      origin = Origin.constraint;
      severity = Severity.high;
      message = c.message;
    } in
    ground (arith, is_empty-last s.blockers i)

add_checks_lem :
    (cs : List ConstraintCheck) (s : Issues)
    → (is_empty (add_checks cs s).blockers ≡ true) ↔ ((is_empty s.blockers ≡ true) × Clean cs)
unfolding add_checks
add_checks_lem [] s = ground arith
add_checks_lem (c ∷ cs) s = ground (arith, add_check_lem c s, add_checks_lem cs (add_check c s))

-- No risk is high or critical.
abbrev pub Mild : List SemanticRisk → Type 0
Mild risks = All (λ r. is_grave_risk r ≡ false) risks

add_risk_lem :
    (r : SemanticRisk) (s : Issues)
    → (is_empty (add_risk r s).blockers ≡ true)
      ↔ ((is_empty s.blockers ≡ true) × (is_grave_risk r ≡ false))
unfolding add_risk
add_risk_lem r s =
    let i : ValidationIssue = record {
      origin = Origin.semantic;
      severity = r.severity;
      message = r.message;
    } in
    ground (arith, is_empty-last s.blockers i)

add_risks_lem :
    (rs : List SemanticRisk) (s : Issues)
    → (is_empty (add_risks rs s).blockers ≡ true) ↔ ((is_empty s.blockers ≡ true) × Mild rs)
unfolding add_risks
add_risks_lem [] s = ground arith
add_risks_lem (r ∷ rs) s = ground (arith, add_risk_lem r s, add_risks_lem rs (add_risk r s))

add_policy_lem :
    (ratio : Ratio) (s : Issues)
    → (is_empty (add_policy ratio s).blockers ≡ true)
      ↔ ((is_empty s.blockers ≡ true) × (9 * ratio.denominator ≤ 10 * ratio.numerator))
unfolding add_policy is_thin
add_policy_lem ratio s =
    let i : ValidationIssue = record {
      origin = Origin.policy;
      severity = Severity.high;
      message = "证据覆盖率低于 90% 发布门槛。";
    } in
    ground (arith, is_empty-last s.blockers i)

pub decide_lem :
    (plan : ItineraryPlan) (checks : List ConstraintCheck) (risks : List SemanticRisk)
    (ratio : Ratio)
    → ((decide plan (add_policy ratio (add_risks risks (add_checks checks no_issues)))).publishable
        ≡ true)
      ↔ (Clean checks × Mild risks × (9 * ratio.denominator ≤ 10 * ratio.numerator))
unfolding decide is_empty
decide_lem plan checks risks ratio =
    let s = add_checks checks no_issues in
    ground (
      arith,
      add_policy_lem ratio (add_risks risks s),
      add_risks_lem risks s,
      add_checks_lem checks no_issues,
    )
