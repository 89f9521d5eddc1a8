-- ===== src/Itinerary/Filing.antt =====
-- What ValidationPolicyService.combine (agent/travel_agent/runtime_v2/validation.py) files where.
use mathlib.Core.List.{append_assoc, append-nil}
use route_pilot.Common.{
  Bool, true, false, not, List, [], ◌∷◌, ◌++◌, ◌*◌, ◌≡◌, ◌↔◌, sym, subst, ap, ◌∙◌, arith, leb,
  if◌then◌else◌, each, keep,
}
use route_pilot.Common.Eq.{text_equality}
use route_pilot.Common.Exec.{ok}
use route_pilot.Itinerary.Types.{
  Severity, pass, warning, fail, ItineraryPlan, ConstraintCheck, ConstraintReport,
}
use route_pilot.Itinerary.Review.{SemanticRisk, SemanticRiskReport, Ratio, is_grave, is_grave_risk}
use route_pilot.Itinerary.Policy.{
  Origin, ValidationIssue, ValidationReport, Issues, constraint_issue, risk_issue, add_check,
  add_checks, add_risk, add_risks, is_thin, add_policy, issue_verdict, is_empty, no_issues, decide,
  combine, validate_verdict,
}
use route_pilot.Itinerary.Rules.{same_outcome}

abbrev pub Filed : Type 0
Filed = List ValidationIssue

-- The failing checks as issues, and the checks that warn.
abbrev pub failures : List ConstraintCheck → Filed
failures cs = each (constraint_issue Severity.high) (keep (λ c. same_outcome c.outcome fail) cs)

abbrev pub cautions : List ConstraintCheck → Filed
cautions cs =
    each (constraint_issue Severity.medium) (keep (λ c. same_outcome c.outcome warning) cs)

abbrev pub is_severe : Severity → Bool
is_severe Severity.info = false
is_severe Severity.low = false
is_severe Severity.medium = false
is_severe Severity.high = true
is_severe Severity.critical = true

abbrev pub severe_risks : List SemanticRisk → Filed
severe_risks rs = each risk_issue (keep (λ (r : SemanticRisk). is_severe r.severity) rs)

abbrev pub mild_risks : List SemanticRisk → Filed
mild_risks rs = each risk_issue (keep (λ (r : SemanticRisk). not (is_severe r.severity)) rs)

-- The issue of a ratio below nine tenths.
abbrev pub coverage_issue : Ratio → Filed
coverage_issue ratio =
    if leb (9 * ratio.denominator) (10 * ratio.numerator)
    then []
    else record { origin = Origin.policy; severity = Severity.high; message = "证据覆盖率低于 90% 发布门槛。" }
      ∷ []

add_checks-files :
    (cs : List ConstraintCheck) (s : Issues)
    → ((add_checks cs s).blockers ≡ s.blockers ++ failures cs)
      × ((add_checks cs s).warnings ≡ s.warnings ++ cautions cs)
unfolding add_checks add_check same_outcome each keep
add_checks-files [] s = (sym (append-nil s.blockers), sym (append-nil s.warnings))
add_checks-files (c ∷ cs) s =
    let (blocked, warned) = add_checks-files cs (add_check c s) in
    ground (
      arith,
      blocked,
      warned,
      append_assoc s.blockers (constraint_issue Severity.high c ∷ []) (failures cs),
      append_assoc s.warnings (constraint_issue Severity.medium c ∷ []) (cautions cs),
    )

add_risks-files :
    (rs : List SemanticRisk) (s : Issues)
    → ((add_risks rs s).blockers ≡ s.blockers ++ severe_risks rs)
      × ((add_risks rs s).warnings ≡ s.warnings ++ mild_risks rs)
unfolding add_risks add_risk is_grave is_grave_risk each keep
add_risks-files [] s = (sym (append-nil s.blockers), sym (append-nil s.warnings))
add_risks-files (r ∷ rs) s =
    let (blocked, warned) = add_risks-files rs (add_risk r s) in
    ground (
      arith,
      blocked,
      warned,
      append_assoc s.blockers (risk_issue r ∷ []) (severe_risks rs),
      append_assoc s.warnings (risk_issue r ∷ []) (mild_risks rs),
    )

add_policy-files :
    (ratio : Ratio) (s : Issues)
    → ((add_policy ratio s).blockers ≡ s.blockers ++ coverage_issue ratio)
      × ((add_policy ratio s).warnings ≡ s.warnings)
unfolding add_policy is_thin
add_policy-files ratio s = ground (arith, append-nil s.blockers)

decide-verdict :
    (plan : ItineraryPlan) (s : Issues)
    → let r = decide plan s in
      ((r.publishable ≡ true) ↔ (s.blockers ≡ []))
      × ((r.verdict ≡ fail) ↔ (r.publishable ≡ false))
      × ((r.verdict ≡ pass) ↔ ((s.blockers ≡ []) × (s.warnings ≡ [])))
      × (validate_verdict r ≡ ok tt)
unfolding decide validate_verdict is_empty issue_verdict
decide-verdict plan s = ground arith

-- Where `combine` returns a report, its blockers are the failing checks, the high and critical risks,
-- and the coverage if it is below nine tenths, in this order; its warnings are the checks that warn
-- and the other risks. It is publishable exactly without blockers, fails exactly if it is not
-- publishable, passes exactly without issues, and `validate_verdict` finds nothing in it. (The limit
-- of 500 on either list is not part of the model.)
pub combine_files :
    (plan : ItineraryPlan) (constraints : ConstraintReport) (review : SemanticRiskReport)
    {r : ValidationReport}
    → combine plan constraints review ≡ ok r
    → (r.blockers
        ≡ failures constraints.checks
          ++ (severe_risks review.risks ++ coverage_issue review.evidence_coverage.coverage_ratio))
      × (r.warnings ≡ cautions constraints.checks ++ mild_risks review.risks)
      × ((r.publishable ≡ true) ↔ (r.blockers ≡ []))
      × ((r.verdict ≡ fail) ↔ (r.publishable ≡ false))
      × ((r.verdict ≡ pass) ↔ ((r.blockers ≡ []) × (r.warnings ≡ [])))
      × (validate_verdict r ≡ ok tt)
unfolding combine decide
combine_files plan constraints review {r} h =
    let ratio = review.evidence_coverage.coverage_ratio in
    let checked = add_checks constraints.checks no_issues in
    let risky = add_risks review.risks checked in
    let issues = add_policy ratio risky in
    let made : decide plan issues ≡ r = ground arith in
    let (blocked, warned) = add_checks-files constraints.checks no_issues in
    let (blocked', warned') = add_risks-files review.risks checked in
    let (blocked'', warned'') = add_policy-files ratio risky in
    let blockers : issues.blockers
        ≡ failures constraints.checks ++ (severe_risks review.risks ++ coverage_issue ratio) =
      blocked''
      ∙ (ap (λ z. z ++ coverage_issue ratio)
            (blocked' ∙ ap (λ z. z ++ severe_risks review.risks) blocked)
          ∙ append_assoc (failures constraints.checks) (severe_risks review.risks)
              (coverage_issue ratio)) in
    let warnings : issues.warnings ≡ cautions constraints.checks ++ mild_risks review.risks =
      warned'' ∙ (warned' ∙ ap (λ z. z ++ mild_risks review.risks) warned) in
    let (open_gate, verdict, clear, kept) = decide-verdict plan issues in
    subst
      (λ (x : ValidationReport).
        (x.blockers
          ≡ failures constraints.checks ++ (severe_risks review.risks ++ coverage_issue ratio))
        × (x.warnings ≡ cautions constraints.checks ++ mild_risks review.risks)
        × ((x.publishable ≡ true) ↔ (x.blockers ≡ []))
        × ((x.verdict ≡ fail) ↔ (x.publishable ≡ false))
        × ((x.verdict ≡ pass) ↔ ((x.blockers ≡ []) × (x.warnings ≡ [])))
        × (validate_verdict x ≡ ok tt))
      made (blockers, warnings, open_gate, verdict, clear, kept)
