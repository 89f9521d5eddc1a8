-- ===== src/Itinerary/Policy.antt =====
-- ValidationPolicyService of agent/travel_agent/runtime_v2/validation.py, and the rules of
-- ValidationReport in packages/python/routepilot_contracts (artifacts.py). An issue's fresh
-- identifier and the reference to its report are left out, and so are the limits of 500 blockers and
-- 500 warnings, and the types of references.
use route_pilot.Common.{
  String, Bool, true, false, ◌&&◌, not, List, [], ◌∷◌, ◌++◌, ◌*◌, ltb, if◌then◌else◌,
}
use route_pilot.Common.Eq.{◌==◌, text_equality}
use route_pilot.Common.Exec.{Result, ok}
use route_pilot.Common.Outcome.{check, ◌>>◌}
use route_pilot.Itinerary.Types.{
  Severity, Outcome, pass, warning, fail, ItineraryPlan, ConstraintCheck, ConstraintReport,
}
use route_pilot.Itinerary.Review.{SemanticRisk, SemanticRiskReport, Ratio, is_grave_risk, is_grave}

pub data Origin : Type 0 where
  constraint semantic policy : Origin

pub record ValidationIssue : Type 0 where
  pub origin : Origin
  pub severity : Severity
  pub message : String

pub record ValidationReport : Type 0 where
  pub plan_ref : String
  pub verdict : Outcome
  pub publishable : Bool
  pub blockers : List ValidationIssue
  pub warnings : List ValidationIssue

-- The two lists that the loops append to.
pub record Issues : Type 0 where
  pub blockers : List ValidationIssue
  pub warnings : List ValidationIssue

abbrev pub block : ValidationIssue → Issues → Issues
block i s = record s { blockers = s.blockers ++ i ∷ [] }

abbrev pub warn : ValidationIssue → Issues → Issues
warn i s = record s { warnings = s.warnings ++ i ∷ [] }

abbrev pub constraint_issue : Severity → ConstraintCheck → ValidationIssue
constraint_issue severity c = record {
  origin = Origin.constraint;
  severity = severity;
  message = c.message;
}

unfoldable pub add_check : ConstraintCheck → Issues → Issues
add_check c s = elim c.outcome [
  | pass ↦ s
  | warning ↦ warn (constraint_issue Severity.medium c) s
  | fail ↦ block (constraint_issue Severity.high c) s
]

-- `for item in constraints.checks`.
unfoldable pub add_checks : List ConstraintCheck → Issues → Issues
unfolding add_check
add_checks [] s = s
add_checks (c ∷ cs) s = add_checks cs (add_check c s)

abbrev pub risk_issue : SemanticRisk → ValidationIssue
risk_issue r = record { origin = Origin.semantic; severity = r.severity; message = r.message }

unfoldable pub add_risk : SemanticRisk → Issues → Issues
unfolding is_grave is_grave_risk
add_risk r s = if is_grave_risk r then block (risk_issue r) s else warn (risk_issue r) s

-- `for risk in semantic.risks`.
unfoldable pub add_risks : List SemanticRisk → Issues → Issues
unfolding add_risk
add_risks [] s = s
add_risks (r ∷ rs) s = add_risks rs (add_risk r s)

-- `coverage_ratio < Decimal("0.9")`.
unfoldable pub is_thin : Ratio → Bool
is_thin r = ltb (10 * r.numerator) (9 * r.denominator)

unfoldable pub add_policy : Ratio → Issues → Issues
unfolding is_thin
add_policy r s =
    if is_thin r
    then block
        (record { origin = Origin.policy; severity = Severity.high; message = "证据覆盖率低于 90% 发布门槛。" })
        s
    else s

unfoldable pub issue_verdict : Issues → Outcome
issue_verdict s = elim s.blockers [
  | [] ↦ elim s.warnings [ [] ↦ pass | _ ∷ _ ↦ warning ]
  | _ ∷ _ ↦ fail
]

unfoldable pub is_empty : List ValidationIssue → Bool
is_empty [] = true
is_empty (_ ∷ _) = false

abbrev pub no_issues : Issues
no_issues = record { blockers = []; warnings = [] }

unfoldable pub decide : ItineraryPlan → Issues → ValidationReport
unfolding issue_verdict is_empty
decide plan s = record {
  plan_ref = plan.artifact_id;
  verdict = issue_verdict s;
  publishable = is_empty s.blockers;
  blockers = s.blockers;
  warnings = s.warnings;
}

-- A ValueError is its message.
unfoldable pub combine :
    ItineraryPlan → ConstraintReport → SemanticRiskReport → Result String ValidationReport
unfolding add_checks add_risks add_policy decide
combine plan constraints review =
    check (constraints.plan_ref == plan.artifact_id) "constraint report belongs to another plan"
    >> (check (review.plan_ref == plan.artifact_id) "semantic report belongs to another plan"
        >> ok (
            decide plan (
              add_policy review.evidence_coverage.coverage_ratio
                (add_risks review.risks (add_checks constraints.checks no_issues)))))

-- `ValidationReport.validate_verdict`, on the report's own fields.
unfoldable pub validate_verdict : ValidationReport → Result String (Unit {0})
unfolding is_empty
validate_verdict r =
    check (not (not (is_empty r.blockers) && r.publishable))
      "a report with blockers cannot be publishable"
    >> (check (elim r.verdict [ fail ↦ not r.publishable | _ ↦ true ])
          "failed validation cannot be publishable"
        >> check (elim r.verdict [ pass ↦ is_empty r.blockers && is_empty r.warnings | _ ↦ true ])
            "passing validation cannot contain issues")
