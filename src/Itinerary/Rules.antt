-- ===== src/Itinerary/Rules.antt =====
-- The rules that packages/python/routepilot_contracts (artifacts.py) sets the reports of
-- agent/travel_agent/runtime_v2/validation.py. A reference is the identifier of an artifact, so that
-- the rules on its type have no place here.
use route_pilot.Common.{
  ℕ, String, Bool, true, false, ◌&&◌, not, List, [], ◌∷◌, ◌+◌, ◌-◌, ◌*◌, ◌≤◌, ◌≡◌, ◌↔◌, refl, arith,
  eqb, leb, if◌then◌else◌, any, all, each, length,
}
use route_pilot.Common.Eq.{◌==◌, text_equality}
use route_pilot.Common.Exec.{ok}
use route_pilot.Common.Outcome.{check, ◌>>◌}
use route_pilot.Common.Sets.{count, subset, distinct}
use route_pilot.Itinerary.Types.{
  Severity, Outcome, pass, warning, fail, TripBrief, ItineraryPlan, EvidenceBundle, EvidenceItem,
  EvidenceConflict, ConstraintReport, ConstraintCheck, CheckSummary, Candidate, CandidateSet,
}
use route_pilot.Itinerary.Contract.{Checked}
use route_pilot.Itinerary.Validate.{
  validate, summary_of, outcome_of, all_checks, is_pass, is_warning, is_fail,
}
use route_pilot.Itinerary.Review.{
  SemanticRisk, SemanticRiskReport, is_grave, is_grave_risk, EvidenceCoverage, Ratio, verify,
  risk_outcome, coverage, is_supported, all_risks, used,
}
use route_pilot.Itinerary.Constraints.{blocks_of}
use route_pilot.Itinerary.Limits.{related_fit, checks_fit}
use route_pilot.Itinerary.Feasible.{evidence_ids}

unfoldable pub same_outcome : Outcome → Outcome → Bool
same_outcome pass pass = true
same_outcome warning warning = true
same_outcome fail fail = true
same_outcome _ _ = false

unfoldable pub same_summary : CheckSummary → CheckSummary → Bool
same_summary a b = eqb a.passed b.passed && (eqb a.warnings b.warnings && eqb a.failed b.failed)

-- `sum(check.outcome == outcome for check in self.checks)`.
unfoldable pub tally : Outcome → List ConstraintCheck → ℕ
unfolding same_outcome
tally o [] = 0
tally o (c ∷ cs) = (if same_outcome c.outcome o then 1 else 0) + tally o cs

-- `ConstraintReport.validate_checks`: the contract counts for itself.
unfoldable pub validate_checks : ConstraintReport → Checked
unfolding same_outcome same_summary tally
validate_checks r =
    let actual : CheckSummary = record {
      passed = tally pass r.checks;
      warnings = tally warning r.checks;
      failed = tally fail r.checks;
    } in
    let expected_outcome : Outcome =
      if not (eqb actual.failed 0)
      then fail
      else if not (eqb actual.warnings 0)
      then warning
      else pass in
    check (same_summary r.summary actual) "constraint summary counts do not match checks"
    >> check (same_outcome r.outcome expected_outcome)
        "constraint report outcome does not match checks"

-- How far two numbers are apart.
unfoldable pub apart : ℕ → ℕ → ℕ
apart a b = (a - b) + (b - a)

-- `EvidenceCoverage.validate_counts`: the ratio is within 0.0001 of the quotient.
unfoldable pub validate_counts : EvidenceCoverage → Checked
unfolding apart
validate_counts c =
    let r = c.coverage_ratio in
    let expected : Ratio =
      if eqb c.claims_total 0
      then record { numerator = 1; denominator = 1 }
      else record { numerator = c.claims_supported; denominator = c.claims_total } in
    check (eqb (c.claims_supported + c.claims_missing) c.claims_total)
      "supported and missing claims must equal total"
    >> check
        (leb
          (10_000 * apart (r.numerator * expected.denominator) (expected.numerator * r.denominator))
          (r.denominator * expected.denominator))
        "coverage_ratio does not match claim counts"

-- `{"critical", "high"} & severities`.
unfoldable pub has_severe : List SemanticRisk → Bool
has_severe [] = false
has_severe (r ∷ rs) =
    let others = has_severe rs in
    elim r.severity [ Severity.critical ↦ true | Severity.high ↦ true | _ ↦ others ]

unfoldable pub is_clear : List SemanticRisk → Bool
is_clear [] = true
is_clear (_ ∷ _) = false

-- `SemanticRiskReport.validate_report`.
unfoldable pub validate_report : SemanticRiskReport → Checked
unfolding same_outcome has_severe is_clear
validate_report r =
    let expected : Outcome =
      if has_severe r.risks then fail else if not (is_clear r.risks) then warning else pass in
    check (same_outcome r.outcome expected) "semantic outcome does not match risk severity"

-- `EvidenceBundle.validate_references`, without the citations.
unfoldable pub validate_references : EvidenceBundle → Checked
unfolding distinct subset each all
validate_references b =
    let ids = each (λ (i : EvidenceItem). i.evidence_id) b.evidence in
    check (distinct ids) "evidence_id values must be unique"
    >> check (all (λ (c : EvidenceConflict). subset c.evidence_refs ids) b.conflicts)
        "conflict references unknown evidence"

-- `CandidateSet.validate_candidates`.
unfoldable pub validate_candidates : CandidateSet → Checked
unfolding distinct each any
validate_candidates s =
    check (distinct (each (λ (c : Candidate). c.candidate_id) s.candidates))
      "candidate_id values must be unique"
    >> check (not (any (λ (c : Candidate). not (c.place_ref.timezone == s.timezone)) s.candidates))
        "candidate place timezones must match candidate set timezone"

same_outcome_refl : (o : Outcome) → same_outcome o o ≡ true
unfolding same_outcome
same_outcome_refl pass = refl
same_outcome_refl warning = refl
same_outcome_refl fail = refl

tally-pass : (cs : List ConstraintCheck) → count is_pass cs ≡ tally pass cs
unfolding count tally is_pass same_outcome
tally-pass [] = refl
tally-pass (c ∷ cs) = ground (arith, tally-pass cs)

tally-warning : (cs : List ConstraintCheck) → count is_warning cs ≡ tally warning cs
unfolding count tally is_warning same_outcome
tally-warning [] = refl
tally-warning (c ∷ cs) = ground (arith, tally-warning cs)

tally-fail : (cs : List ConstraintCheck) → count is_fail cs ≡ tally fail cs
unfolding count tally is_fail same_outcome
tally-fail [] = refl
tally-fail (c ∷ cs) = ground (arith, tally-fail cs)

validate-validate_checks :
    (casefold : String → String) (show : ℕ → String) (brief : TripBrief) (plan : ItineraryPlan)
    (bundle : EvidenceBundle)
    → validate_checks (validate casefold show brief plan bundle) ≡ ok tt
unfolding validate validate_checks summary_of outcome_of same_summary same_outcome
validate-validate_checks casefold show brief plan bundle =
    let cs = all_checks casefold show brief plan bundle in
    ground (arith, tally-pass cs, tally-warning cs, tally-fail cs)

any-has_severe : (rs : List SemanticRisk) → any is_grave_risk rs ≡ has_severe rs
unfolding any has_severe is_grave_risk is_grave
any-has_severe [] = refl
any-has_severe (r ∷ rs) = ground (arith, any-has_severe rs)

risk-validate :
    (rs : List SemanticRisk)
    → risk_outcome rs
      ≡ (if has_severe rs then fail else if not (is_clear rs) then warning else pass)
unfolding risk_outcome is_clear has_severe
risk-validate [] = refl
risk-validate (r ∷ rs) = rw (any-has_severe (r ∷ rs)) refl

verify-validate_report :
    (plan : ItineraryPlan) (bundle : EvidenceBundle) → validate_report (verify plan bundle) ≡ ok tt
unfolding verify validate_report
verify-validate_report plan bundle =
    let rs = all_risks plan bundle in
    ground (arith, risk-validate rs, same_outcome_refl (risk_outcome rs))

count-length : {A : Type 0} (p : A → Bool) (xs : List A) → count p xs ≤ length xs
unfolding count
count-length p [] = omega arith
count-length p (x ∷ xs) = ground (arith, count-length p xs)

coverage-validate_counts :
    (known : List String) (refs : List (List String))
    → validate_counts (coverage known refs) ≡ ok tt
unfolding validate_counts coverage apart
coverage-validate_counts known refs = ground (arith, count-length (is_supported known) refs)

-- For every brief, plan and evidence the counts and the outcome of the constraint report, the evidence
-- coverage, and the outcome of the semantic report agree with what the contracts count for
-- themselves. But the constraint report keeps the limit of 100 blocks that a check may name exactly
-- if the plan has no more than 100 blocks; else it is refused when it is made.
pub reports_keep_rules :
    (casefold : String → String) (show : ℕ → String) (brief : TripBrief) (plan : ItineraryPlan)
    (bundle : EvidenceBundle)
    → let report = validate casefold show brief plan bundle in
      (validate_checks report ≡ ok tt)
      × (validate_counts (verify plan bundle).evidence_coverage ≡ ok tt)
      × (validate_report (verify plan bundle) ≡ ok tt)
      × ((related_fit report.checks ≡ true) ↔ (length (blocks_of plan.days) ≤ 100))
unfolding validate verify
reports_keep_rules casefold show brief plan bundle = (
  validate-validate_checks casefold show brief plan bundle,
  coverage-validate_counts (evidence_ids bundle) (used plan),
  verify-validate_report plan bundle,
  checks_fit casefold show brief plan bundle,
)
