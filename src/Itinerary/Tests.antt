-- ===== src/Itinerary/Tests.antt =====
-- The planner and the validator (agent/travel_agent/runtime_v2) on small inputs.
use route_pilot.Common.{
  true, false, none, some, [], ◌∷◌, ◌≡◌, ◌≢◌, ◌↔◌, inl, inr, refl, arith, All, each, length, ◌%◌,
  ◌+◌, ◌≤◌, ◌++◌,
}
use route_pilot.Common.Exec.{ok}
use route_pilot.Common.Text.{decimal, join}
use route_pilot.Common.Dict.{lookup, insert}
use route_pilot.Common.{all}
use route_pilot.Itinerary.Types.{pass, warning, fail, TransitLeg, PlanDay, Candidate}
use route_pilot.Itinerary.Constraints.{block_checks, date_check, dates}
use route_pilot.Itinerary.Validate.{validate, is_fail}
use route_pilot.Itinerary.Review.{verify}
use route_pilot.Itinerary.Policy.{combine, ValidationReport, validate_verdict}
use route_pilot.Itinerary.Feasible.{Feasible}
use route_pilot.Itinerary.Rules.{
  validate_checks, validate_counts, validate_report, reports_keep_rules,
}
use route_pilot.Itinerary.Publishing.{publishable_iff, Settled, Covered}
use route_pilot.Itinerary.Filing.{
  combine_files, failures, cautions, severe_risks, mild_risks, coverage_issue,
}
use route_pilot.Itinerary.Limits.{related_fit}
use route_pilot.Itinerary.Constraints.{blocks_of}
use route_pilot.Itinerary.Refinement.{validate-Feasible}
use route_pilot.Itinerary.Planner.{default_policy, dates_between}
use route_pilot.Itinerary.Build.{build_candidate, setting}
use route_pilot.Itinerary.Schedule.{
  next_round, duration_of, build_days, travel, place_blocks, nothing_yet,
}
use route_pilot.Itinerary.Planner.{add_leg, nth}
use route_pilot.Itinerary.Breaks.{broken_round_counted}
use route_pilot.Itinerary.Midnight.{midnight_fails_plan}
use route_pilot.Itinerary.Soundness.{Clean}
use route_pilot.Itinerary.Composition.{planned_days_pass}
use route_pilot.Itinerary.Samples.{
  brief, bundle, candidates, plan, always, same_text, item, report, busy, evening, passed_over,
  lake, slow, after_temple, at_night, temple, yuan,
}

planner_runs :
    build_candidate same_text default_policy always item "plan" brief candidates bundle ≡ ok plan
unfolding build_candidate join
planner_runs = refl

report_outcome : (validate same_text decimal brief plan bundle).outcome ≡ warning
unfolding validate all lookup insert
report_outcome = refl

validate-Feasible_example :
    ((validate same_text decimal brief plan bundle).outcome ≢ fail)
    ↔ Feasible same_text brief plan bundle
validate-Feasible_example = validate-Feasible same_text decimal brief plan bundle

publishable_iff_example :
    (r : ValidationReport) × (combine plan
        (validate same_text decimal brief plan bundle)
        (verify plan bundle)
      ≡ ok r)
    × ((r.publishable ≡ true)
        ↔ (Feasible same_text brief plan bundle × Settled bundle × Covered plan bundle))
publishable_iff_example = publishable_iff same_text decimal brief plan bundle

combined :
    combine plan (validate same_text decimal brief plan bundle) (verify plan bundle) ≡ ok report
unfolding combine validate verify all lookup insert
combined = refl

combine_files_example :
    let constraints = validate same_text decimal brief plan bundle in
    let review = verify plan bundle in
    (report.blockers
      ≡ failures constraints.checks
        ++ (severe_risks review.risks ++ coverage_issue review.evidence_coverage.coverage_ratio))
    × (report.warnings ≡ cautions constraints.checks ++ mild_risks review.risks)
    × ((report.publishable ≡ true) ↔ (report.blockers ≡ []))
    × ((report.verdict ≡ fail) ↔ (report.publishable ≡ false))
    × ((report.verdict ≡ pass) ↔ ((report.blockers ≡ []) × (report.warnings ≡ [])))
    × (validate_verdict report ≡ ok tt)
combine_files_example =
    combine_files plan (validate same_text decimal brief plan bundle) (verify plan bundle) combined

planned_days_pass_example :
    (dates plan.days ≡ 100 ∷ 101 ∷ [])
    × (is_fail (date_check brief plan) ≡ false)
    × All
        (λ (d : PlanDay). Clean (block_checks ("e1" ∷ "e2" ∷ []) d.date none d.time_blocks))
        plan.days
unfolding dates_between each
planned_days_pass_example =
    planned_days_pass same_text always item "plan" brief candidates bundle plan
      (λ p c l h. ground arith) ((inl refl, tt), ((inl refl, tt), ((inr (inl refl), tt), tt)))
      (ground arith) planner_runs

midnight_fails_plan_example :
    build_candidate same_text default_policy slow item "plan" brief candidates bundle ≢ ok plan
unfolding setting dates_between build_days next_round travel duration_of join
midnight_fails_plan_example =
    midnight_fails_plan same_text default_policy slow item "plan" brief candidates bundle plan []
      (101 ∷ []) 100 1 nothing_yet after_temple lake at_night (yuan 0) refl refl refl
      (after_temple, refl, refl) (ground arith) refl refl refl refl (ground arith) (ground arith)

broken_round_counted_example :
    (place_blocks busy (1 + 1) 0 100 1 (evening 1100) ≡ ok passed_over)
    × (passed_over.blocks ≡ (evening 1100).blocks)
    × (passed_over.cursor ≡ 1)
    × ((l : TransitLeg) × (c : Candidate) × (nth (0 % length busy.candidates) busy.candidates
          ≡ some c)
        × (always temple c ≡ ok l)
        × (passed_over.route ≡ add_leg l (evening 1100).route))
unfolding next_round
broken_round_counted_example =
    broken_round_counted busy 0 100 1 1 (evening 1100) passed_over temple refl refl

reports_keep_rules_example :
    (validate_checks (validate same_text decimal brief plan bundle) ≡ ok tt)
    × (validate_counts (verify plan bundle).evidence_coverage ≡ ok tt)
    × (validate_report (verify plan bundle) ≡ ok tt)
    × ((related_fit (validate same_text decimal brief plan bundle).checks ≡ true)
        ↔ (length (blocks_of plan.days) ≤ 100))
reports_keep_rules_example = reports_keep_rules same_text decimal brief plan bundle
