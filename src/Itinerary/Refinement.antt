-- ===== src/Itinerary/Refinement.antt =====
-- The constraint report of agent/travel_agent/runtime_v2/validation.py against its specification.
use route_pilot.Common.{ℕ, String, List, [], ◌++◌, ◌∷◌, ◌≢◌, ◌↔◌, arith, each}
use route_pilot.Common.Sets.{count-zero}
use route_pilot.Itinerary.Types.{
  TripBrief, EvidenceBundle, ItineraryPlan, Outcome, fail, pass, warning,
}
use route_pilot.Itinerary.Constraints.{day_checks, blocks_of}
use route_pilot.Itinerary.Validate.{
  is_fail, validate, all_checks, summary_of, outcome_of, titles, constraint_checks, budget_check,
  freshness_check, freshness_by_id,
}
use route_pilot.Itinerary.Feasible.{Feasible, evidence_ids}
use route_pilot.Itinerary.Soundness.{
  Clean, Clean-append, date_check_iff, concrete_check_iff, day_checks_iff, budget_check_iff,
  constraint_checks_iff, freshness_checks-Clean,
}

module _ (casefold : String → String) (show : ℕ → String) (brief : TripBrief) (plan : ItineraryPlan)
    (bundle : EvidenceBundle) where
  abbrev late_checks : List route_pilot.Itinerary.Types.ConstraintCheck
  late_checks =
      constraint_checks casefold (titles casefold plan.days) brief.constraints
      ++ each (freshness_check (freshness_by_id [] bundle.evidence)) (blocks_of plan.days)

  pub all_checks-Feasible :
      Clean (all_checks casefold show brief plan bundle) ↔ Feasible casefold brief plan bundle
  unfolding all_checks
  all_checks-Feasible = ground (
    arith,
    date_check_iff brief plan,
    concrete_check_iff brief plan,
    Clean-append (day_checks (evidence_ids bundle) plan.days)
        (budget_check show brief plan ∷ late_checks),
    day_checks_iff (evidence_ids bundle) plan.days,
    budget_check_iff show brief plan,
    Clean-append (constraint_checks casefold (titles casefold plan.days) brief.constraints)
        (each (freshness_check (freshness_by_id [] bundle.evidence)) (blocks_of plan.days)),
    constraint_checks_iff casefold (titles casefold plan.days) brief.constraints,
    freshness_checks-Clean (freshness_by_id [] bundle.evidence) (blocks_of plan.days),
  )

  -- The report of `validate` does not fail exactly if the plan is feasible: it has days, all of them
  -- in the traveller's window, and a place other than the destination; on each day no place comes
  -- twice, each block takes the minutes it says, leaves the time that the way to it takes, and cites
  -- known evidence; the cost is within the budget, in its currency; and the hard visits and
  -- avoidances are honoured.
  pub validate-Feasible :
      ((validate casefold show brief plan bundle).outcome ≢ fail)
      ↔ Feasible casefold brief plan bundle
  unfolding validate outcome_of summary_of
  validate-Feasible =
      ground (
        arith,
        all_checks-Feasible,
        count-zero is_fail (all_checks casefold show brief plan bundle),
      )
