-- ===== src/Itinerary/Build.antt =====
-- DeterministicPlanner.build_candidate of agent/travel_agent/runtime_v2/planning.py: its checks, and
-- the plan that it makes of its days.
use route_pilot.Common.{ℕ, String, Bool, true, false, ◌&&◌, List, [], ◌∷◌}
use route_pilot.Common.Eq.{◌==◌, text_equality}
use route_pilot.Common.Exec.{Result, ok}
use route_pilot.Common.Outcome.{check, ◌>>=◌, ◌>>◌}
use route_pilot.Itinerary.Types.{
  TripBrief, EvidenceBundle, Candidate, CandidateSet, TransitLeg, ItineraryPlan,
}
use route_pilot.Itinerary.Contract.{validate_plan}
use route_pilot.Itinerary.Planner.{
  PlanningPolicy, money, dates_between, terms, eligible_of, planning_candidates,
}
use route_pilot.Itinerary.Schedule.{Setting, Totals, nothing_yet, build_days}

abbrev pub has_candidates : List Candidate → Bool
has_candidates [] = false
has_candidates (_ ∷ _) = true

module _ (casefold : String → String) (policy : PlanningPolicy)
    (route : Candidate → Candidate → Result String TransitLeg) (new_item : ℕ → ℕ → String)
    (new_artifact : String) where
  unfoldable pub eligible : TripBrief → CandidateSet → List Candidate
  unfolding eligible_of terms
  eligible brief set = eligible_of casefold (terms casefold false brief.constraints) set.candidates

  unfoldable pub setting : TripBrief → CandidateSet → Setting
  unfolding eligible planning_candidates
  setting brief set = record {
    policy = policy;
    route = route;
    new_item = new_item;
    timezone = set.timezone;
    currency = brief.budget.currency;
    candidates = planning_candidates casefold brief.constraints (eligible brief set);
  }

  unfoldable pub finish : TripBrief → CandidateSet → Totals → Result String ItineraryPlan
  unfolding money validate_plan
  finish brief set t = money t.total_min t.total_max brief.budget.currency >>= λ total.
      let plan : ItineraryPlan = record {
        artifact_id = new_artifact;
        timezone = set.timezone;
        assumptions = [];
        days = t.days;
        estimated_total = total;
        route_summary = t.route;
      } in
      validate_plan plan >> ok plan

  unfoldable pub build_candidate :
      TripBrief → CandidateSet → EvidenceBundle → Result String ItineraryPlan
  unfolding eligible setting build_days finish dates_between
  build_candidate brief set bundle =
      check (set.trip_brief_ref == brief.artifact_id)
        "candidate set does not belong to the supplied trip brief"
      >> (check (set.evidence_bundle_ref == bundle.artifact_id)
            "candidate set does not belong to the supplied evidence bundle"
          >> (check
                (brief.destination.timezone == set.timezone && (bundle.timezone == set.timezone))
                "planner inputs must share one timezone"
              >> (check (has_candidates (eligible brief set))
                    "hard avoid constraints removed every grounded candidate"
                  >> (build_days (setting brief set) 0
                        (dates_between brief.date_window.start_date brief.date_window.end_date)
                        nothing_yet
                      >>= finish brief set))))
