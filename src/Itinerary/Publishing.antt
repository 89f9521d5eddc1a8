-- ===== src/Itinerary/Publishing.antt =====
-- Publication from end to end: the two reports and the policy of
-- agent/travel_agent/runtime_v2/validation.py on one plan.
use route_pilot.Common.{
  ℕ, String, Bool, true, false, not, Option, none, some, List, [], ◌∷◌, ◌++◌, ◌*◌, ◌≤◌, ◌≡◌, ◌≢◌,
  ◌↔◌, refl, arith, All, if◌then◌else◌, each, length, keep,
}
use route_pilot.Common.Eq.{text_equality, ==_refl}
use route_pilot.Common.Exec.{ok}
use route_pilot.Common.Dict.{Dict}
use route_pilot.Common.Sets.{In, member, count, member_iff}
use route_pilot.Itinerary.Types.{
  TripBrief, ItineraryPlan, EvidenceBundle, EvidenceItem, EvidenceConflict, PlanTimeBlock, PlanDay,
  PlanAssumption, ConstraintCheck,
}
use route_pilot.Itinerary.Constraints.{blocks_of, end_of}
use route_pilot.Itinerary.Validate.{validate, all_checks}
use route_pilot.Itinerary.Feasible.{Feasible, evidence_ids, Timetable, DayFeasible}
use route_pilot.Itinerary.Soundness.{Clean}
use route_pilot.Itinerary.Refinement.{all_checks-Feasible}
use route_pilot.Itinerary.Review.{
  SemanticRisk, verify, all_risks, reference_risks, unknown_refs, stale_risks, assumption_risks,
  conflict_risk, is_unresolved, is_supported, used, coverage, is_grave, is_grave_risk, sorted_set,
  joined, evidence_by_id, Ratio,
}
use route_pilot.Itinerary.Policy.{
  ValidationReport, combine, decide, add_policy, add_risks, add_checks, no_issues,
}
use route_pilot.Itinerary.Release.{Mild, decide_lem}

Mild-append : (xs ys : List SemanticRisk) → Mild (xs ++ ys) ↔ (Mild xs × Mild ys)
Mild-append [] ys = ground arith
Mild-append (x ∷ xs) ys = ground (arith, Mild-append xs ys)

keep_missing :
    (known refs : List String)
    → (keep (λ r. not (member r known)) refs ≡ []) ↔ All (λ r. In r known) refs
unfolding keep
keep_missing known [] = ground arith
keep_missing known (r ∷ rs) = ground (arith, keep_missing known rs, member_iff r known)

abbrev Cites : List String → PlanTimeBlock → Type 0
Cites known b = All (λ r. In r known) b.evidence_refs

reference_risks_lem :
    (known : List String) (bs : List PlanTimeBlock)
    → Mild (reference_risks known bs) ↔ All (Cites known) bs
unfolding reference_risks is_grave_risk is_grave unknown_refs
reference_risks_lem known [] = ground arith
reference_risks_lem known (b ∷ bs) =
    ground (arith, keep_missing known b.evidence_refs, reference_risks_lem known bs)

stale_risks-Mild : (d : Dict String EvidenceItem) (rs : List String) → Mild (stale_risks d rs)
unfolding stale_risks is_grave_risk is_grave
stale_risks-Mild d [] = tt
stale_risks-Mild d (r ∷ rs) = ground (arith, stale_risks-Mild d rs)

assumption_risks-Mild : (rest : List PlanAssumption) → Mild (assumption_risks rest)
unfolding assumption_risks is_grave_risk is_grave
assumption_risks-Mild [] = tt
assumption_risks-Mild (a ∷ rest) = ground (arith, assumption_risks-Mild rest)

conflict_risks_lem :
    (cs : List EvidenceConflict)
    → Mild (each conflict_risk (keep is_unresolved cs)) ↔ All (λ c. is_unresolved c ≡ false) cs
unfolding each keep conflict_risk is_grave_risk is_grave
conflict_risks_lem [] = ground arith
conflict_risks_lem (c ∷ cs) = ground (arith, conflict_risks_lem cs)

Timetable-Cites :
    (known : List String) (local_date : ℕ) (previous_end : Option ℕ) (bs : List PlanTimeBlock)
    → Timetable known local_date previous_end bs
    → All (Cites known) bs
Timetable-Cites known local_date previous_end [] h = tt
Timetable-Cites known local_date previous_end (b ∷ bs) h =
    (h.2, Timetable-Cites known local_date (some (end_of local_date b.time_range)) bs h.3)

Cites-append :
    (known : List String) (xs ys : List PlanTimeBlock)
    → All (Cites known) xs
    → All (Cites known) ys
    → All (Cites known) (xs ++ ys)
Cites-append known = route_pilot.Common.All-append (Cites known)

DayFeasible-Cites :
    (known : List String) (ds : List PlanDay)
    → All (DayFeasible known) ds
    → All (Cites known) (blocks_of ds)
unfolding blocks_of
DayFeasible-Cites known [] h = tt
DayFeasible-Cites known (d ∷ ds) h =
    Cites-append known d.time_blocks (blocks_of ds)
      (Timetable-Cites known d.date none d.time_blocks h.0.1) (DayFeasible-Cites known ds h.1)

-- Nine claims in ten are supported by known evidence.
abbrev pub Covered : ItineraryPlan → EvidenceBundle → Type 0
Covered plan bundle =
    9 * length (used plan) ≤ 10 * count (is_supported (evidence_ids bundle)) (used plan)

abbrev pub Settled : EvidenceBundle → Type 0
Settled bundle = All (λ c. is_unresolved c ≡ false) bundle.conflicts

all_risks-Mild :
    (plan : ItineraryPlan) (bundle : EvidenceBundle)
    → Mild (all_risks plan bundle)
      ↔ (All (Cites (evidence_ids bundle)) (blocks_of plan.days) × Settled bundle)
unfolding all_risks
all_risks-Mild plan bundle =
    let known = evidence_ids bundle in
    let refs = reference_risks known (blocks_of plan.days) in
    let stale =
      stale_risks (evidence_by_id [] bundle.evidence)
        (sorted_set (keep (λ r. member r known) (joined (used plan)))) in
    let open_conflicts = each conflict_risk (keep is_unresolved bundle.conflicts) in
    ground (
      arith,
      Mild-append (refs ++ stale) (assumption_risks plan.assumptions ++ open_conflicts),
      Mild-append refs stale,
      Mild-append (assumption_risks plan.assumptions) open_conflicts,
      reference_risks_lem known (blocks_of plan.days),
      stale_risks-Mild (evidence_by_id [] bundle.evidence)
          (sorted_set (keep (λ r. member r known) (joined (used plan)))),
      assumption_risks-Mild plan.assumptions,
      conflict_risks_lem bundle.conflicts,
    )

abbrev Thick : Ratio → Type 0
Thick ratio = 9 * ratio.denominator ≤ 10 * ratio.numerator

coverage_lem :
    (known : List String) (refs : List (List String))
    → Thick (coverage known refs).coverage_ratio
      ↔ (9 * length refs ≤ 10 * count (is_supported known) refs)
unfolding coverage
coverage_lem known refs = ground arith

module _ (casefold : String → String) (show : ℕ → String) (brief : TripBrief) (plan : ItineraryPlan)
    (bundle : EvidenceBundle) where
  sound :
      (Clean (all_checks casefold show brief plan bundle)
        × Mild (all_risks plan bundle)
        × Thick (coverage (evidence_ids bundle) (used plan)).coverage_ratio)
      ↔ (Feasible casefold brief plan bundle × Settled bundle × Covered plan bundle)
  sound =
      let clean = all_checks-Feasible casefold show brief plan bundle in
      let mild = all_risks-Mild plan bundle in
      let thick = coverage_lem (evidence_ids bundle) (used plan) in
      (
        λ h. (clean.0 h.0, (mild.0 h.1).1, thick.0 h.2),
        λ h. (
          clean.1 h.0,
          mild.1 (DayFeasible-Cites (evidence_ids bundle) plan.days h.0.days, h.1),
          thick.1 h.2,
        ),
      )

  -- For every brief, plan and evidence the policy accepts the two reports on the plan, and lets the
  -- plan be published exactly if it is feasible (as in `validate-Feasible`), no conflict among its
  -- evidence is unresolved, and at least nine in ten of its blocks and assumptions cite evidence
  -- that is known.
  pub publishable_iff :
      (r : ValidationReport) × (combine plan
          (validate casefold show brief plan bundle)
          (verify plan bundle)
        ≡ ok r)
      × ((r.publishable ≡ true)
          ↔ (Feasible casefold brief plan bundle × Settled bundle × Covered plan bundle))
  unfolding combine validate verify
  publishable_iff = (_, accepted, grounds)
    where
      checks : List ConstraintCheck
      checks = all_checks casefold show brief plan bundle

      report : ValidationReport
      report = decide plan (
          add_policy (coverage (evidence_ids bundle) (used plan)).coverage_ratio
            (add_risks (all_risks plan bundle) (add_checks checks no_issues)))

      accepted :
          combine plan (validate casefold show brief plan bundle) (verify plan bundle) ≡ ok report
      accepted = rw (==_refl plan.artifact_id) refl

      grounds :
          (report.publishable ≡ true)
          ↔ (Feasible casefold brief plan bundle × Settled bundle × Covered plan bundle)
      grounds =
          let decided =
            decide_lem plan checks (all_risks plan bundle)
              (coverage (evidence_ids bundle) (used plan)).coverage_ratio in
          (λ h. sound.0 (decided.0 h), λ h. decided.1 (sound.1 h))
