-- ===== src/Itinerary/Limits.antt =====
-- The limit that packages/python/routepilot_contracts (artifacts.py) sets the blocks that a check
-- names, and the checks of agent/travel_agent/runtime_v2/validation.py.
use route_pilot.Common.{
  ℕ, String, Bool, true, Option, none, some, List, [], ◌∷◌, ◌++◌, ◌≤◌, ◌≡◌, ◌↔◌, refl, arith, leb,
  all, each, length, length-append, ◌&&◌, inl, inr, Bool-cases, ◌∙◌,
}
use route_pilot.Itinerary.Types.{
  TripBrief, ItineraryPlan, PlanDay, PlanTimeBlock, EvidenceBundle, EvidenceItem, ConstraintSpec,
  ConstraintCheck, FreshnessStatus,
}
use route_pilot.Common.Dict.{Dict}
use route_pilot.Itinerary.Constraints.{
  verdict, blocks_of, block_ids, date_check, concrete_check, unique_check, duration_check,
  route_check, route_checks, reference_check, block_checks, day_checks, end_of,
}
use route_pilot.Itinerary.Validate.{
  budget_check, mention_check, constraint_checks, freshness_check, freshness_by_id, titles,
  all_checks,
}

-- The limit of `ConstraintCheck.related_block_ids`.
unfoldable pub is_short : ConstraintCheck → Bool
is_short c = leb (length c.related_block_ids) 100

unfoldable pub related_fit : List ConstraintCheck → Bool
unfolding all is_short
related_fit checks = all is_short checks

fit-append :
    (xs ys : List ConstraintCheck) → related_fit (xs ++ ys) ≡ (related_fit xs && related_fit ys)
unfolding related_fit all
fit-append [] ys = refl
fit-append (x ∷ xs) ys = ground (arith, fit-append xs ys)

length-block_ids : (bs : List PlanTimeBlock) → length (block_ids bs) ≡ length bs
unfolding each
length-block_ids [] = refl
length-block_ids (b ∷ bs) = omega (arith, length-block_ids bs)

date-is_short : (brief : TripBrief) (plan : ItineraryPlan) → is_short (date_check brief plan) ≡ true
unfolding date_check verdict is_short
date-is_short brief plan = ground arith

concrete-is_short :
    (brief : TripBrief) (plan : ItineraryPlan)
    → is_short (concrete_check brief plan) ≡ leb (length (blocks_of plan.days)) 100
unfolding concrete_check verdict is_short
concrete-is_short brief plan = ground (arith, length-block_ids (blocks_of plan.days))

unique-is_short : (d : PlanDay) → is_short (unique_check d) ≡ leb (length d.time_blocks) 100
unfolding unique_check verdict is_short
unique-is_short d = ground (arith, length-block_ids d.time_blocks)

block-fit :
    (known : List String) (local_date : ℕ) (end : Option ℕ) (bs : List PlanTimeBlock)
    → related_fit (block_checks known local_date end bs) ≡ true
unfolding block_checks duration_check route_checks route_check reference_check verdict related_fit
    is_short all
block-fit known local_date end [] = refl
block-fit known local_date none (b ∷ bs) =
    ground (arith, block-fit known local_date (some (end_of local_date b.time_range)) bs)
block-fit known local_date (some end) (b ∷ bs) =
    ground (arith, block-fit known local_date (some (end_of local_date b.time_range)) bs)

-- No day has more blocks than the plan.
days-fit :
    (known : List String) (ds : List PlanDay)
    → length (blocks_of ds) ≤ 100
    → related_fit (day_checks known ds) ≡ true
unfolding day_checks blocks_of related_fit all
days-fit known [] h = refl
days-fit known (d ∷ ds) h = ground (
  arith,
  length-append d.time_blocks (blocks_of ds),
  unique-is_short d,
  fit-append (block_checks known d.date none d.time_blocks) (day_checks known ds),
  block-fit known d.date none d.time_blocks,
  days-fit known ds,
)

budget-is_short :
    (show : ℕ → String) (brief : TripBrief) (plan : ItineraryPlan)
    → is_short (budget_check show brief plan) ≡ true
unfolding budget_check verdict is_short
budget-is_short show brief plan = ground arith

constraint-fit :
    (casefold : String → String) (mentioned_in : String) (cs : List ConstraintSpec)
    → related_fit (constraint_checks casefold mentioned_in cs) ≡ true
unfolding constraint_checks mention_check verdict related_fit is_short all
constraint-fit casefold mentioned_in [] = refl
constraint-fit casefold mentioned_in (c ∷ cs) =
    ground (arith, constraint-fit casefold mentioned_in cs)

freshness-fit :
    (d : Dict String FreshnessStatus) (bs : List PlanTimeBlock)
    → related_fit (each (freshness_check d) bs) ≡ true
unfolding freshness_check related_fit is_short all each
freshness-fit d [] = refl
freshness-fit d (b ∷ bs) = ground (arith, freshness-fit d bs)

-- The checks keep the limit exactly if the plan has no more blocks than one check may name.
pub checks_fit :
    (casefold : String → String) (show : ℕ → String) (brief : TripBrief) (plan : ItineraryPlan)
    (bundle : EvidenceBundle)
    → (related_fit (all_checks casefold show brief plan bundle) ≡ true)
      ↔ (length (blocks_of plan.days) ≤ 100)
unfolding all_checks related_fit all
checks_fit casefold show brief plan bundle =
    let known = each (λ (i : EvidenceItem). i.evidence_id) bundle.evidence in
    let mentions = constraint_checks casefold (titles casefold plan.days) brief.constraints in
    let fresh = each (freshness_check (freshness_by_id [] bundle.evidence)) (blocks_of plan.days) in
    let rest : related_fit (budget_check show brief plan ∷ (mentions ++ fresh)) ≡ true =
      rw
        (
          budget-is_short show brief plan,
          fit-append mentions fresh,
          constraint-fit casefold (titles casefold plan.days) brief.constraints,
          freshness-fit (freshness_by_id [] bundle.evidence) (blocks_of plan.days),
        )
        refl in
    let whole : related_fit (all_checks casefold show brief plan bundle)
        ≡ (leb (length (blocks_of plan.days)) 100 && related_fit (day_checks known plan.days)) =
      rw
        (
          date-is_short brief plan,
          concrete-is_short brief plan,
          fit-append (day_checks known plan.days)
              (budget_check show brief plan ∷ (mentions ++ fresh)),
          rest,
        )
        (ground arith) in
    elim (Bool-cases (leb (length (blocks_of plan.days)) 100)) [
      | inl w ↦
          let days = days-fit known plan.days (ground (arith, w)) in
          ((λ h. ground (arith, w)), (λ h. whole ∙ rw (w, days) refl))
      | inr w ↦ ((λ h. absurd (ground (arith, whole, w, h))), (λ h. absurd (ground (arith, w, h))))
    ]
