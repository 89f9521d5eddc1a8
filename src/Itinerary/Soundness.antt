-- ===== src/Itinerary/Soundness.antt =====
-- What the single checks of agent/travel_agent/runtime_v2/validation.py decide.
use route_pilot.Common.{
  ℕ, String, Bool, true, false, not, Option, none, some, List, [], ◌∷◌, ◌++◌, ◌+◌, ◌*◌, ◌≤◌, ◌<◌,
  ◌≡◌, ◌≢◌, ◌↔◌, All, arith, any, each, if◌then◌else◌, refl, ltb,
}
use route_pilot.Common.Eq.{◌==◌, text_equality, ==_iff}
use route_pilot.Common.Sets.{In, Distinct, distinct_iff, subset_iff}
use route_pilot.Common.Dict.{Dict}
use route_pilot.Common.Text.{contains}
use route_pilot.Itinerary.Types.{
  Category, PlanTimeBlock, PlanDay, TripBrief, ItineraryPlan, ConstraintCheck, minute,
  ConstraintSpec, FreshnessStatus,
}
use route_pilot.Itinerary.Constraints.{
  verdict, minutes_between, equals, at_least, least, greatest, dates_valid, dates, date_check,
  concrete_check, blocks_of, unique_check, duration_check, route_check, route_checks,
  reference_check, block_checks, day_checks, start_of, end_of, place_ids, required_minutes,
}
use route_pilot.Itinerary.Validate.{
  is_fail, freshness_check, budget_check, budget_ok, mention_check, constraint_checks, checkable,
}
use route_pilot.Itinerary.Feasible.{
  Elsewhere, Honoured, IsTimed, Reaches, Timetable, DayFeasible, InWindow,
}

-- No check of the list fails.
abbrev pub Clean : List ConstraintCheck → Type 0
Clean checks = All (λ c. is_fail c ≡ false) checks

verdict-fails :
    (ok : Bool) (c : Category) (ids : List String) (good bad : String)
    → is_fail (verdict ok c ids good bad) ≡ not ok
unfolding is_fail verdict
verdict-fails true c ids good bad = refl
verdict-fails false c ids good bad = refl

equals_iff :
    (start end n : ℕ)
    → (equals (minutes_between start end) n ≡ true)
      ↔ ((start + n * minute ≤ end) × (end < start + n * minute + minute))
unfolding equals minutes_between
equals_iff start end n = ground arith

at_least_iff :
    (start end n : ℕ) → (at_least (minutes_between start end) n ≡ true) ↔ (start + n * minute ≤ end)
unfolding at_least minutes_between
at_least_iff start end n = ground arith

duration_check_iff :
    (local_date : ℕ) (b : PlanTimeBlock)
    → (is_fail (duration_check local_date b) ≡ false) ↔ IsTimed local_date b
unfolding duration_check is_fail verdict
duration_check_iff local_date b =
    let start = start_of local_date b.time_range in
    let end = end_of local_date b.time_range in
    ground (arith, equals_iff start end b.duration_minutes)

route_check_iff :
    (previous_end local_date : ℕ) (b : PlanTimeBlock)
    → (is_fail (route_check previous_end local_date b) ≡ false)
      ↔ Reaches (some previous_end) local_date b
unfolding route_check is_fail verdict
route_check_iff previous_end local_date b =
    ground
      (arith, at_least_iff previous_end (start_of local_date b.time_range) (required_minutes b))

reference_check_iff :
    (known : List String) (b : PlanTimeBlock)
    → (is_fail (reference_check known b) ≡ false) ↔ All (λ r. In r known) b.evidence_refs
unfolding reference_check is_fail verdict
reference_check_iff known b = ground (arith, subset_iff b.evidence_refs known)

unique_check_iff :
    (d : PlanDay) → (is_fail (unique_check d) ≡ false) ↔ Distinct (place_ids d.time_blocks)
unfolding unique_check is_fail verdict
unique_check_iff d = ground (arith, distinct_iff (place_ids d.time_blocks))

pub Clean-append : (xs ys : List ConstraintCheck) → Clean (xs ++ ys) ↔ (Clean xs × Clean ys)
Clean-append [] ys = ground arith
Clean-append (x ∷ xs) ys = ground (arith, Clean-append xs ys)

route_checks_iff :
    (previous_end : Option ℕ) (local_date : ℕ) (b : PlanTimeBlock)
    → Clean (route_checks previous_end local_date b) ↔ Reaches previous_end local_date b
unfolding route_checks
route_checks_iff none local_date b = ground arith
route_checks_iff (some previous_end) local_date b =
    ground (arith, route_check_iff previous_end local_date b)

-- The checks of a day's blocks find nothing exactly if the day's timetable is sound.
pub block_checks_iff :
    (known : List String) (local_date : ℕ) (previous_end : Option ℕ) (bs : List PlanTimeBlock)
    → Clean (block_checks known local_date previous_end bs)
      ↔ Timetable known local_date previous_end bs
unfolding block_checks
block_checks_iff known local_date previous_end [] = ground arith
block_checks_iff known local_date previous_end (b ∷ bs) =
    let next = some (end_of local_date b.time_range) in
    let rest = reference_check known b ∷ block_checks known local_date next bs in
    ground (
      arith,
      duration_check_iff local_date b,
      Clean-append (route_checks previous_end local_date b) rest,
      route_checks_iff previous_end local_date b,
      reference_check_iff known b,
      block_checks_iff known local_date next bs,
    )

pub day_checks_iff :
    (known : List String) (ds : List PlanDay)
    → Clean (day_checks known ds) ↔ All (DayFeasible known) ds
unfolding day_checks
day_checks_iff known [] = ground arith
day_checks_iff known (d ∷ ds) = ground (
  arith,
  unique_check_iff d,
  Clean-append (block_checks known d.date none d.time_blocks) (day_checks known ds),
  block_checks_iff known d.date none d.time_blocks,
  day_checks_iff known ds,
)

least_iff :
    (bound d : ℕ) (xs : List ℕ) → (bound ≤ least d xs) ↔ ((bound ≤ d) × All (λ x. bound ≤ x) xs)
unfolding least
least_iff bound d [] = ground arith
least_iff bound d (x ∷ xs) = ground (arith, least_iff bound (if ltb x d then x else d) xs)

greatest_iff :
    (bound d : ℕ) (xs : List ℕ) → (greatest d xs ≤ bound) ↔ ((d ≤ bound) × All (λ x. x ≤ bound) xs)
unfolding greatest
greatest_iff bound d [] = ground arith
greatest_iff bound d (x ∷ xs) = ground (arith, greatest_iff bound (if ltb d x then x else d) xs)

InWindow-dates :
    (brief : TripBrief) (ds : List PlanDay)
    → All (InWindow brief) ds ↔ (
        All (λ x. brief.date_window.start_date ≤ x) (dates ds)
        × All (λ x. x ≤ brief.date_window.end_date) (dates ds))
unfolding each
InWindow-dates brief [] = ground arith
InWindow-dates brief (d ∷ ds) = ground (arith, InWindow-dates brief ds)

dates_valid_iff :
    (brief : TripBrief) (ds : List PlanDay)
    → (dates_valid brief (dates ds) ≡ true) ↔ ((ds ≢ []) × All (InWindow brief) ds)
unfolding dates_valid each
dates_valid_iff brief [] = ground arith
dates_valid_iff brief (d ∷ ds) =
    let window = brief.date_window in
    ground (
      arith,
      least_iff window.start_date d.date (dates ds),
      greatest_iff window.end_date d.date (dates ds),
      InWindow-dates brief ds,
    )

pub date_check_iff :
    (brief : TripBrief) (plan : ItineraryPlan)
    → (is_fail (date_check brief plan) ≡ false)
      ↔ ((plan.days ≢ []) × All (InWindow brief) plan.days)
unfolding date_check is_fail verdict
date_check_iff brief plan = ground (arith, dates_valid_iff brief plan.days)

abbrev other_place : String → String → Bool
other_place city p = not (p == city)

Elsewhere-iff :
    (city : String) (ps : List String) → (any (other_place city) ps ≡ true) ↔ Elsewhere city ps
unfolding any
Elsewhere-iff city [] = ground arith
Elsewhere-iff city (p ∷ ps) = ground (arith, Elsewhere-iff city ps, ==_iff p city)

pub concrete_check_iff :
    (brief : TripBrief) (plan : ItineraryPlan)
    → (is_fail (concrete_check brief plan) ≡ false)
      ↔ Elsewhere brief.destination.place_id (place_ids (blocks_of plan.days))
unfolding concrete_check is_fail verdict
concrete_check_iff brief plan =
    ground (arith, Elsewhere-iff brief.destination.place_id (place_ids (blocks_of plan.days)))

pub budget_check_iff :
    (show : ℕ → String) (brief : TripBrief) (plan : ItineraryPlan)
    → (is_fail (budget_check show brief plan) ≡ false) ↔ (
        (plan.estimated_total.currency ≡ brief.budget.currency)
        × (plan.estimated_total.max_amount ≤ brief.budget.max_amount))
unfolding budget_check budget_ok is_fail verdict
budget_check_iff show brief plan =
    ground (arith, ==_iff plan.estimated_total.currency brief.budget.currency)

module _ (casefold : String → String) (mentioned_in : String) where
  mention_check_iff :
      (c : ConstraintSpec) (is_visit : Bool)
      → (is_fail (mention_check casefold mentioned_in c is_visit) ≡ false)
        ↔ (contains (casefold c.description) mentioned_in ≡ is_visit)
  unfolding mention_check is_fail verdict
  mention_check_iff c is_visit = ground arith

  pub constraint_checks_iff :
      (cs : List ConstraintSpec)
      → Clean (constraint_checks casefold mentioned_in cs) ↔ All (Honoured casefold mentioned_in) cs
  unfolding constraint_checks checkable
  constraint_checks_iff [] = ground arith
  constraint_checks_iff (c ∷ cs) =
      ground (arith, mention_check_iff c true, mention_check_iff c false, constraint_checks_iff cs)

-- Freshness alone never makes a report fail.
pub freshness_checks-Clean :
    (d : Dict String FreshnessStatus) (bs : List PlanTimeBlock)
    → Clean (each (freshness_check d) bs)
unfolding each freshness_check is_fail
freshness_checks-Clean d [] = tt
freshness_checks-Clean d (b ∷ bs) = ground (arith, freshness_checks-Clean d bs)
