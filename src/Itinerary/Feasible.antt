-- ===== src/Itinerary/Feasible.antt =====
-- What the constraint report of agent/travel_agent/runtime_v2/validation.py promises about a plan,
-- written without checks and reports.
use route_pilot.Common.{
  ℕ, String, Bool, true, false, Option, none, some, List, [], ◌∷◌, ◌+◌, ◌*◌, ◌≤◌, ◌<◌, ◌≡◌, ◌≢◌,
  ◌⊎◌, All,
}
use route_pilot.Common.Eq.{text_equality}
use route_pilot.Common.Sets.{In, Distinct}
use route_pilot.Common.Text.{contains}
use route_pilot.Itinerary.Types.{
  ConstraintType, ConstraintSpec, TripBrief, EvidenceBundle, EvidenceItem, PlanTimeBlock, PlanDay,
  ItineraryPlan, minute,
}
use route_pilot.Itinerary.Constraints.{start_of, end_of, required_minutes, blocks_of, place_ids}
use route_pilot.Itinerary.Validate.{titles}

-- The block takes as many full minutes as it says.
abbrev pub IsTimed : ℕ → PlanTimeBlock → Type 0
IsTimed local_date b =
    let start = start_of local_date b.time_range in
    let end = end_of local_date b.time_range in
    (start + b.duration_minutes * minute ≤ end)
    × (end < start + b.duration_minutes * minute + minute)

-- The way from the block before can be made in time.
abbrev pub Reaches : Option ℕ → ℕ → PlanTimeBlock → Type 0
Reaches none local_date b = Unit
Reaches (some previous_end) local_date b =
    previous_end + required_minutes b * minute ≤ start_of local_date b.time_range

abbrev pub Timetable : List String → ℕ → Option ℕ → List PlanTimeBlock → Type 0
Timetable known local_date previous_end [] = Unit
Timetable known local_date previous_end (b ∷ bs) =
    IsTimed local_date b
    × Reaches previous_end local_date b
    × All (λ r. In r known) b.evidence_refs
    × Timetable known local_date (some (end_of local_date b.time_range)) bs

abbrev pub DayFeasible : List String → PlanDay → Type 0
DayFeasible known d = Distinct (place_ids d.time_blocks) × Timetable known d.date none d.time_blocks

abbrev pub InWindow : TripBrief → PlanDay → Type 0
InWindow brief d = (brief.date_window.start_date ≤ d.date) × (d.date ≤ brief.date_window.end_date)

-- A hard visit is named by a title, and a hard avoidance by none.
abbrev pub Honoured : (String → String) → String → ConstraintSpec → Type 0
Honoured casefold mentioned_in c =
    let mentioned = contains (casefold c.description) mentioned_in in
    (c.hard ≡ true → c.constraint_type ≡ ConstraintType.visit → mentioned ≡ true)
    × (c.hard ≡ true → c.constraint_type ≡ ConstraintType.avoid → mentioned ≡ false)

abbrev pub Elsewhere : String → List String → Type 0
Elsewhere city [] = ⊥
Elsewhere city (p ∷ ps) = (p ≢ city) ⊎ Elsewhere city ps

abbrev pub evidence_ids : EvidenceBundle → List String
evidence_ids bundle = route_pilot.Common.each (λ (i : EvidenceItem). i.evidence_id) bundle.evidence

pub record Feasible (casefold : String → String) (brief : TripBrief) (plan : ItineraryPlan)
    (bundle : EvidenceBundle) : Type 0 where
  pub has_days : plan.days ≢ []
  pub in_window : All (InWindow brief) plan.days
  pub concrete : Elsewhere brief.destination.place_id (place_ids (blocks_of plan.days))
  pub days : All (DayFeasible (evidence_ids bundle)) plan.days
  pub same_currency : plan.estimated_total.currency ≡ brief.budget.currency
  pub within_budget : plan.estimated_total.max_amount ≤ brief.budget.max_amount
  pub constraints : All (Honoured casefold (titles casefold plan.days)) brief.constraints
