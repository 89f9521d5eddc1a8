-- ===== src/Itinerary/Arrival.antt =====
-- The time of a block that build_candidate (agent/travel_agent/runtime_v2/planning.py) puts after
-- another, on the clock of a day.
use route_pilot.Common.{
  ℕ, true, Option, none, some, List, [], ◌∷◌, ◌++◌, ◌+◌, ◌*◌, ◌≤◌, ◌<◌, ◌≡◌, refl, arith,
}
use route_pilot.Common.Eq.{text_equality}
use route_pilot.Itinerary.Types.{TransitLeg, PlanTimeBlock, minute}
use route_pilot.Itinerary.Constraints.{start_of, required_minutes}
use route_pilot.Itinerary.Feasible.{Reaches}
use route_pilot.Itinerary.Planner.{hour, time_of_day, has_blocks}

-- `n` minutes after the end of the block before.
abbrev pub Arrives : Option ℕ → ℕ → ℕ → Type 0
Arrives none n at = Unit
Arrives (some end) n at = end + n * minute ≤ at

abbrev pub minutes_of : Option TransitLeg → ℕ
minutes_of none = 0
minutes_of (some leg) = leg.duration_max_minutes

pub Arrives-Reaches :
    (previous_end : Option ℕ) (local_date : ℕ) (b : PlanTimeBlock)
    → Arrives previous_end (minutes_of b.transit_from_previous) (start_of local_date b.time_range)
    → Reaches previous_end local_date b
unfolding required_minutes
Arrives-Reaches none local_date b h = tt
Arrives-Reaches (some end) local_date b h = ground arith

pub same_day : (t : ℕ) → t < 1440 → time_of_day t ≡ t * minute
unfolding time_of_day
same_day t h = omega arith

pub ends_same_day :
    (t n : ℕ) → t < 1440 → n ≤ 240 → time_of_day t < time_of_day (t + n) → t + n < 1440
unfolding time_of_day
ends_same_day t n h short in_day = omega arith

-- From midnight on it is earlier than nine.
pub after_midnight : (t : ℕ) → 1440 ≤ t → t < 1980 → time_of_day t < 540 * minute
unfolding time_of_day
after_midnight t h short = omega arith

pub before_eight : (t : ℕ) → t < 1440 → hour t < 20 → t < 1200
unfolding hour
before_eight t h early = omega arith

pub has_blocks-append :
    (bs : List PlanTimeBlock) (b : PlanTimeBlock) → has_blocks (bs ++ b ∷ []) ≡ true
unfolding has_blocks
has_blocks-append [] b = refl
has_blocks-append (_ ∷ _) b = refl
