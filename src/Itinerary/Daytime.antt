-- ===== src/Itinerary/Daytime.antt =====
-- The times that build_candidate (agent/travel_agent/runtime_v2/planning.py) gives a day's blocks.
use route_pilot.Common.{
  ℕ, String, true, false, Option, some, List, [], ◌∷◌, ◌++◌, ◌≤◌, ◌<◌, ◌≡◌, refl, arith, All, each,
}
use route_pilot.Common.Sets.{In}
use route_pilot.Common.Eq.{text_equality}
use route_pilot.Itinerary.Types.{PlanTimeBlock}
use route_pilot.Itinerary.Constraints.{end_of}
use route_pilot.Itinerary.Feasible.{IsTimed, Reaches, Timetable}
use route_pilot.Itinerary.Contract.{in_order, starts}
use route_pilot.Itinerary.Planner.{has_blocks}

-- When the last block ends.
abbrev pub last_end : ℕ → Option ℕ → List PlanTimeBlock → Option ℕ
last_end local_date previous_end [] = previous_end
last_end local_date previous_end (b ∷ bs) =
    last_end local_date (some (end_of local_date b.time_range)) bs

pub last_end-append :
    (local_date : ℕ) (previous_end : Option ℕ) (bs : List PlanTimeBlock) (b : PlanTimeBlock)
    → last_end local_date previous_end (bs ++ b ∷ []) ≡ some (end_of local_date b.time_range)
last_end-append local_date previous_end [] b = refl
last_end-append local_date previous_end (c ∷ cs) b =
    last_end-append local_date (some (end_of local_date c.time_range)) cs b

pub Timetable-append :
    (known : List String) (local_date : ℕ) (previous_end : Option ℕ) (bs : List PlanTimeBlock)
    (b : PlanTimeBlock)
    → Timetable known local_date previous_end bs
    → IsTimed local_date b
    → Reaches (last_end local_date previous_end bs) local_date b
    → All (λ r. In r known) b.evidence_refs
    → Timetable known local_date previous_end (bs ++ b ∷ [])
Timetable-append known local_date previous_end [] b t timed reached cited =
    (timed, reached, cited, tt)
Timetable-append known local_date previous_end (c ∷ cs) b t timed reached cited = (
  t.0,
  t.1,
  t.2,
  Timetable-append known local_date (some (end_of local_date c.time_range)) cs b t.3 timed reached
      cited,
)

-- The blocks are out of order, so that the day will be refused.
abbrev pub Disordered : List PlanTimeBlock → Type 0
Disordered bs = in_order (starts bs) ≡ false

pub Disordered-append :
    (bs : List PlanTimeBlock) (b : PlanTimeBlock) → Disordered bs → Disordered (bs ++ b ∷ [])
unfolding in_order each
Disordered-append [] b h = absurd (ground arith)
Disordered-append (c ∷ []) b h = absurd (ground arith)
Disordered-append (c ∷ d ∷ rest) b h = ground (arith, Disordered-append (d ∷ rest) b)

abbrev pub NoEarlier : ℕ → List PlanTimeBlock → Type 0
NoEarlier time bs = All (λ (b : PlanTimeBlock). time ≤ b.time_range.start_local_time) bs

pub early-Disordered :
    (time : ℕ) (bs : List PlanTimeBlock) (b : PlanTimeBlock)
    → has_blocks bs ≡ true
    → NoEarlier time bs
    → b.time_range.start_local_time < time
    → Disordered (bs ++ b ∷ [])
unfolding in_order each has_blocks
early-Disordered time [] b some_block late early = absurd (ground arith)
early-Disordered time (c ∷ []) b some_block late early = ground arith
early-Disordered time (c ∷ d ∷ rest) b some_block late early =
    ground (arith, early-Disordered time (d ∷ rest) b refl late.1 early)
