-- ===== src/Itinerary/Constraints.antt =====
-- DeterministicConstraintValidator of agent/travel_agent/runtime_v2/validation.py. `casefold` is
-- `str.casefold`, and `show` prints the Decimal of an amount. A check's fresh identifier and its
-- constant source are left out.
use route_pilot.Common.{
  ℕ, String, Bool, true, false, ◌&&◌, not, Option, none, some, List, [], ◌∷◌, ◌++◌, ◌+◌, ◌-◌, ◌*◌,
  ◌/◌, ltb, leb, eqb, if◌then◌else◌, any, each,
}
use route_pilot.Common.Eq.{◌==◌, text_equality}
use route_pilot.Common.Json.{ℤ, pos, negsuc}
use route_pilot.Common.Sets.{subset, distinct}
use route_pilot.Common.Text.{decimal}
use route_pilot.Itinerary.Types.{
  Outcome, pass, fail, TripBrief, PlanTimeBlock, PlanDay, ItineraryPlan, ZonedTimeRange, Category,
  MetricObservation, ConstraintCheck, minute, day,
}

-- `_check`, without observations and without a constraint.
abbrev pub check : Category → Outcome → String → List String → ConstraintCheck
check category outcome message block_ids = record {
  constraint_ref = none;
  category = category;
  outcome = outcome;
  message = message;
  related_block_ids = block_ids;
  observations = [];
}

-- `"pass" if ok else "fail"`, with the message of either.
unfoldable pub verdict : Bool → Category → List String → String → String → ConstraintCheck
verdict true category block_ids good bad = check category pass good block_ids
verdict false category block_ids good bad = check category fail bad block_ids

unfoldable pub start_of : ℕ → ZonedTimeRange → ℕ
start_of local_date range = local_date * day + range.start_local_time

unfoldable pub end_of : ℕ → ZonedTimeRange → ℕ
end_of local_date range = (local_date + range.end_day_offset) * day + range.end_local_time

-- `int((end - start).total_seconds() // 60)`.
unfoldable pub minutes_between : ℕ → ℕ → ℤ
minutes_between start end =
    if leb start end then pos ((end - start) / minute) else negsuc ((start - end - 1) / minute)

unfoldable pub show_integer : ℤ → String
show_integer (pos n) = decimal n
show_integer (negsuc n) = Prim.Native.String.◌++◌ "-" (decimal (n + 1))

-- `gap == n` and `gap >= n`, for a number of minutes that is not negative.
unfoldable pub equals : ℤ → ℕ → Bool
equals (pos m) n = eqb m n
equals (negsuc m) n = false

unfoldable pub at_least : ℤ → ℕ → Bool
at_least (pos m) n = leb n m
at_least (negsuc m) n = false

unfoldable pub least : ℕ → List ℕ → ℕ
least d [] = d
least d (x ∷ xs) = least (if ltb x d then x else d) xs

unfoldable pub greatest : ℕ → List ℕ → ℕ
greatest d [] = d
greatest d (x ∷ xs) = greatest (if ltb d x then x else d) xs

unfoldable pub dates_valid : TripBrief → List ℕ → Bool
unfolding least greatest
dates_valid brief [] = false
dates_valid brief (d ∷ ds) =
    leb brief.date_window.start_date (least d ds) && leb (greatest d ds) brief.date_window.end_date

abbrev pub dates : List PlanDay → List ℕ
dates days = each (λ (d : PlanDay). d.date) days

abbrev pub place_ids : List PlanTimeBlock → List String
place_ids blocks = each (λ (b : PlanTimeBlock). b.place_ref.place_id) blocks

abbrev pub block_ids : List PlanTimeBlock → List String
block_ids blocks = each (λ (b : PlanTimeBlock). b.block_id) blocks

-- `for day in plan.days for block in day.time_blocks`.
unfoldable pub blocks_of : List PlanDay → List PlanTimeBlock
blocks_of [] = []
blocks_of (d ∷ ds) = d.time_blocks ++ blocks_of ds

unfoldable pub date_check : TripBrief → ItineraryPlan → ConstraintCheck
unfolding verdict dates_valid each
date_check brief plan =
    verdict (dates_valid brief (dates plan.days)) Category.hard_constraint [] "行程日期位于用户日期窗口内。"
      "行程日期超出用户日期窗口。"

unfoldable pub concrete_check : TripBrief → ItineraryPlan → ConstraintCheck
unfolding verdict blocks_of each
concrete_check brief plan =
    let blocks = blocks_of plan.days in
    verdict (any (λ place_id. not (place_id == brief.destination.place_id)) (place_ids blocks))
      Category.hard_constraint (block_ids blocks) "方案包含经过证据支持的具体地点。"
      "方案只有目的地城市占位符，没有具体地点，属于低价值结果，禁止发布。"

unfoldable pub unique_check : PlanDay → ConstraintCheck
unfolding verdict distinct each
unique_check d =
    verdict (distinct (place_ids d.time_blocks)) Category.hard_constraint (block_ids d.time_blocks)
      "单日行程没有重复地点。" "单日行程包含重复地点，属于无信息量方案，禁止发布。"

abbrev pub observe : List MetricObservation → ConstraintCheck → ConstraintCheck
observe observations c = record c { observations = observations }

abbrev pub minutes : String → String → MetricObservation
minutes metric value = record { metric = metric; value = value; unit = "minutes" }

unfoldable pub duration_check : ℕ → PlanTimeBlock → ConstraintCheck
unfolding verdict start_of end_of minutes_between show_integer equals
duration_check local_date b =
    let actual =
      minutes_between (start_of local_date b.time_range) (end_of local_date b.time_range) in
    observe (minutes "duration" (show_integer actual) ∷ []) (
      verdict (equals actual b.duration_minutes) Category.time (b.block_id ∷ []) "停留时长与时间区间一致。"
        "停留时长与时间区间不一致。")

unfoldable pub required_minutes : PlanTimeBlock → ℕ
required_minutes b = elim b.transit_from_previous [ none ↦ 0 | some leg ↦ leg.duration_max_minutes ]

unfoldable pub route_check : ℕ → ℕ → PlanTimeBlock → ConstraintCheck
unfolding verdict start_of minutes_between show_integer at_least required_minutes
route_check previous_end local_date b =
    let gap = minutes_between previous_end (start_of local_date b.time_range) in
    let required = required_minutes b in
    observe (minutes "available" (show_integer gap) ∷ minutes "required" (decimal required) ∷ []) (
      verdict (at_least gap required) Category.route (b.block_id ∷ []) "地点间预留时间可覆盖路线耗时。"
        "地点间预留时间不足以覆盖路线耗时。")

-- `if previous_end is not None`.
unfoldable pub route_checks : Option ℕ → ℕ → PlanTimeBlock → List ConstraintCheck
unfolding route_check
route_checks none local_date b = []
route_checks (some previous_end) local_date b = route_check previous_end local_date b ∷ []

unfoldable pub reference_check : List String → PlanTimeBlock → ConstraintCheck
unfolding verdict subset
reference_check evidence_ids b =
    verdict (subset b.evidence_refs evidence_ids) Category.hard_constraint (b.block_id ∷ [])
      "时间块证据引用均可解析。" "时间块包含无法解析的证据引用。"

-- `for block in day.time_blocks`, with `previous_end`.
unfoldable pub block_checks : List String → ℕ → Option ℕ → List PlanTimeBlock → List ConstraintCheck
unfolding duration_check route_checks reference_check end_of
block_checks evidence_ids local_date previous_end [] = []
block_checks evidence_ids local_date previous_end (b ∷ bs) =
    duration_check local_date b
    ∷ (route_checks previous_end local_date b
        ++ (reference_check evidence_ids b
            ∷ block_checks evidence_ids local_date (some (end_of local_date b.time_range)) bs))

-- `for day in plan.days`.
unfoldable pub day_checks : List String → List PlanDay → List ConstraintCheck
unfolding unique_check block_checks
day_checks evidence_ids [] = []
day_checks evidence_ids (d ∷ ds) =
    unique_check d
    ∷ (block_checks evidence_ids d.date none d.time_blocks ++ day_checks evidence_ids ds)
