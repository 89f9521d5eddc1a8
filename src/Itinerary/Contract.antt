-- ===== src/Itinerary/Contract.antt =====
-- The rules that packages/python/routepilot_contracts (common.py and artifacts.py) sets a plan when
-- its values are made. A ValueError is its message.
use route_pilot.Common.{ℕ, String, Bool, true, ◌&&◌, not, List, [], ◌∷◌, leb, eqb, all, each}
use route_pilot.Common.Eq.{◌==◌, text_equality, number_equality}
use route_pilot.Common.Exec.{Result, ok}
use route_pilot.Common.Outcome.{check, ◌>>◌}
use route_pilot.Common.Sets.{distinct}
use route_pilot.Itinerary.Types.{MoneyRange, ZonedTimeRange, PlanTimeBlock, PlanDay, ItineraryPlan}

abbrev pub Checked : Type 0
Checked = Result String (Unit {0})

unfoldable pub validate_range : MoneyRange → Checked
validate_range m = check (leb m.min_amount m.max_amount) "min_amount cannot exceed max_amount"

unfoldable pub validate_times : ZonedTimeRange → Checked
validate_times r =
    check (not (eqb r.end_day_offset 0 && leb r.end_local_time r.start_local_time))
      "end_local_time must be later than start_local_time"

unfoldable pub validate_timezone : PlanTimeBlock → Checked
validate_timezone b =
    check (b.place_ref.timezone == b.time_range.timezone)
      "place and time range timezones must match"

-- `xs == sorted(xs)`.
unfoldable pub in_order : List ℕ → Bool
in_order [] = true
in_order (x ∷ []) = true
in_order (x ∷ y ∷ rest) = leb x y && in_order (y ∷ rest)

abbrev pub starts : List PlanTimeBlock → List ℕ
starts blocks = each (λ (b : PlanTimeBlock). b.time_range.start_local_time) blocks

-- The loop over `time_blocks`, which raises at the first block that breaks a rule.
unfoldable pub validate_blocks : PlanDay → List PlanTimeBlock → Checked
validate_blocks d [] = ok tt
validate_blocks d (b ∷ bs) =
    let rest = validate_blocks d bs in
    check (eqb b.time_range.local_date d.date) "time block local_date must match plan day"
    >> (check (b.time_range.timezone == d.timezone) "time block timezone must match plan day"
        >> rest)

-- `time_blocks` has a `min_length` of 1 and a `max_length` of 50, but no planner reaches 50.
unfoldable pub validate_day : PlanDay → Checked
unfolding distinct each validate_blocks in_order
validate_day d =
    check (distinct (each (λ (b : PlanTimeBlock). b.block_id) d.time_blocks))
      "block_id values must be unique within a day"
    >> (validate_blocks d d.time_blocks
        >> check (in_order (starts d.time_blocks))
            "time blocks must be ordered by local start time")

unfoldable pub validate_plan : ItineraryPlan → Checked
unfolding distinct each in_order all
validate_plan plan =
    let dates = each (λ (d : PlanDay). d.date) plan.days in
    check (distinct dates) "plan day dates must be unique"
    >> (check (in_order dates) "plan days must be ordered by date"
        >> (check (all (λ (d : PlanDay). d.timezone == plan.timezone) plan.days)
              "plan day timezones must match plan timezone"
            >> check
                (all (λ (d : PlanDay). d.daily_cost.currency == plan.estimated_total.currency)
                  plan.days)
                "daily costs must use the plan budget currency"))
