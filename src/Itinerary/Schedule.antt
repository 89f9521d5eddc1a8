-- ===== src/Itinerary/Schedule.antt =====
-- DeterministicPlanner.build_candidate of agent/travel_agent/runtime_v2/planning.py: the loops over
-- days and blocks.
use route_pilot.Common.{
  ℕ, zero, suc, String, ◌&&◌, Option, none, some, List, [], ◌∷◌, ◌++◌, ◌+◌, ◌*◌, ◌%◌, ltb, leb, eqb,
  if◌then◌else◌, length,
}
use route_pilot.Common.Eq.{◌==◌, text_equality}
use route_pilot.Common.Exec.{Result, ok, err}
use route_pilot.Common.Outcome.{check, ◌>>=◌, ◌>>◌}
use route_pilot.Common.Text.{decimal, join}
use route_pilot.Itinerary.Types.{
  MoneyRange, Candidate, TransitLeg, PlanTimeBlock, PlanDay, RouteSummary,
}
use route_pilot.Itinerary.Contract.{validate_times, validate_timezone, validate_day}
use route_pilot.Itinerary.Planner.{
  PlanningPolicy, money, nth, DayState, Round, placed, broke, add_leg, hour, time_of_day,
  has_blocks,
}

-- What the loops read and do not change.
pub record Setting : Type 0 where
  pub policy : PlanningPolicy
  pub route : Candidate → Candidate → Result String TransitLeg
  pub new_item : ℕ → ℕ → String
  pub timezone : String
  pub currency : String
  pub candidates : List Candidate

-- `if previous is not None`: the leg, and the state after it.
pub record Leg : Type 0 where
  pub transit : Option TransitLeg
  pub after : DayState

-- The totals over the days.
pub record Totals : Type 0 where
  pub days : List PlanDay
  pub total_min : ℕ
  pub total_max : ℕ
  pub cursor : ℕ
  pub route : RouteSummary

-- `break` leaves the loop.
unfoldable pub after_round : Round → (DayState → Result String DayState) → Result String DayState
after_round (placed d) f = f d
after_round (broke d) f = ok d

module _ (s : Setting) where
  -- The times of the state after a leg.
  abbrev pub travelled : DayState → TransitLeg → DayState
  travelled d leg = record d {
    current_time = d.current_time + (leg.duration_max_minutes + s.policy.minimum_buffer_minutes);
    route = add_leg leg d.route;
  }

  unfoldable pub travel : DayState → Candidate → Result String Leg
  unfolding add_leg
  travel d c = elim d.previous [
    | none ↦ ok (record { transit = none; after = d })
    | some p ↦ s.route p c >>= λ leg. ok (record { transit = some leg; after = travelled d leg })
  ]

  -- `min(240, candidate.recommended_duration_minutes or default)`.
  unfoldable pub duration_of : Candidate → ℕ
  duration_of c =
      let wanted : ℕ = elim c.recommended_duration_minutes [
        | none ↦ s.policy.default_duration_minutes
        | some n ↦ if eqb n 0 then s.policy.default_duration_minutes else n
      ] in
      if ltb wanted 240 then wanted else 240

  unfoldable pub cost_of : Candidate → Result String MoneyRange
  unfolding money
  cost_of c = elim c.estimated_cost [ none ↦ money 0 0 s.currency | some m ↦ ok m ]

  unfoldable pub block_of :
      ℕ → ℕ → ℕ → DayState → Candidate → Option TransitLeg → MoneyRange → PlanTimeBlock
  unfolding duration_of time_of_day decimal
  block_of day_index local_date block_index d c transit cost = record {
    block_id =
        join "_" (
          "block"
          ∷ decimal day_index
          ∷ decimal block_index
          ∷ s.new_item day_index block_index
          ∷ []);
    title = c.place_ref.display_name;
    place_ref = c.place_ref;
    time_range = record {
      local_date = local_date;
      start_local_time = time_of_day d.current_time;
      end_local_time = time_of_day (d.current_time + duration_of c);
      end_day_offset = 0;
      timezone = s.timezone;
    };
    duration_minutes = duration_of c;
    transit_from_previous = transit;
    cost_range = some cost;
    evidence_refs = c.evidence_refs;
  }

  -- The state after a block was put behind the others.
  unfoldable pub add_block : DayState → Candidate → MoneyRange → PlanTimeBlock → DayState
  unfolding duration_of
  add_block d c cost b = record d {
    blocks = d.blocks ++ b ∷ [];
    day_min = d.day_min + cost.min_amount;
    day_max = d.day_max + cost.max_amount;
    current_time = d.current_time + duration_of c;
    previous = some c;
  }

  -- From the end of the day's test to the end of the round.
  unfoldable pub fill : ℕ → ℕ → ℕ → Candidate → Option TransitLeg → DayState → Result String Round
  unfolding duration_of cost_of block_of add_block validate_times validate_timezone hour has_blocks
  fill day_index local_date block_index c transit d =
      if has_blocks d.blocks && leb s.policy.day_end_hour (hour (d.current_time + duration_of c))
      then ok (broke d)
      else cost_of c >>= λ cost.
          check (cost.currency == s.currency) "candidate costs must use the trip budget currency"
          >> (let b = block_of day_index local_date block_index d c transit cost in
              validate_times b.time_range
              >> (validate_timezone b >> ok (placed (add_block d c cost b))))

  -- One round of `for block_index in range(...)`.
  unfoldable pub next_round : ℕ → ℕ → ℕ → DayState → Result String Round
  unfolding travel fill nth
  next_round day_index local_date block_index d =
      elim (nth (d.cursor % length s.candidates) s.candidates) [
        | none ↦ err "list index out of range"
        | some c ↦ travel (record d { cursor = d.cursor + 1 }) c >>= λ leg.
            fill day_index local_date block_index c leg.transit leg.after
      ]

  -- The first argument counts the rounds that are left.
  unfoldable pub place_blocks : ℕ → ℕ → ℕ → ℕ → DayState → Result String DayState
  unfolding next_round after_round
  place_blocks zero day_index local_date block_index d = ok d
  place_blocks (suc left) day_index local_date block_index d =
      next_round day_index local_date block_index d >>= λ r.
      after_round r (place_blocks left day_index local_date (block_index + 1))

  abbrev pub rounds : ℕ
  rounds =
      let n = length s.candidates in
      if ltb n s.policy.max_blocks_per_day then n else s.policy.max_blocks_per_day

  abbrev pub morning : ℕ → RouteSummary → DayState
  morning cursor route = record {
    blocks = [];
    day_min = 0;
    day_max = 0;
    current_time = s.policy.day_start_hour * 60;
    previous = none;
    cursor = cursor;
    route = route;
  }

  unfoldable pub close_day : ℕ → Totals → DayState → Result String Totals
  unfolding has_blocks money validate_day
  close_day local_date t d =
      check (has_blocks d.blocks) "planning policy could not place at least one candidate per day"
      >> (money d.day_min d.day_max s.currency >>= λ cost.
          let day : PlanDay = record {
            date = local_date;
            timezone = s.timezone;
            time_blocks = d.blocks;
            daily_cost = cost;
          } in
          validate_day day
          >> ok (record {
            days = t.days ++ day ∷ [];
            total_min = t.total_min + d.day_min;
            total_max = t.total_max + d.day_max;
            cursor = d.cursor;
            route = d.route;
          }))

  unfoldable pub build_day : ℕ → ℕ → Totals → Result String Totals
  unfolding place_blocks close_day
  build_day day_index local_date t =
      place_blocks rounds day_index local_date 0 (morning t.cursor t.route)
      >>= close_day local_date t

  -- `for day_index, local_date in enumerate(dates)`.
  unfoldable pub build_days : ℕ → List ℕ → Totals → Result String Totals
  unfolding build_day
  build_days day_index [] t = ok t
  build_days day_index (local_date ∷ rest) t =
      build_day day_index local_date t >>= build_days (day_index + 1) rest

abbrev pub nothing_yet : Totals
nothing_yet = record {
  days = [];
  total_min = 0;
  total_max = 0;
  cursor = 0;
  route = record { total_distance_meters = 0; total_transit_duration_minutes = 0; legs_count = 0 };
}
