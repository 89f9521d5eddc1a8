-- ===== src/Itinerary/Planner.antt =====
-- DeterministicPlanner of agent/travel_agent/runtime_v2/planning.py. `casefold` is `str.casefold`,
-- `route` the route service, and `new_item` the fresh part of a block's identifier, by day and
-- block. Within a day the time is in minutes since its midnight; it may run past the next one.
use route_pilot.Common.{
  ℕ, zero, suc, String, Bool, true, false, not, Option, none, some, List, [], ◌∷◌, ◌++◌, ◌+◌, ◌-◌,
  ◌*◌, ◌/◌, ◌%◌, if◌then◌else◌, any, keep, each,
}
use route_pilot.Common.Eq.{text_equality}
use route_pilot.Common.Exec.{Result, ok}
use route_pilot.Common.Outcome.{◌>>◌}
use route_pilot.Common.Sets.{member}
use route_pilot.Common.Text.{contains}
use route_pilot.Itinerary.Types.{
  MoneyRange, ConstraintSpec, Candidate, TransitLeg, PlanTimeBlock, RouteSummary, minute,
}
use route_pilot.Itinerary.Contract.{validate_range}
use route_pilot.Itinerary.Validate.{checkable}

pub record PlanningPolicy : Type 0 where
  pub day_start_hour : ℕ
  pub day_end_hour : ℕ
  pub max_blocks_per_day : ℕ
  pub default_duration_minutes : ℕ
  pub minimum_buffer_minutes : ℕ

abbrev pub default_policy : PlanningPolicy
default_policy = record {
  day_start_hour = 9;
  day_end_hour = 20;
  max_blocks_per_day = 4;
  default_duration_minutes = 120;
  minimum_buffer_minutes = 15;
}

-- `_money`: amounts are not negative, so that `max(Decimal(0), value)` is the value.
unfoldable pub money : ℕ → ℕ → String → Result String MoneyRange
unfolding validate_range
money least most currency =
    let range : MoneyRange = record {
      min_amount = least;
      max_amount = most;
      currency = currency;
    } in
    validate_range range >> ok range

-- `[start + timedelta(days=index) for index in range(n)]`.
unfoldable pub days_from : ℕ → ℕ → List ℕ
days_from start zero = []
days_from start (suc n) = start ∷ days_from (start + 1) n

unfoldable pub dates_between : ℕ → ℕ → List ℕ
unfolding days_from
dates_between start end = days_from start (end + 1 - start)

unfoldable pub nth {ℓ} : {A : Type ℓ} → ℕ → List A → Option A
nth n [] = none
nth zero (x ∷ xs) = some x
nth (suc n) (x ∷ xs) = nth n xs

module _ (casefold : String → String) where
  -- The descriptions of the hard visits (`wanted` is true) or avoidances.
  unfoldable pub terms : Bool → List ConstraintSpec → List String
  unfolding checkable
  terms wanted [] = []
  terms wanted (c ∷ cs) =
      let rest = terms wanted cs in
      let folded = casefold c.description ∷ rest in
      elim (checkable c) [
        | none ↦ rest
        | some is_visit ↦
            if is_visit
            then (if wanted then folded else rest)
            else (if wanted then rest else folded)
      ]

  unfoldable pub named_by : Candidate → String → Bool
  unfolding contains
  named_by c term = contains term (casefold c.place_ref.display_name)

  unfoldable pub eligible_of : List String → List Candidate → List Candidate
  unfolding keep any named_by
  eligible_of avoid_terms candidates = keep (λ c. not (any (named_by c) avoid_terms)) candidates

  unfoldable pub retained_of : List String → List Candidate → List Candidate
  unfolding keep named_by
  retained_of [] eligible = []
  retained_of (t ∷ ts) eligible = keep (λ c. named_by c t) eligible ++ retained_of ts eligible

  unfoldable pub planning_candidates : List ConstraintSpec → List Candidate → List Candidate
  unfolding terms retained_of each keep member
  planning_candidates constraints eligible =
      let retained = retained_of (terms true constraints) eligible in
      let retained_ids = each (λ (c : Candidate). c.candidate_id) retained in
      retained ++ keep (λ c. not (member c.candidate_id retained_ids)) eligible

pub record DayState : Type 0 where
  pub blocks : List PlanTimeBlock
  pub day_min : ℕ
  pub day_max : ℕ
  pub current_time : ℕ
  pub previous : Option Candidate
  pub cursor : ℕ
  pub route : RouteSummary

-- A round of the loop over blocks goes on, or breaks.
pub data Round : Type 0 where
  placed broke : DayState → Round

unfoldable pub add_leg : TransitLeg → RouteSummary → RouteSummary
add_leg leg r = record {
  total_distance_meters = r.total_distance_meters + leg.distance_meters;
  total_transit_duration_minutes = r.total_transit_duration_minutes + leg.duration_max_minutes;
  legs_count = r.legs_count + 1;
}

unfoldable pub hour : ℕ → ℕ
hour time = time / 60 % 24

unfoldable pub time_of_day : ℕ → ℕ
time_of_day time = time % 1440 * minute

unfoldable pub has_blocks : List PlanTimeBlock → Bool
has_blocks [] = false
has_blocks (_ ∷ _) = true
