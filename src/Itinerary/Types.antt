-- ===== src/Itinerary/Types.antt =====
-- The values of planning and validation: packages/python/routepilot_contracts, artifacts.py and
-- common.py. A field that no modelled code reads (provenance, titles of artifacts, time stamps) is
-- left out. A date is a day number, a time of day is in microseconds, and an amount of money in
-- ten-thousandths: a DecimalAmount has at most four decimals and no sign.
use route_pilot.Common.{ℕ, String, Bool, Option, List}

pub data FreshnessStatus : Type 0 where
  fresh stale expired unknown : FreshnessStatus

pub data Severity : Type 0 where
  info low medium high critical : Severity

pub data Outcome : Type 0 where
  pass warning fail : Outcome

pub data ConstraintType : Type 0 where
  date budget mobility dietary lodging visit avoid other : ConstraintType

pub record MoneyRange : Type 0 where
  pub min_amount : ℕ
  pub max_amount : ℕ
  pub currency : String

pub record PlaceRef : Type 0 where
  pub place_id : String
  pub display_name : String
  pub timezone : String

pub record TransitLeg : Type 0 where
  pub mode : String
  pub duration_min_minutes : ℕ
  pub duration_max_minutes : ℕ
  pub distance_meters : ℕ

pub record ZonedTimeRange : Type 0 where
  pub local_date : ℕ
  pub start_local_time : ℕ
  pub end_local_time : ℕ
  pub end_day_offset : ℕ
  pub timezone : String

pub record ConstraintSpec : Type 0 where
  pub constraint_id : String
  pub constraint_type : ConstraintType
  pub hard : Bool
  pub description : String

pub record TripDateRange : Type 0 where
  pub start_date : ℕ
  pub end_date : ℕ
  pub timezone : String

pub record TripBrief : Type 0 where
  pub artifact_id : String
  pub destination : PlaceRef
  pub date_window : TripDateRange
  pub budget : MoneyRange
  pub constraints : List ConstraintSpec

pub record EvidenceItem : Type 0 where
  pub evidence_id : String
  pub title : String
  pub freshness : FreshnessStatus

pub data ResolutionStatus : Type 0 where
  unresolved resolved accepted_risk : ResolutionStatus

pub record EvidenceConflict : Type 0 where
  pub topic : String
  pub evidence_refs : List String
  pub resolution_status : ResolutionStatus

pub record EvidenceBundle : Type 0 where
  pub artifact_id : String
  pub timezone : String
  pub evidence : List EvidenceItem
  pub conflicts : List EvidenceConflict

pub record Candidate : Type 0 where
  pub candidate_id : String
  pub place_ref : PlaceRef
  pub evidence_refs : List String
  pub estimated_cost : Option MoneyRange
  pub recommended_duration_minutes : Option ℕ

pub record CandidateSet : Type 0 where
  pub trip_brief_ref : String
  pub evidence_bundle_ref : String
  pub timezone : String
  pub candidates : List Candidate

pub record PlanAssumption : Type 0 where
  pub text : String
  pub evidence_refs : List String

pub record PlanTimeBlock : Type 0 where
  pub block_id : String
  pub title : String
  pub place_ref : PlaceRef
  pub time_range : ZonedTimeRange
  pub duration_minutes : ℕ
  pub transit_from_previous : Option TransitLeg
  pub cost_range : Option MoneyRange
  pub evidence_refs : List String

pub record PlanDay : Type 0 where
  pub date : ℕ
  pub timezone : String
  pub time_blocks : List PlanTimeBlock
  pub daily_cost : MoneyRange

pub record RouteSummary : Type 0 where
  pub total_distance_meters : ℕ
  pub total_transit_duration_minutes : ℕ
  pub legs_count : ℕ

pub record ItineraryPlan : Type 0 where
  pub artifact_id : String
  pub timezone : String
  pub assumptions : List PlanAssumption
  pub days : List PlanDay
  pub estimated_total : MoneyRange
  pub route_summary : RouteSummary

pub data Category : Type 0 where
  time route budget opening_hours hard_constraint : Category

pub record MetricObservation : Type 0 where
  pub metric : String
  pub value : String
  pub unit : String

pub record ConstraintCheck : Type 0 where
  pub constraint_ref : Option String
  pub category : Category
  pub outcome : Outcome
  pub message : String
  pub related_block_ids : List String
  pub observations : List MetricObservation

pub record CheckSummary : Type 0 where
  pub passed : ℕ
  pub warnings : ℕ
  pub failed : ℕ

pub record ConstraintReport : Type 0 where
  pub plan_ref : String
  pub outcome : Outcome
  pub checks : List ConstraintCheck
  pub summary : CheckSummary

-- Microseconds in a minute and in a day.
abbrev pub minute : ℕ
minute = 60_000_000

abbrev pub day : ℕ
day = 86_400_000_000
