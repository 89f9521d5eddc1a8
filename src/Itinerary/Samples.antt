-- ===== src/Itinerary/Samples.antt =====
-- Small inputs for the tests of planning and validation.
use route_pilot.Common.{ℕ, String, true, Option, none, some, [], ◌∷◌, ◌*◌}
use route_pilot.Common.Exec.{Result, ok}
use route_pilot.Itinerary.Types.{
  MoneyRange, PlaceRef, TransitLeg, ConstraintType, TripBrief, EvidenceBundle, FreshnessStatus,
  Candidate, CandidateSet, PlanTimeBlock, PlanDay, ItineraryPlan, Severity, warning, minute,
}
use route_pilot.Itinerary.Policy.{Origin, ValidationIssue, ValidationReport}
use route_pilot.Itinerary.Planner.{DayState, default_policy}
use route_pilot.Itinerary.Schedule.{Setting, Leg}

abbrev pub zone : String
zone = "Asia/Shanghai"

abbrev pub place : String → String → PlaceRef
place id name = record { place_id = id; display_name = name; timezone = zone }

abbrev pub yuan : ℕ → MoneyRange
yuan n = record { min_amount = 0; max_amount = n * 10_000; currency = "CNY" }

abbrev pub brief : TripBrief
brief = record {
  artifact_id = "brief";
  destination = place "city" "Hangzhou";
  date_window = record { start_date = 100; end_date = 101; timezone = zone };
  budget = yuan 900;
  constraints =
      record {
        constraint_id = "c1";
        constraint_type = ConstraintType.visit;
        hard = true;
        description = "Temple";
      }
      ∷ record {
        constraint_id = "c2";
        constraint_type = ConstraintType.avoid;
        hard = true;
        description = "Mall";
      }
      ∷ [];
}

abbrev pub bundle : EvidenceBundle
bundle = record {
  artifact_id = "bundle";
  timezone = zone;
  evidence =
      record { evidence_id = "e1"; title = "Lake"; freshness = FreshnessStatus.fresh }
      ∷ record { evidence_id = "e2"; title = "Temple"; freshness = FreshnessStatus.stale }
      ∷ [];
  conflicts = [];
}

abbrev pub candidate : String → String → String → ℕ → Candidate
candidate id name evidence cost = record {
  candidate_id = id;
  place_ref = place id name;
  evidence_refs = evidence ∷ [];
  estimated_cost = some (yuan cost);
  recommended_duration_minutes = none;
}

abbrev pub lake : Candidate
lake = candidate "lake" "West Lake" "e1" 0

abbrev pub temple : Candidate
temple = candidate "temple" "Temple" "e2" 45

abbrev pub candidates : CandidateSet
candidates = record {
  trip_brief_ref = "brief";
  evidence_bundle_ref = "bundle";
  timezone = zone;
  candidates = lake ∷ candidate "mall" "Mall" "e1" 10 ∷ temple ∷ [];
}

abbrev pub leg : TransitLeg
leg = record {
  mode = "walk";
  duration_min_minutes = 20;
  duration_max_minutes = 30;
  distance_meters = 1400;
}

abbrev pub always : Candidate → Candidate → Result String TransitLeg
always p c = ok leg

abbrev pub block : String → Candidate → ℕ → ℕ → ℕ → ℕ → Option TransitLeg → PlanTimeBlock
block id c cost date start end transit = record {
  block_id = id;
  title = c.place_ref.display_name;
  place_ref = c.place_ref;
  time_range = record {
    local_date = date;
    start_local_time = start * minute;
    end_local_time = end * minute;
    end_day_offset = 0;
    timezone = zone;
  };
  duration_minutes = 120;
  transit_from_previous = transit;
  cost_range = some (yuan cost);
  evidence_refs = c.evidence_refs;
}

abbrev pub day_plan : String → String → ℕ → PlanDay
day_plan first second date = record {
  date = date;
  timezone = zone;
  time_blocks =
      block first temple 45 date 540 660 none ∷ block second lake 0 date 705 825 (some leg) ∷ [];
  daily_cost = yuan 45;
}

-- What the planner makes of it.
abbrev pub plan : ItineraryPlan
plan = record {
  artifact_id = "plan";
  timezone = zone;
  assumptions = [];
  days = day_plan "block_0_0_x" "block_0_1_x" 100 ∷ day_plan "block_1_0_x" "block_1_1_x" 101 ∷ [];
  estimated_total = yuan 90;
  route_summary = record {
    total_distance_meters = 2800;
    total_transit_duration_minutes = 60;
    legs_count = 2;
  };
}

abbrev pub same_text : String → String
same_text t = t

abbrev pub item : ℕ → ℕ → String
item i k = "x"

-- The policy's verdict on it: one of the places has stale evidence.
abbrev old_evidence : ValidationIssue
old_evidence = record {
  origin = Origin.constraint;
  severity = Severity.medium;
  message = "地点证据可能过期，营业状态需实时 Provider 复核。";
}

abbrev pub report : ValidationReport
report = record {
  plan_ref = "plan";
  verdict = warning;
  publishable = true;
  blockers = [];
  warnings =
      old_evidence
      ∷ old_evidence
      ∷ record {
        origin = Origin.semantic;
        severity = Severity.medium;
        message = "证据“Temple”不是 fresh 状态。";
      }
      ∷ [];
}

abbrev pub busy : Setting
busy = record {
  policy = default_policy;
  route = always;
  new_item = item;
  timezone = zone;
  currency = "CNY";
  candidates = lake ∷ temple ∷ [];
}

-- A day in its evening, with one block behind it.
abbrev pub evening : ℕ → DayState
evening time = record {
  blocks = block "block_0_0_x" temple 45 100 540 660 none ∷ [];
  day_min = 0;
  day_max = 450_000;
  current_time = time;
  previous = some temple;
  cursor = 0;
  route = record { total_distance_meters = 0; total_transit_duration_minutes = 0; legs_count = 0 };
}

abbrev pub passed_over : DayState
passed_over = record (evening 1145) {
  cursor = 1;
  route = record {
    total_distance_meters = 1400;
    total_transit_duration_minutes = 30;
    legs_count = 1;
  };
}

-- A way that takes most of a day.
abbrev pub long_way : TransitLeg
long_way = record leg { duration_max_minutes = 700 }

abbrev pub slow : Candidate → Candidate → Result String TransitLeg
slow p c = ok long_way

-- The first day after its first block, and on the way to the second.
abbrev pub after_temple : DayState
after_temple = record (evening 660) { cursor = 1 }

abbrev pub at_night : Leg
at_night = record {
  transit = some long_way;
  after = record (evening 1375) {
    cursor = 2;
    route = record {
      total_distance_meters = 1400;
      total_transit_duration_minutes = 700;
      legs_count = 1;
    };
  };
}
