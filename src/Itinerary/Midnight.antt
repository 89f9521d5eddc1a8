-- ===== src/Itinerary/Midnight.antt =====
-- A block that runs over midnight, in build_candidate (agent/travel_agent/runtime_v2/planning.py).
use route_pilot.Common.{
  zero, suc, subst, refl, ◌≢◌, ◌++◌, ◌%◌, length, ℕ, String, Option, some, List, [], ◌∷◌, ap, sym,
  ◌+◌, ◌≤◌, ◌<◌, ◌≡◌, inl, inr, ◌∙◌, arith,
}
use route_pilot.Common.Eq.{text_equality, ==_refl}
use route_pilot.Common.Exec.{Result, ok, err}
use route_pilot.Common.Outcome.{Result-cases}
use route_pilot.Itinerary.Types.{
  Candidate, TransitLeg, MoneyRange, TripBrief, CandidateSet, EvidenceBundle, ItineraryPlan,
}
use route_pilot.Itinerary.Contract.{validate_times}
use route_pilot.Itinerary.Planner.{
  PlanningPolicy, nth, dates_between, placed, DayState, hour, time_of_day,
}
use route_pilot.Itinerary.Schedule.{
  Totals, place_blocks, after_round, build_day, build_days, rounds, morning, nothing_yet, Setting,
  Leg, fill, travel, next_round, block_of, cost_of, duration_of,
}
use route_pilot.Itinerary.Build.{setting, build_candidate}
use route_pilot.Itinerary.Rounds.{duration_of-le}

hour_after_midnight : (t : ℕ) → 1440 ≤ t → t < 1680 → hour t < 20
unfolding hour
hour_after_midnight t h k = omega arith

ends_early : (t n : ℕ) → t < 1440 → 1440 ≤ t + n → n ≤ 240 → time_of_day (t + n) ≤ time_of_day t
unfolding time_of_day
ends_early t n h k short = omega arith

-- The test of the end of the day lets the block through, and its time range is refused.
midnight-fill :
    (s : Setting) (i local_date k : ℕ) (c : Candidate) (transit : Option TransitLeg) (d : DayState)
    (cost : MoneyRange)
    → s.policy.day_end_hour ≡ 20
    → cost_of s c ≡ ok cost
    → cost.currency ≡ s.currency
    → d.current_time < 1440
    → 1440 ≤ d.current_time + duration_of s c
    → fill s i local_date k c transit d ≡ err "end_local_time must be later than start_local_time"
unfolding fill validate_times block_of
midnight-fill s i local_date k c transit d cost eight paid currency before after =
    let short = duration_of-le s c in
    ground (
      arith,
      paid,
      ==_refl s.currency,
      hour_after_midnight (d.current_time + duration_of s c) after (omega (arith, short)),
      ends_early d.current_time (duration_of s c) before after short,
    )

-- `n` rounds that each put a block lead from one state to the other.
abbrev pub Reaches : Setting → ℕ → ℕ → ℕ → ℕ → DayState → DayState → Type 0
Reaches s i local_date zero k d e = d ≡ e
Reaches s i local_date (suc n) k d e =
    (next : DayState) × (next_round s i local_date k d ≡ ok (placed next))
    × Reaches s i local_date n (k + 1) next e

-- An error of a round is the error of the day.
round_fails :
    (s : Setting) (i local_date n left k : ℕ) (d e : DayState) (message : String)
    → Reaches s i local_date n k d e
    → n < left
    → next_round s i local_date (k + n) e ≡ err message
    → place_blocks s left i local_date k d ≡ err message
unfolding place_blocks after_round
round_fails s i local_date n zero k d e message r small h = absurd (omega arith)
round_fails s i local_date zero (suc left) k d e message r small h =
    let here : k + 0 ≡ k = omega arith in
    let same : next_round s i local_date k d ≡ err message =
      subst (λ x. next_round s i local_date k x ≡ err message) (sym r)
        (subst (λ m. next_round s i local_date m e ≡ err message) here h) in
    rw same refl
round_fails s i local_date (suc n) (suc left) k d e message (next, step, r) small h =
    let there : k + suc n ≡ k + 1 + n = omega arith in
    rw step (
      round_fails s i local_date n left (k + 1) next e message r (omega (arith, small))
        (subst (λ m. next_round s i local_date m e ≡ err message) there h))

-- An error of a day is the error of the plan.
day_fails :
    (s : Setting) (before later : List ℕ) (date i : ℕ) (t u : Totals) (message : String)
    → build_days s i before t ≡ ok u
    → build_day s (i + length before) date u ≡ err message
    → build_days s i (before ++ date ∷ later) t ≡ err message
unfolding build_days
day_fails s [] later date i t u message h failed =
    let here : i + 0 ≡ i = omega arith in
    let no_day : u ≡ t = ground (arith, h) in
    let same : build_day s i date t ≡ err message =
      subst (λ x. build_day s i date x ≡ err message) no_day
        (subst (λ m. build_day s m date u ≡ err message) here failed) in
    rw same refl
day_fails s (d ∷ before) later date i t u message h failed =
    let there : i + length (d ∷ before) ≡ i + 1 + length before = omega arith in
    elim (Result-cases (build_day s i d t)) [
      | inr (e, w) ↦ absurd (ground (arith, h, w))
      | inl (v, w) ↦ rw w (
          day_fails s before later date (i + 1) v u message (sym (rw w refl) ∙ h)
            (subst (λ m. build_day s m date u ≡ err message) there failed))
    ]

-- Such a block on a day after `n` rounds.
day_midnight :
    (s : Setting) (i date n : ℕ) (t : Totals) (d : DayState) (c : Candidate) (l : Leg)
    (cost : MoneyRange)
    → s.policy.day_end_hour ≡ 20
    → Reaches s i date n 0 (morning s t.cursor t.route) d
    → n < rounds s
    → nth (d.cursor % length s.candidates) s.candidates ≡ some c
    → travel s (record d { cursor = d.cursor + 1 }) c ≡ ok l
    → cost_of s c ≡ ok cost
    → cost.currency ≡ s.currency
    → l.after.current_time < 1440
    → 1440 ≤ l.after.current_time + duration_of s c
    → build_day s i date t ≡ err "end_local_time must be later than start_local_time"
unfolding next_round build_day
day_midnight s i date n t d c l cost eight reached room turn way paid currency early late =
    let message : String = "end_local_time must be later than start_local_time" in
    let none_before : n ≡ 0 + n = omega arith in
    let round : next_round s i date n d ≡ err message = ground (
      arith,
      turn,
      way,
      midnight-fill s i date n c l.transit l.after cost eight paid currency early late,
    ) in
    let placing =
      round_fails s i date n (rounds s) 0 (morning s t.cursor t.route) d message reached room
        (subst (λ m. next_round s i date m d ≡ err message) none_before round) in
    rw placing refl

module _ (casefold : String → String) (policy : PlanningPolicy)
    (route : Candidate → Candidate → Result String TransitLeg) (new_item : ℕ → ℕ → String)
    (new_artifact : String) where
  days_fail :
      (brief : TripBrief) (set : CandidateSet) (bundle : EvidenceBundle) (message : String)
      (plan : ItineraryPlan)
      → build_days
          (setting casefold policy route new_item new_artifact brief set)
          0
          (dates_between brief.date_window.start_date brief.date_window.end_date)
          nothing_yet
        ≡ err message
      → build_candidate casefold policy route new_item new_artifact brief set bundle ≢ ok plan
  unfolding build_candidate
  days_fail brief set bundle message plan failed h = absurd (ground (arith, failed, h))

  same_policy :
      (brief : TripBrief) (set : CandidateSet)
      → policy.day_end_hour ≡ 20
      → (setting casefold policy route new_item new_artifact brief set).policy.day_end_hour ≡ 20
  unfolding setting
  same_policy brief set eight = eight

  -- If the day ends at 20 o'clock and, after the days before and the blocks before on some day, the
  -- next block would start before midnight and end at midnight or later, then the test of the end of
  -- the day lets it through and no plan is built at all: a block's end must be later than its start. The
  -- block's way and its cost, in the trip's currency, are found, and the rounds of the day are not over.
  pub midnight_fails_plan :
      (brief : TripBrief) (set : CandidateSet) (bundle : EvidenceBundle) (plan : ItineraryPlan)
      (before later : List ℕ) (date n : ℕ) (t : Totals) (d : DayState) (c : Candidate) (l : Leg)
      (cost : MoneyRange)
      → let s = setting casefold policy route new_item new_artifact brief set in
        policy.day_end_hour ≡ 20
        → dates_between brief.date_window.start_date brief.date_window.end_date
          ≡ before ++ date ∷ later
        → build_days s 0 before nothing_yet ≡ ok t
        → Reaches s (length before) date n 0 (morning s t.cursor t.route) d
        → n < rounds s
        → nth (d.cursor % length s.candidates) s.candidates ≡ some c
        → travel s (record d { cursor = d.cursor + 1 }) c ≡ ok l
        → cost_of s c ≡ ok cost
        → cost.currency ≡ s.currency
        → l.after.current_time < 1440
        → 1440 ≤ l.after.current_time + duration_of s c
        → build_candidate casefold policy route new_item new_artifact brief set bundle ≢ ok plan
  midnight_fails_plan brief set bundle plan before later date n t d c l cost eight dates built
        reached room turn way paid currency early late =
      let s = setting casefold policy route new_item new_artifact brief set in
      let message : String = "end_local_time must be later than start_local_time" in
      let first : length before ≡ 0 + length before = omega arith in
      let failed =
        day_midnight s (length before) date n t d c l cost (same_policy brief set eight) reached
          room turn way paid currency early late in
      days_fail brief set bundle message plan (
        ap (λ ds. build_days s 0 ds nothing_yet) dates
        ∙ day_fails s before later date 0 nothing_yet t message built
            (subst (λ m. build_day s m date t ≡ err message) first failed))
