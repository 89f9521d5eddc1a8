-- ===== src/Itinerary/Composition.antt =====
-- The planner's plans before the validator: build_candidate of
-- agent/travel_agent/runtime_v2/planning.py and the checks of validation.py.
use mathlib.Core.List.{append_assoc, append-nil}
use route_pilot.Common.{
  ℕ, zero, suc, String, true, false, none, List, [], ◌∷◌, ◌++◌, ◌+◌, ◌-◌, ◌≤◌, ◌≡◌, ◌≢◌, inl, inr,
  refl, ◌∙◌, ap, arith, All, All-append, All-keep, subst, sym, not, any, each,
}
use route_pilot.Common.Exec.{Result, ok}
use route_pilot.Common.Eq.{text_equality}
use route_pilot.Common.Sets.{member}
use route_pilot.Common.Outcome.{Result-cases}
use route_pilot.Itinerary.Types.{
  Candidate, TransitLeg, PlanDay, TripBrief, CandidateSet, EvidenceBundle, ItineraryPlan,
  ConstraintSpec,
}
use route_pilot.Itinerary.Constraints.{block_checks, date_check, dates}
use route_pilot.Itinerary.Validate.{is_fail}
use route_pilot.Itinerary.Feasible.{Timetable, evidence_ids, InWindow}
use route_pilot.Itinerary.Soundness.{Clean, block_checks_iff, date_check_iff}
use route_pilot.Itinerary.Planner.{
  default_policy, dates_between, days_from, eligible_of, retained_of, planning_candidates, terms,
  named_by, money,
}
use route_pilot.Itinerary.Schedule.{Setting, Totals, build_day, build_days, nothing_yet}
use route_pilot.Itinerary.Build.{build_candidate, setting, finish, eligible}
use route_pilot.Itinerary.Punctual.{ShortLegs, Cited}
use route_pilot.Itinerary.Days.{Added, build_day-Timetable}

abbrev pub Tabled : List String → PlanDay → Type 0
Tabled known d = Timetable known d.date none d.time_blocks

module _ (s : Setting) (known : List String) (nine : s.policy.day_start_hour ≡ 9)
    (eight : s.policy.day_end_hour ≡ 20) (buffer : s.policy.minimum_buffer_minutes ≡ 15)
    (short : ShortLegs s.route) (cited : All (Cited known) s.candidates) where
  -- Day by day, in the order of the dates.
  abbrev Planned : List ℕ → Totals → Totals → Type 0
  Planned ds t u =
      (added : List PlanDay) × (u.days ≡ (t.days ++ added))
      × (dates added ≡ ds)
      × All (Tabled known) added

  Planned-more :
      (date : ℕ) (ds : List ℕ) (t u v : Totals)
      → Added s known date t u
      → Planned ds u v
      → Planned (date ∷ ds) t v
  unfolding each
  Planned-more date ds t u v (day, p, q, table) (added, p', q', tables) = (
    day ∷ added,
    p' ∙ ap (λ x. x ++ added) p ∙ append_assoc t.days (day ∷ []) added,
    cc,
    (subst (λ n. Timetable known n none day.time_blocks) (sym q) table, tables),
  )

  build_days-Planned :
      (i : ℕ) (ds : List ℕ) (t u : Totals) → build_days s i ds t ≡ ok u → Planned ds t u
  unfolding build_days each
  build_days-Planned i [] t u h = ([], ground arith ∙ sym (append-nil t.days), refl, tt)
  build_days-Planned i (date ∷ ds) t u h = elim (Result-cases (build_day s i date t)) [
    | inr (_, q) ↦ absurd (ground (arith, q))
    | inl (v, q) ↦
        Planned-more date ds t v u
          (build_day-Timetable s known date eight buffer short cited i t v nine q)
          (build_days-Planned (i + 1) ds v u (ground (arith, q)))
  ]

dates-Tabled :
    (brief : TripBrief) (ds : List PlanDay)
    → All (λ n. (brief.date_window.start_date ≤ n) × (n ≤ brief.date_window.end_date)) (dates ds)
    → All (InWindow brief) ds
unfolding each
dates-Tabled brief [] h = tt
dates-Tabled brief (d ∷ ds) h = (h.0, dates-Tabled brief ds h.1)

days_from-within :
    (start n low high : ℕ)
    → low ≤ start
    → start + n ≤ high + 1
    → All (λ d. (low ≤ d) × (d ≤ high)) (days_from start n)
unfolding days_from
days_from-within start zero low high h k = tt
days_from-within start (suc n) low high h k =
    (omega arith, days_from-within (start + 1) n low high (omega arith) (omega arith))

module _ {κ} (casefold : String → String) (P : Candidate → Type κ) where
  All-eligible :
      (names : List String) (cs : List Candidate) → All P cs → All P (eligible_of casefold names cs)
  unfolding eligible_of
  All-eligible names cs = All-keep P (λ c. not (any (named_by casefold c) names)) cs

  All-retained :
      (names : List String) (cs : List Candidate) → All P cs → All P (retained_of casefold names cs)
  unfolding retained_of
  All-retained [] cs h = tt
  All-retained (t ∷ ts) cs h =
      All-append P _ (retained_of casefold ts cs) (All-keep P (λ c. named_by casefold c t) cs h)
        (All-retained ts cs h)

  All-planning_candidates :
      (constraints : List ConstraintSpec) (cs : List Candidate)
      → All P cs
      → All P (planning_candidates casefold constraints cs)
  unfolding planning_candidates
  All-planning_candidates constraints cs h =
      let retained = retained_of casefold (terms casefold true constraints) cs in
      let ids = each (λ (c : Candidate). c.candidate_id) retained in
      All-append P retained _ (All-retained (terms casefold true constraints) cs h)
        (All-keep P (λ c. not (member c.candidate_id ids)) cs h)

module _ (casefold : String → String) (route : Candidate → Candidate → Result String TransitLeg)
    (new_item : ℕ → ℕ → String) (new_artifact : String) (brief : TripBrief) (set : CandidateSet)
    (bundle : EvidenceBundle) where
  abbrev known : List String
  known = evidence_ids bundle

  abbrev window : List ℕ
  window = dates_between brief.date_window.start_date brief.date_window.end_date

  -- The days of a plan that is returned are those of the dates.
  abbrev Scheduled : ItineraryPlan → Type 0
  Scheduled plan = (dates plan.days ≡ window) × All (Tabled known) plan.days

  abbrev planning : Setting
  planning = setting casefold default_policy route new_item new_artifact brief set

  build_candidate-Scheduled :
      (plan : ItineraryPlan)
      → ShortLegs route
      → All (Cited known) set.candidates
      → build_candidate casefold default_policy route new_item new_artifact brief set bundle
        ≡ ok plan
      → Scheduled plan
  unfolding build_candidate finish setting eligible
  build_candidate-Scheduled plan short cited h =
      elim (Result-cases (build_days planning 0 window nothing_yet)) [
        | inr (_, q) ↦ absurd (ground (arith, q))
        | inl (t, q) ↦
            let cs = eligible_of casefold (terms casefold false brief.constraints) set.candidates in
            let (added, p, ds, tables) =
              build_days-Planned planning known refl refl refl short
                (All-planning_candidates casefold (Cited known) brief.constraints cs (
                  All-eligible casefold (Cited known) (terms casefold false brief.constraints)
                    set.candidates cited))
                0 window nothing_yet t q in
            elim (Result-cases (money t.total_min t.total_max brief.budget.currency)) [
              | inr (_, w) ↦ absurd (ground (arith, q, w))
              | inl (total, w) ↦
                  let same : added ≡ plan.days = sym (ground (arith, q, w) ∙ p) in
                  subst (λ days. (dates days ≡ window) × All (Tabled known) days) same (ds, tables)
            ]
      ]

  Clean-days :
      (ds : List PlanDay)
      → All (Tabled known) ds
      → All (λ d. Clean (block_checks known d.date none d.time_blocks)) ds
  Clean-days [] h = tt
  Clean-days (d ∷ ds) h =
      ((block_checks_iff known d.date none d.time_blocks).1 h.0, Clean-days ds h.1)

  some_days : (ds : List PlanDay) (n k : ℕ) → dates ds ≡ days_from n (suc k) → ds ≢ []
  unfolding each days_from
  some_days [] n k h e = absurd (ground arith)
  some_days (d ∷ ds) n k h e = absurd (ground arith)

  -- Under the default policy, if no leg takes longer than 765 minutes, every candidate cites known
  -- evidence, and the window does not end before it starts: a plan that the planner returns has one
  -- day for each date of the window, and the validator's check of its dates and all its checks of
  -- durations, of the time between blocks and of references pass.
  pub planned_days_pass :
      (plan : ItineraryPlan)
      → ShortLegs route
      → All (Cited known) set.candidates
      → brief.date_window.start_date ≤ brief.date_window.end_date
      → build_candidate casefold default_policy route new_item new_artifact brief set bundle
        ≡ ok plan
      → (dates plan.days ≡ window)
        × (is_fail (date_check brief plan) ≡ false)
        × All (λ (d : PlanDay). Clean (block_checks known d.date none d.time_blocks)) plan.days
  unfolding dates_between
  planned_days_pass plan short cited forward h =
      let (ds, tables) = build_candidate-Scheduled plan short cited h in
      let start = brief.date_window.start_date in
      let end = brief.date_window.end_date in
      let within = days_from-within start (end + 1 - start) start end (omega arith) (omega arith) in
      (
        ds,
        (date_check_iff brief plan).1 (
          some_days plan.days start (end - start)
              (ds ∙ ap (days_from start) {y = suc (end - start)} (omega arith)),
          dates-Tabled brief plan.days (subst (All (λ n. (start ≤ n) × (n ≤ end))) (sym ds) within),
        ),
        Clean-days plan.days tables,
      )
