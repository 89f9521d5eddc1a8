-- ===== src/Itinerary/Validate.antt =====
-- DeterministicConstraintValidator.validate of agent/travel_agent/runtime_v2/validation.py: the
-- checks of budget, hard constraints and freshness, and the report. The limits of the report's fields
-- (100 blocks in a check, 2000 checks) are no part of it: see Limits.
use route_pilot.Common.{
  ℕ, String, Bool, true, false, ◌&&◌, not, Option, none, some, List, [], ◌∷◌, ◌++◌, leb, eqb,
  if◌then◌else◌, any, each,
}
use route_pilot.Common.Eq.{◌==◌, text_equality}
use route_pilot.Common.Dict.{Dict, lookup, insert}
use route_pilot.Common.Sets.{count}
use route_pilot.Common.Text.{contains, join}
use route_pilot.Itinerary.Types.{
  FreshnessStatus, Outcome, pass, warning, fail, ConstraintType, ConstraintSpec, TripBrief,
  MoneyRange, EvidenceItem, EvidenceBundle, PlanTimeBlock, PlanDay, ItineraryPlan, Category,
  MetricObservation, ConstraintCheck, CheckSummary, ConstraintReport,
}
use route_pilot.Itinerary.Constraints.{
  check, verdict, observe, blocks_of, date_check, concrete_check, day_checks,
}

unfoldable pub is_fail : ConstraintCheck → Bool
is_fail c = elim c.outcome [ fail ↦ true | _ ↦ false ]

unfoldable pub is_warning : ConstraintCheck → Bool
is_warning c = elim c.outcome [ warning ↦ true | _ ↦ false ]

unfoldable pub is_pass : ConstraintCheck → Bool
is_pass c = elim c.outcome [ pass ↦ true | _ ↦ false ]

unfoldable pub summary_of : List ConstraintCheck → CheckSummary
unfolding count is_pass is_warning is_fail
summary_of checks = record {
  passed = count is_pass checks;
  warnings = count is_warning checks;
  failed = count is_fail checks;
}

-- `"fail" if failed else "warning" if warnings else "pass"`.
unfoldable pub outcome_of : CheckSummary → Outcome
outcome_of s = if eqb s.failed 0 then (if eqb s.warnings 0 then pass else warning) else fail

-- `FreshnessStatus.STALE`, `EXPIRED` or `UNKNOWN`.
unfoldable pub is_outdated : FreshnessStatus → Bool
is_outdated FreshnessStatus.fresh = false
is_outdated _ = true

-- `{item.evidence_id: item.freshness.status for item in evidence.evidence}`.
unfoldable pub freshness_by_id :
    Dict String FreshnessStatus → List EvidenceItem → Dict String FreshnessStatus
freshness_by_id d [] = d
freshness_by_id d (item ∷ rest) = freshness_by_id (insert item.evidence_id item.freshness d) rest

-- `{freshness_by_id[item] for item in block.evidence_refs if item in freshness_by_id}`.
unfoldable pub statuses : Dict String FreshnessStatus → List String → List FreshnessStatus
statuses d [] = []
statuses d (r ∷ rest) =
    let others = statuses d rest in elim (lookup r d) [ none ↦ others | some s ↦ s ∷ others ]

-- `statuses and not statuses.intersection(...)`.
unfoldable pub is_current : List FreshnessStatus → Bool
unfolding is_outdated any
is_current [] = false
is_current (s ∷ rest) = not (any is_outdated (s ∷ rest))

unfoldable pub freshness_check : Dict String FreshnessStatus → PlanTimeBlock → ConstraintCheck
unfolding statuses is_current
freshness_check d b =
    if is_current (statuses d b.evidence_refs)
    then check Category.opening_hours pass "地点证据当前有效。" (b.block_id ∷ [])
    else check Category.opening_hours warning "地点证据可能过期，营业状态需实时 Provider 复核。" (b.block_id ∷ [])

-- Whether the constraint is hard and of a kind that is checked; `some true` is a visit.
unfoldable pub checkable : ConstraintSpec → Option Bool
checkable c =
    if c.hard
    then elim c.constraint_type [
      | ConstraintType.visit ↦ some true
      | ConstraintType.avoid ↦ some false
      | _ ↦ none
    ]
    else none

module _ (casefold : String → String) where
  unfoldable pub titles : List PlanDay → String
  unfolding join each blocks_of
  titles days = join " " (each (λ (b : PlanTimeBlock). casefold b.title) (blocks_of days))

  unfoldable pub mention_check : String → ConstraintSpec → Bool → ConstraintCheck
  unfolding verdict contains
  mention_check mentioned_in c is_visit =
      let mentioned = contains (casefold c.description) mentioned_in in
      record (verdict (if is_visit then mentioned else not mentioned) Category.hard_constraint []
        "可机器核验的必去/避开约束已满足。" "可机器核验的必去/避开约束未满足。") { constraint_ref = some c.constraint_id }

  -- `for constraint in brief.constraints`.
  unfoldable pub constraint_checks : String → List ConstraintSpec → List ConstraintCheck
  unfolding checkable mention_check
  constraint_checks mentioned_in [] = []
  constraint_checks mentioned_in (c ∷ cs) =
      let rest = constraint_checks mentioned_in cs in
      elim (checkable c) [
        | none ↦ rest
        | some is_visit ↦ mention_check mentioned_in c is_visit ∷ rest
      ]

unfoldable pub budget_ok : MoneyRange → MoneyRange → Bool
budget_ok total budget = total.currency == budget.currency && leb total.max_amount budget.max_amount

module _ (show : ℕ → String) where
  abbrev amount : TripBrief → String → ℕ → MetricObservation
  amount brief metric n = record { metric = metric; value = show n; unit = brief.budget.currency }

  unfoldable pub budget_check : TripBrief → ItineraryPlan → ConstraintCheck
  unfolding verdict budget_ok
  budget_check brief plan =
      observe
        (amount brief "plan_max" plan.estimated_total.max_amount
          ∷ amount brief "budget_max" brief.budget.max_amount
          ∷ [])
        (verdict (budget_ok plan.estimated_total brief.budget) Category.budget [] "候选行程预算未超过用户上限。"
          "候选行程预算超过用户上限或币种不一致。")

module _ (casefold : String → String) (show : ℕ → String) where
  unfoldable pub all_checks : TripBrief → ItineraryPlan → EvidenceBundle → List ConstraintCheck
  unfolding date_check concrete_check day_checks budget_check constraint_checks titles
      freshness_check freshness_by_id each blocks_of
  all_checks brief plan bundle =
      let known = each (λ (i : EvidenceItem). i.evidence_id) bundle.evidence in
      date_check brief plan
      ∷ concrete_check brief plan
      ∷ (day_checks known plan.days
          ++ (budget_check show brief plan
              ∷ (constraint_checks casefold (titles casefold plan.days) brief.constraints
                  ++ each (freshness_check (freshness_by_id [] bundle.evidence))
                      (blocks_of plan.days))))

  unfoldable pub validate : TripBrief → ItineraryPlan → EvidenceBundle → ConstraintReport
  unfolding all_checks summary_of outcome_of
  validate brief plan bundle =
      let checks = all_checks brief plan bundle in
      let summary = summary_of checks in
      record {
        plan_ref = plan.artifact_id;
        outcome = outcome_of summary;
        checks = checks;
        summary = summary;
      }
