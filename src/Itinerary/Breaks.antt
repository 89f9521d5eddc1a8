-- ===== src/Itinerary/Breaks.antt =====
-- What a break leaves of a day of build_candidate (agent/travel_agent/runtime_v2/planning.py).
use route_pilot.Common.{
  suc, subst, refl, ◌%◌, length, ℕ, true, Option, some, List, [], ◌∷◌, All, ap, sym, ◌+◌, ◌≡◌, inl,
  inr, ◌∙◌, arith,
}
use route_pilot.Common.Eq.{text_equality}
use route_pilot.Common.Exec.{ok}
use route_pilot.Common.Outcome.{Result-cases}
use route_pilot.Itinerary.Types.{Candidate, TransitLeg}
use route_pilot.Itinerary.Planner.{nth, DayState, broke, has_blocks, add_leg}
use route_pilot.Itinerary.Schedule.{
  place_blocks, after_round, Setting, Leg, fill, travel, travelled, next_round, cost_of,
}
use route_pilot.Itinerary.Rounds.{next_round-Chosen}

fill-broke :
    (s : Setting) (i local_date k : ℕ) (c : Candidate) (transit : Option TransitLeg)
    (d e : DayState)
    → fill s i local_date k c transit d ≡ ok (broke e)
    → (has_blocks d.blocks ≡ true) × (d ≡ e)
unfolding fill
fill-broke s i local_date k c transit d e h = elim (Result-cases (cost_of s c)) [
  | inl (cost, p) ↦ ground (arith, p)
  | inr (_, p) ↦ ground (arith, p)
]

travel-later :
    (s : Setting) (d : DayState) (c : Candidate) (l : Leg) (p : Candidate)
    → d.previous ≡ some p
    → travel s d c ≡ ok l
    → (leg : TransitLeg) × (s.route p c ≡ ok leg) × (l.after ≡ travelled s d leg)
unfolding travel
travel-later s d c l p q h = elim (Result-cases (s.route p c)) [
  | inl (leg, w) ↦ (leg, w, ground (arith, w))
  | inr (_, w) ↦ absurd (ground (arith, w))
]

trivial : (cs : List Candidate) → All (λ _. Unit {0}) cs
trivial [] = tt
trivial (c ∷ cs) = (tt, trivial cs)

-- A round that breaks behind a block ends the day with the blocks that it had. But the candidate whose
-- turn it was is passed over, and the leg to it is counted in the day's totals of the routes, although
-- no block was put behind it.
pub broken_round_counted :
    (s : Setting) (i local_date left k : ℕ) (d e : DayState) (p : Candidate)
    → d.previous ≡ some p
    → next_round s i local_date k d ≡ ok (broke e)
    → (place_blocks s (left + 1) i local_date k d ≡ ok e)
      × (e.blocks ≡ d.blocks)
      × (e.cursor ≡ d.cursor + 1)
      × ((leg : TransitLeg) × (c : Candidate) × (nth (d.cursor % length s.candidates) s.candidates
            ≡ some c)
          × (s.route p c ≡ ok leg)
          × (e.route ≡ add_leg leg d.route))
unfolding place_blocks after_round
broken_round_counted s i local_date left k d e p q h =
    let chosen =
      next_round-Chosen s (λ _. Unit {0}) i local_date k d (broke e) (trivial s.candidates) h in
    let (_, same) =
      fill-broke s i local_date k chosen.candidate chosen.transit chosen.after e chosen.filled in
    let (leg, w, after) =
      travel-later s (record d { cursor = d.cursor + 1 }) chosen.candidate
        (record { transit = chosen.transit; after = chosen.after }) p q chosen.way in
    let end = sym same ∙ after in
    let one_more : suc left ≡ left + 1 = omega arith in
    (
      subst (λ m. place_blocks s m i local_date k d ≡ ok e) one_more (rw h refl),
      ap (λ x. x.blocks) end,
      ap (λ x. x.cursor) end,
      (leg, chosen.candidate, chosen.turn, w, ap (λ x. x.route) end),
    )
