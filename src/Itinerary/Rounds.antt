-- ===== src/Itinerary/Rounds.antt =====
-- The rounds of build_candidate (agent/travel_agent/runtime_v2/planning.py): what a round that goes
-- on has done.
use mathlib.Core.Option.{some-injective}
use route_pilot.Common.{
  ℕ, zero, suc, String, Bool, true, false, ◌&&◌, not, Option, none, some, List, [], ◌∷◌, ◌++◌, ◌+◌,
  ◌*◌, ◌%◌, ◌≤◌, ◌<◌, ◌≡◌, ◌⊎◌, inl, inr, refl, arith, ltb, leb, eqb, if◌then◌else◌, Bool-cases,
  Option-cases, All, length,
}
use route_pilot.Common.Eq.{text_equality}
use route_pilot.Common.Exec.{ok}
use route_pilot.Common.Outcome.{Result-cases}
use route_pilot.Itinerary.Types.{MoneyRange, Candidate, TransitLeg}
use route_pilot.Itinerary.Contract.{validate_times}
use route_pilot.Itinerary.Planner.{DayState, Round, placed, hour, time_of_day, has_blocks, nth}
use route_pilot.Itinerary.Schedule.{
  Setting, fill, block_of, add_block, cost_of, duration_of, travel, next_round,
}

module _ (s : Setting) where
  pub duration_of-le : (c : Candidate) → duration_of s c ≤ 240
  unfolding duration_of
  duration_of-le c = ground arith

  -- A block was put behind the others, within one day, and not late unless it is the first.
  pub record Filled (day_index local_date block_index : ℕ) (c : Candidate)
      (transit : Option TransitLeg) (d e : DayState) : Type 0 where
    pub cost : MoneyRange
    pub state :
        e ≡ add_block s d c cost (block_of s day_index local_date block_index d c transit cost)
    pub in_day : time_of_day d.current_time < time_of_day (d.current_time + duration_of s c)
    pub early :
        has_blocks d.blocks ≡ true → hour (d.current_time + duration_of s c) < s.policy.day_end_hour

  pub fill-Filled :
      (day_index local_date block_index : ℕ) (c : Candidate) (transit : Option TransitLeg)
      (d e : DayState)
      → fill s day_index local_date block_index c transit d ≡ ok (placed e)
      → Filled day_index local_date block_index c transit d e
  unfolding fill validate_times block_of
  fill-Filled day_index local_date block_index c transit d e h = elim (Result-cases (cost_of s c)) [
    | inl (cost, p) ↦ record {
      cost = cost;
      state = ground (arith, p);
      in_day = ground (arith, p);
      early = ground (arith, p);
    }
    | inr (_, p) ↦ absurd (ground (arith, p))
  ]

  nth-All {κ} :
      {A : Type 0} (P : A → Type κ) (n : ℕ) (xs : List A) (x : A)
      → All P xs
      → nth n xs ≡ some x
      → P x
  unfolding nth
  nth-All P n [] x h e = absurd (ground arith)
  nth-All P zero (y ∷ ys) x h e = route_pilot.Common.subst P (some-injective _ _ e) h.0
  nth-All P (suc n) (y ∷ ys) x h e = nth-All P n ys x h.1 e

  -- The candidate of the round, and the state when its block is to be put.
  pub record Chosen {κ} (P : Candidate → Type κ) (day_index local_date block_index : ℕ)
      (d : DayState) (r : Round) : Type κ where
    pub candidate : Candidate
    pub property : P candidate
    pub turn : nth (d.cursor % length s.candidates) s.candidates ≡ some candidate
    pub transit : Option TransitLeg
    pub after : DayState
    pub way :
        travel s (record d { cursor = d.cursor + 1 }) candidate
        ≡ ok (record { transit = transit; after = after })
    pub filled : fill s day_index local_date block_index candidate transit after ≡ ok r

  pub next_round-Chosen {κ} :
      (P : Candidate → Type κ) (day_index local_date block_index : ℕ) (d : DayState) (r : Round)
      → All P s.candidates
      → next_round s day_index local_date block_index d ≡ ok r
      → Chosen P day_index local_date block_index d r
  unfolding next_round
  next_round-Chosen P day_index local_date block_index d r all h =
      elim (Option-cases (nth (d.cursor % length s.candidates) s.candidates)) [
        | inl p ↦ absurd (ground (arith, p))
        | inr (c, p) ↦ elim (Result-cases (travel s (record d { cursor = d.cursor + 1 }) c)) [
          | inr (_, q) ↦ absurd (ground (arith, p, q))
          | inl (leg, q) ↦ record {
            candidate = c;
            turn = p;
            property = nth-All P (d.cursor % length s.candidates) s.candidates c all p;
            transit = leg.transit;
            after = leg.after;
            way = q;
            filled = ground (arith, p, q);
          }
        ]
      ]
