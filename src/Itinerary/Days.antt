-- ===== src/Itinerary/Days.antt =====
-- The days that build_candidate (agent/travel_agent/runtime_v2/planning.py) accepts have a sound
-- timetable.
use route_pilot.Common.{
  ℕ, zero, suc, String, Option, none, List, [], ◌∷◌, ◌++◌, ◌+◌, ◌≡◌, ◌⊎◌, inl, inr, refl, ◌∙◌,
  arith, All, subst, sym, Option-cases,
}
use route_pilot.Common.Exec.{Result, ok}
use route_pilot.Common.Outcome.{Result-cases}
use route_pilot.Itinerary.Types.{Candidate, TransitLeg, PlanDay, RouteSummary}
use route_pilot.Itinerary.Feasible.{Timetable}
use route_pilot.Itinerary.Contract.{validate_day}
use route_pilot.Itinerary.Planner.{DayState, Round, placed, broke, has_blocks, money}
use route_pilot.Itinerary.Schedule.{
  Setting, Totals, Leg, fill, travel, morning, next_round, place_blocks, after_round, close_day,
  build_day, add_block, rounds, cost_of, Leg, block_of,
}
use route_pilot.Itinerary.Rounds.{Filled, fill-Filled, Chosen, next_round-Chosen}
use route_pilot.Itinerary.Daytime.{Disordered, Disordered-append}
use route_pilot.Itinerary.Punctual.{Punctual, put_block, travel-Ready, ShortLegs, Cited}

module _ (s : Setting) (known : List String) (local_date : ℕ) where
  abbrev state_of : Round → DayState
  state_of (placed d) = d
  state_of (broke d) = d

  abbrev Sound : DayState → Type 0
  Sound d = Timetable known local_date none d.blocks ⊎ Disordered d.blocks

  abbrev Going : DayState → Type 0
  Going d = Punctual s known local_date d ⊎ Disordered d.blocks

  Going-Sound : (d : DayState) → Going d → Sound d
  Going-Sound d (inl p) = inl p.timetable
  Going-Sound d (inr h) = inr h

  -- A round that goes on leaves the day going, and one that breaks leaves it sound.
  abbrev Left : Round → Type 0
  Left (placed d) = Going d
  Left (broke d) = Sound d

  fill-blocks :
      (i k : ℕ) (c : Candidate) (transit : Option TransitLeg) (d e : DayState)
      → fill s i local_date k c transit d ≡ ok (broke e)
      → e.blocks ≡ d.blocks
  unfolding fill
  fill-blocks i k c transit d e h = elim (Result-cases (cost_of s c)) [
    | inl (cost, p) ↦ ground (arith, p)
    | inr (_, p) ↦ ground (arith, p)
  ]

  travel-blocks :
      (d : DayState) (c : Candidate) (l : Leg) → travel s d c ≡ ok l → l.after.blocks ≡ d.blocks
  unfolding travel
  travel-blocks d c l h = elim (Option-cases d.previous) [
    | inl q ↦ ground (arith, q)
    | inr (b, q) ↦ elim (Result-cases (s.route b c)) [
      | inl (leg, w) ↦ ground (arith, q, w)
      | inr (_, w) ↦ ground (arith, q, w)
    ]
  ]

  Filled-Disordered :
      (i k : ℕ) (c : Candidate) (transit : Option TransitLeg) (d e : DayState)
      → Filled s i local_date k c transit d e
      → Disordered d.blocks
      → Disordered e.blocks
  unfolding add_block
  Filled-Disordered i k c transit d e f h =
      subst (λ x. Disordered x.blocks) (sym f.state)
        (Disordered-append d.blocks (block_of s i local_date k d c transit f.cost) h)

  Punctual-cursor :
      (d : DayState) (n : ℕ)
      → Punctual s known local_date d
      → Punctual s known local_date (record d { cursor = n })
  Punctual-cursor d n p = record {
    timetable = p.timetable;
    after_nine = p.after_nine;
    from_nine = p.from_nine;
    first = p.first;
    later = p.later;
  }

  Sound-blocks : (d e : DayState) → e.blocks ≡ d.blocks → Sound d → Sound e
  Sound-blocks d e q h = subst (λ bs. Timetable known local_date none bs ⊎ Disordered bs) (sym q) h

  morning-Punctual :
      (cursor : ℕ) (route : RouteSummary)
      → s.policy.day_start_hour ≡ 9
      → Punctual s known local_date (morning s cursor route)
  unfolding has_blocks
  morning-Punctual cursor route nine = record {
    timetable = tt;
    after_nine = tt;
    from_nine = omega (arith, nine);
    first = λ _. (refl, omega (arith, nine));
    later = λ p h. absurd (ground arith);
  }

  -- What a closed day adds to the totals.
  abbrev pub Added : Totals → Totals → Type 0
  Added t u =
      (day : PlanDay) × (u.days ≡ (t.days ++ day ∷ []))
      × (day.date ≡ local_date)
      × Timetable known local_date none day.time_blocks

  close_day-Timetable :
      (t u : Totals) (d : DayState) → Sound d → close_day s local_date t d ≡ ok u → Added t u
  unfolding close_day validate_day
  close_day-Timetable t u d (inl table) h =
      elim (Result-cases (money d.day_min d.day_max s.currency)) [
        | inr (_, q) ↦ absurd (ground (arith, q))
        | inl (cost, q) ↦ (
          record {
            date = local_date;
            timezone = s.timezone;
            time_blocks = d.blocks;
            daily_cost = cost;
          },
          ground (arith, q),
          refl,
          table,
        )
      ]
  close_day-Timetable t u d (inr x) h = absurd (ground (arith, x))

  module _ (eight : s.policy.day_end_hour ≡ 20) (buffer : s.policy.minimum_buffer_minutes ≡ 15)
      (short : ShortLegs s.route) (cited : All (Cited known) s.candidates) where
    Chosen-Left :
        (i k : ℕ) (d : DayState) (r : Round)
        → Going d
        → Chosen s (Cited known) i local_date k d r
        → Left r
    Chosen-Left i k d (placed e) (inl p) h =
        put_block s known local_date i k h.candidate h.transit h.after e eight
          (travel-Ready s known local_date (record d { cursor = d.cursor + 1 }) h.candidate
            (record { transit = h.transit; after = h.after }) buffer short
            (Punctual-cursor d (d.cursor + 1) p) h.way)
          h.property (fill-Filled s i local_date k h.candidate h.transit h.after e h.filled)
    Chosen-Left i k d (placed e) (inr x) h =
        let blocks =
          travel-blocks (record d { cursor = d.cursor + 1 }) h.candidate
            (record { transit = h.transit; after = h.after }) h.way in
        inr (
          Filled-Disordered i k h.candidate h.transit h.after e
            (fill-Filled s i local_date k h.candidate h.transit h.after e h.filled)
            (subst Disordered (sym blocks) x))
    Chosen-Left i k d (broke e) g h =
        let blocks =
          travel-blocks (record d { cursor = d.cursor + 1 }) h.candidate
            (record { transit = h.transit; after = h.after }) h.way in
        Sound-blocks d e (fill-blocks i k h.candidate h.transit h.after e h.filled ∙ blocks)
          (Going-Sound d g)

    after_round-Sound :
        (r : Round) (f : DayState → Result String DayState) (e : DayState)
        → ((d : DayState) → Going d → f d ≡ ok e → Sound e)
        → Left r
        → after_round r f ≡ ok e
        → Sound e
    unfolding after_round
    after_round-Sound (placed d) f e rest l h = rest d l h
    after_round-Sound (broke d) f e rest l h = subst Sound {x = d} {y = e} (ground arith) l

    place_blocks-Sound :
        (left i k : ℕ) (d e : DayState)
        → Going d
        → place_blocks s left i local_date k d ≡ ok e
        → Sound e
    unfolding place_blocks
    place_blocks-Sound zero i k d e g h =
        subst Sound {x = d} {y = e} (ground arith) (Going-Sound d g)
    place_blocks-Sound (suc left) i k d e g h =
        elim (Result-cases (next_round s i local_date k d)) [
          | inr (_, q) ↦ absurd (ground arith)
          | inl (r, q) ↦
              after_round-Sound r (place_blocks s left i local_date (k + 1)) e
                (λ d'. place_blocks-Sound left i (k + 1) d' e)
                (Chosen-Left i k d r g
                  (next_round-Chosen s (Cited known) i local_date k d r cited q))
                (ground (arith, q))
        ]

    -- What a closed day adds to the totals.
    pub build_day-Timetable :
        (i : ℕ) (t u : Totals)
        → s.policy.day_start_hour ≡ 9
        → build_day s i local_date t ≡ ok u
        → Added t u
    unfolding build_day
    build_day-Timetable i t u nine h =
        elim (Result-cases
          (place_blocks s (rounds s) i local_date 0 (morning s t.cursor t.route))) [
            | inr (_, q) ↦ absurd (ground (arith, q))
            | inl (d, q) ↦
                close_day-Timetable t u d
                  (place_blocks-Sound (rounds s) i 0 (morning s t.cursor t.route) d
                    (inl (morning-Punctual t.cursor t.route nine)) q)
                  (ground (arith, q))
          ]
