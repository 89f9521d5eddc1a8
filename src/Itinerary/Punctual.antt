-- ===== src/Itinerary/Punctual.antt =====
-- A day that build_candidate (agent/travel_agent/runtime_v2/planning.py) fills keeps a sound
-- timetable, or is out of order.
use route_pilot.Common.{
  ℕ, String, true, false, Option, none, some, List, [], ◌∷◌, ◌++◌, ◌+◌, ◌*◌, ◌≤◌, ◌<◌, ◌≡◌, ◌⊎◌,
  inl, inr, ◌∙◌, ap, arith, ltb, Bool-cases, All, All-append, subst, sym, Option-cases,
}
use route_pilot.Common.Exec.{Result, ok}
use route_pilot.Common.Outcome.{Result-cases}
use route_pilot.Common.Sets.{In}
use route_pilot.Common.Eq.{text_equality}
use route_pilot.Itinerary.Types.{Candidate, TransitLeg, PlanTimeBlock, MoneyRange, minute, day}
use route_pilot.Itinerary.Constraints.{start_of, end_of}
use route_pilot.Itinerary.Feasible.{IsTimed, Timetable}
use route_pilot.Itinerary.Planner.{DayState, hour, time_of_day, has_blocks}
use route_pilot.Itinerary.Schedule.{
  Setting, Leg, add_block, block_of, duration_of, travel, travelled,
}
use route_pilot.Itinerary.Rounds.{Filled, duration_of-le}
use route_pilot.Itinerary.Daytime.{
  last_end, last_end-append, Timetable-append, Disordered, early-Disordered, NoEarlier,
}
use route_pilot.Itinerary.Arrival.{
  Arrives, minutes_of, Arrives-Reaches, same_day, ends_same_day, after_midnight, before_eight,
  has_blocks-append,
}

-- No leg takes longer than 12 hours and 45 minutes.
abbrev pub ShortLegs : (Candidate → Candidate → Result String TransitLeg) → Type 0
ShortLegs route =
    (p c : Candidate) (leg : TransitLeg) → route p c ≡ ok leg → leg.duration_max_minutes ≤ 765

abbrev pub Cited : List String → Candidate → Type 0
Cited known c = All (λ r. In r known) c.evidence_refs

module _ (s : Setting) (known : List String) (local_date : ℕ) where
  -- What holds of a day's state between its rounds.
  pub record Punctual (d : DayState) : Type 0 where
    pub timetable : Timetable known local_date none d.blocks
    pub after_nine : NoEarlier (540 * minute) d.blocks
    pub from_nine : 540 ≤ d.current_time
    pub first : d.previous ≡ none → (has_blocks d.blocks ≡ false) × (d.current_time ≡ 540)
    pub later :
        (p : Candidate)
        → d.previous ≡ some p
        → (has_blocks d.blocks ≡ true)
          × (d.current_time < 1200)
          × (last_end local_date none d.blocks ≡ some (local_date * day + d.current_time * minute))

  -- A state before a block is put: its time, and whether a block stands before it.
  pub record Ready (transit : Option TransitLeg) (d : DayState) : Type 0 where
    pub timetable : Timetable known local_date none d.blocks
    pub after_nine : NoEarlier (540 * minute) d.blocks
    pub from_nine : 540 ≤ d.current_time
    pub bound : d.current_time < 1980
    pub first : has_blocks d.blocks ≡ false → d.current_time ≡ 540
    pub reached :
        Arrives
          (last_end local_date none d.blocks)
          (minutes_of transit)
          (local_date * day + d.current_time * minute)

  fits :
      (d : DayState) (c : Candidate) (transit : Option TransitLeg) (i k : ℕ) (cost : MoneyRange)
      → Ready transit d
      → d.current_time < 1440
      → time_of_day d.current_time < time_of_day (d.current_time + duration_of s c)
      → Cited known c
      → Timetable known local_date none
          (d.blocks ++ block_of s i local_date k d c transit cost ∷ [])
  unfolding block_of start_of end_of
  fits d c transit i k cost r soon in_day cited =
      let b = block_of s i local_date k d c transit cost in
      let here = same_day d.current_time soon in
      let until = ends_same_day d.current_time (duration_of s c) soon (duration_of-le s c) in_day in
      let there = same_day (d.current_time + duration_of s c) until in
      let timed : IsTimed local_date b = omega (arith, here, there) in
      let arrives =
        subst
          (λ t.
            Arrives (last_end local_date none d.blocks) (minutes_of transit) (local_date * day + t))
          (sym here) r.reached in
      Timetable-append known local_date none d.blocks b r.timetable timed
        (Arrives-Reaches (last_end local_date none d.blocks) local_date b arrives) cited

  -- Put on the same day, the block keeps the timetable.
  put_soon :
      (i k : ℕ) (c : Candidate) (transit : Option TransitLeg) (d : DayState) (cost : MoneyRange)
      → Ready transit d
      → Cited known c
      → d.current_time < 1440
      → time_of_day d.current_time < time_of_day (d.current_time + duration_of s c)
      → (has_blocks d.blocks ≡ true → hour (d.current_time + duration_of s c) < 20)
      → Punctual (add_block s d c cost (block_of s i local_date k d c transit cost))
  unfolding add_block block_of has_blocks end_of
  put_soon i k c transit d cost r cited soon in_day early =
      let b = block_of s i local_date k d c transit cost in
      let until = ends_same_day d.current_time (duration_of s c) soon (duration_of-le s c) in_day in
      let here = same_day d.current_time soon in
      let there = same_day (d.current_time + duration_of s c) until in
      let short = duration_of-le s c in
      record {
        timetable = fits d c transit i k cost r soon in_day cited;
        after_nine =
            All-append (λ (x : PlanTimeBlock). 540 * minute ≤ x.time_range.start_local_time)
              d.blocks (b ∷ []) r.after_nine (omega (arith, here, r.from_nine), tt);
        from_nine = omega (arith, r.from_nine);
        first = λ h. absurd (ground arith);
        later = λ p h. (
          has_blocks-append d.blocks b,
          elim (Bool-cases (has_blocks d.blocks)) [
            | inl some_block ↦
                before_eight (d.current_time + duration_of s c) until (early some_block)
            | inr none_yet ↦ omega (arith, short, r.first none_yet)
          ],
          last_end-append local_date none d.blocks b ∙ ap some (omega (arith, there)),
        );
      }

  -- Put after midnight, it comes before the blocks of the morning.
  put_late :
      (i k : ℕ) (c : Candidate) (transit : Option TransitLeg) (d : DayState) (cost : MoneyRange)
      → Ready transit d
      → 1440 ≤ d.current_time
      → Disordered (add_block s d c cost (block_of s i local_date k d c transit cost)).blocks
  unfolding add_block block_of
  put_late i k c transit d cost r late =
      let some_block : has_blocks d.blocks ≡ true = elim (Bool-cases (has_blocks d.blocks)) [
        | inl h ↦ h
        | inr h ↦ absurd (omega (arith, r.first h))
      ] in
      early-Disordered (540 * minute) d.blocks (block_of s i local_date k d c transit cost)
        some_block r.after_nine (after_midnight d.current_time late r.bound)

  pub put_block :
      (i k : ℕ) (c : Candidate) (transit : Option TransitLeg) (d e : DayState)
      → s.policy.day_end_hour ≡ 20
      → Ready transit d
      → Cited known c
      → Filled s i local_date k c transit d e
      → Punctual e ⊎ Disordered e.blocks
  put_block i k c transit d e eight r cited f =
      subst (λ x. Punctual x ⊎ Disordered x.blocks) (sym f.state)
        (elim (Bool-cases (ltb d.current_time 1440)) [
          | inl soon ↦ inl (
              put_soon i k c transit d f.cost r cited (ground arith) f.in_day
                (λ h. omega (arith, f.early h)))
          | inr late ↦ inr (put_late i k c transit d f.cost r (ground arith))
        ])

  no_blocks :
      (bs : List PlanTimeBlock) (n at : ℕ)
      → has_blocks bs ≡ false
      → Arrives (last_end local_date none bs) n at
  unfolding has_blocks
  no_blocks [] n at h = tt
  no_blocks (_ ∷ _) n at h = absurd (ground arith)

  Ready-first : (d : DayState) → Punctual d → d.previous ≡ none → Ready none d
  Ready-first d p q =
      let (no_block, nine) = p.first q in
      record {
        timetable = p.timetable;
        after_nine = p.after_nine;
        from_nine = omega (arith, nine);
        bound = omega (arith, nine);
        first = λ _. nine;
        reached = no_blocks d.blocks 0 (local_date * day + d.current_time * minute) no_block;
      }

  Ready-leg :
      (d : DayState) (b : Candidate) (leg : TransitLeg)
      → s.policy.minimum_buffer_minutes ≡ 15
      → leg.duration_max_minutes ≤ 765
      → Punctual d
      → d.previous ≡ some b
      → Ready (some leg) (travelled s d leg)
  Ready-leg d b leg buffer short p q =
      let (some_block, early, last) = p.later b q in
      record {
        timetable = p.timetable;
        after_nine = p.after_nine;
        from_nine = omega (arith, buffer, p.from_nine);
        bound = omega (arith, buffer, early);
        first = λ h. absurd (ground arith);
        reached =
            subst
              (λ o.
                Arrives o leg.duration_max_minutes
                  (local_date * day + (travelled s d leg).current_time * minute))
              (sym last) (omega arith);
      }

  -- A leg leaves the state ready for the next block.
  pub travel-Ready :
      (d : DayState) (c : Candidate) (l : Leg)
      → s.policy.minimum_buffer_minutes ≡ 15
      → ShortLegs s.route
      → Punctual d
      → travel s d c ≡ ok l
      → Ready l.transit l.after
  unfolding travel
  travel-Ready d c l buffer short p h = elim (Option-cases d.previous) [
    | inl q ↦
        subst (λ (x : Leg). Ready x.transit x.after) {x = record { transit = none; after = d }}
          (ground arith) (Ready-first d p q)
    | inr (b, q) ↦ elim (Result-cases (s.route b c)) [
      | inl (leg, w) ↦
          subst (λ (x : Leg). Ready x.transit x.after)
            {x = record { transit = some leg; after = travelled s d leg }} (ground arith)
            (Ready-leg d b leg buffer (short b c leg w) p q)
      | inr (_, w) ↦ absurd (ground arith)
    ]
  ]
