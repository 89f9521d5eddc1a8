-- ===== src/Rag/Chunks.antt =====
-- What ParagraphWindowChunker.split (agent/travel_agent/rag/text.py) returns.
use mathlib.Core.List.Sublist
use mathlib.Core.List.{
  Sublist, sublist-append_right, append_assoc, append-nil, eq-nil_of_sublist-nil, nil-sublist,
}
use route_pilot.Common.{
  Bool-cases, inl, inr, ap, leb, subst, sym, ◌∙◌, keep, eqb, if◌then◌else◌, ℕ, false, some, List,
  [], ◌∷◌, ◌++◌, ◌+◌, ◌-◌, ◌≤◌, ◌<◌, ◌≡◌, refl, arith, any, length, length-append, All,
}
use route_pilot.Common.Exec.{ok}
use route_pilot.Common.Text.{is_space}
use route_pilot.Rag.Chunker.{
  Chars, Chunker, max_chunk_chars, newline, is_blank, drop, strip, paragraphs, joined, restart,
  pack, or_whole, is_invalid, split,
}
use route_pilot.Rag.Ink.{
  ink, total_ink, length-strip, length-drop, ink-strip, ink-append, ink-blank, strip_no_ink,
  paragraphs-ink,
}
use route_pilot.Rag.Windows.{all_units_total}

abbrev empty_line : Chars
empty_line = newline ∷ newline ∷ []

ink-empty_line : ink empty_line ≡ []
unfolding keep is_space
ink-empty_line = refl

joined-ink : (current unit : Chars) → ink (joined current unit) ≡ ink current ++ ink unit
unfolding joined
joined-ink current unit = elim (Bool-cases (is_blank current)) [
  | inl w ↦ rw (w, ink-blank current w) refl
  | inr w ↦
      let apart : ink (current ++ empty_line) ≡ ink current =
        ink-append current empty_line
        ∙ (ap (λ z. ink current ++ z) ink-empty_line ∙ append-nil (ink current)) in
      rw w (
        ink-strip ((current ++ empty_line) ++ unit)
        ∙ (ink-append (current ++ empty_line) unit ∙ ap (λ z. z ++ ink unit) apart))
]

joined-bound :
    (current unit : Chars) → length (joined current unit) ≤ length current + 2 + length unit
unfolding joined
joined-bound current unit = ground (
  arith,
  length-strip ((current ++ empty_line) ++ unit),
  length-append (current ++ empty_line) unit,
  length-append current empty_line,
)

module _ (k : Chunker) where
  -- The room for the overlap and an empty line before a unit.
  abbrev pub bound_of : ℕ
  bound_of = k.target_chars + (k.overlap_chars + 2)

  abbrev pub Bounded : Chars → Type 0
  Bounded c = (is_blank c ≡ false) × (length c ≤ bound_of)

  restart-bound :
      (current unit : Chars)
      → length unit ≤ k.target_chars
      → length (restart k current unit) ≤ bound_of
  unfolding restart
  restart-bound current unit h =
      let tail = drop (length current - k.overlap_chars) current in
      ground (
        arith,
        joined-bound [] unit,
        joined-bound (strip tail) unit,
        length-strip tail,
        length-drop (length current - k.overlap_chars) current,
      )

  restart-ink : (current unit : Chars) → Sublist (ink unit) (ink (restart k current unit))
  unfolding restart
  restart-ink current unit =
      let tail =
        if eqb k.overlap_chars 0
        then []
        else strip (drop (length current - k.overlap_chars) current) in
      subst (Sublist (ink unit)) (sym (joined-ink tail unit))
        (sublist-append_right (ink tail) (ink unit))

  pack-Bounded :
      (current : Chars) (us : List Chars)
      → length current ≤ bound_of
      → All (λ u. length u ≤ k.target_chars) us
      → All Bounded (pack k current us)
  unfolding pack
  pack-Bounded current [] h bound = ground arith
  pack-Bounded current (u ∷ us) h bound = ground (
    arith,
    pack-Bounded (joined current u) us,
    pack-Bounded (restart k current u) us (restart-bound current u bound.0) bound.1,
    pack-Bounded u us,
  )

  pack-ink :
      (current : Chars) (us : List Chars)
      → Sublist (ink current ++ total_ink us) (total_ink (pack k current us))
  unfolding pack
  pack-ink current [] = elim (Bool-cases (is_blank current)) [
    | inl w ↦ rw (w, ink-blank current w) (Sublist.refl [])
    | inr w ↦ rw w (Sublist.refl (ink current ++ []))
  ]
  pack-ink current (u ∷ us) = elim (Bool-cases (leb (length (joined current u)) k.target_chars)) [
    | inl w ↦ rw w (
        subst (λ z. Sublist z (total_ink (pack k (joined current u) us)))
          (ap (λ z. z ++ total_ink us) (joined-ink current u)
            ∙ append_assoc (ink current) (ink u) (total_ink us))
          (pack-ink (joined current u) us))
    | inr w ↦ elim (Bool-cases (is_blank current)) [
      | inl v ↦ rw (w, v, ink-blank current v) (pack-ink u us)
      | inr v ↦
          rw (w, v)
            (Sublist.append (Sublist.refl (ink current)) (
              Sublist.trans (Sublist.append (restart-ink current u) (Sublist.refl (total_ink us)))
                (pack-ink (restart k current u) us)))
    ]
  ]

  or_whole-Bounded :
      (content : Chars) (cs : List Chars)
      → All Bounded cs
      → Sublist (ink content) (total_ink cs)
      → All Bounded (or_whole content cs)
  unfolding or_whole
  or_whole-Bounded content [] b i = ground (arith, strip_no_ink content (eq-nil_of_sublist-nil i))
  or_whole-Bounded content (c ∷ cs) b i = b

  or_whole-ink :
      (content : Chars) (cs : List Chars)
      → Sublist (ink content) (total_ink cs)
      → Sublist (ink content) (total_ink (or_whole content cs))
  unfolding or_whole
  or_whole-ink content [] i =
      subst (λ z. Sublist z (total_ink (or_whole content []))) (sym (eq-nil_of_sublist-nil i))
        (nil-sublist (total_ink (or_whole content [])))
  or_whole-ink content (c ∷ cs) i = i

  no_invalid :
      (cs : List Chars) → bound_of ≤ max_chunk_chars → All Bounded cs → any is_invalid cs ≡ false
  unfolding any is_invalid
  no_invalid [] h b = refl
  no_invalid (c ∷ cs) h b = ground (arith, no_invalid cs h b.1)

  -- For every content: if the target is more than the overlap, and both with two characters more are
  -- at most 8000, the loops of `split` end and it raises nothing. No chunk is empty or longer than
  -- that sum, and the visible characters of the content stand, all of them and in their order, among
  -- those of the chunks, read one after the other.
  pub split_total :
      (content : Chars)
      → k.overlap_chars < k.target_chars
      → bound_of ≤ max_chunk_chars
      → (cs : List Chars) × (split k content ≡ some (ok cs))
        × All Bounded cs
        × Sublist (ink content) (total_ink cs)
  unfolding split
  split_total content small room =
      let (us, e, short, inks) = all_units_total k (paragraphs content) small in
      let bounded = pack-Bounded [] us (omega arith) short in
      let cs = or_whole content (pack k [] us) in
      let enough : Sublist (ink content) (total_ink (pack k [] us)) =
        Sublist.trans (subst (λ z. Sublist z (total_ink us)) (paragraphs-ink content) inks)
          (pack-ink [] us) in
      let whole = or_whole-Bounded content (pack k [] us) bounded enough in
      (
        cs,
        ground (arith, e, no_invalid cs room whole),
        whole,
        or_whole-ink content (pack k [] us) enough,
      )
