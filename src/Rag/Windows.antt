-- ===== src/Rag/Windows.antt =====
-- The windows that ParagraphWindowChunker.split (agent/travel_agent/rag/text.py) cuts from a long
-- paragraph.
use mathlib.Core.List.Sublist
use mathlib.Core.List.{Sublist, sublist-append_left, append_assoc}
use route_pilot.Common.{
  subst, sym, ◌∙◌, keep, ℕ, zero, suc, Option, some, List, [], ◌∷◌, ◌++◌, ◌+◌, ◌-◌, ◌≤◌, ◌<◌, ◌≡◌,
  inl, inr, refl, ap, arith, ltb, leb, length, Bool-cases, All, All-append,
}
use route_pilot.Common.Members.{take}
use route_pilot.Rag.Chunker.{
  Chars, Chunker, drop, strip, window_end, next_start, window, windows, units_of, all_units,
}
use route_pilot.Rag.Ink.{
  ink, total_ink, length-take, length-strip, ink-strip, ink-take-drop, ink-drop-le, drop-drop,
}

pub total_ink-append : (xs ys : List Chars) → total_ink (xs ++ ys) ≡ total_ink xs ++ total_ink ys
total_ink-append [] ys = refl
total_ink-append (x ∷ xs) ys =
    ap (λ z. ink x ++ z) (total_ink-append xs ys)
    ∙ sym (append_assoc (ink x) (total_ink xs) (total_ink ys))

module _ (k : Chunker) where
  window-bound : (p : Chars) (start : ℕ) → length (window k p start) ≤ k.target_chars
  unfolding window window_end
  window-bound p start =
      let cut = take (window_end k (length p) start - start) (drop start p) in
      ground (
        arith,
        length-strip cut,
        length-take (window_end k (length p) start - start) (drop start p),
      )

  -- A window has the ink between its start and its end.
  window-ink :
      (p : Chars) (start end : ℕ)
      → window_end k (length p) start ≡ end
      → start ≤ end
      → ink (window k p start) ++ ink (drop end p) ≡ ink (drop start p)
  unfolding window
  window-ink p start end e h =
      let cut = take (end - start) (drop start p) in
      let same : window k p start ≡ strip cut = rw e refl in
      let rest = ap ink (drop-drop (end - start) start end p (omega arith)) in
      ap (λ z. z ++ ink (drop end p)) (ap ink same ∙ ink-strip cut)
      ∙ (ap (λ z. ink cut ++ z) (sym rest) ∙ ink-take-drop (end - start) (drop start p))

  no_drop : (n : ℕ) (p : Chars) → length p ≤ n → ink (drop n p) ≡ []
  unfolding drop keep
  no_drop zero [] h = refl
  no_drop zero (c ∷ p) h = absurd (omega arith)
  no_drop (suc n) [] h = refl
  no_drop (suc n) (c ∷ p) h = no_drop n p (omega arith)

  -- With fuel for each character that is left the loop over windows ends. No window is longer than
  -- the target, and together they have all the ink from the start on, in order.
  abbrev Windows : Chars → ℕ → Option (List Chars) → Type 0
  Windows p start found =
      (us : List Chars) × (found ≡ some us)
      × All (λ u. length u ≤ k.target_chars) us
      × Sublist (ink (drop start p)) (total_ink us)

  ends : (n start : ℕ) → start ≤ n → start ≤ window_end k n start
  unfolding window_end
  ends n start h = ground arith

  goes_on :
      (n start : ℕ)
      → k.overlap_chars < k.target_chars
      → start < n
      → window_end k n start < n
      → let next = next_start k start (window_end k n start) in
        (start + 1 ≤ next) × (next ≤ window_end k n start)
  unfolding next_start window_end
  goes_on n start small h more = ground arith

  windows_total :
      (fuel : ℕ) (p : Chars) (start : ℕ)
      → k.overlap_chars < k.target_chars
      → start ≤ length p
      → length p < fuel + start
      → Windows p start (windows k fuel p start)
  unfolding windows
  windows_total zero p start small h f = absurd (omega arith)
  windows_total (suc fuel) p start small h f = elim (Bool-cases (ltb start (length p))) [
    | inr done ↦ rw done (
      [],
      refl,
      tt,
      subst (λ z. Sublist z []) (sym (no_drop start p (ground arith))) (Sublist.refl []),
    )
    | inl more ↦ rw more (elim (Bool-cases (leb (length p) (window_end k (length p) start))) [
      | inl last ↦ rw last (
        window k p start ∷ [],
        refl,
        (window-bound p start, tt),
        subst (λ z. Sublist z (ink (window k p start) ++ []))
            (ap (λ z. ink (window k p start) ++ z)
                (sym (no_drop (window_end k (length p) start) p (ground arith)))
              ∙ seen)
            (Sublist.refl (ink (window k p start) ++ [])),
      )
      | inr later ↦
          let next = next_start k start (window_end k (length p) start) in
          let step = goes_on (length p) start small (ground arith) (ground arith) in
          let (us, e, bound, inks) =
            windows_total fuel p next small (ground (arith, step)) (ground (arith, step)) in
          rw later (
            window k p start ∷ us,
            rw e refl,
            (window-bound p start, bound),
            subst (λ z. Sublist z (ink (window k p start) ++ total_ink us)) seen
                (Sublist.append (Sublist.refl (ink (window k p start)))
                  (Sublist.trans (ink-drop-le next (window_end k (length p) start) p step.1) inks)),
          )
    ])
  ]
    where
      seen :
          ink (window k p start) ++ ink (drop (window_end k (length p) start) p)
          ≡ ink (drop start p)
      seen = window-ink p start (window_end k (length p) start) refl (ends (length p) start h)

  units_of_total : (p : Chars) → k.overlap_chars < k.target_chars → Windows p 0 (units_of k p)
  unfolding units_of drop
  units_of_total p small = elim (Bool-cases (leb (length p) k.target_chars)) [
    | inl short ↦ rw short (p ∷ [], refl, (ground arith, tt), sublist-append_left (ink p) [])
    | inr long ↦ rw long (windows_total (length p + 1) p 0 small (omega arith) (omega arith))
  ]

  pub all_units_total :
      (ps : List Chars)
      → k.overlap_chars < k.target_chars
      → (us : List Chars) × (all_units k ps ≡ some us)
        × All (λ u. length u ≤ k.target_chars) us
        × Sublist (total_ink ps) (total_ink us)
  unfolding all_units drop
  all_units_total [] small = ([], refl, tt, Sublist.refl [])
  all_units_total (p ∷ ps) small =
      let (us, e, bound, inks) = units_of_total p small in
      let (vs, e', bound', inks') = all_units_total ps small in
      (
        us ++ vs,
        ground (arith, e, e'),
        All-append (λ u. length u ≤ k.target_chars) us vs bound bound',
        subst (Sublist (ink p ++ total_ink ps)) (sym (total_ink-append us vs))
            (Sublist.append inks inks'),
      )
