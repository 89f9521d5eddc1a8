-- ===== src/Rag/Ink.antt =====
-- Lengths and visible characters of texts (agent/travel_agent/rag/text.py): what `strip` and the
-- splitting of paragraphs keep, in order.
use mathlib.Core.List.Sublist
use mathlib.Core.List.{Sublist, sublist-append_right, append_assoc, append-nil}
use route_pilot.Common.{
  subst, ℕ, zero, suc, Bool, true, not, List, [], ◌∷◌, ◌++◌, ◌+◌, ◌-◌, ◌≤◌, ◌≡◌, refl, ◌∙◌, ap,
  arith, eqb, each, keep, length,
}
use route_pilot.Common.Members.{take}
use route_pilot.Common.Text.{is_space}
use route_pilot.Rag.Chunker.{
  Chars, is_blank, drop, lstrip, rstrip, strip, break_length, split_blank, paragraphs, newline,
}

abbrev pub visible : ℕ → Bool
visible c = not (is_space c)

-- The characters of the text that are no white space, and those of texts one after the other.
abbrev pub ink : Chars → Chars
ink s = keep visible s

abbrev pub total_ink : List Chars → Chars
total_ink [] = []
total_ink (s ∷ ss) = ink s ++ total_ink ss

pub length-take : (n : ℕ) (s : Chars) → length (take n s) ≤ n
unfolding take
length-take zero s = omega arith
length-take (suc n) [] = omega arith
length-take (suc n) (c ∷ s) = omega (arith, length-take n s)

length-lstrip : (s : Chars) → length (lstrip s) ≤ length s
unfolding lstrip
length-lstrip [] = omega arith
length-lstrip (c ∷ s) = ground (arith, length-lstrip s)

length-rstrip : (s : Chars) → length (rstrip s) ≤ length s
unfolding rstrip
length-rstrip [] = omega arith
length-rstrip (c ∷ s) = ground (arith, length-rstrip s)

pub length-strip : (s : Chars) → length (strip s) ≤ length s
unfolding strip
length-strip s = omega (arith, length-lstrip s, length-rstrip (lstrip s))

ink-lstrip : (s : Chars) → ink (lstrip s) ≡ ink s
unfolding lstrip keep
ink-lstrip [] = refl
ink-lstrip (c ∷ s) = ground (arith, ink-lstrip s)

pub ink-blank : (s : Chars) → is_blank s ≡ true → ink s ≡ []
unfolding keep is_blank
ink-blank [] h = refl
ink-blank (c ∷ s) h = absurd (ground arith)

ink-rstrip : (s : Chars) → ink (rstrip s) ≡ ink s
unfolding rstrip keep
ink-rstrip [] = refl
ink-rstrip (c ∷ s) = ground (arith, ink-rstrip s, ink-blank (rstrip s))

pub ink-strip : (s : Chars) → ink (strip s) ≡ ink s
unfolding strip
ink-strip s = ink-rstrip (lstrip s) ∙ ink-lstrip s

rstrip_no_ink : (s : Chars) → ink s ≡ [] → is_blank (rstrip s) ≡ true
unfolding rstrip keep is_blank
rstrip_no_ink [] h = refl
rstrip_no_ink (c ∷ s) h = ground (arith, rstrip_no_ink s)

pub strip_no_ink : (s : Chars) → ink s ≡ [] → is_blank (strip s) ≡ true
unfolding strip
strip_no_ink s h = rstrip_no_ink (lstrip s) (ink-lstrip s ∙ h)

pub ink-append : (s t : Chars) → ink (s ++ t) ≡ ink s ++ ink t
unfolding keep
ink-append [] t = refl
ink-append (c ∷ s) t = ground (arith, ink-append s t)

pub ink-take-drop : (n : ℕ) (s : Chars) → ink (take n s) ++ ink (drop n s) ≡ ink s
unfolding take drop keep
ink-take-drop zero s = refl
ink-take-drop (suc n) [] = refl
ink-take-drop (suc n) (c ∷ s) = ground (arith, ink-take-drop n s)

-- What is left later is a part of what is left earlier.
pub ink-drop-le : (m n : ℕ) (s : Chars) → m ≤ n → Sublist (ink (drop n s)) (ink (drop m s))
unfolding drop keep
ink-drop-le zero n s h =
    subst (Sublist (ink (drop n s))) (ink-take-drop n s)
      (sublist-append_right (ink (take n s)) (ink (drop n s)))
ink-drop-le (suc m) zero s h = absurd (omega arith)
ink-drop-le (suc m) (suc n) [] h = Sublist.refl []
ink-drop-le (suc m) (suc n) (c ∷ s) h = ink-drop-le m n s (omega arith)

pub drop-drop : (m n k : ℕ) (s : Chars) → n + m ≡ k → drop m (drop n s) ≡ drop k s
unfolding drop
drop-drop m zero k s e = ap (λ j. drop j s) (omega arith)
drop-drop zero (suc n) zero [] e = refl
drop-drop zero (suc n) (suc k) [] e = refl
drop-drop (suc m) (suc n) zero [] e = refl
drop-drop (suc m) (suc n) (suc k) [] e = refl
drop-drop m (suc n) zero (c ∷ s) e = absurd (omega arith)
drop-drop m (suc n) (suc k) (c ∷ s) e = drop-drop m n k s (omega arith)

pub length-drop : (n : ℕ) (s : Chars) → length (drop n s) ≡ length s - n
unfolding drop
length-drop zero s = omega arith
length-drop (suc n) [] = omega arith
length-drop (suc n) (c ∷ s) = omega (arith, length-drop n s)

-- A separator is white space.
ink-break : (s : Chars) → ink (drop (break_length s) s) ≡ ink s
unfolding drop break_length keep
ink-break [] = refl
ink-break (c ∷ s) = ground (arith, ink-break s)

newline-is_space : (c : ℕ) → eqb c newline ≡ true → is_space c ≡ true
unfolding is_space
newline-is_space c h = ground arith

split_blank-ink :
    (n : ℕ) (part s : Chars) → total_ink (split_blank n part s) ≡ ink part ++ ink (drop n s)
unfolding split_blank drop keep
split_blank-ink zero part [] = refl
split_blank-ink (suc n) part [] = refl
split_blank-ink (suc n) part (c ∷ s) = split_blank-ink n part s
split_blank-ink zero part (c ∷ s) = ground (
  arith,
  split_blank-ink (break_length s) [] s,
  ink-break s,
  newline-is_space c,
  split_blank-ink 0 (part ++ c ∷ []) s,
  ink-append part (c ∷ []),
  append_assoc (ink part) (c ∷ []) (ink s),
  append-nil (ink part),
)

kept-ink :
    (ps : List Chars) → total_ink (keep (λ p. not (is_blank p)) (each strip ps)) ≡ total_ink ps
unfolding keep each
kept-ink [] = refl
kept-ink (p ∷ ps) = ground (arith, kept-ink ps, ink-blank (strip p), ink-strip p)

-- The paragraphs keep every visible character, in order.
pub paragraphs-ink : (content : Chars) → total_ink (paragraphs content) ≡ ink content
unfolding paragraphs drop keep
paragraphs-ink content = kept-ink (split_blank 0 [] content) ∙ split_blank-ink 0 [] content
