-- ===== src/Rag/Chunker.antt =====
-- ParagraphWindowChunker of agent/travel_agent/rag/text.py. A text is the list of its code points.
use route_pilot.Common.{
  ℕ, zero, suc, String, Bool, true, false, ◌&&◌, ◌||◌, not, Option, none, some, List, [], ◌∷◌, ◌++◌,
  ◌+◌, ◌-◌, ltb, leb, eqb, if◌then◌else◌, any, each, keep, length,
}
use route_pilot.Common.Exec.{Result, ok}
use route_pilot.Common.Outcome.{check, ◌>>◌}
use route_pilot.Common.Members.{take}
use route_pilot.Common.Text.{is_space}

abbrev pub Chars : Type 0
Chars = List ℕ

abbrev pub max_chunk_chars : ℕ
max_chunk_chars = 8000

abbrev pub newline : ℕ
newline = 10

unfoldable pub is_blank : Chars → Bool
is_blank [] = true
is_blank (_ ∷ _) = false

unfoldable pub drop : ℕ → Chars → Chars
drop zero s = s
drop (suc n) [] = []
drop (suc n) (c ∷ s) = drop n s

unfoldable pub lstrip : Chars → Chars
lstrip [] = []
lstrip (c ∷ s) = let rest = lstrip s in if is_space c then rest else c ∷ s

unfoldable pub rstrip : Chars → Chars
unfolding is_blank
rstrip [] = []
rstrip (c ∷ s) = let rest = rstrip s in if is_blank rest && is_space c then [] else c ∷ rest

unfoldable pub strip : Chars → Chars
unfolding lstrip rstrip
strip s = rstrip (lstrip s)

-- How far the longest match of `\s*\n` at the start of a text goes; 0 if there is none.
unfoldable pub break_length : Chars → ℕ
break_length [] = 0
break_length (c ∷ s) =
    let n = break_length s in
    if is_space c then (if eqb n 0 then (if eqb c newline then 1 else 0) else suc n) else 0

-- `re.split(r"\n\s*\n", content)`: `skipped` characters of a separator are left, and `part` is what
-- was read since the separator before.
unfoldable pub split_blank : ℕ → Chars → Chars → List Chars
unfolding break_length
split_blank skipped part [] = part ∷ []
split_blank (suc n) part (c ∷ s) = split_blank n part s
split_blank zero part (c ∷ s) =
    let found = part ∷ split_blank (break_length s) [] s in
    let missed = split_blank 0 (part ++ c ∷ []) s in
    if eqb c newline && not (eqb (break_length s) 0) then found else missed

unfoldable pub paragraphs : Chars → List Chars
unfolding split_blank strip keep each is_blank
paragraphs content = keep (λ p. not (is_blank p)) (each strip (split_blank 0 [] content))

pub record Chunker : Type 0 where
  pub target_chars : ℕ
  pub overlap_chars : ℕ

-- The rules of `__init__`.
unfoldable pub make_chunker : ℕ → ℕ → Result String Chunker
make_chunker target overlap =
    check (not (ltb target 200 || ltb max_chunk_chars target))
      "target_chars is outside the safe chunk range"
    >> (check (ltb overlap target) "overlap_chars must be non-negative and less than target_chars"
        >> ok (record { target_chars = target; overlap_chars = overlap }))

unfoldable pub joined : Chars → Chars → Chars
unfolding is_blank strip
joined current unit =
    if is_blank current then unit else strip ((current ++ newline ∷ newline ∷ []) ++ unit)

unfoldable pub or_whole : Chars → List Chars → List Chars
unfolding strip is_blank
or_whole content [] = let whole = strip content in if is_blank whole then [] else whole ∷ []
or_whole content (c ∷ cs) = c ∷ cs

unfoldable pub is_invalid : Chars → Bool
unfolding is_blank
is_invalid c = is_blank c || ltb max_chunk_chars (length c)

module _ (k : Chunker) where
  -- `min(len(paragraph), start + self.target_chars)`.
  unfoldable pub window_end : ℕ → ℕ → ℕ
  window_end n start = if ltb n (start + k.target_chars) then n else start + k.target_chars

  -- `max(start + 1, end - self.overlap_chars)`, where `end` is beyond the overlap.
  unfoldable pub next_start : ℕ → ℕ → ℕ
  next_start start end =
      if ltb (start + 1) (end - k.overlap_chars) then end - k.overlap_chars else start + 1

  unfoldable pub window : Chars → ℕ → Chars
  unfolding window_end strip take drop
  window p start = strip (take (window_end (length p) start - start) (drop start p))

  -- `while start < len(paragraph)`; `none` means that the fuel ran out.
  unfoldable pub windows : ℕ → Chars → ℕ → Option (List Chars)
  unfolding window_end next_start window
  windows zero p start = none
  windows (suc fuel) p start =
      let end = window_end (length p) start in
      let later : Option (List Chars) = elim (windows fuel p (next_start start end)) [
        | none ↦ none
        | some units ↦ some (window p start ∷ units)
      ] in
      if ltb start (length p)
      then (if leb (length p) end then some (window p start ∷ []) else later)
      else some []

  -- The units of one paragraph, and of all.
  unfoldable pub units_of : Chars → Option (List Chars)
  unfolding windows
  units_of p = if leb (length p) k.target_chars then some (p ∷ []) else windows (length p + 1) p 0

  unfoldable pub all_units : List Chars → Option (List Chars)
  unfolding units_of
  all_units [] = some []
  all_units (p ∷ ps) = elim (units_of p) [
    | none ↦ none
    | some us ↦ elim (all_units ps) [ none ↦ none | some vs ↦ some (us ++ vs) ]
  ]

  -- What a new chunk starts with: the end of the chunk before, and the unit.
  unfoldable pub restart : Chars → Chars → Chars
  unfolding joined strip drop
  restart current unit =
      joined
        (if eqb k.overlap_chars 0
          then []
          else strip (drop (length current - k.overlap_chars) current))
        unit

  -- `for unit in units`, from `current`.
  unfoldable pub pack : Chars → List Chars → List Chars
  unfolding joined restart is_blank
  pack current [] = if is_blank current then [] else current ∷ []
  pack current (u ∷ us) =
      let candidate = joined current u in
      let together = pack candidate us in
      let apart = current ∷ pack (restart current u) us in
      let alone = pack u us in
      if leb (length candidate) k.target_chars
      then together
      else if is_blank current
      then alone
      else apart

  -- `none` means that the fuel of a loop ran out.
  unfoldable pub split : Chars → Option (Result String (List Chars))
  unfolding paragraphs all_units pack or_whole is_invalid any
  split content = elim (all_units (paragraphs content)) [
    | none ↦ none
    | some units ↦
        let chunks = or_whole content (pack [] units) in
        some (check (not (any is_invalid chunks)) "chunker produced an invalid chunk" >> ok chunks)
  ]
