-- ===== src/Common/Text.antt =====
-- Python texts: decimal numbers and white space.
use Prim.Native.Char.{code}
use Prim.Native.String.{String, ◌++◌, compare}
use Prim.Native.Nat.{ℕ, zero, suc, ◌/◌, ◌%◌, Ordering}
use mathlib.Core.Bool.{Bool, true, false, ◌&&◌, ◌||◌}
use mathlib.Core.List.{List, [], ◌∷◌}
use route_pilot.Common.Tests.{ltb, leb, eqb, if◌then◌else◌}

digit : ℕ → String
digit zero = "0"
digit (suc zero) = "1"
digit (suc (suc zero)) = "2"
digit (suc (suc (suc zero))) = "3"
digit (suc (suc (suc (suc zero)))) = "4"
digit (suc (suc (suc (suc (suc zero))))) = "5"
digit (suc (suc (suc (suc (suc (suc zero)))))) = "6"
digit (suc (suc (suc (suc (suc (suc (suc zero))))))) = "7"
digit (suc (suc (suc (suc (suc (suc (suc (suc zero)))))))) = "8"
digit _ = "9"

decimal_within : ℕ → ℕ → String
unfolding digit
decimal_within zero n = digit n
decimal_within (suc fuel) n =
    let rest = decimal_within fuel (n / 10) in if ltb n 10 then digit n else rest ++ digit (n % 10)

-- `str(n)`; a number is at least the number of its digits less one.
unfoldable pub decimal : ℕ → String
unfolding decimal_within
decimal n = decimal_within n n

-- `str.isspace` of one character.
unfoldable pub is_space : ℕ → Bool
is_space c =
    (leb 9 c && leb c 13)
    || (leb 28 c && leb c 32)
    || eqb c 0x85
    || eqb c 0xa0
    || eqb c 0x1680
    || (leb 0x2000 c && leb c 0x200a)
    || eqb c 0x2028
    || eqb c 0x2029
    || eqb c 0x202f
    || eqb c 0x205f
    || eqb c 0x3000

unfoldable pub strip_left : String → String
strip_left String.[] = String.[]
strip_left (String.◌∷◌ c s) =
    let rest = strip_left s in if is_space (code c) then rest else String.◌∷◌ c s

empty_text : String → Bool
empty_text String.[] = true
empty_text (String.◌∷◌ c s) = false

unfoldable pub strip_right : String → String
unfolding empty_text
strip_right String.[] = String.[]
strip_right (String.◌∷◌ c s) =
    let rest = strip_right s in
    if empty_text rest && is_space (code c) then String.[] else String.◌∷◌ c rest

-- `s.strip()`.
unfoldable pub strip : String → String
unfolding strip_left strip_right
strip s = strip_right (strip_left s)

-- `a < b` of two texts.
unfoldable pub text_lt : String → String → Bool
text_lt a b = elim (compare a b) [ Ordering.lt ↦ true | _ ↦ false ]

-- `s.startswith(prefix)`.
unfoldable pub starts_with : String → String → Bool
starts_with String.[] s = true
starts_with (String.◌∷◌ c prefix) String.[] = false
starts_with (String.◌∷◌ c prefix) (String.◌∷◌ d s) = eqb (code c) (code d) && starts_with prefix s

-- `part in s`.
unfoldable pub contains : String → String → Bool
unfolding starts_with
contains part String.[] = starts_with part String.[]
contains part (String.◌∷◌ c s) = starts_with part (String.◌∷◌ c s) || contains part s

-- `separator.join(texts)`.
unfoldable pub join : String → List String → String
join separator [] = ""
join separator (t ∷ []) = t
join separator (t ∷ u ∷ rest) = t ++ separator ++ join separator (u ∷ rest)
