-- ===== src/Common/Json.antt =====
-- JSON values as Python holds them after parsing, and the tests that the code makes on them.
use Prim.Native.String.{String}
use mathlib.Core.Bool.{Bool, true, false, ◌&&◌}
use mathlib.Core.List.{List, [], ◌∷◌}
use mathlib.Core.Option.{Option, some}
use Prim.Native.Nat.{ℕ, ◌+◌, ◌*◌, ◌/◌, ◌%◌, ◌^◌}
use route_pilot.Common.Tests.{eqb, if◌then◌else◌}
use route_pilot.Common.Eq.{◌==◌, text_equality}

-- A Python `int`; `negsuc n` is -(n + 1).
pub data ℤ : Type 0 where
  pos : ℕ → ℤ
  negsuc : ℕ → ℤ

-- A `float` is its IEEE 754 bit pattern.
mutual
  pub data Json : Type 0 where
    null : Json
    bool : Bool → Json
    int : ℤ → Json
    float : ℕ → Json
    text : String → Json
    arr : Items → Json
    obj : Fields → Json

  pub data Items : Type 0 where
    nil : Items
    cons : Json → Items → Items

  pub data Fields : Type 0 where
    end : Fields
    field : String → Json → Fields → Fields

-- `math.isfinite(x)`: the exponent bits are not all ones.
unfoldable pub is_finite : ℕ → Bool
is_finite bits = if eqb (bits / 2 ^ 52 % 2 ^ 11) 2047 then false else true

-- `x == n` of a float and a natural number.
float_is : ℕ → ℕ → Bool
unfolding is_finite
float_is bits n =
    let exponent = bits / 2 ^ 52 % 2 ^ 11 in
    let fraction = bits % 2 ^ 52 in
    if eqb exponent 0
    then eqb fraction 0 && eqb n 0
    else is_finite bits
      && eqb (bits / 2 ^ 63) 0
      && eqb ((fraction + 2 ^ 52) * 2 ^ exponent) (n * 2 ^ 1075)

-- `value == n`, where `True == 1` and `2.0 == 2`.
unfoldable pub is_number : Option Json → ℕ → Bool
unfolding float_is
is_number (some (bool true)) n = eqb n 1
is_number (some (bool false)) n = eqb n 0
is_number (some (int (pos m))) n = eqb m n
is_number (some (float bits)) n = float_is bits n
is_number _ n = false

-- `value == s`.
unfoldable pub is_text : Option Json → String → Bool
is_text (some (text t)) s = t == s
is_text _ s = false

unfoldable pub items : Items → List Json
items nil = []
items (cons j rest) = j ∷ items rest
