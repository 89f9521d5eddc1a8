-- ===== src/Common/Outcome.antt =====
-- Pure code that may raise.
use mathlib.Core.Bool.{Bool, true, false}
use mathlib.Core.Path.{◌≡◌, refl}
use mathlib.Core.Logic.{◌⊎◌, inl, inr}
use mathlib.Core.Option.{Option, none, some}
use route_pilot.Common.Exec.{Result, ok, err}

module _ {ℓ} {E A : Type ℓ} where
  -- `if x is None: raise e`
  abbrev pub present : Option A → E → Result E A
  present none e = err e
  present (some a) e = ok a

-- `if not b: raise e`
abbrev pub check : {E : Type 0} → Bool → E → Result E (Unit {0})
check true e = ok tt
check false e = err e

module _ {ℓ} {E A B : Type ℓ} where
  infixl 10 ◌>>=◌ ◌>>◌
  abbrev pub ◌>>=◌ : Result E A → (A → Result E B) → Result E B
  ok a >>= f = f a
  err e >>= f = err e

  abbrev pub ◌>>◌ : Result E A → Result E B → Result E B
  m >> n = m >>= λ _. n

-- To split on a result and keep the equation.
pub Result-cases {ℓ} :
    {E A : Type ℓ} (r : Result E A) → ((a : A) × (r ≡ ok a)) ⊎ ((e : E) × (r ≡ err e))
Result-cases (ok a) = inl (a, refl)
Result-cases (err e) = inr (e, refl)
