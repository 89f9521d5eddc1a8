-- ===== src/Common/Eq.antt =====
-- Equality tests as an interface: texts, numbers, and the tuples that serve as dictionary keys.
use Prim.Native.Nat.{ℕ}
use Prim.Native.String.{String}
use mathlib.Core.Path.{◌≡◌, refl}
use mathlib.Core.Logic.{◌↔◌}
use mathlib.Core.Bool.{Bool, true, ◌&&◌}
use native.Mathlib.Omega.{arith}
use text.Mathlib.Text.{◌==◌ as text_eq}
use text.Mathlib.TextEquality.{eq_iff}
use route_pilot.Common.Tests.{eqb, eqb_iff}

-- What `==` decides.
pub record Equality {ℓ} (T : Type ℓ) : Type ℓ where
  pub same : T → T → Bool
  pub same_iff : (x y : T) → (same x y ≡ true) ↔ (x ≡ y)

abbrev pub ◌==◌ {ℓ} : {T : Type ℓ} ⦃q : Equality T⦄ → T → T → Bool
◌==◌ ⦃q⦄ x y = q.same x y

infix 50 ◌==◌
module _ {ℓ} {A : Type ℓ} ⦃e : Equality A⦄ where
  pub ==_iff : (a b : A) → ((a == b) ≡ true) ↔ (a ≡ b)
  ==_iff a b = e.same_iff a b

  pub ==_refl : (a : A) → (a == a) ≡ true
  ==_refl a = (e.same_iff a a).1 refl

  pub eq_of_== : (a b : A) → (a == b) ≡ true → a ≡ b
  eq_of_== a b = (e.same_iff a b).0

  pub ==_sym : (a b : A) → (a == b) ≡ (b == a)
  ==_sym a b = ground (arith, e.same_iff a b, e.same_iff b a)

instance abbrev pub text_equality : Equality String
text_equality = record { same = text_eq; same_iff = eq_iff }

instance abbrev pub number_equality : Equality ℕ
number_equality = record { same = eqb; same_iff = eqb_iff }

module _ {ℓ} {A B : Type ℓ} ⦃e : Equality A⦄ ⦃f : Equality B⦄ where
  unfoldable pub pair_beq : A × B → A × B → Bool
  pair_beq (a, b) (a', b') = e.same a a' && f.same b b'

  pub pair_beq_iff : (p q : A × B) → (pair_beq p q ≡ true) ↔ (p ≡ q)
  unfolding pair_beq
  pair_beq_iff (a, b) (a', b') = ground (arith, e.same_iff a a', f.same_iff b b')

  instance abbrev pub pair_eq : Equality (A × B)
  pair_eq = record { same = pair_beq; same_iff = pair_beq_iff }

module _ {ℓ} {A B C : Type ℓ} ⦃e : Equality A⦄ ⦃f : Equality B⦄ ⦃g : Equality C⦄ where
  unfoldable pub triple_beq : A × B × C → A × B × C → Bool
  triple_beq (a, b, c) (a', b', c') = e.same a a' && f.same b b' && g.same c c'

  pub triple_beq_iff : (p q : A × B × C) → (triple_beq p q ≡ true) ↔ (p ≡ q)
  unfolding triple_beq
  triple_beq_iff (a, b, c) (a', b', c') =
      ground (arith, e.same_iff a a', f.same_iff b b', g.same_iff c c')

  instance abbrev pub triple_eq : Equality (A × B × C)
  triple_eq = record { same = triple_beq; same_iff = triple_beq_iff }

module _ {ℓ} {A B C D : Type ℓ} ⦃e : Equality A⦄ ⦃f : Equality B⦄ ⦃g : Equality C⦄
    ⦃h : Equality D⦄ where
  unfoldable pub quad_beq : A × B × C × D → A × B × C × D → Bool
  quad_beq (a, b, c, d) (a', b', c', d') = e.same a a' && f.same b b' && g.same c c' && h.same d d'

  pub quad_beq_iff : (p q : A × B × C × D) → (quad_beq p q ≡ true) ↔ (p ≡ q)
  unfolding quad_beq
  quad_beq_iff (a, b, c, d) (a', b', c', d') =
      ground (arith, e.same_iff a a', f.same_iff b b', g.same_iff c c', h.same_iff d d')

  instance abbrev pub quad_eq : Equality (A × B × C × D)
  quad_eq = record { same = quad_beq; same_iff = quad_beq_iff }
