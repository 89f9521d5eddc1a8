-- ===== src/Common/Sets.antt =====
-- Python's sets of keys, written as lists: membership, `issubset`, `len(xs) == len(set(xs))` and
-- counting, with what each test decides.
use route_pilot.Common.{
  ℕ, ◌+◌, ◌≡◌, ◌≢◌, ◌↔◌, ◌⊎◌, Bool, true, false, ◌&&◌, not, List, [], ◌∷◌, arith, if◌then◌else◌,
  all, All,
}
use route_pilot.Common.Eq.{Equality, ◌==◌}

module _ {ℓ} {A : Type ℓ} where
  -- `sum(p(x) for x in xs)`
  unfoldable pub count : (A → Bool) → List A → ℕ
  count p [] = 0
  count p (x ∷ xs) = (if p x then 1 else 0) + count p xs

  pub count-zero : (p : A → Bool) (xs : List A) → (count p xs ≡ 0) ↔ All (λ x. p x ≡ false) xs
  unfolding count
  count-zero p [] = ground arith
  count-zero p (x ∷ xs) = ground (arith, count-zero p xs)

module _ {A : Type 0} where
  -- What the tests decide, as predicates.
  abbrev pub In : A → List A → Type 0
  In x [] = ⊥
  In x (y ∷ ys) = (x ≡ y) ⊎ In x ys

  abbrev pub Distinct : List A → Type 0
  Distinct [] = Unit
  Distinct (x ∷ xs) = All (λ y. x ≢ y) xs × Distinct xs

module _ {A : Type 0} ⦃e : Equality A⦄ where
  -- `x in xs`
  unfoldable pub member : A → List A → Bool
  member x [] = false
  member x (y ∷ ys) = if x == y then true else member x ys

  -- `set(xs).issubset(ys)`
  unfoldable pub subset : List A → List A → Bool
  unfolding member
  subset xs ys = all (λ x. member x ys) xs

  -- `len(xs) == len(set(xs))`
  unfoldable pub distinct : List A → Bool
  unfolding member
  distinct [] = true
  distinct (x ∷ xs) = not (member x xs) && distinct xs

  pub member_iff : (x : A) (ys : List A) → (member x ys ≡ true) ↔ In x ys
  unfolding member
  member_iff x [] = ground arith
  member_iff x (y ∷ ys) = ground (arith, member_iff x ys, e.same_iff x y)

  pub not-member_iff : (x : A) (ys : List A) → (member x ys ≡ false) ↔ All (λ y. x ≢ y) ys
  unfolding member
  not-member_iff x [] = ground arith
  not-member_iff x (y ∷ ys) = ground (arith, not-member_iff x ys, e.same_iff x y)

  pub subset_iff : (xs ys : List A) → (subset xs ys ≡ true) ↔ All (λ x. In x ys) xs
  unfolding subset all
  subset_iff [] ys = ground arith
  subset_iff (x ∷ xs) ys = ground (arith, subset_iff xs ys, member_iff x ys)

  pub distinct_iff : (xs : List A) → (distinct xs ≡ true) ↔ Distinct xs
  unfolding distinct
  distinct_iff [] = ground arith
  distinct_iff (x ∷ xs) = ground (arith, distinct_iff xs, not-member_iff x xs)
