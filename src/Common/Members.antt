-- ===== src/Common/Members.antt =====
-- Members of lists: what reaches them through appends, comprehensions, sorting and prefixes.
use route_pilot.Common.{
  ℕ, zero, suc, Bool, true, List, [], ◌∷◌, ◌++◌, ◌≤◌, ◌≡◌, inl, inr, refl, sym, subst, arith, keep,
  All, Bool-cases, length,
}
use route_pilot.Common.Sets.{In}
use route_pilot.Common.Sort.{sorted, place}

-- `xs[:n]`
unfoldable pub take {ℓ} : {A : Type ℓ} → ℕ → List A → List A
take zero xs = []
take (suc n) [] = []
take (suc n) (x ∷ xs) = x ∷ take n xs

module _ {A : Type 0} where
  pub All-In : (P : A → Type 0) (x : A) (xs : List A) → All P xs → In x xs → P x
  All-In P x [] h i = absurd i
  All-In P x (y ∷ ys) h (inl e) = subst P (sym e) h.0
  All-In P x (y ∷ ys) h (inr i) = All-In P x ys h.1 i

  pub In-All : (P : A → Type 0) (xs : List A) → ((x : A) → In x xs → P x) → All P xs
  In-All P [] f = tt
  In-All P (x ∷ xs) f = (f x (inl refl), In-All P xs (λ y i. f y (inr i)))

  pub In-append : (x : A) (xs ys : List A) → In x xs → In x (xs ++ ys)
  In-append x [] ys i = absurd i
  In-append x (y ∷ xs) ys (inl e) = inl e
  In-append x (y ∷ xs) ys (inr i) = inr (In-append x xs ys i)

  pub In-keep : (p : A → Bool) (x : A) (xs : List A) → In x xs → p x ≡ true → In x (keep p xs)
  unfolding keep
  In-keep p x [] i h = absurd i
  In-keep p x (y ∷ ys) (inl e) h = rw (subst (λ z. p z ≡ true) e h) (inl e)
  In-keep p x (y ∷ ys) (inr i) h = elim (Bool-cases (p y)) [
    | inl t ↦ rw t (inr (In-keep p x ys i h))
    | inr t ↦ rw t (In-keep p x ys i h)
  ]

  pub keep-In : (p : A → Bool) (x : A) (xs : List A) → In x (keep p xs) → In x xs × (p x ≡ true)
  unfolding keep
  keep-In p x [] i = absurd i
  keep-In p x (y ∷ ys) i = elim (Bool-cases (p y)) [
    | inl t ↦ elim (rw t at i) [
      | inl e ↦ (inl e, subst (λ z. p z ≡ true) (sym e) t)
      | inr j ↦ let (k, h) = keep-In p x ys j in (inr k, h)
    ]
    | inr t ↦ let (j, h) = keep-In p x ys (rw t at i) in (inr j, h)
  ]

  pub take-In : (n : ℕ) (x : A) (xs : List A) → In x (take n xs) → In x xs
  unfolding take
  take-In zero x xs i = absurd i
  take-In (suc n) x [] i = absurd i
  take-In (suc n) x (y ∷ ys) (inl e) = inl e
  take-In (suc n) x (y ∷ ys) (inr i) = inr (take-In n x ys i)

  pub In-take : (n : ℕ) (x : A) (xs : List A) → length xs ≤ n → In x xs → In x (take n xs)
  unfolding take
  In-take zero x [] h i = absurd i
  In-take zero x (y ∷ ys) h i = absurd (omega arith)
  In-take (suc n) x [] h i = absurd i
  In-take (suc n) x (y ∷ ys) h (inl e) = inl e
  In-take (suc n) x (y ∷ ys) h (inr i) = inr (In-take n x ys (omega arith) i)

  module _ (lt : A → A → Bool) where
    In-place-here : (x : A) (ys : List A) → In x (place lt x ys)
    unfolding place
    In-place-here x [] = inl refl
    In-place-here x (y ∷ ys) = elim (Bool-cases (lt y x)) [
      | inl t ↦ rw t (inr (In-place-here x ys))
      | inr t ↦ rw t (inl refl)
    ]

    In-place : (x z : A) (ys : List A) → In z ys → In z (place lt x ys)
    unfolding place
    In-place x z [] i = absurd i
    In-place x z (y ∷ ys) i = elim (Bool-cases (lt y x)) [
      | inl t ↦ rw t (elim i as (λ _. In z (y ∷ place lt x ys)) [
        | inl e ↦ inl e
        | inr j ↦ inr (In-place x z ys j)
      ])
      | inr t ↦ rw t (inr i)
    ]

    pub In-sorted : (z : A) (xs : List A) → In z xs → In z (sorted lt xs)
    unfolding sorted
    In-sorted z [] i = absurd i
    In-sorted z (x ∷ xs) (inl e) =
        subst (λ w. In w (place lt x (sorted lt xs))) (sym e) (In-place-here x (sorted lt xs))
    In-sorted z (x ∷ xs) (inr i) = In-place x z (sorted lt xs) (In-sorted z xs i)

    length-place : (x : A) (ys : List A) → length (place lt x ys) ≡ suc (length ys)
    unfolding place
    length-place x [] = refl
    length-place x (y ∷ ys) = ground (arith, length-place x ys)

    pub length-sorted : (xs : List A) → length (sorted lt xs) ≡ length xs
    unfolding sorted
    length-sorted [] = refl
    length-sorted (x ∷ xs) = omega (arith, length-place x (sorted lt xs), length-sorted xs)
