-- ===== src/Providers/Gateway/Room.antt =====
-- Dictionaries that make room for a new entry, as the caches of ProviderGateway do
-- (agent/travel_agent/providers/gateway.py).
use route_pilot.Common.{
  ℕ, ◌+◌, ◌≤◌, ◌<◌, ◌≡◌, ◌⊎◌, inl, inr, refl, Bool, true, false, none, some, [], ◌∷◌, arith, length,
  ltb, leb, if◌then◌else◌, keep, Bool-cases, All,
}
use route_pilot.Common.Eq.{Equality, ◌==◌, ==_refl, text_equality, triple_eq}
use route_pilot.Common.Dict.{Dict, lookup, insert, remove, lookup-remove}
use route_pilot.Providers.Gateway.Cache.{least, make_room}

module _ {K V : Type 0} where
  pub length-keep : (p : K × V → Bool) (d : Dict K V) → length (keep p d) ≤ length d
  unfolding keep
  length-keep p [] = omega arith
  length-keep p (entry ∷ d) = ground (arith, length-keep p d)

module _ {K V : Type 0} ⦃e : Equality K⦄ where
  pub length-insert :
      (key : K) (value : V) (d : Dict K V) → length (insert key value d) ≤ length d + 1
  unfolding insert
  length-insert key value [] = omega arith
  length-insert key value ((at, held) ∷ d) = ground (arith, length-insert key value d)

  pub length-remove : (key : K) (d : Dict K V) → length (remove key d) ≤ length d
  unfolding remove
  length-remove key [] = omega arith
  length-remove key ((at, held) ∷ d) = ground (arith, length-remove key d)

  pub shorter-remove :
      (key : K) (value : V) (d : Dict K V)
      → lookup key d ≡ some value
      → length (remove key d) < length d
  unfolding remove lookup
  shorter-remove key value [] h = absurd (ground arith)
  shorter-remove key value ((at, held) ∷ d) h = elim (Bool-cases (at == key)) [
    | inl w ↦ rw w (omega (arith, length-remove key d))
    | inr w ↦ rw w (omega (arith, shorter-remove key value d (rw w at h)))
  ]

  abbrev pub Stored : Dict K V → K → Type 0
  Stored d key = (value : V) × (lookup key d ≡ some value)

  pub Stored-below : (x : K × V) (d : Dict K V) (key : K) → Stored d key → Stored (x ∷ d) key
  unfolding lookup
  Stored-below (at, held) d key (value, h) = elim (Bool-cases (at == key)) [
    | inl w ↦ (held, ground (arith, w))
    | inr w ↦ (value, ground (arith, w, h))
  ]

  pub All-below :
      (x : K × V) (d rest : Dict K V)
      → All (λ (entry : K × V). Stored d entry.0) rest
      → All (λ (entry : K × V). Stored (x ∷ d) entry.0) rest
  All-below x d [] h = tt
  All-below x d (y ∷ rest) (h, more) = (Stored-below x d y.0 h, All-below x d rest more)

  pub All-Stored : (d : Dict K V) → All (λ (entry : K × V). Stored d entry.0) d
  unfolding lookup
  All-Stored [] = tt
  All-Stored ((at, held) ∷ d) =
      ((held, ground (arith, ==_refl at)), All-below (at, held) d d (All-Stored d))

  pub either_of :
      (P : K → Type 0) (b : Bool) (x y : K × V) → P x.0 → P y.0 → P (if b then x else y).0
  either_of P true x y h g = h
  either_of P false x y h g = g

  -- The entry of least rank is one of those given.
  pub least-All :
      (rank : V → ℕ) (P : K → Type 0) (best : K × V) (d : Dict K V)
      → P best.0
      → All (λ (entry : K × V). P entry.0) d
      → P (least rank best d).0
  unfolding least
  least-All rank P best [] h more = h
  least-All rank P best (x ∷ d) h (g, more) =
      least-All rank P (if ltb (rank x.1) (rank best.1) then x else best) d
        (either_of P (ltb (rank x.1) (rank best.1)) x best g h) more

  pub length-make_room :
      (rank : V → ℕ) (limit : ℕ) (d : Dict K V)
      → 1 ≤ limit
      → length d ≤ limit
      → length (make_room rank limit d) < limit
  unfolding make_room
  length-make_room rank limit [] positive h = omega (arith, positive)
  length-make_room rank limit (x ∷ d) positive h = elim (Bool-cases (leb limit (length (x ∷ d)))) [
    | inr w ↦ rw w (ground (arith, w))
    | inl w ↦
        let (first, rest) = All-Stored (x ∷ d) in
        let (value, found) = least-All rank (Stored (x ∷ d)) x d first rest in
        rw w (omega (arith, h, shorter-remove (least rank x d).0 value (x ∷ d) found))
  ]

  -- A full dictionary makes room for the new entry.
  pub length-put :
      (rank : V → ℕ) (limit : ℕ) (key : K) (value : V) (d : Dict K V)
      → 1 ≤ limit
      → length d ≤ limit
      → length (insert key value (make_room rank limit d)) ≤ limit
  length-put rank limit key value d positive h = omega (
    arith,
    length-insert key value (make_room rank limit d),
    length-make_room rank limit d positive h,
  )

  -- What another key stands for stays, or is gone.
  pub lookup-make_room :
      (rank : V → ℕ) (limit : ℕ) (key : K) (d : Dict K V)
      → (lookup key (make_room rank limit d) ≡ none)
        ⊎ (lookup key (make_room rank limit d) ≡ lookup key d)
  unfolding make_room
  lookup-make_room rank limit key [] = inr refl
  lookup-make_room rank limit key (x ∷ d) = elim (Bool-cases (leb limit (length (x ∷ d)))) [
    | inr w ↦ rw w (inr refl)
    | inl w ↦ rw w (ground (arith, lookup-remove (least rank x d).0 key (x ∷ d)))
  ]
