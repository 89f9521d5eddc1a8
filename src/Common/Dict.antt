-- ===== src/Common/Dict.antt =====
-- Python's `dict`, in insertion order: an overwritten key keeps its place, a new one goes last.
use mathlib.Core.Path.{◌≡◌, refl, sym, subst, subst₂}
use mathlib.Core.Logic.{inl, inr}
use mathlib.Core.List.{List, [], ◌∷◌}
use mathlib.Core.Option
use mathlib.Core.Option.{Option, none, some}
use native.Mathlib.Omega.{arith}
use route_pilot.Common.Tests.{if◌then◌else◌, Bool-cases}
use route_pilot.Common.Lists.{All}
use route_pilot.Common.Eq.{Equality, ◌==◌}

abbrev pub Dict {ℓ} : Type ℓ → Type ℓ → Type ℓ
Dict K V = List (K × V)

module _ {ℓ} {K V : Type ℓ} where
  -- `d.values()`
  unfoldable pub values : Dict K V → List V
  values [] = []
  values ((k, v) ∷ m) = v ∷ values m

module _ {ℓ} {K V : Type ℓ} ⦃e : Equality K⦄ where
  -- `d.pop(key, None)`
  unfoldable pub remove : K → Dict K V → Dict K V
  remove key [] = []
  remove key ((at, held) ∷ rest) =
      let shorter = remove key rest in if at == key then shorter else (at, held) ∷ shorter

  -- `d[key] = value`
  unfoldable pub insert : K → V → Dict K V → Dict K V
  insert key value [] = (key, value) ∷ []
  insert key value ((at, held) ∷ rest) =
      if at == key then (at, value) ∷ rest else (at, held) ∷ insert key value rest

  -- `d.get(key)`
  unfoldable pub lookup : K → Dict K V → Option V
  lookup key [] = none
  lookup key ((at, held) ∷ rest) = if at == key then some held else lookup key rest

  -- A removed key is gone, and every other key is as it was.
  pub lookup-remove :
      (key other : K) (d : Dict K V)
      → lookup other (remove key d) ≡ (if key == other then none else lookup other d)
  unfolding lookup remove
  lookup-remove key other [] = ground arith
  lookup-remove key other ((at, held) ∷ rest) = ground (
    arith,
    lookup-remove key other rest,
    e.same_iff at other,
    e.same_iff at key,
    e.same_iff key other,
  )

  -- A written key has the value, and every other key is as it was.
  pub lookup-insert :
      (key other : K) (value : V) (d : Dict K V)
      → lookup other (insert key value d) ≡ (if key == other then some value else lookup other d)
  unfolding lookup insert
  lookup-insert key other value [] = refl
  lookup-insert key other value ((at, held) ∷ rest) = ground (
    arith,
    lookup-insert key other value rest,
    e.same_iff at other,
    e.same_iff at key,
    e.same_iff key other,
  )

  pub ruleset dict_laws = (lookup-insert, lookup-remove)

-- A property of every entry.
abbrev pub Entries {ℓ κ} : {K V : Type ℓ} → (K → V → Type κ) → Dict K V → Type κ
Entries P m = All (λ e. P e.0 e.1) m

module _ {ℓ κ} {K V : Type ℓ} ⦃e : Equality K⦄ (P : K → V → Type κ) where
  pub Entries-insert :
      (k : K) (v : V) (m : Dict K V) → P k v → Entries P m → Entries P (insert k v m)
  unfolding insert
  Entries-insert k v [] p h = (p, tt)
  Entries-insert k v ((j, w) ∷ m) p h = elim (Bool-cases (j == k)) [
    | inl t ↦ rw t (subst (λ i. P i v) (sym ((e.same_iff j k).0 t)) p, h.1)
    | inr t ↦ rw t (h.0, Entries-insert k v m p h.1)
  ]

  pub Entries-remove : (k : K) (m : Dict K V) → Entries P m → Entries P (remove k m)
  unfolding remove
  Entries-remove k [] h = tt
  Entries-remove k ((j, w) ∷ m) h = elim (Bool-cases (j == k)) [
    | inl t ↦ rw t (Entries-remove k m h.1)
    | inr t ↦ rw t (h.0, Entries-remove k m h.1)
  ]

  pub Entries-lookup : (k : K) (v : V) (m : Dict K V) → Entries P m → lookup k m ≡ some v → P k v
  unfolding lookup
  Entries-lookup k v [] h f = absurd (ground arith)
  Entries-lookup k v ((j, w) ∷ m) h f = elim (Bool-cases (j == k)) [
    | inl t ↦ subst₂ P ((e.same_iff j k).0 t) (ground arith) h.0
    | inr t ↦ Entries-lookup k v m h.1 (rw t at f)
  ]

module _ {ℓ} {K V : Type ℓ} where
  -- Each value replaced in its place.
  unfoldable pub map_values : (V → V) → Dict K V → Dict K V
  map_values f [] = []
  map_values f ((key, value) ∷ d) = (key, f value) ∷ map_values f d

module _ {ℓ} {K V : Type ℓ} ⦃e : Equality K⦄ where
  pub lookup-map_values :
      (f : V → V) (key : K) (d : Dict K V)
      → lookup key (map_values f d) ≡ Option.map f (lookup key d)
  unfolding lookup map_values
  lookup-map_values f key [] = refl
  lookup-map_values f key ((at, held) ∷ d) = ground (arith, lookup-map_values f key d)
