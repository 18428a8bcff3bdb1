-- ===== src/Prelude/Maps.antt =====
-- Go's `map`, as an association list. The order of the entries stands for the order in which a
-- `range` loop happens to visit them; an insertion at a present key keeps the key's place.
use mathlib.Core.Path.{◌≡◌, refl}
use mathlib.Core.List.{List, [], ◌∷◌}
use mathlib.Core.Option.{Option, none, some}
use native.Mathlib.Omega.{arith}
use vibefeld.Prelude.Tests.{if◌then◌else◌, Eq}

abbrev pub Map {ℓ κ} : Type ℓ → Type κ → Type (ℓ ⊔ κ)
Map K V = List (K × V)

module _ {ℓ κ} {K : Type ℓ} {V : Type κ} ⦃e : Eq K⦄ where
  -- `v, ok := m[k]`
  unfoldable pub lookup : Map K V → K → Option V
  lookup [] k = none
  lookup ((j, v) ∷ m) k = if e.beq j k then some v else lookup m k

  -- `m[k] = v`
  unfoldable pub insert : Map K V → K → V → Map K V
  insert [] k v = (k, v) ∷ []
  insert ((j, w) ∷ m) k v = if e.beq j k then (j, v) ∷ m else (j, w) ∷ insert m k v

  -- `delete(m, k)`
  unfoldable pub delete : Map K V → K → Map K V
  delete [] k = []
  delete ((j, w) ∷ m) k = let rest = delete m k in if e.beq j k then rest else (j, w) ∷ rest

  pub lookup-insert :
      (m : Map K V) (k : K) (v : V) (j : K)
      → lookup (insert m k v) j ≡ (if e.beq k j then some v else lookup m j)
  unfolding lookup insert
  lookup-insert [] k v j = refl
  lookup-insert ((i, w) ∷ m) k v j =
      ground (arith, lookup-insert m k v j, e.beq_iff i k, e.beq_iff i j, e.beq_iff k j)

  pub lookup-delete :
      (m : Map K V) (k j : K) → lookup (delete m k) j ≡ (if e.beq k j then none else lookup m j)
  unfolding lookup delete
  lookup-delete [] k j = ground arith
  lookup-delete ((i, w) ∷ m) k j =
      ground (arith, lookup-delete m k j, e.beq_iff i k, e.beq_iff i j, e.beq_iff k j)

module _ {ℓ κ} {K : Type ℓ} {V : Type κ} where
  -- The values, in the order of a `range` loop.
  abbrev pub values : Map K V → List V
  values [] = []
  values ((_, v) ∷ m) = v ∷ values m
