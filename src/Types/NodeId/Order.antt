-- ===== src/Types/NodeId/Order.antt =====
-- The order that `Less` makes (internal/types/id.go).
use vibefeld.Prelude.{ℕ, ◌≡◌, refl, true, false, ◌⊎◌, inl, inr, List, [], ◌∷◌, ◌++◌, arith}
use vibefeld.Types.NodeId.{NodeId, less, less_loop, is_ancestor_of, equal}
use vibefeld.Types.NodeId.Ancestry.{is_ancestor_of_iff, equal-parts}

less_loop_irrefl : (xs : List ℕ) → less_loop xs xs ≡ false
unfolding less_loop
less_loop_irrefl [] = refl
less_loop_irrefl (x ∷ xs) = ground (arith, less_loop_irrefl xs)

less_loop_trans :
    (xs ys zs : List ℕ) → less_loop xs ys ≡ true → less_loop ys zs ≡ true → less_loop xs zs ≡ true
unfolding less_loop
less_loop_trans [] [] [] h k = h
less_loop_trans [] (y ∷ ys) [] h k = cc
less_loop_trans [] ys (z ∷ zs) h k = ground arith
less_loop_trans (x ∷ xs) [] zs h k = cc
less_loop_trans (x ∷ xs) (y ∷ ys) [] h k = cc
less_loop_trans (x ∷ xs) (y ∷ ys) (z ∷ zs) h k = ground (arith, less_loop_trans xs ys zs)

less_loop-total : (xs ys : List ℕ) → (less_loop xs ys ≡ true) ⊎ (xs ≡ ys) ⊎ (less_loop ys xs ≡ true)
unfolding less_loop
less_loop-total [] [] = inr (inl refl)
less_loop-total [] (y ∷ ys) = inl (ground arith)
less_loop-total (x ∷ xs) [] = inr (inr (ground arith))
less_loop-total (x ∷ xs) (y ∷ ys) = ground (arith, less_loop-total xs ys)

less_loop-append : (xs : List ℕ) (k : ℕ) (rest : List ℕ) → less_loop xs (xs ++ k ∷ rest) ≡ true
unfolding less_loop
less_loop-append [] k rest = ground arith
less_loop-append (x ∷ xs) k rest = ground (arith, less_loop-append xs k rest)

-- `Less` is irreflexive, transitive and total up to `Equal`: it is a strict total order.
pub less_strict_total :
    (a b c : NodeId)
    → (less a a ≡ false)
      × (less a b ≡ true → less b c ≡ true → less a c ≡ true)
      × ((less a b ≡ true) ⊎ (equal a b ≡ true) ⊎ (less b a ≡ true))
unfolding less
less_strict_total a b c = (
  less_loop_irrefl a.parts,
  less_loop_trans a.parts b.parts c.parts,
  ground (arith, less_loop-total a.parts b.parts, (equal-parts a b).1),
)

-- An ancestor comes before its descendants.
pub less_of_is_ancestor_of : (a b : NodeId) → is_ancestor_of a b ≡ true → less a b ≡ true
unfolding less
less_of_is_ancestor_of a b h =
    let (k, rest, e) = (is_ancestor_of_iff a b).0 h in rw e (less_loop-append a.parts k rest)
