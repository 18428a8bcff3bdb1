-- ===== src/Taint/Correct.antt =====
-- What `PropagateTaint` leaves behind (internal/taint/propagate.go).
use mathlib.Core.List.{Memᴰ}
use mathlib.Core.List.Permᴰ
use vibefeld.Prelude.{
  All-perm, ◌≡◌, refl, sym, ◌∙◌, subst, true, Option, none, some, List, [], ◌∷◌, Text, text_eq,
  text_eq_iff, Map, lookup, insert, lookup-insert, eq_text, All, Bool-cases, inl, inr,
  eq_of_some-eq,
}
use vibefeld.Types.NodeId.{NodeId, to_string, depth, is_ancestor_of}
use vibefeld.Types.NodeId.Canonical.{IsCanonical, to_string-injective}
use vibefeld.Taint.{Ptr, Heap, Sorter, node_map, descendants, get_ancestors, propagate_taint}
use vibefeld.Taint.Ancestors.{IsCorrect, IsIndex, get_ancestors-parts}
use vibefeld.Taint.Propagate.{IsConsistent, propagate_loop-IsConsistent}

-- Every node of the list has a canonical identifier.
abbrev pub AllCanonical : Heap → List (Option Ptr) → Type 0
AllCanonical h [] = Unit
AllCanonical h (none ∷ ns) = AllCanonical h ns
AllCanonical h (some p ∷ ns) = IsCanonical (h p).id × AllCanonical h ns

abbrev ids_of : Heap → Ptr → NodeId
ids_of h p = (h p).id

insert-IsIndex :
    (h : Heap) (p : Ptr) (m : Map Text Ptr)
    → IsCanonical (h p).id
    → IsIndex m (ids_of h)
    → IsIndex (insert m (to_string (h p).id) p) (ids_of h)
insert-IsIndex h p m c index k q found = elim (Bool-cases (text_eq (to_string (h p).id) k)) [
  | inl same ↦
      let here : p ≡ q =
        eq_of_some-eq p q (sym (rw same at (lookup-insert m (to_string (h p).id) p k)) ∙ found) in
      subst (λ (r : Ptr). (to_string (h r).id ≡ k) × IsCanonical (h r).id) here
        ((text_eq_iff _ k).0 same, c)
  | inr other ↦ index k q (sym (rw other at (lookup-insert m (to_string (h p).id) p k)) ∙ found)
]

pub node_map-IsIndex :
    (h : Heap) (nodes : List (Option Ptr)) (m : Map Text Ptr)
    → AllCanonical h nodes
    → IsIndex m (ids_of h)
    → IsIndex (node_map h nodes m) (ids_of h)
unfolding node_map
node_map-IsIndex h [] m cs index = index
node_map-IsIndex h (none ∷ ns) m cs index = node_map-IsIndex h ns m cs index
node_map-IsIndex h (some p ∷ ns) m cs index =
    node_map-IsIndex h ns (insert m (to_string (h p).id) p) cs.1 (insert-IsIndex h p m cs.0 index)

pub empty-IsIndex : (h : Heap) → IsIndex [] (ids_of h)
unfolding lookup
empty-IsIndex h k q e = cc

descendants-IsCanonical :
    (h : Heap) (root : NodeId) (nodes : List (Option Ptr))
    → AllCanonical h nodes
    → All (λ p. IsCanonical (h p).id) (descendants h root nodes)
unfolding descendants
descendants-IsCanonical h root [] cs = tt
descendants-IsCanonical h root (none ∷ ns) cs = descendants-IsCanonical h root ns cs
descendants-IsCanonical h root (some p ∷ ns) cs = elim (Bool-cases (is_ancestor_of root (h p).id)) [
  | inl e ↦ rw e (cs.0, descendants-IsCanonical h root ns cs.1)
  | inr e ↦ rw e (descendants-IsCanonical h root ns cs.1)
]

-- A node of the list below the root is among the descendants.
descendants-complete {ℓ} :
    (h : Heap) (root : NodeId) (P : Ptr → Type ℓ) (p : Ptr) (nodes : List (Option Ptr))
    → All P (descendants h root nodes)
    → Memᴰ (some p) nodes
    → is_ancestor_of root (h p).id ≡ true
    → P p
unfolding descendants
descendants-complete h root P p _ all (Memᴰ.head {x = none} e) below = absurd (cc)
descendants-complete h root P p _ all (Memᴰ.head {x = some q} e) below =
    let same : p ≡ q = eq_of_some-eq p q e in
    subst P (sym same) (rw (subst (λ r. is_ancestor_of root (h r).id ≡ true) same below) at all).0
descendants-complete h root P p _ all (Memᴰ.tail {x = none} here) below =
    descendants-complete h root P p _ all here below
descendants-complete h root P p _ all (Memᴰ.tail {x = some q} {xs = ns} here) below =
    elim (Bool-cases (is_ancestor_of root (h q).id)) [
      | inl e ↦ descendants-complete h root P p ns (rw e at all).1 here below
      | inr e ↦ descendants-complete h root P p ns (rw e at all) here below
    ]

root-IsCorrect :
    (m : Map Text Ptr) (id : NodeId)
    → IsCanonical id
    → IsCorrect m ((to_string id, get_ancestors id m) ∷ [])
unfolding lookup
root-IsCorrect m id c id' above c' found =
    elim (Bool-cases (text_eq (to_string id) (to_string id'))) [
      | inl same ↦
          sym (eq_of_some-eq _ above (rw same at found))
          ∙ get_ancestors-parts m id id' c c'
              (to_string-injective id id' c c' ((text_eq_iff _ _).0 same))
      | inr other ↦ cc (rw other at found)
    ]

All-IsConsistent :
    (sorter : Sorter) (h : Heap) (root : Ptr) (nodes : List (Option Ptr))
    → IsCanonical (h root).id
    → AllCanonical h nodes
    → All
        (IsConsistent (node_map h nodes []) (propagate_taint sorter h (some root) nodes).0)
        (descendants h (h root).id nodes)
unfolding propagate_taint
All-IsConsistent sorter h root [] c cs = tt
All-IsConsistent sorter h root (n ∷ ns) c cs =
    let key = λ (p : Ptr). depth (h p).id in
    let ps = descendants h (h root).id (n ∷ ns) in
    let m = node_map h (n ∷ ns) [] in
    let perm = sorter.sort-perm key ps in
    let canonical = descendants-IsCanonical h (h root).id (n ∷ ns) cs in
    All-perm _ _ _ (Permᴰ.symm perm) (
      propagate_loop-IsConsistent m (ids_of h) (node_map-IsIndex h (n ∷ ns) [] cs (empty-IsIndex h))
        (sorter.sort key ps) h _ (λ p. refl) (root-IsCorrect m (h root).id c)
        (All-perm _ _ _ perm canonical) (sorter.sort-sorted key ps))

-- When `PropagateTaint` returns, every descendant of the root among the given nodes has the taint
-- that `ComputeTaint` gives it for its ancestors as they are then, whatever order the sort gives to
-- nodes of equal depth. The identifiers of the root and of the nodes are canonical.
pub propagate_taint-IsConsistent :
    (sorter : Sorter) (h : Heap) (root p : Ptr) (nodes : List (Option Ptr))
    → IsCanonical (h root).id
    → AllCanonical h nodes
    → Memᴰ (some p) nodes
    → is_ancestor_of (h root).id (h p).id ≡ true
    → IsConsistent (node_map h nodes []) (propagate_taint sorter h (some root) nodes).0 p
propagate_taint-IsConsistent sorter h root p nodes c cs here below =
    descendants-complete h (h root).id
      (IsConsistent (node_map h nodes []) (propagate_taint sorter h (some root) nodes).0) p nodes
      (All-IsConsistent sorter h root nodes c cs) here below
