-- ===== src/Taint.antt =====
-- internal/taint: what a node inherits from its ancestors. Nodes are reached through pointers into a
-- heap, since the code writes the taint through the pointers that it also keeps in its maps.
pub mod Compute
pub mod Ancestors
pub mod Propagate
pub mod Correct
pub mod Frame
pub mod Above
use mathlib.Core.List.{Permᴰ}
use vibefeld.Prelude.{
  text_eq, ℕ, zero, suc, ◌≤◌, ◌≡◌, Bool, true, false, ◌||◌, not, Option, none, some, List, [], ◌∷◌,
  ◌++◌, map, Text, any, All, ◌==◌, if◌then◌else◌, Map, lookup, insert, eq_text,
}
use vibefeld.Types.NodeId.{NodeId, to_string, parent, is_ancestor_of, depth}
use vibefeld.Schema.Epistemic.{EpistemicState, pending, introduces_taint, same_state}
use vibefeld.Node.{Node, TaintState, clean, self_admitted, tainted, unresolved}

-- `s == t` on taint states.
unfoldable pub same_taint : TaintState → TaintState → Bool
same_taint clean clean = true
same_taint self_admitted self_admitted = true
same_taint tainted tainted = true
same_taint unresolved unresolved = true
same_taint (TaintState.other s) (TaintState.other t) = text_eq s t
same_taint _ _ = false

-- The tests of the two loops over the ancestors.
abbrev pub is_unresolved : Node → Bool
is_unresolved a = same_taint a.taint_state unresolved

abbrev pub taints_below : Node → Bool
taints_below a = same_taint a.taint_state tainted || same_taint a.taint_state self_admitted

-- `ComputeTaint`
unfoldable pub compute_taint : Node → List Node → TaintState
unfolding same_taint same_state introduces_taint
compute_taint n ancestors =
    if same_state n.epistemic_state pending
    then unresolved
    else if any is_unresolved ancestors
    then unresolved
    else if introduces_taint n.epistemic_state
    then self_admitted
    else if any taints_below ancestors
    then tainted
    else clean

-- `*node.Node`
abbrev pub Ptr : Type 0
Ptr = ℕ

abbrev pub Heap : Type 0
Heap = Ptr → Node

-- `p.TaintState = t`
unfoldable pub set_taint : Heap → Ptr → TaintState → Heap
set_taint h p t q = if q == p then record (h q) { taint_state = t } else h q

-- Each key is at most the keys behind it.
abbrev pub IsSorted : (Ptr → ℕ) → List Ptr → Type 0
IsSorted key [] = Unit
IsSorted key (p ∷ ps) = All (λ q. key p ≤ key q) ps × IsSorted key ps

-- `sort.Slice` by a key: which order it gives to equal keys is not said.
pub record Sorter : Type 0 where
  pub sort : (Ptr → ℕ) → List Ptr → List Ptr
  pub sort-perm : (key : Ptr → ℕ) (ps : List Ptr) → Permᴰ ps (sort key ps)
  pub sort-sorted : (key : Ptr → ℕ) (ps : List Ptr) → IsSorted key (sort key ps)

-- The map from the strings of the identifiers to the nodes; nil pointers are skipped.
unfoldable pub node_map : Heap → List (Option Ptr) → Map Text Ptr → Map Text Ptr
node_map h [] m = m
node_map h (none ∷ ns) m = node_map h ns m
node_map h (some p ∷ ns) m = node_map h ns (insert m (to_string (h p).id) p)

-- The descendants of a node among the given ones.
unfoldable pub descendants : Heap → NodeId → List (Option Ptr) → List Ptr
descendants h root [] = []
descendants h root (none ∷ ns) = descendants h root ns
descendants h root (some p ∷ ns) =
    let rest = descendants h root ns in if is_ancestor_of root (h p).id then p ∷ rest else rest

-- `if parent, ok := nodeMap[...]; ok { ancestors = append(ancestors, parent) }`
abbrev pub in_front : Option Ptr → List Ptr → List Ptr
in_front none ps = ps
in_front (some p) ps = p ∷ ps

-- The loop up the parents; a node of depth n has fewer than n ancestors, so n rounds are enough.
unfoldable pub ancestors_loop : ℕ → NodeId → Map Text Ptr → List Ptr
ancestors_loop zero id m = []
ancestors_loop (suc fuel) id m = elim (parent id) [
  | none ↦ []
  | some p ↦ in_front (lookup m (to_string p)) (ancestors_loop fuel p m)
]

-- `getAncestors`
unfoldable pub get_ancestors : NodeId → Map Text Ptr → List Ptr
unfolding ancestors_loop
get_ancestors id m = ancestors_loop (depth id) id m

abbrev pub Cache : Type 0
Cache = Map Text (List Ptr)

-- The ancestors by way of the parent's, where those are cached, and by the loop otherwise.
from_parent : NodeId → Map Text Ptr → Cache → NodeId → List Ptr
from_parent id m cache p = elim (lookup cache (to_string p)) [
  | some above ↦ in_front (lookup m (to_string p)) above
  | none ↦ get_ancestors id m
]

-- `getAncestorsCached`
unfoldable pub get_ancestors_cached : NodeId → Map Text Ptr → Cache → List Ptr × Cache
unfolding from_parent
get_ancestors_cached id m cache = elim (lookup cache (to_string id)) [
  | some cached ↦ (cached, cache)
  | none ↦ elim (parent id) [
    | none ↦ ([], insert cache (to_string id) [])
    | some p ↦ let found = from_parent id m cache p in (found, insert cache (to_string id) found)
  ]
]

-- One round of the loop over the descendants.
visit : Heap → Ptr → List Ptr → Heap × List Ptr
visit h p above =
    let t = compute_taint (h p) (map h above) in
    if same_taint (h p).taint_state t then (h, []) else (set_taint h p t, p ∷ [])

unfoldable pub propagate_loop : Map Text Ptr → List Ptr → Heap → Cache → Heap × List Ptr
unfolding visit
propagate_loop m [] h cache = (h, [])
propagate_loop m (p ∷ ps) h cache =
    let (above, cache') = get_ancestors_cached (h p).id m cache in
    let (h', changed) = visit h p above in
    let (h'', rest) = propagate_loop m ps h' cache' in (h'', changed ++ rest)

module _ (sorter : Sorter) where
  -- `PropagateTaint`: the heap that it leaves and the nodes whose taint changed.
  unfoldable pub propagate_taint : Heap → Option Ptr → List (Option Ptr) → Heap × List Ptr
  unfolding propagate_loop descendants
  propagate_taint h none nodes = (h, [])
  propagate_taint h (some root) [] = (h, [])
  propagate_taint h (some root) (n ∷ ns) =
      let m = node_map h (n ∷ ns) [] in
      let id = (h root).id in
      propagate_loop m (sorter.sort (λ p. depth (h p).id) (descendants h id (n ∷ ns))) h
        ((to_string id, get_ancestors id m) ∷ [])

-- `GenerateTaintEvents`: the identifier and the new taint of each changed node.
unfoldable pub generate_taint_events : Heap → List (Option Ptr) → List (NodeId × TaintState)
generate_taint_events h [] = []
generate_taint_events h (none ∷ ps) = generate_taint_events h ps
generate_taint_events h (some p ∷ ps) = ((h p).id, (h p).taint_state) ∷ generate_taint_events h ps

module _ (sorter : Sorter) where
  -- `PropagateAndGenerateEvents`, with the heap that it leaves.
  unfoldable pub propagate_and_generate_events :
      Heap → Option Ptr → List (Option Ptr) → Heap × List Ptr × List (NodeId × TaintState)
  unfolding propagate_taint generate_taint_events
  propagate_and_generate_events h root nodes =
      let (h', changed) = propagate_taint sorter h root nodes in
      (h', changed, generate_taint_events h' (map some changed))
