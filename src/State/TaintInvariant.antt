-- ===== src/State/TaintInvariant.antt =====
-- The taint of all nodes after a decision on one of them (internal/state/apply.go).
use mathlib.Core.List.{Memᴰ}
use vibefeld.Prelude.{
  All-map, ◌≡◌, ◌≢◌, refl, sym, ◌∙◌, ap, subst, true, false, Option, none, some, List, [], ◌∷◌, map,
  arith, Text, Map, insert, eq_text, All, Bool-cases, inl, inr, ◌==◌, ==_iff, eq_of_some-eq,
}
use vibefeld.Types.NodeId.{NodeId, to_string, depth, is_ancestor_of}
use vibefeld.Types.NodeId.Canonical.{IsCanonical}
use vibefeld.Types.NodeId.Ancestry.{is_ancestor_of_strict}
use vibefeld.Node.{Node}
use vibefeld.Taint.{
  Ptr, Heap, Sorter, compute_taint, set_taint, node_map, descendants, get_ancestors,
  propagate_taint,
}
use vibefeld.Taint.Ancestors.{IsIndex}
use vibefeld.Taint.Above.{get_ancestors-above}
use vibefeld.Taint.Propagate.{
  IsConsistent, KeepsNodes, set_taint-KeepsNodes, set_taint-ne, set_taint-IsConsistent_self,
  propagate_loop-KeepsNodes,
}
use vibefeld.State.{write}
use vibefeld.Taint.Correct.{
  AllCanonical, node_map-IsIndex, empty-IsIndex, propagate_taint-IsConsistent,
}
use vibefeld.Taint.Frame.{propagate_taint_reports}

module _ (h h' : Heap) (same : (p : Ptr) → (h' p).id ≡ (h p).id) where
  pub node_map-ids :
      (nodes : List (Option Ptr)) (m : Map Text Ptr) → node_map h' nodes m ≡ node_map h nodes m
  unfolding node_map
  node_map-ids [] m = refl
  node_map-ids (none ∷ ns) m = node_map-ids ns m
  node_map-ids (some p ∷ ns) m =
      ap (λ id. node_map h' ns (insert m (to_string id) p)) (same p)
      ∙ node_map-ids ns (insert m (to_string (h p).id) p)

  pub AllCanonical-ids : (nodes : List (Option Ptr)) → AllCanonical h nodes → AllCanonical h' nodes
  AllCanonical-ids [] c = tt
  AllCanonical-ids (none ∷ ns) c = AllCanonical-ids ns c
  AllCanonical-ids (some p ∷ ns) c = (subst IsCanonical (sym (same p)) c.0, AllCanonical-ids ns c.1)

  -- A node and its ancestors that are as before are as consistent as before.
  IsConsistent-same :
      (m : Map Text Ptr) (q : Ptr)
      → h' q ≡ h q
      → All (λ a. h' a ≡ h a) (get_ancestors (h q).id m)
      → IsConsistent m h q
      → IsConsistent m h' q
  IsConsistent-same m q e above ok = cc (e, map-same (get_ancestors (h q).id m) above, ok)
    where
      map-same : (ps : List Ptr) → All (λ a. h' a ≡ h a) ps → map h' ps ≡ map h ps
      map-same [] a = refl
      map-same (p ∷ ps) a = cc (a.0, map-same ps a.1)

pub propagate_taint-KeepsNodes :
    (sorter : Sorter) (h : Heap) (root : Ptr) (nodes : List (Option Ptr))
    → KeepsNodes h (propagate_taint sorter h (some root) nodes).0
unfolding propagate_taint
propagate_taint-KeepsNodes sorter h root [] = λ p. refl
propagate_taint-KeepsNodes sorter h root (n ∷ ns) =
    propagate_loop-KeepsNodes (node_map h (n ∷ ns) [])
      (sorter.sort (λ p. depth (h p).id) (descendants h (h root).id (n ∷ ns))) h
      ((to_string (h root).id, get_ancestors (h root).id (node_map h (n ∷ ns) [])) ∷ [])

abbrev pub AllConsistent : Heap → List (Option Ptr) → Type 0
AllConsistent h nodes = (p : Ptr) → Memᴰ (some p) nodes → IsConsistent (node_map h nodes []) h p

pub AllCanonical-mem :
    (h : Heap) (q : Ptr) (nodes : List (Option Ptr))
    → AllCanonical h nodes
    → Memᴰ (some q) nodes
    → IsCanonical (h q).id
AllCanonical-mem h q _ all (Memᴰ.head {x = none} e) = absurd (cc)
AllCanonical-mem h q _ all (Memᴰ.head {x = some p} e) =
    subst (λ r. IsCanonical (h r).id) (sym (eq_of_some-eq q p e)) all.0
AllCanonical-mem h q _ all (Memᴰ.tail {x = none} {xs} m) = AllCanonical-mem h q xs all m
AllCanonical-mem h q _ all (Memᴰ.tail {x = some p} {xs} m) = AllCanonical-mem h q xs all.1 m

-- `h0` has a new node written at `root`, which gives `h1`; `h2` and `h3` are what the two steps of
-- `recomputeTaintForNode` leave.
module _ (sorter : Sorter) (h0 : Heap) (root : Ptr) (n : Node) (nodes : List (Option Ptr))
    (keeps_id : n.id ≡ (h0 root).id) (canonical : IsCanonical (h0 root).id)
    (all_canonical : AllCanonical h0 nodes) where
  abbrev ids : Ptr → NodeId
  ids p = (h0 p).id

  abbrev h1 : Heap
  h1 = write h0 root n

  abbrev above : List Ptr
  above = get_ancestors (h1 root).id (node_map h1 nodes [])

  abbrev h2 : Heap
  h2 = set_taint h1 root (compute_taint (h1 root) (map h1 above))

  abbrev h3 : Heap
  h3 = (propagate_taint sorter h2 (some root) nodes).0

  h1-ids : (p : Ptr) → (h1 p).id ≡ ids p
  unfolding write
  h1-ids p = ground (arith, keeps_id)

  h1-ne : (p : Ptr) → p ≢ root → h1 p ≡ h0 p
  unfolding write
  h1-ne p ne = ground (arith, ne)

  h2-ids : (p : Ptr) → (h2 p).id ≡ ids p
  h2-ids p = ap (λ (r : Node). r.id) (set_taint-KeepsNodes h1 root _ p) ∙ h1-ids p

  h3-ids : (p : Ptr) → (h3 p).id ≡ ids p
  h3-ids p = ap (λ (r : Node). r.id) (propagate_taint-KeepsNodes sorter h2 root nodes p) ∙ h2-ids p

  h2-ne : (p : Ptr) → p ≢ root → h2 p ≡ h0 p
  h2-ne p ne = set_taint-ne h1 root _ p ne ∙ h1-ne p ne

  index : IsIndex (node_map h0 nodes []) ids
  index = node_map-IsIndex h0 nodes [] all_canonical (empty-IsIndex h0)

  -- Propagation writes below the root only.
  h3-outside : (p : Ptr) → is_ancestor_of (ids root) (ids p) ≡ false → h3 p ≡ h2 p
  h3-outside p out = elim (propagate_taint_reports sorter h2 root p nodes) [
    | inl e ↦ e
    | inr (_, below) ↦ cc (below, out, h2-ids root, h2-ids p)
  ]

  not_below : (a q : NodeId) → is_ancestor_of a q ≡ true → is_ancestor_of q a ≡ false
  not_below a q up = elim (Bool-cases (is_ancestor_of q a)) [
    | inl down ↦ cc ((is_ancestor_of_strict a q a).0, (is_ancestor_of_strict a q a).1 up down)
    | inr e ↦ e
  ]

  ancestors_outside :
      (q : Ptr)
      → IsCanonical (ids q)
      → ((a : Ptr)
          → is_ancestor_of (ids a) (ids q) ≡ true
          → is_ancestor_of (ids root) (ids a) ≡ false)
      → All (λ a. h3 a ≡ h2 a) (get_ancestors (ids q) (node_map h0 nodes []))
  ancestors_outside q c out =
      All-map (λ a. is_ancestor_of (ids a) (ids q) ≡ true) (λ a. h3 a ≡ h2 a) _
        (λ a up. h3-outside a (out a up))
        (get_ancestors-above (node_map h0 nodes []) ids index (ids q) c)

  map_of_h1 : node_map h1 nodes [] ≡ node_map h0 nodes []
  map_of_h1 = node_map-ids h0 h1 h1-ids nodes []

  root_before : IsConsistent (node_map h0 nodes []) h2 root
  root_before =
      subst
        (λ m.
          IsConsistent (node_map h0 nodes [])
            (set_taint h1 root (compute_taint (h1 root) (map h1 (get_ancestors (h1 root).id m))))
            root)
        (sym map_of_h1)
        (subst
          (λ id.
            IsConsistent (node_map h0 nodes [])
              (set_taint h1 root
                (compute_taint (h1 root) (map h1 (get_ancestors id (node_map h0 nodes [])))))
              root)
          (sym (h1-ids root))
          (set_taint-IsConsistent_self (node_map h0 nodes []) ids index h1 root h1-ids canonical))

  root-IsConsistent : IsConsistent (node_map h0 nodes []) h3 root
  root-IsConsistent =
      IsConsistent-same h2 h3 (λ p. h3-ids p ∙ sym (h2-ids p)) (node_map h0 nodes []) root
        (h3-outside root (is_ancestor_of_strict (ids root) (ids root) (ids root)).0)
        (subst (λ id. All (λ a. h3 a ≡ h2 a) (get_ancestors id (node_map h0 nodes [])))
          (sym (h2-ids root))
          (ancestors_outside root canonical (λ a up. not_below (ids a) (ids root) up)))
        root_before

  not_below_above :
      (a q : Ptr)
      → is_ancestor_of (ids root) (ids q) ≡ false
      → is_ancestor_of (ids a) (ids q) ≡ true
      → is_ancestor_of (ids root) (ids a) ≡ false
  not_below_above a q out up = elim (Bool-cases (is_ancestor_of (ids root) (ids a))) [
    | inl down ↦ cc (out, (is_ancestor_of_strict (ids root) (ids a) (ids q)).1 down up)
    | inr e ↦ e
  ]

  outside-IsConsistent :
      (q : Ptr)
      → q ≢ root
      → IsCanonical (ids q)
      → is_ancestor_of (ids root) (ids q) ≡ false
      → IsConsistent (node_map h0 nodes []) h0 q
      → IsConsistent (node_map h0 nodes []) h3 q
  outside-IsConsistent q ne c out ok =
      IsConsistent-same h0 h3 h3-ids (node_map h0 nodes []) q (h3-outside q out ∙ h2-ne q ne)
        (All-map (λ a. is_ancestor_of (ids a) (ids q) ≡ true) (λ a. h3 a ≡ h0 a) _
          (λ a up.
            h3-outside a (not_below_above a q out up) ∙ h2-ne a (λ e. cc (out, up, ap ids e)))
          (get_ancestors-above (node_map h0 nodes []) ids index (ids q) c))
        ok

  below-IsConsistent :
      (q : Ptr)
      → Memᴰ (some q) nodes
      → is_ancestor_of (ids root) (ids q) ≡ true
      → IsConsistent (node_map h0 nodes []) h3 q
  below-IsConsistent q here below =
      subst (λ m. IsConsistent m h3 q) (node_map-ids h0 h2 h2-ids nodes [])
        (propagate_taint-IsConsistent sorter h2 root q nodes
          (subst IsCanonical (sym (h2-ids root)) canonical)
          (AllCanonical-ids h0 h2 h2-ids nodes all_canonical) here
          (cc (below, h2-ids root, h2-ids q)))

  -- A decision on one node, with the recomputation that follows it, keeps all taints consistent.
  pub decision-AllConsistent : AllConsistent h0 nodes → AllConsistent h3 nodes
  decision-AllConsistent before q here =
      subst (λ m. IsConsistent m h3 q) (sym (node_map-ids h0 h3 h3-ids nodes []))
        (elim (Bool-cases (q == root)) [
          | inl e ↦
              subst (IsConsistent (node_map h0 nodes []) h3) (sym ((==_iff q root).0 e))
                root-IsConsistent
          | inr e ↦ elim (Bool-cases (is_ancestor_of (ids root) (ids q))) [
            | inl below ↦ below-IsConsistent q here below
            | inr out ↦
                outside-IsConsistent q (λ s. cc (e, (==_iff q root).1 s))
                  (AllCanonical-mem h0 q nodes all_canonical here) out (before q here)
          ]
        ])
