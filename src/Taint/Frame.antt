-- ===== src/Taint/Frame.antt =====
-- What `PropagateTaint` leaves alone, and which nodes it reports (internal/taint/propagate.go).
use mathlib.Core.List.{Memᴰ}
use vibefeld.Prelude.{
  All-perm, All-mem, mem-append_left, mem-append_right, ◌≡◌, refl, ◌∙◌, true, Option, none, some,
  List, [], ◌∷◌, map, Text, Map, All, Bool-cases, inl, inr, ◌⊎◌, ◌==◌, ==_iff,
}
use vibefeld.Types.NodeId.{NodeId, depth, is_ancestor_of}
use vibefeld.Taint.{
  Ptr, Heap, Cache, Sorter, same_taint, compute_taint, descendants, get_ancestors_cached, visit,
  propagate_loop, propagate_taint,
}
use vibefeld.Taint.Propagate.{set_taint-ne}

visit_reports :
    (h : Heap) (p q : Ptr) (above : List Ptr)
    → ((visit h p above).0 q ≡ h q) ⊎ (Memᴰ q (visit h p above).1 × (q ≡ p))
unfolding visit
visit_reports h p q above =
    elim (Bool-cases (same_taint (h p).taint_state (compute_taint (h p) (map h above)))) [
      | inl same ↦ rw (same, visit) (inl refl)
      | inr other ↦
          rw (other, visit)
            (elim (Bool-cases (q == p)) [
              | inl e ↦ inr (Memᴰ.head ((==_iff q p).0 e), (==_iff q p).0 e)
              | inr e ↦ inl (set_taint-ne h p _ q (λ s. cc (e, (==_iff q p).1 s)))
            ])
    ]

loop_reports :
    (m : Map Text Ptr) (ps : List Ptr) (h : Heap) (cache : Cache) (q : Ptr)
    → ((propagate_loop m ps h cache).0 q ≡ h q)
      ⊎ (Memᴰ q (propagate_loop m ps h cache).1 × Memᴰ q ps)
unfolding propagate_loop
loop_reports m [] h cache q = inl refl
loop_reports m (p ∷ ps) h cache q =
    let (above, cache') = get_ancestors_cached (h p).id m cache in
    let (h', changed) = visit h p above in
    elim (loop_reports m ps h' cache' q) [
      | inr (reported, listed) ↦ inr (mem-append_right q changed _ reported, Memᴰ.tail listed)
      | inl kept ↦ elim (visit_reports h p q above) [
        | inl same ↦ inl (kept ∙ same)
        | inr (reported, e) ↦ inr (mem-append_left q changed _ reported, Memᴰ.head e)
      ]
    ]

descendants-below :
    (h : Heap) (root : NodeId) (nodes : List (Option Ptr))
    → All (λ p. is_ancestor_of root (h p).id ≡ true) (descendants h root nodes)
unfolding descendants
descendants-below h root [] = tt
descendants-below h root (none ∷ ns) = descendants-below h root ns
descendants-below h root (some p ∷ ns) = elim (Bool-cases (is_ancestor_of root (h p).id)) [
  | inl e ↦ rw (e, descendants) (e, descendants-below h root ns)
  | inr e ↦ rw (e, descendants) (descendants-below h root ns)
]

-- `PropagateTaint` leaves a node as it is, or else the node is a descendant of the root and is in the
-- returned list.
pub propagate_taint_reports :
    (sorter : Sorter) (h : Heap) (root q : Ptr) (nodes : List (Option Ptr))
    → ((propagate_taint sorter h (some root) nodes).0 q ≡ h q)
      ⊎ (Memᴰ q (propagate_taint sorter h (some root) nodes).1
          × (is_ancestor_of (h root).id (h q).id ≡ true))
unfolding propagate_taint
propagate_taint_reports sorter h root q [] = inl refl
propagate_taint_reports sorter h root q (n ∷ ns) =
    let key = λ (p : Ptr). depth (h p).id in
    let ps = descendants h (h root).id (n ∷ ns) in
    elim (loop_reports _ (sorter.sort key ps) h _ q) [
      | inl kept ↦ inl kept
      | inr (reported, listed) ↦ inr (
        reported,
        All-mem (λ p. is_ancestor_of (h root).id (h p).id ≡ true) q (sorter.sort key ps)
            (All-perm _ _ _ (sorter.sort-perm key ps) (descendants-below h (h root).id (n ∷ ns)))
            listed,
      )
    ]
