-- ===== src/Tests/Graphs.antt =====
-- Examples for the searches for cycles.
use mathlib.Core.List.{Memᴰ}
use mathlib.Core.WellFounded.{Acc}
use vibefeld.Prelude.{
  ◌≡◌, refl, sym, ap, subst, ◌↔◌, true, false, Bool-cases, inl, inr, some, List, [], ◌∷◌, map, Text,
  codes, Map, lookup, eq_text, text_eq, text_eq_iff, insert, eq_of_some-eq, All,
}
use vibefeld.Types.NodeId.{NodeId, to_string, to_string_slice}
use vibefeld.Schema.Epistemic.{pending}
use vibefeld.Node.{clean}
use vibefeld.Node.Cycle.{
  NodeProvider, as_dependencies, detect_cycle, again_result, detect_cycle-detect_cycle_from,
}
use vibefeld.Cycle.{
  DependencyProvider, CycleResult, detect_cycle_from, detect_all_cycles, would_create_cycle,
  color_of, visit,
}
use vibefeld.Cycle.Terminates.{IsProvider}
use vibefeld.Cycle.Acyclic.{IsAcyclicFrom}
use vibefeld.Cycle.Sound.{IsCycle}
use vibefeld.Cycle.Detect.{detect_cycle_from_decides, detect_cycle_from-IsCycle}
use vibefeld.Cycle.Proposed.{StaysAcyclic, would_create_cycle_decides}
use vibefeld.Cycle.All.{detect_all_cycles_decides}
use vibefeld.Tests.Sample.{id1, id11, id111, sample_node}

abbrev table_provider : Map Text (List NodeId) → List NodeId → DependencyProvider
table_provider table ids = record {
  get_node_dependencies = λ id. lookup table (to_string id);
  all_node_ids = ids;
}

-- A key that is found is one of the table's.
mem-keys :
    (table : Map Text (List NodeId)) (k : Text) (deps : List NodeId)
    → lookup table k ≡ some deps
    → Memᴰ k (map (λ entry. entry.0) table)
unfolding lookup
mem-keys [] k deps e = absurd (cc)
mem-keys ((j, v) ∷ table) k deps e = elim (Bool-cases (text_eq j k)) [
  | inl same ↦ Memᴰ.head (sym ((text_eq_iff j k).0 same))
  | inr other ↦ Memᴰ.tail (mem-keys table k deps (rw (other, lookup) at e))
]

-- 1 depends on 1.1, which depends on 1 and on 1.1.1.
abbrev cyclic_table : Map Text (List NodeId)
cyclic_table = (codes "1", id11 ∷ []) ∷ (codes "1.1", id111 ∷ id1 ∷ []) ∷ (codes "1.1.1", []) ∷ []

abbrev cyclic : DependencyProvider
cyclic = table_provider cyclic_table (id1 ∷ id11 ∷ id111 ∷ [])

cyclic-IsProvider : IsProvider cyclic
unfolding to_string
cyclic-IsProvider = record {
  by_string = λ a b e. ap (lookup cyclic_table) e;
  listed = λ a deps e. mem-keys cyclic_table (to_string a) deps e;
}

detect_cycle_from_decides_example :
    (r : CycleResult) × (detect_cycle_from cyclic id1 ≡ some r)
    × ((r.has_cycle ≡ false) ↔ IsAcyclicFrom cyclic (to_string id1))
detect_cycle_from_decides_example = detect_cycle_from_decides cyclic id1 cyclic-IsProvider

detect_cyclic :
    detect_cycle_from cyclic id1 ≡ some (record { has_cycle = true; path = id1 ∷ id11 ∷ id1 ∷ [] })
unfolding detect_cycle_from lookup insert to_string color_of visit
detect_cyclic = refl

detect_cycle_from-IsCycle_example : IsCycle cyclic (id1 ∷ id11 ∷ id1 ∷ [])
detect_cycle_from-IsCycle_example =
    detect_cycle_from-IsCycle cyclic id1 cyclic-IsProvider
      (record { has_cycle = true; path = id1 ∷ id11 ∷ id1 ∷ [] }) detect_cyclic refl

detect_all_cycles_decides_example :
    (cycles : List CycleResult) × (detect_all_cycles cyclic ≡ some cycles)
    × ((cycles ≡ []) ↔ All (λ id. IsAcyclicFrom cyclic (to_string id)) (id1 ∷ id11 ∷ id111 ∷ []))
detect_all_cycles_decides_example = detect_all_cycles_decides cyclic cyclic-IsProvider

-- Neither node has dependencies.
abbrev flat_table : Map Text (List NodeId)
flat_table = (codes "1", []) ∷ (codes "1.1", []) ∷ []

abbrev flat : DependencyProvider
flat = table_provider flat_table (id1 ∷ id11 ∷ [])

flat-IsProvider : IsProvider flat
unfolding to_string
flat-IsProvider = record {
  by_string = λ a b e. ap (lookup flat_table) e;
  listed = λ a deps e. mem-keys flat_table (to_string a) deps e;
}

flat_deps :
    (table : Map Text (List NodeId)) (k : Text) (deps : List NodeId) (d : NodeId)
    → lookup table k ≡ some deps
    → Memᴰ d deps
    → (v : List NodeId) × Memᴰ v (map (λ entry. entry.1) table) × Memᴰ d v
unfolding lookup
flat_deps [] k deps d e m = absurd (cc)
flat_deps ((j, v) ∷ table) k deps d e m = elim (Bool-cases (text_eq j k)) [
  | inl same ↦
      (v, Memᴰ.head refl, subst (Memᴰ d) (sym (eq_of_some-eq v deps (rw (same, lookup) at e))) m)
  | inr other ↦
      let (w, at_w, d_in) = flat_deps table k deps d (rw (other, lookup) at e) m in
      (w, Memᴰ.tail at_w, d_in)
]

flat_acyclic : (s : Text) → IsAcyclicFrom flat s
flat_acyclic s = Acc.intro s (λ v d.
    let (w, at_w, d_in) = flat_deps flat_table (to_string d.node) d.deps d.dep d.known d.listed in
    absurd (none_of w at_w d_in))
  where
    none_of : {d : NodeId} (w : List NodeId) → Memᴰ w ([] ∷ [] ∷ []) → Memᴰ d w → ⊥
    none_of [] at_w d_in = elim d_in [ ]
    none_of (x ∷ w) (Memᴰ.head e) d_in = absurd (cc)
    none_of (x ∷ w) (Memᴰ.tail (Memᴰ.head e)) d_in = absurd (cc)
    none_of (x ∷ w) (Memᴰ.tail (Memᴰ.tail m)) d_in = elim m [ ]

would_create_cycle_decides_example :
    (r : CycleResult) × (would_create_cycle flat id1 id11 ≡ some r)
    × ((r.has_cycle ≡ false) ↔ StaysAcyclic flat id1 id11)
unfolding lookup to_string
would_create_cycle_decides_example =
    would_create_cycle_decides flat id1 id11 [] flat-IsProvider flat_acyclic refl

abbrev node_provider : NodeProvider
node_provider = record {
  get_node = λ id. some (record (sample_node id pending clean) { dependencies = id11 ∷ [] });
  all_nodes = sample_node id1 pending clean ∷ sample_node id11 pending clean ∷ [];
}

detect_cycle-detect_cycle_from_example :
    detect_cycle node_provider id1
    ≡ again_result (detect_cycle_from (as_dependencies node_provider) id1)
detect_cycle-detect_cycle_from_example = detect_cycle-detect_cycle_from node_provider id1

-- The entry node 1.1 stands twice at the front of the path.
entry_twice :
    detect_cycle node_provider id1
    ≡ some (record { has_cycle = true; path = id11 ∷ id11 ∷ id11 ∷ [] })
unfolding detect_cycle lookup insert to_string color_of visit
entry_twice = refl

-- 1 leads into the cycle of 1.1 with itself, and 1.1.1 leads to 1. What the search from 1 left gray is
-- taken for a cycle: neither 1.1.1 nor 1 is on one.
abbrev spurious_table : Map Text (List NodeId)
spurious_table = (codes "1", id11 ∷ []) ∷ (codes "1.1", id11 ∷ []) ∷ (codes "1.1.1", id1 ∷ []) ∷ []

spurious :
    detect_all_cycles (table_provider spurious_table (id1 ∷ id11 ∷ id111 ∷ []))
    ≡ some (
        record { has_cycle = true; path = id11 ∷ id11 ∷ [] }
        ∷ record { has_cycle = true; path = id1 ∷ [] }
        ∷ [])
unfolding detect_all_cycles lookup insert to_string color_of visit to_string_slice
spurious = refl
