-- ===== src/Cycle/All.antt =====
-- DetectAllCycles of internal/cycle/cycle.go: it reports something exactly if there is a cycle.
use vibefeld.Prelude.{
  ℕ, ◌≡◌, refl, sym, ◌∙◌, ap, ◌↔◌, inl, inr, Bool, true, false, ◌||◌, Bool-cases, some, List, [],
  ◌∷◌, ◌++◌, map, Text, arith, All, append_assoc, append-nil,
}
use vibefeld.Types.NodeId.{NodeId, to_string, to_string_slice}
use vibefeld.Cycle.{
  DependencyProvider, CycleResult, Color, white, gray, black, Colors, color_of, cycle_path, Outcome,
  out_of_fuel, found, clear, seek, search_fuel, is_in_found, is_black, is_empty, record_cycle,
  detect_cycle_dfs_for_all, detect_loop, detect_all_cycles,
}
use vibefeld.Cycle.Terminates.{IsProvider, whites, whites-le-length, Ends, Ends-seek}
use vibefeld.Cycle.Acyclic.{IsAcyclicFrom, BlackIsAcyclic, Clears, Clears-seek}
use vibefeld.Cycle.Sound.{IsOnPath, Traces, Traces-seek, cycle_path-IsCycle, IsReport-not_acyclic}
use vibefeld.Cycle.Detect.{nothing_black, nothing_gray}

module _ (provider : DependencyProvider) (lawful : IsProvider provider) where
  abbrev known : List Text
  known = map to_string provider.all_node_ids

  Ends-for_all :
      (id : NodeId) (m : Colors) (in_found : List Text)
      → Ends known
          (whites m known)
          (detect_cycle_dfs_for_all provider (search_fuel provider) id m [] in_found)
  unfolding detect_cycle_dfs_for_all
  Ends-for_all id m in_found =
      Ends-seek cycle_path (is_in_found in_found) provider lawful (search_fuel provider) id m []
        (omega (arith, whites-le-length m provider.all_node_ids))

  -- The loop returns, with what it has found before first.
  abbrev Extends : List NodeId → Type 0
  Extends ids =
      (m : Colors) (in_found : List Text) (cycles : List CycleResult)
      → (more : List CycleResult) × (detect_loop provider ids m in_found cycles
          ≡ some (cycles ++ more))

  record_cycle-Extends :
      (ids : List NodeId) (in_found : List Text) (cycles : List CycleResult) (o : Outcome) (n : ℕ)
      → Extends ids
      → Ends known n o
      → (more : List CycleResult) × (record_cycle (detect_loop provider ids) in_found cycles o
          ≡ some (cycles ++ more))
  record_cycle-Extends ids in_found cycles out_of_fuel n rest e = absurd e
  record_cycle-Extends ids in_found cycles (clear m) n rest e = rest m in_found cycles
  record_cycle-Extends ids in_found cycles (found m []) n rest e = rest m in_found cycles
  record_cycle-Extends ids in_found cycles (found m (p ∷ ps)) n rest e =
      let r : CycleResult = record { has_cycle = true; path = p ∷ ps } in
      let (more, same) = rest m (to_string_slice (p ∷ ps) ++ in_found) (cycles ++ r ∷ []) in
      (r ∷ more, same ∙ ap some (append_assoc cycles (r ∷ []) more))

  detect_loop-Extends : (ids : List NodeId) → Extends ids
  unfolding detect_loop
  detect_loop-Extends [] m in_found cycles = ([], ap some (sym (append-nil cycles)))
  detect_loop-Extends (id ∷ ids) m in_found cycles =
      elim (Bool-cases (is_black (color_of m (to_string id)) || is_in_found in_found id)) [
        | inl skipped ↦ rw skipped (detect_loop-Extends ids m in_found cycles)
        | inr searched ↦ rw searched (
            record_cycle-Extends ids in_found cycles
              (detect_cycle_dfs_for_all provider (search_fuel provider) id m [] in_found)
              (whites m known) (detect_loop-Extends ids) (Ends-for_all id m in_found))
      ]

  abbrev AllAcyclic : List NodeId → Type 0
  AllAcyclic ids = All (λ id. IsAcyclicFrom provider (to_string id)) ids

  -- What the loop returns when it has found nothing before.
  abbrev Decides : List NodeId → Colors → Type 0
  Decides ids m =
      (cycles : List CycleResult) × (detect_loop provider ids m [] [] ≡ some cycles)
      × ((cycles ≡ []) ↔ AllAcyclic ids)

  -- The path of a search's report is not empty.
  report-not_empty :
      (start : NodeId) (m : Colors) (path : List NodeId)
      → Traces provider cycle_path (is_in_found []) start [] (found m path)
      → is_empty path ≡ false
  report-not_empty start m path t =
      let cycle = cycle_path-IsCycle provider t.before t.id t.met t.linked.0 in
      rw (t.reported, cycle.shape)

  record_cycle-Decides :
      (id : NodeId) (ids : List NodeId) (o : Outcome) (n : ℕ)
      → ((m : Colors) → BlackIsAcyclic provider m → IsOnPath m [] → Decides ids m)
      → Ends known n o
      → Clears provider (IsAcyclicFrom provider (to_string id)) o
      → Traces provider cycle_path (is_in_found []) id [] o
      → (cycles : List CycleResult) × (record_cycle (detect_loop provider ids) [] [] o
          ≡ some cycles)
        × ((cycles ≡ []) ↔ AllAcyclic (id ∷ ids))
  record_cycle-Decides id ids out_of_fuel n rest e c t = absurd e
  record_cycle-Decides id ids (clear m) n rest e c t =
      let (cycles, same, right) = rest m c.0 t in
      (cycles, same, (λ none_found. (c.1, right.0 none_found), λ all. right.1 all.1))
  record_cycle-Decides id ids (found m path) n rest e c t =
      let r : CycleResult = record { has_cycle = true; path = path } in
      let (more, same) = detect_loop-Extends ids m (to_string_slice path ++ []) (r ∷ []) in
      (
        r ∷ more,
        rw (report-not_empty id m path t) same,
        (
          λ h. absurd (cc),
          λ all. absurd (IsReport-not_acyclic provider cycle_path id path t all.0),
        ),
      )

  is_black-eq : (c : Color) → is_black c ≡ true → c ≡ black
  is_black-eq black h = refl
  is_black-eq white h = absurd (cc)
  is_black-eq gray h = absurd (cc)

  or-false : (b : Bool) → (b || false) ≡ b
  or-false true = refl
  or-false false = refl

  detect_loop-Decides :
      (ids : List NodeId) (m : Colors) → BlackIsAcyclic provider m → IsOnPath m [] → Decides ids m
  unfolding detect_loop detect_cycle_dfs_for_all
  detect_loop-Decides [] m blacks grays = ([], refl, (λ _. tt, λ _. refl))
  detect_loop-Decides (id ∷ ids) m blacks grays =
      elim (Bool-cases (is_black (color_of m (to_string id)))) [
        | inl done ↦
            let (cycles, same, right) = detect_loop-Decides ids m blacks grays in
            let acyclic = blacks (to_string id) (is_black-eq (color_of m (to_string id)) done) in
            (cycles, rw done same, (λ e. (acyclic, right.0 e), λ all. right.1 all.1))
        | inr fresh ↦
            rw (or-false (is_black (color_of m (to_string id))), fresh)
              (record_cycle-Decides id ids
                (seek cycle_path (is_in_found []) provider (search_fuel provider) id m [])
                (whites m known) (detect_loop-Decides ids) (Ends-for_all id m [])
                (Clears-seek provider lawful (is_in_found []) (λ _. refl) cycle_path
                  (search_fuel provider) [] id m blacks)
                (Traces-seek provider cycle_path (is_in_found []) id (search_fuel provider) id m []
                  grays (tt, refl)))
      ]

  -- DetectAllCycles returns, and it reports nothing exactly if every chain of dependencies from
  -- every node comes to an end, for a provider that reads the identifier's string and lists the nodes
  -- that it knows.
  pub detect_all_cycles_decides :
      (cycles : List CycleResult) × (detect_all_cycles provider ≡ some cycles)
      × ((cycles ≡ []) ↔ All (λ id. IsAcyclicFrom provider (to_string id)) provider.all_node_ids)
  unfolding detect_all_cycles
  detect_all_cycles_decides =
      detect_loop-Decides provider.all_node_ids [] (nothing_black provider) nothing_gray
