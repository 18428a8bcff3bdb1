-- ===== src/Cycle/Detect.antt =====
-- DetectCycleFrom, DetectAllCycles and WouldCreateCycle of internal/cycle/cycle.go decide what they
-- are asked.
use vibefeld.Prelude.{
  ℕ, ◌≡◌, refl, sym, ◌∙◌, subst, ◌↔◌, inl, inr, true, false, Bool-cases, Option-cases,
  eq_of_some-eq, some, [], map, eq_text, arith, lookup,
}
use vibefeld.Types.NodeId.{NodeId, to_string}
use vibefeld.Cycle.{
  DependencyProvider, CycleResult, color_of, cycle_path, Outcome, out_of_fuel, found, clear, seek,
  skip_none, search_fuel, result_of, detect_cycle_dfs, detect_cycle_from,
}
use vibefeld.Cycle.Terminates.{IsProvider, whites, whites-le-length, Ends, Ends-seek}
use vibefeld.Cycle.Acyclic.{IsAcyclicFrom, BlackIsAcyclic, Clears, Clears-seek, missing_acyclic}
use vibefeld.Cycle.Sound.{
  IsCycle, IsOnPath, Traces, Traces-seek, cycle_path-IsCycle, IsReport-not_acyclic,
}

pub nothing_black : (provider : DependencyProvider) → BlackIsAcyclic provider []
unfolding color_of lookup
nothing_black provider s e = absurd (cc)

pub nothing_gray : IsOnPath [] []
unfolding color_of lookup
nothing_gray s e = absurd (cc)

-- What the result of a search from a node says.
abbrev pub IsCorrect : DependencyProvider → NodeId → CycleResult → Type 0
IsCorrect provider start r =
    (r.has_cycle ≡ true → IsCycle provider r.path × ¬ IsAcyclicFrom provider (to_string start))
    × (r.has_cycle ≡ false → IsAcyclicFrom provider (to_string start))

module _ (provider : DependencyProvider) (start : NodeId) where
  result_of-IsCorrect :
      (o : Outcome) (n : ℕ)
      → Ends (map to_string provider.all_node_ids) n o
      → Clears provider (IsAcyclicFrom provider (to_string start)) o
      → Traces provider cycle_path skip_none start [] o
      → (r : CycleResult) × (result_of o ≡ some r) × IsCorrect provider start r
  result_of-IsCorrect out_of_fuel n e c t = absurd e
  result_of-IsCorrect (found m path) n e c t =
      let cyclic =
        subst (IsCycle provider) (sym t.reported)
          (cycle_path-IsCycle provider t.before t.id t.met t.linked.0) in
      let not_acyclic = IsReport-not_acyclic provider cycle_path start path t in
      let r : CycleResult = record { has_cycle = true; path = path } in
      (r, refl, (λ _. (cyclic, not_acyclic), λ h. absurd (cc)))
  result_of-IsCorrect (clear m) n e c t =
      let r : CycleResult = record { has_cycle = false; path = [] } in
      (r, refl, (λ h. absurd (cc), λ _. c.1))

  module _ (lawful : IsProvider provider) where
    detect_cycle_from_lem :
        (r : CycleResult) × (detect_cycle_from provider start ≡ some r) × IsCorrect provider start r
    unfolding detect_cycle_from detect_cycle_dfs
    detect_cycle_from_lem = elim (Option-cases (provider.get_node_dependencies start)) [
      | inl missing ↦
          let r : CycleResult = record { has_cycle = false; path = [] } in
          (r, rw missing, (λ h. absurd (cc), λ _. missing_acyclic provider lawful start missing))
      | inr (deps, e) ↦ rw e (
          result_of-IsCorrect
            (seek cycle_path skip_none provider (search_fuel provider) start [] [])
            (whites [] (map to_string provider.all_node_ids))
            (Ends-seek cycle_path skip_none provider lawful (search_fuel provider) start [] []
              (omega (arith, whites-le-length [] provider.all_node_ids)))
            (Clears-seek provider lawful skip_none (λ _. refl) cycle_path (search_fuel provider) []
              start [] (nothing_black provider))
            (Traces-seek provider cycle_path skip_none start (search_fuel provider) start [] []
              nothing_gray (tt, refl)))
    ]

    -- DetectCycleFrom returns, and it says that there is no cycle exactly if every chain of
    -- dependencies from the node comes to an end, for a provider that reads the identifier's string
    -- and lists the nodes that it knows.
    pub detect_cycle_from_decides :
        (r : CycleResult) × (detect_cycle_from provider start ≡ some r)
        × ((r.has_cycle ≡ false) ↔ IsAcyclicFrom provider (to_string start))
    detect_cycle_from_decides =
        let (r, e, right) = detect_cycle_from_lem in
        (
          r,
          e,
          (
            right.1,
            λ a. elim (Bool-cases r.has_cycle) [
              | inl yes_cycle ↦ absurd ((right.0 yes_cycle).1 a)
              | inr no_cycle ↦ no_cycle
            ],
          ),
        )

    -- The path that DetectCycleFrom reports with a cycle is one: each node on it depends on the
    -- next, and the last is the first, for such a provider.
    pub detect_cycle_from-IsCycle :
        (r : CycleResult)
        → detect_cycle_from provider start ≡ some r
        → r.has_cycle ≡ true
        → IsCycle provider r.path
    detect_cycle_from-IsCycle r e h =
        let (r', e', right) = detect_cycle_from_lem in
        let same = eq_of_some-eq r' r (sym e' ∙ e) in
        subst (λ q. IsCycle provider q.path) same (right.0 (rw same h)).0
