-- ===== src/Node/Cycle.antt =====
-- internal/node/cycle.go: the same search for cycles over the nodes' dependencies. DetectCycle reports
-- its path otherwise than the search of internal/cycle; ValidateDependencies does what
-- DetectAllCycles does, and returns the paths.
use vibefeld.Prelude.{
  ◌≡◌, refl, ◌∙◌, ap, false, Option, none, some, List, [], ◌∷◌, ◌++◌, map, insert, eq_text, ℕ, zero,
  suc,
}
use vibefeld.Types.NodeId.{NodeId, to_string}
use vibefeld.Node.{Node}
use vibefeld.Cycle.{
  DependencyProvider, CycleResult, Color, white, gray, black, Colors, color_of, cycle_loop,
  cycle_path, Outcome, out_of_fuel, found, clear, continue, visit, explore, enter, seek, skip_none,
  search_fuel, result_of, unless_missing, detect_cycle_dfs, detect_cycle_from, detect_all_cycles,
}

pub record NodeProvider : Type 0 where
  pub get_node : NodeId → Option Node
  pub all_nodes : List Node

abbrev dependencies_of : Option Node → Option (List NodeId)
dependencies_of none = none
dependencies_of (some n) = some n.dependencies

-- What the search reads of the nodes.
abbrev pub as_dependencies : NodeProvider → DependencyProvider
as_dependencies provider = record {
  get_node_dependencies = λ id. dependencies_of (provider.get_node id);
  all_node_ids = map (λ n. n.id) provider.all_nodes;
}

-- The path starts with the node where the cycle is entered, before the loop adds it again.
unfoldable pub entered_path : NodeId → List NodeId → List NodeId
unfolding cycle_loop
entered_path id path = id ∷ (cycle_loop (to_string id) false path ++ id ∷ [])

-- `detectCycleDFS`
unfoldable pub detect_cycle_dfs_entered : NodeProvider → ℕ → NodeId → Colors → List NodeId → Outcome
unfolding seek entered_path
detect_cycle_dfs_entered provider = seek entered_path skip_none (as_dependencies provider)

-- `DetectCycle`
unfoldable pub detect_cycle : NodeProvider → NodeId → Option CycleResult
unfolding detect_cycle_dfs_entered
detect_cycle provider start_id = unless_missing (provider.get_node start_id) (
    result_of
      (detect_cycle_dfs_entered provider (search_fuel (as_dependencies provider)) start_id [] []))

abbrev paths_of : Option (List CycleResult) → Option (List (List NodeId))
paths_of none = none
paths_of (some cycles) = some (map (λ c. c.path) cycles)

-- `ValidateDependencies`
unfoldable pub validate_dependencies : NodeProvider → Option (List (List NodeId))
unfolding detect_all_cycles
validate_dependencies provider = paths_of (detect_all_cycles (as_dependencies provider))

last_or : NodeId → List NodeId → NodeId
last_or p [] = p
last_or p (q ∷ ps) = last_or q ps

-- A path with its last node once more in front.
pub last_again : List NodeId → List NodeId
last_again [] = []
last_again (p ∷ ps) = last_or p ps ∷ p ∷ ps

last_or-snoc : (p : NodeId) (ps : List NodeId) (id : NodeId) → last_or p (ps ++ id ∷ []) ≡ id
unfolding last_or
last_or-snoc p [] id = refl
last_or-snoc p (q ∷ ps) id = last_or-snoc q ps id

entered_path-again :
    (id : NodeId) (path : List NodeId) → entered_path id path ≡ last_again (cycle_path id path)
unfolding entered_path cycle_path last_again last_or
entered_path-again id path = again (cycle_loop (to_string id) false path)
  where
    again : (ps : List NodeId) → (id ∷ (ps ++ id ∷ [])) ≡ last_again (ps ++ id ∷ [])
    again [] = refl
    again (p ∷ ps) = rw (last_or-snoc p ps id)

-- What the other path makes of an outcome.
abbrev again_found : Outcome → Outcome
again_found out_of_fuel = out_of_fuel
again_found (found m path) = found m (last_again path)
again_found (clear m) = clear m

again-continue :
    (rest rest' : Colors → Outcome) (o : Outcome)
    → ((m : Colors) → rest' m ≡ again_found (rest m))
    → continue rest' (again_found o) ≡ again_found (continue rest o)
again-continue rest rest' out_of_fuel h = refl
again-continue rest rest' (found m path) h = refl
again-continue rest rest' (clear m) h = h m

again-visit :
    (call call' : NodeId → Colors → Outcome)
    → ((id : NodeId) (m : Colors) → call' id m ≡ again_found (call id m))
    → (deps : List NodeId) (m : Colors)
    → visit skip_none call' deps m ≡ again_found (visit skip_none call deps m)
unfolding visit
again-visit call call' h [] m = refl
again-visit call call' h (dep ∷ deps) m =
    ap (continue (visit skip_none call' deps)) (h dep m)
    ∙ again-continue (visit skip_none call deps) (visit skip_none call' deps) (call dep m)
        (again-visit call call' h deps)

module _ (provider : DependencyProvider) where
  again-explore :
      (call call' : NodeId → Colors → List NodeId → Outcome)
      → ((id : NodeId) (m : Colors) (path : List NodeId)
          → call' id m path ≡ again_found (call id m path))
      → (id : NodeId) (m : Colors) (path : List NodeId) (o : Option (List NodeId))
      → explore entered_path skip_none provider call' id m path o
        ≡ again_found (explore cycle_path skip_none provider call id m path o)
  unfolding explore
  again-explore call call' h id m path none = refl
  again-explore call call' h id m path (some deps) =
      let leave = λ (left : Colors). clear (insert left (to_string id) black) in
      let inner = λ (dep : NodeId) (now : Colors). call dep now (path ++ id ∷ []) in
      let inner' = λ (dep : NodeId) (now : Colors). call' dep now (path ++ id ∷ []) in
      ap (continue leave) (again-visit inner inner' (λ dep now. h dep now (path ++ id ∷ [])) deps m)
      ∙ again-continue leave leave (visit skip_none inner deps m) (λ _. refl)

  again-enter :
      (call call' : NodeId → Colors → List NodeId → Outcome)
      → ((id : NodeId) (m : Colors) (path : List NodeId)
          → call' id m path ≡ again_found (call id m path))
      → (id : NodeId) (m : Colors) (path : List NodeId) (c : Color)
      → enter entered_path skip_none provider call' id m path c
        ≡ again_found (enter cycle_path skip_none provider call id m path c)
  unfolding enter
  again-enter call call' h id m path gray = ap (found m) (entered_path-again id path)
  again-enter call call' h id m path black = refl
  again-enter call call' h id m path white =
      again-explore call call' h id (insert m (to_string id) gray) path
        (provider.get_node_dependencies id)

  again-seek :
      (fuel : ℕ) (id : NodeId) (m : Colors) (path : List NodeId)
      → seek entered_path skip_none provider fuel id m path
        ≡ again_found (seek cycle_path skip_none provider fuel id m path)
  unfolding seek
  again-seek zero id m path = refl
  again-seek (suc fuel) id m path =
      again-enter (seek cycle_path skip_none provider fuel)
        (seek entered_path skip_none provider fuel) (again-seek fuel) id m path
        (color_of m (to_string id))

-- A result with the last node of its path once more in front.
abbrev pub again_result : Option CycleResult → Option CycleResult
again_result none = none
again_result (some r) = some (record r { path = last_again r.path })

again-result_of : (o : Outcome) → result_of (again_found o) ≡ again_result (result_of o)
unfolding last_again
again-result_of out_of_fuel = refl
again-result_of (found m path) = refl
again-result_of (clear m) = refl

again-unless_missing :
    (n : Option Node) (r r' : Option CycleResult)
    → r' ≡ again_result r
    → unless_missing n r' ≡ again_result (unless_missing (dependencies_of n) r)
unfolding last_again
again-unless_missing none r r' h = refl
again-unless_missing (some n) r r' h = h

-- DetectCycle gives what DetectCycleFrom of internal/cycle gives for the same dependencies, with the
-- last node of its path once more in front.
pub detect_cycle-detect_cycle_from :
    (provider : NodeProvider) (start : NodeId)
    → detect_cycle provider start
      ≡ again_result (detect_cycle_from (as_dependencies provider) start)
unfolding detect_cycle detect_cycle_from detect_cycle_dfs detect_cycle_dfs_entered
detect_cycle-detect_cycle_from provider start =
    let deps = as_dependencies provider in
    let o = seek cycle_path skip_none deps (search_fuel deps) start [] [] in
    again-unless_missing (provider.get_node start) (result_of o)
      (result_of (seek entered_path skip_none deps (search_fuel deps) start [] []))
      (ap result_of (again-seek deps (search_fuel deps) start [] []) ∙ again-result_of o)
