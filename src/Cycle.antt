-- ===== src/Cycle.antt =====
-- internal/cycle/cycle.go: cycles among the dependencies of the nodes, found by a depth-first search
-- with three colours. `seek` is the search that its two versions here and the two of
-- internal/node/cycle.go share: they differ in the path they report and in the nodes they skip.
pub mod Terminates
pub mod Acyclic
pub mod Sound
pub mod Detect
pub mod Proposed
pub mod All
use vibefeld.Prelude.{
  ℕ, zero, suc, ◌≡◌, Bool, true, false, ◌||◌, Option, none, some, List, [], ◌∷◌, ◌++◌, Text,
  text_eq, if◌then◌else◌, length, any, Map, lookup, insert, eq_text, codes,
}
use vibefeld.Text.{join_with}
use vibefeld.Types.NodeId.{NodeId, to_string, to_string_slice}

pub record DependencyProvider : Type 0 where
  pub get_node_dependencies : NodeId → Option (List NodeId)
  pub all_node_ids : List NodeId

pub record CycleResult : Type 0 where
  pub has_cycle : Bool
  pub path : List NodeId

-- `Error`
unfoldable pub error : CycleResult → Text
error r =
    if r.has_cycle
    then codes "circular dependency detected: " ++ join_with (codes " -> ") (to_string_slice r.path)
    else []

pub data Color : Type 0 where
  white gray black : Color

abbrev pub Colors : Type 0
Colors = Map Text Color

abbrev or_white : Option Color → Color
or_white none = white
or_white (some c) = c

-- `colors[s]`, which is white where the key is missing.
unfoldable pub color_of : Colors → Text → Color
color_of colors s = or_white (lookup colors s)

-- The loop that builds the path of a cycle, with `inCycle` as an argument.
unfoldable pub cycle_loop : Text → Bool → List NodeId → List NodeId
cycle_loop s in_cycle [] = []
cycle_loop s in_cycle (p ∷ ps) =
    let now = in_cycle || text_eq (to_string p) s in
    let rest = cycle_loop s now ps in if now then p ∷ rest else rest

-- The path from where it meets the node, closed by the node.
unfoldable pub cycle_path : NodeId → List NodeId → List NodeId
unfolding cycle_loop
cycle_path id path = cycle_loop (to_string id) false path ++ id ∷ []

-- The colours that the search leaves, and its result: (true, path) or (false, nil).
pub data Outcome : Type 0 where
  out_of_fuel : Outcome
  found : Colors → List NodeId → Outcome
  clear : Colors → Outcome

abbrev pub continue : (Colors → Outcome) → Outcome → Outcome
continue rest out_of_fuel = out_of_fuel
continue rest (found colors path) = found colors path
continue rest (clear colors) = rest colors

-- The loop over a node's dependencies.
unfoldable pub visit :
    (NodeId → Bool) → (NodeId → Colors → Outcome) → List NodeId → Colors → Outcome
visit skip call [] colors = clear colors
visit skip call (dep ∷ deps) colors =
    let rest = visit skip call deps in
    if skip dep then rest colors else continue rest (call dep colors)

module _ (close : NodeId → List NodeId → List NodeId) (skip : NodeId → Bool)
    (provider : DependencyProvider) where
  -- The default case of the switch, from where the dependencies are known.
  unfoldable pub explore :
      (NodeId → Colors → List NodeId → Outcome)
      → NodeId
      → Colors
      → List NodeId
      → Option (List NodeId)
      → Outcome
  explore call id colors path none = clear (insert colors (to_string id) black)
  explore call id colors path (some deps) =
      continue (λ left. clear (insert left (to_string id) black))
        (visit skip (λ dep now. call dep now (path ++ id ∷ [])) deps colors)

  -- The switch on the node's colour.
  unfoldable pub enter :
      (NodeId → Colors → List NodeId → Outcome) → NodeId → Colors → List NodeId → Color → Outcome
  unfolding explore
  enter call id colors path gray = found colors (close id path)
  enter call id colors path black = clear colors
  enter call id colors path white =
      explore call id (insert colors (to_string id) gray) path (provider.get_node_dependencies id)

  unfoldable pub seek : ℕ → NodeId → Colors → List NodeId → Outcome
  unfolding enter
  seek zero id colors path = out_of_fuel
  seek (suc fuel) id colors path = enter (seek fuel) id colors path (color_of colors (to_string id))

abbrev pub skip_none : NodeId → Bool
skip_none id = false

-- `detectCycleDFS`
unfoldable pub detect_cycle_dfs : DependencyProvider → ℕ → NodeId → Colors → List NodeId → Outcome
unfolding seek cycle_path
detect_cycle_dfs = seek cycle_path skip_none

-- Every round but the last colours a known node gray, so one more round than known nodes is enough.
abbrev pub search_fuel : DependencyProvider → ℕ
search_fuel provider = suc (length provider.all_node_ids)

abbrev pub result_of : Outcome → Option CycleResult
result_of out_of_fuel = none
result_of (found colors path) = some (record { has_cycle = true; path = path })
result_of (clear colors) = some (record { has_cycle = false; path = [] })

abbrev pub unless_missing {ℓ} : {A : Type ℓ} → Option A → Option CycleResult → Option CycleResult
unless_missing none r = some (record { has_cycle = false; path = [] })
unless_missing (some _) r = r

-- `DetectCycleFrom`; `none` stands for a search that does not end.
unfoldable pub detect_cycle_from : DependencyProvider → NodeId → Option CycleResult
unfolding detect_cycle_dfs
detect_cycle_from provider start_id =
    unless_missing (provider.get_node_dependencies start_id)
      (result_of (detect_cycle_dfs provider (search_fuel provider) start_id [] []))

-- `inFoundCycle`, as the list of its keys.
abbrev pub is_in_found : List Text → NodeId → Bool
is_in_found in_found id = any (λ s. text_eq s (to_string id)) in_found

-- `detectCycleDFSForAll`
unfoldable pub detect_cycle_dfs_for_all :
    DependencyProvider → ℕ → NodeId → Colors → List NodeId → List Text → Outcome
unfolding seek cycle_path
detect_cycle_dfs_for_all provider fuel id colors path in_found =
    seek cycle_path (is_in_found in_found) provider fuel id colors path

abbrev pub is_black : Color → Bool
is_black black = true
is_black _ = false

abbrev pub is_empty : List NodeId → Bool
is_empty [] = true
is_empty (_ ∷ _) = false

-- What the loop over all nodes does with the result of a search.
abbrev pub record_cycle :
    (Colors → List Text → List CycleResult → Option (List CycleResult))
    → List Text
    → List CycleResult
    → Outcome
    → Option (List CycleResult)
record_cycle rest in_found cycles out_of_fuel = none
record_cycle rest in_found cycles (clear colors) = rest colors in_found cycles
record_cycle rest in_found cycles (found colors path) =
    if is_empty path
    then rest colors in_found cycles
    else rest colors (to_string_slice path ++ in_found)
        (cycles ++ record { has_cycle = true; path = path } ∷ [])

-- The loop over the nodes in `DetectAllCycles`.
unfoldable pub detect_loop :
    DependencyProvider
    → List NodeId
    → Colors
    → List Text
    → List CycleResult
    → Option (List CycleResult)
unfolding detect_cycle_dfs_for_all
detect_loop provider [] colors in_found cycles = some cycles
detect_loop provider (id ∷ ids) colors in_found cycles =
    let rest = detect_loop provider ids in
    if is_black (color_of colors (to_string id)) || is_in_found in_found id
    then rest colors in_found cycles
    else record_cycle rest in_found cycles
        (detect_cycle_dfs_for_all provider (search_fuel provider) id colors [] in_found)

-- `DetectAllCycles`
unfoldable pub detect_all_cycles : DependencyProvider → Option (List CycleResult)
unfolding detect_loop
detect_all_cycles provider = detect_loop provider provider.all_node_ids [] [] []

abbrev pub map_deps : (List NodeId → List NodeId) → Option (List NodeId) → Option (List NodeId)
map_deps f none = none
map_deps f (some deps) = some (f deps)

-- What `dependencyWrapper` adds to the dependencies of a node.
unfoldable pub with_proposed : NodeId → NodeId → NodeId → List NodeId → List NodeId
with_proposed from_id to_id id deps =
    if text_eq (to_string id) (to_string from_id)
    then (if any (λ dep. text_eq (to_string dep) (to_string to_id)) deps
        then deps
        else deps ++ to_id ∷ [])
    else deps

-- `dependencyWrapper`
unfoldable pub dependency_wrapper : DependencyProvider → NodeId → NodeId → DependencyProvider
unfolding with_proposed
dependency_wrapper provider from_id to_id = record {
  get_node_dependencies =
      λ id. map_deps (with_proposed from_id to_id id) (provider.get_node_dependencies id);
  all_node_ids = provider.all_node_ids;
}

-- `WouldCreateCycle`
unfoldable pub would_create_cycle : DependencyProvider → NodeId → NodeId → Option CycleResult
would_create_cycle provider from_id to_id =
    if text_eq (to_string from_id) (to_string to_id)
    then some (record { has_cycle = true; path = from_id ∷ to_id ∷ [] })
    else unless_missing (provider.get_node_dependencies from_id)
        (detect_cycle_from (dependency_wrapper provider from_id to_id) from_id)
