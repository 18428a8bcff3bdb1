-- ===== src/Scope/Validate.antt =====
-- internal/scope/inherit.go and validate.go: what a child inherits, and the checks of a node's scope. A
-- nil slice reads as the empty one where the code treats both alike.
use vibefeld.Prelude.{
  ℕ, suc, ◌-◌, Bool, false, not, Option, none, some, List, [], ◌∷◌, Text, Map, lookup, insert,
  eq_text, ltb, if◌then◌else◌, Result, ok, err,
}
use vibefeld.Types.NodeId.{to_string}
use vibefeld.Schema.NodeType.{is_local_assume, is_local_discharge}
use vibefeld.Node.{Node}
use vibefeld.Scope.{Entry, is_active}

-- The map from the strings of the nodes to the entries; nil entries are skipped.
unfoldable pub entry_map : List (Option Entry) → Map Text Entry → Map Text Entry
entry_map [] m = m
entry_map (none ∷ es) m = entry_map es m
entry_map (some e ∷ es) m = entry_map es (insert m (to_string e.node_id) e)

-- The map of the active ones.
unfoldable pub active_map : List (Option Entry) → Map Text Entry → Map Text Entry
active_map [] m = m
active_map (none ∷ es) m = active_map es m
active_map (some e ∷ es) m =
    active_map es (if is_active e then insert m (to_string e.node_id) e else m)

-- `entry, exists := m[ref]; exists && entry.IsActive()`
abbrev pub holds_active : Map Text Entry → Text → Bool
holds_active m ref = elim (lookup m ref) [ none ↦ false | some e ↦ is_active e ]

unfoldable pub keep_active : Map Text Entry → List Text → List Text
keep_active m [] = []
keep_active m (ref ∷ refs) =
    let rest = keep_active m refs in if holds_active m ref then ref ∷ rest else rest

-- `InheritScope`
unfoldable pub inherit_scope : List Text → List (Option Entry) → List Text
unfolding entry_map keep_active
inherit_scope parent_scope entries = keep_active (entry_map entries []) parent_scope

pub data ScopeViolation : Type 0 where
  not_active : Text → ScopeViolation
  no_entry unclosed : ScopeViolation
  unmatched : ℕ → ScopeViolation

unfoldable pub check_references : Map Text Entry → List Text → Result ScopeViolation (Unit {0})
check_references m [] = ok tt
check_references m (ref ∷ refs) = elim (lookup m ref) [
  | none ↦ err (not_active ref)
  | some _ ↦ check_references m refs
]

-- `ValidateScope`; `none` is a nil node
unfoldable pub validate_scope : Option Node → List (Option Entry) → Result ScopeViolation (Unit {0})
unfolding active_map check_references
validate_scope none active_entries = ok tt
validate_scope (some n) active_entries = check_references (active_map active_entries []) n.scope

-- `ValidateScopeClosure`
unfoldable pub validate_scope_closure :
    Option Node → Option Entry → Result ScopeViolation (Unit {0})
validate_scope_closure none entry = ok tt
validate_scope_closure (some n) entry =
    if not (is_local_assume n.node_type)
    then ok tt
    else elim entry [ none ↦ err no_entry | some e ↦ if is_active e then err unclosed else ok tt ]

-- The loop of `ValidateScopeBalance`; the count never goes below 0.
unfoldable pub count_open : ℕ → List (Option Node) → ℕ
count_open open_count [] = open_count
count_open open_count (none ∷ ns) = count_open open_count ns
count_open open_count (some n ∷ ns) =
    count_open
      (if is_local_assume n.node_type
        then suc open_count
        else if is_local_discharge n.node_type
        then (if ltb 0 open_count then open_count - 1 else open_count)
        else open_count)
      ns

-- `ValidateScopeBalance`
unfoldable pub validate_scope_balance : List (Option Node) → Result ScopeViolation (Unit {0})
unfolding count_open
validate_scope_balance nodes =
    let open_count = count_open 0 nodes in
    if ltb 0 open_count then err (unmatched open_count) else ok tt
