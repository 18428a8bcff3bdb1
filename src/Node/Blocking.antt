-- ===== src/Node/Blocking.antt =====
-- internal/node/blocking.go: the nodes that wait for a definition, directly or through the nodes
-- that they depend on. A map whose values are all true is the list of its keys.
pub mod Reach
pub mod Dependents
pub mod Requests
pub mod Advance
pub mod Correct
use vibefeld.Prelude.{
  ℕ, zero, suc, ◌+◌, Bool, true, false, not, ◌||◌, Option, none, some, List, [], ◌∷◌, ◌++◌, Text,
  text_eq, if◌then◌else◌, length, any, Map, lookup, insert, eq_text,
}
use vibefeld.Types.NodeId.{NodeId, to_string}
use vibefeld.Node.Pending.{PendingDef, is_pending}

-- `GetBlockingDef`
unfoldable pub get_blocking_def : NodeId → List (Option PendingDef) → Option PendingDef
get_blocking_def id [] = none
get_blocking_def id (none ∷ pds) = get_blocking_def id pds
get_blocking_def id (some pd ∷ pds) =
    let rest = get_blocking_def id pds in
    if not (is_pending pd)
    then rest
    else if text_eq (to_string pd.requested_by) (to_string id)
    then some pd
    else rest

abbrev is_some {ℓ} : {A : Type ℓ} → Option A → Bool
is_some none = false
is_some (some _) = true

-- `IsBlocked`
unfoldable pub is_blocked : NodeId → List (Option PendingDef) → Bool
unfolding get_blocking_def
is_blocked id pds = is_some (get_blocking_def id pds)

requested_nodes : Text → List NodeId → List NodeId
requested_nodes requested_by [] = []
requested_nodes requested_by (id ∷ ids) =
    let rest = requested_nodes requested_by ids in
    if text_eq (to_string id) requested_by then id ∷ rest else rest

-- `GetBlockedNodes`
unfoldable pub get_blocked_nodes : Option PendingDef → List NodeId → List NodeId
unfolding requested_nodes
get_blocked_nodes none ids = []
get_blocked_nodes (some pd) ids =
    if not (is_pending pd) then [] else requested_nodes (to_string pd.requested_by) ids

would_resolve_loop : Text → List (Option PendingDef) → List NodeId
would_resolve_loop def_id [] = []
would_resolve_loop def_id (none ∷ pds) = would_resolve_loop def_id pds
would_resolve_loop def_id (some pd ∷ pds) =
    let rest = would_resolve_loop def_id pds in
    if not (is_pending pd)
    then rest
    else if text_eq pd.id def_id
    then pd.requested_by ∷ rest
    else rest

-- `WouldResolveBlocking`
unfoldable pub would_resolve_blocking : Text → List (Option PendingDef) → List NodeId
unfolding would_resolve_loop
would_resolve_blocking def_id pds = if text_eq def_id [] then [] else would_resolve_loop def_id pds

-- `blocked[k]`
abbrev pub is_key : List Text → Text → Bool
is_key blocked k = any (λ s. text_eq s k) blocked

-- The first pass of `ComputeBlockedSet`.
unfoldable pub mark_requested : List (Option PendingDef) → List Text → List Text
mark_requested [] blocked = blocked
mark_requested (none ∷ pds) blocked = mark_requested pds blocked
mark_requested (some pd ∷ pds) blocked =
    let rest = mark_requested pds in
    let s = to_string pd.requested_by in
    if not (is_pending pd) || is_key blocked s then rest blocked else rest (blocked ++ s ∷ [])

abbrev or_nil : Option (List Text) → List Text
or_nil none = []
or_nil (some ss) = ss

-- `dependents[s]`
unfoldable pub dependents_of : Map Text (List Text) → Text → List Text
dependents_of dependents s = or_nil (lookup dependents s)

-- The loop over the dependencies of one node.
unfoldable pub add_dependents : Text → List Text → Map Text (List Text) → Map Text (List Text)
unfolding dependents_of
add_dependents node [] dependents = dependents
add_dependents node (dep ∷ deps) dependents =
    add_dependents node deps (insert dependents dep (dependents_of dependents dep ++ node ∷ []))

-- The reverse dependency map.
unfoldable pub reverse_dependencies :
    Map Text (List Text) → Map Text (List Text) → Map Text (List Text)
unfolding add_dependents
reverse_dependencies [] dependents = dependents
reverse_dependencies ((node, deps) ∷ m) dependents =
    reverse_dependencies m (add_dependents node deps dependents)

-- The set of blocked nodes and the queue of those whose dependents are still to be looked at.
pub record Frontier : Type 0 where
  pub blocked : List Text
  pub queue : List Text

-- The loop over the dependents of a node.
unfoldable pub block_dependents : List Text → Frontier → Frontier
block_dependents [] f = f
block_dependents (dependent ∷ dependents) f =
    let rest = block_dependents dependents in
    if is_key f.blocked dependent
    then rest f
    else rest (record { blocked = f.blocked ++ dependent ∷ []; queue = f.queue ++ dependent ∷ [] })

-- The loop over the queue; `none` when the fuel is used up.
unfoldable pub propagate : Map Text (List Text) → ℕ → List Text → List Text → Option (List Text)
unfolding block_dependents dependents_of
propagate dependents fuel blocked [] = some blocked
propagate dependents zero blocked (current ∷ queue) = none
propagate dependents (suc fuel) blocked (current ∷ queue) =
    let f =
      block_dependents (dependents_of dependents current)
        (record { blocked = blocked; queue = queue }) in
    propagate dependents fuel f.blocked f.queue

-- `ComputeBlockedSet`. Each node is queued once, so there are at most as many rounds as nodes that
-- requested a definition and nodes with dependencies.
unfoldable pub compute_blocked_set :
    List (Option PendingDef) → Map Text (List Text) → Option (List Text)
unfolding mark_requested propagate reverse_dependencies
compute_blocked_set pds dependencies =
    let blocked = mark_requested pds [] in
    propagate (reverse_dependencies dependencies []) (length blocked + length dependencies) blocked
      blocked
