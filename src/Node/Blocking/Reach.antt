-- ===== src/Node/Blocking/Reach.antt =====
-- What it means that a node is blocked, for internal/node/blocking.go.
use vibefeld.Prelude.{◌≡◌, true, Option, some, List, Text, Map}
use mathlib.Core.List.{Memᴰ}
use vibefeld.Types.NodeId.{to_string}
use vibefeld.Node.Pending.{PendingDef, is_pending}

-- Some pending definition was requested by the node.
abbrev pub Requested : List (Option PendingDef) → Text → Type 0
Requested pds s =
    (pd : PendingDef) × Memᴰ (some pd) pds
    × (is_pending pd ≡ true)
    × (s ≡ to_string pd.requested_by)

-- An entry of the map lists `dep` among the dependencies of `node`.
abbrev pub DependsOn : Map Text (List Text) → Text → Text → Type 0
DependsOn dependencies node dep =
    (deps : List Text) × Memᴰ (node, deps) dependencies × Memᴰ dep deps

-- The node requested a pending definition, or it depends on a blocked node.
pub data Blocked (pds : List (Option PendingDef)) (dependencies : Map Text (List Text))
    : Text → Type 0 where
  requested : {s : Text} → Requested pds s → Blocked pds dependencies s
  depends :
      {node dep : Text}
      → DependsOn dependencies node dep
      → Blocked pds dependencies dep
      → Blocked pds dependencies node
