-- ===== src/Scope.antt =====
-- internal/scope: the assumption scopes of a proof. The clock's reading is an argument. The mutex of
-- the tracker makes each operation one step.
pub mod Validate
pub mod Containing
pub mod Balance
pub mod Inherit
use vibefeld.Prelude.{
  ℕ, zero, suc, Bool, true, false, not, ◌&&◌, Option, none, some, List, [], ◌∷◌, map, Text, text_eq,
  ltb, if◌then◌else◌, length, filter, Map, lookup, insert, values, eq_text, Result, ok, err,
  fail_if, ◌>>=◌, ◌>>◌,
}
use vibefeld.Text.{is_blank}
use vibefeld.Types.NodeId.{NodeId, to_string, is_ancestor_of, depth}
use vibefeld.Node.{Timestamp}

pub record Entry : Type 0 where
  pub node_id : NodeId
  pub statement : Text
  pub introduced : Timestamp
  pub discharged : Option Timestamp

pub data ScopeError : Type 0 where
  invalid_node_id blank_statement already_discharged scope_exists no_scope : ScopeError

-- `NewEntry`
unfoldable pub new_entry : Timestamp → NodeId → Text → Result ScopeError Entry
new_entry now node_id statement = do
  fail_if (text_eq (to_string node_id) []) invalid_node_id
  fail_if (is_blank statement) blank_statement
  ok (record { node_id = node_id; statement = statement; introduced = now; discharged = none })

-- `IsActive`
abbrev pub is_active : Entry → Bool
is_active e = elim e.discharged [ none ↦ true | some _ ↦ false ]

-- `Discharge`
unfoldable pub discharge : Timestamp → Entry → Result ScopeError Entry
discharge now e = do
  fail_if (not (is_active e)) already_discharged
  ok (record e { discharged = some now })

-- `Tracker`: the entries by the strings of their nodes.
abbrev pub Tracker : Type 0
Tracker = Map Text Entry

-- `NewTracker`
abbrev pub new_tracker : Tracker
new_tracker = []

abbrev is_some {ℓ} : {A : Type ℓ} → Option A → Bool
is_some none = false
is_some (some _) = true

-- `OpenScope`
unfoldable pub open_scope : Timestamp → NodeId → Text → Tracker → Result ScopeError Tracker
unfolding new_entry
open_scope now node_id statement t = do
  fail_if (text_eq (to_string node_id) []) invalid_node_id
  fail_if (is_some (lookup t (to_string node_id))) scope_exists
  entry ← new_entry now node_id statement
  ok (insert t (to_string node_id) entry)

-- `CloseScope`
unfoldable pub close_scope : Timestamp → NodeId → Tracker → Result ScopeError Tracker
unfolding discharge
close_scope now node_id t = elim (lookup t (to_string node_id)) [
  | none ↦ err no_scope
  | some entry ↦ (do closed ← discharge now entry; ok (insert t (to_string node_id) closed))
]

-- `GetScope`
abbrev pub get_scope : NodeId → Tracker → Option Entry
get_scope node_id t = lookup t (to_string node_id)

-- `AllScopes`
abbrev pub all_scopes : Tracker → List Entry
all_scopes t = values t

-- `GetActiveEntries`; a nil entry is skipped
unfoldable pub get_active_entries : List (Option Entry) → List Entry
get_active_entries [] = []
get_active_entries (none ∷ es) = get_active_entries es
get_active_entries (some e ∷ es) =
    let rest = get_active_entries es in if is_active e then e ∷ rest else rest

-- `GetActiveScopes`
unfoldable pub get_active_scopes : Tracker → List Entry
unfolding get_active_entries
get_active_scopes t = get_active_entries (map some (all_scopes t))

-- `IsInScope`
abbrev pub is_in_scope : NodeId → NodeId → Bool
is_in_scope node_id scope_node_id = is_ancestor_of scope_node_id node_id

-- The inner loop of the sort: the entry at `i` is exchanged with each entry behind it that is nearer
-- to the root.
unfoldable pub exchange : Entry → List Entry → Entry × List Entry
exchange x [] = (x, [])
exchange x (y ∷ ys) =
    let swap = ltb (depth y.node_id) (depth x.node_id) in
    let (least, rest) = exchange (if swap then y else x) ys in
    (least, (if swap then x else y) ∷ rest)

-- The outer loop, with as many rounds as there are entries.
unfoldable pub sort_rounds : ℕ → List Entry → List Entry
unfolding exchange
sort_rounds zero es = es
sort_rounds (suc n) [] = []
sort_rounds (suc n) (x ∷ xs) = let (least, rest) = exchange x xs in least ∷ sort_rounds n rest

-- `GetContainingScopes`
unfoldable pub get_containing_scopes : NodeId → Tracker → List Entry
unfolding sort_rounds
get_containing_scopes node_id t =
    let result = filter (λ e. is_active e && is_ancestor_of e.node_id node_id) (all_scopes t) in
    sort_rounds (length result) result

-- `GetScopeDepth`
abbrev pub get_scope_depth : NodeId → Tracker → ℕ
get_scope_depth node_id t = length (get_containing_scopes node_id t)

pub record ScopeInfo : Type 0 where
  pub depth : ℕ
  pub containing_scopes : List Entry

-- `GetScopeInfo`
unfoldable pub get_scope_info : NodeId → Tracker → ScopeInfo
get_scope_info node_id t =
    let scopes = get_containing_scopes node_id t in
    record { depth = length scopes; containing_scopes = scopes }

-- `IsInAnyScope`
abbrev pub is_in_any_scope : ScopeInfo → Bool
is_in_any_scope s = ltb 0 s.depth
