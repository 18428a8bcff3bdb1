-- ===== src/Tests/Scopes.antt =====
-- Examples for the scopes and the claims.
use mathlib.Core.List.{Permᴰ}
use vibefeld.Prelude.{
  ◌≡◌, ◌↔◌, refl, Option, none, some, List, [], ◌∷◌, codes, ◌&&◌, filter, ok, All, lookup, eq_text,
}
use vibefeld.Types.NodeId.{to_string, is_ancestor_of}
use vibefeld.Schema.NodeType.{local_assume, local_discharge}
use vibefeld.Schema.Workflow.{validate_workflow_transition}
use vibefeld.Schema.Epistemic.{pending}
use vibefeld.Node.{Node, unresolved}
use vibefeld.Scope.{Entry, Tracker, is_active, all_scopes, get_containing_scopes}
use vibefeld.Scope.Containing.{IsOutermostFirst, get_containing_scopes-IsOutermostFirst}
use vibefeld.Scope.Validate.{validate_scope_balance}
use vibefeld.Scope.Balance.{IsCovered, validate_scope_balance_iff}
use vibefeld.State.Handlers.{apply_nodes_claimed}
use vibefeld.State.Claims.{WasClaimed, apply_nodes_claimed-WasClaimed}
use vibefeld.Tests.Sample.{id1, id11, id111, sample_node, sample_state}

abbrev outer : Entry
outer = record { node_id = id1; statement = codes "let x"; introduced = 1; discharged = none }

abbrev inner : Entry
inner = record { node_id = id11; statement = codes "let y"; introduced = 2; discharged = none }

abbrev two_scopes : Tracker
two_scopes = (codes "1.1", inner) ∷ (codes "1", outer) ∷ []

get_containing_scopes-IsOutermostFirst_example :
    Permᴰ
      (filter (λ e. is_active e && is_ancestor_of e.node_id id111) (all_scopes two_scopes))
      (get_containing_scopes id111 two_scopes)
    × IsOutermostFirst (get_containing_scopes id111 two_scopes)
get_containing_scopes-IsOutermostFirst_example =
    get_containing_scopes-IsOutermostFirst id111 two_scopes

abbrev balanced_nodes : List (Option Node)
balanced_nodes =
    some (record (sample_node id1 pending unresolved) { node_type = local_assume })
    ∷ none
    ∷ some (record (sample_node id11 pending unresolved) { node_type = local_discharge })
    ∷ []

validate_scope_balance_iff_example :
    (validate_scope_balance balanced_nodes ≡ ok tt) ↔ IsCovered balanced_nodes
validate_scope_balance_iff_example = validate_scope_balance_iff balanced_nodes

abbrev scoped_node : Node
scoped_node = record (sample_node id111 pending unresolved) { scope = codes "1" ∷ [] }

apply_nodes_claimed-WasClaimed_example :
    All
      (WasClaimed
        (codes "me")
        9
        sample_state
        (apply_nodes_claimed (id1 ∷ id11 ∷ []) (codes "me") 9 sample_state).0)
      (id1 ∷ id11 ∷ [])
unfolding apply_nodes_claimed lookup to_string validate_workflow_transition
apply_nodes_claimed-WasClaimed_example =
    apply_nodes_claimed-WasClaimed (codes "me") 9 (id1 ∷ id11 ∷ []) sample_state refl
