-- ===== src/Service/Refine.antt =====
-- internal/service/proof.go: the checks of CreateNode, Refine and RefineNodeBulk, and AllocateChildID.
use vibefeld.Prelude.{
  ltb, ℕ, zero, suc, ◌+◌, Bool, true, false, not, Option, none, some, List, [], ◌∷◌, Text, text_eq,
  length, Result, ok, err, fail_if, ◌>>=◌, ◌>>◌,
}
use vibefeld.Text.{pos, is_blank}
use vibefeld.Types.NodeId.{NodeId, IdError, parent, child, depth}
use vibefeld.Schema.Workflow.{claimed, same_workflow}
use vibefeld.Schema.NodeType.{NodeType}
use vibefeld.Schema.Inference.{InferenceType}
use vibefeld.Node.{NodeOptions, Timestamp, new_node, new_node_with_options}
use vibefeld.Cycle.{CycleResult, would_create_cycle}
use vibefeld.Ledger.Event.{Event, node_created}
use vibefeld.State.{State, get_node}
use vibefeld.Citations.{validate_ext_citations}
use vibefeld.Service.{
  not_initialized, exceeds, ServiceError, Load, Planned, Configured, already_exists,
  parent_not_found, not_claimed, owner_mismatch, empty_input, max_children_exceeded,
  invalid_dependency, circular_dependency, external_not_found, invalid_node_id, bad_node, map_error,
  found_or, is_none, validate_depth, validate_child_count, children_of, state_dependency_provider,
}

pub record RefineSpec : Type 0 where
  pub parent_id : NodeId
  pub owner : Text
  pub child_id : NodeId
  pub node_type : NodeType
  pub statement : Text
  pub inference : InferenceType
  pub dependencies : List NodeId
  pub validation_deps : List NodeId

pub record ChildSpec : Type 0 where
  pub node_type : NodeType
  pub statement : Text
  pub inference : InferenceType

abbrev pub check_parent_children :
    Configured → State → Option NodeId → Result ServiceError (Unit {0})
check_parent_children cfg st none = ok tt
check_parent_children cfg st (some parent_id) = validate_child_count cfg st parent_id

-- What the search for a cycle answers; `none` stands for a search that does not end.
abbrev pub finds_cycle : Option CycleResult → Bool
finds_cycle none = false
finds_cycle (some r) = r.has_cycle

-- The two loops of `Refine` over the dependencies.
unfoldable pub check_dependencies : State → NodeId → List NodeId → Result ServiceError (Unit {0})
check_dependencies st parent_id [] = ok tt
check_dependencies st parent_id (dep ∷ deps) =
    let rest = check_dependencies st parent_id deps in
    let result = would_create_cycle (state_dependency_provider st) parent_id dep in
    fail_if (is_none (get_node st dep)) invalid_dependency
    >> fail_if (finds_cycle result) circular_dependency
    >> rest

-- The parent of a refinement is there, and claimed by the owner.
unfoldable pub check_claim : State → NodeId → Text → Result ServiceError (Unit {0})
unfolding same_workflow
check_claim st parent_id owner = do
  n ← found_or parent_not_found st parent_id
  fail_if (not (same_workflow (st.heap n).workflow_state claimed)) not_claimed
  fail_if (not (text_eq (st.heap n).claimed_by owner)) owner_mismatch
  ok tt

-- `isInitialized`, from what the ledger's Count gives.
abbrev pub is_initialized : Result ServiceError ℕ → Result ServiceError Bool
is_initialized counted = do count ← counted; ok (ltb 0 count)

module _ (sha256_hex : Text → Text) (cfg : Configured) (now : Timestamp) where
  -- `CreateNode`
  unfoldable pub create_node :
      Result ServiceError ℕ → NodeId → NodeType → Text → InferenceType → Load → Planned Event
  create_node counted id node_type statement inference load = do
    init ← is_initialized counted
    fail_if (not init) not_initialized
    validate_depth cfg (depth id)
    st ← load
    fail_if (not (is_none (get_node st id))) already_exists
    check_parent_children cfg st (parent id)
    n ← map_error bad_node (new_node sha256_hex now id node_type statement inference)
    ok (node_created now n, st.latest_seq)

  abbrev options_of : RefineSpec → NodeOptions
  options_of spec = record {
    latex = [];
    context = [];
    dependencies = spec.dependencies;
    validation_deps = spec.validation_deps;
    scope = [];
  }

  -- `Refine`
  unfoldable pub refine : RefineSpec → Load → Planned Event
  unfolding check_dependencies check_claim
  refine spec load = do
    validate_depth cfg (depth spec.child_id)
    st ← load
    check_claim st spec.parent_id spec.owner
    fail_if (not (is_none (get_node st spec.child_id))) already_exists
    validate_child_count cfg st spec.parent_id
    fail_if (not (is_none (validate_ext_citations spec.statement st))) external_not_found
    check_dependencies st spec.parent_id spec.dependencies
    check_dependencies st spec.parent_id spec.validation_deps
    n ← map_error bad_node (
        new_node_with_options sha256_hex now spec.child_id spec.node_type spec.statement
          spec.inference (options_of spec))
    ok (node_created now n, st.latest_seq)

  -- The search for a free child number, from a number on.
  unfoldable pub free_child_from : ℕ → State → NodeId → ℕ → Option ℕ
  free_child_from zero st parent_id num = none
  free_child_from (suc fuel) st parent_id num = elim (child parent_id (pos num)) [
    | err e ↦ none
    | ok id ↦ elim (get_node st id) [
      | none ↦ some num
      | some _ ↦ free_child_from fuel st parent_id (suc num)
    ]
  ]

  -- Of as many children as there are nodes and one more, one is free.
  abbrev pub child_fuel : State → ℕ
  child_fuel st = suc (length st.nodes)

  -- `AllocateChildID`; `none` stands for a search that does not end.
  unfoldable pub allocate_child_id : NodeId → Load → Result ServiceError (Option NodeId)
  unfolding free_child_from
  allocate_child_id parent_id load = do
    st ← load
    found_or parent_not_found st parent_id
    ok (elim (free_child_from (child_fuel st) st parent_id 1) [
      | none ↦ none
      | some num ↦ elim (child parent_id (pos num)) [ err _ ↦ none | ok id ↦ some id ]
    ])

  -- The loop of `RefineNodeBulk` over the children.
  unfoldable pub bulk_events :
      State → NodeId → ℕ → List ChildSpec → Result ServiceError (List Event)
  bulk_events st parent_id num [] = ok []
  bulk_events st parent_id num (spec ∷ specs) =
      let rest = bulk_events st parent_id (suc num) specs in
      do
        fail_if (is_blank spec.statement) empty_input
        fail_if (not (is_none (validate_ext_citations spec.statement st))) external_not_found
        id ← map_error (λ (_ : IdError). invalid_node_id) (child parent_id (pos num))
        n ←
            map_error bad_node
              (new_node sha256_hex now id spec.node_type spec.statement spec.inference)
        events ← rest
        ok (node_created now n ∷ events)

  abbrev no_children : List ChildSpec → Bool
  no_children [] = true
  no_children (_ ∷ _) = false

  -- `RefineNodeBulk`: the events of the children.
  unfoldable pub refine_node_bulk : NodeId → Text → List ChildSpec → Load → Planned (List Event)
  unfolding free_child_from bulk_events children_of check_claim
  refine_node_bulk parent_id owner specs load = do
    fail_if (no_children specs) empty_input
    validate_depth cfg (suc (depth parent_id))
    st ← load
    check_claim st parent_id owner
    limits ← cfg
    fail_if (exceeds (length (children_of st parent_id) + length specs) limits.max_children)
        max_children_exceeded
    events ← elim (free_child_from (child_fuel st) st parent_id 1) [
      | none ↦ err invalid_node_id
      | some num ↦ bulk_events st parent_id num specs
    ]
    ok (events, st.latest_seq)
