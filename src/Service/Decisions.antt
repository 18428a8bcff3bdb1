-- ===== src/Service/Decisions.antt =====
-- internal/service/proof.go: the checks of AcceptNodeWithNote, AcceptNodeBulk, AdmitNode, RefuteNode,
-- ArchiveNode, RequestRefinement and AmendNode.
use vibefeld.Prelude.{
  Bool, false, not, ◌&&◌, ◌||◌, none, some, List, [], ◌∷◌, map, Text, text_eq, ltb, length, any,
  Result, ok, fail_if, ◌>>=◌, ◌>>◌,
}
use vibefeld.Text.{is_blank}
use vibefeld.Types.NodeId.{NodeId}
use vibefeld.Schema.Epistemic.{
  EpistemicState, pending, validated, admitted, refuted, archived, needs_refinement, same_state,
  validate_epistemic_transition,
}
use vibefeld.Schema.Workflow.{claimed, same_workflow}
use vibefeld.Node.{Timestamp}
use vibefeld.Taint.{Ptr}
use vibefeld.Ledger.Event.{
  Event, node_validated, node_admitted, node_refuted, node_archived, node_amended,
  refinement_requested,
}
use vibefeld.State.{State, get_node}
use vibefeld.State.Queries.{get_blocking_challenges_for_node}
use vibefeld.Service.{
  ServiceError, Load, Planned, empty_input, owner_mismatch, node_not_found, blocking_challenges,
  unvalidated_deps, unvalidated_children, no_refinement_children, not_pending, bad_transition,
  map_error, found_or, children_of,
}

-- Validated, or admitted, which counts as validated.
abbrev pub is_accepted : EpistemicState → Bool
is_accepted e = same_state e validated || same_state e admitted

-- A dependency that is there and accepted.
abbrev pub is_accepted_dep : State → NodeId → Bool
is_accepted_dep st dep = elim (get_node st dep) [
  | none ↦ false
  | some p ↦ is_accepted (st.heap p).epistemic_state
]

abbrev pub has_blocking : State → NodeId → Bool
has_blocking st id = ltb 0 (length (get_blocking_challenges_for_node st id).1)

-- `ValidateEpistemicTransition` of a node.
abbrev pub check_transition : State → Ptr → EpistemicState → Result ServiceError (Unit {0})
check_transition st n target =
    map_error bad_transition (validate_epistemic_transition (st.heap n).epistemic_state target)

-- `AcceptNodeWithNote`
unfoldable pub accept_node_with_note : Timestamp → NodeId → Text → Load → Planned Event
unfolding same_state children_of get_blocking_challenges_for_node
accept_node_with_note now id note load = do
  st ← load
  n ← found_or node_not_found st id
  fail_if (has_blocking st id) blocking_challenges
  fail_if (any (λ dep. not (is_accepted_dep st dep)) (st.heap n).validation_deps) unvalidated_deps
  let children = children_of st id
  fail_if (any (λ p. not (is_accepted (st.heap p).epistemic_state)) children) unvalidated_children
  fail_if (same_state (st.heap n).epistemic_state needs_refinement && not (ltb 0 (length children)))
      no_refinement_children
  check_transition st n validated
  ok (node_validated now id note, st.latest_seq)

-- The loop of `AcceptNodeBulk` over the nodes.
unfoldable pub check_bulk : State → List NodeId → Result ServiceError (Unit {0})
unfolding get_blocking_challenges_for_node
check_bulk st [] = ok tt
check_bulk st (id ∷ ids) =
    let rest = check_bulk st ids in
    found_or node_not_found st id >>= λ n.
    fail_if (has_blocking st id) blocking_challenges >> check_transition st n validated >> rest

-- `AcceptNodeBulk`: the events of the nodes, none for no nodes.
unfoldable pub accept_node_bulk : Timestamp → List NodeId → Load → Planned (List Event)
unfolding check_bulk
accept_node_bulk now [] load = ok ([], 0)
accept_node_bulk now (id ∷ ids) load = do
  st ← load
  check_bulk st (id ∷ ids)
  ok (map (λ i. node_validated now i []) (id ∷ ids), st.latest_seq)

-- What AdmitNode, RefuteNode and ArchiveNode share.
abbrev pub decide : EpistemicState → Event → NodeId → Load → Planned Event
decide target event id load = do
  st ← load
  n ← found_or node_not_found st id
  check_transition st n target
  ok (event, st.latest_seq)

-- `AdmitNode`
unfoldable pub admit_node : Timestamp → NodeId → Load → Planned Event
admit_node now id load = decide admitted (node_admitted now id) id load

-- `RefuteNode`
unfoldable pub refute_node : Timestamp → NodeId → Load → Planned Event
refute_node now id load = decide refuted (node_refuted now id) id load

-- `ArchiveNode`
unfoldable pub archive_node : Timestamp → NodeId → Load → Planned Event
archive_node now id load = decide archived (node_archived now id) id load

-- `RequestRefinement`
unfoldable pub request_refinement : Timestamp → NodeId → Text → Text → Load → Planned Event
request_refinement now id reason requested_by load =
    decide needs_refinement (refinement_requested now id reason requested_by) id load

-- `AmendNode`
unfoldable pub amend_node : Timestamp → NodeId → Text → Text → Load → Planned Event
unfolding same_state same_workflow
amend_node now id owner new_statement load = do
  fail_if (is_blank owner) empty_input
  fail_if (is_blank new_statement) empty_input
  st ← load
  n ← found_or node_not_found st id
  fail_if (not (same_state (st.heap n).epistemic_state pending)) not_pending
  fail_if
      (same_workflow (st.heap n).workflow_state claimed
        && not (text_eq (st.heap n).claimed_by owner))
      owner_mismatch
  ok (
    node_amended now (record {
      node_id = id;
      previous_statement = (st.heap n).statement;
      new_statement = new_statement;
      owner = owner;
    }),
    st.latest_seq,
  )
