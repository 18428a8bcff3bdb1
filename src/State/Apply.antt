-- ===== src/State/Apply.antt =====
-- internal/state/apply.go: the decisions on a node, and what each event does to the state. The clock's
-- reading at `OpenScope` and `CloseScope`, SHA-256 and the sort are arguments.
use vibefeld.Prelude.{some, [], map, Text, eq_text, ok, err}
use vibefeld.Types.NodeId.{NodeId}
use vibefeld.Schema.Epistemic.{
  EpistemicState, validated, admitted, refuted, archived, needs_refinement,
  validate_epistemic_transition,
}
use vibefeld.Node.{Timestamp, compute_content_hash}
use vibefeld.Node.Challenge.{resolved, withdrawn, superseded}
use vibefeld.Taint.{Ptr, Sorter, compute_taint, set_taint, node_map, get_ancestors, propagate_taint}
use vibefeld.Scope.{open_scope, close_scope}
use vibefeld.Ledger.Event.{
  Event, AmendmentData, proof_initialized, node_created, nodes_claimed, nodes_released,
  challenge_raised, challenge_resolved, challenge_withdrawn, challenge_superseded, node_validated,
  node_admitted, node_refuted, node_archived, node_amended, taint_recomputed, def_added,
  lemma_extracted, lock_reaped, scope_opened, scope_closed, claim_refreshed, refinement_requested,
}
use vibefeld.State.{State, write, all_nodes, add_amendment}
use vibefeld.State.Handlers.{
  Outcome, apply_challenge_raised, apply_claim_refreshed, apply_def_added, apply_lemma_extracted,
  apply_node_created, apply_nodes_claimed, apply_nodes_released, apply_taint_recomputed,
  bad_epistemic_transition, set_challenge_status, set_node, set_tracker,
  supersede_open_challenges_for_node, unknown_event, with_node,
}

-- A change of the epistemic state, up to the assignment, and what follows.
unfoldable pub change_epistemic : State → NodeId → EpistemicState → (Ptr → State → State) → Outcome
unfolding write validate_epistemic_transition
change_epistemic s id target k = with_node s id (λ p.
    elim (validate_epistemic_transition (s.heap p).epistemic_state target) [
      | err e ↦ (s, err (bad_epistemic_transition id e))
      | ok _ ↦ (k p (set_node s p (record (s.heap p) { epistemic_state = target })), ok tt)
    ])

-- `applyRefinementRequested`
unfoldable pub apply_refinement_requested : State → NodeId → Outcome
unfolding change_epistemic
apply_refinement_requested s id = change_epistemic s id needs_refinement (λ p s'. s')

module _ (sha256_hex : Text → Text) where
  -- `applyNodeAmended`
  unfoldable pub apply_node_amended : State → Timestamp → AmendmentData → Outcome
  unfolding write add_amendment compute_content_hash
  apply_node_amended s at e = with_node s e.node_id (λ p.
      let s' =
        add_amendment e.node_id
          (record {
            timestamp = at;
            previous_statement = e.previous_statement;
            new_statement = e.new_statement;
            owner = e.owner;
          })
          s in
      let n = record (s.heap p) { statement = e.new_statement } in
      (set_node s' p (record n { content_hash = compute_content_hash sha256_hex n }), ok tt))

module _ (sorter : Sorter) where
  -- `recomputeTaintForNode`
  unfoldable pub recompute_taint_for_node : Ptr → State → State
  unfolding propagate_taint set_taint compute_taint node_map get_ancestors
  recompute_taint_for_node p s =
      let nodes = map some (all_nodes s) in
      let above = get_ancestors (s.heap p).id (node_map s.heap nodes []) in
      let h = set_taint s.heap p (compute_taint (s.heap p) (map s.heap above)) in
      record s { heap = (propagate_taint sorter h (some p) nodes).0 }

  -- `applyNodeValidated`
  unfoldable pub apply_node_validated : State → NodeId → Outcome
  unfolding change_epistemic recompute_taint_for_node
  apply_node_validated s id = change_epistemic s id validated recompute_taint_for_node

  -- `applyNodeAdmitted`
  unfoldable pub apply_node_admitted : State → NodeId → Outcome
  unfolding change_epistemic recompute_taint_for_node
  apply_node_admitted s id = change_epistemic s id admitted recompute_taint_for_node

  -- `applyNodeRefuted`
  unfoldable pub apply_node_refuted : State → NodeId → Outcome
  unfolding change_epistemic recompute_taint_for_node supersede_open_challenges_for_node
  apply_node_refuted s id =
      change_epistemic s id refuted
        (λ p s'. recompute_taint_for_node p (supersede_open_challenges_for_node s' id))

  -- `applyNodeArchived`
  unfoldable pub apply_node_archived : State → NodeId → Outcome
  unfolding change_epistemic recompute_taint_for_node supersede_open_challenges_for_node
  apply_node_archived s id =
      change_epistemic s id archived
        (λ p s'. recompute_taint_for_node p (supersede_open_challenges_for_node s' id))

-- `Apply`, of a state and an event that are there.
unfoldable pub apply : (Text → Text) → Sorter → Timestamp → State → Event → Outcome
unfolding apply_node_created apply_nodes_claimed apply_claim_refreshed apply_nodes_released
    apply_node_validated apply_node_admitted apply_node_refuted apply_node_archived
    apply_taint_recomputed apply_def_added apply_lemma_extracted apply_challenge_raised
    set_challenge_status apply_node_amended set_tracker apply_refinement_requested
apply sha256_hex sorter now s (proof_initialized at conjecture author) = (s, ok tt)
apply sha256_hex sorter now s (node_created at n) = apply_node_created s n
apply sha256_hex sorter now s (nodes_claimed at ids owner timeout) =
    apply_nodes_claimed ids owner timeout s
apply sha256_hex sorter now s (claim_refreshed at id owner new_timeout) =
    apply_claim_refreshed s id owner new_timeout
apply sha256_hex sorter now s (nodes_released at ids) = apply_nodes_released ids s
apply sha256_hex sorter now s (node_validated at id note) = apply_node_validated sorter s id
apply sha256_hex sorter now s (node_admitted at id) = apply_node_admitted sorter s id
apply sha256_hex sorter now s (node_refuted at id) = apply_node_refuted sorter s id
apply sha256_hex sorter now s (node_archived at id) = apply_node_archived sorter s id
apply sha256_hex sorter now s (taint_recomputed at id new_taint) =
    apply_taint_recomputed s id new_taint
apply sha256_hex sorter now s (def_added at d) = apply_def_added s d
apply sha256_hex sorter now s (lemma_extracted at l) = apply_lemma_extracted s l
apply sha256_hex sorter now s (challenge_raised at c) = apply_challenge_raised s at c
apply sha256_hex sorter now s (challenge_resolved at id) = set_challenge_status s id resolved
apply sha256_hex sorter now s (challenge_withdrawn at id) = set_challenge_status s id withdrawn
apply sha256_hex sorter now s (challenge_superseded at id _) = set_challenge_status s id superseded
apply sha256_hex sorter now s (node_amended at a) = apply_node_amended sha256_hex s at a
apply sha256_hex sorter now s (scope_opened at id statement) =
    set_tracker s (open_scope now id statement s.scope_tracker)
apply sha256_hex sorter now s (scope_closed at id _) =
    set_tracker s (close_scope now id s.scope_tracker)
apply sha256_hex sorter now s (refinement_requested at id _ _) = apply_refinement_requested s id
apply sha256_hex sorter now s (lock_reaped at id owner) = (s, err unknown_event)
