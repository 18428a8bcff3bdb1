-- ===== src/State/Claims.antt =====
-- The claiming of nodes (internal/state/apply.go, applyNodesClaimed).
use vibefeld.Prelude.{
  Result-cases, ◌≡◌, refl, sym, ◌∙◌, ap, subst, some, List, [], ◌∷◌, Text, eq_text, All, ok, err,
  Bool-cases, Option-cases, inl, inr, ◌⊎◌, ◌==◌, ==_iff,
}
use vibefeld.Types.NodeId.{NodeId}
use vibefeld.Schema.Workflow.{WorkflowState, available, claimed, validate_workflow_transition}
use vibefeld.Schema.Workflow.Transitions
use vibefeld.Schema.Workflow.Transitions.{workflow_transition_iff, ◌⟶◌}
use vibefeld.Node.{Node, Timestamp}
use vibefeld.Taint.{Ptr}
use vibefeld.State.{State, write, get_node}
use vibefeld.State.Handlers.{
  ApplyError, node_not_found, bad_workflow_transition, Outcome, set_node, with_node,
  apply_nodes_claimed,
}

step_to-claimed : {s t : WorkflowState} → s ⟶ t → t ≡ claimed → s ≡ available
step_to-claimed Transitions.claim e = refl
step_to-claimed Transitions.release e = absurd (cc)
step_to-claimed Transitions.block e = absurd (cc)
step_to-claimed Transitions.unblock e = absurd (cc)

from_available :
    (w : WorkflowState) → validate_workflow_transition w claimed ≡ ok tt → w ≡ available
from_available w h = step_to-claimed ((workflow_transition_iff w claimed).0 h) refl

module _ (owner : Text) (timeout : Timestamp) where
  -- The node is claimed by the owner until the timeout.
  abbrev pub IsHeld : Node → Type 0
  IsHeld n = (n.workflow_state ≡ claimed) × (n.claimed_by ≡ owner) × (n.claimed_at ≡ timeout)

  abbrev hold : Node → Node
  hold n = record n { workflow_state = claimed; claimed_by = owner; claimed_at = timeout }

  -- Either the loop stops at this node and leaves the state, or it holds the node and goes on.
  claim-cases :
      (id : NodeId) (ids : List NodeId) (s : State)
      → ((e : ApplyError) × (apply_nodes_claimed (id ∷ ids) owner timeout s ≡ (s, err e)))
        ⊎ ((p : Ptr) × (get_node s id ≡ some p)
            × ((s.heap p).workflow_state ≡ available)
            × (apply_nodes_claimed (id ∷ ids) owner timeout s
                ≡ apply_nodes_claimed ids owner timeout (set_node s p (hold (s.heap p)))))
  unfolding apply_nodes_claimed
  claim-cases id ids s = elim (Option-cases (get_node s id)) [
    | inl missing ↦ inl (node_not_found id, rw (missing, with_node) refl)
    | inr (p, found) ↦
        elim (Result-cases (validate_workflow_transition (s.heap p).workflow_state claimed)) [
          | inl (e, bad) ↦ inl (
            bad_workflow_transition id e,
            rw (found, with_node) (rw (bad, apply_nodes_claimed) refl),
          )
          | inr (_, good) ↦ inr (
            p,
            found,
            from_available _ good,
            rw (found, with_node) (rw (good, apply_nodes_claimed) refl),
          )
        ]
  ]

  write-IsHeld :
      (s : State) (q p : Ptr) → IsHeld (s.heap p) → IsHeld ((set_node s q (hold (s.heap q))).heap p)
  unfolding write
  write-IsHeld s q p held = elim (Bool-cases (p == q)) [
    | inl e ↦ rw (e, write) (refl, refl, refl)
    | inr e ↦ rw (e, write) held
  ]

  claimed-keeps :
      (ids : List NodeId) (s : State) (p : Ptr)
      → IsHeld (s.heap p)
      → IsHeld ((apply_nodes_claimed ids owner timeout s).0.heap p)
  unfolding apply_nodes_claimed
  claimed-keeps [] s p held = held
  claimed-keeps (id ∷ ids) s p held = elim (claim-cases id ids s) [
    | inl (e, stop) ↦ subst (λ (o : Outcome). IsHeld (o.0.heap p)) (sym stop) held
    | inr (q, _, _, go) ↦
        subst (λ (o : Outcome). IsHeld (o.0.heap p)) (sym go)
          (claimed-keeps ids (set_node s q (hold (s.heap q))) p (write-IsHeld s q p held))
  ]

  -- The node with the identifier was available in `s` and is held in `t`.
  abbrev pub WasClaimed : State → State → NodeId → Type 0
  WasClaimed s t id =
      (p : Ptr) × (get_node s id ≡ some p)
      × ((s.heap p).workflow_state ≡ available)
      × IsHeld (t.heap p)

  available_before :
      (s : State) (q p : Ptr)
      → ((set_node s q (hold (s.heap q))).heap p).workflow_state ≡ available
      → (s.heap p).workflow_state ≡ available
  unfolding write
  available_before s q p h = elim (Bool-cases (p == q)) [
    | inl e ↦ absurd (cc (rw (e, write) at h))
    | inr e ↦ rw (e, write) at h
  ]

  earlier :
      (s t : State) (q : Ptr) (ids : List NodeId)
      → All (λ id. WasClaimed (set_node s q (hold (s.heap q))) t id) ids
      → All (λ id. WasClaimed s t id) ids
  earlier s t q [] all = tt
  earlier s t q (id ∷ ids) ((p, found, free, held), rest) =
      ((p, found, available_before s q p free, held), earlier s t q ids rest)

  write-IsHeld_self : (s : State) (p : Ptr) → IsHeld ((set_node s p (hold (s.heap p))).heap p)
  unfolding write
  write-IsHeld_self s p = rw ((==_iff p p).1 refl, write) (refl, refl, refl)

  -- When the claiming of nodes succeeds, each of them was available, and each is claimed by the owner
  -- until the timeout.
  pub apply_nodes_claimed-WasClaimed :
      (ids : List NodeId) (s : State)
      → (apply_nodes_claimed ids owner timeout s).1 ≡ ok tt
      → All (λ id. WasClaimed s (apply_nodes_claimed ids owner timeout s).0 id) ids
  apply_nodes_claimed-WasClaimed [] s good = tt
  apply_nodes_claimed-WasClaimed (id ∷ ids) s good = elim (claim-cases id ids s) [
    | inl (e, stop) ↦ absurd (cc (good, ap (λ (o : Outcome). o.1) stop))
    | inr (p, found, free, go) ↦
        let s1 = set_node s p (hold (s.heap p)) in
        let t = (apply_nodes_claimed ids owner timeout s1).0 in
        let good1 = sym (ap (λ (o : Outcome). o.1) go) ∙ good in
        subst (λ (o : Outcome). All (λ i. WasClaimed s o.0 i) (id ∷ ids)) (sym go)
          (
            (p, found, free, claimed-keeps ids s1 p (write-IsHeld_self s p)),
            earlier s t p ids (apply_nodes_claimed-WasClaimed ids s1 good1),
          )
  ]
