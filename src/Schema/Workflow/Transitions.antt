-- ===== src/Schema/Workflow/Transitions.antt =====
-- The transitions of internal/schema/workflow.go as a relation.
use vibefeld.Prelude.{◌≡◌, ◌↔◌, refl, true, ok}
use vibefeld.Schema.Workflow.{
  WorkflowState, available, claimed, blocked, other, validate_workflow_transition, can_claim,
}

infix 40 ◌⟶◌ ◌⟶*◌
-- The documented transitions.
pub data ◌⟶◌ : WorkflowState → WorkflowState → Type 0 where
  claim : available ⟶ claimed
  release : claimed ⟶ available
  block : claimed ⟶ blocked
  unblock : blocked ⟶ available

pub data ◌⟶*◌ : WorkflowState → WorkflowState → Type 0 where
  here : {s : WorkflowState} → s ⟶* s
  next : {s t u : WorkflowState} → s ⟶ t → t ⟶* u → s ⟶* u

workflow-ok : {s t : WorkflowState} → s ⟶ t → validate_workflow_transition s t ≡ ok tt
unfolding validate_workflow_transition
workflow-ok claim = refl
workflow-ok release = refl
workflow-ok block = refl
workflow-ok unblock = refl

ok-workflow : (s t : WorkflowState) → validate_workflow_transition s t ≡ ok tt → s ⟶ t
unfolding validate_workflow_transition
ok-workflow available claimed h = claim
ok-workflow claimed available h = release
ok-workflow claimed blocked h = block
ok-workflow blocked available h = unblock
ok-workflow available available h = cc
ok-workflow claimed claimed h = cc
ok-workflow blocked blocked h = cc
ok-workflow (other s) available h = cc
ok-workflow _ _ h = cc

-- `ValidateWorkflowTransition` allows exactly the documented transitions.
pub workflow_transition_iff :
    (s t : WorkflowState) → (validate_workflow_transition s t ≡ ok tt) ↔ (s ⟶ t)
workflow_transition_iff s t = (ok-workflow s t, workflow-ok)

-- `CanClaim` says exactly that the transition to `claimed` is allowed.
pub can_claim_iff :
    (s : WorkflowState) → (can_claim s ≡ true) ↔ (validate_workflow_transition s claimed ≡ ok tt)
unfolding can_claim validate_workflow_transition
can_claim_iff available = (λ _. refl, λ _. refl)
can_claim_iff s = (λ h. cc, λ h. cc)
