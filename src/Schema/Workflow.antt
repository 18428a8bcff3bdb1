-- ===== src/Schema/Workflow.antt =====
-- internal/schema/workflow.go: the workflow states of a node and the transitions between them.
pub mod Transitions
use vibefeld.Prelude.{
  ◌≡◌, Bool, true, false, not, Option, none, some, Text, text_eq, codes, if◌then◌else◌, Result, ok,
  err, fail_if, ◌>>=◌, ◌>>◌,
}

-- `other` holds a string that is none of the constants.
pub data WorkflowState : Type 0 where
  available claimed blocked : WorkflowState
  other : Text → WorkflowState

pub record WorkflowStateInfo : Type 0 where
  pub id : WorkflowState
  pub description : Text

pub data WorkflowError : Type 0 where
  invalid_state : WorkflowState → WorkflowError
  same_state_transition not_allowed : WorkflowState → WorkflowState → WorkflowError

-- `s == t` on the strings.
unfoldable pub same_workflow : WorkflowState → WorkflowState → Bool
same_workflow available available = true
same_workflow claimed claimed = true
same_workflow blocked blocked = true
same_workflow (other s) (other t) = text_eq s t
same_workflow _ _ = false

-- `workflowStateRegistry`, and `GetWorkflowStateInfo` that reads it.
unfoldable pub get_workflow_state_info : WorkflowState → Option WorkflowStateInfo
get_workflow_state_info available =
    some (record { id = available; description = codes "Node is free for any agent to claim" })
get_workflow_state_info claimed =
    some (record { id = claimed; description = codes "Node is currently owned by an agent" })
get_workflow_state_info blocked = some (record {
  id = blocked;
  description = codes "Node cannot be worked on (e.g., awaiting dependency)";
})
get_workflow_state_info (other s) = none

-- `ValidateWorkflowState`
unfoldable pub validate_workflow_state : WorkflowState → Result WorkflowError (Unit {0})
unfolding get_workflow_state_info
validate_workflow_state s = elim (get_workflow_state_info s) [
  | none ↦ err (invalid_state s)
  | some _ ↦ ok tt
]

-- `workflowTransitions`: is `to` in the set that the table has for `from`?
unfoldable pub workflow_transitions : WorkflowState → WorkflowState → Bool
workflow_transitions available claimed = true
workflow_transitions claimed available = true
workflow_transitions claimed blocked = true
workflow_transitions blocked available = true
workflow_transitions _ _ = false

-- `ValidateWorkflowTransition`
unfoldable pub validate_workflow_transition :
    WorkflowState → WorkflowState → Result WorkflowError (Unit {0})
unfolding validate_workflow_state workflow_transitions same_workflow
validate_workflow_transition from to = do
  validate_workflow_state from
  validate_workflow_state to
  fail_if (same_workflow from to) (same_state_transition from to)
  fail_if (not (workflow_transitions from to)) (not_allowed from to)
  ok tt

-- `CanClaim`
unfoldable pub can_claim : WorkflowState → Bool
unfolding get_workflow_state_info same_workflow
can_claim s = elim (get_workflow_state_info s) [ none ↦ false | some _ ↦ same_workflow s available ]
