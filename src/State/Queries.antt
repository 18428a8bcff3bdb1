-- ===== src/State/Queries.antt =====
-- internal/state/state.go: the questions that are asked of the state.
use vibefeld.Prelude.{
  Bool, false, not, ◌&&◌, ◌||◌, none, some, List, [], ◌∷◌, map, Text, text_eq, ltb, length, filter,
  any, all, Map, eq_text,
}
use vibefeld.Types.NodeId.{NodeId, to_string, parent}
use vibefeld.Schema.Epistemic.{validated, needs_refinement, same_state}
use vibefeld.Schema.Severity.{ChallengeSeverity, severity_blocks_acceptance}
use vibefeld.Node.{Node}
use vibefeld.Node.Challenge.{is_opened, Challenge as JobChallenge}
use vibefeld.Taint.{Ptr}
use vibefeld.Schema.Severity
use vibefeld.Schema.Target
use vibefeld.State.{
  State, Challenge, all_nodes, all_challenges, challenges_by_node_id, get_challenges_for_node,
  deref,
}

-- `OpenChallenges`
unfoldable pub open_challenges : State → List Challenge
unfolding is_opened
open_challenges s = filter (λ c. is_opened c.status) (all_challenges s)

-- The test of `GetBlockingChallengesForNode`.
abbrev pub is_blocking : Challenge → Bool
is_blocking c = is_opened c.status && severity_blocks_acceptance c.severity

-- `GetBlockingChallengesForNode`
unfoldable pub get_blocking_challenges_for_node : State → NodeId → State × List Challenge
unfolding get_challenges_for_node deref
get_blocking_challenges_for_node s node_id =
    let (s', keys) = get_challenges_for_node s node_id in
    (s', filter is_blocking (deref s'.challenges keys))

-- `HasBlockingChallenges`
unfoldable pub has_blocking_challenges : State → NodeId → Bool
unfolding get_blocking_challenges_for_node
has_blocking_challenges s node_id = ltb 0 (length (get_blocking_challenges_for_node s node_id).1)

-- `VerifierRaisedChallengeForNode`
unfoldable pub verifier_raised_challenge_for_node : State → NodeId → Text → Bool
unfolding get_challenges_for_node deref
verifier_raised_challenge_for_node s node_id agent_id =
    let (s', keys) = get_challenges_for_node s node_id in
    any (λ c. text_eq c.raised_by agent_id) (deref s'.challenges keys)

-- The conversion in `ChallengeMapForJobs`: id, node and status are set, the rest is zero.
unfoldable pub challenge_for_jobs : Challenge → JobChallenge
challenge_for_jobs c = record {
  id = c.id;
  target_id = c.node_id;
  target = Target.other [];
  reason = [];
  severity = Severity.other [];
  raised = 0;
  resolved_at = 0;
  resolution = [];
  status = c.status;
}

unfoldable pub convert_all :
    Map Text Challenge → Map Text (List Text) → Map Text (List JobChallenge)
unfolding deref challenge_for_jobs
convert_all m [] = []
convert_all m ((k, keys) ∷ rest) = (k, map challenge_for_jobs (deref m keys)) ∷ convert_all m rest

-- `ChallengeMapForJobs`
unfoldable pub challenge_map_for_jobs : State → State × Map Text (List JobChallenge)
unfolding convert_all challenges_by_node_id
challenge_map_for_jobs s =
    let (s', cache) = challenges_by_node_id s in (s', convert_all s'.challenges cache)

-- Is the node a direct child of the one with the string `parent_str`?
is_child_of : Text → Node → Bool
is_child_of parent_str n = elim (parent n.id) [
  | none ↦ false
  | some p ↦ text_eq (to_string p) parent_str
]

-- `AllChildrenValidated`
unfoldable pub all_children_validated : State → NodeId → Bool
unfolding is_child_of same_state
all_children_validated s parent_id =
    all
      (λ p.
        not (is_child_of (to_string parent_id) (s.heap p))
        || same_state (s.heap p).epistemic_state validated)
      (all_nodes s)

-- `GetNodesNeedingRefinement`
unfoldable pub get_nodes_needing_refinement : State → List Ptr
unfolding same_state
get_nodes_needing_refinement s =
    filter (λ p. same_state (s.heap p).epistemic_state needs_refinement) (all_nodes s)
