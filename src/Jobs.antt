-- ===== src/Jobs.antt =====
-- internal/jobs: which nodes need a prover and which a verifier. Nodes are pointers into the heap, none
-- of them nil; a nil challenge map reads as the empty one.
pub mod Obstacles
pub mod Split
pub mod Severities
use vibefeld.Prelude.{
  ℕ, ◌+◌, ◌≡◌, Bool, true, false, not, ◌&&◌, Option, none, some, List, [], ◌∷◌, Text, text_eq, ◌==◌,
  if◌then◌else◌, length, any, filter, Map, lookup, eq_text,
}
use vibefeld.Types.NodeId.{NodeId, to_string}
use vibefeld.Schema.Epistemic.{EpistemicState, pending, needs_refinement, same_state}
use vibefeld.Schema.Workflow.{WorkflowState, available, blocked, same_workflow}
use vibefeld.Schema.Severity.{ChallengeSeverity, severity_blocks_acceptance}
use vibefeld.Node.{Node}
use vibefeld.Node.Challenge.{Challenge, is_opened}
use vibefeld.Taint.{Ptr, Heap}

-- `map[string][]*node.Challenge`
abbrev pub ChallengeMap : Type 0
ChallengeMap = Map Text (List Challenge)

-- `challengeMap[n.ID.String()]`
abbrev pub challenges_of : NodeId → ChallengeMap → List Challenge
challenges_of id m = elim (lookup m (to_string id)) [ none ↦ [] | some cs ↦ cs ]

-- The test of the loop in `hasBlockingChallenges`.
abbrev pub blocks : Challenge → Bool
blocks c = is_opened c.status && severity_blocks_acceptance c.severity

-- `hasOpenChallenges`
unfoldable pub has_open_challenges : Node → ChallengeMap → Bool
unfolding is_opened
has_open_challenges n m = any (λ c. is_opened c.status) (challenges_of n.id m)

-- `hasBlockingChallenges`
unfoldable pub has_blocking_challenges : Node → ChallengeMap → Bool
unfolding is_opened severity_blocks_acceptance
has_blocking_challenges n m = any blocks (challenges_of n.id m)

-- `isProverJob`
unfoldable pub is_prover_job : Node → ChallengeMap → Bool
unfolding has_blocking_challenges same_workflow same_state
is_prover_job n m =
    if same_workflow n.workflow_state blocked
    then false
    else if same_state n.epistemic_state needs_refinement
    then true
    else if not (same_state n.epistemic_state pending)
    then false
    else has_blocking_challenges n m

-- `isVerifierJob`
unfoldable pub is_verifier_job : Node → ChallengeMap → Bool
unfolding has_blocking_challenges same_workflow same_state
is_verifier_job n m =
    if text_eq n.statement []
    then false
    else if not (same_workflow n.workflow_state available)
    then false
    else if not (same_state n.epistemic_state pending)
    then false
    else not (has_blocking_challenges n m)

-- `FindProverJobs`
unfoldable pub find_prover_jobs : Heap → ChallengeMap → List Ptr → List Ptr
unfolding is_prover_job
find_prover_jobs h m [] = []
find_prover_jobs h m (p ∷ ps) =
    let rest = find_prover_jobs h m ps in if is_prover_job (h p) m then p ∷ rest else rest

-- `FindVerifierJobs`
unfoldable pub find_verifier_jobs : Heap → ChallengeMap → List Ptr → List Ptr
unfolding is_verifier_job
find_verifier_jobs h m [] = []
find_verifier_jobs h m (p ∷ ps) =
    let rest = find_verifier_jobs h m ps in if is_verifier_job (h p) m then p ∷ rest else rest

pub record JobResult : Type 0 where
  pub prover_jobs : List Ptr
  pub verifier_jobs : List Ptr

-- `FindJobs`
unfoldable pub find_jobs : Heap → ChallengeMap → List Ptr → JobResult
unfolding find_prover_jobs find_verifier_jobs
find_jobs h m nodes = record {
  prover_jobs = find_prover_jobs h m nodes;
  verifier_jobs = find_verifier_jobs h m nodes;
}

-- `IsEmpty`
unfoldable pub is_empty : JobResult → Bool
is_empty r = (length r.prover_jobs == 0) && (length r.verifier_jobs == 0)

-- `TotalCount`
unfoldable pub total_count : JobResult → ℕ
total_count r = length r.prover_jobs + length r.verifier_jobs
