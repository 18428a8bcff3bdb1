-- ===== src/Jobs/Split.antt =====
-- How `FindJobs` divides the nodes between provers and verifiers (internal/jobs).
use mathlib.Core.List.{Memᴰ}
use vibefeld.Prelude.{
  ◌≡◌, ◌≢◌, ◌⊎◌, refl, true, false, List, [], ◌∷◌, arith, filter, mem-filter, subst,
}
use vibefeld.Schema.Epistemic.{pending, needs_refinement, same_state}
use vibefeld.Schema.Workflow.{available, blocked, same_workflow}
use vibefeld.Node.{Node}
use vibefeld.Taint.{Ptr, Heap}
use vibefeld.Jobs.{
  ChallengeMap, challenges_of, is_prover_job, is_verifier_job, find_prover_jobs, find_verifier_jobs,
  find_jobs,
}
use vibefeld.Jobs.Obstacles.{HasObstacle}

find_prover_jobs-filter :
    (h : Heap) (m : ChallengeMap) (ps : List Ptr)
    → find_prover_jobs h m ps ≡ filter (λ p. is_prover_job (h p) m) ps
unfolding find_prover_jobs
find_prover_jobs-filter h m [] = refl
find_prover_jobs-filter h m (p ∷ ps) = rw (find_prover_jobs-filter h m ps) refl

find_verifier_jobs-filter :
    (h : Heap) (m : ChallengeMap) (ps : List Ptr)
    → find_verifier_jobs h m ps ≡ filter (λ p. is_verifier_job (h p) m) ps
unfolding find_verifier_jobs
find_verifier_jobs-filter h m [] = refl
find_verifier_jobs-filter h m (p ∷ ps) = rw (find_verifier_jobs-filter h m ps) refl

not_both : (n : Node) (m : ChallengeMap) → is_prover_job n m ≡ true → is_verifier_job n m ≡ false
unfolding is_prover_job is_verifier_job same_workflow same_state
not_both n m e = ground arith

-- No node is a job for a prover and for a verifier at once.
pub find_jobs-disjoint :
    (h : Heap) (m : ChallengeMap) (nodes : List Ptr) (p : Ptr)
    → ¬ (Memᴰ p (find_jobs h m nodes).prover_jobs × Memᴰ p (find_jobs h m nodes).verifier_jobs)
unfolding find_jobs
find_jobs-disjoint h m nodes p (prover, verifier) =
    let (_, a) = mem-filter _ p nodes (subst (Memᴰ p) (find_prover_jobs-filter h m nodes) prover) in
    let (_, b) =
      mem-filter _ p nodes (subst (Memᴰ p) (find_verifier_jobs-filter h m nodes) verifier) in
    cc (b, not_both (h p) m a)

-- What the prover has to do: the node is not blocked, and it needs refinement or is pending with an
-- obstacle.
abbrev pub IsProverWork : Node → ChallengeMap → Type 0
IsProverWork n m =
    (n.workflow_state ≢ blocked)
    × ((n.epistemic_state ≡ needs_refinement)
        ⊎ ((n.epistemic_state ≡ pending) × HasObstacle (challenges_of n.id m)))

-- What the verifier has to do.
abbrev pub IsVerifierWork : Node → ChallengeMap → Type 0
IsVerifierWork n m =
    (n.statement ≢ [])
    × (n.workflow_state ≡ available)
    × (n.epistemic_state ≡ pending)
    × ¬ HasObstacle (challenges_of n.id m)
