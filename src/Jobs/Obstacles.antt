-- ===== src/Jobs/Obstacles.antt =====
-- What the tests of internal/jobs on a node and its challenges decide.
use mathlib.Core.List.{Memᴰ}
use vibefeld.Prelude.{
  ◌≡◌, ◌≢◌, ◌↔◌, refl, Bool, true, ◌&&◌, List, [], ◌∷◌, arith, any, Bool-cases, inl, inr, subst,
}
use vibefeld.Schema.Epistemic.{
  EpistemicState, pending, validated, admitted, refuted, archived, needs_refinement, same_state,
}
use vibefeld.Schema.Workflow.{WorkflowState, available, claimed, blocked, same_workflow}
use vibefeld.Schema.Severity.{
  ChallengeSeverity, critical, major, minor, note, get_challenge_severity_info,
  severity_blocks_acceptance,
}
use vibefeld.Node.Challenge.{
  Challenge, ChallengeStatus, opened, resolved, withdrawn, superseded, is_opened,
}
use vibefeld.Jobs.{blocks}

-- An open challenge of the list that is critical, major or of no known severity.
abbrev pub HasObstacle : List Challenge → Type 0
HasObstacle cs =
    (c : Challenge) × Memᴰ c cs × (c.status ≡ opened) × (c.severity ≢ minor) × (c.severity ≢ note)

pub opened_iff : (status : ChallengeStatus) → (is_opened status ≡ true) ↔ (status ≡ opened)
unfolding is_opened
opened_iff opened = (λ _. refl, λ _. refl)
opened_iff resolved = (λ h. absurd (cc), λ h. absurd (cc))
opened_iff withdrawn = (λ h. absurd (cc), λ h. absurd (cc))
opened_iff superseded = (λ h. absurd (cc), λ h. absurd (cc))
opened_iff (ChallengeStatus.other s) = (λ h. absurd (cc), λ h. absurd (cc))

pub severity_iff :
    (s : ChallengeSeverity) → (severity_blocks_acceptance s ≡ true) ↔ ((s ≢ minor) × (s ≢ note))
unfolding severity_blocks_acceptance get_challenge_severity_info
severity_iff critical = (λ _. (λ e. absurd (cc), λ e. absurd (cc)), λ _. refl)
severity_iff major = (λ _. (λ e. absurd (cc), λ e. absurd (cc)), λ _. refl)
severity_iff minor = (λ h. absurd (cc), λ h. absurd (h.0 refl))
severity_iff note = (λ h. absurd (cc), λ h. absurd (h.1 refl))
severity_iff (ChallengeSeverity.other s) = (λ _. (λ e. absurd (cc), λ e. absurd (cc)), λ _. refl)

pub any-blocks_iff : (cs : List Challenge) → (any blocks cs ≡ true) ↔ HasObstacle cs
any-blocks_iff [] = (λ h. absurd (cc), λ (_, here, _, _, _). elim here [ ])
any-blocks_iff (c ∷ cs) = (
  λ h. elim (Bool-cases (blocks c)) [
    | inl b ↦
        let (a, d) = both _ _ b in
        let (not_minor, not_note) = (severity_iff c.severity).0 d in
        (c, Memᴰ.head refl, (opened_iff c.status).0 a, not_minor, not_note)
    | inr nb ↦
        let (x, here, status, not_minor, not_note) = (any-blocks_iff cs).0 (rw nb at h) in
        (x, Memᴰ.tail here, status, not_minor, not_note)
  ],
  λ o. from_obstacle (any-blocks_iff cs).1 o,
)
  where
    both : (a b : Bool) → (a && b) ≡ true → (a ≡ true) × (b ≡ true)
    both a b h = ground arith

    from_obstacle :
        (HasObstacle cs → any blocks cs ≡ true) → HasObstacle (c ∷ cs) → any blocks (c ∷ cs) ≡ true
    from_obstacle ih (x, Memᴰ.head e, status, not_minor, not_note) =
        let a = (opened_iff x.status).1 status in
        let b = (severity_iff x.severity).1 (not_minor, not_note) in
        let blocked_by : blocks x ≡ true = ground arith in
        rw (subst (λ y. blocks y ≡ true) e blocked_by) refl
    from_obstacle ih (x, Memᴰ.tail here, status, not_minor, not_note) =
        let later = ih (x, here, status, not_minor, not_note) in ground arith

pub available_iff : (w : WorkflowState) → (same_workflow w available ≡ true) ↔ (w ≡ available)
unfolding same_workflow
available_iff available = (λ _. refl, λ _. refl)
available_iff claimed = (λ h. absurd (cc), λ h. absurd (cc))
available_iff blocked = (λ h. absurd (cc), λ h. absurd (cc))
available_iff (WorkflowState.other s) = (λ h. absurd (cc), λ h. absurd (cc))

pub blocked_iff : (w : WorkflowState) → (same_workflow w blocked ≡ true) ↔ (w ≡ blocked)
unfolding same_workflow
blocked_iff available = (λ h. absurd (cc), λ h. absurd (cc))
blocked_iff claimed = (λ h. absurd (cc), λ h. absurd (cc))
blocked_iff blocked = (λ _. refl, λ _. refl)
blocked_iff (WorkflowState.other s) = (λ h. absurd (cc), λ h. absurd (cc))

pub pending_iff : (es : EpistemicState) → (same_state es pending ≡ true) ↔ (es ≡ pending)
unfolding same_state
pending_iff pending = (λ _. refl, λ _. refl)
pending_iff validated = (λ h. absurd (cc), λ h. absurd (cc))
pending_iff admitted = (λ h. absurd (cc), λ h. absurd (cc))
pending_iff refuted = (λ h. absurd (cc), λ h. absurd (cc))
pending_iff archived = (λ h. absurd (cc), λ h. absurd (cc))
pending_iff needs_refinement = (λ h. absurd (cc), λ h. absurd (cc))
pending_iff (EpistemicState.other s) = (λ h. absurd (cc), λ h. absurd (cc))

pub needs_refinement_iff :
    (es : EpistemicState) → (same_state es needs_refinement ≡ true) ↔ (es ≡ needs_refinement)
unfolding same_state
needs_refinement_iff pending = (λ h. absurd (cc), λ h. absurd (cc))
needs_refinement_iff validated = (λ h. absurd (cc), λ h. absurd (cc))
needs_refinement_iff admitted = (λ h. absurd (cc), λ h. absurd (cc))
needs_refinement_iff refuted = (λ h. absurd (cc), λ h. absurd (cc))
needs_refinement_iff archived = (λ h. absurd (cc), λ h. absurd (cc))
needs_refinement_iff needs_refinement = (λ _. refl, λ _. refl)
needs_refinement_iff (EpistemicState.other s) = (λ h. absurd (cc), λ h. absurd (cc))
