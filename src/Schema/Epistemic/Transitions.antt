-- ===== src/Schema/Epistemic/Transitions.antt =====
-- The transitions of internal/schema/epistemic.go as a relation, and what can follow what.
use vibefeld.Prelude.{◌≡◌, ◌↔◌, ◌⊎◌, refl, true, ok, arith}
use vibefeld.Schema.Epistemic.{
  EpistemicState, pending, validated, admitted, refuted, archived, needs_refinement, other,
  validate_epistemic_transition, is_final,
}

-- A state that a verifier has still to decide.
pub data IsOpen : EpistemicState → Type 0 where
  new : IsOpen pending
  reopened : IsOpen needs_refinement

-- A verifier's decision.
pub data IsDecision : EpistemicState → Type 0 where
  accept : IsDecision validated
  admit : IsDecision admitted
  refute : IsDecision refuted
  archive : IsDecision archived

infix 40 ◌⟶◌ ◌⟶*◌
-- The documented transitions: an open node is decided, a validated node is reopened.
pub data ◌⟶◌ : EpistemicState → EpistemicState → Type 0 where
  decide : {s t : EpistemicState} → IsOpen s → IsDecision t → s ⟶ t
  reopen : validated ⟶ needs_refinement

pub data ◌⟶*◌ : EpistemicState → EpistemicState → Type 0 where
  here : {s : EpistemicState} → s ⟶* s
  next : {s t u : EpistemicState} → s ⟶ t → t ⟶* u → s ⟶* u

ruleset steps = (decide, reopen, new, reopened, accept, admit, refute, archive)

transition-ok : {s t : EpistemicState} → s ⟶ t → validate_epistemic_transition s t ≡ ok tt
unfolding validate_epistemic_transition
transition-ok (decide new accept) = refl
transition-ok (decide new admit) = refl
transition-ok (decide new refute) = refl
transition-ok (decide new archive) = refl
transition-ok (decide reopened accept) = refl
transition-ok (decide reopened admit) = refl
transition-ok (decide reopened refute) = refl
transition-ok (decide reopened archive) = refl
transition-ok reopen = refl

ok-transition : (s t : EpistemicState) → validate_epistemic_transition s t ≡ ok tt → s ⟶ t
unfolding validate_epistemic_transition
ok-transition pending validated h = search steps
ok-transition pending admitted h = search steps
ok-transition pending refuted h = search steps
ok-transition pending archived h = search steps
ok-transition needs_refinement validated h = search steps
ok-transition needs_refinement admitted h = search steps
ok-transition needs_refinement refuted h = search steps
ok-transition needs_refinement archived h = search steps
ok-transition validated needs_refinement h = search steps
ok-transition admitted validated h = cc
ok-transition refuted validated h = cc
ok-transition archived validated h = cc
ok-transition _ _ h = cc

-- `ValidateEpistemicTransition` allows exactly these transitions: from pending and from needs_refinement
-- to validated, admitted, refuted and archived, and from validated to needs_refinement.
pub transition_iff : (s t : EpistemicState) → (validate_epistemic_transition s t ≡ ok tt) ↔ (s ⟶ t)
transition_iff s t = (ok-transition s t, transition-ok)

dead_end : {s t : EpistemicState} → s ⟶ t → (s ≡ admitted) ⊎ (s ≡ refuted) ⊎ (s ≡ archived) → ⊥
dead_end (decide new d) h = ground arith
dead_end (decide reopened d) h = ground arith
dead_end reopen h = ground arith

-- From an admitted, refuted or archived state nothing else is ever reached.
pub terminal_absorbs :
    (s t : EpistemicState) → (s ≡ admitted) ⊎ (s ≡ refuted) ⊎ (s ≡ archived) → s ⟶* t → t ≡ s
terminal_absorbs s t h here = refl
terminal_absorbs s t h (next step rest) = absurd (dead_end step h)

-- Among the final states `validated` alone has a transition out of it.
pub is_final_with_exit :
    (s : EpistemicState)
    → is_final s ≡ true
    → ((t : EpistemicState) × (validate_epistemic_transition s t ≡ ok tt)) ↔ (s ≡ validated)
unfolding is_final validate_epistemic_transition
is_final_with_exit validated h = (λ _. refl, λ _. (needs_refinement, refl))
is_final_with_exit pending h = cc
is_final_with_exit needs_refinement h = cc
is_final_with_exit (other x) h = cc
is_final_with_exit s h = (λ (t, e). absurd (dead_end (ok-transition s t e) (ground arith)), λ e. cc)
