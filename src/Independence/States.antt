-- ===== src/Independence/States.antt =====
-- What the tests of internal/lemma/independence.go on the states of a node decide.
use vibefeld.Prelude.{◌≡◌, refl, ◌↔◌, ◌⊎◌, inl, inr, true, Bool-cases, arith}
use vibefeld.Schema.Epistemic.{
  EpistemicState, pending, validated, admitted, refuted, archived, needs_refinement, other,
  same_state,
}
use vibefeld.Node.{TaintState, clean, self_admitted, tainted, unresolved}
use vibefeld.Taint.{same_taint}
use vibefeld.Independence.{is_valid_for_lemma_extraction}

pub validated_iff : (es : EpistemicState) → (same_state es validated ≡ true) ↔ (es ≡ validated)
unfolding same_state
validated_iff pending = (λ h. absurd (cc), λ h. absurd (cc))
validated_iff validated = (λ _. refl, λ _. refl)
validated_iff admitted = (λ h. absurd (cc), λ h. absurd (cc))
validated_iff refuted = (λ h. absurd (cc), λ h. absurd (cc))
validated_iff archived = (λ h. absurd (cc), λ h. absurd (cc))
validated_iff needs_refinement = (λ h. absurd (cc), λ h. absurd (cc))
validated_iff (other s) = (λ h. absurd (cc), λ h. absurd (cc))

pub admitted_iff : (es : EpistemicState) → (same_state es admitted ≡ true) ↔ (es ≡ admitted)
unfolding same_state
admitted_iff pending = (λ h. absurd (cc), λ h. absurd (cc))
admitted_iff validated = (λ h. absurd (cc), λ h. absurd (cc))
admitted_iff admitted = (λ _. refl, λ _. refl)
admitted_iff refuted = (λ h. absurd (cc), λ h. absurd (cc))
admitted_iff archived = (λ h. absurd (cc), λ h. absurd (cc))
admitted_iff needs_refinement = (λ h. absurd (cc), λ h. absurd (cc))
admitted_iff (other s) = (λ h. absurd (cc), λ h. absurd (cc))

pub extractable_iff :
    (es : EpistemicState)
    → (is_valid_for_lemma_extraction es ≡ true) ↔ ((es ≡ validated) ⊎ (es ≡ admitted))
unfolding is_valid_for_lemma_extraction
extractable_iff es = (
  λ h. elim (Bool-cases (same_state es validated)) [
    | inl v ↦ inl ((validated_iff es).0 v)
    | inr nv ↦ inr ((admitted_iff es).0 (ground (arith, h, nv)))
  ],
  λ u. elim u [
    | inl e ↦ let v = (validated_iff es).1 e in ground arith
    | inr e ↦ let v = (admitted_iff es).1 e in ground arith
  ],
)

pub clean_iff : (t : TaintState) → (same_taint t clean ≡ true) ↔ (t ≡ clean)
unfolding same_taint
clean_iff clean = (λ _. refl, λ _. refl)
clean_iff self_admitted = (λ h. absurd (cc), λ h. absurd (cc))
clean_iff tainted = (λ h. absurd (cc), λ h. absurd (cc))
clean_iff unresolved = (λ h. absurd (cc), λ h. absurd (cc))
clean_iff (TaintState.other s) = (λ h. absurd (cc), λ h. absurd (cc))
