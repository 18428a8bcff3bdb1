-- ===== src/Schema/Epistemic.antt =====
-- internal/schema/epistemic.go: the epistemic states of a node and the transitions between them.
pub mod Transitions
use vibefeld.Prelude.{
  ◌≡◌, refl, Bool, true, false, ◌||◌, not, Option, none, some, List, [], ◌∷◌, Text, text_eq, codes,
  any, if◌then◌else◌, Result, ok, err, fail_if, ◌>>=◌, ◌>>◌,
}

-- `other` holds a string that is none of the constants.
pub data EpistemicState : Type 0 where
  pending validated admitted refuted archived needs_refinement : EpistemicState
  other : Text → EpistemicState

pub record EpistemicStateInfo : Type 0 where
  pub id : EpistemicState
  pub description : Text
  pub is_final : Bool
  pub introduces_taint : Bool

-- `s == t` on the strings.
unfoldable pub same_state : EpistemicState → EpistemicState → Bool
same_state pending pending = true
same_state validated validated = true
same_state admitted admitted = true
same_state refuted refuted = true
same_state archived archived = true
same_state needs_refinement needs_refinement = true
same_state (other s) (other t) = text_eq s t
same_state _ _ = false

-- `epistemicStateRegistry`, and `GetEpistemicStateInfo` that reads it.
unfoldable pub get_epistemic_state_info : EpistemicState → Option EpistemicStateInfo
get_epistemic_state_info pending = some (record {
  id = pending;
  description = codes "Awaiting verification";
  is_final = false;
  introduces_taint = false;
})
get_epistemic_state_info validated = some (record {
  id = validated;
  description = codes "Verified correct by verifier";
  is_final = true;
  introduces_taint = false;
})
get_epistemic_state_info admitted = some (record {
  id = admitted;
  description = codes "Accepted without full verification (introduces taint)";
  is_final = true;
  introduces_taint = true;
})
get_epistemic_state_info refuted = some (record {
  id = refuted;
  description = codes "Proven incorrect";
  is_final = true;
  introduces_taint = false;
})
get_epistemic_state_info archived = some (record {
  id = archived;
  description = codes "No longer relevant (branch abandoned)";
  is_final = true;
  introduces_taint = false;
})
get_epistemic_state_info needs_refinement = some (record {
  id = needs_refinement;
  description = codes "Validated node reopened for refinement";
  is_final = false;
  introduces_taint = false;
})
get_epistemic_state_info (other s) = none

pub data EpistemicError : Type 0 where
  invalid_state : EpistemicState → EpistemicError
  terminal_state : EpistemicState → EpistemicState → EpistemicError
  invalid_transition : EpistemicState → EpistemicState → EpistemicError

-- `ValidateEpistemicState`
unfoldable pub validate_epistemic_state : EpistemicState → Result EpistemicError (Unit {0})
unfolding get_epistemic_state_info
validate_epistemic_state s = elim (get_epistemic_state_info s) [
  | none ↦ err (invalid_state s)
  | some _ ↦ ok tt
]

-- The table `validTransitions`.
unfoldable pub valid_transitions : EpistemicState → Option (List EpistemicState)
valid_transitions pending = some (validated ∷ admitted ∷ refuted ∷ archived ∷ [])
valid_transitions validated = some (needs_refinement ∷ [])
valid_transitions needs_refinement = some (validated ∷ admitted ∷ refuted ∷ archived ∷ [])
valid_transitions _ = none

-- `ValidateEpistemicTransition`
unfoldable pub validate_epistemic_transition :
    EpistemicState → EpistemicState → Result EpistemicError (Unit {0})
unfolding validate_epistemic_state valid_transitions same_state
validate_epistemic_transition from to = do
  validate_epistemic_state from
  validate_epistemic_state to
  elim (valid_transitions from) [
    | none ↦ err (terminal_state from to)
    | some targets ↦ if any (same_state to) targets then ok tt else err (invalid_transition from to)
  ]

-- `IsFinal`
unfoldable pub is_final : EpistemicState → Bool
unfolding get_epistemic_state_info
is_final s = elim (get_epistemic_state_info s) [ none ↦ false | some info ↦ info.is_final ]

-- `IntroducesTaint`
unfoldable pub introduces_taint : EpistemicState → Bool
unfolding get_epistemic_state_info
introduces_taint s = elim (get_epistemic_state_info s) [
  | none ↦ false
  | some info ↦ info.introduces_taint
]
