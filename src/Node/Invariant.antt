-- ===== src/Node/Invariant.antt =====
-- internal/node/validate_invariant.go: what holds of a validated node, its children and its challenges.
use vibefeld.Prelude.{
  Bool, true, false, not, ◌&&◌, Option, none, some, List, [], ◌∷◌, map, filter, Text, if◌then◌else◌,
  Result, ok, err, ◌>>◌,
}
use vibefeld.Types.NodeId.{NodeId}
use vibefeld.Schema.Epistemic.{validated, admitted, same_state}
use vibefeld.Node.{Node}
use vibefeld.Node.Challenge.{
  Challenge, ChallengeStatus, opened, resolved, withdrawn, superseded, other,
}

-- The children, or the challenges, that the message names.
pub data InvariantError : Type 0 where
  children_not_validated : List NodeId → InvariantError
  challenges_not_closed : List Text → InvariantError

-- `isAcceptableChallengeState`
unfoldable pub is_acceptable_challenge_state : ChallengeStatus → Bool
is_acceptable_challenge_state resolved = true
is_acceptable_challenge_state withdrawn = true
is_acceptable_challenge_state superseded = true
is_acceptable_challenge_state opened = false
is_acceptable_challenge_state (other s) = false

-- The test in the loop over the children.
unfoldable pub is_invalid_child : Node → Bool
unfolding same_state
is_invalid_child child =
    not (same_state child.epistemic_state validated)
    && not (same_state child.epistemic_state admitted)

-- The loop over the children.
unfoldable pub invalid_children : List Node → List Node
unfolding is_invalid_child
invalid_children children = filter is_invalid_child children

open_challenges : List Challenge → List Challenge
unfolding is_acceptable_challenge_state
open_challenges challenges = filter (λ c. not (is_acceptable_challenge_state c.status)) challenges

abbrev pub unless_any {ℓ} :
    {A : Type ℓ} → (List A → InvariantError) → List A → Result InvariantError (Unit {0})
unless_any e [] = ok tt
unless_any e (x ∷ xs) = err (e (x ∷ xs))

-- The challenges are checked where there is a function that gets them.
check_challenges : NodeId → Option (NodeId → List Challenge) → Result InvariantError (Unit {0})
unfolding open_challenges
check_challenges id none = ok tt
check_challenges id (some get_challenges) =
    unless_any (λ cs. challenges_not_closed (map (λ c. c.id) cs))
      (open_challenges (get_challenges id))

-- `CheckValidationInvariant`
unfoldable pub check_validation_invariant :
    Option Node
    → (NodeId → List Node)
    → Option (NodeId → List Challenge)
    → Result InvariantError (Unit {0})
unfolding invalid_children check_challenges same_state
check_validation_invariant none get_children get_challenges = ok tt
check_validation_invariant (some n) get_children get_challenges =
    if not (same_state n.epistemic_state validated)
    then ok tt
    else unless_any (λ cs. children_not_validated (map (λ c. c.id) cs))
        (invalid_children (get_children n.id))
      >> check_challenges n.id get_challenges
