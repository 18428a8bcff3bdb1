-- ===== src/Schema/Target.antt =====
-- internal/schema/target.go: what of a node a challenge is about.
use vibefeld.Prelude.{
  Option, none, some, List, [], ◌∷◌, Text, text_eq, codes, if◌then◌else◌, Result, ok, err, fail_if,
  ◌>>=◌, ◌>>◌,
}
use vibefeld.Text.{split, trim_space}

-- `other` holds a string that is none of the constants.
pub data ChallengeTarget : Type 0 where
  on_statement on_inference on_context on_dependencies on_scope : ChallengeTarget
  on_gap on_type_error on_domain on_completeness : ChallengeTarget
  other : Text → ChallengeTarget

pub record ChallengeTargetInfo : Type 0 where
  pub id : ChallengeTarget
  pub description : Text

-- `challengeTargetRegistry`, and `GetChallengeTargetInfo` that reads it.
unfoldable pub get_challenge_target_info : ChallengeTarget → Option ChallengeTargetInfo
get_challenge_target_info on_statement =
    some (record { id = on_statement; description = codes "The claim text itself is disputed" })
get_challenge_target_info on_inference =
    some (record { id = on_inference; description = codes "The inference type is inappropriate" })
get_challenge_target_info on_context =
    some
      (record { id = on_context; description = codes "Referenced definitions are wrong/missing" })
get_challenge_target_info on_dependencies =
    some (record { id = on_dependencies; description = codes "Node dependencies are incorrect" })
get_challenge_target_info on_scope =
    some (record { id = on_scope; description = codes "Scope/local assumption issues" })
get_challenge_target_info on_gap =
    some (record { id = on_gap; description = codes "Logical gap in reasoning" })
get_challenge_target_info on_type_error =
    some
      (record { id = on_type_error; description = codes "Type mismatch in mathematical objects" })
get_challenge_target_info on_domain =
    some (record { id = on_domain; description = codes "Domain restriction violation" })
get_challenge_target_info on_completeness =
    some
      (record { id = on_completeness; description = codes "Missing cases or incomplete argument" })
get_challenge_target_info (other s) = none

-- `ChallengeTarget(s)`
unfoldable pub challenge_target : Text → ChallengeTarget
challenge_target s =
    if text_eq s (codes "statement")
    then on_statement
    else if text_eq s (codes "inference")
    then on_inference
    else if text_eq s (codes "context")
    then on_context
    else if text_eq s (codes "dependencies")
    then on_dependencies
    else if text_eq s (codes "scope")
    then on_scope
    else if text_eq s (codes "gap")
    then on_gap
    else if text_eq s (codes "type_error")
    then on_type_error
    else if text_eq s (codes "domain")
    then on_domain
    else if text_eq s (codes "completeness")
    then on_completeness
    else other s

pub data TargetError : Type 0 where
  invalid_target : Text → TargetError
  no_targets empty_target : TargetError

-- `ValidateChallengeTarget`
unfoldable pub validate_challenge_target : Text → Result TargetError (Unit {0})
unfolding get_challenge_target_info challenge_target
validate_challenge_target s = elim (get_challenge_target_info (challenge_target s)) [
  | none ↦ err (invalid_target s)
  | some _ ↦ ok tt
]

unfoldable pub validate_all : List Text → Result TargetError (Unit {0})
unfolding validate_challenge_target
validate_all [] = ok tt
validate_all (t ∷ ts) = do validate_challenge_target t; validate_all ts

-- `ValidateChallengeTargets`
unfoldable pub validate_challenge_targets : List Text → Result TargetError (Unit {0})
unfolding validate_all
validate_challenge_targets [] = err no_targets
validate_challenge_targets (t ∷ ts) = validate_all (t ∷ ts)

-- The loop of `ParseChallengeTargets`.
unfoldable pub parse_segments : List Text → Result TargetError (List ChallengeTarget)
unfolding validate_challenge_target challenge_target
parse_segments [] = ok []
parse_segments (part ∷ parts) = do
  let trimmed = trim_space part
  fail_if (text_eq trimmed []) empty_target
  validate_challenge_target trimmed
  rest ← parse_segments parts
  ok (challenge_target trimmed ∷ rest)

abbrev not_none : List ChallengeTarget → Result TargetError (List ChallengeTarget)
not_none [] = err no_targets
not_none (t ∷ ts) = ok (t ∷ ts)

-- `ParseChallengeTargets`
unfoldable pub parse_challenge_targets : Text → Result TargetError (List ChallengeTarget)
unfolding parse_segments
parse_challenge_targets csv = do
  fail_if (text_eq csv []) no_targets
  result ← parse_segments (split b',' csv)
  not_none result
