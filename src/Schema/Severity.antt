-- ===== src/Schema/Severity.antt =====
-- internal/schema/severity.go: the severities of a challenge.
use vibefeld.Prelude.{
  Bool, true, false, Option, none, some, [], Text, text_eq, codes, Result, ok, err,
}

-- `other` holds a string that is none of the constants; the empty string is `other []`.
pub data ChallengeSeverity : Type 0 where
  critical major minor note : ChallengeSeverity
  other : Text → ChallengeSeverity

pub record ChallengeSeverityInfo : Type 0 where
  pub id : ChallengeSeverity
  pub description : Text
  pub blocks_acceptance : Bool

-- `challengeSeverityRegistry`, and `GetChallengeSeverityInfo` that reads it.
unfoldable pub get_challenge_severity_info : ChallengeSeverity → Option ChallengeSeverityInfo
get_challenge_severity_info critical = some (record {
  id = critical;
  description = codes "Fundamental error that must be fixed";
  blocks_acceptance = true;
})
get_challenge_severity_info major = some (record {
  id = major;
  description = codes "Significant issue that should be addressed";
  blocks_acceptance = true;
})
get_challenge_severity_info minor = some (record {
  id = minor;
  description = codes "Minor issue that could be improved";
  blocks_acceptance = false;
})
get_challenge_severity_info note = some (record {
  id = note;
  description = codes "Clarification request or suggestion";
  blocks_acceptance = false;
})
get_challenge_severity_info (other s) = none

-- `ValidateChallengeSeverity`, with the rejected severity as its error
unfoldable pub validate_challenge_severity : ChallengeSeverity → Result ChallengeSeverity (Unit {0})
unfolding get_challenge_severity_info
validate_challenge_severity s = elim (get_challenge_severity_info s) [
  | none ↦ err s
  | some _ ↦ ok tt
]

-- `SeverityBlocksAcceptance`: an unknown severity blocks.
unfoldable pub severity_blocks_acceptance : ChallengeSeverity → Bool
unfolding get_challenge_severity_info
severity_blocks_acceptance s = elim (get_challenge_severity_info s) [
  | none ↦ true
  | some info ↦ info.blocks_acceptance
]

-- `DefaultChallengeSeverity`
abbrev pub default_challenge_severity : ChallengeSeverity
default_challenge_severity = major

-- The test `severity == ""`.
unfoldable pub is_unset : ChallengeSeverity → Bool
is_unset (other s) = text_eq s []
is_unset _ = false
