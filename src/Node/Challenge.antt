-- ===== src/Node/Challenge.antt =====
-- internal/node/challenge.go and the status constants: a challenge as the node package has it.
use vibefeld.Prelude.{
  [], Bool, true, false, Text, Result, ok, err, fail_if, ◌>>◌, not, Option, none, some,
}
use vibefeld.Text.{is_blank}
use vibefeld.Types.NodeId.{NodeId}
use vibefeld.Schema.Severity.{ChallengeSeverity, default_challenge_severity}
use vibefeld.Schema.Target.{ChallengeTarget, get_challenge_target_info}
use vibefeld.Node.{Timestamp}

-- `opened` is the status "open"; `other` holds a string that is none of the constants.
pub data ChallengeStatus : Type 0 where
  opened resolved withdrawn superseded : ChallengeStatus
  other : Text → ChallengeStatus

-- `status == ChallengeStatusOpen`
unfoldable pub is_opened : ChallengeStatus → Bool
is_opened opened = true
is_opened _ = false

pub record Challenge : Type 0 where
  pub id : Text
  pub target_id : NodeId
  pub target : ChallengeTarget
  pub reason : Text
  pub severity : ChallengeSeverity
  pub raised : Timestamp
  pub resolved_at : Timestamp
  pub resolution : Text
  pub status : ChallengeStatus

pub data ChallengeError : Type 0 where
  nil_challenge empty_resolution not_open : ChallengeError
  empty_id empty_reason bad_target : ChallengeError

-- `NewChallenge`
unfoldable pub new_challenge :
    Timestamp → Text → NodeId → ChallengeTarget → Text → Result ChallengeError Challenge
unfolding get_challenge_target_info
new_challenge now id target_id target reason = do
  fail_if (is_blank id) empty_id
  fail_if (is_blank reason) empty_reason
  elim (get_challenge_target_info target) [
    | none ↦ err bad_target
    | some _ ↦ ok (record {
      id = id;
      target_id = target_id;
      target = target;
      reason = reason;
      severity = default_challenge_severity;
      raised = now;
      resolved_at = 0;
      resolution = [];
      status = opened;
    })
  ]

-- `IsOpen`
unfoldable pub is_open : Option Challenge → Bool
unfolding is_opened
is_open none = false
is_open (some c) = is_opened c.status

-- `Resolve`
unfoldable pub resolve : Timestamp → Text → Option Challenge → Result ChallengeError Challenge
unfolding is_open
resolve now resolution none = err nil_challenge
resolve now resolution (some c) = do
  fail_if (is_blank resolution) empty_resolution
  fail_if (not (is_open (some c))) not_open
  ok (record c { status = resolved; resolution = resolution; resolved_at = now })

-- `Withdraw`
unfoldable pub withdraw : Timestamp → Option Challenge → Result ChallengeError Challenge
unfolding is_open
withdraw now none = err nil_challenge
withdraw now (some c) = do
  fail_if (not (is_open (some c))) not_open
  ok (record c { status = withdrawn; resolved_at = now })
