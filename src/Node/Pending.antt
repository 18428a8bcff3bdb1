-- ===== src/Node/Pending.antt =====
-- internal/node/pending_def.go: requests for definitions, which wait to be resolved or cancelled.
use vibefeld.Prelude.{
  ℕ, Bool, true, false, not, Option, none, some, List, [], ◌∷◌, ◌/◌, ◌%◌, ◌+◌, Text, text_eq,
  if◌then◌else◌, ltb, Result, ok, err, fail_if, ◌>>=◌, ◌>>◌,
}
use vibefeld.Text.{is_blank}
use vibefeld.Types.NodeId.{NodeId, to_string}
use vibefeld.Node.{Timestamp}

pub data PendingDefStatus : Type 0 where
  pending resolved cancelled : PendingDefStatus
  other : Text → PendingDefStatus

pub record PendingDef : Type 0 where
  pub id : Text
  pub term : Text
  pub requested_by : NodeId
  pub created : Timestamp
  pub resolved_by : Text
  pub status : PendingDefStatus

pub data PendingDefError : Type 0 where
  generating_id empty_term zero_node empty_definition_id not_pending : PendingDefError

-- One digit of `hex.EncodeToString`.
abbrev hex_digit : ℕ → ℕ
hex_digit d = if ltb d 10 then d + b'0' else d + 87

hex_encode : List ℕ → Text
hex_encode [] = []
hex_encode (b ∷ bs) = hex_digit (b / 16) ∷ hex_digit (b % 16) ∷ hex_encode bs

-- `generatePendingDefID`, from what `rand.Read` gives: 8 bytes, or an error.
unfoldable pub generate_pending_def_id : Option (List ℕ) → Result PendingDefError Text
unfolding hex_encode
generate_pending_def_id none = err generating_id
generate_pending_def_id (some bytes) = ok (hex_encode bytes)

-- `NewPendingDef`
unfoldable pub new_pending_def :
    Option (List ℕ) → Timestamp → Text → NodeId → Result PendingDefError PendingDef
unfolding generate_pending_def_id
new_pending_def bytes now term requested_by = generate_pending_def_id bytes >>= λ id. ok (record {
  id = id;
  term = term;
  requested_by = requested_by;
  created = now;
  resolved_by = [];
  status = pending;
})

-- `NewPendingDefWithValidation`
unfoldable pub new_pending_def_with_validation :
    Option (List ℕ) → Timestamp → Text → NodeId → Result PendingDefError PendingDef
unfolding new_pending_def
new_pending_def_with_validation bytes now term requested_by =
    fail_if (is_blank term) empty_term
    >> fail_if (text_eq (to_string requested_by) []) zero_node
    >> new_pending_def bytes now term requested_by

abbrev is_pending_status : PendingDefStatus → Bool
is_pending_status pending = true
is_pending_status _ = false

-- `IsPending`
abbrev pub is_pending : PendingDef → Bool
is_pending pd = is_pending_status pd.status

-- `Resolve`
unfoldable pub resolve : PendingDef → Text → Result PendingDefError PendingDef
resolve pd definition_id =
    fail_if (text_eq definition_id []) empty_definition_id
    >> fail_if (not (is_pending pd)) not_pending
    >> ok (record pd { status = resolved; resolved_by = definition_id })

-- `Cancel`
unfoldable pub cancel : PendingDef → Result PendingDefError PendingDef
cancel pd = fail_if (not (is_pending pd)) not_pending >> ok (record pd { status = cancelled })
