-- ===== src/Node.antt =====
-- internal/node/node.go and challenge.go: proof nodes and the challenges against them.
pub mod Content
pub mod Challenge
pub mod Cycle
pub mod Pending
pub mod Invariant
pub mod Blocking
use vibefeld.Prelude.{
  ℕ, ◌≡◌, Bool, true, false, not, Option, none, some, List, [], ◌∷◌, ◌++◌, Text, text_eq, codes,
  length, ◌==◌, if◌then◌else◌, Result, ok, err, fail_if, ◌>>=◌, ◌>>◌,
}
use vibefeld.Text.{is_blank, join}
use vibefeld.Text.Sort.{sort_strings}
use vibefeld.Types.NodeId
use vibefeld.Types.NodeId.{NodeId, to_string_slice}
use vibefeld.Schema.NodeType.{NodeType, node_type_text, get_node_type_info}
use vibefeld.Schema.Inference.{InferenceType, inference_text, get_inference_info}
use vibefeld.Schema.Workflow.{WorkflowState, available, get_workflow_state_info}
use vibefeld.Schema.Epistemic.{EpistemicState, pending, get_epistemic_state_info}
use vibefeld.Schema.Severity.{ChallengeSeverity, default_challenge_severity}

-- An instant; 0 is the zero value.
abbrev pub Timestamp : Type 0
Timestamp = ℕ

pub data TaintState : Type 0 where
  clean self_admitted tainted unresolved : TaintState
  other : Text → TaintState

pub record Node : Type 0 where
  pub id : NodeId
  pub node_type : NodeType
  pub statement : Text
  pub latex : Text
  pub inference : InferenceType
  pub context : List Text
  pub dependencies : List NodeId
  pub validation_deps : List NodeId
  pub workflow_state : WorkflowState
  pub epistemic_state : EpistemicState
  pub taint_state : TaintState
  pub content_hash : Text
  pub created : Timestamp
  pub scope : List Text
  pub claimed_by : Text
  pub claimed_at : Timestamp

pub record NodeOptions : Type 0 where
  pub latex : Text
  pub context : List Text
  pub dependencies : List NodeId
  pub validation_deps : List NodeId
  pub scope : List Text

pub data NodeError : Type 0 where
  nil_node empty_statement invalid_type invalid_inference : NodeError
  invalid_workflow invalid_epistemic : NodeError

abbrev is_none {ℓ} : {A : Type ℓ} → Option A → Bool
is_none none = true
is_none (some _) = false

-- A label and the comma-separated list behind it; nothing for an empty list.
labelled_list : Text → List Text → Text
labelled_list label [] = []
labelled_list label (s ∷ ss) = label ++ join b',' (sort_strings (s ∷ ss))

-- The text that `ComputeContentHash` hashes.
unfoldable pub content_text : Node → Text
unfolding labelled_list
content_text n =
    codes "type:"
    ++ node_type_text n.node_type
    ++ codes "|statement:"
    ++ n.statement
    ++ (if text_eq n.latex [] then [] else codes "|latex:" ++ n.latex)
    ++ codes "|inference:"
    ++ inference_text n.inference
    ++ labelled_list (codes "|context:") n.context
    ++ labelled_list (codes "|dependencies:") (to_string_slice n.dependencies)
    ++ labelled_list (codes "|validation_deps:") (to_string_slice n.validation_deps)

-- `Validate`; `none` is a nil pointer
unfoldable pub validate : Option Node → Result NodeError (Unit {0})
validate none = err nil_node
validate (some n) = do
  fail_if (is_blank n.statement) empty_statement
  fail_if (is_none (get_node_type_info n.node_type)) invalid_type
  fail_if (is_none (get_inference_info n.inference)) invalid_inference
  fail_if (is_none (get_workflow_state_info n.workflow_state)) invalid_workflow
  fail_if (is_none (get_epistemic_state_info n.epistemic_state)) invalid_epistemic
  ok tt

-- `IsRoot`
unfoldable pub is_root : Option Node → Bool
is_root none = false
is_root (some n) = NodeId.is_root n.id

-- `Depth`
unfoldable pub depth : Option Node → ℕ
depth none = 0
depth (some n) = NodeId.depth n.id

-- The node that `NewNodeWithOptions` builds, before its hash is set.
fresh_node : Timestamp → NodeId → NodeType → Text → InferenceType → NodeOptions → Node
fresh_node now id node_type statement inference opts = record {
  id = id;
  node_type = node_type;
  statement = statement;
  latex = opts.latex;
  inference = inference;
  context = opts.context;
  dependencies = opts.dependencies;
  validation_deps = opts.validation_deps;
  workflow_state = available;
  epistemic_state = pending;
  taint_state = unresolved;
  content_hash = [];
  created = now;
  scope = opts.scope;
  claimed_by = [];
  claimed_at = 0;
}

-- SHA-256 in hexadecimal is a parameter of what hashes.
module _ (sha256_hex : Text → Text) where
  -- `ComputeContentHash`, of a node that is there
  unfoldable pub compute_content_hash : Node → Text
  unfolding content_text
  compute_content_hash n = sha256_hex (content_text n)

  -- `VerifyContentHash`
  unfoldable pub verify_content_hash : Option Node → Bool
  verify_content_hash none = false
  verify_content_hash (some n) = text_eq n.content_hash (compute_content_hash n)

  -- `NewNodeWithOptions`, with the clock's reading.
  unfoldable pub new_node_with_options :
      Timestamp → NodeId → NodeType → Text → InferenceType → NodeOptions → Result NodeError Node
  unfolding fresh_node
  new_node_with_options now id node_type statement inference opts = do
    fail_if (is_blank statement) empty_statement
    fail_if (is_none (get_node_type_info node_type)) invalid_type
    fail_if (is_none (get_inference_info inference)) invalid_inference
    let node = fresh_node now id node_type statement inference opts
    ok (record node { content_hash = compute_content_hash node })

  -- `NewNode`
  unfoldable pub new_node :
      Timestamp → NodeId → NodeType → Text → InferenceType → Result NodeError Node
  unfolding new_node_with_options
  new_node now id node_type statement inference =
      new_node_with_options now id node_type statement inference
        (record { latex = []; context = []; dependencies = []; validation_deps = []; scope = [] })
