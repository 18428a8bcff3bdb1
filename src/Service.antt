-- ===== src/Service.antt =====
-- internal/service/proof.go: the operations of the proof service, up to the call that appends to the
-- ledger. `load` is what LoadState gives; an operation gives the event that it appends, and the
-- sequence number that AppendIfSequence expects. Service/Commit.antt loads and appends.
pub mod Decisions
pub mod Refine
pub mod Commit
pub mod Valid
pub mod Plans
pub mod Creates
pub mod Bounds
pub mod Accepts
pub mod Acceptance
pub mod Allocate
pub mod World
pub mod Safe
pub mod Interleave
pub mod Cycles
use vibefeld.Prelude.{
  ℕ, zero, suc, ◌+◌, ◌≡◌, Bool, true, false, not, ◌&&◌, ◌||◌, Option, none, some, List, [], ◌∷◌,
  ◌++◌, map, Text, text_eq, ltb, leb, if◌then◌else◌, length, filter, any, all, Result, ok, err,
  fail_if, ◌>>=◌, ◌>>◌, lookup, eq_text,
}
use vibefeld.Text.{ℤ, pos, negsuc, is_blank}
use vibefeld.Types.NodeId.{NodeId, to_string, parent, child, depth}
use vibefeld.Schema.Epistemic.{
  EpistemicState, EpistemicError, pending, validated, admitted, refuted, archived, needs_refinement,
  same_state, validate_epistemic_transition,
}
use vibefeld.Schema.Workflow.{available, claimed, same_workflow}
use vibefeld.Schema.NodeType.{NodeType}
use vibefeld.Schema.Inference.{InferenceType}
use vibefeld.Node.{Node, NodeError, NodeOptions, Timestamp, new_node, new_node_with_options}
use vibefeld.Taint.{Ptr}
use vibefeld.Cycle.{DependencyProvider, CycleResult, would_create_cycle}
use vibefeld.Ledger.Event.{
  Event, node_created, nodes_claimed, nodes_released, node_validated, node_admitted, node_refuted,
  node_archived, node_amended, claim_refreshed, refinement_requested, def_added, lemma_extracted,
}
use vibefeld.State.{State, get_node, all_nodes}
use vibefeld.State.Queries.{get_blocking_challenges_for_node}
use vibefeld.Citations.{validate_ext_citations}

pub data ServiceError : Type 0 where
  empty_input invalid_timeout not_claimed owner_mismatch already_exists : ServiceError
  max_depth_exceeded max_children_exceeded node_not_found parent_not_found : ServiceError
  not_available blocking_challenges unvalidated_deps unvalidated_children : ServiceError
  no_refinement_children not_pending invalid_dependency circular_dependency : ServiceError
  external_not_found concurrent_modification load_failed not_initialized : ServiceError
  ledger_failed invalid_node_id no_taint_to_emit : ServiceError
  bad_transition : EpistemicError → ServiceError
  bad_node : NodeError → ServiceError

abbrev pub Load : Type 0
Load = Result ServiceError State

-- What is appended, and the sequence number that is expected.
abbrev pub Planned : Type 0 → Type 0
Planned A = Result ServiceError (A × ℕ)

-- The limits of the configuration, which are of type `int`.
pub record Limits : Type 0 where
  pub max_depth : ℤ
  pub max_children : ℤ

-- What `Config` gives.
abbrev pub Configured : Type 0
Configured = Result ServiceError Limits

-- `n > limit`
abbrev pub exceeds : ℕ → ℤ → Bool
exceeds n (pos limit) = ltb limit n
exceeds n (negsuc _) = true

-- `n >= limit`
abbrev pub reaches : ℕ → ℤ → Bool
reaches n (pos limit) = leb limit n
reaches n (negsuc _) = true

-- Regular and validation dependencies together, of a node that is there.
abbrev pub deps_at : State → Option Ptr → Option (List NodeId)
deps_at st none = none
deps_at st (some p) = some ((st.heap p).dependencies ++ (st.heap p).validation_deps)

-- `stateDependencyProvider`
unfoldable pub state_dependency_provider : State → DependencyProvider
state_dependency_provider st = record {
  get_node_dependencies = λ id. deps_at st (get_node st id);
  all_node_ids = map (λ p. (st.heap p).id) (all_nodes st);
}

abbrev pub map_error {ℓ} :
    {E : Type ℓ} {A : Type 0} → (E → ServiceError) → Result E A → Result ServiceError A
map_error f (ok a) = ok a
map_error f (err e) = err (f e)

-- `n := st.GetNode(id); if n == nil { return err }`
abbrev pub found_or : ServiceError → State → NodeId → Result ServiceError Ptr
found_or e st id = elim (get_node st id) [ none ↦ err e | some p ↦ ok p ]

abbrev pub is_none {ℓ} : {A : Type ℓ} → Option A → Bool
is_none none = true
is_none (some _) = false

-- `validateDepth`
abbrev pub validate_depth : Configured → ℕ → Result ServiceError (Unit {0})
validate_depth cfg depth = do
  limits ← cfg
  fail_if (exceeds depth limits.max_depth) max_depth_exceeded

abbrev pub has_parent_string : Option NodeId → NodeId → Bool
has_parent_string none parent_id = false
has_parent_string (some p) parent_id = text_eq (to_string p) (to_string parent_id)

-- The children that the loops over `AllNodes` find.
unfoldable pub children_of : State → NodeId → List Ptr
children_of st parent_id =
    filter (λ p. has_parent_string (parent (st.heap p).id) parent_id) (all_nodes st)

-- `validateChildCount`
unfoldable pub validate_child_count : Configured → State → NodeId → Result ServiceError (Unit {0})
unfolding children_of
validate_child_count cfg st parent_id = do
  limits ← cfg
  fail_if (reaches (length (children_of st parent_id)) limits.max_children) max_children_exceeded

abbrev is_positive : ℤ → Bool
is_positive (pos zero) = false
is_positive (pos (suc n)) = true
is_positive (negsuc n) = false

-- `time.Now().Add(timeout)`, of a timeout that is positive.
abbrev pub add_duration : Timestamp → ℤ → Timestamp
add_duration now (pos n) = now + n
add_duration now (negsuc n) = now

-- `ClaimNode`
unfoldable pub claim_node : Timestamp → NodeId → Text → ℤ → Load → Planned Event
unfolding same_workflow
claim_node now id owner timeout load = do
  fail_if (is_blank owner) empty_input
  fail_if (not (is_positive timeout)) invalid_timeout
  st ← load
  n ← found_or node_not_found st id
  fail_if (not (same_workflow (st.heap n).workflow_state available)) not_available
  ok (nodes_claimed now (id ∷ []) owner (add_duration now timeout), st.latest_seq)

-- `RefreshClaim`
unfoldable pub refresh_claim : Timestamp → NodeId → Text → ℤ → Load → Planned Event
unfolding same_workflow
refresh_claim now id owner timeout load = do
  fail_if (is_blank owner) empty_input
  fail_if (not (is_positive timeout)) invalid_timeout
  st ← load
  n ← found_or node_not_found st id
  fail_if (not (same_workflow (st.heap n).workflow_state claimed)) not_claimed
  fail_if (not (text_eq (st.heap n).claimed_by owner)) owner_mismatch
  ok (claim_refreshed now id owner (add_duration now timeout), st.latest_seq)

-- `ReleaseNode`
unfoldable pub release_node : Timestamp → NodeId → Text → Load → Planned Event
unfolding same_workflow
release_node now id owner load = do
  st ← load
  n ← found_or node_not_found st id
  fail_if (not (same_workflow (st.heap n).workflow_state claimed)) not_claimed
  fail_if (not (text_eq (st.heap n).claimed_by owner)) owner_mismatch
  ok (nodes_released now (id ∷ []), st.latest_seq)
