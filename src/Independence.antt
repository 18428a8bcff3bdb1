-- ===== src/Independence.antt =====
-- internal/lemma/independence.go: can a node be extracted as a lemma?
pub mod States
pub mod Decides
use vibefeld.Prelude.{
  ℕ, zero, suc, Bool, true, false, not, ◌&&◌, ◌||◌, Option, none, some, List, [], ◌∷◌, Text,
  if◌then◌else◌, length, Result, ok, err, ◌>>=◌,
}
use vibefeld.Types.NodeId.{NodeId, parse, parent}
use vibefeld.Schema.Epistemic.{EpistemicState, validated, admitted, same_state}
use vibefeld.Node.{TaintState, clean}
use vibefeld.Taint.{Ptr, same_taint}
use vibefeld.State.{State, get_node}

-- `IndependenceResult`; what its messages say beside the lists is in the two fields on the node.
pub record IndependenceResult : Type 0 where
  pub is_independent : Bool
  pub not_validated : Option EpistemicState
  pub depends_on_local : List NodeId
  pub depends_on_tainted : List NodeId
  pub not_clean : Option TaintState

pub data IndependenceError : Type 0 where
  node_not_found : NodeId → IndependenceError

-- `isValidForLemmaExtraction`
unfoldable pub is_valid_for_lemma_extraction : EpistemicState → Bool
unfolding same_state
is_valid_for_lemma_extraction es = same_state es validated || same_state es admitted

-- The loop over the scope; a reference that does not parse is skipped.
unfoldable pub parsed_scope : List Text → List NodeId
parsed_scope [] = []
parsed_scope (s ∷ ss) = elim (parse s) [ err _ ↦ parsed_scope ss | ok id ↦ id ∷ parsed_scope ss ]

-- `CheckLocalDependencies`
unfoldable pub check_local_dependencies : NodeId → State → List NodeId
unfolding parsed_scope
check_local_dependencies id st = elim (get_node st id) [
  | none ↦ []
  | some p ↦ parsed_scope (st.heap p).scope
]

-- An ancestor that is there, in a state that allows the extraction.
unfoldable pub is_valid_ancestor : State → NodeId → Bool
unfolding is_valid_for_lemma_extraction
is_valid_ancestor st id = elim (get_node st id) [
  | none ↦ false
  | some p ↦ is_valid_for_lemma_extraction (st.heap p).epistemic_state
]

abbrev pub in_front : NodeId → Option (List NodeId) → Option (List NodeId)
in_front id none = none
in_front id (some ids) = some (id ∷ ids)

-- The walk up from a parent; `none` when the fuel is used up.
unfoldable pub invalid_from : ℕ → State → Option NodeId → Option (List NodeId)
unfolding is_valid_ancestor
invalid_from fuel st none = some []
invalid_from zero st (some id) = none
invalid_from (suc fuel) st (some id) =
    let rest = invalid_from fuel st (parent id) in
    if is_valid_ancestor st id then rest else in_front id rest

-- `CheckAncestorValidity`. A parent has fewer parts, so the parts are enough rounds.
unfoldable pub check_ancestor_validity : NodeId → State → Option (List NodeId)
unfolding invalid_from
check_ancestor_validity id st = elim (get_node st id) [
  | none ↦ some []
  | some _ ↦ invalid_from (length id.parts) st (parent id)
]

abbrev is_nil : List NodeId → Bool
is_nil [] = true
is_nil (_ ∷ _) = false

abbrev unless_true {ℓ} : {A : Type ℓ} → Bool → A → Option A
unless_true true a = none
unless_true false a = some a

abbrev pub result_with :
    EpistemicState → TaintState → List NodeId → Option (List NodeId) → Option IndependenceResult
result_with es t local none = none
result_with es t local (some invalid) = some (record {
  is_independent = same_state es validated && is_nil local && is_nil invalid && same_taint t clean;
  not_validated = unless_true (same_state es validated) es;
  depends_on_local = local;
  depends_on_tainted = invalid;
  not_clean = unless_true (same_taint t clean) t;
})

-- `ValidateIndependence`, of a state that is there; `none` stands for a walk that does not end.
unfoldable pub validate_independence :
    NodeId → State → Result IndependenceError (Option IndependenceResult)
unfolding same_state same_taint check_local_dependencies check_ancestor_validity
validate_independence id st = elim (get_node st id) [
  | none ↦ err (node_not_found id)
  | some p ↦ ok (
      result_with (st.heap p).epistemic_state (st.heap p).taint_state
        (check_local_dependencies id st) (check_ancestor_validity id st))
]
