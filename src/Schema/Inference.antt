-- ===== src/Schema/Inference.antt =====
-- internal/schema/inference.go: the inference rules.
use vibefeld.Prelude.{Option, none, some, Text, codes, Result, ok, err}

-- `other` holds a string that is none of the constants.
pub data InferenceType : Type 0 where
  modus_ponens modus_tollens universal_instantiation : InferenceType
  existential_instantiation universal_generalization existential_generalization : InferenceType
  by_definition by_assumption local_assume local_discharge by_contradiction : InferenceType
  other : Text → InferenceType

pub record InferenceInfo : Type 0 where
  pub id : InferenceType
  pub name : Text
  pub form : Text

-- The string of an inference rule.
unfoldable pub inference_text : InferenceType → Text
inference_text modus_ponens = codes "modus_ponens"
inference_text modus_tollens = codes "modus_tollens"
inference_text universal_instantiation = codes "universal_instantiation"
inference_text existential_instantiation = codes "existential_instantiation"
inference_text universal_generalization = codes "universal_generalization"
inference_text existential_generalization = codes "existential_generalization"
inference_text by_definition = codes "by_definition"
inference_text by_assumption = codes "assumption"
inference_text local_assume = codes "local_assume"
inference_text local_discharge = codes "local_discharge"
inference_text by_contradiction = codes "contradiction"
inference_text (other s) = s

-- `inferenceRegistry`, and `GetInferenceInfo` that reads it.
unfoldable pub get_inference_info : InferenceType → Option InferenceInfo
get_inference_info modus_ponens =
    some (record { id = modus_ponens; name = codes "Modus Ponens"; form = codes "P, P → Q ⊢ Q" })
get_inference_info modus_tollens =
    some
      (record { id = modus_tollens; name = codes "Modus Tollens"; form = codes "¬Q, P → Q ⊢ ¬P" })
get_inference_info universal_instantiation = some (record {
  id = universal_instantiation;
  name = codes "Universal Instantiation";
  form = codes "∀x.P(x) ⊢ P(t)";
})
get_inference_info existential_instantiation = some (record {
  id = existential_instantiation;
  name = codes "Existential Instantiation";
  form = codes "∃x.P(x) ⊢ P(c) for fresh c";
})
get_inference_info universal_generalization = some (record {
  id = universal_generalization;
  name = codes "Universal Generalization";
  form = codes "P(x) for arbitrary x ⊢ ∀x.P(x)";
})
get_inference_info existential_generalization = some (record {
  id = existential_generalization;
  name = codes "Existential Generalization";
  form = codes "P(c) ⊢ ∃x.P(x)";
})
get_inference_info by_definition =
    some (record {
      id = by_definition;
      name = codes "By Definition";
      form = codes "unfold definition";
    })
get_inference_info by_assumption =
    some
      (record { id = by_assumption; name = codes "Assumption"; form = codes "global hypothesis" })
get_inference_info local_assume = some (record {
  id = local_assume;
  name = codes "Local Assume";
  form = codes "introduce local hypothesis";
})
get_inference_info local_discharge = some (record {
  id = local_discharge;
  name = codes "Local Discharge";
  form = codes "conclude from local hypothesis";
})
get_inference_info by_contradiction =
    some (record { id = by_contradiction; name = codes "Contradiction"; form = codes "P ∧ ¬P ⊢ ⊥" })
get_inference_info (other s) = none

-- `ValidateInference`, with the rejected rule as its error
unfoldable pub validate_inference : InferenceType → Result InferenceType (Unit {0})
unfolding get_inference_info
validate_inference t = elim (get_inference_info t) [ none ↦ err t | some _ ↦ ok tt ]
