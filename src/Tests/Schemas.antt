-- ===== src/Tests/Schemas.antt =====
-- Examples for the state machines, the nodes and the rules of taint.
use mathlib.Core.List.{Permᴰ}
use vibefeld.Prelude.{◌≡◌, ◌↔◌, refl, [], ◌∷◌, codes, ok}
use vibefeld.Schema.Epistemic.{pending, validated, validate_epistemic_transition}
use vibefeld.Schema.Epistemic.Transitions.{◌⟶◌, transition_iff}
use vibefeld.Node.{Node, NodeOptions, compute_content_hash, unresolved}
use vibefeld.Node.Content.{content_hash-perm}
use vibefeld.Tests.Sample.{id1, sample_node}

transition_iff_example :
    (validate_epistemic_transition pending validated ≡ ok tt) ↔ (pending ⟶ validated)
transition_iff_example = transition_iff pending validated

abbrev two_contexts : Node
two_contexts = record (sample_node id1 pending unresolved) {
  context = codes "d1" ∷ codes "d2" ∷ [];
}

abbrev two_swapped : Node
two_swapped = record (sample_node id1 pending unresolved) { context = codes "d2" ∷ codes "d1" ∷ [] }

content_hash-perm_example :
    compute_content_hash (λ t. t) two_swapped ≡ compute_content_hash (λ t. t) two_contexts
content_hash-perm_example =
    content_hash-perm (λ t. t) two_contexts two_swapped refl refl refl refl (Permᴰ.swap refl refl)
      Permᴰ.nil Permᴰ.nil

abbrev no_options : NodeOptions
no_options = record {
  latex = [];
  context = [];
  dependencies = [];
  validation_deps = [];
  scope = [];
}

abbrev made_node : Node
made_node = record (sample_node id1 pending unresolved) {
  content_hash = compute_content_hash (λ t. t) (sample_node id1 pending unresolved);
}
