-- ===== src/Tests/Extraction.antt =====
-- Examples for the extraction of a node as a lemma.
use vibefeld.Prelude.{◌≡◌, refl, ◌↔◌, true, false, none, some, [], ◌∷◌, ok, lookup, insert, eq_text}
use vibefeld.Text.{last_index}
use vibefeld.Types.NodeId.{to_string, parent}
use vibefeld.Schema.Epistemic.{pending, validated, same_state}
use vibefeld.Node.{clean}
use vibefeld.Taint.{same_taint}
use vibefeld.State.{State, add_node, new_state, write}
use vibefeld.Independence.{IndependenceResult, validate_independence}
use vibefeld.Independence.Decides.{IsIndependent, validate_independence_decides}
use vibefeld.Tests.Sample.{id1, id11, sample_node, sample_heap}

-- A validated node below a root that waits.
abbrev below_pending : State
below_pending =
    add_node (sample_node id11 validated clean)
      (add_node (sample_node id1 pending clean) (new_state sample_heap))

validate_independence_decides_example :
    (r : IndependenceResult) × (validate_independence id11 below_pending ≡ ok (some r))
    × ((r.is_independent ≡ true)
        ↔ IsIndependent below_pending id11
            (add_node (sample_node id1 pending clean) (new_state sample_heap)).fresh)
unfolding lookup insert to_string add_node new_state
validate_independence_decides_example =
    validate_independence_decides below_pending id11
      (add_node (sample_node id1 pending clean) (new_state sample_heap)).fresh refl

root_named :
    validate_independence id11 below_pending
    ≡ ok (
        some (record {
          is_independent = false;
          not_validated = none;
          depends_on_local = [];
          depends_on_tainted = id1 ∷ [];
          not_clean = none;
        }))
unfolding validate_independence lookup insert to_string add_node new_state write same_state
    same_taint parent last_index
root_named = refl
