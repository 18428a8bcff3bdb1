-- ===== src/Tests/Acceptance.antt =====
-- Examples for the acceptance of a node and for the number of a new child.
use vibefeld.Prelude.{
  ◌≡◌, refl, none, some, [], ◌∷◌, map, codes, lookup, insert, eq_text, ok, err, false, ℕ, suc,
  length,
}
use vibefeld.Text.{last_index, itoa}
use vibefeld.Types.NodeId.{to_string, parent, child, child_of}
use vibefeld.Schema.Epistemic.{pending, validated, same_state, validate_epistemic_transition}
use vibefeld.Schema.Severity.{minor}
use vibefeld.Schema.Target.{on_statement}
use vibefeld.Node.{clean}
use vibefeld.Node.Challenge.{Challenge, opened}
use vibefeld.Node.Invariant.{check_validation_invariant, challenges_not_closed}
use vibefeld.Taint.{Ptr}
use vibefeld.Ledger.Event.{node_created, node_validated}
use vibefeld.Ledger.Store.{Ledger}
use vibefeld.State.{State, add_node, get_node, new_state, write}
use vibefeld.State.Apply.{apply}
use vibefeld.State.Handlers.{apply_node_created}
use vibefeld.State.Keyed.{IsKeyed}
use vibefeld.State.WellFormed.{replay_internal-IsWellFormed}
use vibefeld.State.Replay.{replay_internal, replay_from, replay_one, apply_numbered}
use vibefeld.Service.{children_of}
use vibefeld.Service.Decisions.{accept_node_with_note}
use vibefeld.Service.Acceptance.{check_validation_invariant-accept_node_with_note}
use vibefeld.Service.Refine.{allocate_child_id, free_child_from}
use vibefeld.Service.Allocate.{IsFirst, allocate_child_id-IsFirst}
use vibefeld.Tests.Sorting.{by_insertion}
use vibefeld.Tests.Services.{no_hash, clock, limits}
use vibefeld.Tests.Sample.{id1, id11, sample_node, sample_heap}

-- A root to decide on, above a validated node.
abbrev two_nodes : Ledger
two_nodes =
    (1, some (node_created 1 (sample_node id1 pending clean)))
    ∷ (2, some (node_created 2 (sample_node id11 validated clean)))
    ∷ []

abbrev two_state : State
two_state =
    record (add_node (sample_node id11 validated clean)
      (add_node (sample_node id1 pending clean) (new_state sample_heap))) { latest_seq = 2 }

two_nodes-Replays :
    replay_internal no_hash by_insertion clock false sample_heap two_nodes ≡ ok two_state
unfolding replay_internal replay_from replay_one apply_numbered apply apply_node_created new_state
two_nodes-Replays = refl

two_state-IsKeyed : IsKeyed two_state
two_state-IsKeyed =
    (replay_internal-IsWellFormed no_hash by_insertion clock false sample_heap two_nodes two_state
      two_nodes-Replays).0

accepted_root : accept_node_with_note 5 id1 [] (ok two_state) ≡ ok (node_validated 5 id1 [], 2)
unfolding accept_node_with_note lookup insert to_string add_node new_state write children_of parent
    same_state validate_epistemic_transition last_index
accepted_root = refl

check_validation_invariant-accept_node_with_note_example :
    (p : Ptr) × (get_node (apply no_hash by_insertion 5 two_state (node_validated 5 id1 [])).0 id1
      ≡ some p)
    × (((apply no_hash by_insertion 5 two_state (node_validated 5 id1 [])).0.heap p).epistemic_state
        ≡ validated)
    × (check_validation_invariant
          (some ((apply no_hash by_insertion 5 two_state (node_validated 5 id1 [])).0.heap p))
          (λ i.
            map
              (apply no_hash by_insertion 5 two_state (node_validated 5 id1 [])).0.heap
              (children_of (apply no_hash by_insertion 5 two_state (node_validated 5 id1 [])).0 i))
          none
        ≡ ok tt)
check_validation_invariant-accept_node_with_note_example =
    check_validation_invariant-accept_node_with_note no_hash by_insertion 5 two_state id1 []
      (node_validated 5 id1 []) 2 accepted_root two_state-IsKeyed

-- An open challenge that does not block the acceptance.
abbrev minor_challenge : Challenge
minor_challenge = record {
  id = codes "c1";
  target_id = id1;
  target = on_statement;
  reason = codes "unclear";
  severity = minor;
  raised = 1;
  resolved_at = 0;
  resolution = [];
  status = opened;
}

minor_still_open :
    check_validation_invariant
      (some (sample_node id1 validated clean))
      (λ _. [])
      (some (λ _. minor_challenge ∷ []))
    ≡ err (challenges_not_closed (codes "c1" ∷ []))
unfolding check_validation_invariant same_state
minor_still_open = refl

allocate_child_id-IsFirst_example :
    (n : ℕ) × (allocate_child_id no_hash limits 5 id1 (ok two_state)
      ≡ ok (some (child_of id1 (suc n))))
    × IsFirst id1 no_hash limits 5 two_state 0 (length two_state.nodes) n
unfolding lookup insert to_string add_node new_state
allocate_child_id-IsFirst_example =
    allocate_child_id-IsFirst id1 no_hash limits 5 two_state (new_state sample_heap).fresh refl

-- 1.1 is there, so 1.2 is allocated.
allocated_second :
    allocate_child_id no_hash limits 5 id1 (ok two_state) ≡ ok (some (child_of id1 2))
unfolding allocate_child_id free_child_from child lookup insert to_string add_node new_state itoa
allocated_second = refl
