-- ===== src/Tests/Services.antt =====
-- Examples for the ledger, the replayed state and the service.
use vibefeld.Prelude.{
  ℕ, ◌≡◌, refl, ◌↔◌, ◌⊎◌, true, false, none, some, List, [], ◌∷◌, ◌++◌, Text, codes, eq_text, ok,
  err, length, map, ◌==◌, subst, inl, inr, Bool-cases, text_eq, lookup, insert, eq_of_some-eq,
  arith,
}
use vibefeld.Text.{pos}
use vibefeld.Types.NodeId
use vibefeld.Types.NodeId.{to_string}
use vibefeld.Schema.Epistemic.{pending}
use vibefeld.Node.{Timestamp, clean}
use vibefeld.Ledger.Event.{Event, node_created, proof_initialized, node_admitted}
use vibefeld.Ledger.Store.{
  Ledger, append_if_sequence, BatchFault, number_from, gaps_from, has_gaps, append_batch,
  LedgerError,
}
use vibefeld.Ledger.Numbered.{IsNumberedFrom, append_if_sequence-cases, append_batch-cases}
use vibefeld.Cycle.{CycleResult}
use vibefeld.State.{State, new_state, add_node, write}
use vibefeld.State.Challenges.{IsCoherent}
use vibefeld.State.Keyed.{IsKeyed}
use vibefeld.State.WellFormed.{replay_internal-IsWellFormed}
use vibefeld.State.Apply.{apply}
use vibefeld.State.Handlers.{apply_node_created}
use vibefeld.State.Replay.{replay, replay_internal, replay_from, replay_one, apply_numbered}
use vibefeld.Service.{Configured}
use vibefeld.Service.Commit.{Files, load_state, commit}
use vibefeld.Service.Cycles.{EndsFrom, check_cycles, check_cycles_decides}
use vibefeld.Service.Valid.{IsAllowed}
use vibefeld.Service.World.{World, plan, set_plan, create, claim, admit, look, finish, here, next}
use vibefeld.Service.Safe.{Replays}
use vibefeld.Service.Interleave.{Run, interleaving-refines}
use vibefeld.Service.Bounds.{IsWithin, HasNodesOf, interleaving-keeps_nodes}
use vibefeld.Schema.NodeType
use vibefeld.Schema.Inference.{by_assumption}
use vibefeld.Tests.Sorting.{by_insertion}
use vibefeld.Tests.Sample.{id1, id11, sample_node, sample_heap}

abbrev pub no_hash : Text → Text
no_hash s = []

abbrev pub clock : ℕ → Timestamp
clock n = n

abbrev pub limits : Configured
limits = ok (record { max_depth = pos 20; max_children = pos 20 })

abbrev no_files : Files
no_files = record { assumptions = ok []; externals = ok [] }

-- The start of a proof and its root.
abbrev ledger : Ledger
ledger =
    (1, some (proof_initialized 1 (codes "P") (codes "me")))
    ∷ (2, some (node_created 2 (sample_node id1 pending clean)))
    ∷ []

abbrev first_state : State
first_state = record (add_node (sample_node id1 pending clean) (new_state sample_heap)) {
  latest_seq = 2;
}

ledger-Replays : replay no_hash by_insertion clock sample_heap ledger ≡ ok first_state
unfolding replay replay_internal replay_from replay_one apply_numbered apply apply_node_created
    new_state
ledger-Replays = refl

append_if_sequence-cases_example :
    ((x : LedgerError) × (append_if_sequence none ledger (node_admitted 3 id1) 2 ≡ (ledger, err x)))
    ⊎ ((2 ≡ length ledger)
        × (append_if_sequence none ledger (node_admitted 3 id1) 2
            ≡ (ledger ++ (3, some (node_admitted 3 id1)) ∷ [], ok 3)))
append_if_sequence-cases_example =
    append_if_sequence-cases ledger (refl, (refl, tt)) none (node_admitted 3 id1) 2

-- The rename of the second file of a batch fails.
abbrev second_fails : BatchFault
second_fails = record { early = none; rename_fails = λ seq. seq == 4; remove_fails = λ _. false }

abbrev two_events : List Event
two_events = node_admitted 3 id1 ∷ proof_initialized 4 [] [] ∷ []

append_batch-cases_example :
    IsNumberedFrom 1 (append_batch second_fails ledger two_events).0
    × (((x : LedgerError) × (append_batch second_fails ledger two_events ≡ (ledger, err x)))
        ⊎ (append_batch second_fails ledger two_events ≡ (
          ledger ++ number_from 3 two_events,
          ok (map (λ file. file.0) (number_from 3 two_events)),
        )))
append_batch-cases_example =
    append_batch-cases ledger (refl, (refl, tt)) second_fails (λ _. refl) two_events

-- Where the rename of the third file fails and the removal of the second one too, a gap is left.
gap_left :
    has_gaps
      (append_batch
        (record { early = none; rename_fails = λ seq. seq == 5; remove_fails = λ seq. seq == 4 })
        ledger
        (node_admitted 3 id1 ∷ two_events)).0
    ≡ true
unfolding has_gaps append_batch gaps_from
gap_left = refl

replay_internal-IsWellFormed_example : IsKeyed first_state × IsCoherent first_state
unfolding replay
replay_internal-IsWellFormed_example =
    replay_internal-IsWellFormed no_hash by_insertion clock false sample_heap ledger first_state
      ledger-Replays

check_cycles_decides_example :
    (r : CycleResult) × (check_cycles id1 (ok first_state) ≡ ok (some r))
    × ((r.has_cycle ≡ false) ↔ EndsFrom first_state (to_string id1))
check_cycles_decides_example =
    check_cycles_decides no_hash by_insertion clock sample_heap ledger first_state id1
      ledger-Replays

-- Two agents look at the ledger, to claim the root and to admit it; the one admits it first, so that
-- the other's claim is not appended.
abbrev first_look : World
first_look = record {
  ledger = ledger;
  plans =
      set_plan (λ _. none) 1
        (some (
          plan no_hash limits 5 (claim id1 (codes "a") (pos 60))
            (load_state no_hash by_insertion clock sample_heap no_files ledger)));
}

abbrev second_look : World
second_look = record first_look {
  plans = set_plan first_look.plans 2 (
      some (
        plan no_hash limits 6 (admit id1)
          (load_state no_hash by_insertion clock sample_heap no_files ledger)));
}

abbrev admitted_world : World
admitted_world = record second_look {
  ledger =
      (commit none ledger (
        plan no_hash limits 6 (admit id1)
          (load_state no_hash by_insertion clock sample_heap no_files ledger))).0;
  plans = set_plan second_look.plans 2 none;
}

abbrev last_world : World
last_world = record admitted_world {
  ledger =
      (commit none admitted_world.ledger (
        plan no_hash limits 5 (claim id1 (codes "a") (pos 60))
          (load_state no_hash by_insertion clock sample_heap no_files ledger))).0;
  plans = set_plan admitted_world.plans 1 none;
}

interleaving-refines_example :
    (t : State) × Replays no_hash limits by_insertion clock sample_heap last_world.ledger t
    × Run no_hash limits by_insertion clock sample_heap first_state t
interleaving-refines_example =
    interleaving-refines no_hash limits by_insertion clock sample_heap ledger first_state last_world
      ledger-Replays
      (next
        (next
          (next (next here (look 1 5 no_files (claim id1 (codes "a") (pos 60))))
            (look 2 6 no_files (admit id1)))
          (finish 2 none _ refl))
        (finish 1 none _ refl))

first-IsWithin : IsWithin limits first_state
unfolding add_node new_state write lookup insert to_string
first-IsWithin k p e = elim (Bool-cases (text_eq (codes "1") k)) [
  | inl same ↦
      subst (λ q. IsAllowed limits (NodeId.depth (first_state.heap q).id))
        (eq_of_some-eq first_state_root p (rw (same, lookup) at e)) (20, refl, omega arith)
  | inr other ↦ let nothing = rw (other, lookup) at e in absurd (cc)
]
  where
    first_state_root : ℕ
    first_state_root = (new_state sample_heap).fresh

-- One agent adds a child of the root.
abbrev child_look : World
child_look = record {
  ledger = ledger;
  plans =
      set_plan (λ _. none) 1
        (some (
          plan no_hash limits 5 (create (ok 2) id11 NodeType.claim (codes "x = x") by_assumption)
            (load_state no_hash by_insertion clock sample_heap no_files ledger)));
}

abbrev child_world : World
child_world = record child_look {
  ledger =
      (commit none ledger (
        plan no_hash limits 5 (create (ok 2) id11 NodeType.claim (codes "x = x") by_assumption)
          (load_state no_hash by_insertion clock sample_heap no_files ledger))).0;
  plans = set_plan child_look.plans 1 none;
}

interleaving-keeps_nodes_example :
    (t : State) × Replays no_hash limits by_insertion clock sample_heap child_world.ledger t
    × HasNodesOf first_state t
    × IsWithin limits t
interleaving-keeps_nodes_example =
    interleaving-keeps_nodes no_hash limits by_insertion clock sample_heap ledger first_state
      child_world ledger-Replays first-IsWithin
      (next
        (next here
          (look 1 5 no_files (create (ok 2) id11 NodeType.claim (codes "x = x") by_assumption)))
        (finish 1 none _ refl))
