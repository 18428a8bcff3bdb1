-- ===== src/Tests/Sample.antt =====
-- A proof of three nodes, 1 above 1.1 above 1.1.1, and a challenge on 1.1.
use mathlib.Core.List.{Memᴰ}
use vibefeld.Prelude.{
  zero, suc, refl, Option, none, some, List, [], ◌∷◌, codes, arith, inr, lookup, insert, eq_text,
  All-mem,
}
use vibefeld.Text.{itoa, itoa_loop, join, last_index}
use vibefeld.Types.NodeId.{NodeId, to_string, render, parent}
use vibefeld.Types.NodeId.Canonical.{IsCanonical}
use vibefeld.Schema.NodeType.{claim}
use vibefeld.Schema.Inference.{by_assumption}
use vibefeld.Schema.Workflow.{available}
use vibefeld.Schema.Epistemic.{EpistemicState, pending, validated, same_state, introduces_taint}
use vibefeld.Schema.Severity.{minor}
use vibefeld.Node.{Node, TaintState, clean, unresolved}
use vibefeld.Node.Challenge.{opened}
use vibefeld.Taint.{Ptr, Heap, compute_taint, same_taint, node_map, get_ancestors}
use vibefeld.Taint.Propagate.{IsConsistent}
use vibefeld.State.{State, Challenge}

abbrev pub id1 : NodeId
id1 = record { parts = 1 ∷ []; cached = codes "1" }

abbrev pub id11 : NodeId
id11 = record { parts = 1 ∷ 1 ∷ []; cached = codes "1.1" }

abbrev pub id111 : NodeId
id111 = record { parts = 1 ∷ 1 ∷ 1 ∷ []; cached = codes "1.1.1" }

pub id1-IsCanonical : IsCanonical id1
unfolding render itoa itoa_loop join
id1-IsCanonical = record { in_range = ((omega arith, omega arith), tt); spelled = inr refl }

pub id11-IsCanonical : IsCanonical id11
unfolding render itoa itoa_loop join
id11-IsCanonical = record {
  in_range = ((omega arith, omega arith), ((omega arith, omega arith), tt));
  spelled = inr refl;
}

pub id111-IsCanonical : IsCanonical id111
unfolding render itoa itoa_loop join
id111-IsCanonical = record {
  in_range =
      ((omega arith, omega arith), ((omega arith, omega arith), ((omega arith, omega arith), tt)));
  spelled = inr refl;
}

abbrev pub sample_node : NodeId → EpistemicState → TaintState → Node
sample_node id e t = record {
  id = id;
  node_type = claim;
  statement = codes "x = x";
  latex = [];
  inference = by_assumption;
  context = [];
  dependencies = [];
  validation_deps = [];
  workflow_state = available;
  epistemic_state = e;
  taint_state = t;
  content_hash = [];
  created = 0;
  scope = [];
  claimed_by = [];
  claimed_at = 0;
}

-- The root is validated, 1.1 is pending, and 1.1.1 below it is validated.
abbrev pub sample_heap : Heap
sample_heap zero = sample_node id1 validated clean
sample_heap (suc zero) = sample_node id11 pending unresolved
sample_heap (suc (suc _)) = sample_node id111 validated unresolved

abbrev pub sample_pointers : List (Option Ptr)
sample_pointers = some 0 ∷ some 1 ∷ some 2 ∷ []

abbrev pub minor_challenge : Challenge
minor_challenge = record {
  id = codes "c1";
  node_id = id11;
  target = [];
  reason = [];
  status = opened;
  severity = minor;
  created = 0;
  resolution = [];
  raised_by = [];
}

abbrev pub sample_state : State
sample_state = record {
  heap = sample_heap;
  fresh = 3;
  nodes = (codes "1", 0) ∷ (codes "1.1", 1) ∷ (codes "1.1.1", 2) ∷ [];
  definitions = [];
  assumptions = [];
  externals = [];
  lemmas = [];
  challenges = (codes "c1", minor_challenge) ∷ [];
  challenges_by_node = none;
  amendments = [];
  scope_tracker = [];
  latest_seq = 0;
}

abbrev AtPointer : (Ptr → Type 0) → Option Ptr → Type 0
AtPointer P none = Unit
AtPointer P (some p) = P p

pub sample-IsConsistent :
    (p : Ptr)
    → Memᴰ (some p) sample_pointers
    → IsConsistent (node_map sample_heap sample_pointers []) sample_heap p
unfolding node_map get_ancestors compute_taint same_taint same_state introduces_taint lookup insert
    parent to_string last_index
sample-IsConsistent p here =
    All-mem (AtPointer (IsConsistent (node_map sample_heap sample_pointers []) sample_heap))
      (some p) sample_pointers (refl, (refl, (refl, tt))) here
