-- ===== src/State/Keyed.antt =====
-- The nodes of the state are filed under their identifiers, and the heap's next pointer is new
-- (internal/state/state.go, internal/state/apply.go).
use vibefeld.Prelude.{
  Result-cases, ◌≡◌, ◌<◌, refl, sym, ◌∙◌, ap, subst, Bool, true, false, some, List, [], ◌∷◌, Text,
  text_eq, eq_text, lookup, if◌then◌else◌, Result, ok, err, Bool-cases, Option-cases, inl, inr, map,
  not, ==_iff, arith, Option,
}
use vibefeld.Types.NodeId.{NodeId, to_string, depth}
use vibefeld.Schema.Epistemic.{EpistemicState}
use vibefeld.Schema.Workflow.{available, claimed, validate_workflow_transition, same_workflow}
use vibefeld.Schema.Severity.{validate_challenge_severity, is_unset, default_challenge_severity}
use vibefeld.Node.{Node, Timestamp, TaintState}
use vibefeld.Node.Challenge.{ChallengeStatus}
use vibefeld.Taint.{
  Ptr, Heap, Sorter, set_taint, propagate_taint, compute_taint, node_map, get_ancestors,
  descendants,
}
use vibefeld.Taint.Propagate.{set_taint-KeepsNodes, propagate_loop-KeepsNodes}
use vibefeld.Scope.{ScopeError, Tracker}
use vibefeld.Ledger.Event.{ChallengeData, AmendmentData}
use vibefeld.State.{
  State, write, get_node, get_challenge, add_amendment, all_nodes, add_challenge,
  challenges_by_node_id, get_challenges_for_node,
}
use vibefeld.State.Handlers.{
  Outcome, set_node, with_node, supersede_all, supersede_open_challenges_for_node,
  apply_nodes_claimed, apply_claim_refreshed, apply_nodes_released, apply_taint_recomputed,
  apply_challenge_raised, set_challenge_status, set_tracker,
}
use vibefeld.State.Apply.{recompute_taint_for_node, change_epistemic, apply_node_amended}
use vibefeld.State.Decision.{change_epistemic-cases}

-- A key leads to a node with that identifier, below the next pointer that is allocated.
pub record IsKeyed (s : State) : Type 0 where
  pub named : (k : Text) (p : Ptr) → lookup s.nodes k ≡ some p → to_string (s.heap p).id ≡ k
  pub allocated : (k : Text) (p : Ptr) → lookup s.nodes k ≡ some p → p < s.fresh

-- The same nodes under the same keys, with the same identifiers.
pub record SameIds (s t : State) : Type 0 where
  pub nodes : t.nodes ≡ s.nodes
  pub fresh : t.fresh ≡ s.fresh
  pub ids : (p : Ptr) → (t.heap p).id ≡ (s.heap p).id

pub refl_ids : (s : State) → SameIds s s
refl_ids s = record { nodes = refl; fresh = refl; ids = λ p. refl }

trans_ids : (s t u : State) → SameIds s t → SameIds t u → SameIds s u
trans_ids s t u a b = record {
  nodes = b.nodes ∙ a.nodes;
  fresh = b.fresh ∙ a.fresh;
  ids = λ p. b.ids p ∙ a.ids p;
}

pub same-IsKeyed : (s t : State) → SameIds s t → IsKeyed s → IsKeyed t
same-IsKeyed s t same h = record {
  named = λ k p e. ap to_string (same.ids p) ∙ h.named k p (rw same.nodes at e);
  allocated = λ k p e. subst (λ n. p < n) (sym same.fresh) (h.allocated k p (rw same.nodes at e));
}

set_node-SameIds :
    (s : State) (p : Ptr) (n : Node) → n.id ≡ (s.heap p).id → SameIds s (set_node s p n)
unfolding write
set_node-SameIds s p n e = record {
  nodes = refl;
  fresh = refl;
  ids = λ q. ground (arith, ==_iff q p);
}

with_node-SameIds :
    (s : State) (id : NodeId) (k : Ptr → Outcome)
    → ((p : Ptr) → SameIds s (k p).0)
    → SameIds s (with_node s id k).0
with_node-SameIds s id k h = elim (Option-cases (get_node s id)) [
  | inl missing ↦ rw (missing, with_node) (refl_ids s)
  | inr (p, found) ↦ rw (found, with_node) (h p)
]

pub claimed-SameIds :
    (owner : Text) (timeout : Timestamp) (ids : List NodeId) (s : State)
    → SameIds s (apply_nodes_claimed ids owner timeout s).0
unfolding apply_nodes_claimed
claimed-SameIds owner timeout [] s = refl_ids s
claimed-SameIds owner timeout (id ∷ ids) s = with_node-SameIds s id _ (λ p.
    elim (Result-cases (validate_workflow_transition (s.heap p).workflow_state claimed)) [
      | inl (e, bad) ↦ rw (bad, apply_nodes_claimed) (refl_ids s)
      | inr (_, good) ↦
          let n = record (s.heap p) {
            workflow_state = claimed;
            claimed_by = owner;
            claimed_at = timeout;
          } in
          rw (good, apply_nodes_claimed)
            (trans_ids s (set_node s p n) (apply_nodes_claimed ids owner timeout (set_node s p n)).0
              (set_node-SameIds s p n refl) (claimed-SameIds owner timeout ids (set_node s p n)))
    ])

pub released-SameIds : (ids : List NodeId) (s : State) → SameIds s (apply_nodes_released ids s).0
unfolding apply_nodes_released
released-SameIds [] s = refl_ids s
released-SameIds (id ∷ ids) s = with_node-SameIds s id _ (λ p.
    elim (Result-cases (validate_workflow_transition (s.heap p).workflow_state available)) [
      | inl (e, bad) ↦ rw (bad, apply_nodes_released) (refl_ids s)
      | inr (_, good) ↦
          let n = record (s.heap p) {
            workflow_state = available;
            claimed_by = [];
            claimed_at = 0;
          } in
          rw (good, apply_nodes_released)
            (trans_ids s (set_node s p n) (apply_nodes_released ids (set_node s p n)).0
              (set_node-SameIds s p n refl) (released-SameIds ids (set_node s p n)))
    ])

if_SameIds :
    (b : Bool) (s : State) (o o' : Outcome)
    → SameIds s o.0
    → SameIds s o'.0
    → SameIds s (if b then o else o').0
if_SameIds true s o o' h h' = h
if_SameIds false s o o' h h' = h'

pub refreshed-SameIds :
    (s : State) (id : NodeId) (owner : Text) (at : Timestamp)
    → SameIds s (apply_claim_refreshed s id owner at).0
unfolding apply_claim_refreshed
refreshed-SameIds s id owner at = with_node-SameIds s id _ (λ p.
    if_SameIds (not (same_workflow (s.heap p).workflow_state claimed)) s _ _ (refl_ids s) (
      if_SameIds (not (text_eq (s.heap p).claimed_by owner)) s _ _ (refl_ids s)
        (set_node-SameIds s p (record (s.heap p) { claimed_at = at }) refl)))

pub raised-SameIds :
    (s : State) (at : Timestamp) (c : ChallengeData) → SameIds s (apply_challenge_raised s at c).0
unfolding apply_challenge_raised add_challenge
raised-SameIds s at c =
    elim (Result-cases (
      validate_challenge_severity
        (if is_unset c.severity then default_challenge_severity else c.severity))) [
          | inl (e, bad) ↦ rw (bad, apply_challenge_raised) (refl_ids s)
          | inr (_, good) ↦
              rw (good, apply_challenge_raised)
                (record { nodes = refl; fresh = refl; ids = λ p. refl })
        ]

pub status-SameIds :
    (s : State) (id : Text) (status : ChallengeStatus)
    → SameIds s (set_challenge_status s id status).0
unfolding set_challenge_status
status-SameIds s id status = elim (Option-cases (get_challenge s id)) [
  | inl missing ↦ rw (missing, set_challenge_status) (refl_ids s)
  | inr (c, found) ↦
      rw (found, set_challenge_status) (record { nodes = refl; fresh = refl; ids = λ p. refl })
]

pub tracker-SameIds : (s : State) (r : Result ScopeError Tracker) → SameIds s (set_tracker s r).0
unfolding set_tracker
tracker-SameIds s (ok t) = record { nodes = refl; fresh = refl; ids = λ p. refl }
tracker-SameIds s (err e) = refl_ids s

cached-SameIds : (s : State) → SameIds s (challenges_by_node_id s).0
unfolding challenges_by_node_id
cached-SameIds s = elim (Option-cases s.challenges_by_node) [
  | inl none_yet ↦
      rw (none_yet, challenges_by_node_id) (record { nodes = refl; fresh = refl; ids = λ p. refl })
  | inr (cache, there) ↦
      rw (there, challenges_by_node_id) (record { nodes = refl; fresh = refl; ids = λ p. refl })
]

superseded-SameIds : (s : State) (id : NodeId) → SameIds s (supersede_open_challenges_for_node s id)
unfolding supersede_open_challenges_for_node get_challenges_for_node
superseded-SameIds s id =
    let same = cached-SameIds s in
    let (s', keys) = get_challenges_for_node s id in
    elim (Bool-cases (supersede_all keys s'.challenges).1) [
      | inl modified ↦
          rw (modified, supersede_open_challenges_for_node)
            (record { nodes = same.nodes; fresh = same.fresh; ids = same.ids })
      | inr kept ↦
          rw (kept, supersede_open_challenges_for_node)
            (record { nodes = same.nodes; fresh = same.fresh; ids = same.ids })
    ]

propagated-ids :
    (sorter : Sorter) (h : Heap) (root : Ptr) (nodes : List (Option Ptr)) (p : Ptr)
    → ((propagate_taint sorter h (some root) nodes).0 p).id ≡ (h p).id
unfolding propagate_taint
propagated-ids sorter h root [] p = refl
propagated-ids sorter h root (n ∷ ns) p =
    ap (λ (m : Node). m.id)
      (propagate_loop-KeepsNodes (node_map h (n ∷ ns) [])
        (sorter.sort (λ q. depth (h q).id) (descendants h (h root).id (n ∷ ns))) h
        ((to_string (h root).id, get_ancestors (h root).id (node_map h (n ∷ ns) [])) ∷ []) p)

pub decided-SameIds :
    (s : State) (id : NodeId) (target : EpistemicState) (k : Ptr → State → State)
    → ((p : Ptr) (t : State) → SameIds t (k p t))
    → SameIds s (change_epistemic s id target k).0
decided-SameIds s id target k h = elim (change_epistemic-cases s id target k) [
  | inl (e, failed) ↦ subst (SameIds s) (sym (ap (λ (o : Outcome). o.0) failed)) (refl_ids s)
  | inr (p, _, _, done) ↦
      let n = record (s.heap p) { epistemic_state = target } in
      subst (SameIds s) (sym (ap (λ (o : Outcome). o.0) done)) (
        trans_ids s (set_node s p n) (k p (set_node s p n)) (set_node-SameIds s p n refl)
          (h p (set_node s p n)))
]

module _ (sorter : Sorter) where
  pub recomputed-SameIds : (p : Ptr) (t : State) → SameIds t (recompute_taint_for_node sorter p t)
  unfolding recompute_taint_for_node
  recomputed-SameIds p t = record {
    nodes = refl;
    fresh = refl;
    ids = λ q.
        let nodes = map some (all_nodes t) in
        let above = get_ancestors (t.heap p).id (node_map t.heap nodes []) in
        let taint = compute_taint (t.heap p) (map t.heap above) in
        propagated-ids sorter (set_taint t.heap p taint) p nodes q
        ∙ ap (λ (m : Node). m.id) (set_taint-KeepsNodes t.heap p taint q);
  }

  pub closed-SameIds :
      (id : NodeId) (p : Ptr) (t : State)
      → SameIds t (recompute_taint_for_node sorter p (supersede_open_challenges_for_node t id))
  closed-SameIds id p t =
      let t' = supersede_open_challenges_for_node t id in
      trans_ids t t' (recompute_taint_for_node sorter p t') (superseded-SameIds t id)
        (recomputed-SameIds p t')

pub amended-SameIds :
    (sha256_hex : Text → Text) (s : State) (at : Timestamp) (a : AmendmentData)
    → SameIds s (apply_node_amended sha256_hex s at a).0
unfolding apply_node_amended add_amendment write
amended-SameIds sha256_hex s at a =
    with_node-SameIds s a.node_id _
      (λ p. record { nodes = refl; fresh = refl; ids = λ q. ground (arith, ==_iff q p) })

pub tainted-SameIds :
    (s : State) (id : NodeId) (t : TaintState) → SameIds s (apply_taint_recomputed s id t).0
unfolding apply_taint_recomputed
tainted-SameIds s id t =
    with_node-SameIds s id _
      (λ p. set_node-SameIds s p (record (s.heap p) { taint_state = t }) refl)
