-- ===== src/State/TaintKept.antt =====
-- Which events keep the taints consistent (internal/state/apply.go).
use vibefeld.Prelude.{
  ◌≡◌, refl, sym, ◌∙◌, ap, subst, Bool, ◌||◌, Option, some, List, [], ◌∷◌, map, any, Text, Map,
  eq_text, arith, ok, Bool-cases, inl, inr, map-mem, ◌==◌, ==_iff,
}
use vibefeld.Types.NodeId.{NodeId, to_string}
use vibefeld.Types.NodeId.Canonical.{IsCanonical}
use vibefeld.Schema.Epistemic.{
  EpistemicState, pending, validated, admitted, refuted, archived, needs_refinement,
  validate_epistemic_transition, same_state, introduces_taint,
}
use vibefeld.Schema.Epistemic.Transitions
use vibefeld.Schema.Epistemic.Transitions.{transition_iff, ◌⟶◌}
use vibefeld.Node.{Node, Timestamp, unresolved, tainted, self_admitted}
use vibefeld.Taint.{
  Ptr, Heap, Sorter, compute_taint, node_map, get_ancestors, is_unresolved, taints_below,
  same_taint,
}
use vibefeld.Taint.Correct.{AllCanonical}
use vibefeld.Ledger.Event.{
  Event, node_validated, node_admitted, node_refuted, node_archived, refinement_requested,
}
use vibefeld.State.{State, write, get_node, all_nodes}
use vibefeld.State.Handlers.{Outcome, set_node, supersede_open_challenges_for_node}
use vibefeld.State.Apply.{
  change_epistemic, recompute_taint_for_node, apply, apply_node_validated, apply_node_admitted,
  apply_node_refuted, apply_node_archived, apply_refinement_requested,
}
use vibefeld.State.Decision.{change_epistemic-cases, supersede-nodes, lookup-mem}
use vibefeld.State.TaintInvariant.{
  AllConsistent, AllCanonical-mem, decision-AllConsistent, node_map-ids,
}

-- The events that decide on a node.
pub data IsDecision : Event → Type 0 where
  validates : {at : Timestamp} {id : NodeId} {note : Text} → IsDecision (node_validated at id note)
  admits : {at : Timestamp} {id : NodeId} → IsDecision (node_admitted at id)
  refutes : {at : Timestamp} {id : NodeId} → IsDecision (node_refuted at id)
  archives : {at : Timestamp} {id : NodeId} → IsDecision (node_archived at id)
  reopens :
      {at : Timestamp} {id : NodeId} {reason by_whom : Text}
      → IsDecision (refinement_requested at id reason by_whom)

-- The nodes of the state have canonical identifiers.
abbrev pub HasCanonicalIds : State → Type 0
HasCanonicalIds s = AllCanonical s.heap (map some (all_nodes s))

-- Each node of the state has the taint that `ComputeTaint` gives it for its ancestors.
abbrev pub TaintsConsistent : State → Type 0
TaintsConsistent s = AllConsistent s.heap (map some (all_nodes s))

lookup-IsCanonical :
    (s : State) (id : NodeId) (p : Ptr)
    → HasCanonicalIds s
    → get_node s id ≡ some p
    → IsCanonical (s.heap p).id
lookup-IsCanonical s id p c found =
    AllCanonical-mem s.heap p (map some (all_nodes s)) c
      (map-mem some p (all_nodes s) (lookup-mem s.nodes (to_string id) p found))

module _ (sorter : Sorter) where
  -- A decision with its recomputation, where `mid` is the state in between.
  recomputed :
      (s mid : State) (p : Ptr) (target : EpistemicState)
      → HasCanonicalIds s
      → TaintsConsistent s
      → IsCanonical (s.heap p).id
      → mid.heap ≡ write s.heap p (record (s.heap p) { epistemic_state = target })
      → mid.nodes ≡ s.nodes
      → TaintsConsistent (recompute_taint_for_node sorter p mid)
  unfolding recompute_taint_for_node
  recomputed s mid p target c before cp heap nodes =
      subst
        (λ (ns : Map Text Ptr).
          (h : Heap)
          → h ≡ write s.heap p (record (s.heap p) { epistemic_state = target })
          → TaintsConsistent
              (recompute_taint_for_node sorter p (record mid { heap = h; nodes = ns })))
        (sym nodes)
        (λ h e.
          subst
            (λ (g : Heap).
              TaintsConsistent
                (recompute_taint_for_node sorter p (record mid { heap = g; nodes = s.nodes })))
            (sym e)
            (decision-AllConsistent sorter s.heap p (record (s.heap p) { epistemic_state = target })
              (map some (all_nodes s)) refl cp c before))
        mid.heap heap

  changed :
      (s : State) (id : NodeId) (target : EpistemicState) (k : State → State)
      → ((t : State) → ((k t).heap ≡ t.heap) × ((k t).nodes ≡ t.nodes))
      → HasCanonicalIds s
      → TaintsConsistent s
      → TaintsConsistent
          (change_epistemic s id target (λ p t. recompute_taint_for_node sorter p (k t))).0
  changed s id target k keeps c before =
      elim (change_epistemic-cases s id target (λ p t. recompute_taint_for_node sorter p (k t))) [
        | inl (e, same) ↦ subst TaintsConsistent (sym (ap (λ (o : Outcome). o.0) same)) before
        | inr (p, found, _, done) ↦
            let t = set_node s p (record (s.heap p) { epistemic_state = target }) in
            subst TaintsConsistent (sym (ap (λ (o : Outcome). o.0) done)) (
              recomputed s (k t) p target c before (lookup-IsCanonical s id p c found) (keeps t).0
                (keeps t).1)
      ]

-- Two heaps with the same taints, where the decisions differ only in what taint does not look at.
module _ (h h' : Heap) (taints : (p : Ptr) → (h' p).taint_state ≡ (h p).taint_state) where
  any-taints :
      (f : Node → Bool)
      → ((a b : Node) → a.taint_state ≡ b.taint_state → f a ≡ f b)
      → (ps : List Ptr) → any f (map h' ps) ≡ any f (map h ps)
  any-taints f local [] = refl
  any-taints f local (p ∷ ps) = cc (local (h' p) (h p) (taints p), any-taints f local ps)

  compute_taint-same :
      (a b : Node) (ps : List Ptr)
      → same_state a.epistemic_state pending ≡ same_state b.epistemic_state pending
      → introduces_taint a.epistemic_state ≡ introduces_taint b.epistemic_state
      → compute_taint a (map h' ps) ≡ compute_taint b (map h ps)
  unfolding compute_taint
  compute_taint-same a b ps e f =
      rw (e, f)
        (rw
          (
            any-taints is_unresolved (λ x y t. ap (λ z. same_taint z unresolved) t) ps,
            any-taints taints_below
                (λ x y t. ap (λ z. same_taint z tainted || same_taint z self_admitted) t) ps,
          )
          refl)

step_to-needs_refinement : {s t : EpistemicState} → s ⟶ t → t ≡ needs_refinement → s ≡ validated
step_to-needs_refinement (Transitions.decide o Transitions.accept) e = absurd (cc)
step_to-needs_refinement (Transitions.decide o Transitions.admit) e = absurd (cc)
step_to-needs_refinement (Transitions.decide o Transitions.refute) e = absurd (cc)
step_to-needs_refinement (Transitions.decide o Transitions.archive) e = absurd (cc)
step_to-needs_refinement Transitions.reopen e = refl

from_validated :
    (e : EpistemicState) → validate_epistemic_transition e needs_refinement ≡ ok tt → e ≡ validated
from_validated e h = step_to-needs_refinement ((transition_iff e needs_refinement).0 h) refl

-- Reopening a validated node changes nothing that the taint depends on.
module _ (h : Heap) (p : Ptr) (was : (h p).epistemic_state ≡ validated) where
  abbrev after : Heap
  after = write h p (record (h p) { epistemic_state = needs_refinement })

  after-taint : (q : Ptr) → (after q).taint_state ≡ (h q).taint_state
  unfolding write
  after-taint q = ground arith

  after-id : (q : Ptr) → (after q).id ≡ (h q).id
  unfolding write
  after-id q = ground arith

  after-pending :
      (q : Ptr)
      → (same_state (after q).epistemic_state pending ≡ same_state (h q).epistemic_state pending)
        × (introduces_taint (after q).epistemic_state ≡ introduces_taint (h q).epistemic_state)
  unfolding write same_state introduces_taint
  after-pending q = elim (Bool-cases (q == p)) [
    | inl e ↦
        rw (e, write) (rw (ap (λ r. (h r).epistemic_state) ((==_iff q p).0 e) ∙ was) (refl, refl))
    | inr e ↦ rw (e, write) (refl, refl)
  ]

  reopened-AllConsistent :
      (nodes : List (Option Ptr)) → AllConsistent h nodes → AllConsistent after nodes
  reopened-AllConsistent nodes before q here =
      after-taint q
      ∙ before q here
      ∙ sym (
          compute_taint-same h after after-taint (after q) (h q)
            (get_ancestors (h q).id (node_map h nodes [])) (after-pending q).0 (after-pending q).1)
      ∙ ap (λ id. compute_taint (after q) (map after (get_ancestors id (node_map h nodes []))))
          (sym (after-id q))
      ∙ ap (λ m. compute_taint (after q) (map after (get_ancestors (after q).id m)))
          (sym (node_map-ids h after after-id nodes []))

reopened_kept :
    (s : State) (id : NodeId)
    → TaintsConsistent s
    → TaintsConsistent (apply_refinement_requested s id).0
unfolding apply_refinement_requested
reopened_kept s id before = elim (change_epistemic-cases s id needs_refinement (λ p t. t)) [
  | inl (e, same) ↦ subst TaintsConsistent (sym (ap (λ (o : Outcome). o.0) same)) before
  | inr (p, found, allowed, done) ↦
      subst TaintsConsistent (sym (ap (λ (o : Outcome). o.0) done))
        (reopened-AllConsistent s.heap p (from_validated _ allowed) (map some (all_nodes s)) before)
]

-- When the taint of every node is what `ComputeTaint` gives it for its ancestors, it still is after
-- `Apply` of any decision on a node, whether the decision succeeds or fails. The identifiers of the
-- state's nodes are canonical.
pub decision-keeps_taint :
    (sha256_hex : Text → Text) (sorter : Sorter) (now : Timestamp) (s : State) (event : Event)
    → IsDecision event
    → HasCanonicalIds s
    → TaintsConsistent s
    → TaintsConsistent (apply sha256_hex sorter now s event).0
unfolding apply apply_node_validated apply_node_admitted apply_node_refuted apply_node_archived
decision-keeps_taint sha256_hex sorter now s _ (validates {id}) c before =
    changed sorter s id validated (λ t. t) (λ t. (refl, refl)) c before
decision-keeps_taint sha256_hex sorter now s _ (admits {id}) c before =
    changed sorter s id admitted (λ t. t) (λ t. (refl, refl)) c before
decision-keeps_taint sha256_hex sorter now s _ (refutes {id}) c before =
    changed sorter s id refuted (λ t. supersede_open_challenges_for_node t id)
      (λ t. supersede-nodes t id) c before
decision-keeps_taint sha256_hex sorter now s _ (archives {id}) c before =
    changed sorter s id archived (λ t. supersede_open_challenges_for_node t id)
      (λ t. supersede-nodes t id) c before
decision-keeps_taint sha256_hex sorter now s _ (reopens {id}) c before = reopened_kept s id before
