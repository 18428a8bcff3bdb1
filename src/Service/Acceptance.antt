-- ===== src/Service/Acceptance.antt =====
-- AcceptNodeWithNote of internal/service/proof.go leaves a node for which the first half of
-- CheckValidationInvariant of internal/node/validate_invariant.go holds.
use vibefeld.Prelude.{
  ◌≡◌, refl, ◌∙◌, ap, Bool, true, false, not, ◌&&◌, ◌||◌, Bool-cases, inl, inr, none, some, Option,
  List, [], ◌∷◌, map, filter, any, Text, eq_text, text_eq, lookup, ◌==◌, ==_iff, if◌then◌else◌, ok,
  ℕ, arith,
}
use vibefeld.Types.NodeId.{NodeId, to_string, parent}
use vibefeld.Schema.Epistemic.{
  EpistemicState, validated, admitted, same_state, validate_epistemic_transition,
}
use vibefeld.Node.{Node, Timestamp}
use vibefeld.Node.Invariant.{is_invalid_child, invalid_children, check_validation_invariant}
use vibefeld.Taint.{Ptr, Heap, Sorter, set_taint, compute_taint, node_map, get_ancestors}
use vibefeld.Taint.Propagate.{KeepsNodes, KeepsNodes-trans, set_taint-KeepsNodes}
use vibefeld.Ledger.Event.{Event}
use vibefeld.State.{State, get_node, all_nodes, write}
use vibefeld.State.Handlers.{Outcome, set_node, with_node}
use vibefeld.State.Apply.{apply, change_epistemic, apply_node_validated, recompute_taint_for_node}
use vibefeld.State.Keyed.{IsKeyed}
use vibefeld.State.TaintInvariant.{propagate_taint-KeepsNodes}
use vibefeld.Service.{children_of, has_parent_string}
use vibefeld.Service.Accepts.{Accepts, planned-Accepts}
use vibefeld.Service.Decisions.{is_accepted, accept_node_with_note}

-- The recomputation changes taints only.
recomputed-KeepsNodes :
    (sorter : Sorter) (p : Ptr) (t : State)
    → KeepsNodes t.heap (recompute_taint_for_node sorter p t).heap
unfolding recompute_taint_for_node
recomputed-KeepsNodes sorter p t =
    let nodes = map some (all_nodes t) in
    let above = get_ancestors (t.heap p).id (node_map t.heap nodes []) in
    let h = set_taint t.heap p (compute_taint (t.heap p) (map t.heap above)) in
    KeepsNodes-trans t.heap h (recompute_taint_for_node sorter p t).heap
      (set_taint-KeepsNodes t.heap p _) (propagate_taint-KeepsNodes sorter h p nodes)

or_false : (a b : Bool) → (not a || b) ≡ false → (a ≡ true) × (b ≡ false)
or_false a b e = ground arith

-- What is settled of the one heap is not bad on the other.
module _ (h h' : Heap) (f f' : Ptr → Bool) (same : (q : Ptr) → f' q ≡ f q)
    (settled bad : Node → Bool) (kept : (q : Ptr) → settled (h q) ≡ true → bad (h' q) ≡ false) where
  none_bad :
      (qs : List Ptr)
      → any (λ q. not (settled (h q))) (filter f qs) ≡ false
      → filter bad (map h' (filter f' qs)) ≡ []
  none_bad [] e = refl
  none_bad (q ∷ qs) e = elim (Bool-cases (f q)) [
    | inl child ↦
        let (good, rest) = or_false (settled (h q)) _ (rw child at e) in
        rw (same q ∙ child) (rw (kept q good) (none_bad qs rest))
    | inr other ↦ rw (same q ∙ other) (none_bad qs (rw other at e))
  ]

has_parent_string-eq :
    (o : Option NodeId) (a b : NodeId)
    → to_string a ≡ to_string b
    → has_parent_string o a ≡ has_parent_string o b
has_parent_string-eq none a b e = refl
has_parent_string-eq (some p) a b e = ap (text_eq (to_string p)) e

decision-eq :
    (s : State) (id : NodeId) (target : EpistemicState) (k : Ptr → State → State) (p : Ptr)
    → get_node s id ≡ some p
    → validate_epistemic_transition (s.heap p).epistemic_state target ≡ ok tt
    → change_epistemic s id target k
      ≡ (k p (set_node s p (record (s.heap p) { epistemic_state = target })), ok tt)
unfolding change_epistemic
decision-eq s id target k p found may =
    rw (found, change_epistemic, with_node) (rw (may, change_epistemic) refl)

accepted_valid :
    (x : EpistemicState)
    → is_accepted x ≡ true
    → (not (same_state x validated) && not (same_state x admitted)) ≡ false
accepted_valid x h = ground arith

module _ (sha256_hex : Text → Text) (sorter : Sorter) (now : Timestamp) (st : State) (id : NodeId)
    (note : Text) (e : Event) (seq : ℕ)
    (planned : accept_node_with_note now id note (ok st) ≡ ok (e, seq)) where
  abbrev next_state : State
  next_state = (apply sha256_hex sorter now st e).0

  -- What the event leaves of a node that is planned to be accepted.
  record Accepted (p : Ptr) : Type 0 where
    nodes : next_state.nodes ≡ st.nodes
    heap :
        (q : Ptr)
        → (next_state.heap q).epistemic_state
          ≡ (if q == p then validated else (st.heap q).epistemic_state)
    ids : (q : Ptr) → (next_state.heap q).id ≡ (st.heap q).id

  Accepts-Accepted : (p : Ptr) → Accepts now st id note e seq p → Accepted p
  unfolding apply apply_node_validated write recompute_taint_for_node
  Accepts-Accepted p a =
      let n = record (st.heap p) { epistemic_state = validated } in
      let u = set_node st p n in
      let t = recompute_taint_for_node sorter p u in
      let done =
        ap (λ (o : Outcome). o.0)
          (decision-eq st id validated (recompute_taint_for_node sorter) p a.has a.may) in
      let same : next_state ≡ t = ap (λ x. (apply sha256_hex sorter now st x).0) a.event ∙ done in
      let keeps = recomputed-KeepsNodes sorter p u in
      record {
        nodes = ap (λ (x : State). x.nodes) same ∙ refl;
        heap = λ q.
            ap (λ (x : State). (x.heap q).epistemic_state) same
            ∙ ap (λ (m : Node). m.epistemic_state) (keeps q)
            ∙ written q (st.heap q) (q == p);
        ids = λ q.
            ap (λ (x : State). (x.heap q).id) same ∙ ap (λ (m : Node). m.id) (keeps q) ∙ same_id q;
      }
    where
      written :
          (q : Ptr) (m : Node) (b : Bool)
          → (if b then record (st.heap p) { epistemic_state = validated } else m).epistemic_state
            ≡ (if b then validated else m.epistemic_state)
      written q m true = refl
      written q m false = refl

      same_id :
          (q : Ptr)
          → (if q == p then record (st.heap p) { epistemic_state = validated } else st.heap q).id
            ≡ (st.heap q).id
      same_id q = ground (arith, ==_iff q p)

  module _ (keyed : IsKeyed st) (p : Ptr) (a : Accepts now st id note e seq p)
      (acc : Accepted p) where
    accepted_kept :
        (q : Ptr)
        → is_accepted (st.heap q).epistemic_state ≡ true
        → is_invalid_child (next_state.heap q) ≡ false
    unfolding same_state is_invalid_child
    accepted_kept q h = elim (Bool-cases (q == p)) [
      | inl same ↦ rw (acc.heap q) (rw same refl)
      | inr other ↦ rw (acc.heap q) (rw other (accepted_valid (st.heap q).epistemic_state h))
    ]

    same_children :
        (q : Ptr)
        → has_parent_string (parent (next_state.heap q).id) (next_state.heap p).id
          ≡ has_parent_string (parent (st.heap q).id) id
    same_children q =
        ap (λ i. has_parent_string (parent i) (next_state.heap p).id) (acc.ids q)
        ∙ has_parent_string-eq (parent (st.heap q).id) (next_state.heap p).id id
            (ap to_string (acc.ids p) ∙ keyed.named (to_string id) p a.has)

    no_invalid_children :
        invalid_children (map next_state.heap (children_of next_state (next_state.heap p).id)) ≡ []
    unfolding invalid_children children_of
    no_invalid_children = rw acc.nodes (
        none_bad st.heap next_state.heap (λ q. has_parent_string (parent (st.heap q).id) id)
          (λ q. has_parent_string (parent (next_state.heap q).id) (next_state.heap p).id)
          same_children (λ n. is_accepted n.epistemic_state) is_invalid_child accepted_kept
          (all_nodes st) a.children)

    now_validated : (next_state.heap p).epistemic_state ≡ validated
    now_validated = acc.heap p ∙ rw ((==_iff p p).1 refl) refl

    invariant_holds :
        check_validation_invariant
          (some (next_state.heap p))
          (λ i. map next_state.heap (children_of next_state i))
          none
        ≡ ok tt
    unfolding check_validation_invariant same_state
    invariant_holds = rw now_validated (rw no_invalid_children refl)

  -- When AcceptNodeWithNote plans an event, on a state with each node under the string of its
  -- identifier, then applying the event leaves the node validated, and CheckValidationInvariant, which
  -- asks for its children in the state that is left and not for challenges, finds nothing wrong.
  pub check_validation_invariant-accept_node_with_note :
      IsKeyed st
      → (p : Ptr) × (get_node next_state id ≡ some p)
        × ((next_state.heap p).epistemic_state ≡ validated)
        × (check_validation_invariant
              (some (next_state.heap p))
              (λ i. map next_state.heap (children_of next_state i))
              none
            ≡ ok tt)
  check_validation_invariant-accept_node_with_note keyed =
      let (p, a) = planned-Accepts now st id note e seq planned in
      let acc = Accepts-Accepted p a in
      (
        p,
        ap (λ nodes. lookup nodes (to_string id)) acc.nodes ∙ a.has,
        now_validated keyed p a acc,
        invariant_holds keyed p a acc,
      )
