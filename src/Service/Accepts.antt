-- ===== src/Service/Accepts.antt =====
-- What AcceptNodeWithNote of internal/service/proof.go has checked of what it plans.
use vibefeld.Prelude.{
  ◌≡◌, refl, sym, ◌∙◌, ap, false, not, ◌&&◌, Option-cases, inl, inr, some, any, Text, eq_text, ltb,
  length, Result, ok, err, fail_if-eq_ok, bind-eq_ok, eq_of_ok-eq, ℕ,
}
use vibefeld.Types.NodeId.{NodeId}
use vibefeld.Schema.Epistemic.{
  EpistemicError, validated, needs_refinement, same_state, validate_epistemic_transition,
}
use vibefeld.Node.{Timestamp}
use vibefeld.Taint.{Ptr}
use vibefeld.Ledger.Event.{Event, node_validated}
use vibefeld.State.{State, get_node}
use vibefeld.Service.{
  children_of, map_error, bad_transition, found_or, node_not_found, blocking_challenges,
  unvalidated_deps, unvalidated_children, no_refinement_children,
}
use vibefeld.Service.Decisions.{
  is_accepted, is_accepted_dep, has_blocking, check_transition, accept_node_with_note,
}

found_or-ok :
    (st : State) (id : NodeId) (p : Ptr)
    → found_or node_not_found st id ≡ ok p
    → get_node st id ≡ some p
found_or-ok st id p e = elim (Option-cases (get_node st id)) [
  | inl missing ↦ let failed = rw (missing, found_or) at e in absurd (cc)
  | inr (q, found) ↦ found ∙ ap some (eq_of_ok-eq q p (rw (found, found_or) at e))
]

map_error-passes :
    (r : Result EpistemicError (Unit {0})) (u : Unit {0})
    → map_error bad_transition r ≡ ok u
    → r ≡ ok tt
map_error-passes (ok tt) u e = refl
map_error-passes (err x) u e = absurd (cc)

module _ (now : Timestamp) (st : State) (id : NodeId) (note : Text) (e : Event) (seq : ℕ) where
  -- The guards that an acceptance has passed.
  pub record Accepts (p : Ptr) : Type 0 where
    pub has : get_node st id ≡ some p
    pub children :
        any (λ q. not (is_accepted (st.heap q).epistemic_state)) (children_of st id) ≡ false
    pub may : validate_epistemic_transition (st.heap p).epistemic_state validated ≡ ok tt
    pub event : e ≡ node_validated now id note

  pub planned-Accepts :
      accept_node_with_note now id note (ok st) ≡ ok (e, seq) → (p : Ptr) × Accepts p
  unfolding accept_node_with_note
  planned-Accepts planned =
      let (p, found, e1) = bind-eq_ok (found_or node_not_found st id) _ (e, seq) planned in
      let (_, e2) = fail_if-eq_ok (has_blocking st id) blocking_challenges _ (e, seq) e1 in
      let (_, e3) =
        fail_if-eq_ok (any (λ dep. not (is_accepted_dep st dep)) (st.heap p).validation_deps)
          unvalidated_deps _ (e, seq) e2 in
      let (children, e4) =
        fail_if-eq_ok (any (λ q. not (is_accepted (st.heap q).epistemic_state)) (children_of st id))
          unvalidated_children _ (e, seq) e3 in
      let (_, e5) =
        fail_if-eq_ok
          (same_state (st.heap p).epistemic_state needs_refinement
            && not (ltb 0 (length (children_of st id))))
          no_refinement_children _ (e, seq) e4 in
      let (_, passed, e6) = bind-eq_ok (check_transition st p validated) _ (e, seq) e5 in
      (
        p,
        record {
          has = found_or-ok st id p found;
          children = children;
          may = map_error-passes _ _ passed;
          event = sym (ap (λ (pair : Event × ℕ). pair.0) (eq_of_ok-eq _ (e, seq) e6));
        },
      )
