-- ===== src/Independence/Decides.antt =====
-- ValidateIndependence of internal/lemma/independence.go returns, and decides what it is asked.
use vibefeld.Prelude.{
  ℕ, zero, suc, ◌≤◌, ◌<◌, ◌≡◌, refl, sym, ◌∙◌, ap, subst, ◌↔◌, ◌⊎◌, inl, inr, Bool, true, ◌&&◌,
  Bool-cases, Option-cases, Result-cases, Option, none, some, eq_of_some-eq, List, [], ◌∷◌, Text,
  length, All, ok, err, arith,
}
use vibefeld.Types.NodeId.{NodeId, IdError, parse, parent}
use vibefeld.Types.NodeId.Canonical.{parent-cases}
use vibefeld.Schema.Epistemic.{EpistemicState, validated, admitted, same_state}
use vibefeld.Node.{TaintState, clean}
use vibefeld.Taint.{Ptr, same_taint}
use vibefeld.State.{State, get_node}
use vibefeld.Independence.{
  IndependenceResult, parsed_scope, check_local_dependencies, is_valid_ancestor, invalid_from,
  check_ancestor_validity, is_nil, result_with, validate_independence,
}
use vibefeld.Independence.States.{validated_iff, extractable_iff, clean_iff}

-- `Parent`, once or more often.
pub data Above : NodeId → NodeId → Type 0 where
  direct : {n p : NodeId} → parent n ≡ some p → Above n p
  further : {n p q : NodeId} → parent n ≡ some p → Above p q → Above n q

-- A scope reference that is no identifier.
abbrev pub NoIdentifier : Text → Type 0
NoIdentifier s = (e : IdError) × (parse s ≡ err e)

parsed_scope_iff : (ss : List Text) → (is_nil (parsed_scope ss) ≡ true) ↔ All NoIdentifier ss
unfolding parsed_scope
parsed_scope_iff [] = (λ _. tt, λ _. refl)
parsed_scope_iff (s ∷ ss) = elim (Result-cases (parse s)) [
  | inl (e, bad) ↦
      rw (bad, parsed_scope)
        ((λ h. ((e, refl), (parsed_scope_iff ss).0 h), λ a. (parsed_scope_iff ss).1 a.1))
  | inr (id, good) ↦
      rw (good, parsed_scope) ((λ h. absurd (cc), λ a. let (e, bad) = a.0 in absurd (cc)))
]

answer :
    (es : EpistemicState) (t : TaintState) (local : List NodeId) (o : Option (List NodeId))
    (ids : List NodeId)
    → o ≡ some ids
    → (r : IndependenceResult) × (result_with es t local o ≡ some r)
      × (r.is_independent
          ≡ (same_state es validated && is_nil local && is_nil ids && same_taint t clean))
answer es t local none ids e = absurd (cc)
answer es t local (some found) ids e = (
  _,
  refl,
  ap
      (λ (x : List NodeId).
        same_state es validated && is_nil local && is_nil x && same_taint t clean)
      (eq_of_some-eq found ids e),
)

module _ (st : State) where
  abbrev ValidUp : Option NodeId → Type 0
  ValidUp none = Unit
  ValidUp (some id) =
      (is_valid_ancestor st id ≡ true) × ((q : NodeId) → Above id q → is_valid_ancestor st q ≡ true)

  -- The parent and what is above it.
  up :
      (id : NodeId)
      → ValidUp (parent id)
      → (q : NodeId) → Above id q
      → is_valid_ancestor st q ≡ true
  up id h q (direct e) = (subst ValidUp e h).0
  up id h q (further {p} e a) = (subst ValidUp e h).1 q a

  down :
      (id : NodeId) (o : Option NodeId)
      → parent id ≡ o
      → ((q : NodeId) → Above id q → is_valid_ancestor st q ≡ true)
      → ValidUp o
  down id none e h = tt
  down id (some p) e h = (h p (direct e), λ q a. h q (further e a))

  abbrev Enough : ℕ → Option NodeId → Type 0
  Enough fuel none = Unit
  Enough fuel (some id) = (0 < length id.parts) × (length id.parts ≤ fuel)

  parent-Enough : (fuel : ℕ) (id : NodeId) → length id.parts ≤ suc fuel → Enough fuel (parent id)
  parent-Enough fuel id h = elim (parent-cases id) [
    | inl (root, _) ↦ subst (Enough fuel) (sym root) tt
    | inr (p, e, _, longer, more) ↦ subst (Enough fuel) (sym e) (omega arith, omega arith)
  ]

  invalid_from_lem :
      (fuel : ℕ) (o : Option NodeId)
      → Enough fuel o
      → (ids : List NodeId) × (invalid_from fuel st o ≡ some ids)
        × ((is_nil ids ≡ true) ↔ ValidUp o)
  unfolding invalid_from
  invalid_from_lem fuel none enough = ([], refl, (λ _. tt, λ _. refl))
  invalid_from_lem zero (some id) enough = absurd (omega (arith, enough.0, enough.1))
  invalid_from_lem (suc fuel) (some id) enough =
      let (ids, e, iff) = invalid_from_lem fuel (parent id) (parent-Enough fuel id enough.1) in
      elim (Bool-cases (is_valid_ancestor st id)) [
        | inl good ↦ (
          ids,
          rw good e,
          (λ h. (good, up id (iff.0 h)), λ v. iff.1 (down id (parent id) refl v.1)),
        )
        | inr bad ↦ (id ∷ ids, rw bad (rw e refl), (λ h. absurd (cc), λ v. absurd (cc (v.0, bad))))
      ]

  -- The node is there, and it is validated or admitted.
  abbrev pub IsAccepted : NodeId → Type 0
  IsAccepted q =
      (p : Ptr) × (get_node st q ≡ some p)
      × (((st.heap p).epistemic_state ≡ validated) ⊎ ((st.heap p).epistemic_state ≡ admitted))

  is_valid_ancestor_iff : (q : NodeId) → (is_valid_ancestor st q ≡ true) ↔ IsAccepted q
  unfolding is_valid_ancestor
  is_valid_ancestor_iff q = elim (Option-cases (get_node st q)) [
    | inl missing ↦ rw (missing, is_valid_ancestor) ((λ h. absurd (cc), λ (_, e, _). absurd (cc e)))
    | inr (p, found) ↦ (
      λ h. (
        p,
        found,
        (extractable_iff (st.heap p).epistemic_state).0 (rw (found, is_valid_ancestor) at h),
      ),
      λ (r, e, accepted).
          rw (e, is_valid_ancestor) ((extractable_iff (st.heap r).epistemic_state).1 accepted),
    )
  ]

  -- What must hold of a node and what is above it.
  pub record IsIndependent (id : NodeId) (p : Ptr) : Type 0 where
    pub is_validated : (st.heap p).epistemic_state ≡ validated
    pub is_clean : (st.heap p).taint_state ≡ clean
    pub no_assumption : All NoIdentifier (st.heap p).scope
    pub above : (q : NodeId) → Above id q → IsAccepted q

  checks_iff :
      (id : NodeId) (p : Ptr) (ids : List NodeId)
      → (is_nil ids ≡ true) ↔ ValidUp (parent id)
      → ((same_state (st.heap p).epistemic_state validated
            && is_nil (parsed_scope (st.heap p).scope)
            && is_nil ids
            && same_taint (st.heap p).taint_state clean)
          ≡ true)
        ↔ IsIndependent id p
  checks_iff id p ids iff = (
    λ h.
        let (a, b, c, d) = four _ _ _ _ h in
        record {
          is_validated = (validated_iff (st.heap p).epistemic_state).0 a;
          is_clean = (clean_iff (st.heap p).taint_state).0 d;
          no_assumption = (parsed_scope_iff (st.heap p).scope).0 b;
          above = λ q a. (is_valid_ancestor_iff q).0 (up id (iff.0 c) q a);
        },
    λ i.
        four_back _ _ _ _ ((validated_iff (st.heap p).epistemic_state).1 i.is_validated)
          ((parsed_scope_iff (st.heap p).scope).1 i.no_assumption)
          (iff.1 (down id (parent id) refl (λ q a. (is_valid_ancestor_iff q).1 (i.above q a))))
          ((clean_iff (st.heap p).taint_state).1 i.is_clean),
  )
    where
      four :
          (a b c d : Bool)
          → (a && b && c && d) ≡ true
          → (a ≡ true) × (b ≡ true) × (c ≡ true) × (d ≡ true)
      four a b c d h = ground arith

      four_back :
          (a b c d : Bool) → a ≡ true → b ≡ true → c ≡ true → d ≡ true → (a && b && c && d) ≡ true
      four_back a b c d ha hb hc hd = ground arith

  module _ (id : NodeId) (p : Ptr) (there : get_node st id ≡ some p) where
    walks : check_ancestor_validity id st ≡ invalid_from (length id.parts) st (parent id)
    unfolding check_ancestor_validity
    walks = rw (there, check_ancestor_validity) refl

    scoped : check_local_dependencies id st ≡ parsed_scope (st.heap p).scope
    unfolding check_local_dependencies
    scoped = rw (there, check_local_dependencies) refl

    reads :
        validate_independence id st
        ≡ ok (
            result_with
              (st.heap p).epistemic_state
              (st.heap p).taint_state
              (parsed_scope (st.heap p).scope)
              (check_ancestor_validity id st))
    unfolding validate_independence
    reads = rw (there, validate_independence) (rw scoped refl)

  -- ValidateIndependence, of a node that is there, returns, and it calls the node independent exactly
  -- if the node is validated and clean, no entry of its scope is an identifier, and every ancestor is
  -- there and validated or admitted.
  pub validate_independence_decides :
      (id : NodeId) (p : Ptr)
      → get_node st id ≡ some p
      → (r : IndependenceResult) × (validate_independence id st ≡ ok (some r))
        × ((r.is_independent ≡ true) ↔ IsIndependent id p)
  validate_independence_decides id p there =
      let n = st.heap p in
      let (ids, e, iff) = invalid_from_lem (length id.parts) (parent id) enough in
      let (r, made, says) = answer n.epistemic_state n.taint_state (parsed_scope n.scope) _ ids e in
      (
        r,
        reads id p there
            ∙ ap
                (λ (o : Option (List NodeId)).
                  ok (result_with n.epistemic_state n.taint_state (parsed_scope n.scope) o))
                (walks id p there)
            ∙ ap (λ (o : Option IndependenceResult). ok o) made,
        subst (λ b. (b ≡ true) ↔ IsIndependent id p) (sym says) (checks_iff id p ids iff),
      )
    where
      enough : Enough (length id.parts) (parent id)
      enough = elim (parent-cases id) [
        | inl (root, _) ↦ subst (Enough (length id.parts)) (sym root) tt
        | inr (q, found, _, longer, more) ↦
            subst (Enough (length id.parts)) (sym found) (omega arith, omega arith)
      ]
