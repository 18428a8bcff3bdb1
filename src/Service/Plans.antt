-- ===== src/Service/Plans.antt =====
-- Each operation of internal/service/proof.go that plans an event plans one that fits its state.
use vibefeld.Prelude.{
  ◌≡◌, refl, Bool, true, false, not, ◌&&◌, Option, none, some, Text, text_eq, text_eq_iff, eq_text,
  Result, ok, err, fail_if, ◌>>=◌, ◌>>◌, any, ltb, length,
}
use vibefeld.Text.{ℤ, is_blank}
use vibefeld.Types.NodeId.{NodeId}
use vibefeld.Schema.Epistemic.{
  EpistemicState, pending, validated, admitted, refuted, archived, needs_refinement, same_state,
  validate_epistemic_transition, EpistemicError,
}
use vibefeld.Schema.Workflow.{WorkflowState, available, claimed, blocked, other, same_workflow}
use vibefeld.Node.{Timestamp}
use vibefeld.Taint.{Ptr}
use vibefeld.Ledger.Event.{Event, node_admitted, node_refuted, node_archived, refinement_requested}
use vibefeld.State.{State, get_node}
use vibefeld.Service.{
  ServiceError, Planned, empty_input, invalid_timeout, not_available, not_claimed, owner_mismatch,
  node_not_found, blocking_challenges, unvalidated_deps, unvalidated_children,
  no_refinement_children, not_pending, bad_transition, map_error, found_or, is_positive,
  add_duration, children_of, claim_node, refresh_claim, release_node,
}
use vibefeld.Service.Decisions.{
  is_accepted, is_accepted_dep, has_blocking, check_transition, accept_node_with_note, admit_node,
  refute_node, archive_node, request_refinement, amend_node, decide,
}
use vibefeld.Service.{Configured}
use vibefeld.Service.Valid.{
  Has, MayBecome, Fits, claims, refreshes, releases, validates, admits, refutes, archives, reopens,
  amends,
}

available_of_same : (w : WorkflowState) → same_workflow w available ≡ true → w ≡ available
unfolding same_workflow
available_of_same available h = refl
available_of_same claimed h = absurd (cc)
available_of_same blocked h = absurd (cc)
available_of_same (other s) h = absurd (cc)

claimed_of_same : (w : WorkflowState) → same_workflow w claimed ≡ true → w ≡ claimed
unfolding same_workflow
claimed_of_same claimed h = refl
claimed_of_same available h = absurd (cc)
claimed_of_same blocked h = absurd (cc)
claimed_of_same (other s) h = absurd (cc)

pub true_of_not : (b : Bool) → not b ≡ false → b ≡ true
true_of_not true h = refl
true_of_not false h = absurd (cc)

module _ (cfg : Configured) where
  -- What an operation plans fits the state, and expects the state's sequence number.
  abbrev pub IsSound : State → Planned Event → Type 0
  IsSound st (err e) = Unit
  IsSound st (ok (event, expected)) = Fits cfg st.heap st.nodes event × (expected ≡ st.latest_seq)

  -- What a guard lets through holds of what follows it.
  pub fail_if-IsSound :
      (st : State) (b : Bool) (e : ServiceError) (k : Planned Event)
      → (b ≡ false → IsSound st k)
      → IsSound st (fail_if b e >> k)
  fail_if-IsSound st true e k h = tt
  fail_if-IsSound st false e k h = h refl

  found-IsSound :
      (st : State) (id : NodeId) (e : ServiceError) (k : Ptr → Planned Event)
      → ((p : Ptr) → Has st.heap st.nodes id p → IsSound st (k p))
      → IsSound st (found_or e st id >>= k)
  found-IsSound st id e k h = found (get_node st id) refl
    where
      found :
          (o : Option Ptr)
          → get_node st id ≡ o
          → IsSound st
              ((elim o as (λ _. Result ServiceError Ptr) [ none ↦ err e | some p ↦ ok p ]) >>= k)
      found none same = tt
      found (some p) same = h p same

  transition-IsSound :
      (st : State) (p : Ptr) (target : EpistemicState) (k : Planned Event)
      → (MayBecome st.heap p target → IsSound st k)
      → IsSound st (check_transition st p target >> k)
  transition-IsSound st p target k h =
      checked (validate_epistemic_transition (st.heap p).epistemic_state target) refl
    where
      checked :
          (r : Result EpistemicError (Unit {0}))
          → validate_epistemic_transition (st.heap p).epistemic_state target ≡ r
          → IsSound st (map_error bad_transition r >> k)
      checked (err x) same = tt
      checked (ok tt) same = h same

  module _ (now : Timestamp) (id : NodeId) (st : State) where
    pub claim_node-IsSound :
        (owner : Text) (timeout : ℤ) → IsSound st (claim_node now id owner timeout (ok st))
    unfolding claim_node
    claim_node-IsSound owner timeout = fail_if-IsSound st (is_blank owner) empty_input _ λ _.
        fail_if-IsSound st (not (is_positive timeout)) invalid_timeout _ λ _.
          found-IsSound st id node_not_found _ λ p found.
            fail_if-IsSound st (not (same_workflow (st.heap p).workflow_state available))
              not_available _
              λ free. (
                claims now id owner (add_duration now timeout) p found
                    (available_of_same (st.heap p).workflow_state (true_of_not _ free)),
                refl,
              )

    pub refresh_claim-IsSound :
        (owner : Text) (timeout : ℤ) → IsSound st (refresh_claim now id owner timeout (ok st))
    unfolding refresh_claim
    refresh_claim-IsSound owner timeout = fail_if-IsSound st (is_blank owner) empty_input _ λ _.
        fail_if-IsSound st (not (is_positive timeout)) invalid_timeout _ λ _.
          found-IsSound st id node_not_found _ λ p found.
            fail_if-IsSound st (not (same_workflow (st.heap p).workflow_state claimed)) not_claimed
              _
              λ held.
                fail_if-IsSound st (not (text_eq (st.heap p).claimed_by owner)) owner_mismatch _
                  λ own. (
                    refreshes now id owner (add_duration now timeout) p found
                        (claimed_of_same (st.heap p).workflow_state (true_of_not _ held))
                        ((text_eq_iff (st.heap p).claimed_by owner).0 (true_of_not _ own)),
                    refl,
                  )

    pub release_node-IsSound : (owner : Text) → IsSound st (release_node now id owner (ok st))
    unfolding release_node
    release_node-IsSound owner = found-IsSound st id node_not_found _ λ p found.
        fail_if-IsSound st (not (same_workflow (st.heap p).workflow_state claimed)) not_claimed _
          λ held.
            fail_if-IsSound st (not (text_eq (st.heap p).claimed_by owner)) owner_mismatch _ λ own.
              (
                releases now id p found
                    (claimed_of_same (st.heap p).workflow_state (true_of_not _ held)),
                refl,
              )

    pub accept_node_with_note-IsSound :
        (note : Text) → IsSound st (accept_node_with_note now id note (ok st))
    unfolding accept_node_with_note
    accept_node_with_note-IsSound note = found-IsSound st id node_not_found _ λ p found.
        fail_if-IsSound st (has_blocking st id) blocking_challenges _ λ _.
          fail_if-IsSound st (any (λ dep. not (is_accepted_dep st dep)) (st.heap p).validation_deps)
            unvalidated_deps _
            λ _.
              fail_if-IsSound st
                (any (λ q. not (is_accepted (st.heap q).epistemic_state)) (children_of st id))
                unvalidated_children _
                λ _.
                  fail_if-IsSound st
                    (same_state (st.heap p).epistemic_state needs_refinement
                      && not (ltb 0 (length (children_of st id))))
                    no_refinement_children _
                    λ _.
                      transition-IsSound st p validated _
                        λ may. (validates now id note p found may, refl)

    decide-IsSound :
        (target : EpistemicState) (event : Event)
        → ((p : Ptr)
            → Has st.heap st.nodes id p
            → MayBecome st.heap p target
            → Fits cfg st.heap st.nodes event)
        → IsSound st (decide target event id (ok st))
    decide-IsSound target event fits =
        found-IsSound st id node_not_found _
          λ p found. transition-IsSound st p target _ λ may. (fits p found may, refl)

    pub admit_node-IsSound : IsSound st (admit_node now id (ok st))
    unfolding admit_node
    admit_node-IsSound = decide-IsSound admitted (node_admitted now id) (admits now id)

    pub refute_node-IsSound : IsSound st (refute_node now id (ok st))
    unfolding refute_node
    refute_node-IsSound = decide-IsSound refuted (node_refuted now id) (refutes now id)

    pub archive_node-IsSound : IsSound st (archive_node now id (ok st))
    unfolding archive_node
    archive_node-IsSound = decide-IsSound archived (node_archived now id) (archives now id)

    pub request_refinement-IsSound :
        (reason requested_by : Text)
        → IsSound st (request_refinement now id reason requested_by (ok st))
    unfolding request_refinement
    request_refinement-IsSound reason requested_by =
        decide-IsSound needs_refinement (refinement_requested now id reason requested_by)
          (reopens now id reason requested_by)

    pub amend_node-IsSound :
        (owner new_statement : Text) → IsSound st (amend_node now id owner new_statement (ok st))
    unfolding amend_node
    amend_node-IsSound owner new_statement = fail_if-IsSound st (is_blank owner) empty_input _ λ _.
        fail_if-IsSound st (is_blank new_statement) empty_input _ λ _.
          found-IsSound st id node_not_found _ λ p found.
            fail_if-IsSound st (not (same_state (st.heap p).epistemic_state pending)) not_pending _
              λ _.
                fail_if-IsSound st
                  (same_workflow (st.heap p).workflow_state claimed
                    && not (text_eq (st.heap p).claimed_by owner))
                  owner_mismatch _ λ _. (amends now _ p found, refl)

  pub bind-IsSound :
      {A : Type 0} (st : State) (r : Result ServiceError A) (k : A → Planned Event)
      → ((a : A) → r ≡ ok a → IsSound st (k a))
      → IsSound st (r >>= k)
  bind-IsSound st (err e) k h = tt
  bind-IsSound st (ok a) k h = h a refl
