-- ===== src/State/Untouched.antt =====
-- The handlers that leave the challenges alone (internal/state/apply.go).
use vibefeld.Prelude.{
  Result-cases, ◌≡◌, refl, sym, ◌∙◌, subst, Bool, true, false, not, List, [], ◌∷◌, Text, eq_text,
  text_eq, if◌then◌else◌, Result, ok, err, Option-cases, inl, inr,
}
use vibefeld.Types.NodeId.{NodeId}
use vibefeld.Schema.Workflow.{available, claimed, validate_workflow_transition, same_workflow}
use vibefeld.Node.{Timestamp, TaintState}
use vibefeld.Taint.{Ptr}
use vibefeld.Scope.{ScopeError, Tracker}
use vibefeld.Ledger.Event.{AmendmentData}
use vibefeld.State.{State, add_amendment, get_node}
use vibefeld.State.Handlers.{
  Outcome, set_node, with_node, apply_nodes_claimed, apply_claim_refreshed, apply_nodes_released,
  apply_taint_recomputed, set_tracker,
}
use vibefeld.State.Apply.{apply_node_amended}
use vibefeld.State.Challenges.{Lists, IsCoherent}

-- The challenges and their cache are as before.
abbrev pub SameChallenges : State → State → Type 0
SameChallenges s t = (t.challenges_by_node ≡ s.challenges_by_node) × (t.challenges ≡ s.challenges)

pub same-IsCoherent : (s t : State) → SameChallenges s t → IsCoherent s → IsCoherent t
same-IsCoherent s t (a, b) before cache e = subst (Lists cache) (sym b) (before cache (sym a ∙ e))

pub trans_same : (s t u : State) → SameChallenges s t → SameChallenges t u → SameChallenges s u
trans_same s t u (a, b) (c, d) = (c ∙ a, d ∙ b)

pub with_node-same :
    (s : State) (id : NodeId) (k : Ptr → Outcome)
    → ((p : Ptr) → SameChallenges s (k p).0)
    → SameChallenges s (with_node s id k).0
with_node-same s id k h = elim (Option-cases (get_node s id)) [
  | inl missing ↦ rw (missing, with_node) (refl, refl)
  | inr (p, found) ↦ rw (found, with_node) (h p)
]

pub claimed_same :
    (owner : Text) (timeout : Timestamp) (ids : List NodeId) (s : State)
    → SameChallenges s (apply_nodes_claimed ids owner timeout s).0
unfolding apply_nodes_claimed
claimed_same owner timeout [] s = (refl, refl)
claimed_same owner timeout (id ∷ ids) s = with_node-same s id _ (λ p.
    elim (Result-cases (validate_workflow_transition (s.heap p).workflow_state claimed)) [
      | inl (e, bad) ↦ rw (bad, apply_nodes_claimed) (refl, refl)
      | inr (_, good) ↦
          let t = set_node s p (record (s.heap p) {
            workflow_state = claimed;
            claimed_by = owner;
            claimed_at = timeout;
          }) in
          rw (good, apply_nodes_claimed)
            (trans_same s t (apply_nodes_claimed ids owner timeout t).0 (refl, refl)
              (claimed_same owner timeout ids t))
    ])

pub released_same :
    (ids : List NodeId) (s : State) → SameChallenges s (apply_nodes_released ids s).0
unfolding apply_nodes_released
released_same [] s = (refl, refl)
released_same (id ∷ ids) s = with_node-same s id _ (λ p.
    elim (Result-cases (validate_workflow_transition (s.heap p).workflow_state available)) [
      | inl (e, bad) ↦ rw (bad, apply_nodes_released) (refl, refl)
      | inr (_, good) ↦
          let t =
            set_node s p
              (record (s.heap p) { workflow_state = available; claimed_by = []; claimed_at = 0 }) in
          rw (good, apply_nodes_released)
            (trans_same s t (apply_nodes_released ids t).0 (refl, refl) (released_same ids t))
    ])

pub if_same :
    (b : Bool) (s : State) (o o' : Outcome)
    → SameChallenges s o.0
    → SameChallenges s o'.0
    → SameChallenges s (if b then o else o').0
if_same true s o o' h h' = h
if_same false s o o' h h' = h'

pub refreshed_same :
    (s : State) (id : NodeId) (owner : Text) (at : Timestamp)
    → SameChallenges s (apply_claim_refreshed s id owner at).0
unfolding apply_claim_refreshed
refreshed_same s id owner at = with_node-same s id _ (λ p.
    if_same (not (same_workflow (s.heap p).workflow_state claimed)) s _ _ (refl, refl)
      (if_same (not (text_eq (s.heap p).claimed_by owner)) s _ _ (refl, refl) (refl, refl)))

pub tracker-IsCoherent :
    (s : State) (r : Result ScopeError Tracker) → IsCoherent s → IsCoherent (set_tracker s r).0
unfolding set_tracker
tracker-IsCoherent s (ok t) before = before
tracker-IsCoherent s (err e) before = before

pub amended_same :
    (sha256_hex : Text → Text) (s : State) (at : Timestamp) (a : AmendmentData)
    → SameChallenges s (apply_node_amended sha256_hex s at a).0
unfolding apply_node_amended add_amendment
amended_same sha256_hex s at a = with_node-same s a.node_id _ (λ p. (refl, refl))

pub taint_same :
    (s : State) (id : NodeId) (t : TaintState) → SameChallenges s (apply_taint_recomputed s id t).0
unfolding apply_taint_recomputed
taint_same s id t = with_node-same s id _ (λ p. (refl, refl))
