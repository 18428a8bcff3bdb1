-- ===== src/State/WellFormed.antt =====
-- What holds of every state that events lead to (internal/state/apply.go, internal/state/replay.go).
use vibefeld.Prelude.{
  ◌⊎◌, ℕ, suc, ◌≡◌, ◌<◌, sym, ◌∙◌, subst, Bool, some, List, [], ◌∷◌, Text, text_eq, text_eq_iff,
  eq_text, lookup, lookup-insert, insert, ok, Bool-cases, inl, inr, eq_of_some-eq, ==_iff, arith,
  Option, bind-eq_ok, eq_of_ok-eq,
}
use vibefeld.Types.NodeId.{to_string}
use vibefeld.Schema.Epistemic.{validated, admitted, refuted, archived, needs_refinement}
use vibefeld.Node.{Node, Timestamp}
use vibefeld.Node.Challenge.{resolved, withdrawn, superseded}
use vibefeld.Taint.{Ptr, Heap, Sorter}
use vibefeld.Scope.{open_scope, close_scope}
use vibefeld.Ledger.Event.{Event}
use vibefeld.State.{State, write, add_node, new_state}
use vibefeld.State.Handlers.{
  supersede_open_challenges_for_node, apply_node_created, apply_nodes_claimed,
  apply_claim_refreshed, apply_nodes_released, apply_taint_recomputed, apply_def_added,
  apply_lemma_extracted,
}
use vibefeld.State.Apply.{
  recompute_taint_for_node, apply, apply_node_validated, apply_node_admitted, apply_node_refuted,
  apply_node_archived, apply_node_amended, apply_refinement_requested,
}
use vibefeld.State.Keyed.{
  IsKeyed, same-IsKeyed, refl_ids, claimed-SameIds, released-SameIds, refreshed-SameIds,
  raised-SameIds, status-SameIds, tracker-SameIds, decided-SameIds, recomputed-SameIds,
  closed-SameIds, amended-SameIds, tainted-SameIds,
}
use vibefeld.State.Challenges.{IsCoherent}
use vibefeld.State.Coherence.{apply-IsCoherent}
use vibefeld.State.Replay.{replay_from, replay_internal, replay_one}
use vibefeld.State.Replay.Sequence.{replay_one-ok, apply_numbered-ok}

pub write_self : (h : Heap) (p : Ptr) (n : Node) → write h p n p ≡ n
unfolding write
write_self h p n = ground (arith, ==_iff p p)

pub write_below : (h : Heap) (p q : Ptr) (n : Node) → q < p → write h p n q ≡ h q
unfolding write
write_below h p q n lt = ground (arith, ==_iff q p)

-- What a key leads to after a node was added.
pub created-cases :
    (s : State) (n : Node) (k : Text) (p : Ptr)
    → lookup (insert s.nodes (to_string n.id) s.fresh) k ≡ some p
    → ((to_string n.id ≡ k) × (p ≡ s.fresh)) ⊎ (lookup s.nodes k ≡ some p)
created-cases s n k p e = elim (Bool-cases (text_eq (to_string n.id) k)) [
  | inl same ↦ inl (
    (text_eq_iff (to_string n.id) k).0 same,
    eq_of_some-eq p s.fresh
        (sym e ∙ (rw same at (lookup-insert s.nodes (to_string n.id) s.fresh k))),
  )
  | inr other ↦ inr (sym (rw other at (lookup-insert s.nodes (to_string n.id) s.fresh k)) ∙ e)
]

created-IsKeyed : (s : State) (n : Node) → IsKeyed s → IsKeyed (apply_node_created s n).0
unfolding apply_node_created add_node
created-IsKeyed s n h = record {
  named = λ k p e. elim (created-cases s n k p e) [
    | inl (named, new) ↦
        subst (λ q. to_string (write s.heap s.fresh n q).id ≡ k) (sym new)
          (rw (write_self s.heap s.fresh n) named)
    | inr old ↦ rw (write_below s.heap s.fresh p n (h.allocated k p old)) (h.named k p old)
  ];
  allocated = λ k p e. elim (created-cases s n k p e) [
    | inl (_, new) ↦ omega arith
    | inr old ↦ omega (arith, h.allocated k p old)
  ];
}

-- `Apply` of any event, succeeding or failing, leaves the nodes under their identifiers.
pub apply-IsKeyed :
    (sha256_hex : Text → Text) (sorter : Sorter) (now : Timestamp) (s : State) (event : Event)
    → IsKeyed s
    → IsKeyed (apply sha256_hex sorter now s event).0
unfolding apply apply_node_validated apply_node_admitted apply_node_refuted apply_node_archived
    apply_def_added apply_lemma_extracted apply_refinement_requested
apply-IsKeyed sha256_hex sorter now s (Event.proof_initialized at conjecture author) h = h
apply-IsKeyed sha256_hex sorter now s (Event.node_created at n) h = created-IsKeyed s n h
apply-IsKeyed sha256_hex sorter now s (Event.nodes_claimed at ids owner timeout) h =
    same-IsKeyed s (apply_nodes_claimed ids owner timeout s).0 (claimed-SameIds owner timeout ids s)
      h
apply-IsKeyed sha256_hex sorter now s (Event.nodes_released at ids) h =
    same-IsKeyed s (apply_nodes_released ids s).0 (released-SameIds ids s) h
apply-IsKeyed sha256_hex sorter now s (Event.challenge_raised at c) h =
    same-IsKeyed s _ (raised-SameIds s at c) h
apply-IsKeyed sha256_hex sorter now s (Event.challenge_resolved at id) h =
    same-IsKeyed s _ (status-SameIds s id resolved) h
apply-IsKeyed sha256_hex sorter now s (Event.challenge_withdrawn at id) h =
    same-IsKeyed s _ (status-SameIds s id withdrawn) h
apply-IsKeyed sha256_hex sorter now s (Event.challenge_superseded at id _) h =
    same-IsKeyed s _ (status-SameIds s id superseded) h
apply-IsKeyed sha256_hex sorter now s (Event.node_validated at id note) h =
    same-IsKeyed s _
      (decided-SameIds s id validated (recompute_taint_for_node sorter) (recomputed-SameIds sorter))
      h
apply-IsKeyed sha256_hex sorter now s (Event.node_admitted at id) h =
    same-IsKeyed s _
      (decided-SameIds s id admitted (recompute_taint_for_node sorter) (recomputed-SameIds sorter))
      h
apply-IsKeyed sha256_hex sorter now s (Event.node_refuted at id) h =
    same-IsKeyed s _
      (decided-SameIds s id refuted
        (λ p t. recompute_taint_for_node sorter p (supersede_open_challenges_for_node t id))
        (closed-SameIds sorter id))
      h
apply-IsKeyed sha256_hex sorter now s (Event.node_archived at id) h =
    same-IsKeyed s _
      (decided-SameIds s id archived
        (λ p t. recompute_taint_for_node sorter p (supersede_open_challenges_for_node t id))
        (closed-SameIds sorter id))
      h
apply-IsKeyed sha256_hex sorter now s (Event.node_amended at a) h =
    same-IsKeyed s (apply_node_amended sha256_hex s at a).0 (amended-SameIds sha256_hex s at a) h
apply-IsKeyed sha256_hex sorter now s (Event.taint_recomputed at id taint) h =
    same-IsKeyed s (apply_taint_recomputed s id taint).0 (tainted-SameIds s id taint) h
apply-IsKeyed sha256_hex sorter now s (Event.def_added at d) h = record {
  named = h.named;
  allocated = h.allocated;
}
apply-IsKeyed sha256_hex sorter now s (Event.lemma_extracted at l) h = record {
  named = h.named;
  allocated = h.allocated;
}
apply-IsKeyed sha256_hex sorter now s (Event.lock_reaped at id owner) h = h
apply-IsKeyed sha256_hex sorter now s (Event.scope_opened at id statement) h =
    same-IsKeyed s _ (tracker-SameIds s (open_scope now id statement s.scope_tracker)) h
apply-IsKeyed sha256_hex sorter now s (Event.scope_closed at id _) h =
    same-IsKeyed s _ (tracker-SameIds s (close_scope now id s.scope_tracker)) h
apply-IsKeyed sha256_hex sorter now s (Event.claim_refreshed at id owner timeout) h =
    same-IsKeyed s (apply_claim_refreshed s id owner timeout).0
      (refreshed-SameIds s id owner timeout) h
apply-IsKeyed sha256_hex sorter now s (Event.refinement_requested at id _ _) h =
    same-IsKeyed s _ (decided-SameIds s id needs_refinement (λ p t. t) (λ p t. refl_ids t)) h

module _ (sha256_hex : Text → Text) (sorter : Sorter) (now : ℕ → Timestamp) where
  -- An invariant of `Apply` that does not look at the sequence number holds after a replay.
  from-invariant :
      (P : State → Type 0)
      → ((s : State) (seq : ℕ) → P s → P (record s { latest_seq = seq }))
      → ((at : Timestamp) (s : State) (e : Event) → P s → P (apply sha256_hex sorter at s e).0)
      → (verify : Bool) (expected : ℕ) (events : List (ℕ × Option Event)) (s s' : State) → P s
      → replay_from sha256_hex sorter now verify expected events s ≡ ok s'
      → P s'
  unfolding replay_from
  from-invariant P any_seq step verify expected [] s s' h e = subst P (eq_of_ok-eq s s' e) h
  from-invariant P any_seq step verify expected ((seq, event) ∷ events) s s' h e =
      let (mid, one, rest) =
        bind-eq_ok (replay_one sha256_hex sorter now verify expected s seq event) _ s' e in
      let (_, (ev, _, applied)) =
        replay_one-ok sha256_hex sorter now verify expected s seq event mid one in
      let (_, made, _) = apply_numbered-ok sha256_hex sorter now verify seq s ev mid applied in
      from-invariant P any_seq step verify (suc expected) events mid s'
        (subst P (sym made)
          (any_seq (apply sha256_hex sorter (now seq) s ev).0 seq (step (now seq) s ev h)))
        rest

  -- Every state that a replay gives, verifying or not, has each node under the string of its
  -- identifier, and a coherent cache of the challenges by node.
  pub replay_internal-IsWellFormed :
      (verify : Bool) (heap : Heap) (events : List (ℕ × Option Event)) (s : State)
      → replay_internal sha256_hex sorter now verify heap events ≡ ok s
      → IsKeyed s × IsCoherent s
  unfolding replay_internal new_state lookup
  replay_internal-IsWellFormed verify heap events s e = (
    from-invariant IsKeyed (λ t seq h. record { named = h.named; allocated = h.allocated })
        (λ at t ev h. apply-IsKeyed sha256_hex sorter at t ev h) verify 1 events (new_state heap) s
        (record { named = λ k p found. absurd (cc); allocated = λ k p found. absurd (cc) }) e,
    from-invariant IsCoherent (λ t seq h. h)
        (λ at t ev h. apply-IsCoherent sha256_hex sorter at t ev h) verify 1 events (new_state heap)
        s (λ cache found. absurd (cc)) e,
  )
