-- ===== src/State/Coherence.antt =====
-- Events and the cache of the challenges (internal/state/state.go, internal/state/apply.go).
use vibefeld.Prelude.{
  Result-cases, ◌≡◌, refl, sym, ◌∙◌, ap, subst, false, some, List, [], ◌∷◌, Text, Map, lookup,
  eq_text, if◌then◌else◌, Bool-cases, Option-cases, inl, inr, eq_of_some-eq,
}
use vibefeld.Types.NodeId.{NodeId}
use vibefeld.Schema.Epistemic.{
  EpistemicState, validated, admitted, refuted, archived, needs_refinement,
}
use vibefeld.Schema.Severity.{validate_challenge_severity, is_unset, default_challenge_severity}
use vibefeld.Node.{Timestamp}
use vibefeld.Node.Challenge.{ChallengeStatus, superseded, resolved, withdrawn, is_opened}
use vibefeld.Taint.{Ptr, Sorter}
use vibefeld.Scope.{open_scope, close_scope}
use vibefeld.Ledger.Event.{Event, ChallengeData}
use vibefeld.State.{State, Challenge, get_challenge, challenges_by_node_id, get_challenges_for_node}
use vibefeld.State.Handlers.{
  Outcome, set_node, supersede_all, supersede_open_challenges_for_node, apply_node_created,
  apply_nodes_claimed, apply_claim_refreshed, apply_nodes_released, apply_taint_recomputed,
  apply_def_added, apply_lemma_extracted, apply_challenge_raised, set_challenge_status,
}
use vibefeld.State.Apply.{
  recompute_taint_for_node, change_epistemic, apply, apply_node_validated, apply_node_admitted,
  apply_node_refuted, apply_node_archived, apply_node_amended, apply_refinement_requested,
}
use vibefeld.State.Decision.{change_epistemic-cases, challenges_by_node_id-keeps}
use vibefeld.State.Challenges.{Lists, IsCoherent, challenges_by_node_id-Lists}
use vibefeld.State.Untouched.{
  same-IsCoherent, claimed_same, released_same, refreshed_same, tracker-IsCoherent, amended_same,
  taint_same,
}

supersede_all-unmodified :
    (keys : List Text) (m : Map Text Challenge)
    → (supersede_all keys m).1 ≡ false
    → (supersede_all keys m).0 ≡ m
unfolding supersede_all
supersede_all-unmodified [] m e = refl
supersede_all-unmodified (j ∷ keys) m e = elim (Option-cases (lookup m j)) [
  | inl missing ↦
      rw (missing, supersede_all)
        (supersede_all-unmodified keys m (rw (missing, supersede_all) at e))
  | inr (d, found) ↦ elim (Bool-cases (is_opened d.status)) [
    | inl open_now ↦ absurd (cc (rw (open_now, supersede_all) at (rw (found, supersede_all) at e)))
    | inr closed ↦
        rw (found, supersede_all)
          (rw (closed, supersede_all)
            (supersede_all-unmodified keys m
              (rw (closed, supersede_all) at (rw (found, supersede_all) at e))))
  ]
]

cached_by :
    (s : State) (cache : Map Text (List Text))
    → (challenges_by_node_id s).0.challenges_by_node ≡ some cache
    → cache ≡ (challenges_by_node_id s).1
unfolding challenges_by_node_id
cached_by s cache = elim (Option-cases s.challenges_by_node) [
  | inl none_yet ↦ rw (none_yet, challenges_by_node_id) (λ e. sym (eq_of_some-eq _ cache e))
  | inr (c, there) ↦
      rw (there, challenges_by_node_id) (λ e. sym (eq_of_some-eq c cache (sym there ∙ e)))
]

pub supersede-IsCoherent :
    (s : State) (id : NodeId) → IsCoherent s → IsCoherent (supersede_open_challenges_for_node s id)
unfolding supersede_open_challenges_for_node get_challenges_for_node
supersede-IsCoherent s id before =
    let (s', keys) = get_challenges_for_node s id in
    elim (Bool-cases (supersede_all keys s'.challenges).1) [
      | inl modified ↦ rw modified (λ cache e. absurd (cc))
      | inr kept ↦
          rw (kept, supersede_open_challenges_for_node)
            (λ cache e.
              subst (λ c. Lists c (supersede_all keys s'.challenges).0) (sym (cached_by s cache e))
                (subst (Lists (challenges_by_node_id s).1)
                  (sym (
                    supersede_all-unmodified keys s'.challenges kept
                    ∙ (challenges_by_node_id-keeps s).2))
                  (challenges_by_node_id-Lists s before)))
    ]

decided-IsCoherent :
    (s : State) (id : NodeId) (target : EpistemicState) (k : Ptr → State → State)
    → ((p : Ptr) (t : State) → IsCoherent t → IsCoherent (k p t))
    → IsCoherent s
    → IsCoherent (change_epistemic s id target k).0
decided-IsCoherent s id target k h before = elim (change_epistemic-cases s id target k) [
  | inl (e, failed) ↦ subst IsCoherent (sym (ap (λ (o : Outcome). o.0) failed)) before
  | inr (p, _, _, done) ↦
      subst IsCoherent (sym (ap (λ (o : Outcome). o.0) done))
        (h p (set_node s p (record (s.heap p) { epistemic_state = target })) before)
]

raised-IsCoherent :
    (s : State) (at : Timestamp) (c : ChallengeData)
    → IsCoherent s
    → IsCoherent (apply_challenge_raised s at c).0
unfolding apply_challenge_raised
raised-IsCoherent s at c before =
    elim (Result-cases (
      validate_challenge_severity
        (if is_unset c.severity then default_challenge_severity else c.severity))) [
          | inl (e, bad) ↦ rw (bad, apply_challenge_raised) before
          | inr (_, good) ↦ rw (good, apply_challenge_raised) (λ cache e. absurd (cc))
        ]

status-IsCoherent :
    (s : State) (id : Text) (status : ChallengeStatus)
    → IsCoherent s
    → IsCoherent (set_challenge_status s id status).0
unfolding set_challenge_status
status-IsCoherent s id status before = elim (Option-cases (get_challenge s id)) [
  | inl missing ↦ rw (missing, set_challenge_status) before
  | inr (c, found) ↦ rw (found, set_challenge_status) (λ cache e. absurd (cc))
]

module _ (sorter : Sorter) where
  recomputed-IsCoherent :
      (p : Ptr) (t : State) → IsCoherent t → IsCoherent (recompute_taint_for_node sorter p t)
  unfolding recompute_taint_for_node
  recomputed-IsCoherent p t before = before

-- The cache of the challenges by node stays coherent under `Apply` of every event, whether it succeeds
-- or fails.
pub apply-IsCoherent :
    (sha256_hex : Text → Text) (sorter : Sorter) (now : Timestamp) (s : State) (event : Event)
    → IsCoherent s
    → IsCoherent (apply sha256_hex sorter now s event).0
unfolding apply apply_node_created apply_node_validated apply_node_admitted apply_node_refuted
    apply_node_archived apply_taint_recomputed apply_def_added apply_lemma_extracted
    apply_node_amended apply_refinement_requested
apply-IsCoherent sha256_hex sorter now s (Event.proof_initialized at conjecture author) h = h
apply-IsCoherent sha256_hex sorter now s (Event.node_created at n) h = h
apply-IsCoherent sha256_hex sorter now s (Event.nodes_claimed at ids owner timeout) h =
    same-IsCoherent s (apply_nodes_claimed ids owner timeout s).0 (claimed_same owner timeout ids s)
      h
apply-IsCoherent sha256_hex sorter now s (Event.nodes_released at ids) h =
    same-IsCoherent s (apply_nodes_released ids s).0 (released_same ids s) h
apply-IsCoherent sha256_hex sorter now s (Event.challenge_raised at c) h =
    raised-IsCoherent s at c h
apply-IsCoherent sha256_hex sorter now s (Event.challenge_resolved at id) h =
    status-IsCoherent s id resolved h
apply-IsCoherent sha256_hex sorter now s (Event.challenge_withdrawn at id) h =
    status-IsCoherent s id withdrawn h
apply-IsCoherent sha256_hex sorter now s (Event.challenge_superseded at id _) h =
    status-IsCoherent s id superseded h
apply-IsCoherent sha256_hex sorter now s (Event.node_validated at id note) h =
    decided-IsCoherent s id validated (recompute_taint_for_node sorter)
      (recomputed-IsCoherent sorter) h
apply-IsCoherent sha256_hex sorter now s (Event.node_admitted at id) h =
    decided-IsCoherent s id admitted (recompute_taint_for_node sorter)
      (recomputed-IsCoherent sorter) h
apply-IsCoherent sha256_hex sorter now s (Event.node_refuted at id) h =
    decided-IsCoherent s id refuted
      (λ p t. recompute_taint_for_node sorter p (supersede_open_challenges_for_node t id))
      (λ p t c.
        recomputed-IsCoherent sorter p (supersede_open_challenges_for_node t id)
          (supersede-IsCoherent t id c))
      h
apply-IsCoherent sha256_hex sorter now s (Event.node_archived at id) h =
    decided-IsCoherent s id archived
      (λ p t. recompute_taint_for_node sorter p (supersede_open_challenges_for_node t id))
      (λ p t c.
        recomputed-IsCoherent sorter p (supersede_open_challenges_for_node t id)
          (supersede-IsCoherent t id c))
      h
apply-IsCoherent sha256_hex sorter now s (Event.node_amended at a) h =
    same-IsCoherent s (apply_node_amended sha256_hex s at a).0 (amended_same sha256_hex s at a) h
apply-IsCoherent sha256_hex sorter now s (Event.taint_recomputed at id taint) h =
    same-IsCoherent s (apply_taint_recomputed s id taint).0 (taint_same s id taint) h
apply-IsCoherent sha256_hex sorter now s (Event.def_added at d) h = h
apply-IsCoherent sha256_hex sorter now s (Event.lemma_extracted at l) h = h
apply-IsCoherent sha256_hex sorter now s (Event.lock_reaped at id owner) h = h
apply-IsCoherent sha256_hex sorter now s (Event.scope_opened at id statement) h =
    tracker-IsCoherent s (open_scope now id statement s.scope_tracker) h
apply-IsCoherent sha256_hex sorter now s (Event.scope_closed at id _) h =
    tracker-IsCoherent s (close_scope now id s.scope_tracker) h
apply-IsCoherent sha256_hex sorter now s (Event.claim_refreshed at id owner timeout) h =
    same-IsCoherent s (apply_claim_refreshed s id owner timeout).0
      (refreshed_same s id owner timeout) h
apply-IsCoherent sha256_hex sorter now s (Event.refinement_requested at id _ _) h =
    decided-IsCoherent s id needs_refinement (λ p t. t) (λ p t c. c) h

-- What ChallengesByNodeID returns lists every challenge of the state.
abbrev pub AllListed : State → Type 0
AllListed s = Lists (challenges_by_node_id s).1 s.challenges

listed-IsCoherent : (s : State) → AllListed s → IsCoherent s
unfolding challenges_by_node_id
listed-IsCoherent s all cache there = subst (λ c. Lists c s.challenges) read all
  where
    read : (challenges_by_node_id s).1 ≡ cache
    read = rw (there, challenges_by_node_id) refl

-- If ChallengesByNodeID gives every challenge of a state under the node that it is on, then it does so
-- after Apply of any event, whether that succeeds or fails.
pub apply-AllListed :
    (sha256_hex : Text → Text) (sorter : Sorter) (now : Timestamp) (s : State) (event : Event)
    → AllListed s
    → AllListed (apply sha256_hex sorter now s event).0
apply-AllListed sha256_hex sorter now s event all =
    let t = (apply sha256_hex sorter now s event).0 in
    challenges_by_node_id-Lists t
      (apply-IsCoherent sha256_hex sorter now s event (listed-IsCoherent s all))
