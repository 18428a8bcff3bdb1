-- ===== src/State/Handlers.antt =====
-- internal/state/apply.go: the handlers of the events that decide on no node. A handler returns the
-- state that it leaves, also when it fails, since the code changes the state in place.
use vibefeld.Prelude.{
  Bool, true, false, not, none, some, List, [], ◌∷◌, Text, text_eq, if◌then◌else◌, Map, lookup,
  insert, eq_text, Result, ok, err,
}
use vibefeld.Types.NodeId.{NodeId}
use vibefeld.Schema.Epistemic.{EpistemicError}
use vibefeld.Schema.Workflow.{
  WorkflowError, available, claimed, same_workflow, validate_workflow_transition,
}
use vibefeld.Schema.Severity.{is_unset, default_challenge_severity, validate_challenge_severity}
use vibefeld.Node.{Node, Timestamp, TaintState}
use vibefeld.Node.Challenge.{ChallengeStatus, opened, superseded, is_opened}
use vibefeld.Taint.{Ptr}
use vibefeld.Scope.{ScopeError, Tracker}
use vibefeld.Ledger.Event.{DefinitionData, LemmaData, ChallengeData}
use vibefeld.State.{
  State, Challenge, write, add_node, get_node, add_definition, add_lemma, add_challenge,
  get_challenge, get_challenges_for_node, invalidate_challenge_cache,
}

pub data ApplyError : Type 0 where
  node_not_found : NodeId → ApplyError
  bad_workflow_transition : NodeId → WorkflowError → ApplyError
  bad_epistemic_transition : NodeId → EpistemicError → ApplyError
  not_claimed not_owner challenge_not_found bad_severity unknown_event : ApplyError
  scope_error : ScopeError → ApplyError

-- The state that is left, and the `error`.
abbrev pub Outcome : Type 0
Outcome = State × Result ApplyError (Unit {0})

-- `n := s.GetNode(id); if n == nil { return err }`, and what follows.
abbrev pub with_node : State → NodeId → (Ptr → Outcome) → Outcome
with_node s id k = elim (get_node s id) [ none ↦ (s, err (node_not_found id)) | some p ↦ k p ]

-- Writing the node at a pointer.
abbrev pub set_node : State → Ptr → Node → State
set_node s p n = record s { heap = write s.heap p n }

-- `applyNodeCreated`
unfoldable pub apply_node_created : State → Node → Outcome
unfolding add_node
apply_node_created s n = (add_node n s, ok tt)

-- `applyNodesClaimed`
unfoldable pub apply_nodes_claimed : List NodeId → Text → Timestamp → State → Outcome
unfolding write validate_workflow_transition
apply_nodes_claimed [] owner timeout s = (s, ok tt)
apply_nodes_claimed (id ∷ ids) owner timeout s = with_node s id (λ p.
    elim (validate_workflow_transition (s.heap p).workflow_state claimed) [
      | err e ↦ (s, err (bad_workflow_transition id e))
      | ok _ ↦ apply_nodes_claimed ids owner timeout (
          set_node s p (record (s.heap p) {
            workflow_state = claimed;
            claimed_by = owner;
            claimed_at = timeout;
          }))
    ])

-- `applyClaimRefreshed`
unfoldable pub apply_claim_refreshed : State → NodeId → Text → Timestamp → Outcome
unfolding write same_workflow
apply_claim_refreshed s id owner new_timeout = with_node s id (λ p.
    if not (same_workflow (s.heap p).workflow_state claimed)
    then (s, err not_claimed)
    else if not (text_eq (s.heap p).claimed_by owner)
    then (s, err not_owner)
    else (set_node s p (record (s.heap p) { claimed_at = new_timeout }), ok tt))

-- `applyNodesReleased`
unfoldable pub apply_nodes_released : List NodeId → State → Outcome
unfolding write validate_workflow_transition
apply_nodes_released [] s = (s, ok tt)
apply_nodes_released (id ∷ ids) s = with_node s id (λ p.
    elim (validate_workflow_transition (s.heap p).workflow_state available) [
      | err e ↦ (s, err (bad_workflow_transition id e))
      | ok _ ↦ apply_nodes_released ids (
          set_node s p
            (record (s.heap p) { workflow_state = available; claimed_by = []; claimed_at = 0 }))
    ])

-- The loop of `supersedeOpenChallengesForNode`, and whether it changed anything.
unfoldable pub supersede_all : List Text → Map Text Challenge → Map Text Challenge × Bool
unfolding is_opened
supersede_all [] m = (m, false)
supersede_all (k ∷ ks) m = elim (lookup m k) [
  | none ↦ supersede_all ks m
  | some c ↦ elim (is_opened c.status) [
    | false ↦ supersede_all ks m
    | true ↦ ((supersede_all ks (insert m k (record c { status = superseded }))).0, true)
  ]
]

-- `supersedeOpenChallengesForNode`
unfoldable pub supersede_open_challenges_for_node : State → NodeId → State
unfolding supersede_all get_challenges_for_node
supersede_open_challenges_for_node s node_id =
    let (s', keys) = get_challenges_for_node s node_id in
    let (challenges, modified) = supersede_all keys s'.challenges in
    let s'' = record s' { challenges = challenges } in
    if modified then invalidate_challenge_cache s'' else s''

-- The end of the three handlers that close a challenge.
unfoldable pub set_challenge_status : State → Text → ChallengeStatus → Outcome
set_challenge_status s challenge_id status = elim (get_challenge s challenge_id) [
  | none ↦ (s, err challenge_not_found)
  | some c ↦ (
    invalidate_challenge_cache
        (record s { challenges = insert s.challenges challenge_id (record c { status = status }) }),
    ok tt,
  )
]

-- `applyChallengeRaised`
unfoldable pub apply_challenge_raised : State → Timestamp → ChallengeData → Outcome
unfolding is_unset validate_challenge_severity add_challenge
apply_challenge_raised s at e =
    let severity = if is_unset e.severity then default_challenge_severity else e.severity in
    elim (validate_challenge_severity severity) [
      | err _ ↦ (s, err bad_severity)
      | ok _ ↦ (
        add_challenge
            (record {
              id = e.challenge_id;
              node_id = e.node_id;
              target = e.target;
              reason = e.reason;
              status = opened;
              severity = severity;
              created = at;
              resolution = [];
              raised_by = e.raised_by;
            })
            s,
        ok tt,
      )
    ]

-- `applyTaintRecomputed`
unfoldable pub apply_taint_recomputed : State → NodeId → TaintState → Outcome
unfolding write
apply_taint_recomputed s id new_taint =
    with_node s id (λ p. (set_node s p (record (s.heap p) { taint_state = new_taint }), ok tt))

-- `applyDefAdded`
unfoldable pub apply_def_added : State → DefinitionData → Outcome
apply_def_added s d = (
  add_definition
      (record {
        id = d.id;
        name = d.name;
        content = d.definition;
        content_hash = [];
        created = d.created;
      })
      s,
  ok tt,
)

-- `applyLemmaExtracted`
unfoldable pub apply_lemma_extracted : State → LemmaData → Outcome
apply_lemma_extracted s l = (
  add_lemma
      (record {
        id = l.id;
        statement = l.statement;
        source_node_id = l.node_id;
        content_hash = [];
        created = l.created;
        proof = [];
      })
      s,
  ok tt,
)

-- `applyScopeOpened` and `applyScopeClosed`: what the tracker answers.
unfoldable pub set_tracker : State → Result ScopeError Tracker → Outcome
set_tracker s (err e) = (s, err (scope_error e))
set_tracker s (ok t) = (record s { scope_tracker = t }, ok tt)
