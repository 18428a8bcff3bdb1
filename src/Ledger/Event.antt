-- ===== src/Ledger/Event.antt =====
-- internal/ledger/event.go: one constructor for each event type. `at` is the time of the event; a
-- definition or lemma that an event carries is spelled out.
use vibefeld.Prelude.{List, Text}
use vibefeld.Types.NodeId.{NodeId}
use vibefeld.Schema.Severity.{ChallengeSeverity}
use vibefeld.Node.{Node, Timestamp, TaintState}

pub record DefinitionData : Type 0 where
  pub id : Text
  pub name : Text
  pub definition : Text
  pub created : Timestamp

pub record LemmaData : Type 0 where
  pub id : Text
  pub statement : Text
  pub node_id : NodeId
  pub created : Timestamp

pub record ChallengeData : Type 0 where
  pub challenge_id : Text
  pub node_id : NodeId
  pub target : Text
  pub reason : Text
  pub severity : ChallengeSeverity
  pub raised_by : Text

pub record AmendmentData : Type 0 where
  pub node_id : NodeId
  pub previous_statement : Text
  pub new_statement : Text
  pub owner : Text

pub data Event : Type 0 where
  proof_initialized : (at : Timestamp) (conjecture author : Text) → Event
  node_created : (at : Timestamp) → Node → Event
  nodes_claimed :
      (at : Timestamp) (node_ids : List NodeId) (owner : Text) (timeout : Timestamp) → Event
  nodes_released : (at : Timestamp) (node_ids : List NodeId) → Event
  challenge_raised : (at : Timestamp) → ChallengeData → Event
  challenge_resolved : (at : Timestamp) (challenge_id : Text) → Event
  challenge_withdrawn : (at : Timestamp) (challenge_id : Text) → Event
  challenge_superseded : (at : Timestamp) (challenge_id : Text) (node_id : NodeId) → Event
  node_validated : (at : Timestamp) (node_id : NodeId) (note : Text) → Event
  node_admitted : (at : Timestamp) (node_id : NodeId) → Event
  node_refuted : (at : Timestamp) (node_id : NodeId) → Event
  node_archived : (at : Timestamp) (node_id : NodeId) → Event
  node_amended : (at : Timestamp) → AmendmentData → Event
  taint_recomputed : (at : Timestamp) (node_id : NodeId) (new_taint : TaintState) → Event
  def_added : (at : Timestamp) → DefinitionData → Event
  lemma_extracted : (at : Timestamp) → LemmaData → Event
  lock_reaped : (at : Timestamp) (node_id : NodeId) (owner : Text) → Event
  scope_opened : (at : Timestamp) (node_id : NodeId) (statement : Text) → Event
  scope_closed : (at : Timestamp) (node_id : NodeId) (discharge_node_id : NodeId) → Event
  claim_refreshed :
      (at : Timestamp) (node_id : NodeId) (owner : Text) (new_timeout : Timestamp) → Event
  refinement_requested : (at : Timestamp) (node_id : NodeId) (reason requested_by : Text) → Event
