-- ===== src/Service/Valid.antt =====
-- The events of the proof service's operations fit the state that they were planned on
-- (internal/service/proof.go, internal/state/apply.go).
use vibefeld.Prelude.{
  ℕ, err, ◌≤◌, ◌≡◌, refl, none, some, [], ◌∷◌, Text, text_eq_iff, Map, lookup, eq_text, ok,
}
use vibefeld.Types.NodeId.{NodeId, to_string, depth}
use vibefeld.Schema.Epistemic.{
  EpistemicState, validated, admitted, refuted, archived, needs_refinement,
  validate_epistemic_transition,
}
use vibefeld.Schema.Workflow.{available, claimed, same_workflow, validate_workflow_transition}
use vibefeld.Node.{Node, Timestamp}
use vibefeld.Taint.{Ptr, Heap, Sorter}
use vibefeld.Ledger.Event.{
  Event, AmendmentData, node_created, nodes_claimed, nodes_released, node_validated, node_admitted,
  node_refuted, node_archived, node_amended, claim_refreshed, refinement_requested,
}
use vibefeld.State.{State}
use vibefeld.Service.{Configured}
use vibefeld.State.Handlers.{
  with_node, supersede_open_challenges_for_node, apply_node_created, apply_nodes_claimed,
  apply_nodes_released, apply_claim_refreshed,
}
use vibefeld.State.Apply.{
  apply, change_epistemic, recompute_taint_for_node, apply_node_validated, apply_node_admitted,
  apply_node_refuted, apply_node_archived, apply_node_amended, apply_refinement_requested,
}
use vibefeld.Text.{pos}

-- A node that the state has under the identifier.
abbrev pub Has : Heap → Map Text Ptr → NodeId → Ptr → Type 0
Has h m id p = lookup m (to_string id) ≡ some p

abbrev pub MayBecome : Heap → Ptr → EpistemicState → Type 0
MayBecome h p target = validate_epistemic_transition (h p).epistemic_state target ≡ ok tt

-- A depth that the configuration allows.
abbrev pub IsAllowed : Configured → ℕ → Type 0
IsAllowed (err e) d = ⊥
IsAllowed (ok limits) d = (n : ℕ) × (limits.max_depth ≡ pos n) × (d ≤ n)

-- What the nodes must be like for an event.
pub data Fits (cfg : Configured) (h : Heap) (m : Map Text Ptr) : Event → Type 0 where
  creates :
      (at : Timestamp) (n : Node)
      → IsAllowed cfg (depth n.id)
      → lookup m (to_string n.id) ≡ none
      → Fits cfg h m (node_created at n)
  claims :
      (at : Timestamp) (id : NodeId) (owner : Text) (timeout : Timestamp) (p : Ptr)
      → Has h m id p
      → (h p).workflow_state ≡ available
      → Fits cfg h m (nodes_claimed at (id ∷ []) owner timeout)
  refreshes :
      (at : Timestamp) (id : NodeId) (owner : Text) (timeout : Timestamp) (p : Ptr)
      → Has h m id p
      → (h p).workflow_state ≡ claimed
      → (h p).claimed_by ≡ owner
      → Fits cfg h m (claim_refreshed at id owner timeout)
  releases :
      (at : Timestamp) (id : NodeId) (p : Ptr)
      → Has h m id p
      → (h p).workflow_state ≡ claimed
      → Fits cfg h m (nodes_released at (id ∷ []))
  validates :
      (at : Timestamp) (id : NodeId) (note : Text) (p : Ptr)
      → Has h m id p
      → MayBecome h p validated
      → Fits cfg h m (node_validated at id note)
  admits :
      (at : Timestamp) (id : NodeId) (p : Ptr)
      → Has h m id p
      → MayBecome h p admitted
      → Fits cfg h m (node_admitted at id)
  refutes :
      (at : Timestamp) (id : NodeId) (p : Ptr)
      → Has h m id p
      → MayBecome h p refuted
      → Fits cfg h m (node_refuted at id)
  archives :
      (at : Timestamp) (id : NodeId) (p : Ptr)
      → Has h m id p
      → MayBecome h p archived
      → Fits cfg h m (node_archived at id)
  reopens :
      (at : Timestamp) (id : NodeId) (reason requested_by : Text) (p : Ptr)
      → Has h m id p
      → MayBecome h p needs_refinement
      → Fits cfg h m (refinement_requested at id reason requested_by)
  amends :
      (at : Timestamp) (a : AmendmentData) (p : Ptr)
      → Has h m a.node_id p
      → Fits cfg h m (node_amended at a)

module _ (cfg : Configured) (sha256_hex : Text → Text) (sorter : Sorter) (now : Timestamp)
    (s : State) where
  decision-ok :
      (id : NodeId) (target : EpistemicState) (k : Ptr → State → State) (p : Ptr)
      → Has s.heap s.nodes id p
      → MayBecome s.heap p target
      → (change_epistemic s id target k).1 ≡ ok tt
  unfolding change_epistemic
  decision-ok id target k p found may =
      rw (found, change_epistemic, with_node) (rw (may, change_epistemic))

  -- An event that fits is applied without an error.
  pub Fits-apply :
      (e : Event) → Fits cfg s.heap s.nodes e → (apply sha256_hex sorter now s e).1 ≡ ok tt
  unfolding apply apply_node_created apply_nodes_claimed apply_nodes_released apply_claim_refreshed
      apply_node_validated apply_node_admitted apply_node_refuted apply_node_archived
      apply_node_amended apply_refinement_requested validate_workflow_transition same_workflow
  Fits-apply _ (creates at n small new) = refl
  Fits-apply _ (claims at id owner timeout p found free) =
      rw (found, apply_nodes_claimed, with_node) (rw (free, apply_nodes_claimed))
  Fits-apply _ (refreshes at id owner timeout p found held named) =
      let same_owner = (text_eq_iff (s.heap p).claimed_by owner).1 named in
      rw (found, apply_claim_refreshed, with_node) (rw (held, same_owner, apply_claim_refreshed))
  Fits-apply _ (releases at id p found held) =
      rw (found, apply_nodes_released, with_node) (rw (held, apply_nodes_released))
  Fits-apply _ (validates at id note p found may) =
      decision-ok id validated (recompute_taint_for_node sorter) p found may
  Fits-apply _ (admits at id p found may) =
      decision-ok id admitted (recompute_taint_for_node sorter) p found may
  Fits-apply _ (refutes at id p found may) =
      decision-ok id refuted
        (λ q t. recompute_taint_for_node sorter q (supersede_open_challenges_for_node t id)) p found
        may
  Fits-apply _ (archives at id p found may) =
      decision-ok id archived
        (λ q t. recompute_taint_for_node sorter q (supersede_open_challenges_for_node t id)) p found
        may
  Fits-apply _ (reopens at id reason requested_by p found may) =
      decision-ok id needs_refinement (λ q t. t) p found may
  Fits-apply _ (amends at a p found) = rw (found, apply_node_amended, with_node)
