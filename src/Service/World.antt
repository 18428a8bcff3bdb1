-- ===== src/Service/World.antt =====
-- Agents that work on one ledger (internal/service/proof.go): each loads the state and plans an event
-- at one time, and appends it at another, while the others do the same.
use vibefeld.Prelude.{Result, ℕ, ◌≡◌, Option, none, some, Text, ◌==◌, if◌then◌else◌}
use vibefeld.Text.{ℤ}
use vibefeld.Types.NodeId.{NodeId}
use vibefeld.Schema.NodeType.{NodeType}
use vibefeld.Schema.Inference.{InferenceType}
use vibefeld.Node.{Timestamp}
use vibefeld.Taint.{Heap, Sorter}
use vibefeld.Ledger.Event.{Event}
use vibefeld.Ledger.Store.{Ledger, Fault}
use vibefeld.Service.{
  ServiceError, Load, Planned, Configured, claim_node, refresh_claim, release_node,
}
use vibefeld.Service.Decisions.{
  accept_node_with_note, admit_node, refute_node, archive_node, request_refinement, amend_node,
}
use vibefeld.Service.Refine.{RefineSpec, create_node, refine}
use vibefeld.Service.Commit.{Files, load_state, commit}

-- The operations that append one event; creating a node counts the ledger's events before.
pub data Operation : Type 0 where
  create : Result ServiceError ℕ → NodeId → NodeType → Text → InferenceType → Operation
  refine_by : RefineSpec → Operation
  claim refresh : NodeId → Text → ℤ → Operation
  release_by : NodeId → Text → Operation
  accept : NodeId → Text → Operation
  admit refute archive : NodeId → Operation
  reopen amend : NodeId → Text → Text → Operation

-- An agent's plan, `none` where it has none.
abbrev pub Plans : Type 0
Plans = ℕ → Option (Planned Event)

pub record World : Type 0 where
  pub ledger : Ledger
  pub plans : Plans

abbrev pub set_plan : Plans → ℕ → Option (Planned Event) → Plans
set_plan plans agent plan other_agent = if other_agent == agent then plan else plans other_agent

module _ (sha256_hex : Text → Text) (cfg : Configured) where
  -- What an operation plans at a time, with what LoadState gives.
  unfoldable pub plan : Timestamp → Operation → Load → Planned Event
  plan now (create counted id node_type statement inference) load =
      create_node sha256_hex cfg now counted id node_type statement inference load
  plan now (refine_by spec) load = refine sha256_hex cfg now spec load
  plan now (claim id owner timeout) load = claim_node now id owner timeout load
  plan now (refresh id owner timeout) load = refresh_claim now id owner timeout load
  plan now (release_by id owner) load = release_node now id owner load
  plan now (accept id note) load = accept_node_with_note now id note load
  plan now (admit id) load = admit_node now id load
  plan now (refute id) load = refute_node now id load
  plan now (archive id) load = archive_node now id load
  plan now (reopen id reason requested_by) load = request_refinement now id reason requested_by load
  plan now (amend id owner new_statement) load = amend_node now id owner new_statement load

module _ (sha256_hex : Text → Text) (cfg : Configured) (sorter : Sorter) (clock : ℕ → Timestamp)
    (heap : Heap) where
  -- An agent looks at the ledger and plans, with the files as they are then; or it appends what it
  -- has planned, to the ledger as it is then.
  pub data Step : World → World → Type 0 where
    look :
        {w : World} (agent : ℕ) (now : Timestamp) (files : Files) (op : Operation)
        → Step w (record w {
          plans = set_plan w.plans agent (
              some (
                plan sha256_hex cfg now op
                  (load_state sha256_hex sorter clock heap files w.ledger)));
        })
    finish :
        {w : World} (agent : ℕ) (fault : Fault) (planned : Planned Event)
        → w.plans agent ≡ some planned
        → Step w (record w {
          ledger = (commit fault w.ledger planned).0;
          plans = set_plan w.plans agent none;
        })

  pub data Reach (w : World) : World → Type 0 where
    here : Reach w w
    next : {v u : World} → Reach w v → Step v u → Reach w u
