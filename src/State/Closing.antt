-- ===== src/State/Closing.antt =====
-- The challenges of a node that is refuted or archived (internal/state/apply.go).
use mathlib.Core.List.{Memᴰ}
use vibefeld.Prelude.{
  ◌≡◌, refl, sym, ◌∙◌, ap, subst, Bool, true, false, some, Text, lookup, eq_text, ok, inl, inr,
  if◌then◌else◌,
}
use vibefeld.Types.NodeId.{NodeId, to_string}
use vibefeld.Schema.Epistemic.{EpistemicState, refuted, archived}
use vibefeld.Node.{Timestamp}
use vibefeld.Node.Challenge.{is_opened}
use vibefeld.Taint.{Sorter}
use vibefeld.Ledger.Event.{Event, node_refuted, node_archived}
use vibefeld.State.{
  State, Challenge, list_at, get_challenges_for_node, challenges_by_node_id,
  invalidate_challenge_cache,
}
use vibefeld.State.Handlers.{Outcome, set_node, supersede_all, supersede_open_challenges_for_node}
use vibefeld.State.Apply.{
  change_epistemic, recompute_taint_for_node, apply, apply_node_refuted, apply_node_archived,
}
use vibefeld.State.Decision.{change_epistemic-cases, challenges_by_node_id-keeps}
use vibefeld.State.Challenges.{IsCoherent, challenges_by_node_id-Lists, supersede_all-Superseded}

-- No challenge on the node is open.
abbrev pub NoneOpen : State → NodeId → Type 0
NoneOpen s id =
    (k : Text) (c : Challenge)
    → lookup s.challenges k ≡ some c
    → to_string c.node_id ≡ to_string id
    → is_opened c.status ≡ false

if_challenges :
    (b : Bool) (t : State)
    → (if b then invalidate_challenge_cache t else t).challenges ≡ t.challenges
if_challenges true t = refl
if_challenges false t = refl

supersede-NoneOpen :
    (s : State) (id : NodeId) → IsCoherent s → NoneOpen (supersede_open_challenges_for_node s id) id
unfolding supersede_open_challenges_for_node get_challenges_for_node
supersede-NoneOpen s id coherent k c found on_node =
    let (s', keys) = get_challenges_for_node s id in
    let t = record s' { challenges = (supersede_all keys s'.challenges).0 } in
    let there : lookup (supersede_all keys s'.challenges).0 k ≡ some c =
      ap (λ m. lookup m k) (sym (if_challenges (supersede_all keys s'.challenges).1 t)) ∙ found in
    let (d, old, same, _, closed) = supersede_all-Superseded keys s'.challenges k c there in
    let listed =
      challenges_by_node_id-Lists s coherent k d
        (ap (λ m. lookup m k) (sym (challenges_by_node_id-keeps s).2) ∙ old) in
    closed (
      subst (λ i. Memᴰ k (list_at (challenges_by_node_id s).1 i))
        (sym (ap to_string same) ∙ on_node) listed)

-- The events that close a node for good.
pub data Closes (id : NodeId) : Event → Type 0 where
  refutes : {at : Timestamp} → Closes id (node_refuted at id)
  archives : {at : Timestamp} → Closes id (node_archived at id)

module _ (sorter : Sorter) where
  closed_node :
      (s : State) (id : NodeId) (target : EpistemicState)
      → IsCoherent s
      → (change_epistemic s id target
          (λ p t. recompute_taint_for_node sorter p (supersede_open_challenges_for_node t id))).1
        ≡ ok tt
      → NoneOpen
          (change_epistemic s id target
            (λ p t. recompute_taint_for_node sorter p (supersede_open_challenges_for_node t id))).0
          id
  unfolding recompute_taint_for_node
  closed_node s id target coherent good =
      elim (change_epistemic-cases s id target
        (λ p t. recompute_taint_for_node sorter p (supersede_open_challenges_for_node t id))) [
          | inl (e, failed) ↦ absurd (cc (good, ap (λ (o : Outcome). o.1) failed))
          | inr (p, _, _, done) ↦
              subst (λ t. NoneOpen t id) (sym (ap (λ (o : Outcome). o.0) done))
                (supersede-NoneOpen (set_node s p (record (s.heap p) { epistemic_state = target }))
                  id coherent)
        ]

-- After `Apply` of a node's refutation or archiving, when it succeeds, no challenge on the node is
-- open. The cache of the challenges is coherent before.
pub closing-NoneOpen :
    (sha256_hex : Text → Text) (sorter : Sorter) (now : Timestamp) (s : State) (id : NodeId)
    (event : Event)
    → Closes id event
    → IsCoherent s
    → (apply sha256_hex sorter now s event).1 ≡ ok tt
    → NoneOpen (apply sha256_hex sorter now s event).0 id
unfolding apply apply_node_refuted apply_node_archived
closing-NoneOpen sha256_hex sorter now s id _ refutes coherent good =
    closed_node sorter s id refuted coherent good
closing-NoneOpen sha256_hex sorter now s id _ archives coherent good =
    closed_node sorter s id archived coherent good
