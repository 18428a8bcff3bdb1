-- ===== src/Service/Bounds.antt =====
-- The agents' steps keep the nodes that are there and the limit on their depth
-- (internal/service/proof.go, internal/state/apply.go).
use vibefeld.Prelude.{
  ℕ, suc, ◌≡◌, refl, sym, ◌∙◌, ap, subst, ◌⊎◌, inl, inr, false, none, some, [], ◌∷◌, Text, text_eq,
  text_eq_iff, eq_text, lookup, lookup-insert, insert, Bool-cases, if◌then◌else◌,
}
use vibefeld.Types.NodeId.{to_string, depth}
use vibefeld.Schema.Epistemic.{validated, admitted, refuted, archived, needs_refinement}
use vibefeld.Node.{Node, Timestamp}
use vibefeld.Taint.{Ptr, Heap, Sorter}
use vibefeld.Ledger.Event.{Event}
use vibefeld.Ledger.Store.{Ledger}
use vibefeld.State.{State, add_node, write}
use vibefeld.State.Handlers.{apply_node_created, supersede_open_challenges_for_node}
use vibefeld.State.Apply.{
  recompute_taint_for_node, apply, apply_node_validated, apply_node_admitted, apply_node_refuted,
  apply_node_archived, apply_refinement_requested,
}
use vibefeld.State.Keyed.{
  IsKeyed, SameIds, refl_ids, claimed-SameIds, released-SameIds, refreshed-SameIds, decided-SameIds,
  recomputed-SameIds, closed-SameIds, amended-SameIds,
}
use vibefeld.State.WellFormed.{
  write_self, write_below, created-cases, apply-IsKeyed, replay_internal-IsWellFormed,
}
use vibefeld.State.Replay.{replay}
use vibefeld.Service.{Configured}
use vibefeld.Service.Valid.{
  IsAllowed, Fits, creates, claims, refreshes, releases, validates, admits, refutes, archives,
  reopens, amends,
}
use vibefeld.Service.Safe.{Replays, after}
use vibefeld.Service.World.{World, Reach}
use vibefeld.Service.Interleave.{Run, start, act, interleaving-refines}

-- No node is deeper than the limit.
abbrev pub IsWithin : Configured → State → Type 0
IsWithin cfg s =
    (k : Text) (p : Ptr) → lookup s.nodes k ≡ some p → IsAllowed cfg (depth (s.heap p).id)

-- The nodes of the first state are there in the second, each with its identifier.
abbrev pub HasNodesOf : State → State → Type 0
HasNodesOf s t =
    (k : Text) (p : Ptr)
    → lookup s.nodes k ≡ some p
    → (lookup t.nodes k ≡ some p) × ((t.heap p).id ≡ (s.heap p).id)

-- What an event that fits does to the nodes: nothing, or a new one is added.
record Adds (cfg : Configured) (s : State) (n : Node) (t : State) : Type 0 where
  small : IsAllowed cfg (depth n.id)
  new : lookup s.nodes (to_string n.id) ≡ none
  nodes : t.nodes ≡ insert s.nodes (to_string n.id) s.fresh
  heap : t.heap ≡ write s.heap s.fresh n

module _ (cfg : Configured) (sha256_hex : Text → Text) (sorter : Sorter) (now : Timestamp)
    (s : State) where
  Fits-cases :
      (e : Event)
      → Fits cfg s.heap s.nodes e
      → SameIds s (apply sha256_hex sorter now s e).0
        ⊎ ((n : Node) × Adds cfg s n (apply sha256_hex sorter now s e).0)
  unfolding apply apply_node_created add_node apply_node_validated apply_node_admitted
      apply_node_refuted apply_node_archived apply_refinement_requested
  Fits-cases _ (creates at n small new) =
      inr (n, record { small = small; new = new; nodes = refl; heap = refl })
  Fits-cases _ (claims at id owner timeout p found free) =
      inl (claimed-SameIds owner timeout (id ∷ []) s)
  Fits-cases _ (refreshes at id owner timeout p found held named) =
      inl (refreshed-SameIds s id owner timeout)
  Fits-cases _ (releases at id p found held) = inl (released-SameIds (id ∷ []) s)
  Fits-cases _ (validates at id note p found may) =
      inl (
        decided-SameIds s id validated (recompute_taint_for_node sorter)
          (recomputed-SameIds sorter))
  Fits-cases _ (admits at id p found may) =
      inl (
        decided-SameIds s id admitted (recompute_taint_for_node sorter) (recomputed-SameIds sorter))
  Fits-cases _ (refutes at id p found may) = inl (
      decided-SameIds s id refuted
        (λ q t. recompute_taint_for_node sorter q (supersede_open_challenges_for_node t id))
        (closed-SameIds sorter id))
  Fits-cases _ (archives at id p found may) = inl (
      decided-SameIds s id archived
        (λ q t. recompute_taint_for_node sorter q (supersede_open_challenges_for_node t id))
        (closed-SameIds sorter id))
  Fits-cases _ (reopens at id reason requested_by p found may) =
      inl (decided-SameIds s id needs_refinement (λ q t. t) (λ q t. refl_ids t))
  Fits-cases _ (amends at a p found) = inl (amended-SameIds sha256_hex s at a)

module _ (cfg : Configured) (s t : State) where
  same-IsWithin : SameIds s t → IsWithin cfg s → IsWithin cfg t
  same-IsWithin same h k p e =
      subst (λ i. IsAllowed cfg (depth i)) (sym (same.ids p)) (h k p (rw same.nodes at e))

  same-HasNodesOf : SameIds s t → HasNodesOf s t
  same-HasNodesOf same k p e = (rw same.nodes e, same.ids p)

  module _ (n : Node) (keyed : IsKeyed s) (added : Adds cfg s n t) where
    -- A node that was there before.
    old_id : (p : Ptr) (k : Text) → lookup s.nodes k ≡ some p → (t.heap p).id ≡ (s.heap p).id
    old_id p k e =
        ap (λ (h : Heap). (h p).id) added.heap
        ∙ ap (λ (m : Node). m.id) (write_below s.heap s.fresh p n (keyed.allocated k p e))

    added-IsWithin : IsWithin cfg s → IsWithin cfg t
    added-IsWithin h k p e = elim (created-cases s n k p (rw added.nodes at e)) [
      | inl (_, new) ↦
          let same =
            ap (λ (h' : Heap). (h' p).id) added.heap
            ∙ ap (λ q. (write s.heap s.fresh n q).id) new
            ∙ ap (λ (m : Node). m.id) (write_self s.heap s.fresh n) in
          subst (λ i. IsAllowed cfg (depth i)) (sym same) added.small
      | inr old ↦ subst (λ i. IsAllowed cfg (depth i)) (sym (old_id p k old)) (h k p old)
    ]

    added-HasNodesOf : HasNodesOf s t
    added-HasNodesOf k p e =
        (rw added.nodes (lookup-insert s.nodes (to_string n.id) s.fresh k ∙ kept), old_id p k e)
      where
        kept : (if text_eq (to_string n.id) k then some s.fresh else lookup s.nodes k) ≡ some p
        kept = elim (Bool-cases (text_eq (to_string n.id) k)) [
          | inl same ↦
              let there =
                subst (λ j. lookup s.nodes j ≡ none) ((text_eq_iff (to_string n.id) k).0 same)
                  added.new in
              absurd (cc)
          | inr other ↦ rw other e
        ]

module _ (sha256_hex : Text → Text) (cfg : Configured) (sorter : Sorter) (clock : ℕ → Timestamp)
    (heap : Heap) where
  -- What holds of the states that events lead to from the first one.
  record Lasting (s t : State) : Type 0 where
    keyed : IsKeyed t
    keeps : HasNodesOf s t
    within : IsWithin cfg s → IsWithin cfg t

  Lasting-act :
      (s t : State) (e : Event) (seq : ℕ)
      → Fits cfg t.heap t.nodes e
      → Lasting s t
      → Lasting s (after sha256_hex cfg sorter clock heap t e seq)
  Lasting-act s t e seq fits h = record {
    keyed = record { named = next.named; allocated = next.allocated };
    keeps = λ k p there.
        let (now_there, same) = h.keeps k p there in
        let (later, same') = next_keeps k p now_there in (later, same' ∙ same);
    within = λ small. elim cases [
      | inl ids ↦ same-IsWithin cfg t u ids (h.within small)
      | inr (n, added) ↦ added-IsWithin cfg t u n h.keyed added (h.within small)
    ];
  }
    where
      u : State
      u = (apply sha256_hex sorter (clock seq) t e).0

      next : IsKeyed u
      next = apply-IsKeyed sha256_hex sorter (clock seq) t e h.keyed

      cases : SameIds t u ⊎ ((n : Node) × Adds cfg t n u)
      cases = Fits-cases cfg sha256_hex sorter (clock seq) t e fits

      next_keeps : HasNodesOf t u
      next_keeps = elim cases [
        | inl ids ↦ same-HasNodesOf cfg t u ids
        | inr (n, added) ↦ added-HasNodesOf cfg t u n h.keyed added
      ]

  Run-Lasting : (s t : State) → IsKeyed s → Run sha256_hex cfg sorter clock heap s t → Lasting s t
  Run-Lasting s _ keyed start = record {
    keyed = keyed;
    keeps = λ k p e. (e, refl);
    within = λ small. small;
  }
  Run-Lasting s _ keyed (act {t} e r fits) =
      Lasting-act s t e (suc t.latest_seq) fits (Run-Lasting s t keyed r)

  -- However agents interleave from a ledger that can be replayed, when nothing is planned, with the
  -- operations that append one event, the ledger that they reach can be replayed, its state has every
  -- node that was there, under the same key and with the same identifier, and no node is deeper than
  -- the configured depth, if none was before.
  pub interleaving-keeps_nodes :
      (ledger : Ledger) (s : State) (w : World)
      → Replays sha256_hex cfg sorter clock heap ledger s
      → IsWithin cfg s
      → Reach sha256_hex cfg sorter clock heap (record { ledger = ledger; plans = λ _. none }) w
      → (t : State) × Replays sha256_hex cfg sorter clock heap w.ledger t
        × HasNodesOf s t
        × IsWithin cfg t
  unfolding replay
  interleaving-keeps_nodes ledger s w r small reach =
      let (t, replays, run) =
        interleaving-refines sha256_hex cfg sorter clock heap ledger s w r reach in
      let keyed = (replay_internal-IsWellFormed sha256_hex sorter clock false heap ledger s r).0 in
      let lasting = Run-Lasting s t keyed run in (t, replays, lasting.keeps, lasting.within small)
