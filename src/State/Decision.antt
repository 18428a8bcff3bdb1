-- ===== src/State/Decision.antt =====
-- The decisions on a node: validated, admitted, refuted, archived, reopened (internal/state/apply.go).
use mathlib.Core.List.{Memᴰ}
use vibefeld.Prelude.{
  Result-cases, ◌≡◌, refl, sym, ◌∙◌, Bool, true, false, some, [], ◌∷◌, Text, Map, lookup, eq_text,
  text_eq, if◌then◌else◌, values, ok, err, Bool-cases, Option-cases, inl, inr, ◌⊎◌, eq_of_some-eq,
}
use vibefeld.Types.NodeId.{NodeId}
use vibefeld.Schema.Epistemic.{EpistemicState, validate_epistemic_transition}
use vibefeld.Taint.{Ptr}
use vibefeld.State.{
  State, get_node, get_challenges_for_node, challenges_by_node_id, invalidate_challenge_cache,
}
use vibefeld.State.Handlers.{
  ApplyError, set_node, with_node, supersede_open_challenges_for_node, supersede_all,
  bad_epistemic_transition, node_not_found,
}
use vibefeld.State.Apply.{change_epistemic}

-- Either the change fails and the state is as it was, or the transition is one that the table allows.
pub change_epistemic-cases :
    (s : State) (id : NodeId) (target : EpistemicState) (k : Ptr → State → State)
    → ((e : ApplyError) × (change_epistemic s id target k ≡ (s, err e)))
      ⊎ ((p : Ptr) × (get_node s id ≡ some p)
          × (validate_epistemic_transition (s.heap p).epistemic_state target ≡ ok tt)
          × (change_epistemic s id target k
              ≡ (k p (set_node s p (record (s.heap p) { epistemic_state = target })), ok tt)))
unfolding change_epistemic
change_epistemic-cases s id target k = elim (Option-cases (get_node s id)) [
  | inl missing ↦ inl (node_not_found id, rw (missing, change_epistemic, with_node) refl)
  | inr (p, found) ↦
      elim (Result-cases (validate_epistemic_transition (s.heap p).epistemic_state target)) [
        | inl (e, bad) ↦ inl (
          bad_epistemic_transition id e,
          rw (found, change_epistemic, with_node) (rw (bad, change_epistemic) refl),
        )
        | inr (_, good) ↦ inr (
          p,
          found,
          good,
          rw (found, change_epistemic, with_node) (rw (good, change_epistemic) refl),
        )
      ]
]

pub challenges_by_node_id-keeps :
    (s : State)
    → ((challenges_by_node_id s).0.heap ≡ s.heap)
      × ((challenges_by_node_id s).0.nodes ≡ s.nodes)
      × ((challenges_by_node_id s).0.challenges ≡ s.challenges)
unfolding challenges_by_node_id
challenges_by_node_id-keeps s = elim (Option-cases s.challenges_by_node) [
  | inl none_yet ↦ rw (none_yet, challenges_by_node_id) (refl, refl, refl)
  | inr (cache, there) ↦ rw (there, challenges_by_node_id) (refl, refl, refl)
]

if_State :
    (b : Bool) (s t : State)
    → s.heap ≡ t.heap
    → s.nodes ≡ t.nodes
    → ((if b then s else t).heap ≡ t.heap) × ((if b then s else t).nodes ≡ t.nodes)
if_State true s t h n = (h, n)
if_State false s t h n = (refl, refl)

pub supersede-nodes :
    (s : State) (id : NodeId)
    → ((supersede_open_challenges_for_node s id).heap ≡ s.heap)
      × ((supersede_open_challenges_for_node s id).nodes ≡ s.nodes)
unfolding supersede_open_challenges_for_node get_challenges_for_node
supersede-nodes s id =
    let (s', keys) = get_challenges_for_node s id in
    let (challenges, modified) = supersede_all keys s'.challenges in
    let s'' = record s' { challenges = challenges } in
    let (h, n) = if_State modified (invalidate_challenge_cache s'') s'' refl refl in
    (h ∙ (challenges_by_node_id-keeps s).0, n ∙ (challenges_by_node_id-keeps s).1)

pub lookup-mem :
    {V : Type 0} (m : Map Text V) (k : Text) (v : V) → lookup m k ≡ some v → Memᴰ v (values m)
unfolding lookup
lookup-mem [] k v e = absurd (cc)
lookup-mem ((j, w) ∷ m) k v e = elim (Bool-cases (text_eq j k)) [
  | inl here ↦ Memᴰ.head (sym (eq_of_some-eq w v (rw (here, lookup) at e)))
  | inr later ↦ Memᴰ.tail (lookup-mem m k v (rw (later, lookup) at e))
]
