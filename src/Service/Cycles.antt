-- ===== src/Service/Cycles.antt =====
-- internal/service/proof_cycle.go: the searches for cycles over the state of the ledger.
use vibefeld.Prelude.{
  ℕ, ◌≡◌, refl, sym, ◌∙◌, ap, subst, ◌↔◌, ◌⊎◌, inl, inr, false, Option, none, some, List, ◌++◌, map,
  Text, mem-append, mem-append_left, mem-append_right, eq_of_some-eq, lookup, eq_text, Result, ok,
  ◌>>=◌, map-mem,
}
use mathlib.Core.List.{Memᴰ}
use mathlib.Core.WellFounded.{Acc}
use mathlib.Core.WellFounded.Subrelation
use vibefeld.Types.NodeId.{NodeId, to_string}
use vibefeld.Node.{Timestamp}
use vibefeld.Taint.{Ptr, Heap, Sorter}
use vibefeld.Cycle.{CycleResult, detect_cycle_from, detect_all_cycles, would_create_cycle}
use vibefeld.Cycle.Terminates.{IsProvider}
use vibefeld.Cycle.Acyclic.{DependsOn, IsAcyclicFrom}
use vibefeld.Cycle.Detect.{detect_cycle_from_decides}
use vibefeld.Ledger.Event.{Event}
use vibefeld.State.{State, get_node, all_nodes}
use vibefeld.State.Decision.{lookup-mem}
use vibefeld.State.Keyed.{IsKeyed}
use vibefeld.State.Replay.{replay}
use vibefeld.State.WellFormed.{replay_internal-IsWellFormed}
use vibefeld.Service.{ServiceError, Load, state_dependency_provider, deps_at}

abbrev with_state : {A : Type 0} → Load → (State → A) → Result ServiceError A
with_state load f = load >>= λ st. ok (f st)

-- `CheckCycles`; `none` stands for a search that does not end.
unfoldable pub check_cycles : NodeId → Load → Result ServiceError (Option CycleResult)
check_cycles id load = with_state load (λ st. detect_cycle_from (state_dependency_provider st) id)

-- `CheckAllCycles`
unfoldable pub check_all_cycles : Load → Result ServiceError (Option (List CycleResult))
check_all_cycles load = with_state load (λ st. detect_all_cycles (state_dependency_provider st))

-- `ProofService.WouldCreateCycle`
unfoldable pub check_proposed : NodeId → NodeId → Load → Result ServiceError (Option CycleResult)
check_proposed from_id to_id load =
    with_state load (λ st. would_create_cycle (state_dependency_provider st) from_id to_id)

module _ (st : State) (keyed : IsKeyed st) where
  known_id :
      (a : NodeId) (deps : List NodeId) (o : Option Ptr)
      → get_node st a ≡ o
      → deps_at st o ≡ some deps
      → Memᴰ (to_string a) (map to_string (map (λ p. (st.heap p).id) (all_nodes st)))
  known_id a deps none found e = absurd (cc)
  known_id a deps (some p) found e =
      subst (λ k. Memᴰ k (map to_string (map (λ p. (st.heap p).id) (all_nodes st))))
        (keyed.named (to_string a) p found)
        (map-mem to_string (st.heap p).id (map (λ q. (st.heap q).id) (all_nodes st)) (
          map-mem (λ q. (st.heap q).id) p (all_nodes st)
            (lookup-mem st.nodes (to_string a) p found)))

  -- The nodes of a state under their identifiers are what the search wants of a provider.
  pub state_dependency_provider-IsProvider : IsProvider (state_dependency_provider st)
  unfolding state_dependency_provider
  state_dependency_provider-IsProvider = record {
    by_string = λ a b e. ap (λ k. deps_at st (lookup st.nodes k)) e;
    listed = λ a deps e. known_id a deps (get_node st a) refl e;
  }

-- The node under one string depends on the node under the other, for its proof or for its validation.
abbrev pub Needs : State → Text → Text → Type 0
Needs st u v =
    (p : Ptr) × (dep : NodeId) × (lookup st.nodes u ≡ some p)
    × (to_string dep ≡ v)
    × (Memᴰ dep (st.heap p).dependencies ⊎ Memᴰ dep (st.heap p).validation_deps)

-- Every chain of dependencies from the string comes to an end.
abbrev pub EndsFrom : State → Text → Type 0
EndsFrom st = Acc (λ v u. Needs st u v)

module _ (st : State) (keyed : IsKeyed st) where
  DependsOn-Needs : (u v : Text) → DependsOn (state_dependency_provider st) u v → Needs st u v
  unfolding state_dependency_provider
  DependsOn-Needs u v d = at (get_node st d.node) refl d.known
    where
      at : (o : Option Ptr) → get_node st d.node ≡ o → deps_at st o ≡ some d.deps → Needs st u v
      at none missing e = absurd (cc)
      at (some p) there e = (
        p,
        d.dep,
        sym (ap (lookup st.nodes) d.named) ∙ there,
        d.dep_named,
        mem-append d.dep (st.heap p).dependencies (st.heap p).validation_deps
            (subst (Memᴰ d.dep) (sym (eq_of_some-eq _ d.deps e)) d.listed),
      )

  Needs-DependsOn : (u v : Text) → Needs st u v → DependsOn (state_dependency_provider st) u v
  unfolding state_dependency_provider
  Needs-DependsOn u v (p, dep, there, dep_named, here) = record {
    node = (st.heap p).id;
    deps = (st.heap p).dependencies ++ (st.heap p).validation_deps;
    dep = dep;
    known = ap (deps_at st) (ap (lookup st.nodes) (keyed.named u p there) ∙ there);
    named = keyed.named u p there;
    listed = elim here [
      | inl l ↦ mem-append_left dep (st.heap p).dependencies (st.heap p).validation_deps l
      | inr r ↦ mem-append_right dep (st.heap p).dependencies (st.heap p).validation_deps r
    ];
    dep_named = dep_named;
  }

  acyclic_iff : (u : Text) → IsAcyclicFrom (state_dependency_provider st) u ↔ EndsFrom st u
  acyclic_iff u = (
    Subrelation.accessible (λ a b. Needs-DependsOn b a),
    Subrelation.accessible (λ a b. DependsOn-Needs b a),
  )

-- CheckCycles on the state of a replay returns, and it says that there is no cycle exactly if in the
-- nodes of the state every chain of regular and validation dependencies from the node comes to an end.
pub check_cycles_decides :
    (sha256_hex : Text → Text) (sorter : Sorter) (clock : ℕ → Timestamp) (heap : Heap)
    (ledger : List (ℕ × Option Event)) (st : State) (id : NodeId)
    → replay sha256_hex sorter clock heap ledger ≡ ok st
    → (r : CycleResult) × (check_cycles id (ok st) ≡ ok (some r))
      × ((r.has_cycle ≡ false) ↔ EndsFrom st (to_string id))
unfolding check_cycles replay
check_cycles_decides sha256_hex sorter clock heap ledger st id e =
    let keyed = (replay_internal-IsWellFormed sha256_hex sorter clock false heap ledger st e).0 in
    let (r, found, right) =
      detect_cycle_from_decides (state_dependency_provider st) id
        (state_dependency_provider-IsProvider st keyed) in
    let f : Option CycleResult → Result ServiceError (Option CycleResult) = λ o. ok o in
    let (sound, full) = acyclic_iff st keyed (to_string id) in
    (r, ap f found, (λ h. sound (right.0 h), λ a. right.1 (full a)))
