-- ===== src/Cycle/Proposed.antt =====
-- WouldCreateCycle of internal/cycle/cycle.go: what a proposed dependency adds to the graph.
use vibefeld.Prelude.{
  ◌≡◌, refl, sym, ap, ◌∙◌, subst, ◌↔◌, ◌⊎◌, inl, inr, true, false, Bool-cases, Option, none, some,
  List, [], ◌∷◌, ◌++◌, Text, text_eq, text_eq_iff, any, mem-append_left, mem-append_right,
  eq_of_some-eq,
}
use mathlib.Core.List.{Memᴰ}
use mathlib.Core.WellFounded.{Acc}
use mathlib.Core.WellFounded.Acc
use vibefeld.Types.NodeId.{NodeId, to_string}
use vibefeld.Cycle.{
  DependencyProvider, CycleResult, map_deps, with_proposed, dependency_wrapper, would_create_cycle,
}
use vibefeld.Cycle.Terminates.{IsProvider}
use vibefeld.Cycle.Acyclic.{DependsOn, IsAcyclicFrom, not-Acc_of_loop}
use vibefeld.Cycle.Detect.{detect_cycle_from_decides}

-- The dependencies, and the proposed one.
abbrev pub DependsWith : DependencyProvider → NodeId → NodeId → Text → Text → Type 0
DependsWith provider from_id to_id u v =
    DependsOn provider u v ⊎ ((u ≡ to_string from_id) × (v ≡ to_string to_id))

-- No chain of these dependencies from anywhere is endless.
abbrev pub StaysAcyclic : DependencyProvider → NodeId → NodeId → Type 0
StaysAcyclic provider from_id to_id =
    (s : Text) → Acc (λ v u. DependsWith provider from_id to_id u v) s

Acc-weaken :
    (R S : Text → Text → Type 0) → ((v u : Text) → R v u → S v u) → (s : Text) → Acc S s → Acc R s
Acc-weaken R S h s (Acc.intro _ smaller) =
    Acc.intro s (λ v r. Acc-weaken R S h v (smaller v (h v s r)))

map_deps-eq_some :
    (f : List NodeId → List NodeId) (o : Option (List NodeId)) (after : List NodeId)
    → map_deps f o ≡ some after
    → (deps : List NodeId) × (o ≡ some deps) × (f deps ≡ after)
map_deps-eq_some f none after e = absurd (cc)
map_deps-eq_some f (some deps) after e = (deps, refl, eq_of_some-eq (f deps) after e)

-- A dependency that is there already.
any-mem :
    (t : Text) (deps : List NodeId)
    → any (λ dep. text_eq (to_string dep) t) deps ≡ true
    → (dep : NodeId) × Memᴰ dep deps × (to_string dep ≡ t)
any-mem t [] h = absurd (cc)
any-mem t (dep ∷ deps) h = elim (Bool-cases (text_eq (to_string dep) t)) [
  | inl e ↦ (dep, Memᴰ.head refl, (text_eq_iff (to_string dep) t).0 e)
  | inr e ↦ let (found, m, named) = any-mem t deps (rw e at h) in (found, Memᴰ.tail m, named)
]

mem-snoc :
    (d last : NodeId) (deps : List NodeId) → Memᴰ d (deps ++ last ∷ []) → Memᴰ d deps ⊎ (d ≡ last)
mem-snoc d last [] (Memᴰ.head e) = inr e
mem-snoc d last [] (Memᴰ.tail m) = elim m [ ]
mem-snoc d last (x ∷ deps) (Memᴰ.head e) = inl (Memᴰ.head e)
mem-snoc d last (x ∷ deps) (Memᴰ.tail m) = elim (mem-snoc d last deps m) [
  | inl later ↦ inl (Memᴰ.tail later)
  | inr e ↦ inr e
]

module _ (provider : DependencyProvider) (from_id to_id : NodeId) where
  abbrev wrapper : DependencyProvider
  wrapper = dependency_wrapper provider from_id to_id

  mem-with_proposed :
      (id : NodeId) (deps : List NodeId) (d : NodeId)
      → Memᴰ d (with_proposed from_id to_id id deps)
      → Memᴰ d deps ⊎ ((to_string id ≡ to_string from_id) × (d ≡ to_id))
  unfolding with_proposed
  mem-with_proposed id deps d m = elim (Bool-cases (text_eq (to_string id) (to_string from_id))) [
    | inr other ↦ inl (rw other at m)
    | inl same ↦ elim (Bool-cases (any (λ dep. text_eq (to_string dep) (to_string to_id)) deps)) [
      | inl there ↦ inl (rw (same, there) at m)
      | inr new ↦ elim (mem-snoc d to_id deps (rw (same, new) at m)) [
        | inl old ↦ inl old
        | inr e ↦ inr ((text_eq_iff (to_string id) (to_string from_id)).0 same, e)
      ]
    ]
  ]

  with_proposed-mem :
      (id : NodeId) (deps : List NodeId) (d : NodeId)
      → Memᴰ d deps
      → Memᴰ d (with_proposed from_id to_id id deps)
  unfolding with_proposed
  with_proposed-mem id deps d m = elim (Bool-cases (text_eq (to_string id) (to_string from_id))) [
    | inr other ↦ rw other m
    | inl same ↦ elim (Bool-cases (any (λ dep. text_eq (to_string dep) (to_string to_id)) deps)) [
      | inl there ↦ rw (same, there) m
      | inr new ↦ rw (same, new) (mem-append_left d deps (to_id ∷ []) m)
    ]
  ]

  proposed_listed :
      (deps : List NodeId)
      → (d : NodeId) × Memᴰ d (with_proposed from_id to_id from_id deps)
        × (to_string d ≡ to_string to_id)
  unfolding with_proposed
  proposed_listed deps =
      let same = (text_eq_iff (to_string from_id) (to_string from_id)).1 refl in
      elim (Bool-cases (any (λ dep. text_eq (to_string dep) (to_string to_id)) deps)) [
        | inl there ↦ rw (same, there) (any-mem (to_string to_id) deps there)
        | inr new ↦
            rw (same, new) (to_id, mem-append_right to_id deps (to_id ∷ []) (Memᴰ.head refl), refl)
      ]

  wrapped_depends : (u v : Text) → DependsOn wrapper u v → DependsWith provider from_id to_id u v
  unfolding dependency_wrapper
  wrapped_depends u v d =
      let (deps, e, added) =
        map_deps-eq_some (with_proposed from_id to_id d.node)
          (provider.get_node_dependencies d.node) d.deps d.known in
      elim (mem-with_proposed d.node deps d.dep (subst (Memᴰ d.dep) (sym added) d.listed)) [
        | inl old ↦ inl (record {
          node = d.node;
          deps = deps;
          dep = d.dep;
          known = e;
          named = d.named;
          listed = old;
          dep_named = d.dep_named;
        })
        | inr (at_from, is_to) ↦ inr (sym d.named ∙ at_from, sym d.dep_named ∙ ap to_string is_to)
      ]

  module _ (from_deps : List NodeId)
      (from_known : provider.get_node_dependencies from_id ≡ some from_deps) where
    proposed_depends : DependsOn wrapper (to_string from_id) (to_string to_id)
    unfolding dependency_wrapper
    proposed_depends =
        let (d, listed, named) = proposed_listed from_deps in
        record {
          node = from_id;
          deps = with_proposed from_id to_id from_id from_deps;
          dep = d;
          known = rw from_known;
          named = refl;
          listed = listed;
          dep_named = named;
        }

    depends_wrapped : (u v : Text) → DependsWith provider from_id to_id u v → DependsOn wrapper u v
    unfolding dependency_wrapper
    depends_wrapped u v (inl d) = record {
      node = d.node;
      deps = with_proposed from_id to_id d.node d.deps;
      dep = d.dep;
      known = rw d.known;
      named = d.named;
      listed = with_proposed-mem d.node d.deps d.dep d.listed;
      dep_named = d.dep_named;
    }
    depends_wrapped u v (inr (at_from, at_to)) =
        subst (λ w. DependsOn wrapper w v) (sym at_from)
          (subst (DependsOn wrapper (to_string from_id)) (sym at_to) proposed_depends)

  with_proposed-congr :
      (a b : NodeId)
      → to_string a ≡ to_string b
      → (o : Option (List NodeId))
      → map_deps (with_proposed from_id to_id a) o ≡ map_deps (with_proposed from_id to_id b) o
  unfolding with_proposed
  with_proposed-congr a b e none = refl
  with_proposed-congr a b e (some deps) = rw e

  wrapper-IsProvider : IsProvider provider → IsProvider wrapper
  unfolding dependency_wrapper
  wrapper-IsProvider lawful = record {
    by_string = λ a b e.
        ap (map_deps (with_proposed from_id to_id a)) (lawful.by_string a b e)
        ∙ with_proposed-congr a b e (provider.get_node_dependencies b);
    listed = λ a deps e.
        let (old, known, _) =
          map_deps-eq_some (with_proposed from_id to_id a) (provider.get_node_dependencies a) deps
            e in
        lawful.listed a old known;
  }

  -- If the new chains from `from_id` end, those from everywhere do.
  spread :
      Acc (λ v u. DependsWith provider from_id to_id u v) (to_string from_id)
      → (s : Text) → IsAcyclicFrom provider s
      → Acc (λ v u. DependsWith provider from_id to_id u v) s
  spread a s (Acc.intro _ smaller) = Acc.intro s (λ v d. elim d [
    | inl old ↦ spread a v (smaller v old)
    | inr (at_from, at_to) ↦ Acc.inv a (inr (refl, at_to))
  ])

  -- In a graph without cycles that has `from_id`, WouldCreateCycle returns, and it says that there
  -- is no cycle exactly if the graph with the dependency of `from_id` on `to_id` has none either. The
  -- provider reads the identifier's string and lists the nodes that it knows.
  pub would_create_cycle_decides :
      (from_deps : List NodeId)
      → IsProvider provider
      → ((s : Text) → IsAcyclicFrom provider s)
      → provider.get_node_dependencies from_id ≡ some from_deps
      → (r : CycleResult) × (would_create_cycle provider from_id to_id ≡ some r)
        × ((r.has_cycle ≡ false) ↔ StaysAcyclic provider from_id to_id)
  unfolding would_create_cycle
  would_create_cycle_decides from_deps lawful acyclic known =
      elim (Bool-cases (text_eq (to_string from_id) (to_string to_id))) [
        | inl self ↦
            let r : CycleResult = record { has_cycle = true; path = from_id ∷ to_id ∷ [] } in
            let same = (text_eq_iff (to_string from_id) (to_string to_id)).0 self in
            (
              r,
              rw self,
              (
                λ h. absurd (cc),
                λ stays. absurd (
                    not-Acc_of_loop (λ v u. DependsWith provider from_id to_id u v)
                      (to_string from_id) (stays (to_string from_id)) (inr (refl, same))),
              ),
            )
        | inr other ↦
            let (r, e, right) =
              detect_cycle_from_decides wrapper from_id (wrapper-IsProvider lawful) in
            (
              r,
              rw (other, known) e,
              (
                λ h s.
                    spread
                      (Acc-weaken (λ v u. DependsWith provider from_id to_id u v)
                        (λ v u. DependsOn wrapper u v) (λ v u. depends_wrapped from_deps known u v)
                        (to_string from_id) (right.0 h))
                      s (acyclic s),
                λ stays. right.1 (
                    Acc-weaken (λ v u. DependsOn wrapper u v)
                      (λ v u. DependsWith provider from_id to_id u v) (λ v u. wrapped_depends u v)
                      (to_string from_id) (stays (to_string from_id))),
              ),
            )
      ]
