-- ===== src/Cycle/Acyclic.antt =====
-- What the black nodes of the search of internal/cycle/cycle.go are: those from which the
-- dependencies come to an end.
use vibefeld.Prelude.{
  ℕ, zero, suc, ◌≡◌, refl, sym, ◌∙◌, subst, inl, inr, Bool, false, Bool-cases, Option, none, some,
  List, [], ◌∷◌, ◌++◌, Text, text_eq, text_eq_iff, insert, eq_text, All, All-mem, eq_of_some-eq,
}
use mathlib.Core.List.{Memᴰ}
use mathlib.Core.WellFounded.{Acc}
use vibefeld.Types.NodeId.{NodeId, to_string}
use vibefeld.Cycle.{
  DependencyProvider, Color, white, gray, black, Colors, color_of, Outcome, out_of_fuel, found,
  clear, continue, visit, explore, enter, seek,
}
use vibefeld.Cycle.Terminates.{IsProvider, color_of-insert}

-- The node with the string `u` has a dependency with the string `v`.
pub record DependsOn (provider : DependencyProvider) (u v : Text) : Type 0 where
  pub node : NodeId
  pub deps : List NodeId
  pub dep : NodeId
  pub known : provider.get_node_dependencies node ≡ some deps
  pub named : to_string node ≡ u
  pub listed : Memᴰ dep deps
  pub dep_named : to_string dep ≡ v

-- Every chain of dependencies from the node comes to an end, so none returns to where it was.
abbrev pub IsAcyclicFrom : DependencyProvider → Text → Type 0
IsAcyclicFrom provider = Acc (λ v u. DependsOn provider u v)

-- The string of a node on a cycle is not accessible.
pub not-Acc_of_loop {ℓ κ} : {A : Type ℓ} (R : A → A → Type κ) (a : A) → Acc R a → R a a → ⊥
not-Acc_of_loop R a (Acc.intro _ smaller) loop = not-Acc_of_loop R a (smaller a loop) loop

abbrev pub BlackIsAcyclic : DependencyProvider → Colors → Type 0
BlackIsAcyclic provider m = (s : Text) → color_of m s ≡ black → IsAcyclicFrom provider s

-- A search that found nothing leaves black nodes of this kind, and `Q` holds.
abbrev pub Clears : DependencyProvider → Type 0 → Outcome → Type 0
Clears provider Q out_of_fuel = Unit
Clears provider Q (found m path) = Unit
Clears provider Q (clear m) = BlackIsAcyclic provider m × Q

module _ (provider : DependencyProvider) (lawful : IsProvider provider) where
  pub deps_acyclic :
      (id : NodeId) (deps : List NodeId)
      → provider.get_node_dependencies id ≡ some deps
      → All (λ dep. IsAcyclicFrom provider (to_string dep)) deps
      → IsAcyclicFrom provider (to_string id)
  deps_acyclic id deps e all = Acc.intro (to_string id) (λ v d.
      let same = sym e ∙ sym (lawful.by_string d.node id d.named) ∙ d.known in
      subst (IsAcyclicFrom provider) d.dep_named (
        All-mem (λ dep. IsAcyclicFrom provider (to_string dep)) d.dep deps all
          (subst (Memᴰ d.dep) (sym (eq_of_some-eq deps d.deps same)) d.listed)))

  pub missing_acyclic :
      (id : NodeId)
      → provider.get_node_dependencies id ≡ none
      → IsAcyclicFrom provider (to_string id)
  missing_acyclic id e =
      Acc.intro (to_string id) (λ v d.
        let same = sym e ∙ sym (lawful.by_string d.node id d.named) ∙ d.known in absurd (cc))

  blacken :
      (m : Colors) (s : Text)
      → BlackIsAcyclic provider m
      → IsAcyclicFrom provider s
      → BlackIsAcyclic provider (insert m s black)
  blacken m s h a t e = elim (Bool-cases (text_eq s t)) [
    | inl same ↦ subst (IsAcyclicFrom provider) ((text_eq_iff s t).0 same) a
    | inr other ↦ h t (rw other at (sym (color_of-insert m s black t) ∙ e))
  ]

  grayen :
      (m : Colors) (s : Text)
      → BlackIsAcyclic provider m
      → BlackIsAcyclic provider (insert m s gray)
  grayen m s h t e = elim (Bool-cases (text_eq s t)) [
    | inl same ↦ let at_t = rw same at (color_of-insert m s gray t) in absurd (cc)
    | inr other ↦ h t (rw other at (sym (color_of-insert m s gray t) ∙ e))
  ]

  Clears-continue :
      (rest : Colors → Outcome) (o : Outcome) (P Q : Type 0)
      → ((m : Colors) → BlackIsAcyclic provider m → P → Clears provider Q (rest m))
      → Clears provider P o
      → Clears provider Q (continue rest o)
  Clears-continue rest out_of_fuel P Q h c = tt
  Clears-continue rest (found m path) P Q h c = tt
  Clears-continue rest (clear m) P Q h c = h m c.0 c.1

  Clears-map : (o : Outcome) (P Q : Type 0) → (P → Q) → Clears provider P o → Clears provider Q o
  Clears-map out_of_fuel P Q h c = tt
  Clears-map (found m path) P Q h c = tt
  Clears-map (clear m) P Q h c = (c.0, h c.1)

  -- A call that leaves, where it finds nothing, an acyclic node.
  abbrev Clearing : (NodeId → Colors → Outcome) → Type 0
  Clearing call =
      (id : NodeId) (m : Colors)
      → BlackIsAcyclic provider m
      → Clears provider (IsAcyclicFrom provider (to_string id)) (call id m)

  module _ (skip : NodeId → Bool) (all_visited : (id : NodeId) → skip id ≡ false) where
    Clears-visit :
        (call : NodeId → Colors → Outcome)
        → Clearing call
        → (deps : List NodeId) (m : Colors) → BlackIsAcyclic provider m
        → Clears provider
            (All (λ dep. IsAcyclicFrom provider (to_string dep)) deps)
            (visit skip call deps m)
    unfolding visit
    Clears-visit call clearing [] m h = (h, tt)
    Clears-visit call clearing (dep ∷ deps) m h = rw (all_visited dep) (
        Clears-continue (visit skip call deps) (call dep m) (IsAcyclicFrom provider (to_string dep))
          (All (λ dep. IsAcyclicFrom provider (to_string dep)) (dep ∷ deps))
          (λ m' h' first.
            Clears-map (visit skip call deps m') _ _ (λ others. (first, others))
              (Clears-visit call clearing deps m' h'))
          (clearing dep m h))

    module _ (close : NodeId → List NodeId → List NodeId) where
      module _ (call : NodeId → Colors → List NodeId → Outcome)
          (clearing : (path : List NodeId) → Clearing (λ id m. call id m path)) (id : NodeId)
          (m : Colors) (path : List NodeId) (h : BlackIsAcyclic provider m) where
        Clears-explore :
            (o : Option (List NodeId)) (m' : Colors)
            → BlackIsAcyclic provider m'
            → provider.get_node_dependencies id ≡ o
            → Clears provider
                (IsAcyclicFrom provider (to_string id))
                (explore close skip provider call id m' path o)
        unfolding explore
        Clears-explore none m' h' e =
            let a = missing_acyclic id e in (blacken m' (to_string id) h' a, a)
        Clears-explore (some deps) m' h' e =
            Clears-continue (λ left. clear (insert left (to_string id) black))
              (visit skip (λ dep now. call dep now (path ++ id ∷ [])) deps m')
              (All (λ dep. IsAcyclicFrom provider (to_string dep)) deps)
              (IsAcyclicFrom provider (to_string id))
              (λ left h'' all.
                let a = deps_acyclic id deps e all in (blacken left (to_string id) h'' a, a))
              (Clears-visit (λ dep now. call dep now (path ++ id ∷ [])) (clearing (path ++ id ∷ []))
                deps m' h')

        Clears-enter :
            (c : Color)
            → color_of m (to_string id) ≡ c
            → Clears provider
                (IsAcyclicFrom provider (to_string id))
                (enter close skip provider call id m path c)
        unfolding enter
        Clears-enter gray e = tt
        Clears-enter black e = (h, h (to_string id) e)
        Clears-enter white e =
            Clears-explore (provider.get_node_dependencies id) (insert m (to_string id) gray)
              (grayen m (to_string id) h) refl

      -- Where the search finds nothing, the node is the start of no endless chain.
      pub Clears-seek :
          (fuel : ℕ) (path : List NodeId)
          → Clearing (λ id m. seek close skip provider fuel id m path)
      unfolding seek
      Clears-seek zero path id m h = tt
      Clears-seek (suc fuel) path id m h =
          Clears-enter (seek close skip provider fuel) (Clears-seek fuel) id m path h
            (color_of m (to_string id)) refl
