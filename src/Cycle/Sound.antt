-- ===== src/Cycle/Sound.antt =====
-- What the search of internal/cycle/cycle.go reports: its path closes a cycle of dependencies.
use vibefeld.Prelude.{
  ℕ, zero, suc, ◌≡◌, refl, sym, ◌∙◌, subst, ◌⊎◌, inl, inr, Bool, true, false, Bool-cases, Option,
  none, some, List, [], ◌∷◌, ◌++◌, map, Text, text_eq, text_eq_iff, insert, eq_text, All,
  All-of_mem,
}
use mathlib.Core.List.{Memᴰ}
use mathlib.Core.WellFounded.{Acc}
use mathlib.Mathlib.Logic.Relation.{TransGenᴰ, Acc-TransGenᴰ}
use vibefeld.Types.NodeId.{NodeId, to_string}
use vibefeld.Cycle.{
  DependencyProvider, Color, white, gray, black, Colors, color_of, cycle_loop, cycle_path, Outcome,
  out_of_fuel, found, clear, continue, visit, explore, enter, seek,
}
use vibefeld.Cycle.Terminates.{color_of-insert}
use vibefeld.Cycle.Acyclic.{DependsOn, IsAcyclicFrom, not-Acc_of_loop}

-- The first of the nodes, or the last one where there are no others.
abbrev pub first_or : List NodeId → NodeId → NodeId
first_or [] last = last
first_or (p ∷ ps) last = p

-- Each of the nodes depends on the next, and the last of them on `last`.
abbrev pub Leads : DependencyProvider → List NodeId → NodeId → Type 0
Leads provider [] last = Unit
Leads provider (p ∷ ps) last =
    DependsOn provider (to_string p) (to_string (first_or ps last)) × Leads provider ps last

-- A path of dependencies that ends where it starts.
pub record IsCycle (provider : DependencyProvider) (path : List NodeId) : Type 0 where
  pub first : NodeId
  pub middle : List NodeId
  pub last : NodeId
  pub shape : path ≡ first ∷ (middle ++ last ∷ [])
  pub closed : to_string first ≡ to_string last
  pub linked : Leads provider (first ∷ middle) last

module _ (provider : DependencyProvider) where
  Leads-snoc :
      (ps : List NodeId) (id dep : NodeId)
      → Leads provider ps id
      → DependsOn provider (to_string id) (to_string dep)
      → Leads provider (ps ++ id ∷ []) dep
  Leads-snoc [] id dep h d = (d, tt)
  Leads-snoc (p ∷ []) id dep h d = (h.0, (d, tt))
  Leads-snoc (p ∷ q ∷ ps) id dep h d = (h.0, Leads-snoc (q ∷ ps) id dep h.1 d)

cycle_loop-true : (s : Text) (ps : List NodeId) → cycle_loop s true ps ≡ ps
unfolding cycle_loop
cycle_loop-true s [] = refl
cycle_loop-true s (p ∷ ps) = rw (cycle_loop-true s ps)

mem-other : (s t : Text) (ts : List Text) → text_eq t s ≡ false → Memᴰ s (t ∷ ts) → Memᴰ s ts
mem-other s t ts e (Memᴰ.head same) = let yes_eq = (text_eq_iff t s).1 (sym same) in absurd (cc)
mem-other s t ts e (Memᴰ.tail later) = later

-- From where the path meets the node again it is a cycle.
cycle_loop_lem :
    (provider : DependencyProvider) (s : Text) (ps : List NodeId) (id : NodeId)
    → Memᴰ s (map to_string ps)
    → Leads provider ps id
    → (first : NodeId) × (middle : List NodeId) × (cycle_loop s false ps ≡ first ∷ middle)
      × (to_string first ≡ s)
      × Leads provider (first ∷ middle) id
unfolding cycle_loop
cycle_loop_lem provider s [] id here h = elim here [ ]
cycle_loop_lem provider s (p ∷ ps) id here h = elim (Bool-cases (text_eq (to_string p) s)) [
  | inl e ↦ (p, ps, rw (e, cycle_loop-true s ps), (text_eq_iff (to_string p) s).0 e, h)
  | inr e ↦
      rw e
        (cycle_loop_lem provider s ps id (mem-other s (to_string p) (map to_string ps) e here) h.1)
]

pub cycle_path-IsCycle :
    (provider : DependencyProvider) (ps : List NodeId) (id : NodeId)
    → Memᴰ (to_string id) (map to_string ps)
    → Leads provider ps id
    → IsCycle provider (cycle_path id ps)
unfolding cycle_path
cycle_path-IsCycle provider ps id here h =
    let (first, middle, e, closed, linked) = cycle_loop_lem provider (to_string id) ps id here h in
    record {
      first = first;
      middle = middle;
      last = id;
      shape = rw e;
      closed = closed;
      linked = linked;
    }

mem-snoc :
    (t : Text) (ps : List NodeId) (id : NodeId)
    → Memᴰ t (map to_string (ps ++ id ∷ []))
    → Memᴰ t (map to_string ps) ⊎ (t ≡ to_string id)
mem-snoc t [] id (Memᴰ.head e) = inr e
mem-snoc t [] id (Memᴰ.tail m) = elim m [ ]
mem-snoc t (p ∷ ps) id (Memᴰ.head e) = inl (Memᴰ.head e)
mem-snoc t (p ∷ ps) id (Memᴰ.tail m) = elim (mem-snoc t ps id m) [
  | inl later ↦ inl (Memᴰ.tail later)
  | inr e ↦ inr e
]

snoc-mem_left :
    (t : Text) (ps : List NodeId) (id : NodeId)
    → Memᴰ t (map to_string ps)
    → Memᴰ t (map to_string (ps ++ id ∷ []))
snoc-mem_left t [] id m = elim m [ ]
snoc-mem_left t (p ∷ ps) id (Memᴰ.head e) = Memᴰ.head e
snoc-mem_left t (p ∷ ps) id (Memᴰ.tail m) = Memᴰ.tail (snoc-mem_left t ps id m)

snoc-mem_last :
    (ps : List NodeId) (id : NodeId) → Memᴰ (to_string id) (map to_string (ps ++ id ∷ []))
snoc-mem_last [] id = Memᴰ.head refl
snoc-mem_last (p ∷ ps) id = Memᴰ.tail (snoc-mem_last ps id)

-- The gray nodes are on the path.
abbrev pub IsOnPath : Colors → List NodeId → Type 0
IsOnPath m path = (s : Text) → color_of m s ≡ gray → Memᴰ s (map to_string path)

-- A path of dependencies from `start`.
abbrev pub LeadsFrom : DependencyProvider → NodeId → List NodeId → NodeId → Type 0
LeadsFrom provider start path id = Leads provider path id × (first_or path id ≡ start)

first_or-snoc :
    (ps : List NodeId) (id last : NodeId) → first_or (ps ++ id ∷ []) last ≡ first_or ps id
first_or-snoc [] id last = refl
first_or-snoc (p ∷ ps) id last = refl

-- What the search reports: a path from where it started to a node that is on the path already.
pub record IsReport (provider : DependencyProvider) (close : NodeId → List NodeId → List NodeId)
    (start : NodeId) (report : List NodeId) : Type 0 where
  pub id : NodeId
  pub before : List NodeId
  pub reported : report ≡ close id before
  pub met : Memᴰ (to_string id) (map to_string before)
  pub linked : LeadsFrom provider start before id

module _ (provider : DependencyProvider) (close : NodeId → List NodeId → List NodeId)
    (skip : NodeId → Bool) (start : NodeId) where
  abbrev pub Traces : List NodeId → Outcome → Type 0
  Traces path out_of_fuel = Unit
  Traces path (found m report) = IsReport provider close start report
  Traces path (clear m) = IsOnPath m path

  Traces-continue :
      (rest : Colors → Outcome) (o : Outcome) (path path' : List NodeId)
      → ((m : Colors) → IsOnPath m path → Traces path' (rest m))
      → Traces path o
      → Traces path' (continue rest o)
  Traces-continue rest out_of_fuel path path' h t = tt
  Traces-continue rest (found m report) path path' h t = t
  Traces-continue rest (clear m) path path' h t = h m t

  -- A call that keeps the gray nodes on the path that leads to it.
  abbrev Tracing : (NodeId → Colors → List NodeId → Outcome) → Type 0
  Tracing call =
      (id : NodeId) (m : Colors) (path : List NodeId)
      → IsOnPath m path
      → LeadsFrom provider start path id
      → Traces path (call id m path)

  module _ (call : NodeId → Colors → List NodeId → Outcome) (tracing : Tracing call)
      (path : List NodeId) where
    Traces-visit :
        (deps : List NodeId) (m : Colors)
        → All (LeadsFrom provider start path) deps
        → IsOnPath m path
        → Traces path (visit skip (λ dep now. call dep now path) deps m)
    unfolding visit
    Traces-visit [] m all h = h
    Traces-visit (dep ∷ deps) m all h = elim (Bool-cases (skip dep)) [
      | inl e ↦ rw e (Traces-visit deps m all.1 h)
      | inr e ↦ rw e (
          Traces-continue (visit skip (λ next now. call next now path) deps) (call dep m path) path
            path (λ m'. Traces-visit deps m' all.1) (tracing dep m path h all.0))
    ]

  turn_gray :
      (m : Colors) (path : List NodeId) (id : NodeId)
      → IsOnPath m path
      → IsOnPath (insert m (to_string id) gray) (path ++ id ∷ [])
  turn_gray m path id h t e = elim (Bool-cases (text_eq (to_string id) t)) [
    | inl same ↦
        subst (λ u. Memᴰ u (map to_string (path ++ id ∷ [])))
          ((text_eq_iff (to_string id) t).0 same) (snoc-mem_last path id)
    | inr other ↦
        snoc-mem_left t path id
          (h t (rw other at (sym (color_of-insert m (to_string id) gray t) ∙ e)))
  ]

  turn_black :
      (m : Colors) (path : List NodeId) (id : NodeId)
      → IsOnPath m (path ++ id ∷ [])
      → IsOnPath (insert m (to_string id) black) path
  turn_black m path id h t e = elim (Bool-cases (text_eq (to_string id) t)) [
    | inl same ↦ let at_t = rw same at (color_of-insert m (to_string id) black t) in absurd (cc)
    | inr other ↦
        let at_t = rw other at (color_of-insert m (to_string id) black t) in
        elim (mem-snoc t path id (h t (sym at_t ∙ e))) [
          | inl on ↦ on
          | inr same ↦ let yes_eq = (text_eq_iff (to_string id) t).1 (sym same) in absurd (cc)
        ]
  ]

  deps-LeadsFrom :
      (path : List NodeId) (id : NodeId) (deps : List NodeId)
      → LeadsFrom provider start path id
      → provider.get_node_dependencies id ≡ some deps
      → All (LeadsFrom provider start (path ++ id ∷ [])) deps
  deps-LeadsFrom path id deps h e =
      All-of_mem (LeadsFrom provider start (path ++ id ∷ [])) deps (λ dep listed.
        let edge : DependsOn provider (to_string id) (to_string dep) = record {
          node = id;
          deps = deps;
          dep = dep;
          known = e;
          named = refl;
          listed = listed;
          dep_named = refl;
        } in
        (Leads-snoc provider path id dep h.0 edge, first_or-snoc path id dep ∙ h.1))

  module _ (call : NodeId → Colors → List NodeId → Outcome) (tracing : Tracing call) (id : NodeId)
      (path : List NodeId) (leads : LeadsFrom provider start path id) where
    Traces-explore :
        (o : Option (List NodeId)) (m : Colors)
        → provider.get_node_dependencies id ≡ o
        → IsOnPath m (path ++ id ∷ [])
        → Traces path (explore close skip provider call id m path o)
    unfolding explore
    Traces-explore none m e h = turn_black m path id h
    Traces-explore (some deps) m e h =
        Traces-continue (λ left. clear (insert left (to_string id) black))
          (visit skip (λ dep now. call dep now (path ++ id ∷ [])) deps m) (path ++ id ∷ []) path
          (λ left. turn_black left path id)
          (Traces-visit call tracing (path ++ id ∷ []) deps m (deps-LeadsFrom path id deps leads e)
            h)

    Traces-enter :
        (c : Color) (m : Colors)
        → color_of m (to_string id) ≡ c
        → IsOnPath m path
        → Traces path (enter close skip provider call id m path c)
    unfolding enter
    Traces-enter gray m e h = record {
      id = id;
      before = path;
      reported = refl;
      met = h (to_string id) e;
      linked = leads;
    }
    Traces-enter black m e h = h
    Traces-enter white m e h =
        Traces-explore (provider.get_node_dependencies id) (insert m (to_string id) gray) refl
          (turn_gray m path id h)

  pub Traces-seek : (fuel : ℕ) → Tracing (seek close skip provider fuel)
  unfolding seek
  Traces-seek zero id m path h leads = tt
  Traces-seek (suc fuel) id m path h leads =
      Traces-enter (seek close skip provider fuel) (Traces-seek fuel) id path leads
        (color_of m (to_string id)) m refl h

module _ (provider : DependencyProvider) where
  -- What a node depends on, directly or not, is acyclic if the node is.
  acyclic_along :
      (ps : List NodeId) (id : NodeId)
      → Leads provider ps id
      → IsAcyclicFrom provider (to_string (first_or ps id))
      → IsAcyclicFrom provider (to_string id)
  acyclic_along [] id h a = a
  acyclic_along (p ∷ ps) id h (Acc.intro _ smaller) =
      acyclic_along ps id h.1 (smaller (to_string (first_or ps id)) h.0)

  Leads-TransGen :
      (p : NodeId) (ps : List NodeId) (id : NodeId)
      → Leads provider (p ∷ ps) id
      → TransGenᴰ (λ v u. DependsOn provider u v) (to_string id) (to_string p)
  Leads-TransGen p [] id h = TransGenᴰ.single h.0
  Leads-TransGen p (q ∷ ps) id h = TransGenᴰ.tail (Leads-TransGen q ps id h.1) h.0

  loop-not_acyclic :
      (first : NodeId) (middle : List NodeId) (last : NodeId)
      → Leads provider (first ∷ middle) last
      → to_string first ≡ to_string last
      → IsAcyclicFrom provider (to_string last)
      → ⊥
  loop-not_acyclic first middle last linked closed a =
      not-Acc_of_loop (TransGenᴰ (λ v u. DependsOn provider u v)) (to_string last) (Acc-TransGenᴰ a)
        (subst (TransGenᴰ (λ v u. DependsOn provider u v) (to_string last)) closed
          (Leads-TransGen first middle last linked))

  -- No node on a cycle is acyclic.
  pub IsCycle-not_acyclic :
      (path : List NodeId) (c : IsCycle provider path)
      → IsAcyclicFrom provider (to_string c.first)
      → ⊥
  IsCycle-not_acyclic path c a =
      loop-not_acyclic c.first c.middle c.last c.linked c.closed
        (subst (IsAcyclicFrom provider) c.closed a)

  -- A node from which a path leads to a node that is on it already is not acyclic.
  pub IsReport-not_acyclic :
      (close : NodeId → List NodeId → List NodeId) (start : NodeId) (report : List NodeId)
      → IsReport provider close start report
      → IsAcyclicFrom provider (to_string start)
      → ⊥
  IsReport-not_acyclic close start report r a =
      let (first, middle, _, closed, linked) =
        cycle_loop_lem provider (to_string r.id) r.before r.id r.met r.linked.0 in
      loop-not_acyclic first middle r.id linked closed (
        acyclic_along r.before r.id r.linked.0
          (subst (λ p. IsAcyclicFrom provider (to_string p)) (sym r.linked.1) a))
