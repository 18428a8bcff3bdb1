-- ===== src/Taint/Propagate.antt =====
-- The loop of `PropagateTaint` and the taint that it has to establish (internal/taint/propagate.go).
use vibefeld.Prelude.{
  text_eq_iff, ℕ, ◌≤◌, ◌<◌, ◌≡◌, ◌≢◌, refl, sym, ◌∙◌, ap, subst, Bool, true, false, List, [], ◌∷◌,
  map, arith, Text, if◌then◌else◌, Map, eq_text, All, ◌==◌, ==_iff, Bool-cases, inl, inr,
}
use vibefeld.Types.NodeId.{NodeId, depth}
use vibefeld.Types.NodeId.Canonical.{IsCanonical}
use vibefeld.Node.{Node, TaintState, clean, self_admitted, tainted, unresolved}
use vibefeld.Taint.{
  Ptr, Heap, Cache, IsSorted, same_taint, compute_taint, set_taint, get_ancestors,
  get_ancestors_cached, visit, propagate_loop,
}
use vibefeld.Taint.Ancestors.{
  IsCorrect, IsIndex, get_ancestors_cached-IsCorrect, get_ancestors-below,
}

same_taint-eq : (s t : TaintState) → same_taint s t ≡ true → s ≡ t
unfolding same_taint
same_taint-eq clean clean h = refl
same_taint-eq self_admitted self_admitted h = refl
same_taint-eq tainted tainted h = refl
same_taint-eq unresolved unresolved h = refl
same_taint-eq (TaintState.other s) (TaintState.other t) h =
    ap TaintState.other ((text_eq_iff s t).0 h)
same_taint-eq clean tainted h = cc
same_taint-eq self_admitted clean h = cc
same_taint-eq tainted clean h = cc
same_taint-eq unresolved clean h = cc
same_taint-eq _ _ h = cc

pub set_taint-ne : (h : Heap) (p : Ptr) (t : TaintState) (q : Ptr) → q ≢ p → set_taint h p t q ≡ h q
unfolding set_taint
set_taint-ne h p t q ne = ground (arith, ne)

set_taint_self :
    (h : Heap) (p : Ptr) (t : TaintState) → set_taint h p t p ≡ record (h p) { taint_state = t }
unfolding set_taint
set_taint_self h p t = ground arith

-- Only the taint is written.
abbrev pub KeepsNodes : Heap → Heap → Type 0
KeepsNodes h h' = (p : Ptr) → h' p ≡ record (h p) { taint_state = (h' p).taint_state }

if_KeepsNode :
    (b : Bool) (n : Node) (t : TaintState)
    → (if b then record n { taint_state = t } else n)
      ≡ record n { taint_state = (if b then record n { taint_state = t } else n).taint_state }
if_KeepsNode true n t = refl
if_KeepsNode false n t = refl

pub set_taint-KeepsNodes : (h : Heap) (p : Ptr) (t : TaintState) → KeepsNodes h (set_taint h p t)
unfolding set_taint
set_taint-KeepsNodes h p t q = if_KeepsNode (q == p) (h q) t

visit-KeepsNodes : (h : Heap) (p : Ptr) (above : List Ptr) → KeepsNodes h (visit h p above).0
unfolding visit
visit-KeepsNodes h p above =
    elim (Bool-cases (same_taint (h p).taint_state (compute_taint (h p) (map h above)))) [
      | inl e ↦ rw e (λ q. refl)
      | inr e ↦ rw e (set_taint-KeepsNodes h p _)
    ]

pub KeepsNodes-trans : (a b c : Heap) → KeepsNodes a b → KeepsNodes b c → KeepsNodes a c
KeepsNodes-trans a b c ab bc p =
    bc p ∙ ap (λ (n : Node). record n { taint_state = (c p).taint_state }) (ab p)

pub propagate_loop-KeepsNodes :
    (m : Map Text Ptr) (ps : List Ptr) (h : Heap) (cache : Cache)
    → KeepsNodes h (propagate_loop m ps h cache).0
unfolding propagate_loop
propagate_loop-KeepsNodes m [] h cache = λ p. refl
propagate_loop-KeepsNodes m (p ∷ ps) h cache =
    let (above, cache') = get_ancestors_cached (h p).id m cache in
    let h' = (visit h p above).0 in
    KeepsNodes-trans h h' (propagate_loop m ps h' cache').0 (visit-KeepsNodes h p above)
      (propagate_loop-KeepsNodes m ps h' cache')

map-set_taint :
    (h : Heap) (p : Ptr) (t : TaintState) (qs : List Ptr)
    → All (λ q. q ≢ p) qs
    → map (set_taint h p t) qs ≡ map h qs
map-set_taint h p t [] a = refl
map-set_taint h p t (q ∷ qs) a = cc (set_taint-ne h p t q a.0, map-set_taint h p t qs a.1)

-- `compute_taint` does not look at the node's own taint.
compute_taint-own :
    (n : Node) (t : TaintState) (above : List Node)
    → compute_taint (record n { taint_state = t }) above ≡ compute_taint n above
unfolding compute_taint
compute_taint-own n t above = refl

-- The taint of `p` is the one that `ComputeTaint` gives for its ancestors.
abbrev pub IsConsistent : Map Text Ptr → Heap → Ptr → Type 0
IsConsistent m h p = (h p).taint_state ≡ compute_taint (h p) (map h (get_ancestors (h p).id m))

module _ (m : Map Text Ptr) (ids : Ptr → NodeId) (index : IsIndex m ids) where
  -- The heap's identifiers are the given ones; taints are all that varies.
  abbrev pub HasIds : Heap → Type 0
  HasIds h = (p : Ptr) → (h p).id ≡ ids p

  HasIds-keeps : (h h' : Heap) → HasIds h → KeepsNodes h h' → HasIds h'
  HasIds-keeps h h' has keeps p = ap (λ (n : Node). n.id) (keeps p) ∙ has p

  not_own_ancestor :
      (p : Ptr) (n : ℕ) (qs : List Ptr)
      → n ≤ depth (ids p)
      → All (λ q. depth (ids q) < n) qs
      → All (λ q. q ≢ p) qs
  not_own_ancestor p n [] le below = tt
  not_own_ancestor p n (q ∷ qs) le below = (
    λ e. absurd (omega (arith, below.0, ap (λ r. depth (ids r)) e)),
    not_own_ancestor p n qs le below.1,
  )

  -- Writing a taint leaves alone what is not below the node.
  set_taint-IsConsistent :
      (h : Heap) (p q : Ptr) (t : TaintState)
      → HasIds h
      → IsCanonical (ids q)
      → depth (ids q) ≤ depth (ids p)
      → q ≢ p
      → IsConsistent m h q
      → IsConsistent m (set_taint h p t) q
  set_taint-IsConsistent h p q t has c le ne ok =
      let below = get_ancestors-below m ids (ids q) index c in
      let apart = not_own_ancestor p (depth (ids q)) (get_ancestors (ids q) m) le below in
      cc (set_taint-ne h p t q ne, has q, map-set_taint h p t (get_ancestors (ids q) m) apart, ok)

  pub set_taint-IsConsistent_self :
      (h : Heap) (p : Ptr)
      → HasIds h
      → IsCanonical (ids p)
      → IsConsistent m (set_taint h p (compute_taint (h p) (map h (get_ancestors (ids p) m)))) p
  set_taint-IsConsistent_self h p has c =
      let above = get_ancestors (ids p) m in
      let below = get_ancestors-below m ids (ids p) index c in
      let apart = not_own_ancestor p (depth (ids p)) above (omega arith) below in
      let t = compute_taint (h p) (map h above) in
      cc (
        set_taint_self h p t,
        has p,
        map-set_taint h p t above apart,
        compute_taint-own (h p) t (map h above),
      )

  visit-IsConsistent_self :
      (h : Heap) (p : Ptr)
      → HasIds h
      → IsCanonical (ids p)
      → IsConsistent m (visit h p (get_ancestors (ids p) m)).0 p
  unfolding visit
  visit-IsConsistent_self h p has c =
      let above = get_ancestors (ids p) m in
      elim (Bool-cases (same_taint (h p).taint_state (compute_taint (h p) (map h above)))) [
        | inl e ↦ rw e (cc (same_taint-eq _ _ e, has p))
        | inr e ↦ rw e (set_taint-IsConsistent_self h p has c)
      ]

  visit-IsConsistent :
      (h : Heap) (p q : Ptr)
      → HasIds h
      → IsCanonical (ids p)
      → IsCanonical (ids q)
      → depth (ids q) ≤ depth (ids p)
      → IsConsistent m h q
      → IsConsistent m (visit h p (get_ancestors (ids p) m)).0 q
  unfolding visit
  visit-IsConsistent h p q has cp cq le ok = elim (Bool-cases (q == p)) [
    | inl e ↦
        subst (IsConsistent m (visit h p (get_ancestors (ids p) m)).0) (sym ((==_iff q p).0 e))
          (visit-IsConsistent_self h p has cp)
    | inr e ↦ apart (λ same. cc (e, (==_iff q p).1 same))
  ]
    where
      apart : q ≢ p → IsConsistent m (visit h p (get_ancestors (ids p) m)).0 q
      apart ne =
          elim (Bool-cases (
            same_taint (h p).taint_state (compute_taint (h p) (map h (get_ancestors (ids p) m))))) [
              | inl same ↦ rw (same, visit) ok
              | inr other ↦ rw (other, visit) (set_taint-IsConsistent h p q _ has cq le ne ok)
            ]

  -- What the loop has passed stays consistent, and what it visits becomes consistent.
  loop-IsConsistent :
      (ps : List Ptr) (h : Heap) (cache : Cache) (q : Ptr)
      → HasIds h
      → IsCorrect m cache
      → All (λ p. IsCanonical (ids p)) ps
      → IsCanonical (ids q)
      → All (λ p. depth (ids q) ≤ depth (ids p)) ps
      → IsConsistent m h q
      → IsConsistent m (propagate_loop m ps h cache).0 q
  unfolding propagate_loop
  loop-IsConsistent [] h cache q has correct cs cq le ok = ok
  loop-IsConsistent (p ∷ ps) h cache q has correct cs cq le ok =
      let (found, correct') =
        get_ancestors_cached-IsCorrect m cache (h p).id correct (rw (has p) cs.0) in
      let h' = (visit h p (get_ancestors_cached (h p).id m cache).0).0 in
      loop-IsConsistent ps h' (get_ancestors_cached (h p).id m cache).1 q
        (HasIds-keeps h h' has (visit-KeepsNodes h p _)) correct' cs.1 cq le.1
        (subst (λ above. IsConsistent m (visit h p above).0 q)
          (sym (found ∙ ap (λ id. get_ancestors id m) (has p)))
          (visit-IsConsistent h p q has cs.0 cq le.0 ok))

  pub propagate_loop-IsConsistent :
      (ps : List Ptr) (h : Heap) (cache : Cache)
      → HasIds h
      → IsCorrect m cache
      → All (λ p. IsCanonical (ids p)) ps
      → IsSorted (λ p. depth (ids p)) ps
      → All (IsConsistent m (propagate_loop m ps h cache).0) ps
  unfolding propagate_loop
  propagate_loop-IsConsistent [] h cache has correct cs sorted = tt
  propagate_loop-IsConsistent (p ∷ ps) h cache has correct cs sorted =
      let (found, correct') =
        get_ancestors_cached-IsCorrect m cache (h p).id correct (rw (has p) cs.0) in
      let h' = (visit h p (get_ancestors_cached (h p).id m cache).0).0 in
      let has' = HasIds-keeps h h' has (visit-KeepsNodes h p _) in
      (
        loop-IsConsistent ps h' (get_ancestors_cached (h p).id m cache).1 p has' correct' cs.1 cs.0
            sorted.0
            (subst (λ above. IsConsistent m (visit h p above).0 p)
              (sym (found ∙ ap (λ id. get_ancestors id m) (has p)))
              (visit-IsConsistent_self h p has cs.0)),
        propagate_loop-IsConsistent ps h' (get_ancestors_cached (h p).id m cache).1 has' correct'
            cs.1 sorted.1,
      )
