-- ===== src/Taint/Ancestors.antt =====
-- The ancestors of a node, cached and not (internal/taint/propagate.go).
use mathlib.Core.Path.{ap₂}
use vibefeld.Prelude.{
  ℕ, zero, suc, ◌≤◌, ◌<◌, ◌≡◌, refl, sym, ◌∙◌, ap, Option, none, some, List, [], ◌∷◌, arith, Text,
  text_eq, text_eq_iff, Map, lookup, insert, lookup-insert, eq_text, All, Option-cases, Bool-cases,
  inl, inr, eq_of_some-eq, length,
}
use vibefeld.Types.NodeId.{NodeId, to_string, parent, depth, render, drop_last}
use vibefeld.Types.NodeId.Canonical.{
  IsCanonical, to_string-render, to_string-injective, parent-IsCanonical, parent-cases,
}
use vibefeld.Taint.{
  Ptr, Cache, in_front, ancestors_loop, get_ancestors, from_parent, get_ancestors_cached,
}

module _ (m : Map Text Ptr) where
  pub get_ancestors-none : (id : NodeId) → parent id ≡ none → get_ancestors id m ≡ []
  unfolding get_ancestors
  get_ancestors-none id e = go (depth id)
    where
      go : (fuel : ℕ) → ancestors_loop fuel id m ≡ []
      go zero = refl
      go (suc fuel) = rw (e, ancestors_loop)

  pub get_ancestors-some :
      (id p : NodeId)
      → parent id ≡ some p
      → get_ancestors id m ≡ in_front (lookup m (to_string p)) (get_ancestors p m)
  unfolding get_ancestors
  get_ancestors-some id p e = elim (parent-cases id) [
    | inl (gone, _) ↦ absurd (cc)
    | inr (p', e', _, len, _) ↦
        rw (len ∙ ap (λ (r : NodeId). suc (depth r)) (eq_of_some-eq p' p (sym e' ∙ e)))
          (rw (e, ancestors_loop))
  ]

  -- Only the parts of a canonical identifier matter.
  ancestors_loop-parts :
      (fuel : ℕ) (a b : NodeId)
      → IsCanonical a
      → IsCanonical b
      → a.parts ≡ b.parts
      → ancestors_loop fuel a m ≡ ancestors_loop fuel b m
  unfolding ancestors_loop
  ancestors_loop-parts zero a b ha hb e = refl
  ancestors_loop-parts (suc fuel) a b ha hb e = elim (parent-cases a) [
    | inl (ea, la) ↦ elim (parent-cases b) [
      | inl (eb, lb) ↦ rw (ea, ancestors_loop) (rw (eb, ancestors_loop))
      | inr (q, eb, pb, _, lb) ↦ absurd (omega (arith, ap length e))
    ]
    | inr (p, ea, pa, _, la) ↦ elim (parent-cases b) [
      | inl (eb, lb) ↦ absurd (omega (arith, ap length e))
      | inr (q, eb, pb, _, lb) ↦
          let parts : p.parts ≡ q.parts = pa ∙ ap drop_last e ∙ sym pb in
          let cp = parent-IsCanonical a ha ea in
          let cq = parent-IsCanonical b hb eb in
          let key : to_string p ≡ to_string q =
            to_string-render p cp ∙ ap render parts ∙ sym (to_string-render q cq) in
          rw (ea, ancestors_loop)
            (rw (eb, ancestors_loop)
              (ap₂ in_front (ap (lookup m) key) (ancestors_loop-parts fuel p q cp cq parts)))
    ]
  ]

  pub get_ancestors-parts :
      (a b : NodeId)
      → IsCanonical a
      → IsCanonical b
      → a.parts ≡ b.parts
      → get_ancestors a m ≡ get_ancestors b m
  unfolding get_ancestors
  get_ancestors-parts a b ha hb e =
      ap (λ k. ancestors_loop k a m) (ap length e) ∙ ancestors_loop-parts (depth b) a b ha hb e

  -- What is cached for the string of a canonical identifier are its ancestors.
  abbrev pub IsCorrect : Cache → Type 0
  IsCorrect cache =
      (id : NodeId) (above : List Ptr)
      → IsCanonical id
      → lookup cache (to_string id) ≡ some above
      → above ≡ get_ancestors id m

  from_parent_correct :
      (cache : Cache) (id p : NodeId)
      → IsCorrect cache
      → IsCanonical p
      → parent id ≡ some p
      → from_parent id m cache p ≡ get_ancestors id m
  unfolding from_parent
  from_parent_correct cache id p h cp e = elim (Option-cases (lookup cache (to_string p))) [
    | inl miss ↦ rw (miss, from_parent)
    | inr (above, hit) ↦
        rw (hit, from_parent)
          (ap (in_front (lookup m (to_string p))) (h p above cp hit)
            ∙ sym (get_ancestors-some id p e))
  ]

  insert-IsCorrect :
      (cache : Cache) (id : NodeId) (above : List Ptr)
      → IsCorrect cache
      → IsCanonical id
      → above ≡ get_ancestors id m
      → IsCorrect (insert cache (to_string id) above)
  insert-IsCorrect cache id above h c e id' above' c' found =
      elim (Bool-cases (text_eq (to_string id) (to_string id'))) [
        | inl same ↦
            let key = (text_eq_iff (to_string id) (to_string id')).0 same in
            let parts = to_string-injective id id' c c' key in
            eq_of_some-eq above' above
              (sym found ∙ (rw same at (lookup-insert cache (to_string id) above (to_string id'))))
            ∙ e
            ∙ get_ancestors-parts id id' c c' parts
        | inr differ ↦
            h id' above' c' (
              sym (rw differ at (lookup-insert cache (to_string id) above (to_string id'))) ∙ found)
      ]

  -- For a canonical identifier and a correct cache, `getAncestorsCached` returns what `getAncestors`
  -- returns, and leaves a correct cache.
  pub get_ancestors_cached-IsCorrect :
      (cache : Cache) (id : NodeId)
      → IsCorrect cache
      → IsCanonical id
      → ((get_ancestors_cached id m cache).0 ≡ get_ancestors id m)
        × IsCorrect (get_ancestors_cached id m cache).1
  unfolding get_ancestors_cached
  get_ancestors_cached-IsCorrect cache id h c = elim (Option-cases (lookup cache (to_string id))) [
    | inr (above, hit) ↦ rw (hit, get_ancestors_cached) (h id above c hit, h)
    | inl miss ↦ elim (Option-cases (parent id)) [
      | inl root ↦
          let none_above = get_ancestors-none id root in
          rw (miss, get_ancestors_cached)
            (rw (root, get_ancestors_cached)
              (sym none_above, insert-IsCorrect cache id [] h c (sym none_above)))
      | inr (p, e) ↦
          let found = from_parent_correct cache id p h (parent-IsCanonical id c e) e in
          rw (miss, get_ancestors_cached)
            (rw (e, get_ancestors_cached)
              (found, insert-IsCorrect cache id (from_parent id m cache p) h c found))
    ]
  ]

  -- The map leads from strings of identifiers to nodes with these identifiers.
  module _ (ids : Ptr → NodeId) where
    abbrev pub IsIndex : Type 0
    IsIndex =
        (k : Text) (q : Ptr) → lookup m k ≡ some q → (to_string (ids q) ≡ k) × IsCanonical (ids q)

    in_front-below :
        (n : ℕ) (o : Option Ptr) (ps : List Ptr)
        → ((q : Ptr) → o ≡ some q → depth (ids q) < n)
        → All (λ q. depth (ids q) < n) ps
        → All (λ q. depth (ids q) < n) (in_front o ps)
    in_front-below n none ps h all = all
    in_front-below n (some q) ps h all = (h q refl, all)

    All-weaken :
        (a b : ℕ) (ps : List Ptr)
        → a ≤ b
        → All (λ q. depth (ids q) < a) ps
        → All (λ q. depth (ids q) < b) ps
    All-weaken a b [] le h = tt
    All-weaken a b (p ∷ ps) le h = (omega arith, All-weaken a b ps le h.1)

    ancestors_loop-below :
        (fuel : ℕ) (id : NodeId)
        → IsIndex
        → IsCanonical id
        → All (λ q. depth (ids q) < depth id) (ancestors_loop fuel id m)
    unfolding ancestors_loop
    ancestors_loop-below zero id h c = tt
    ancestors_loop-below (suc fuel) id h c = elim (parent-cases id) [
      | inl (root, _) ↦ rw (root, ancestors_loop) tt
      | inr (p, e, _, len, _) ↦
          let cp = parent-IsCanonical id c e in
          rw (e, ancestors_loop)
            (in_front-below (depth id) (lookup m (to_string p)) (ancestors_loop fuel p m)
              (λ q hit.
                let (key, cq) = h (to_string p) q hit in
                omega (arith, ap length (to_string-injective (ids q) p cq cp key)))
              (All-weaken (depth p) (depth id) (ancestors_loop fuel p m) (omega arith)
                (ancestors_loop-below fuel p h cp)))
    ]

    -- Every ancestor is nearer to the root.
    pub get_ancestors-below :
        (id : NodeId)
        → IsIndex
        → IsCanonical id
        → All (λ q. depth (ids q) < depth id) (get_ancestors id m)
    unfolding get_ancestors
    get_ancestors-below id = ancestors_loop-below (depth id) id
