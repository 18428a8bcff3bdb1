-- ===== src/Taint/Above.antt =====
-- What `getAncestors` finds, against `IsAncestorOf` (internal/taint/propagate.go).
use vibefeld.Prelude.{
  ℕ, zero, suc, ◌≡◌, refl, sym, ◌∙◌, ap, true, Option, none, some, List, [], ◌∷◌, ◌++◌, arith, Text,
  Map, lookup, eq_text, All, inl, inr, length, eq_of_some-eq, List-cases,
}
use vibefeld.Types.NodeId.{NodeId, to_string, parent, depth, is_ancestor_of, drop_last}
use vibefeld.Types.NodeId.Canonical.{
  IsCanonical, to_string-injective, parent-IsCanonical, parent-cases, last-cases,
}
use vibefeld.Types.NodeId.Ancestry.{is_ancestor_of_iff, is_ancestor_of_strict}
use vibefeld.Taint.{Ptr, in_front, ancestors_loop, get_ancestors}
use vibefeld.Taint.Ancestors.{IsIndex}

pub parent-is_ancestor_of : (n p : NodeId) → parent n ≡ some p → is_ancestor_of p n ≡ true
parent-is_ancestor_of n p e = elim (parent-cases n) [
  | inl (gone, _) ↦ absurd (cc)
  | inr (p', e', parts, _, long) ↦ elim (List-cases n.parts) [
    | inl nil ↦ absurd (omega (arith, ap length nil))
    | inr (x, xs, cons) ↦
        let (y, whole) = last-cases x xs in
        let same : p' ≡ p = eq_of_some-eq p' p (sym e' ∙ e) in
        let front : p.parts ≡ drop_last (x ∷ xs) =
          sym (ap (λ (r : NodeId). r.parts) same) ∙ parts ∙ ap drop_last cons in
        (is_ancestor_of_iff p n).1 (y, [], cons ∙ whole ∙ ap (λ l. l ++ y ∷ []) (sym front))
  ]
]

is_ancestor_of-parts :
    (a b c : NodeId) → a.parts ≡ b.parts → is_ancestor_of a c ≡ is_ancestor_of b c
unfolding is_ancestor_of
is_ancestor_of-parts a b c e = rw e refl

module _ (m : Map Text Ptr) (ids : Ptr → NodeId) (index : IsIndex m ids) (target : NodeId) where
  in_front-above :
      (o : Option Ptr) (ps : List Ptr)
      → ((q : Ptr) → o ≡ some q → is_ancestor_of (ids q) target ≡ true)
      → All (λ q. is_ancestor_of (ids q) target ≡ true) ps
      → All (λ q. is_ancestor_of (ids q) target ≡ true) (in_front o ps)
  in_front-above none ps h above = above
  in_front-above (some q) ps h above = (h q refl, above)

  loop_above :
      (fuel : ℕ) (id : NodeId)
      → IsCanonical id
      → ((a : NodeId) → is_ancestor_of a id ≡ true → is_ancestor_of a target ≡ true)
      → All (λ q. is_ancestor_of (ids q) target ≡ true) (ancestors_loop fuel id m)
  unfolding ancestors_loop
  loop_above zero id c h = tt
  loop_above (suc fuel) id c h = elim (parent-cases id) [
    | inl (root, _) ↦ rw (root, ancestors_loop) tt
    | inr (p, e, _, _, _) ↦
        let cp = parent-IsCanonical id c e in
        let up = parent-is_ancestor_of id p e in
        rw (e, ancestors_loop)
          (in_front-above (lookup m (to_string p)) (ancestors_loop fuel p m)
            (λ q hit.
              let (key, cq) = index (to_string p) q hit in
              is_ancestor_of-parts (ids q) p target (to_string-injective (ids q) p cq cp key)
              ∙ h p up)
            (loop_above fuel p cp (λ a below. h a ((is_ancestor_of_strict a p id).1 below up))))
  ]

  pub get_ancestors-above :
      IsCanonical target → All (λ q. is_ancestor_of (ids q) target ≡ true) (get_ancestors target m)
  unfolding get_ancestors
  get_ancestors-above c = loop_above (depth target) target c (λ a h. h)
