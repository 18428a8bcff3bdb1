-- ===== src/Types/NodeId/Ancestry.antt =====
-- `IsAncestorOf`, `Equal` and `CommonAncestor` (internal/types/id.go) against prefixes of the parts.
use vibefeld.Prelude.{
  ℕ, zero, suc, ◌≤◌, ◌<◌, ◌≡◌, ◌≢◌, refl, sym, ◌∙◌, ap, true, false, ◌↔◌, ◌⊎◌, inl, inr, List, [],
  ◌∷◌, ◌++◌, arith, ◌==◌, length, take, length-append, ok, Bool-cases, append_assoc,
}
use mathlib.Core.Logic.{⊎_elim}
use vibefeld.Text.{ℤ, pos, negsuc}
use vibefeld.Types.NodeId.{
  NodeId, agree, is_ancestor_of, equal, common_len, common_ancestor, child, child_of, drop_last,
}
use vibefeld.Types.NodeId.Canonical.{drop_last-append}

-- The parts `xs` begin `ys`.
abbrev pub Begins : List ℕ → List ℕ → Type 0
Begins xs ys = (rest : List ℕ) × (ys ≡ xs ++ rest)

agree-Begins : (xs ys : List ℕ) → length xs ≤ length ys → agree xs ys ≡ true → Begins xs ys
unfolding agree
agree-Begins [] ys h e = (ys, refl)
agree-Begins (x ∷ xs) [] h e = absurd (omega arith)
agree-Begins (x ∷ xs) (y ∷ ys) h e =
    let (rest, p) = agree-Begins xs ys (omega arith) (ground arith) in (rest, ground arith)

agree-append : (xs rest : List ℕ) → agree xs (xs ++ rest) ≡ true
unfolding agree
agree-append [] rest = refl
agree-append (x ∷ xs) rest = ground (arith, agree-append xs rest)

Begins-cons :
    (xs ys : List ℕ)
    → length xs < length ys
    → Begins xs ys
    → (k : ℕ) × (rest : List ℕ) × (ys ≡ xs ++ k ∷ rest)
Begins-cons xs ys h ([], e) = absurd (omega (arith, ap length e, length-append xs []))
Begins-cons xs ys h (k ∷ rest, e) = (k, rest, e)

-- `a.IsAncestorOf(b)` says that the parts of `a` begin those of `b` and that more follow.
pub is_ancestor_of_iff :
    (a b : NodeId)
    → (is_ancestor_of a b ≡ true) ↔ ((k : ℕ) × (rest : List ℕ) × (b.parts ≡ a.parts ++ k ∷ rest))
unfolding is_ancestor_of
is_ancestor_of_iff a b = (to, from)
  where
    to : is_ancestor_of a b ≡ true → (k : ℕ) × (rest : List ℕ) × (b.parts ≡ a.parts ++ k ∷ rest)
    to e =
        Begins-cons a.parts b.parts (ground arith)
          (agree-Begins a.parts b.parts (ground arith) (ground arith))

    from : (k : ℕ) × (rest : List ℕ) × (b.parts ≡ a.parts ++ k ∷ rest) → is_ancestor_of a b ≡ true
    from (k, rest, e) =
        ground
          (arith, e, ap length e, length-append a.parts (k ∷ rest), agree-append a.parts (k ∷ rest))

equal-parts_from : (xs : List ℕ) → agree xs xs ≡ true
unfolding agree
equal-parts_from [] = refl
equal-parts_from (x ∷ xs) = ground (arith, equal-parts_from xs)

agree-eq : (xs ys : List ℕ) → length xs ≡ length ys → agree xs ys ≡ true → xs ≡ ys
unfolding agree
agree-eq [] [] h e = refl
agree-eq [] (y ∷ ys) h e = absurd (omega arith)
agree-eq (x ∷ xs) [] h e = absurd (omega arith)
agree-eq (x ∷ xs) (y ∷ ys) h e = ground (arith, agree-eq xs ys)

pub equal-parts : (a b : NodeId) → (equal a b ≡ true) ↔ (a.parts ≡ b.parts)
unfolding equal
equal-parts a b = (
  λ h. ground (arith, agree-eq a.parts b.parts),
  λ e. ground (arith, ap length e, equal-parts_from a.parts),
)

append-ne_self : (xs : List ℕ) (k : ℕ) (rest : List ℕ) → xs ≢ xs ++ k ∷ rest
append-ne_self xs k rest e = absurd (omega (arith, ap length e, length-append xs (k ∷ rest)))

-- Being an ancestor is irreflexive and transitive: the tree has no cycle.
pub is_ancestor_of_strict :
    (a b c : NodeId)
    → (is_ancestor_of a a ≡ false)
      × (is_ancestor_of a b ≡ true → is_ancestor_of b c ≡ true → is_ancestor_of a c ≡ true)
is_ancestor_of_strict a b c = (irrefl, trans)
  where
    irrefl : is_ancestor_of a a ≡ false
    irrefl = elim (Bool-cases (is_ancestor_of a a)) [
      | inl h ↦
          let (k, rest, e) = (is_ancestor_of_iff a a).0 h in
          absurd (append-ne_self a.parts k rest e)
      | inr h ↦ h
    ]

    trans : is_ancestor_of a b ≡ true → is_ancestor_of b c ≡ true → is_ancestor_of a c ≡ true
    trans h h' =
        let (k, rest, e) = (is_ancestor_of_iff a b).0 h in
        let (k', rest', e') = (is_ancestor_of_iff b c).0 h' in
        (is_ancestor_of_iff a c).1 (
          k,
          rest ++ k' ∷ rest',
          e' ∙ ap (λ l. l ++ k' ∷ rest') e ∙ append_assoc a.parts (k ∷ rest) (k' ∷ rest'),
        )

drop_last-append_cons :
    (xs : List ℕ) (y : ℕ) (ys : List ℕ) → drop_last (xs ++ y ∷ ys) ≡ xs ++ drop_last (y ∷ ys)
drop_last-append_cons [] y ys = refl
drop_last-append_cons (x ∷ []) y ys = refl
drop_last-append_cons (x ∷ x' ∷ xs) y ys = ap (◌∷◌ x) (drop_last-append_cons (x' ∷ xs) y ys)

pub child-parts :
    (n c : NodeId) (num : ℤ) → child n num ≡ ok c → (k : ℕ) × (c.parts ≡ n.parts ++ k ∷ [])
unfolding child child_of
child-parts n c (pos zero) h = cc
child-parts n c (pos (suc k)) h = (suc k, ground arith)
child-parts n c (negsuc k) h = cc

ancestors_of_append :
    (a n c : NodeId) (m k : ℕ) (rest : List ℕ)
    → c.parts ≡ n.parts ++ m ∷ []
    → c.parts ≡ a.parts ++ k ∷ rest
    → (equal a n ≡ true) ⊎ (is_ancestor_of a n ≡ true)
ancestors_of_append a n c m k [] e e' = inl (
    (equal-parts a n).1
      (sym (drop_last-append a.parts k) ∙ ap drop_last (sym e' ∙ e) ∙ drop_last-append n.parts m))
ancestors_of_append a n c m k (k' ∷ rest) e e' = inr (
    (is_ancestor_of_iff a n).1 (
      k,
      drop_last (k' ∷ rest),
      sym (drop_last-append n.parts m)
          ∙ ap drop_last (sym e ∙ e')
          ∙ drop_last-append_cons a.parts k (k' ∷ rest),
    ))

-- When `Child` succeeds, the ancestors of the child are the node that it is a child of and the
-- ancestors of that node.
pub is_ancestor_of-child :
    (a n c : NodeId) (num : ℤ)
    → child n num ≡ ok c
    → (is_ancestor_of a c ≡ true) ↔ ((equal a n ≡ true) ⊎ (is_ancestor_of a n ≡ true))
is_ancestor_of-child a n c num h =
    let (m, e) = child-parts n c num h in
    (
      λ anc.
          let (k, rest, e') = (is_ancestor_of_iff a c).0 anc in
          ancestors_of_append a n c m k rest e e',
      ⊎_elim
          (λ same.
            (is_ancestor_of_iff a c).1
              (m, [], e ∙ ap (λ l. l ++ m ∷ []) (sym ((equal-parts a n).0 same))))
          (λ anc.
            let (k, rest, e') = (is_ancestor_of_iff a n).0 anc in
            (is_ancestor_of_iff a c).1 (
              k,
              rest ++ m ∷ [],
              e ∙ ap (λ l. l ++ m ∷ []) e' ∙ append_assoc a.parts (k ∷ rest) (m ∷ []),
            )),
    )

Begins-cons_to : (z x : ℕ) (zs xs : List ℕ) → Begins (z ∷ zs) (x ∷ xs) → (z ≡ x) × Begins zs xs
Begins-cons_to z x zs xs (rest, e) = (cc, (rest, cc))

Begins-cons_from : (z x : ℕ) (zs xs : List ℕ) → (z ≡ x) × Begins zs xs → Begins (z ∷ zs) (x ∷ xs)
Begins-cons_from z x zs xs (p, (rest, e)) = (rest, cc)

Begins-cons_iff : (z x : ℕ) (zs xs : List ℕ) → Begins (z ∷ zs) (x ∷ xs) ↔ ((z ≡ x) × Begins zs xs)
Begins-cons_iff z x zs xs = (Begins-cons_to z x zs xs, Begins-cons_from z x zs xs)

not-Begins-nil : (z : ℕ) (zs : List ℕ) → ¬ Begins (z ∷ zs) []
not-Begins-nil z zs (rest, e) = cc

-- The common prefix begins both lists, and whatever begins both begins it.
common_len_iff :
    (zs xs ys : List ℕ) → Begins zs (take (common_len xs ys) xs) ↔ (Begins zs xs × Begins zs ys)
unfolding common_len
common_len_iff [] xs ys = (λ h. ((xs, refl), (ys, refl)), λ h. (take (common_len xs ys) xs, refl))
common_len_iff (z ∷ zs) [] ys = (λ h. absurd (not-Begins-nil z zs h), λ h. h.0)
common_len_iff (z ∷ zs) (x ∷ xs) [] =
    (λ h. absurd (not-Begins-nil z zs h), λ h. absurd (not-Begins-nil z zs h.1))
common_len_iff (z ∷ zs) (x ∷ xs) (y ∷ ys) = elim (Bool-cases (x == y)) [
  | inl same ↦
      let x≡y : x ≡ y = ground arith in
      let ih = common_len_iff zs xs ys in
      rw same (
        λ b.
            let (p, r) = (Begins-cons_iff z x zs (take (common_len xs ys) xs)).0 b in
            (
              (Begins-cons_iff z x zs xs).1 (p, (ih.0 r).0),
              (Begins-cons_iff z y zs ys).1 (p ∙ x≡y, (ih.0 r).1),
            ),
        λ (l, r).
            let (p, l') = (Begins-cons_iff z x zs xs).0 l in
            let (q, r') = (Begins-cons_iff z y zs ys).0 r in
            (Begins-cons_iff z x zs (take (common_len xs ys) xs)).1 (p, ih.1 (l', r')),
      )
  | inr differ ↦ rw differ (
    λ b. absurd (not-Begins-nil z zs b),
    λ (l, r).
        let p = ((Begins-cons_iff z x zs xs).0 l).0 in
        let q = ((Begins-cons_iff z y zs ys).0 r).0 in absurd (ground arith),
  )
]

common_ancestor-parts :
    (n other : NodeId)
    → (common_ancestor n other).parts ≡ take (common_len n.parts other.parts) n.parts
unfolding common_ancestor
common_ancestor-parts n other = elim (Bool-cases (common_len n.parts other.parts == 0)) [
  | inl e ↦ ground arith
  | inr e ↦ ground arith
]

-- `CommonAncestor` is the lowest common ancestor: a node's parts begin those of the result exactly
-- if they begin the parts of both arguments.
pub common_ancestor_lowest :
    (n other z : NodeId)
    → Begins z.parts (common_ancestor n other).parts
      ↔ (Begins z.parts n.parts × Begins z.parts other.parts)
common_ancestor_lowest n other z =
    rw (common_ancestor-parts n other) (common_len_iff z.parts n.parts other.parts)
