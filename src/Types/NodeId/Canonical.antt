-- ===== src/Types/NodeId/Canonical.antt =====
-- Identifiers that are spelled the usual way (internal/types/id.go): no part has a sign or a leading
-- zero.
use vibefeld.Prelude.{
  ℕ, zero, suc, ◌≤◌, ◌<◌, ◌≡◌, ◌≢◌, refl, sym, ◌∙◌, ap, ◌⊎◌, inl, inr, none, some, List, [], ◌∷◌,
  ◌++◌, map, arith, Text, text_eq_iff, leb, subst, length, length-append, All, All-append, ok,
  Bool-cases, List-cases, eq_of_some-eq,
}
use vibefeld.Text
use vibefeld.Text.{ℤ, pos, negsuc, dot, itoa, join, max_int, last_index, split_n}
use vibefeld.Text.Decimal.{itoa-ne-nil, itoa-injective, itoa-Lacks, Lacks}
use vibefeld.Text.Split.{
  split-join, last_index-append, take-length-append, join-append, last_index_of_Lacks,
}
use vibefeld.Types.NodeId.{
  NodeId, render, to_string, drop_last, parent, parent_cached, child, child_of,
}

-- A part that Go's `int` holds.
abbrev pub IsPart : ℕ → Type 0
IsPart n = (0 < n) × (n ≤ max_int)

pub record IsCanonical (n : NodeId) : Type 0 where
  pub in_range : All IsPart n.parts
  pub spelled : (n.cached ≡ []) ⊎ (n.cached ≡ render n.parts)

pub map-itoa-Lacks : (ps : List ℕ) → All (Lacks dot) (map itoa ps)
map-itoa-Lacks [] = tt
map-itoa-Lacks (p ∷ ps) = (itoa-Lacks p, map-itoa-Lacks ps)

append-ne-nil : (s : Text) (c : ℕ) (t : Text) → s ++ c ∷ t ≢ []
append-ne-nil [] c t e = cc
append-ne-nil (d ∷ s) c t e = cc

pub render-ne-nil : (p : ℕ) (ps : List ℕ) → render (p ∷ ps) ≢ []
unfolding render join
render-ne-nil p [] e = itoa-ne-nil p e
render-ne-nil p (q ∷ ps) e = append-ne-nil (itoa p) dot _ e

map-itoa-injective : (ps qs : List ℕ) → map itoa ps ≡ map itoa qs → ps ≡ qs
map-itoa-injective [] [] e = refl
map-itoa-injective [] (q ∷ qs) e = cc
map-itoa-injective (p ∷ ps) [] e = cc
map-itoa-injective (p ∷ ps) (q ∷ qs) e = cc (itoa-injective p q (cc), map-itoa-injective ps qs (cc))

pub render-injective : (ps qs : List ℕ) → render ps ≡ render qs → ps ≡ qs
unfolding render join
render-injective [] [] e = refl
render-injective [] (q ∷ qs) e = absurd (render-ne-nil q qs (sym e))
render-injective (p ∷ ps) [] e = absurd (render-ne-nil p ps e)
render-injective (p ∷ ps) (q ∷ qs) e = map-itoa-injective (p ∷ ps) (q ∷ qs) (
    sym (split-join dot (map itoa (p ∷ ps)) (λ h. cc) (map-itoa-Lacks (p ∷ ps)))
    ∙ ap (Text.split dot) e
    ∙ split-join dot (map itoa (q ∷ qs)) (λ h. cc) (map-itoa-Lacks (q ∷ qs)))

-- The string of a canonical identifier is what its parts spell, cached or not.
pub to_string-render : (n : NodeId) → IsCanonical n → to_string n ≡ render n.parts
unfolding to_string
to_string-render n h = elim (List-cases n.parts) [
  | inl e ↦ rw e (unfold render join in refl)
  | inr (p, ps, e) ↦ ground (arith, e, text_eq_iff n.cached [])
]

-- For canonical identifiers the string, which is the key of the maps, identifies the parts.
pub to_string-injective :
    (a b : NodeId) → IsCanonical a → IsCanonical b → to_string a ≡ to_string b → a.parts ≡ b.parts
to_string-injective a b ha hb e =
    render-injective a.parts b.parts (sym (to_string-render a ha) ∙ e ∙ to_string-render b hb)

-- Induction from the end of a list.
pub drop_last-append {ℓ} : {A : Type ℓ} (xs : List A) (x : A) → drop_last (xs ++ x ∷ []) ≡ xs
drop_last-append [] x = refl
drop_last-append (y ∷ []) x = refl
drop_last-append (y ∷ z ∷ xs) x = ap (◌∷◌ y) (drop_last-append (z ∷ xs) x)

pub last-cases {ℓ} :
    {A : Type ℓ} (y : A) (xs : List A) → (x : A) × ((y ∷ xs) ≡ drop_last (y ∷ xs) ++ x ∷ [])
last-cases y [] = (y, refl)
last-cases y (z ∷ xs) = let (x, e) = last-cases z xs in (x, ap (◌∷◌ y) e)

map-append-one : (ps : List ℕ) (p : ℕ) → map itoa (ps ++ p ∷ []) ≡ map itoa ps ++ itoa p ∷ []
map-append-one [] p = refl
map-append-one (q ∷ ps) p = ap (◌∷◌ (itoa q)) (map-append-one ps p)

render-append :
    (q : ℕ) (ps : List ℕ) (p : ℕ) → render ((q ∷ ps) ++ p ∷ []) ≡ render (q ∷ ps) ++ dot ∷ itoa p
unfolding render
render-append q ps p =
    ap (join dot) (map-append-one (q ∷ ps) p)
    ∙ join-append dot (map itoa (q ∷ ps)) (itoa p) (λ e. cc)

-- What `Parent` cuts off the cached text is the last part.
parent_cached-append : (t p : Text) → t ≢ [] → Lacks dot p → parent_cached (t ++ dot ∷ p) ≡ t
parent_cached-append [] p ne h = absurd (ne refl)
parent_cached-append (c ∷ s) p ne h =
    rw (last_index-append dot (c ∷ s) p h) (take-length-append (c ∷ s) (dot ∷ p))

parent_cached-render :
    (q : ℕ) (ps : List ℕ) (p : ℕ) → parent_cached (render ((q ∷ ps) ++ p ∷ [])) ≡ render (q ∷ ps)
parent_cached-render q ps p =
    ap parent_cached (render-append q ps p)
    ∙ parent_cached-append (render (q ∷ ps)) (itoa p) (render-ne-nil q ps) (itoa-Lacks p)

All-drop_last : (ps : List ℕ) → All IsPart ps → All IsPart (drop_last ps)
All-drop_last [] h = tt
All-drop_last (p ∷ []) h = tt
All-drop_last (p ∷ q ∷ ps) h = (h.0, All-drop_last (q ∷ ps) h.1)

render_nil : render [] ≡ []
unfolding render join
render_nil = refl

render_one : (q : ℕ) → render (q ∷ []) ≡ itoa q
unfolding render join
render_one q = refl

drop_last-spelled : (ps : List ℕ) → parent_cached (render ps) ≡ render (drop_last ps)
drop_last-spelled [] = unfold render join in refl
drop_last-spelled (q ∷ []) =
    ground (arith, render_one q, render_nil, last_index_of_Lacks dot (itoa q) (itoa-Lacks q))
drop_last-spelled (q ∷ r ∷ ps) =
    let (x, e) = last-cases q (r ∷ ps) in
    ap (λ l. parent_cached (render l)) e ∙ parent_cached-render q (drop_last (r ∷ ps)) x

-- `Parent` keeps identifiers canonical.
pub parent-IsCanonical :
    (n : NodeId) {p : NodeId} → IsCanonical n → parent n ≡ some p → IsCanonical p
unfolding parent
parent-IsCanonical n {p} h e = elim (Bool-cases (leb (length n.parts) 1)) [
  | inl small ↦ cc
  | inr large ↦ subst IsCanonical (eq_of_some-eq _ _ (rw large at e)) (record {
    in_range = All-drop_last n.parts h.in_range;
    spelled = elim h.spelled [
      | inl c ↦ inl (ap parent_cached c)
      | inr c ↦ inr (ap parent_cached c ∙ drop_last-spelled n.parts)
    ];
  })
]

child-spelled :
    (n : NodeId) (num : ℕ) → IsCanonical n → (child_of n num).cached ≡ render (n.parts ++ num ∷ [])
unfolding child_of
child-spelled n num h = elim (List-cases n.parts) [
  | inl e ↦ ground (arith, render_nil, text_eq_iff n.cached [])
  | inr (q, ps, e) ↦ ground (arith, text_eq_iff n.cached [], render-append q ps num)
]

-- `Child` keeps identifiers canonical.
pub child_of-IsCanonical :
    (n : NodeId) (num : ℕ) → IsCanonical n → IsPart num → IsCanonical (child_of n num)
unfolding child_of
child_of-IsCanonical n num h part = record {
  in_range = All-append IsPart n.parts (num ∷ []) h.in_range (part, tt);
  spelled = inr (child-spelled n num h);
}

drop_last-child : (n : NodeId) (num : ℕ) → drop_last (child_of n num).parts ≡ n.parts
unfolding child_of
drop_last-child n num = drop_last-append n.parts num

parent-child_of :
    (n : NodeId) (num : ℕ)
    → n.parts ≢ []
    → (p : NodeId) × (parent (child_of n num) ≡ some p) × (p.parts ≡ n.parts)
unfolding parent child_of
parent-child_of n num ne = elim (List-cases n.parts) [
  | inl e ↦ absurd (ne e)
  | inr (q, ps, e) ↦ (
    record {
      parts = drop_last (n.parts ++ num ∷ []);
      cached = parent_cached (child_of n num).cached;
    },
    ground (arith, length-append n.parts (num ∷ []), ap length e),
    drop_last-append n.parts num,
  )
]

child-eq_ok :
    (n c : NodeId) (num : ℤ)
    → child n num ≡ ok c
    → (k : ℕ) × (num ≡ pos (suc k)) × (c ≡ child_of n (suc k))
unfolding child
child-eq_ok n c (pos zero) e = cc
child-eq_ok n c (pos (suc k)) e = (k, refl, cc)
child-eq_ok n c (negsuc k) e = cc

-- For a canonical node, and a child number that an `int` holds, `Parent` undoes `Child`: the parent
-- of the child has the parts of the node, and the same string.
pub parent-child :
    (n c : NodeId) (num : ℕ)
    → IsCanonical n
    → n.parts ≢ []
    → num ≤ max_int
    → child n (pos num) ≡ ok c
    → (p : NodeId) × (parent c ≡ some p) × (p.parts ≡ n.parts) × (to_string p ≡ to_string n)
unfolding child
parent-child n c zero h ne bound e = cc
parent-child n c (suc k) h ne bound e =
    let (p, found, parts) = parent-child_of n (suc k) ne in
    let whole = child_of-IsCanonical n (suc k) h (omega arith, bound) in
    let canonical = parent-IsCanonical (child_of n (suc k)) whole found in
    (
      p,
      ap parent (cc) ∙ found,
      parts,
      to_string-render p canonical ∙ ap render parts ∙ sym (to_string-render n h),
    )

length-drop_last :
    (p q : ℕ) (ps : List ℕ) → length (p ∷ q ∷ ps) ≡ suc (length (drop_last (p ∷ q ∷ ps)))
length-drop_last p q [] = refl
length-drop_last p q (r ∷ ps) = ap suc (length-drop_last q r ps)

-- What `Parent` returns, by the number of parts.
pub parent-cases :
    (n : NodeId)
    → ((parent n ≡ none) × (length n.parts ≤ 1))
      ⊎ ((p : NodeId) × (parent n ≡ some p)
          × (p.parts ≡ drop_last n.parts)
          × (length n.parts ≡ suc (length p.parts))
          × (1 < length n.parts))
unfolding parent
parent-cases n = cases (List-cases n.parts)
  where
    two :
        (q r : ℕ) (ps : List ℕ)
        → n.parts ≡ q ∷ r ∷ ps
        → (p : NodeId) × (parent n ≡ some p)
          × (p.parts ≡ drop_last n.parts)
          × (length n.parts ≡ suc (length p.parts))
          × (1 < length n.parts)
    two q r ps e = (
      record { parts = drop_last n.parts; cached = parent_cached n.cached },
      ground (arith, ap length e),
      refl,
      rw e (length-drop_last q r ps),
      omega (arith, ap length e),
    )

    cases :
        (n.parts ≡ []) ⊎ ((q : ℕ) × (ps : List ℕ) × (n.parts ≡ q ∷ ps))
        → ((parent n ≡ none) × (length n.parts ≤ 1))
          ⊎ ((p : NodeId) × (parent n ≡ some p)
              × (p.parts ≡ drop_last n.parts)
              × (length n.parts ≡ suc (length p.parts))
              × (1 < length n.parts))
    cases (inl e) = inl (ground (arith, ap length e), omega (arith, ap length e))
    cases (inr (q, [], e)) = inl (ground (arith, ap length e), omega (arith, ap length e))
    cases (inr (q, r ∷ ps, e)) = inr (two q r ps e)
