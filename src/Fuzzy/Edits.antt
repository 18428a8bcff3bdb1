-- ===== src/Fuzzy/Edits.antt =====
-- Edit scripts and the recursion for their least length (internal/fuzzy/levenshtein.go).
use vibefeld.Prelude.{
  ℕ, suc, ◌+◌, ◌≤◌, ◌≡◌, refl, sym, subst, ◌&&◌, List, [], ◌∷◌, arith, leb, ◌==◌, ==_iff, length,
  Bool-cases, inl, inr, ◌⊎◌,
}
use vibefeld.Fuzzy.{min3, cost}

-- The first text becomes the second by the number of insertions, deletions and substitutions.
pub data Edits : List ℕ → List ℕ → ℕ → Type 0 where
  done : Edits [] [] 0
  keep : {x : ℕ} {xs ys : List ℕ} {n : ℕ} → Edits xs ys n → Edits (x ∷ xs) (x ∷ ys) n
  replace : {x y : ℕ} {xs ys : List ℕ} {n : ℕ} → Edits xs ys n → Edits (x ∷ xs) (y ∷ ys) (suc n)
  remove : {x : ℕ} {xs ys : List ℕ} {n : ℕ} → Edits xs ys n → Edits (x ∷ xs) ys (suc n)
  add : {y : ℕ} {xs ys : List ℕ} {n : ℕ} → Edits xs ys n → Edits xs (y ∷ ys) (suc n)

-- The recursion that the table is filled by.
unfoldable pub lev : List ℕ → List ℕ → ℕ
unfolding min3
lev [] ys = length ys
lev (x ∷ xs) [] = suc (length xs)
lev (x ∷ xs) (y ∷ ys) = min3 (lev xs (y ∷ ys) + 1) (lev (x ∷ xs) ys + 1) (lev xs ys + cost x y)

min3-le : (a b c : ℕ) → (min3 a b c ≤ a) × (min3 a b c ≤ b) × (min3 a b c ≤ c)
unfolding min3
min3-le a b c = (ground arith, ground arith, ground arith)

min3-cases : (a b c : ℕ) → (min3 a b c ≡ a) ⊎ (min3 a b c ≡ b) ⊎ (min3 a b c ≡ c)
unfolding min3
min3-cases a b c = elim (Bool-cases (leb a b && leb a c)) [
  | inl e ↦ inl (rw e refl)
  | inr e ↦ elim (Bool-cases (leb b c)) [
    | inl f ↦ inr (inl (rw e (rw f refl)))
    | inr f ↦ inr (inr (rw e (rw f refl)))
  ]
]

add_all : (ys : List ℕ) → Edits [] ys (length ys)
add_all [] = Edits.done
add_all (y ∷ ys) = Edits.add (add_all ys)

remove_all : (xs : List ℕ) → Edits xs [] (length xs)
remove_all [] = Edits.done
remove_all (x ∷ xs) = Edits.remove (remove_all xs)

substituted :
    (x y : ℕ) (xs ys : List ℕ) (n : ℕ) → Edits xs ys n → Edits (x ∷ xs) (y ∷ ys) (n + cost x y)
substituted x y xs ys n e = elim (Bool-cases (x == y)) [
  | inl same ↦
      subst (λ z. Edits (x ∷ xs) (z ∷ ys) (n + cost x y)) ((==_iff x y).0 same)
        (subst (Edits (x ∷ xs) (x ∷ ys)) (ground (arith, same)) (Edits.keep e))
  | inr other ↦ subst (Edits (x ∷ xs) (y ∷ ys)) (ground (arith, other)) (Edits.replace e)
]

pub lev-Edits : (xs ys : List ℕ) → Edits xs ys (lev xs ys)
unfolding lev
lev-Edits [] ys = add_all ys
lev-Edits (x ∷ xs) [] = remove_all (x ∷ xs)
lev-Edits (x ∷ xs) (y ∷ ys) =
    elim (min3-cases (lev xs (y ∷ ys) + 1) (lev (x ∷ xs) ys + 1) (lev xs ys + cost x y)) [
      | inl e ↦
          subst (Edits (x ∷ xs) (y ∷ ys)) (omega (arith, e)) (Edits.remove (lev-Edits xs (y ∷ ys)))
      | inr (inl e) ↦
          subst (Edits (x ∷ xs) (y ∷ ys)) (omega (arith, e)) (Edits.add (lev-Edits (x ∷ xs) ys))
      | inr (inr e) ↦
          subst (Edits (x ∷ xs) (y ∷ ys)) (sym e)
            (substituted x y xs ys (lev xs ys) (lev-Edits xs ys))
    ]

lev-keep : (x : ℕ) (xs ys : List ℕ) → lev (x ∷ xs) (x ∷ ys) ≤ lev xs ys
unfolding lev
lev-keep x xs ys =
    let (_, _, le) = min3-le (lev xs (x ∷ ys) + 1) (lev (x ∷ xs) ys + 1) (lev xs ys + cost x x) in
    let free : cost x x ≡ 0 = ground arith in omega (arith, le, free)

lev-replace : (x y : ℕ) (xs ys : List ℕ) → lev (x ∷ xs) (y ∷ ys) ≤ suc (lev xs ys)
unfolding lev
lev-replace x y xs ys =
    let (_, _, le) = min3-le (lev xs (y ∷ ys) + 1) (lev (x ∷ xs) ys + 1) (lev xs ys + cost x y) in
    let small : cost x y ≤ 1 = ground arith in omega (arith, le, small)

lev-remove : (x : ℕ) (xs ys : List ℕ) → lev (x ∷ xs) ys ≤ suc (lev xs ys)
unfolding lev
lev-remove x [] [] = omega arith
lev-remove x (x' ∷ xs) [] = omega arith
lev-remove x xs (y ∷ ys) =
    omega (arith, (min3-le (lev xs (y ∷ ys) + 1) (lev (x ∷ xs) ys + 1) (lev xs ys + cost x y)).0)

lev-add : (y : ℕ) (xs ys : List ℕ) → lev xs (y ∷ ys) ≤ suc (lev xs ys)
unfolding lev
lev-add y [] ys = omega arith
lev-add y (x ∷ xs) ys =
    omega (arith, (min3-le (lev xs (y ∷ ys) + 1) (lev (x ∷ xs) ys + 1) (lev xs ys + cost x y)).1)

pub lev-least : {xs ys : List ℕ} {n : ℕ} → Edits xs ys n → lev xs ys ≤ n
unfolding lev
lev-least Edits.done = omega arith
lev-least (Edits.keep {x} {xs} {ys} e) = omega (arith, lev-keep x xs ys, lev-least e)
lev-least (Edits.replace {x} {y} {xs} {ys} e) = omega (arith, lev-replace x y xs ys, lev-least e)
lev-least (Edits.remove {x} {xs} {ys} e) = omega (arith, lev-remove x xs ys, lev-least e)
lev-least (Edits.add {y} {xs} {ys} e) = omega (arith, lev-add y xs ys, lev-least e)
