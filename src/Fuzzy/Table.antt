-- ===== src/Fuzzy/Table.antt =====
-- The rows of `Distance` against the recursion (internal/fuzzy/levenshtein.go).
use vibefeld.Prelude.{
  ℕ, suc, ◌+◌, ◌≤◌, ◌≡◌, ◌≢◌, refl, sym, ◌∙◌, ap, subst, false, List, [], ◌∷◌, arith, Text, text_eq,
  text_eq_iff, ltb, ◌==◌, length, Bool-cases, inl, inr,
}
use vibefeld.Fuzzy.{fill, next_row, rows, first_row, last_of, by_rows, rune_len, byte_len, distance}
use vibefeld.Fuzzy.Edits
use vibefeld.Fuzzy.Edits.{Edits as EditScript, lev, lev-Edits, lev-least}

-- The first list, reversed, in front of the second.
abbrev onto : List ℕ → List ℕ → List ℕ
onto [] acc = acc
onto (x ∷ xs) acc = onto xs (x ∷ acc)

abbrev row_tail : List ℕ → List ℕ → List ℕ → List ℕ
row_tail p q [] = []
row_tail p q (y ∷ ys) = lev p (y ∷ q) ∷ row_tail p (y ∷ q) ys

fill-row_tail :
    (x : ℕ) (p : List ℕ) (ys q : List ℕ)
    → fill x ys (lev p q) (lev (x ∷ p) q) (row_tail p q ys) ≡ row_tail (x ∷ p) q ys
unfolding fill lev
fill-row_tail x p [] q = refl
fill-row_tail x p (y ∷ ys) q = ap (◌∷◌ (lev (x ∷ p) (y ∷ q))) (fill-row_tail x p ys (y ∷ q))

rows-row_tail :
    (ys xs p : List ℕ)
    → rows (length p) xs ys (lev p [] ∷ row_tail p [] ys)
      ≡ lev (onto xs p) [] ∷ row_tail (onto xs p) [] ys
unfolding rows next_row lev
rows-row_tail ys [] p = refl
rows-row_tail ys (x ∷ xs) p =
    ap (λ r. rows (suc (length p)) xs ys (suc (length p) ∷ r)) (fill-row_tail x p ys [])
    ∙ rows-row_tail ys xs (x ∷ p)

first_row-row_tail : (ys q : List ℕ) → first_row (length q) ys ≡ length q ∷ row_tail [] q ys
unfolding first_row lev
first_row-row_tail [] q = refl
first_row-row_tail (y ∷ ys) q = ap (◌∷◌ (length q)) (first_row-row_tail ys (y ∷ q))

last_of-row_tail : (p ys q : List ℕ) → last_of (lev p q) (row_tail p q ys) ≡ lev p (onto ys q)
unfolding last_of
last_of-row_tail p [] q = refl
last_of-row_tail p (y ∷ ys) q = last_of-row_tail p ys (y ∷ q)

by_rows-lev : (xs ys : List ℕ) → by_rows xs ys ≡ lev (onto xs []) (onto ys [])
unfolding by_rows last_of lev
by_rows-lev xs ys =
    ap (λ r. last_of 0 (rows 0 xs ys r)) (first_row-row_tail ys [])
    ∙ ap (last_of 0) (rows-row_tail ys xs [])
    ∙ last_of-row_tail (onto xs []) ys []

onto-onto : (xs acc : List ℕ) → onto (onto xs acc) [] ≡ onto acc xs
onto-onto [] acc = refl
onto-onto (x ∷ xs) acc = onto-onto xs (x ∷ acc)

onto-Edits :
    {xs ys us vs : List ℕ} {n m : ℕ}
    → EditScript xs ys n
    → EditScript us vs m
    → EditScript (onto xs us) (onto ys vs) (n + m)
onto-Edits {us} {vs} {m} Edits.done f = subst (EditScript us vs) (omega arith) f
onto-Edits (Edits.keep e) f = onto-Edits e (Edits.keep f)
onto-Edits (Edits.replace e) f =
    subst (EditScript _ _) (omega arith) (onto-Edits e (Edits.replace f))
onto-Edits (Edits.remove e) f = subst (EditScript _ _) (omega arith) (onto-Edits e (Edits.remove f))
onto-Edits (Edits.add e) f = subst (EditScript _ _) (omega arith) (onto-Edits e (Edits.add f))

swapped : {xs ys : List ℕ} {n : ℕ} → EditScript xs ys n → EditScript ys xs n
swapped Edits.done = Edits.done
swapped (Edits.keep e) = Edits.keep (swapped e)
swapped (Edits.replace e) = Edits.replace (swapped e)
swapped (Edits.remove e) = Edits.add (swapped e)
swapped (Edits.add e) = Edits.remove (swapped e)

-- `d` edits lead from the one text to the other, and fewer do not.
abbrev pub IsDistance : List ℕ → List ℕ → ℕ → Type 0
IsDistance a b d = EditScript a b d × ((n : ℕ) → EditScript a b n → d ≤ n)

by_rows-IsDistance : (xs ys : List ℕ) → IsDistance xs ys (by_rows xs ys)
by_rows-IsDistance xs ys =
    let p = onto xs [] in
    let q = onto ys [] in
    subst (IsDistance xs ys) (sym (by_rows-lev xs ys)) (
      subst (λ z. EditScript z ys (lev p q)) (onto-onto xs [])
          (subst (λ z. EditScript (onto p []) z (lev p q)) (onto-onto ys [])
            (subst (EditScript (onto p []) (onto q [])) (omega arith)
              (onto-Edits (lev-Edits p q) Edits.done))),
      λ n e. omega (arith, lev-least (onto-Edits e Edits.done)),
    )

kept : (xs : List ℕ) → EditScript xs xs 0
kept [] = Edits.done
kept (x ∷ xs) = Edits.keep (kept xs)

byte_len-ne_zero : (a : Text) → a ≢ [] → (byte_len a == 0) ≡ false
byte_len-ne_zero [] ne = absurd (ne refl)
byte_len-ne_zero (c ∷ s) ne = let one : 1 ≤ rune_len c = ground arith in ground (arith, one)

-- For two texts that are not empty, `Distance` is the least number of insertions, deletions and
-- substitutions of code points that lead from the one to the other.
pub distance-IsDistance : (a b : Text) → a ≢ [] → b ≢ [] → IsDistance a b (distance a b)
unfolding distance
distance-IsDistance a b na nb = elim (Bool-cases (text_eq a b)) [
  | inl e ↦
      rw (e, distance)
        (subst (λ z. IsDistance a z 0) ((text_eq_iff a b).0 e) (kept a, λ n s. omega arith))
  | inr e ↦
      rw (e, distance)
        (rw (byte_len-ne_zero a na) (
          rw (byte_len-ne_zero b nb) (elim (Bool-cases (ltb (length b) (length a))) [
            | inl longer ↦ rw longer (
                let (script, least) = by_rows-IsDistance b a in
                (swapped script, λ n s. least n (swapped s)))
            | inr shorter ↦ rw shorter (by_rows-IsDistance a b)
          ])))
]
