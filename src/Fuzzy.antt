-- ===== src/Fuzzy.antt =====
-- internal/fuzzy/levenshtein.go: the edit distance, over the code points of two strings that are
-- valid UTF-8. The two slices of the code are the row before and the row that is being filled.
pub mod Edits
pub mod Table
use vibefeld.Prelude.{
  ℕ, zero, suc, ◌+◌, ◌≡◌, Bool, true, false, ◌&&◌, Option, none, some, List, [], ◌∷◌, Text, text_eq,
  ltb, leb, ◌==◌, if◌then◌else◌, length,
}

-- How many bytes the UTF-8 encoding of a code point has.
abbrev pub rune_len : ℕ → ℕ
rune_len c = if ltb c 128 then 1 else if ltb c 2048 then 2 else if ltb c 65536 then 3 else 4

-- `len` of a string
abbrev pub byte_len : Text → ℕ
byte_len [] = 0
byte_len (c ∷ s) = rune_len c + byte_len s

unfoldable pub min3 : ℕ → ℕ → ℕ → ℕ
min3 a b c = if leb a b && leb a c then a else if leb b c then b else c

-- The cost of a substitution.
abbrev pub cost : ℕ → ℕ → ℕ
cost x y = if x == y then 0 else 1

-- The inner loop: `diag` is prev[j-1], `left` is curr[j-1], and the list holds prev[j] and what follows.
unfoldable pub fill : ℕ → List ℕ → ℕ → ℕ → List ℕ → List ℕ
unfolding min3
fill x [] diag left ups = []
fill x (y ∷ ys) diag left [] = []
fill x (y ∷ ys) diag left (up ∷ ups) =
    let here = min3 (up + 1) (left + 1) (diag + cost x y) in here ∷ fill x ys up here ups

-- One round of the outer loop: `curr[0] = i` and the inner loop.
unfoldable pub next_row : ℕ → ℕ → List ℕ → List ℕ → List ℕ
unfolding fill
next_row i x ys [] = []
next_row i x ys (first ∷ ups) = i ∷ fill x ys first i ups

-- The outer loop, behind `i` rounds.
unfoldable pub rows : ℕ → List ℕ → List ℕ → List ℕ → List ℕ
unfolding next_row
rows i [] ys row = row
rows i (x ∷ xs) ys row = rows (suc i) xs ys (next_row (suc i) x ys row)

-- `prev[j] = j`, from `j` on.
unfoldable pub first_row : ℕ → List ℕ → List ℕ
first_row j [] = j ∷ []
first_row j (y ∷ ys) = j ∷ first_row (suc j) ys

-- `prev[lenB]`
unfoldable pub last_of : ℕ → List ℕ → ℕ
last_of d [] = d
last_of d (n ∷ ns) = last_of n ns

unfoldable pub by_rows : List ℕ → List ℕ → ℕ
unfolding rows first_row last_of
by_rows xs ys = last_of 0 (rows 0 xs ys (first_row 0 ys))

-- `Distance`
unfoldable pub distance : Text → Text → ℕ
unfolding by_rows
distance a b =
    if text_eq a b
    then 0
    else if byte_len a == 0
    then byte_len b
    else if byte_len b == 0
    then byte_len a
    else if ltb (length b) (length a)
    then by_rows b a
    else by_rows a b
