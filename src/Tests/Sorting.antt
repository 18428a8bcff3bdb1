-- ===== src/Tests/Sorting.antt =====
-- An insertion sort, as an instance of what the code asks of `sort.Slice`.
use mathlib.Core.List.{Permᴰ}
use vibefeld.Prelude.{
  ℕ, ◌≤◌, refl, List, [], ◌∷◌, All, leb, if◌then◌else◌, arith, Bool-cases, inl, inr, leb→le,
}
use vibefeld.Taint.{Ptr, IsSorted, Sorter}

module _ (key : Ptr → ℕ) where
  unfoldable put : Ptr → List Ptr → List Ptr
  put x [] = x ∷ []
  put x (y ∷ ys) = let rest = put x ys in if leb (key x) (key y) then x ∷ y ∷ ys else y ∷ rest

  unfoldable pub insertion_sort : List Ptr → List Ptr
  unfolding put
  insertion_sort [] = []
  insertion_sort (x ∷ xs) = put x (insertion_sort xs)

  same_list : (xs : List Ptr) → Permᴰ xs xs
  same_list [] = Permᴰ.nil
  same_list (x ∷ xs) = Permᴰ.cons refl (same_list xs)

  put-perm : (x : Ptr) (ys : List Ptr) → Permᴰ (x ∷ ys) (put x ys)
  unfolding put
  put-perm x [] = same_list (x ∷ [])
  put-perm x (y ∷ ys) = elim (Bool-cases (leb (key x) (key y))) [
    | inl e ↦ rw e (same_list (x ∷ y ∷ ys))
    | inr e ↦ rw e (Permᴰ.trans (Permᴰ.swap refl refl) (Permᴰ.cons refl (put-perm x ys)))
  ]

  pub insertion_sort-perm : (xs : List Ptr) → Permᴰ xs (insertion_sort xs)
  unfolding insertion_sort
  insertion_sort-perm [] = Permᴰ.nil
  insertion_sort-perm (x ∷ xs) =
      Permᴰ.trans (Permᴰ.cons refl (insertion_sort-perm xs)) (put-perm x (insertion_sort xs))

  put-All :
      (a : ℕ) (x : Ptr) (ys : List Ptr)
      → a ≤ key x
      → All (λ q. a ≤ key q) ys
      → All (λ q. a ≤ key q) (put x ys)
  unfolding put
  put-All a x [] h all = (h, tt)
  put-All a x (y ∷ ys) h all = elim (Bool-cases (leb (key x) (key y))) [
    | inl e ↦ rw e (h, all)
    | inr e ↦ rw e (all.0, put-All a x ys h all.1)
  ]

  All-le : (a b : ℕ) (ys : List Ptr) → a ≤ b → All (λ q. b ≤ key q) ys → All (λ q. a ≤ key q) ys
  All-le a b [] h all = tt
  All-le a b (y ∷ ys) h all = (omega (arith, all.0, h), All-le a b ys h all.1)

  put-IsSorted : (x : Ptr) (ys : List Ptr) → IsSorted key ys → IsSorted key (put x ys)
  unfolding put
  put-IsSorted x [] s = (tt, tt)
  put-IsSorted x (y ∷ ys) s = elim (Bool-cases (leb (key x) (key y))) [
    | inl e ↦ rw e ((leb→le _ _ e, All-le (key x) (key y) ys (leb→le _ _ e) s.0), s)
    | inr e ↦ rw e (put-All (key y) x ys (ground (arith, e)) s.0, put-IsSorted x ys s.1)
  ]

  pub insertion_sort-IsSorted : (xs : List Ptr) → IsSorted key (insertion_sort xs)
  unfolding insertion_sort
  insertion_sort-IsSorted [] = tt
  insertion_sort-IsSorted (x ∷ xs) = put-IsSorted x (insertion_sort xs) (insertion_sort-IsSorted xs)

abbrev pub by_insertion : Sorter
by_insertion = record {
  sort = insertion_sort;
  sort-perm = insertion_sort-perm;
  sort-sorted = insertion_sort-IsSorted;
}
