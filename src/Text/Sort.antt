-- ===== src/Text/Sort.antt =====
-- `sort.Strings`, by insertion.
use mathlib.Core.List.{Permᴰ}
use mathlib.Core.Path.{ap₂}
use vibefeld.Prelude.{
  ◌≡◌, refl, ◌∙◌, ap, Bool, true, false, List, [], ◌∷◌, arith, Text, ltb, if◌then◌else◌, inl, inr,
  ◌⊎◌,
}

-- `s <= t`
abbrev pub text_leb : Text → Text → Bool
text_leb [] t = true
text_leb (a ∷ s) [] = false
text_leb (a ∷ s) (b ∷ t) =
    let rest = text_leb s t in if ltb a b then true else if ltb b a then false else rest

insert_text : Text → List Text → List Text
insert_text s [] = s ∷ []
insert_text s (t ∷ ts) =
    let rest = insert_text s ts in if text_leb s t then s ∷ t ∷ ts else t ∷ rest

unfoldable pub sort_strings : List Text → List Text
unfolding insert_text
sort_strings [] = []
sort_strings (s ∷ ss) = insert_text s (sort_strings ss)

text_leb-total : (s t : Text) → (text_leb s t ≡ true) ⊎ (text_leb t s ≡ true)
text_leb-total [] t = inl refl
text_leb-total (a ∷ s) [] = inr refl
text_leb-total (a ∷ s) (b ∷ t) = ground (arith, text_leb-total s t)

text_leb-antisym : (s t : Text) → text_leb s t ≡ true → text_leb t s ≡ true → s ≡ t
text_leb-antisym [] [] h k = refl
text_leb-antisym [] (b ∷ t) h k = cc
text_leb-antisym (a ∷ s) [] h k = cc
text_leb-antisym (a ∷ s) (b ∷ t) h k = ground (arith, text_leb-antisym s t)

text_leb_trans : (s t u : Text) → text_leb s t ≡ true → text_leb t u ≡ true → text_leb s u ≡ true
text_leb_trans [] t u h k = refl
text_leb_trans (a ∷ s) [] u h k = cc
text_leb_trans (a ∷ s) (b ∷ t) [] h k = cc
text_leb_trans (a ∷ s) (b ∷ t) (c ∷ u) h k = ground (arith, text_leb_trans s t u)

insert_text_comm :
    (s t : Text) (l : List Text) → insert_text s (insert_text t l) ≡ insert_text t (insert_text s l)
unfolding insert_text
insert_text_comm s t [] = ground (arith, text_leb-total s t, text_leb-antisym s t)
insert_text_comm s t (u ∷ l) = ground (
  arith,
  insert_text_comm s t l,
  text_leb-total s t,
  text_leb-antisym s t,
  text_leb_trans s t u,
  text_leb_trans t s u,
)

-- The order of the given texts does not matter.
pub sort_strings-perm : (ss ts : List Text) → Permᴰ ss ts → sort_strings ss ≡ sort_strings ts
unfolding sort_strings
sort_strings-perm _ _ Permᴰ.nil = refl
sort_strings-perm _ _ (Permᴰ.cons e p) = ap₂ insert_text e (sort_strings-perm _ _ p)
sort_strings-perm _ _ (Permᴰ.swap {a = a} {b = b} {l = l} e f) =
    insert_text_comm a b (sort_strings l)
    ∙ ap₂ insert_text f (ap (λ c. insert_text c (sort_strings l)) e)
sort_strings-perm _ _ (Permᴰ.trans p q) = sort_strings-perm _ _ p ∙ sort_strings-perm _ _ q
