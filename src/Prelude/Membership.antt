-- ===== src/Prelude/Membership.antt =====
-- Membership in a list: filters, images and universal statements.
use mathlib.Core.Path.{◌≡◌, refl, sym, ap, subst}
use mathlib.Core.Logic.{◌⊎◌, inl, inr}
use mathlib.Core.Bool.{Bool, true, false}
use mathlib.Core.Option.{some}
use mathlib.Core.List.{List, [], ◌∷◌, map, Memᴰ, Permᴰ, ◌++◌}
use vibefeld.Prelude.Tests.{if◌then◌else◌, eq_of_some-eq}
use vibefeld.Prelude.Lists.{filter, All}

module _ {ℓ} {A : Type ℓ} where
  mem-if :
      (b : Bool) (a x : A) (xs : List A)
      → Memᴰ a (if b then x ∷ xs else xs)
      → ((a ≡ x) × (b ≡ true)) ⊎ Memᴰ a xs
  mem-if true a x xs (Memᴰ.head e) = inl (e, refl)
  mem-if true a x xs (Memᴰ.tail m) = inr m
  mem-if false a x xs m = inr m

  if-mem_head :
      (b : Bool) (a x : A) (xs : List A) → a ≡ x → b ≡ true → Memᴰ a (if b then x ∷ xs else xs)
  if-mem_head true a x xs e h = Memᴰ.head e
  if-mem_head false a x xs e h = absurd (cc)

  if-mem_tail : (b : Bool) (a x : A) (xs : List A) → Memᴰ a xs → Memᴰ a (if b then x ∷ xs else xs)
  if-mem_tail true a x xs m = Memᴰ.tail m
  if-mem_tail false a x xs m = m

  pub mem-filter :
      (f : A → Bool) (a : A) (xs : List A) → Memᴰ a (filter f xs) → Memᴰ a xs × (f a ≡ true)
  mem-filter f a [] here = elim here [ ]
  mem-filter f a (x ∷ xs) here = elim (mem-if (f x) a x (filter f xs) here) [
    | inl (e, h) ↦ (Memᴰ.head e, subst (λ r. f r ≡ true) (sym e) h)
    | inr later ↦ let (found, h) = mem-filter f a xs later in (Memᴰ.tail found, h)
  ]

  pub filter-mem :
      (f : A → Bool) (a : A) (xs : List A) → Memᴰ a xs → f a ≡ true → Memᴰ a (filter f xs)
  filter-mem f a _ (Memᴰ.head {x} {xs} e) h =
      if-mem_head (f x) a x (filter f xs) e (subst (λ r. f r ≡ true) e h)
  filter-mem f a _ (Memᴰ.tail {x} {xs} m) h =
      if-mem_tail (f x) a x (filter f xs) (filter-mem f a xs m h)

  pub All-mem {κ} : (P : A → Type κ) (a : A) (xs : List A) → All P xs → Memᴰ a xs → P a
  All-mem P a _ all (Memᴰ.head e) = subst P (sym e) all.0
  All-mem P a _ all (Memᴰ.tail m) = All-mem P a _ all.1 m

  pub mem-map_some : (a : A) (xs : List A) → Memᴰ (some a) (map some xs) → Memᴰ a xs
  mem-map_some a [] here = elim here [ ]
  mem-map_some a (x ∷ xs) (Memᴰ.head e) = Memᴰ.head (eq_of_some-eq a x e)
  mem-map_some a (x ∷ xs) (Memᴰ.tail m) = Memᴰ.tail (mem-map_some a xs m)

  pub map-mem {κ} :
      {B : Type κ} (f : A → B) (a : A) (xs : List A) → Memᴰ a xs → Memᴰ (f a) (map f xs)
  map-mem f a _ (Memᴰ.head e) = Memᴰ.head (ap f e)
  map-mem f a _ (Memᴰ.tail {xs} m) = Memᴰ.tail (map-mem f a xs m)

pub mem-append_left {ℓ} : {A : Type ℓ} (a : A) (xs ys : List A) → Memᴰ a xs → Memᴰ a (xs ++ ys)
mem-append_left a _ ys (Memᴰ.head e) = Memᴰ.head e
mem-append_left a _ ys (Memᴰ.tail m) = Memᴰ.tail (mem-append_left a _ ys m)

pub mem-append_right {ℓ} : {A : Type ℓ} (a : A) (xs ys : List A) → Memᴰ a ys → Memᴰ a (xs ++ ys)
mem-append_right a [] ys m = m
mem-append_right a (x ∷ xs) ys m = Memᴰ.tail (mem-append_right a xs ys m)

pub mem-append {ℓ} :
    {A : Type ℓ} (a : A) (xs ys : List A) → Memᴰ a (xs ++ ys) → Memᴰ a xs ⊎ Memᴰ a ys
mem-append a [] ys m = inr m
mem-append a (x ∷ xs) ys (Memᴰ.head e) = inl (Memᴰ.head e)
mem-append a (x ∷ xs) ys (Memᴰ.tail m) = elim (mem-append a xs ys m) [
  | inl l ↦ inl (Memᴰ.tail l)
  | inr r ↦ inr r
]

pub All-perm {ℓ κ} :
    {A : Type ℓ} (P : A → Type κ) (xs ys : List A) → Permᴰ xs ys → All P xs → All P ys
All-perm P _ _ Permᴰ.nil all = tt
All-perm P _ _ (Permᴰ.cons e p) all = (subst P e all.0, All-perm P _ _ p all.1)
All-perm P _ _ (Permᴰ.swap e f) all = (subst P f all.1.0, (subst P e all.0, all.1.1))
All-perm P _ _ (Permᴰ.trans p q) all = All-perm P _ _ q (All-perm P _ _ p all)

-- A weaker property of all elements.
pub All-map {ℓ κ λ'} :
    {A : Type ℓ} (P : A → Type κ) (Q : A → Type λ') (xs : List A)
    → ((a : A) → P a → Q a)
    → All P xs
    → All Q xs
All-map P Q [] f all = tt
All-map P Q (x ∷ xs) f all = (f x all.0, All-map P Q xs f all.1)

pub All-of_mem {ℓ κ} :
    {A : Type ℓ} (P : A → Type κ) (xs : List A) → ((a : A) → Memᴰ a xs → P a) → All P xs
All-of_mem P [] h = tt
All-of_mem P (x ∷ xs) h = (h x (Memᴰ.head refl), All-of_mem P xs (λ a m. h a (Memᴰ.tail m)))
