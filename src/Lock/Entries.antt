-- ===== src/Lock/Entries.antt =====
-- The entries of the manager's map of locks (internal/lock/manager.go).
use mathlib.Core.List.{Memᴰ}
use vibefeld.Prelude.{
  ℕ, ◌≡◌, sym, ◌∙◌, ap, subst, ◌⊎◌, false, some, [], ◌∷◌, Text, text_eq, text_eq_iff, Map, lookup,
  insert, delete, eq_text, Bool-cases, inl, inr, eq_of_some-eq,
}
use vibefeld.Node.{Timestamp}
use vibefeld.Lock.{ClaimLock, is_expired, reap}

pub lookup-found : (m : Map Text ℕ) (k : Text) (p : ℕ) → lookup m k ≡ some p → Memᴰ (k, p) m
unfolding lookup
lookup-found [] k p = λ e. absurd (cc)
lookup-found ((j, q) ∷ m) k p = elim (Bool-cases (text_eq j k)) [
  | inl here ↦
      rw (here, lookup)
        (λ e. Memᴰ.head (
          ap (λ (x : Text). (x, p)) (sym ((text_eq_iff j k).0 here))
          ∙ ap (λ (x : ℕ). (j, x)) (sym (eq_of_some-eq q p e))))
  | inr later ↦ rw (later, lookup) (λ e. Memᴰ.tail (lookup-found m k p e))
]

pub mem-insert :
    (m : Map Text ℕ) (j : Text) (q : ℕ) (x : Text × ℕ)
    → Memᴰ x (insert m j q)
    → Memᴰ x m ⊎ ((x.0 ≡ j) × (x.1 ≡ q))
unfolding insert
mem-insert [] j q x = λ here. elim here [
  | Memᴰ.head e ↦ inr (ap (λ (y : Text × ℕ). y.0) e, ap (λ (y : Text × ℕ). y.1) e)
  | Memᴰ.tail none_there ↦ elim none_there [ ]
]
mem-insert ((i, w) ∷ m) j q x = elim (Bool-cases (text_eq i j)) [
  | inl same ↦
      rw (same, insert)
        (λ here. elim here [
          | Memᴰ.head e ↦ inr (
            ap (λ (y : Text × ℕ). y.0) e ∙ (text_eq_iff i j).0 same,
            ap (λ (y : Text × ℕ). y.1) e,
          )
          | Memᴰ.tail later ↦ inl (Memᴰ.tail later)
        ])
  | inr other ↦
      rw (other, insert)
        (λ here. elim here [
          | Memᴰ.head e ↦ inl (Memᴰ.head e)
          | Memᴰ.tail later ↦ elim (mem-insert m j q x later) [
            | inl old ↦ inl (Memᴰ.tail old)
            | inr new ↦ inr new
          ]
        ])
]

pub mem-delete : (m : Map Text ℕ) (j : Text) (x : Text × ℕ) → Memᴰ x (delete m j) → Memᴰ x m
unfolding delete
mem-delete [] j x = λ here. here
mem-delete ((i, w) ∷ m) j x = elim (Bool-cases (text_eq i j)) [
  | inl same ↦ rw (same, delete) (λ here. Memᴰ.tail (mem-delete m j x here))
  | inr other ↦
      rw (other, delete)
        (λ here. elim here [
          | Memᴰ.head e ↦ Memᴰ.head e
          | Memᴰ.tail later ↦ Memᴰ.tail (mem-delete m j x later)
        ])
]

module _ (clock : ℕ → Timestamp) (h : ℕ → ClaimLock) where
  pub mem-reap : (ls : Map Text ℕ) (x : Text × ℕ) → Memᴰ x (reap clock h ls).0 → Memᴰ x ls
  unfolding reap
  mem-reap [] x = λ here. here
  mem-reap ((k, q) ∷ ls) x = elim (Bool-cases (is_expired (clock q) (h q))) [
    | inl gone ↦ rw (gone, reap) (λ here. Memᴰ.tail (mem-reap ls x here))
    | inr kept ↦
        rw (kept, reap)
          (λ here. elim here [
            | Memᴰ.head e ↦ Memᴰ.head e
            | Memᴰ.tail later ↦ Memᴰ.tail (mem-reap ls x later)
          ])
  ]

  pub lookup-reap :
      (ls : Map Text ℕ) (k : Text) (p : ℕ)
      → is_expired (clock p) (h p) ≡ false
      → lookup ls k ≡ some p
      → lookup (reap clock h ls).0 k ≡ some p
  unfolding reap lookup
  lookup-reap [] k p fresh = λ e. e
  lookup-reap ((j, q) ∷ ls) k p fresh = elim (Bool-cases (text_eq j k)) [
    | inl here ↦
        rw (here, lookup)
          (λ e.
            let same = eq_of_some-eq q p e in
            let kept = subst (λ x. is_expired (clock x) (h x) ≡ false) (sym same) fresh in
            rw (kept, reap) (rw (here, lookup) e))
    | inr later ↦
        rw (later, lookup)
          (λ e. elim (Bool-cases (is_expired (clock q) (h q))) [
            | inl gone ↦ rw (gone, reap) (lookup-reap ls k p fresh e)
            | inr kept ↦ rw (kept, reap) (rw (later, lookup) (lookup-reap ls k p fresh e))
          ])
  ]
