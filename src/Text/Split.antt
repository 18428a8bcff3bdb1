-- ===== src/Text/Split.antt =====
-- `split`, `join` and `last_index`, for strings.Split, strings.Join and strings.LastIndex.
use vibefeld.Prelude.{
  ℕ, zero, suc, ◌<◌, ◌≡◌, ◌≢◌, refl, sym, ◌∙◌, ap, some, none, List, [], ◌∷◌, ◌++◌, arith, Text,
  All, length, take, append_assoc,
}
use vibefeld.Text.{split, split_n, join, last_index}
use vibefeld.Text.Decimal.{Lacks}

module _ (sep : ℕ) where
  split-append : (p rest : Text) → Lacks sep p → split sep (p ++ sep ∷ rest) ≡ p ∷ split sep rest
  unfolding split
  split-append [] rest h = ground arith
  split-append (c ∷ p) rest h = ground (arith, split-append p rest h.1)

  pub split_of_Lacks : (p : Text) → Lacks sep p → split sep p ≡ p ∷ []
  unfolding split
  split_of_Lacks [] h = refl
  split_of_Lacks (c ∷ p) h = ground (arith, split_of_Lacks p h.1)

  pub split-join : (ps : List Text) → ps ≢ [] → All (Lacks sep) ps → split sep (join sep ps) ≡ ps
  unfolding join
  split-join [] ne h = absurd (ne refl)
  split-join (p ∷ []) ne h = split_of_Lacks p h.0
  split-join (p ∷ q ∷ ps) ne h =
      split-append p (join sep (q ∷ ps)) h.0 ∙ ap (◌∷◌ p) (split-join (q ∷ ps) (λ e. cc) h.1)

  split_n-append :
      (p rest : Text) (n : ℕ)
      → Lacks sep p
      → split_n sep (p ++ sep ∷ rest) (suc (suc n)) ≡ p ∷ split_n sep rest (suc n)
  unfolding split_n
  split_n-append [] rest n h = ground arith
  split_n-append (c ∷ p) rest n h = ground (arith, split_n-append p rest n h.1)

  -- Of more than `n` joined parts, `split_n` leaves the first `n` as they were.
  pub take-split_n-join :
      (ps : List Text) (n : ℕ)
      → n < length ps
      → All (Lacks sep) ps
      → (take n (split_n sep (join sep ps) (suc n)) ≡ take n ps)
        × (length (split_n sep (join sep ps) (suc n)) ≡ suc n)
  unfolding join split_n
  take-split_n-join [] n h all = absurd (omega arith)
  take-split_n-join (p ∷ ps) zero h all = (refl, refl)
  take-split_n-join (p ∷ []) (suc n) h all = absurd (omega arith)
  take-split_n-join (p ∷ q ∷ ps) (suc n) h all =
      let (ih, len) = take-split_n-join (q ∷ ps) n (omega arith) all.1 in
      rw (split_n-append p (join sep (q ∷ ps)) n all.0) (ap (◌∷◌ p) ih, ap suc len)

  pub last_index_of_Lacks : (p : Text) → Lacks sep p → last_index sep p ≡ none
  unfolding last_index
  last_index_of_Lacks [] h = refl
  last_index_of_Lacks (c ∷ p) h = ground (arith, last_index_of_Lacks p h.1)

  pub last_index-append :
      (s p : Text) → Lacks sep p → last_index sep (s ++ sep ∷ p) ≡ some (length s)
  unfolding last_index
  last_index-append [] p h = ground (arith, last_index_of_Lacks p h)
  last_index-append (c ∷ s) p h = ground (arith, last_index-append s p h)

pub take-length-append {ℓ} : {A : Type ℓ} (s t : List A) → take (length s) (s ++ t) ≡ s
take-length-append [] t = refl
take-length-append (c ∷ s) t = ap (◌∷◌ c) (take-length-append s t)

pub join-append :
    (sep : ℕ) (ps : List Text) (p : Text)
    → ps ≢ []
    → join sep (ps ++ p ∷ []) ≡ join sep ps ++ sep ∷ p
unfolding join
join-append sep [] p ne = absurd (ne refl)
join-append sep (q ∷ []) p ne = refl
join-append sep (q ∷ r ∷ ps) p ne =
    rw (join-append sep (r ∷ ps) p (λ e. cc)) (sym (append_assoc q _ _))
