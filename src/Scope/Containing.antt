-- ===== src/Scope/Containing.antt =====
-- The order of `GetContainingScopes` (internal/scope/tracker.go).
use mathlib.Core.List.{Permᴰ}
use mathlib.Core.List.Permᴰ
use vibefeld.Prelude.{
  All-perm, ℕ, zero, suc, ◌≤◌, ◌<◌, ◌≡◌, refl, sym, ap, subst, ◌&&◌, List, [], ◌∷◌, arith, All, ltb,
  length, filter, Bool-cases, inl, inr,
}
use vibefeld.Types.NodeId.{NodeId, depth, is_ancestor_of}
use vibefeld.Scope.{
  Entry, Tracker, is_active, all_scopes, exchange, sort_rounds, get_containing_scopes,
}

abbrev level : Entry → ℕ
level e = depth e.node_id

-- Each entry is at most as deep as the entries behind it.
abbrev pub IsOutermostFirst : List Entry → Type 0
IsOutermostFirst [] = Unit
IsOutermostFirst (e ∷ es) = All (λ x. depth e.node_id ≤ depth x.node_id) es × IsOutermostFirst es

exchange-perm :
    (x : Entry) (ys : List Entry) → Permᴰ (x ∷ ys) ((exchange x ys).0 ∷ (exchange x ys).1)
unfolding exchange
exchange-perm x [] = Permᴰ.refl (x ∷ [])
exchange-perm x (y ∷ ys) = elim (Bool-cases (ltb (level y) (level x))) [
  | inl e ↦
      rw (e, exchange) (Permᴰ.trans (Permᴰ.cons refl (exchange-perm y ys)) (Permᴰ.swap refl refl))
  | inr e ↦
      rw (e, exchange)
        (Permᴰ.trans (Permᴰ.swap refl refl)
          (Permᴰ.trans (Permᴰ.cons refl (exchange-perm x ys)) (Permᴰ.swap refl refl)))
]

-- The first of the pair is at most as deep as `x` and as the rest.
abbrev IsLeast : Entry → Entry × List Entry → Type 0
IsLeast x (least, rest) = (level least ≤ level x) × All (λ e. level least ≤ level e) rest

exchange-IsLeast : (x : Entry) (ys : List Entry) → IsLeast x (exchange x ys)
unfolding exchange
exchange-IsLeast x [] = (omega arith, tt)
exchange-IsLeast x (y ∷ ys) = elim (Bool-cases (ltb (level y) (level x))) [
  | inl e ↦
      let (least, rest) = exchange-IsLeast y ys in
      let eq : exchange x (y ∷ ys) ≡ ((exchange y ys).0, x ∷ (exchange y ys).1) =
        rw (e, exchange) refl in
      let shallower : level y < level x = ground (arith, e) in
      subst (IsLeast x) (sym eq)
        (omega (arith, least, shallower), (omega (arith, least, shallower), rest))
  | inr e ↦
      let (least, rest) = exchange-IsLeast x ys in
      let eq : exchange x (y ∷ ys) ≡ ((exchange x ys).0, y ∷ (exchange x ys).1) =
        rw (e, exchange) refl in
      let deeper : level x ≤ level y = ground (arith, e) in
      subst (IsLeast x) (sym eq) (least, (omega (arith, least, deeper), rest))
]

exchange-length : (x : Entry) (ys : List Entry) → length (exchange x ys).1 ≡ length ys
unfolding exchange
exchange-length x [] = refl
exchange-length x (y ∷ ys) = elim (Bool-cases (ltb (level y) (level x))) [
  | inl e ↦ rw (e, exchange) (ap suc (exchange-length y ys))
  | inr e ↦ rw (e, exchange) (ap suc (exchange-length x ys))
]

sort_rounds-perm : (n : ℕ) (es : List Entry) → Permᴰ es (sort_rounds n es)
unfolding sort_rounds
sort_rounds-perm zero es = Permᴰ.refl es
sort_rounds-perm (suc n) [] = Permᴰ.nil
sort_rounds-perm (suc n) (x ∷ xs) =
    Permᴰ.trans (exchange-perm x xs) (Permᴰ.cons refl (sort_rounds-perm n (exchange x xs).1))

sort_rounds-IsOutermostFirst :
    (n : ℕ) (es : List Entry) → length es ≤ n → IsOutermostFirst (sort_rounds n es)
unfolding sort_rounds
sort_rounds-IsOutermostFirst zero [] le = tt
sort_rounds-IsOutermostFirst zero (x ∷ xs) le = absurd (omega arith)
sort_rounds-IsOutermostFirst (suc n) [] le = tt
sort_rounds-IsOutermostFirst (suc n) (x ∷ xs) le =
    let rest = (exchange x xs).1 in
    (
      All-perm (λ e. level (exchange x xs).0 ≤ level e) rest (sort_rounds n rest)
          (sort_rounds-perm n rest) (exchange-IsLeast x xs).1,
      sort_rounds-IsOutermostFirst n rest (omega (arith, exchange-length x xs)),
    )

-- `GetContainingScopes` returns the active entries whose nodes are ancestors of the given one, each as
-- often as it is in the tracker, the outermost first.
pub get_containing_scopes-IsOutermostFirst :
    (node_id : NodeId) (t : Tracker)
    → Permᴰ
        (filter (λ e. is_active e && is_ancestor_of e.node_id node_id) (all_scopes t))
        (get_containing_scopes node_id t)
      × IsOutermostFirst (get_containing_scopes node_id t)
unfolding get_containing_scopes
get_containing_scopes-IsOutermostFirst node_id t =
    let found = filter (λ e. is_active e && is_ancestor_of e.node_id node_id) (all_scopes t) in
    (
      sort_rounds-perm (length found) found,
      sort_rounds-IsOutermostFirst (length found) found (omega arith),
    )
