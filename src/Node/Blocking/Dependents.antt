-- ===== src/Node/Blocking/Dependents.antt =====
-- The reverse dependency map of internal/node/blocking.go has the dependencies turned round.
use vibefeld.Prelude.{
  ◌≡◌, sym, ap, subst, ◌⊎◌, inl, inr, Bool-cases, List, [], ◌∷◌, ◌++◌, Text, text_eq, text_eq_iff,
  if◌then◌else◌, Map, lookup, insert, lookup-insert, eq_text, mem-append, mem-append_left,
  mem-append_right, arith,
}
use mathlib.Core.List.{Memᴰ}
use vibefeld.Node.Blocking.{dependents_of, add_dependents, reverse_dependencies}
use vibefeld.Node.Blocking.Reach.{DependsOn}

dependents_of-insert :
    (m : Map Text (List Text)) (k : Text) (ns : List Text) (j : Text)
    → dependents_of (insert m k ns) j ≡ (if text_eq k j then ns else dependents_of m j)
unfolding dependents_of
dependents_of-insert m k ns j = ground (arith, lookup-insert m k ns j)

module _ (node : Text) where
  -- One more dependent.
  abbrev added : Map Text (List Text) → Text → Map Text (List Text)
  added m dep = insert m dep (dependents_of m dep ++ node ∷ [])

  added-mem :
      (m : Map Text (List Text)) (dep n d : Text)
      → Memᴰ n (dependents_of (added m dep) d)
      → Memᴰ n (dependents_of m d) ⊎ ((n ≡ node) × (d ≡ dep))
  added-mem m dep n d here = elim (Bool-cases (text_eq dep d)) [
    | inl e ↦
        let same = (text_eq_iff dep d).0 e in
        let now : Memᴰ n (dependents_of m dep ++ node ∷ []) =
          subst (Memᴰ n) (cc (dependents_of-insert m dep (dependents_of m dep ++ node ∷ []) d, e))
            here in
        elim (mem-append n (dependents_of m dep) (node ∷ []) now) [
          | inl old ↦ inl (subst (λ k. Memᴰ n (dependents_of m k)) same old)
          | inr (Memᴰ.head new) ↦ inr (new, sym same)
          | inr (Memᴰ.tail none_left) ↦ elim none_left [ ]
        ]
    | inr e ↦ inl (
        subst (Memᴰ n) (cc (dependents_of-insert m dep (dependents_of m dep ++ node ∷ []) d, e))
          here)
  ]

  mem-added :
      (m : Map Text (List Text)) (dep n d : Text)
      → Memᴰ n (dependents_of m d) ⊎ ((n ≡ node) × (d ≡ dep))
      → Memᴰ n (dependents_of (added m dep) d)
  mem-added m dep n d either =
      let reads = dependents_of-insert m dep (dependents_of m dep ++ node ∷ []) d in
      elim (Bool-cases (text_eq dep d)) [
        | inl e ↦
            let same = (text_eq_iff dep d).0 e in
            subst (Memᴰ n) (sym (cc (reads, e))) (elim either [
              | inl old ↦
                  mem-append_left n (dependents_of m dep) (node ∷ [])
                    (subst (λ k. Memᴰ n (dependents_of m k)) (sym same) old)
              | inr (new, _) ↦ mem-append_right n (dependents_of m dep) (node ∷ []) (Memᴰ.head new)
            ])
        | inr e ↦ subst (Memᴰ n) (sym (cc (reads, e))) (elim either [
          | inl old ↦ old
          | inr (_, same) ↦ absurd (cc (e, (text_eq_iff dep d).1 (sym same)))
        ])
      ]

  add_dependents-mem :
      (deps : List Text) (m : Map Text (List Text)) (n d : Text)
      → Memᴰ n (dependents_of (add_dependents node deps m) d)
      → Memᴰ n (dependents_of m d) ⊎ ((n ≡ node) × Memᴰ d deps)
  unfolding add_dependents
  add_dependents-mem [] m n d here = inl here
  add_dependents-mem (dep ∷ deps) m n d here =
      elim (add_dependents-mem deps (added m dep) n d here) [
        | inl before ↦ elim (added-mem m dep n d before) [
          | inl old ↦ inl old
          | inr (new, same) ↦ inr (new, Memᴰ.head same)
        ]
        | inr (new, later) ↦ inr (new, Memᴰ.tail later)
      ]

  mem-add_dependents :
      (deps : List Text) (m : Map Text (List Text)) (n d : Text)
      → Memᴰ n (dependents_of m d) ⊎ ((n ≡ node) × Memᴰ d deps)
      → Memᴰ n (dependents_of (add_dependents node deps m) d)
  unfolding add_dependents
  mem-add_dependents [] m n d (inl old) = old
  mem-add_dependents [] m n d (inr (_, here)) = elim here [ ]
  mem-add_dependents (dep ∷ deps) m n d (inl old) =
      mem-add_dependents deps (added m dep) n d (inl (mem-added m dep n d (inl old)))
  mem-add_dependents (dep ∷ deps) m n d (inr (new, Memᴰ.head same)) =
      mem-add_dependents deps (added m dep) n d (inl (mem-added m dep n d (inr (new, same))))
  mem-add_dependents (dep ∷ deps) m n d (inr (new, Memᴰ.tail later)) =
      mem-add_dependents deps (added m dep) n d (inr (new, later))

reverse-mem :
    (dependencies m : Map Text (List Text)) (n d : Text)
    → Memᴰ n (dependents_of (reverse_dependencies dependencies m) d)
    → Memᴰ n (dependents_of m d) ⊎ DependsOn dependencies n d
unfolding reverse_dependencies
reverse-mem [] m n d here = inl here
reverse-mem ((node, deps) ∷ dependencies) m n d here =
    elim (reverse-mem dependencies (add_dependents node deps m) n d here) [
      | inl before ↦ elim (add_dependents-mem node deps m n d before) [
        | inl old ↦ inl old
        | inr (new, listed) ↦ inr (deps, Memᴰ.head (ap (λ k. (k, deps)) new), listed)
      ]
      | inr (ds, entry, listed) ↦ inr (ds, Memᴰ.tail entry, listed)
    ]

mem-reverse :
    (dependencies m : Map Text (List Text)) (n d : Text)
    → Memᴰ n (dependents_of m d) ⊎ DependsOn dependencies n d
    → Memᴰ n (dependents_of (reverse_dependencies dependencies m) d)
unfolding reverse_dependencies
mem-reverse [] m n d (inl old) = old
mem-reverse [] m n d (inr (_, entry, _)) = elim entry [ ]
mem-reverse ((node, deps) ∷ dependencies) m n d (inl old) =
    mem-reverse dependencies (add_dependents node deps m) n d
      (inl (mem-add_dependents node deps m n d (inl old)))
mem-reverse ((node, deps) ∷ dependencies) m n d (inr (ds, Memᴰ.head same, listed)) =
    let here = subst (Memᴰ d) (ap (λ p. p.1) same) listed in
    mem-reverse dependencies (add_dependents node deps m) n d
      (inl (mem-add_dependents node deps m n d (inr (ap (λ p. p.0) same, here))))
mem-reverse ((node, deps) ∷ dependencies) m n d (inr (ds, Memᴰ.tail entry, listed)) =
    mem-reverse dependencies (add_dependents node deps m) n d (inr (ds, entry, listed))

module _ (dependencies : Map Text (List Text)) (n d : Text) where
  pub dependents-DependsOn :
      Memᴰ n (dependents_of (reverse_dependencies dependencies []) d) → DependsOn dependencies n d
  unfolding dependents_of lookup
  dependents-DependsOn here = elim (reverse-mem dependencies [] n d here) [
    | inl nothing ↦ elim nothing [ ]
    | inr on ↦ on
  ]

  pub DependsOn-dependents :
      DependsOn dependencies n d → Memᴰ n (dependents_of (reverse_dependencies dependencies []) d)
  DependsOn-dependents on = mem-reverse dependencies [] n d (inr on)
