-- ===== src/Service/Allocate.antt =====
-- AllocateChildID of internal/service/proof.go finds the first child number that is free.
use vibefeld.Prelude.{
  ℕ, zero, suc, ◌+◌, ◌≤◌, ◌<◌, ◌≡◌, ◌≢◌, refl, sym, ◌∙◌, subst, inl, inr, Bool, true, false,
  Bool-cases, Option-cases, none, some, List, [], ◌∷◌, ◌++◌, Text, text_eq, text_eq_iff, ==_iff,
  eq_text, length, ◌==◌, if◌then◌else◌, Map, lookup, delete, lookup-delete, ok, arith,
}
use vibefeld.Text.{dot, itoa}
use vibefeld.Text.Decimal.{itoa-injective}
use vibefeld.Types.NodeId.{NodeId, to_string, render, child, child_of}
use vibefeld.Types.NodeId.Canonical.{render-injective}
use vibefeld.Node.{Timestamp}
use vibefeld.Taint.{Ptr}
use vibefeld.State.{State, get_node}
use vibefeld.Service.{Configured, found_or}
use vibefeld.Service.Refine.{free_child_from, allocate_child_id}

delete-le : (m : Map Text Ptr) (k : Text) → length (delete m k) ≤ length m
unfolding delete
delete-le [] k = omega arith
delete-le ((j, v) ∷ m) k = ground (arith, delete-le m k)

delete-lt :
    (m : Map Text Ptr) (k : Text) (p : Ptr) → lookup m k ≡ some p → length (delete m k) < length m
unfolding lookup delete
delete-lt [] k p e = absurd (cc)
delete-lt ((j, v) ∷ m) k p e = elim (Bool-cases (text_eq j k)) [
  | inl same ↦ rw same (omega (arith, delete-le m k))
  | inr other ↦ rw other (omega (arith, delete-lt m k p (rw other at e)))
]

append-cancel : {A : Type 0} (xs ys zs : List A) → xs ++ ys ≡ xs ++ zs → ys ≡ zs
append-cancel [] ys zs e = e
append-cancel (x ∷ xs) ys zs e = append-cancel xs ys zs (cc)

append-ne_nil : (s : Text) (c : ℕ) (t : Text) → text_eq (s ++ c ∷ t) [] ≡ false
append-ne_nil [] c t = refl
append-ne_nil (x ∷ s) c t = refl

module _ (parent_id : NodeId) where
  -- The string of the child with a number.
  abbrev key : ℕ → Text
  key n = to_string (child_of parent_id (suc n))

  no_parts : (xs : List ℕ) (n : ℕ) → (length (xs ++ n ∷ []) == 0) ≡ false
  no_parts [] n = refl
  no_parts (x ∷ xs) n = ground arith

  either_way : {A : Type 0} (b : Bool) (x : A) → (if b then x else x) ≡ x
  either_way true x = refl
  either_way false x = refl

  key-plain :
      (n : ℕ) → text_eq parent_id.cached [] ≡ true → key n ≡ render (parent_id.parts ++ suc n ∷ [])
  unfolding to_string child_of
  key-plain n plain = rw plain (rw (no_parts parent_id.parts (suc n)) (either_way _ _))

  key-cached :
      (n : ℕ) → text_eq parent_id.cached [] ≡ false → key n ≡ parent_id.cached ++ dot ∷ itoa (suc n)
  unfolding to_string child_of
  key-cached n cached = rw cached (
      rw (no_parts parent_id.parts (suc n))
        (rw (append-ne_nil parent_id.cached dot (itoa (suc n))) refl))

  -- Children with different numbers have different strings.
  key-injective : (m n : ℕ) → key m ≡ key n → m ≡ n
  key-injective m n e = elim (Bool-cases (text_eq parent_id.cached [])) [
    | inl plain ↦
        let parts =
          render-injective (parent_id.parts ++ suc m ∷ []) (parent_id.parts ++ suc n ∷ [])
            (sym (key-plain m plain) ∙ e ∙ key-plain n plain) in
        let last = append-cancel parent_id.parts (suc m ∷ []) (suc n ∷ []) parts in cc
    | inr cached ↦
        let rest =
          append-cancel parent_id.cached (dot ∷ itoa (suc m)) (dot ∷ itoa (suc n))
            (sym (key-cached m cached) ∙ e ∙ key-cached n cached) in
        omega (arith, itoa-injective (suc m) (suc n) (cc))
  ]

  module _ (sha256_hex : Text → Text) (cfg : Configured) (now : Timestamp) (st : State) where
    -- The first number from `k` on whose child is not there, at most `bound` numbers further.
    pub record IsFirst (k bound n : ℕ) : Type 0 where
      pub from : k ≤ n
      pub near : n ≤ k + bound
      pub free : lookup st.nodes (key n) ≡ none
      pub taken : (j : ℕ) → k ≤ j → j < n → lookup st.nodes (key j) ≢ none

    later-IsFirst :
        (k bound bound' n : ℕ) (p : Ptr)
        → bound' < bound
        → lookup st.nodes (key k) ≡ some p
        → IsFirst (suc k) bound' n
        → IsFirst k bound n
    later-IsFirst k bound bound' n p shorter there f = record {
      from = omega (arith, f.from);
      near = omega (arith, f.near);
      free = f.free;
      taken = λ j le lt missing. elim (Bool-cases (j == k)) [
        | inl same ↦
            let at = subst (λ i. lookup st.nodes (key i) ≡ none) ((==_iff j k).0 same) missing in
            absurd (cc)
        | inr other ↦ f.taken j (ground (arith, ==_iff j k)) lt missing
      ];
    }

    others :
        (k : ℕ) (m : Map Text Ptr)
        → ((j : ℕ) → k ≤ j → lookup m (key j) ≡ lookup st.nodes (key j))
        → (j : ℕ) → suc k ≤ j
        → lookup (delete m (key k)) (key j) ≡ lookup st.nodes (key j)
    others k m same j le = elim (Bool-cases (text_eq (key k) (key j))) [
      | inl e ↦ absurd (omega (arith, key-injective k j ((text_eq_iff (key k) (key j)).0 e)))
      | inr d ↦ (rw d at (lookup-delete m (key k) (key j))) ∙ same j (omega arith)
    ]

    -- `m` holds the nodes that may still be met.
    search_free :
        (fuel k : ℕ) (m : Map Text Ptr)
        → length m < fuel
        → ((j : ℕ) → k ≤ j → lookup m (key j) ≡ lookup st.nodes (key j))
        → (n : ℕ) × (free_child_from sha256_hex cfg now fuel st parent_id (suc k) ≡ some (suc n))
          × IsFirst k (length m) n
    unfolding free_child_from child
    search_free zero k m short same = absurd (omega arith)
    search_free (suc fuel) k m short same = elim (Option-cases (lookup st.nodes (key k))) [
      | inl missing ↦ (
        k,
        rw (missing, free_child_from) refl,
        record {
          from = omega arith;
          near = omega arith;
          free = missing;
          taken = λ j le lt. absurd (omega arith);
        },
      )
      | inr (p, there) ↦
          let shorter = delete-lt m (key k) p (same k (omega arith) ∙ there) in
          let (n, found, first) =
            search_free fuel (suc k) (delete m (key k)) (omega arith) (others k m same) in
          (
            n,
            rw (there, free_child_from) found,
            later-IsFirst k (length m) (length (delete m (key k))) n p shorter there first,
          )
    ]

    -- AllocateChildID, of a parent that is there, returns the child with the first number that is free,
    -- which is at most one more than there are nodes.
    pub allocate_child_id-IsFirst :
        (p : Ptr)
        → get_node st parent_id ≡ some p
        → (n : ℕ) × (allocate_child_id sha256_hex cfg now parent_id (ok st)
            ≡ ok (some (child_of parent_id (suc n))))
          × IsFirst 0 (length st.nodes) n
    unfolding allocate_child_id child
    allocate_child_id-IsFirst p there =
        let (n, found, first) =
          search_free (suc (length st.nodes)) 0 st.nodes (omega arith) (λ j le. refl) in
        (n, rw (there, found_or) (rw found refl), first)
