-- ===== src/Types/NodeId/Parsing.antt =====
-- `Parse`, `String` and the JSON form (internal/types/id.go).
use vibefeld.Prelude.{
  ℕ, zero, suc, ◌<◌, ◌≡◌, ◌≢◌, refl, sym, ◌∙◌, ap, subst, true, false, inl, inr, List, [], ◌∷◌,
  ◌++◌, map, arith, length, ok, Text, text_eq, text_eq_iff, List-cases, All, All-append, any,
}
use vibefeld.Text.Trim.{NotSpace, trim_space-id, digit-NotSpace, dot-NotSpace}
use vibefeld.Text.{atoi, itoa, dot, split, join, is_space}
use vibefeld.Text.Decimal.{
  IsDigit, atoi-itoa, atoi-leading_zero, itoa-Lacks, itoa-ne-nil, itoa-digits,
}
use vibefeld.Text.Split.{split-join, split_of_Lacks}
use vibefeld.Types.NodeId.{
  NodeId, parse, parse_part, parse_parts, head_is_one, render, to_string, equal,
}
use vibefeld.Types.NodeId.Ancestry.{equal-parts}
use vibefeld.Types.NodeId.Canonical.{
  IsPart, IsCanonical, map-itoa-Lacks, render-ne-nil, to_string-render,
}

parse_part-itoa : (n : ℕ) → IsPart n → parse_part (itoa n) ≡ ok n
unfolding parse_part
parse_part-itoa zero h = absurd (omega arith)
parse_part-itoa (suc n) h = ground (arith, atoi-itoa (suc n) h.1)

parse_parts-map : (ns : List ℕ) → All IsPart ns → parse_parts (map itoa ns) ≡ ok ns
unfolding parse_parts
parse_parts-map [] h = refl
parse_parts-map (n ∷ ns) h = rw (parse_part-itoa n h.0, parse_parts-map ns h.1)

parse_parts-positive : (ps : List Text) (ns : List ℕ) → parse_parts ps ≡ ok ns → All (λ n. 0 < n) ns
unfolding parse_parts parse_part
parse_parts-positive [] [] h = tt
parse_parts-positive [] (n ∷ ns) h = cc
parse_parts-positive (p ∷ ps) [] h = tt
parse_parts-positive (p ∷ ps) (n ∷ ns) h = (ground arith, parse_parts-positive ps ns (ground arith))

-- An identifier that `Parse` returns spells the text that was parsed, its first part is 1, and all
-- its parts are positive.
pub parse_sound :
    (s : Text) (n : NodeId)
    → parse s ≡ ok n
    → (to_string n ≡ s) × (head_is_one n.parts ≡ true) × All (λ k. 0 < k) n.parts
unfolding parse to_string
parse_sound s n h =
    (ground arith, ground arith, parse_parts-positive (split dot s) n.parts (ground arith))

map-itoa-not_empty : (ns : List ℕ) → any (λ part. text_eq part []) (map itoa ns) ≡ false
map-itoa-not_empty [] = refl
map-itoa-not_empty (n ∷ ns) =
    ground (arith, map-itoa-not_empty ns, itoa-ne-nil n, text_eq_iff (itoa n) [])

digits-NotSpace : (s : Text) → All IsDigit s → All NotSpace s
digits-NotSpace [] h = tt
digits-NotSpace (c ∷ s) h = (digit-NotSpace c h.0, digits-NotSpace s h.1)

join-NotSpace : (ns : List ℕ) → All NotSpace (join dot (map itoa ns))
unfolding join
join-NotSpace [] = tt
join-NotSpace (n ∷ []) = digits-NotSpace (itoa n) (itoa-digits n)
join-NotSpace (n ∷ m ∷ ns) =
    All-append NotSpace (itoa n) _ (digits-NotSpace (itoa n) (itoa-digits n))
      (dot-NotSpace, join-NotSpace (m ∷ ns))

render-NotSpace : (ns : List ℕ) → All NotSpace (render ns)
unfolding render
render-NotSpace ns = join-NotSpace ns

split-render : (n : ℕ) (ns : List ℕ) → split dot (render (n ∷ ns)) ≡ map itoa (n ∷ ns)
unfolding render
split-render n ns = split-join dot (map itoa (n ∷ ns)) (λ e. cc) (map-itoa-Lacks (n ∷ ns))

parse-render :
    (ns : List ℕ)
    → All IsPart (1 ∷ ns)
    → parse (render (1 ∷ ns)) ≡ ok (record { parts = 1 ∷ ns; cached = render (1 ∷ ns) })
unfolding parse
parse-render ns h = ground (
  arith,
  text_eq_iff (render (1 ∷ ns)) [],
  render-ne-nil 1 ns,
  trim_space-id (render (1 ∷ ns)) (render-NotSpace (1 ∷ ns)),
  text_eq_iff (render (1 ∷ ns)) (render (1 ∷ ns)),
  split-render 1 ns,
  map-itoa-not_empty (1 ∷ ns),
  parse_parts-map (1 ∷ ns) h,
)

-- `Parse` reads the string of a canonical identifier that starts at the root back as an identifier
-- with the same parts and the same string.
pub parse-to_string :
    (n : NodeId)
    → IsCanonical n
    → head_is_one n.parts ≡ true
    → (m : NodeId) × (parse (to_string n) ≡ ok m)
      × (m.parts ≡ n.parts)
      × (to_string m ≡ to_string n)
parse-to_string n h root = elim (List-cases n.parts) [
  | inl e ↦ absurd (cc)
  | inr (k, ns, e) ↦
      let one : k ≡ 1 = ground arith in
      let shape = e ∙ ap (λ j. j ∷ ns) one in
      let text = to_string-render n h ∙ ap render shape in
      let read = parse-render ns (subst (All IsPart) shape h.in_range) in
      (
        record { parts = 1 ∷ ns; cached = render (1 ∷ ns) },
        ap parse text ∙ read,
        sym shape,
        (parse_sound (render (1 ∷ ns)) _ read).0 ∙ sym text,
      )
]

abbrev aliased : ℕ → Text
aliased n = b'1' ∷ dot ∷ b'0' ∷ itoa n

aliased-NotSpace : (n : ℕ) → All NotSpace (aliased n)
unfolding is_space
aliased-NotSpace n = (refl, (refl, (refl, digits-NotSpace (itoa n) (itoa-digits n))))

split-aliased : (n : ℕ) → split dot (aliased n) ≡ (b'1' ∷ []) ∷ (b'0' ∷ itoa n) ∷ []
unfolding split
split-aliased n = rw (split_of_Lacks dot (itoa n) (itoa-Lacks n))

parse_part-zeroed : (n : ℕ) → IsPart n → parse_part (b'0' ∷ itoa n) ≡ ok n
unfolding parse_part
parse_part-zeroed zero h = absurd (omega arith)
parse_part-zeroed (suc n) h = ground (arith, atoi-leading_zero (suc n) h.1)

parse_part-one : parse_part (b'1' ∷ []) ≡ ok 1
unfolding parse_part atoi
parse_part-one = refl

parse_parts-aliased :
    (n : ℕ) → IsPart n → parse_parts ((b'1' ∷ []) ∷ (b'0' ∷ itoa n) ∷ []) ≡ ok (1 ∷ n ∷ [])
unfolding parse_parts
parse_parts-aliased n h = rw (parse_part-one, parse_part-zeroed n h)

itoa-one : itoa 1 ≡ b'1' ∷ []
unfolding itoa
itoa-one = refl

render-two : (n : ℕ) → render (1 ∷ n ∷ []) ≡ b'1' ∷ dot ∷ itoa n
unfolding render join
render-two n = ap (λ t. t ++ dot ∷ itoa n) itoa-one

plain-ne-aliased : (n : ℕ) → render (1 ∷ n ∷ []) ≢ aliased n
plain-ne-aliased n e = absurd (omega (arith, ap length (sym (render-two n) ∙ e)))

parse-aliased :
    (n : ℕ) → IsPart n → parse (aliased n) ≡ ok (record { parts = 1 ∷ n ∷ []; cached = aliased n })
unfolding parse
parse-aliased n h = ground (
  arith,
  trim_space-id (aliased n) (aliased-NotSpace n),
  text_eq_iff (aliased n) (aliased n),
  split-aliased n,
  parse_parts-aliased n h,
)

-- For every part number `n` there are two texts that `Parse` accepts, `1.n` and `1.0n`, whose
-- identifiers are `Equal` and have different strings, so that they are different keys of the maps.
pub equal_with_two_strings :
    (n : ℕ)
    → IsPart n
    → (a : NodeId) × (b : NodeId) × (parse (render (1 ∷ n ∷ [])) ≡ ok a)
      × (parse (b'1' ∷ dot ∷ b'0' ∷ itoa n) ≡ ok b)
      × (equal a b ≡ true)
      × (to_string a ≢ to_string b)
equal_with_two_strings n h =
    let plain = parse-render (n ∷ []) ((omega arith, omega arith), (h, tt)) in
    let zeroed = parse-aliased n h in
    (
      record { parts = 1 ∷ n ∷ []; cached = render (1 ∷ n ∷ []) },
      record { parts = 1 ∷ n ∷ []; cached = aliased n },
      plain,
      zeroed,
      (equal-parts _ _).1 refl,
      λ e. plain-ne-aliased n (sym (parse_sound _ _ plain).0 ∙ e ∙ (parse_sound _ _ zeroed).0),
    )
