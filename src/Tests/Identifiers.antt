-- ===== src/Tests/Identifiers.antt =====
-- Examples for the identifiers and the texts that they are written in.
use vibefeld.Prelude.{ℕ, ◌≡◌, ◌≢◌, ◌↔◌, refl, true, some, List, [], ◌∷◌, ◌++◌, codes, arith, ok}
use vibefeld.Text.{pos, dot, atoi, itoa, split, join, trim_space}
use vibefeld.Text.Decimal.{atoi-itoa}
use vibefeld.Text.Split.{split-join}
use vibefeld.Types.NodeId.{NodeId, to_string, parse, is_ancestor_of, equal, common_ancestor, render}
use vibefeld.Types.NodeId.Ancestry.{Begins, is_ancestor_of_iff, common_ancestor_lowest}
use vibefeld.Types.NodeId.Parsing.{parse-to_string, equal_with_two_strings}
use vibefeld.Tests.Sample.{id1, id11, id111, id111-IsCanonical}

atoi-itoa_example : atoi (itoa 120) ≡ some (pos 120)
atoi-itoa_example = atoi-itoa 120 (omega arith)

split-join_example :
    split dot (join dot (codes "1" ∷ codes "12" ∷ [])) ≡ codes "1" ∷ codes "12" ∷ []
split-join_example =
    split-join dot (codes "1" ∷ codes "12" ∷ []) (λ e. cc)
      (((λ e. cc), tt), (((λ e. cc), ((λ e. cc), tt)), tt))

is_ancestor_of_iff_example :
    (is_ancestor_of id1 id111 ≡ true)
    ↔ ((k : ℕ) × (rest : List ℕ) × (id111.parts ≡ id1.parts ++ k ∷ rest))
is_ancestor_of_iff_example = is_ancestor_of_iff id1 id111

common_ancestor_lowest_example :
    Begins id1.parts (common_ancestor id11 id111).parts
    ↔ (Begins id1.parts id11.parts × Begins id1.parts id111.parts)
common_ancestor_lowest_example = common_ancestor_lowest id11 id111 id1

parsed_111 : parse (codes "1.1.1") ≡ ok id111
unfolding parse trim_space split atoi
parsed_111 = refl

parse-to_string_example :
    (m : NodeId) × (parse (to_string id111) ≡ ok m)
    × (m.parts ≡ id111.parts)
    × (to_string m ≡ to_string id111)
parse-to_string_example = parse-to_string id111 id111-IsCanonical refl

equal_with_two_strings_example :
    (a : NodeId) × (b : NodeId) × (parse (render (1 ∷ 2 ∷ [])) ≡ ok a)
    × (parse (b'1' ∷ dot ∷ b'0' ∷ itoa 2) ≡ ok b)
    × (equal a b ≡ true)
    × (to_string a ≢ to_string b)
equal_with_two_strings_example = equal_with_two_strings 2 (omega arith, omega arith)
