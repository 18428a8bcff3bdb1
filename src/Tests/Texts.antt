-- ===== src/Tests/Texts.antt =====
-- Tests of the text functions and of parsing.
use vibefeld.Prelude.{◌≡◌, refl, true, none, some, [], ◌∷◌, codes, ok, err}
use vibefeld.Text.{
  pos, negsuc, max_int, dot, atoi, itoa, split, split_n, last_index, is_blank, trim_space,
}
use vibefeld.Types.NodeId.{
  parse, empty_part, root_not_one, part_not_positive, whitespace, non_numeric_part,
}

atoi_examples :
    (atoi (codes "9223372036854775807") ≡ some (pos max_int))
    × (atoi (codes "9223372036854775808") ≡ none)
    × (atoi (codes "-5") ≡ some (negsuc 4))
    × (atoi (codes "+05") ≡ some (pos 5))
    × (atoi (codes "-") ≡ none)
unfolding atoi
atoi_examples = (refl, refl, refl, refl, refl)

split_examples :
    (split dot (codes "1.12.") ≡ codes "1" ∷ codes "12" ∷ [] ∷ [])
    × (split_n dot (codes "1.2.3") 2 ≡ codes "1" ∷ codes "2.3" ∷ [])
    × (last_index dot (codes "1.2.3") ≡ some 3)
    × (itoa 120 ≡ codes "120")
    × (is_blank (codes " \t") ≡ true)
unfolding split split_n last_index itoa is_blank
split_examples = (refl, refl, refl, refl, refl)

parse_examples :
    (parse (codes "1.2.10") ≡ ok (record { parts = 1 ∷ 2 ∷ 10 ∷ []; cached = codes "1.2.10" }))
    × (parse (codes "1..2") ≡ err empty_part)
    × (parse (codes "2.1") ≡ err root_not_one)
    × (parse (codes "1.0") ≡ err part_not_positive)
    × (parse (codes " 1") ≡ err whitespace)
    × (parse (codes "1.a") ≡ err non_numeric_part)
unfolding parse split trim_space atoi
parse_examples = (refl, refl, refl, refl, refl, refl)
