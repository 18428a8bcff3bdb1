-- ===== src/Citations.antt =====
-- internal/lemma/extcite.go: the citations `external:NAME` in a statement. The scan finds what the
-- pattern external:([a-zA-Z0-9][a-zA-Z0-9_-]*) matches, leftmost first and as long as possible.
use vibefeld.Prelude.{
  ℕ, zero, suc, Bool, ◌&&◌, ◌||◌, Option, none, some, List, [], ◌∷◌, Text, text_eq, codes, leb,
  ◌==◌, if◌then◌else◌, length, any, values,
}
use vibefeld.State.{State, External}

abbrev is_alnum : ℕ → Bool
is_alnum c = leb b'a' c && leb c b'z' || leb b'A' c && leb c b'Z' || leb b'0' c && leb c b'9'

abbrev is_name_part : ℕ → Bool
is_name_part c = is_alnum c || c == b'_' || c == b'-'

-- The longest name at the start, and what follows it.
take_name : Text → Text × Text
take_name [] = ([], [])
take_name (c ∷ s) =
    let (name, rest) = take_name s in if is_name_part c then (c ∷ name, rest) else ([], c ∷ s)

-- What follows a prefix.
abbrev after_prefix : Text → Text → Option Text
after_prefix [] s = some s
after_prefix (p ∷ ps) [] = none
after_prefix (p ∷ ps) (c ∷ s) = let rest = after_prefix ps s in if p == c then rest else none

-- A name needs a first letter or digit.
abbrev name_at : Option Text → Option (Text × Text)
name_at none = none
name_at (some []) = none
name_at (some (c ∷ s)) = if is_alnum c then some (take_name (c ∷ s)) else none

-- The names of all matches, on fuel: each round reads a character at least.
unfoldable pub scan_citations : ℕ → Text → List Text
unfolding take_name
scan_citations zero s = []
scan_citations (suc fuel) [] = []
scan_citations (suc fuel) (c ∷ s) = elim (name_at (after_prefix (codes "external:") (c ∷ s))) [
  | none ↦ scan_citations fuel s
  | some (name, rest) ↦ name ∷ scan_citations fuel rest
]

-- The loop that drops repetitions, with `seen` as the list of its keys.
unfoldable pub dedup : List Text → List Text → List Text
dedup seen [] = []
dedup seen (name ∷ names) =
    let first = name ∷ dedup (name ∷ seen) names in
    let again = dedup seen names in if any (λ s. text_eq s name) seen then again else first

-- `ParseExtCitations`
unfoldable pub parse_ext_citations : Text → List Text
unfolding scan_citations dedup
parse_ext_citations text = dedup [] (scan_citations (length text) text)

-- `GetExternalByName`, whether it finds one.
abbrev pub has_external_named : State → Text → Bool
has_external_named s name = any (λ (e : External). text_eq e.name name) (values s.externals)

-- The loop of `ValidateExtCitations`: the first name that is missing.
unfoldable pub first_missing : State → List Text → Option Text
first_missing s [] = none
first_missing s (name ∷ names) =
    let rest = first_missing s names in if has_external_named s name then rest else some name

-- `ValidateExtCitations`, of a state that is there: the name in its error, if any.
unfoldable pub validate_ext_citations : Text → State → Option Text
unfolding parse_ext_citations first_missing
validate_ext_citations statement s = first_missing s (parse_ext_citations statement)

-- The loop of `CollectMissingExtCitations`.
unfoldable pub missing_of : State → List Text → List Text
missing_of s [] = []
missing_of s (name ∷ names) =
    let rest = missing_of s names in if has_external_named s name then rest else name ∷ rest

-- `CollectMissingExtCitations`
unfoldable pub collect_missing_ext_citations : Text → State → List Text
unfolding parse_ext_citations missing_of
collect_missing_ext_citations statement s = missing_of s (parse_ext_citations statement)
