-- ===== src/Text.antt =====
-- What the program uses of Go's `strings` and `strconv`, over texts as lists of code points.
pub mod Decimal
pub mod Split
pub mod Trim
pub mod Sort
use vibefeld.Prelude.{
  ℕ, zero, suc, ◌+◌, ◌-◌, ◌*◌, ◌/◌, ◌%◌, ◌^◌, ◌≡◌, refl, Bool, true, false, ◌&&◌, ◌||◌, not, Option,
  none, some, List, [], ◌∷◌, ◌++◌, Text, text_eq, codes, ltb, leb, ◌==◌, if◌then◌else◌, any,
}
use mathlib.Core.List.{reverse}

-- A signed integer; `negsuc n` is -(n + 1).
pub data ℤ : Type 0 where
  pos : ℕ → ℤ
  negsuc : ℕ → ℤ

-- The largest `int`.
abbrev pub max_int : ℕ
max_int = 2 ^ 63 - 1

abbrev pub dot : ℕ
dot = b'.'

abbrev pub is_digit : ℕ → Bool
is_digit c = leb b'0' c && leb c b'9'

-- The value of a run of digits behind the digits read so far.
unfoldable pub digits_value : Text → ℕ → Option ℕ
digits_value [] n = some n
digits_value (c ∷ s) n =
    let rest = digits_value s (n * 10 + (c - b'0')) in if is_digit c then rest else none

unsigned : Text → Option ℕ
unsigned [] = none
unsigned (c ∷ s) = digits_value (c ∷ s) 0

as_positive : Option ℕ → Option ℤ
as_positive none = none
as_positive (some n) = if leb n max_int then some (pos n) else none

as_negative : Option ℕ → Option ℤ
as_negative none = none
as_negative (some zero) = some (pos 0)
as_negative (some (suc n)) = if leb n max_int then some (negsuc n) else none

-- `strconv.Atoi`: an optional sign and at least one digit, within the range of `int`.
unfoldable pub atoi : Text → Option ℤ
unfolding unsigned as_positive as_negative digits_value
atoi [] = none
atoi (c ∷ s) =
    if c == b'+'
    then as_positive (unsigned s)
    else if c == b'-'
    then as_negative (unsigned s)
    else as_positive (unsigned (c ∷ s))

-- The digits of `n`, written in front of `out`.
unfoldable pub itoa_loop : ℕ → ℕ → Text → Text
itoa_loop zero n out = out
itoa_loop (suc fuel) n out =
    let rest = itoa_loop fuel (n / 10) ((b'0' + n % 10) ∷ out) in
    if ltb n 10 then (b'0' + n) ∷ out else rest

-- `strconv.Itoa` of a number that is not negative.
unfoldable pub itoa : ℕ → Text
unfolding itoa_loop
itoa n = itoa_loop (suc n) n []

-- `unicode.IsSpace`.
unfoldable pub is_space : ℕ → Bool
is_space c =
    (leb 9 c && leb c 13)
    || c == 32
    || c == 0x85
    || c == 0xa0
    || c == 0x1680
    || (leb 0x2000 c && leb c 0x200a)
    || c == 0x2028
    || c == 0x2029
    || c == 0x202f
    || c == 0x205f
    || c == 0x3000

pub trim_left : Text → Text
trim_left [] = []
trim_left (c ∷ s) = let rest = trim_left s in if is_space c then rest else c ∷ s

-- `strings.TrimSpace`.
unfoldable pub trim_space : Text → Text
unfolding trim_left is_space
trim_space s = reverse (trim_left (reverse (trim_left s)))

-- `strings.TrimSpace(s) == ""`.
unfoldable pub is_blank : Text → Bool
unfolding trim_space
is_blank s = text_eq (trim_space s) []

cons_head : ℕ → List Text → List Text
cons_head c [] = (c ∷ []) ∷ []
cons_head c (p ∷ ps) = (c ∷ p) ∷ ps

-- `strings.Split` at a one-character separator.
unfoldable pub split : ℕ → Text → List Text
unfolding cons_head
split sep [] = [] ∷ []
split sep (c ∷ s) = let rest = split sep s in if c == sep then [] ∷ rest else cons_head c rest

-- `strings.SplitN`: at most `n` parts, the last of them unsplit.
unfoldable pub split_n : ℕ → Text → ℕ → List Text
unfolding cons_head
split_n sep s zero = []
split_n sep s (suc zero) = s ∷ []
split_n sep [] (suc (suc n)) = [] ∷ []
split_n sep (c ∷ s) (suc (suc n)) =
    let cut = split_n sep s (suc n) in
    let rest = split_n sep s (suc (suc n)) in if c == sep then [] ∷ cut else cons_head c rest

-- `strings.Join` with a one-character separator.
unfoldable pub join : ℕ → List Text → Text
join sep [] = []
join sep (p ∷ []) = p
join sep (p ∷ q ∷ ps) = p ++ sep ∷ join sep (q ∷ ps)

-- `strings.Join` with a longer separator.
unfoldable pub join_with : Text → List Text → Text
join_with sep [] = []
join_with sep (p ∷ []) = p
join_with sep (p ∷ q ∷ ps) = p ++ sep ++ join_with sep (q ∷ ps)

-- `strings.LastIndex` of a one-character separator.
unfoldable pub last_index : ℕ → Text → Option ℕ
last_index sep [] = none
last_index sep (c ∷ s) = elim (last_index sep s) [
  | some i ↦ some (suc i)
  | none ↦ if c == sep then some 0 else none
]
