-- ===== src/Types/NodeId.antt =====
-- internal/types/id.go: the hierarchical identifier of a proof node. A `NodeID` is built by `parse`
-- and `child` alone, which admit positive parts only, so the parts are natural numbers here.
pub mod Canonical
pub mod Ancestry
pub mod Order
pub mod Parsing
use vibefeld.Prelude.{
  ℕ, zero, suc, ◌+◌, ◌-◌, ◌≡◌, refl, Bool, true, false, ◌&&◌, ◌||◌, not, Option, none, some, List,
  [], ◌∷◌, ◌++◌, map, Text, text_eq, codes, ltb, leb, ◌==◌, if◌then◌else◌, length, take, any,
  Result, ok, err, fail_if, ◌>>=◌, ◌>>◌,
}
use vibefeld.Text.{ℤ, pos, negsuc, dot, atoi, itoa, trim_space, split, split_n, join, last_index}

pub record NodeId : Type 0 where
  pub parts : List ℕ
  pub cached : Text

pub data IdError : Type 0 where
  empty_string whitespace empty_part non_numeric_part part_not_positive root_not_one : IdError
  child_not_positive not_a_string : IdError

-- `NodeID{}`
abbrev pub zero_id : NodeId
zero_id = record { parts = []; cached = [] }

-- One round of the loop that reads the parts.
parse_part : Text → Result IdError ℕ
parse_part part = elim (atoi part) [
  | none ↦ err non_numeric_part
  | some (pos zero) ↦ err part_not_positive
  | some (pos (suc n)) ↦ ok (suc n)
  | some (negsuc n) ↦ err part_not_positive
]

unfoldable pub parse_parts : List Text → Result IdError (List ℕ)
unfolding parse_part
parse_parts [] = ok []
parse_parts (p ∷ ps) = let rest = parse_parts ps in do n ← parse_part p; ns ← rest; ok (n ∷ ns)

abbrev pub head_is_one : List ℕ → Bool
head_is_one [] = false
head_is_one (n ∷ _) = n == 1

-- `Parse`
unfoldable pub parse : Text → Result IdError NodeId
unfolding parse_parts
parse s = do
  fail_if (text_eq s []) empty_string
  fail_if (not (text_eq (trim_space s) s) || text_eq (trim_space s) []) whitespace
  fail_if (any (λ part. text_eq part []) (split dot s)) empty_part
  int_parts ← parse_parts (split dot s)
  fail_if (not (head_is_one int_parts)) root_not_one
  ok (record { parts = int_parts; cached = s })

-- The text that the parts spell.
unfoldable pub render : List ℕ → Text
render parts = join dot (map itoa parts)

-- `String`
unfoldable pub to_string : NodeId → Text
to_string n =
    if length n.parts == 0
    then []
    else if not (text_eq n.cached [])
    then n.cached
    else render n.parts

-- `s[:len(s)-1]`
abbrev pub drop_last {ℓ} : {A : Type ℓ} → List A → List A
drop_last [] = []
drop_last (x ∷ []) = []
drop_last (x ∷ y ∷ xs) = x ∷ drop_last (y ∷ xs)

-- The part of a cached text that its last dot ends; empty where there is none past the start.
abbrev parent_cached : Text → Text
parent_cached cached = if text_eq cached [] then [] else elim (last_index dot cached) [
  | none ↦ []
  | some zero ↦ []
  | some (suc i) ↦ take (suc i) cached
]

-- `Parent`; `none` for the second result `false`
unfoldable pub parent : NodeId → Option NodeId
parent n =
    if leb (length n.parts) 1
    then none
    else some (record { parts = drop_last n.parts; cached = parent_cached n.cached })

-- The identifier that `Child` builds.
unfoldable pub child_of : NodeId → ℕ → NodeId
child_of n num = record {
  parts = n.parts ++ num ∷ [];
  cached =
      if not (text_eq n.cached [])
      then n.cached ++ dot ∷ itoa num
      else render (n.parts ++ num ∷ []);
}

-- `Child`
unfoldable pub child : NodeId → ℤ → Result IdError NodeId
unfolding child_of
child n (pos zero) = err child_not_positive
child n (pos (suc num)) = ok (child_of n (suc num))
child n (negsuc num) = err child_not_positive

-- `IsRoot`
unfoldable pub is_root : NodeId → Bool
is_root n = (length n.parts == 1) && head_is_one n.parts

-- `Depth`
abbrev pub depth : NodeId → ℕ
depth n = length n.parts

-- The loop over the first `len(xs)` parts: `true` when none differs.
unfoldable pub agree : List ℕ → List ℕ → Bool
agree [] ys = true
agree (x ∷ xs) [] = true
agree (x ∷ xs) (y ∷ ys) = let rest = agree xs ys in if x == y then rest else false

-- `IsAncestorOf`
unfoldable pub is_ancestor_of : NodeId → NodeId → Bool
unfolding agree
is_ancestor_of n other =
    if leb (length other.parts) (length n.parts) then false else agree n.parts other.parts

-- `Equal`
unfoldable pub equal : NodeId → NodeId → Bool
unfolding agree
equal n other =
    if not (length n.parts == length other.parts) then false else agree n.parts other.parts

less_loop : List ℕ → List ℕ → Bool
less_loop [] ys = ltb 0 (length ys)
less_loop (x ∷ xs) [] = false
less_loop (x ∷ xs) (y ∷ ys) =
    let rest = less_loop xs ys in if ltb x y then true else if ltb y x then false else rest

-- `Less`. When the loop has found no difference it compares the lengths, which is to ask whether
-- parts of `other` are left.
unfoldable pub less : NodeId → NodeId → Bool
unfolding less_loop
less n other = less_loop n.parts other.parts

-- The length of the common prefix.
unfoldable pub common_len : List ℕ → List ℕ → ℕ
common_len [] ys = 0
common_len (x ∷ xs) [] = 0
common_len (x ∷ xs) (y ∷ ys) = let rest = common_len xs ys in if x == y then suc rest else 0

abbrev ancestor_cached : Text → ℕ → Text
ancestor_cached cached k =
    if text_eq cached []
    then []
    else if ltb k (length (split_n dot cached (k + 1)))
    then join dot (take k (split_n dot cached (k + 1)))
    else []

-- `CommonAncestor`
unfoldable pub common_ancestor : NodeId → NodeId → NodeId
unfolding common_len
common_ancestor n other =
    let k = common_len n.parts other.parts in
    if k == 0
    then zero_id
    else if (k == length n.parts) && not (text_eq n.cached [])
    then record { parts = take k n.parts; cached = n.cached }
    else if (k == length other.parts) && not (text_eq other.cached [])
    then record { parts = take k n.parts; cached = other.cached }
    else record { parts = take k n.parts; cached = ancestor_cached n.cached k }

-- `ToStringSlice`
unfoldable pub to_string_slice : List NodeId → List Text
to_string_slice [] = []
to_string_slice (id ∷ ids) = to_string id ∷ to_string_slice ids

abbrev quote : ℕ
quote = 0x22

-- `MarshalJSON`: no character of an identifier is escaped in JSON.
unfoldable pub marshal_json : NodeId → Text
unfolding to_string
marshal_json n = quote ∷ to_string n ++ quote ∷ []

-- `data[len(data)-1] != '"'` and `data[1:len(data)-1]`, behind a first quote.
abbrev unquote : Text → Option Text
unquote [] = none
unquote (c ∷ []) = if c == quote then some [] else none
unquote (c ∷ d ∷ s) = elim (unquote (d ∷ s)) [ none ↦ none | some t ↦ some (c ∷ t) ]

parse_unquoted : Option Text → Result IdError NodeId
parse_unquoted none = err not_a_string
parse_unquoted (some s) = parse s

-- `UnmarshalJSON`, with the identifier that it overwrites.
unfoldable pub unmarshal_json : NodeId → Text → Result IdError NodeId
unfolding parse_unquoted parse
unmarshal_json n [] = err not_a_string
unmarshal_json n (c ∷ data') =
    if text_eq (c ∷ data') (codes "null")
    then ok n
    else if text_eq (c ∷ data') (quote ∷ quote ∷ [])
    then ok zero_id
    else if not (c == quote)
    then err not_a_string
    else parse_unquoted (unquote data')
