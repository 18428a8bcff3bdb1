-- ===== src/Cycle/Terminates.antt =====
-- The depth-first search of internal/cycle/cycle.go ends: each node that it goes into was white
-- and is coloured, and it goes into known nodes only.
use vibefeld.Prelude.{
  ℕ, zero, suc, ◌+◌, ◌≤◌, ◌<◌, ◌≡◌, refl, inl, inr, Bool, Bool-cases, Option, none, some, List, [],
  ◌∷◌, ◌++◌, map, Text, text_eq, text_eq_iff, if◌then◌else◌, length, insert, lookup-insert, eq_text,
  arith,
}
use mathlib.Core.List.{Memᴰ}
use vibefeld.Types.NodeId.{NodeId, to_string}
use vibefeld.Cycle.{
  DependencyProvider, Color, white, gray, black, Colors, color_of, Outcome, out_of_fuel, found,
  clear, continue, visit, explore, enter, seek,
}

-- What the search takes for granted of a provider: it reads the identifier's string only, and the
-- nodes that it knows are listed.
pub record IsProvider (provider : DependencyProvider) : Type 0 where
  pub by_string :
      (a b : NodeId)
      → to_string a ≡ to_string b
      → provider.get_node_dependencies a ≡ provider.get_node_dependencies b
  pub listed :
      (a : NodeId) (deps : List NodeId)
      → provider.get_node_dependencies a ≡ some deps
      → Memᴰ (to_string a) (map to_string provider.all_node_ids)

-- A colour is read back, and the other nodes keep theirs.
pub color_of-insert :
    (m : Colors) (k : Text) (c : Color) (j : Text)
    → color_of (insert m k c) j ≡ (if text_eq k j then c else color_of m j)
unfolding color_of
color_of-insert m k c j = ground (arith, lookup-insert m k c j)

is_white : Color → ℕ
is_white white = 1
is_white _ = 0

-- How many of the texts are white.
pub whites : Colors → List Text → ℕ
unfolding is_white
whites m [] = 0
whites m (s ∷ ss) = is_white (color_of m s) + whites m ss

module _ (m : Colors) (k : Text) (c : Color) (dark : is_white c ≡ 0) where
  whites-insert_le : (ss : List Text) → whites (insert m k c) ss ≤ whites m ss
  unfolding whites is_white
  whites-insert_le [] = omega arith
  whites-insert_le (s ∷ ss) = ground (arith, color_of-insert m k c s, whites-insert_le ss)

  whites-insert_lt :
      (ss : List Text) → color_of m k ≡ white → Memᴰ k ss → whites (insert m k c) ss < whites m ss
  unfolding whites is_white
  whites-insert_lt _ w (Memᴰ.head {x} {xs} e) =
      ground (arith, color_of-insert m k c x, whites-insert_le xs, text_eq_iff k x)
  whites-insert_lt _ w (Memᴰ.tail {x} {xs} later) =
      ground (arith, color_of-insert m k c x, whites-insert_lt xs w later)

-- The search ended, with at most `n` of the texts white.
abbrev pub Ends : List Text → ℕ → Outcome → Type 0
Ends ss n out_of_fuel = ⊥
Ends ss n (found m path) = whites m ss ≤ n
Ends ss n (clear m) = whites m ss ≤ n

module _ (ss : List Text) where
  Ends-le : (o : Outcome) (a b : ℕ) → a ≤ b → Ends ss a o → Ends ss b o
  Ends-le out_of_fuel a b h e = e
  Ends-le (found m path) a b h e = omega arith
  Ends-le (clear m) a b h e = omega arith

  Ends-continue :
      (rest : Colors → Outcome) (o : Outcome) (n : ℕ)
      → ((m : Colors) → whites m ss ≤ n → Ends ss n (rest m))
      → Ends ss n o
      → Ends ss n (continue rest o)
  Ends-continue rest out_of_fuel n h e = e
  Ends-continue rest (found m path) n h e = e
  Ends-continue rest (clear m) n h e = h m e

  Ends-visit :
      (skip : NodeId → Bool) (call : NodeId → Colors → Outcome) (n : ℕ)
      → ((dep : NodeId) (m : Colors) → whites m ss ≤ n → Ends ss n (call dep m))
      → (deps : List NodeId) (m : Colors) → whites m ss ≤ n
      → Ends ss n (visit skip call deps m)
  unfolding visit
  Ends-visit skip call n h [] m le = le
  Ends-visit skip call n h (dep ∷ deps) m le = elim (Bool-cases (skip dep)) [
    | inl e ↦ rw e (Ends-visit skip call n h deps m le)
    | inr e ↦ rw e (
        Ends-continue (visit skip call deps) (call dep m) n (Ends-visit skip call n h deps)
          (h dep m le))
  ]

module _ (close : NodeId → List NodeId → List NodeId) (skip : NodeId → Bool)
    (provider : DependencyProvider) (lawful : IsProvider provider) where
  abbrev known : List Text
  known = map to_string provider.all_node_ids

  -- A call that ends as long as fewer nodes are white than this.
  abbrev Terminating : ℕ → (NodeId → Colors → List NodeId → Outcome) → Type 0
  Terminating fuel call =
      (id : NodeId) (m : Colors) (path : List NodeId)
      → whites m known < fuel
      → Ends known (whites m known) (call id m path)

  module _ (fuel : ℕ) (call : NodeId → Colors → List NodeId → Outcome)
      (terminating : Terminating fuel call) (id : NodeId) (m : Colors) (path : List NodeId)
      (enough : whites m known < suc fuel) where
    Ends-explore :
        (o : Option (List NodeId))
        → provider.get_node_dependencies id ≡ o
        → color_of m (to_string id) ≡ white
        → Ends known
            (whites m known)
            (explore close skip provider call id (insert m (to_string id) gray) path o)
    unfolding explore is_white
    Ends-explore none e w = omega (
      arith,
      whites-insert_le m (to_string id) gray refl known,
      whites-insert_le (insert m (to_string id) gray) (to_string id) black refl known,
    )
    Ends-explore (some deps) e w =
        let left = insert m (to_string id) gray in
        let fewer = whites-insert_lt m (to_string id) gray refl known w (lawful.listed id deps e) in
        let inner = λ (dep : NodeId) (now : Colors). call dep now (path ++ id ∷ []) in
        Ends-le known _ (whites left known) (whites m known) (omega arith) (
          Ends-continue known (λ m'. clear (insert m' (to_string id) black))
            (visit skip inner deps left) (whites left known)
            (λ m' le. omega (arith, whites-insert_le m' (to_string id) black refl known))
            (Ends-visit known skip inner (whites left known)
              (λ dep m' le.
                Ends-le known (inner dep m') (whites m' known) (whites left known) le
                  (terminating dep m' (path ++ id ∷ []) (omega arith)))
              deps left (omega arith)))

    Ends-enter :
        (c : Color)
        → color_of m (to_string id) ≡ c
        → Ends known (whites m known) (enter close skip provider call id m path c)
    unfolding enter
    Ends-enter gray e = omega arith
    Ends-enter black e = omega arith
    Ends-enter white e = Ends-explore (provider.get_node_dependencies id) refl e

  -- With more fuel than white nodes the search ends.
  pub Ends-seek :
      (fuel : ℕ) (id : NodeId) (m : Colors) (path : List NodeId)
      → whites m known < fuel
      → Ends known (whites m known) (seek close skip provider fuel id m path)
  unfolding seek
  Ends-seek zero id m path h = absurd (omega arith)
  Ends-seek (suc fuel) id m path h =
      Ends-enter fuel (seek close skip provider fuel) (Ends-seek fuel) id m path h
        (color_of m (to_string id)) refl

is_white-le : (c : Color) → is_white c ≤ 1
unfolding is_white
is_white-le white = omega arith
is_white-le gray = omega arith
is_white-le black = omega arith

pub whites-le-length : (m : Colors) (ss : List NodeId) → whites m (map to_string ss) ≤ length ss
unfolding whites
whites-le-length m [] = omega arith
whites-le-length m (s ∷ ss) =
    omega (arith, whites-le-length m ss, is_white-le (color_of m (to_string s)))
