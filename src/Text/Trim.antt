-- ===== src/Text/Trim.antt =====
-- `trim_space`, for strings.TrimSpace.
use mathlib.Core.List.{reverse, reverse_aux, reverse-reverse}
use vibefeld.Prelude.{ℕ, ◌≡◌, refl, ◌∙◌, ap, false, [], ◌∷◌, arith, Text, All}
use vibefeld.Text.{dot, is_space, trim_left, trim_space}
use vibefeld.Text.Decimal.{IsDigit}

abbrev pub NotSpace : ℕ → Type 0
NotSpace c = is_space c ≡ false

trim_left-id : (s : Text) → All NotSpace s → trim_left s ≡ s
unfolding trim_left
trim_left-id [] h = refl
trim_left-id (c ∷ s) h = rw (h.0)

All-reverse_aux :
    (s acc : Text) → All NotSpace s → All NotSpace acc → All NotSpace (reverse_aux s acc)
All-reverse_aux [] acc h k = k
All-reverse_aux (c ∷ s) acc h k = All-reverse_aux s (c ∷ acc) h.1 (h.0, k)

pub trim_space-id : (s : Text) → All NotSpace s → trim_space s ≡ s
unfolding trim_space
trim_space-id s h =
    ap (λ t. reverse (trim_left (reverse t))) (trim_left-id s h)
    ∙ ap reverse (trim_left-id (reverse s) (All-reverse_aux s [] h tt))
    ∙ reverse-reverse s

pub digit-NotSpace : (c : ℕ) → IsDigit c → NotSpace c
unfolding is_space
digit-NotSpace c h = ground arith

pub dot-NotSpace : NotSpace dot
unfolding is_space
dot-NotSpace = refl
