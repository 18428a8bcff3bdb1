-- ===== src/Text/Decimal.antt =====
-- `atoi` and `itoa`, for strconv.Atoi and strconv.Itoa.
use vibefeld.Prelude.{
  ℕ, zero, suc, ◌+◌, ◌/◌, ◌%◌, ◌≤◌, ◌<◌, ◌≡◌, ◌≢◌, refl, sym, ◌∙◌, ap, some, [], ◌∷◌, arith, Text,
  ltb, All, Bool-cases, eq_of_some-eq, inl, inr,
}
use vibefeld.Text.{pos, max_int, dot, digits_value, atoi, itoa_loop, itoa}

digits_value-itoa_loop :
    (fuel n : ℕ) (out : Text)
    → n < fuel
    → digits_value (itoa_loop fuel n out) 0 ≡ digits_value out n
unfolding digits_value itoa_loop
digits_value-itoa_loop zero n out h = absurd (omega arith)
digits_value-itoa_loop (suc fuel) n out h = elim (Bool-cases (ltb n 10)) [
  | inl small ↦ rw small (ground arith)
  | inr large ↦
      rw large
        (digits_value-itoa_loop fuel (n / 10) ((b'0' + n % 10) ∷ out) (ground arith) ∙ ground arith)
]

-- A digit, as a proposition.
abbrev pub IsDigit : ℕ → Type 0
IsDigit c = (b'0' ≤ c) × (c ≤ b'9')

-- `itoa_loop` puts at least one digit in front of `out`.
itoa_loop-digits :
    (fuel n : ℕ) (out : Text)
    → n < fuel
    → All IsDigit out
    → All IsDigit (itoa_loop fuel n out) × (itoa_loop fuel n out ≢ [])
unfolding itoa_loop
itoa_loop-digits zero n out h all = absurd (omega arith)
itoa_loop-digits (suc fuel) n out h all = elim (Bool-cases (ltb n 10)) [
  | inl small ↦ rw small (((ground arith, ground arith), all), λ e. cc)
  | inr large ↦ rw large (
      itoa_loop-digits fuel (n / 10) ((b'0' + n % 10) ∷ out) (ground arith)
        ((omega arith, omega arith), all))
]

pub itoa-digits : (n : ℕ) → All IsDigit (itoa n)
unfolding itoa
itoa-digits n = (itoa_loop-digits (suc n) n [] (omega arith) tt).0

pub itoa-ne-nil : (n : ℕ) → itoa n ≢ []
unfolding itoa
itoa-ne-nil n = (itoa_loop-digits (suc n) n [] (omega arith) tt).1

digits_value-itoa : (n : ℕ) → digits_value (itoa n) 0 ≡ some n
unfolding itoa digits_value
digits_value-itoa n = digits_value-itoa_loop (suc n) n [] (omega arith)

-- A text of digits is read as its value.
atoi_of_digits :
    (s : Text) (n : ℕ)
    → All IsDigit s
    → s ≢ []
    → n ≤ max_int
    → digits_value s 0 ≡ some n
    → atoi s ≡ some (pos n)
unfolding atoi
atoi_of_digits [] n digits ne h e = absurd (ne refl)
atoi_of_digits (c ∷ s) n digits ne h e = ground arith

pub atoi-itoa : (n : ℕ) → n ≤ max_int → atoi (itoa n) ≡ some (pos n)
atoi-itoa n h = atoi_of_digits (itoa n) n (itoa-digits n) (itoa-ne-nil n) h (digits_value-itoa n)

-- A leading zero changes the text and not the value.
pub atoi-leading_zero : (n : ℕ) → n ≤ max_int → atoi (b'0' ∷ itoa n) ≡ some (pos n)
atoi-leading_zero n h =
    atoi_of_digits (b'0' ∷ itoa n) n ((omega arith, omega arith), itoa-digits n) (λ e. cc) h
      (unfold digits_value in digits_value-itoa n)

pub itoa-injective : (a b : ℕ) → itoa a ≡ itoa b → a ≡ b
itoa-injective a b e =
    eq_of_some-eq a b
      (sym (digits_value-itoa a) ∙ ap (λ s. digits_value s 0) e ∙ digits_value-itoa b)

-- The character `c` does not occur.
abbrev pub Lacks : ℕ → Text → Type 0
Lacks c = All (λ d. d ≢ c)

Lacks-dot : (s : Text) → All IsDigit s → Lacks dot s
Lacks-dot [] h = tt
Lacks-dot (c ∷ s) h = (λ e. omega arith, Lacks-dot s h.1)

pub itoa-Lacks : (n : ℕ) → Lacks dot (itoa n)
itoa-Lacks n = Lacks-dot (itoa n) (itoa-digits n)
