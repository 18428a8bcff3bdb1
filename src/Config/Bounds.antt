-- ===== src/Config/Bounds.antt =====
-- The configurations that pass Validate behind Load of internal/config/config.go.
use vibefeld.Prelude.{
  ap, sym, subst, Bool-cases, ==_iff, ℕ, ◌≤◌, ◌≡◌, ◌≢◌, refl, ◌*◌, ◌↔◌, ◌⊎◌, inl, inr, Bool, true,
  false, not, ◌||◌, some, [], ◌∷◌, Text, text_eq, text_eq_iff, codes, ltb, ◌==◌, if◌then◌else◌,
  Result, ok, fail_if, ◌>>◌, arith,
}
use vibefeld.Text.{ℤ, pos, negsuc}
use vibefeld.Config.{
  Float64, nan, infinite, finite, one, four_fifths, Config, ConfigError, fill_missing, validate,
  second, minute, hour, max_depth_limit, is_zero, is_zero_float, is_outside, is_below_zero,
  is_above_one, empty_title, empty_conjecture, bad_lock_timeout, bad_max_depth, bad_max_children,
  bad_threshold, bad_version,
}

-- The field was not set, or it is between the bounds.
abbrev pub UnsetOrIn : ℕ → ℕ → ℤ → Type 0
UnsetOrIn low high x = (x ≡ pos 0) ⊎ ((n : ℕ) × (x ≡ pos n) × (low ≤ n) × (n ≤ high))

-- Missing or between 0 and 1.
abbrev pub IsThreshold : Float64 → Type 0
IsThreshold nan = ⊥
IsThreshold (infinite negative) = ⊥
IsThreshold (finite negative n) = (n ≡ 0) ⊎ ((negative ≡ false) × (n ≤ one))

pub record IsLoadable (c : Config) : Type 0 where
  pub title : c.title ≢ []
  pub conjecture : c.conjecture ≢ []
  pub lock_timeout : UnsetOrIn second hour c.lock_timeout
  pub max_depth : UnsetOrIn 1 max_depth_limit c.max_depth
  pub max_children : UnsetOrIn 1 100 c.max_children
  pub threshold : (c.auto_correct_threshold ≡ nan) ⊎ IsThreshold c.auto_correct_threshold
  pub version : c.version ≡ codes "1.0"

abbrev with_default : ℕ → ℤ → ℤ
with_default d x = if is_zero x then pos d else x

pos_injective : (m n : ℕ) → pos m ≡ pos n → m ≡ n
pos_injective m n e = cc

inside_iff : (low high n : ℕ) → ((ltb n low || ltb high n) ≡ false) ↔ ((low ≤ n) × (n ≤ high))
inside_iff low high n = ground arith

module _ (low high d : ℕ) (low_d : low ≤ d) (d_high : d ≤ high) where
  outside_default_iff :
      (x : ℤ) → (is_outside low high (with_default d x) ≡ false) ↔ UnsetOrIn low high x
  outside_default_iff (negsuc n) =
      (λ h. absurd (cc), λ u. elim u [ inl e ↦ absurd (cc) | inr (m, e, _, _) ↦ absurd (cc) ])
  outside_default_iff (pos n) = elim (Bool-cases (n == 0)) [
    | inl z ↦
        rw z
          ((λ _. inl (ap pos ((==_iff n 0).0 z)), λ _. (inside_iff low high d).1 (low_d, d_high)))
    | inr nz ↦ rw nz (
        (
          λ h. inr (let (lo, hi) = (inside_iff low high n).0 h in (n, refl, lo, hi)),
          λ u. elim u [
            | inl e ↦ absurd (cc ((==_iff n 0).1 (pos_injective n 0 e), nz))
            | inr (m, e, lo, hi) ↦
                subst (λ k. (ltb k low || ltb high k) ≡ false) (sym (pos_injective n m e))
                  ((inside_iff low high m).1 (lo, hi))
          ],
        ))
  ]

at_most_iff : (high n : ℕ) → (ltb high n ≡ false) ↔ (n ≤ high)
at_most_iff high n = ground arith

finite_iff :
    (negative : Bool) (n : ℕ)
    → (n == 0) ≡ false
    → ((negative || is_above_one (finite negative n)) ≡ false)
      ↔ ((n ≡ 0) ⊎ ((negative ≡ false) × (n ≤ one)))
finite_iff true n nz = (
  λ h. absurd (cc),
  λ u. elim u [ inl e ↦ absurd (cc ((==_iff n 0).1 e, nz)) | inr (h, _) ↦ absurd (cc) ],
)
finite_iff false n nz = (
  λ h. inr (refl, (at_most_iff one n).0 h),
  λ u. elim u [
    | inl e ↦ absurd (cc ((==_iff n 0).1 e, nz))
    | inr (_, le) ↦ (at_most_iff one n).1 le
  ],
)

between_iff :
    (x : Float64)
    → ((is_below_zero (if is_zero_float x then finite false four_fifths else x)
          || is_above_one (if is_zero_float x then finite false four_fifths else x))
        ≡ false)
      ↔ ((x ≡ nan) ⊎ IsThreshold x)
between_iff nan = (λ _. inl refl, λ _. refl)
between_iff (infinite true) =
    (λ h. absurd (cc), λ u. elim u [ inl e ↦ absurd (cc) | inr h ↦ absurd h ])
between_iff (infinite false) =
    (λ h. absurd (cc), λ u. elim u [ inl e ↦ absurd (cc) | inr h ↦ absurd h ])
between_iff (finite negative n) = elim (Bool-cases (n == 0)) [
  | inl z ↦ rw z (λ _. inr (inl ((==_iff n 0).0 z)), λ _. refl)
  | inr nz ↦
      let (sound, full) = finite_iff negative n nz in
      rw nz (rw nz ((λ h. inr (sound h), λ u. elim u [ inl e ↦ absurd (cc) | inr h ↦ full h ])))
]

-- A chain of guards passes if each of them does.
guard_iff :
    (b : Bool) (e : ConfigError) (k : Result ConfigError (Unit {0})) (P Q : Type 0)
    → (b ≡ false) ↔ P
    → (k ≡ ok tt) ↔ Q
    → ((fail_if b e >> k) ≡ ok tt) ↔ (P × Q)
guard_iff true e k P Q p q = (λ h. absurd (cc), λ (h, _). absurd (cc (p.1 h)))
guard_iff false e k P Q p q = (λ h. (p.0 refl, q.0 h), λ (_, h). q.1 h)

module _ (c : Config) where
  text_iff : (s : Text) → (text_eq s [] ≡ false) ↔ (s ≢ [])
  text_iff [] = (λ h. absurd (cc), λ h. absurd (h refl))
  text_iff (x ∷ s) = (λ _ e. absurd (cc), λ _. refl)

  version_iff : (s : Text) → (not (text_eq s (codes "1.0")) ≡ false) ↔ (s ≡ codes "1.0")
  version_iff s = ground (arith, text_eq_iff s (codes "1.0"))

  -- Validate accepts what Load makes of a parsed file exactly if the title and the conjecture are not
  -- empty, the version is 1.0, the timeout is missing or between a second and an hour, the depth and
  -- the number of children are each missing or between 1 and 100, and the threshold is missing, between
  -- 0 and 1, or a NaN.
  pub validate-fill_missing_iff : (validate (some (fill_missing c)) ≡ ok tt) ↔ IsLoadable c
  unfolding validate fill_missing
  validate-fill_missing_iff =
      let threshold = (fill_missing c).auto_correct_threshold in
      let checks = guard_iff (text_eq c.title []) empty_title _ _ _ (text_iff c.title) (
        guard_iff (text_eq c.conjecture []) empty_conjecture _ _ _ (text_iff c.conjecture) (
          guard_iff (is_outside second hour (with_default (5 * minute) c.lock_timeout))
            bad_lock_timeout _ _ _
            (outside_default_iff second hour (5 * minute) (omega arith) (omega arith)
              c.lock_timeout)
            (guard_iff (is_outside 1 max_depth_limit (with_default 20 c.max_depth)) bad_max_depth _
              _ _ (outside_default_iff 1 100 20 (omega arith) (omega arith) c.max_depth)
              (guard_iff (is_outside 1 100 (with_default 20 c.max_children)) bad_max_children _ _ _
                (outside_default_iff 1 100 20 (omega arith) (omega arith) c.max_children)
                (guard_iff (is_below_zero threshold || is_above_one threshold) bad_threshold _ _ _
                  (between_iff c.auto_correct_threshold)
                  (guard_iff (not (text_eq c.version (codes "1.0"))) bad_version (ok tt) _ Unit
                    (version_iff c.version) (λ _. tt, λ _. refl))))))) in
      (
        λ h.
            let (title, (conjecture, (timeout, (depth, (children, (between, (version, _))))))) =
              checks.0 h in
            record {
              title = title;
              conjecture = conjecture;
              lock_timeout = timeout;
              max_depth = depth;
              max_children = children;
              threshold = between;
              version = version;
            },
        λ l. checks.1 (
          l.title,
          (
            l.conjecture,
            (l.lock_timeout, (l.max_depth, (l.max_children, (l.threshold, (l.version, tt))))),
          ),
        ),
      )
