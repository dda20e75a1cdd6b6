-- ===== src/Prelude/Numerals/Writing.antt =====
-- `strconv.Itoa` of what is not negative, and that `Atoi` reads it back.
use Prim.Native.Nat.{ℕ, zero, suc, ◌+◌, ◌/◌, ◌%◌, ◌≤◌, ◌<◌}
use mathlib.Core.Path.{◌≡◌, refl, ◌∙◌}
use mathlib.Core.Logic.{◌≢◌, inl, inr}
use mathlib.Core.Bool.{true, false}
use mathlib.Core.List.{[], ◌∷◌}
use mathlib.Core.Option.{some}
use native.Mathlib.Omega.{arith}
use version_aware_code_mcp.Prelude.Tests.{ltb, Bool-cases}
use version_aware_code_mcp.Prelude.Lists.{All, All-map}
use version_aware_code_mcp.Prelude.Texts.{Text}
use version_aware_code_mcp.Prelude.Splits.{Lacks}
use version_aware_code_mcp.Prelude.Int.{pos}
use version_aware_code_mcp.Prelude.Numerals.{digits_value, max_int, some_digits, atoi}

-- The digits of `n` in front of `out`; `n` rounds are enough.
unfoldable numeral_before : ℕ → ℕ → Text → Text
numeral_before zero n out = (48 + n) ∷ out
numeral_before (suc f) n out = elim (ltb n 10) [
  | true ↦ (48 + n) ∷ out
  | false ↦ numeral_before f (n / 10) ((48 + n % 10) ∷ out)
]

unfoldable pub numeral : ℕ → Text
unfolding numeral_before
numeral n = numeral_before n n []

abbrev pub IsDigit : ℕ → Type 0
IsDigit c = (48 ≤ c) × (c ≤ 57)

last_digit : (n : ℕ) (out : Text) → digits_value (n / 10) ((48 + n % 10) ∷ out) ≡ digits_value n out
unfolding digits_value
last_digit n out = ground arith

first_digit : (n : ℕ) (out : Text) → n < 10 → digits_value 0 ((48 + n) ∷ out) ≡ digits_value n out
unfolding digits_value
first_digit n out h = ground arith

digits_value-numeral_before :
    (f n : ℕ) (out : Text) → n ≤ f → digits_value 0 (numeral_before f n out) ≡ digits_value n out
unfolding numeral_before
digits_value-numeral_before zero n out h = first_digit n out (omega arith)
digits_value-numeral_before (suc f) n out h = elim (Bool-cases (ltb n 10)) [
  | inl e ↦ rw (e, numeral_before) (first_digit n out (ground arith))
  | inr e ↦
      rw (e, numeral_before)
        (digits_value-numeral_before f (n / 10) ((48 + n % 10) ∷ out) (ground arith)
          ∙ last_digit n out)
]

numeral_before-IsDigit :
    (f n : ℕ) (out : Text) → n ≤ f → All IsDigit out → All IsDigit (numeral_before f n out)
unfolding numeral_before
numeral_before-IsDigit zero n out h k = ((omega arith, omega arith), k)
numeral_before-IsDigit (suc f) n out h k = elim (Bool-cases (ltb n 10)) [
  | inl e ↦ rw (e, numeral_before) ((omega arith, ground arith), k)
  | inr e ↦
      rw (e, numeral_before)
        (numeral_before-IsDigit f (n / 10) ((48 + n % 10) ∷ out) (ground arith)
          ((omega arith, omega arith), k))
]

pub numeral-IsDigit : (n : ℕ) → All IsDigit (numeral n)
unfolding numeral
numeral-IsDigit n = numeral_before-IsDigit n n [] (omega arith) tt

-- A numeral holds no character that is not a digit.
pub numeral-Lacks : (c n : ℕ) → c < 48 → Lacks c (numeral n)
numeral-Lacks c n h =
    All-map IsDigit (λ d. d ≢ c) (numeral n) (λ d k e. omega arith) (numeral-IsDigit n)

-- Digits are read without a sign.
atoi-digits :
    (s : Text) (n : ℕ)
    → All IsDigit s
    → digits_value 0 s ≡ some n
    → s ≢ []
    → n ≤ max_int
    → atoi s ≡ some (pos n)
unfolding atoi some_digits
atoi-digits [] n d h k b = absurd (k refl)
atoi-digits (c ∷ s) n d h k b = rw h (ground (arith, d.0))

numeral_before-ne-nil : (f n : ℕ) (out : Text) → numeral_before f n out ≢ []
unfolding numeral_before
numeral_before-ne-nil zero n out e = cc
numeral_before-ne-nil (suc f) n out e = elim (Bool-cases (ltb n 10)) [
  | inl t ↦ cc (rw (t, numeral_before) at e)
  | inr t ↦ numeral_before-ne-nil f (n / 10) ((48 + n % 10) ∷ out) (rw (t, numeral_before) at e)
]

-- What fits an `int` is read back from its numeral.
pub atoi-numeral : (n : ℕ) → n ≤ max_int → atoi (numeral n) ≡ some (pos n)
unfolding numeral digits_value
atoi-numeral n h =
    atoi-digits (numeral n) n (numeral-IsDigit n) (digits_value-numeral_before n n [] (omega arith))
      (numeral_before-ne-nil n n []) h

numeral_example : numeral 1070 ≡ 49 ∷ 48 ∷ 55 ∷ 48 ∷ []
unfolding numeral
numeral_example = refl
