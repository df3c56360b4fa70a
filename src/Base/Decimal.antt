-- ===== src/Base/Decimal.antt =====
-- A number in a template literal: its decimal digits.
use Prim.Native.Nat.{ℕ, zero, suc, ◌+◌, ◌-◌, ◌*◌, ◌/◌, ◌%◌, ◌≤◌, ◌<◌}
use mathlib.Core.Path.{◌≡◌, refl, sym, ap, ◌∙◌}
use mathlib.Core.Logic.{inl, inr}
use mathlib.Core.List.{[], ◌∷◌}
use native.Mathlib.Omega.{arith}
use tech_trends.Base.Tests.{ltb, if◌then◌else◌, Bool-cases}
use tech_trends.Base.Lists.{All}
use tech_trends.Base.Texts.{Text}

-- The digits of `n` before those of `out`, on fuel; every round divides `n` by ten.
unfoldable pub digits_from : ℕ → ℕ → Text → Text
digits_from zero n out = out
digits_from (suc fuel) n out =
    let rest = digits_from fuel (n / 10) ((b'0' + n % 10) ∷ out) in
    if ltb n 10 then (b'0' + n) ∷ out else rest

unfoldable pub decimal : ℕ → Text
unfolding digits_from
decimal n = digits_from (suc n) n []

-- The value of a text of digits, read from the left.
abbrev pub value_from : ℕ → Text → ℕ
value_from acc [] = acc
value_from acc (c ∷ s) = value_from (acc * 10 + (c - b'0')) s

value-digits_from :
    (fuel n : ℕ) (out : Text) → n < fuel → value_from 0 (digits_from fuel n out) ≡ value_from n out
unfolding digits_from
value-digits_from zero n out h = absurd (omega arith)
value-digits_from (suc fuel) n out h = elim (Bool-cases (ltb n 10)) [
  | inl small ↦ rw small (ap (λ k. value_from k out) (omega arith))
  | inr large ↦ rw large (
      value-digits_from fuel (n / 10) ((b'0' + n % 10) ∷ out) (ground arith)
      ∙ ap (λ k. value_from k out) (omega arith))
]

-- Reading the digits of a number gives it back.
pub value_from-decimal : (n : ℕ) → value_from 0 (decimal n) ≡ n
unfolding decimal
value_from-decimal n = value-digits_from (suc n) n [] (omega arith)

-- Two numbers with the same digits are the same.
pub decimal_injective : (m n : ℕ) → decimal m ≡ decimal n → m ≡ n
decimal_injective m n e = sym (value_from-decimal m) ∙ ap (value_from 0) e ∙ value_from-decimal n

abbrev pub IsDigit : ℕ → Type 0
IsDigit c = (b'0' ≤ c) × (c ≤ b'9')

digits_from-All : (fuel n : ℕ) (out : Text) → All IsDigit out → All IsDigit (digits_from fuel n out)
unfolding digits_from
digits_from-All zero n out h = h
digits_from-All (suc fuel) n out h = elim (Bool-cases (ltb n 10)) [
  | inl small ↦ rw small ((omega arith, ground arith), h)
  | inr large ↦ rw large (digits_from-All fuel (n / 10) _ ((omega arith, omega arith), h))
]

pub decimal-All : (n : ℕ) → All IsDigit (decimal n)
unfolding decimal
decimal-All n = digits_from-All (suc n) n [] tt

decimal_example : decimal 1045 ≡ b'1' ∷ b'0' ∷ b'4' ∷ b'5' ∷ []
unfolding decimal
decimal_example = refl
