-- ===== src/Base/Text/Decimal.antt =====
-- A number that is printed is parsed as that number.
use seclab_suite_protocol_si.Base.Tests.{Bool-cases, ltb}
use seclab_suite_protocol_si.Base.Lists.{All, is_empty}
use seclab_suite_protocol_si.Base.Text.{Text, digits_loop, parse_digits, parse_unsigned, to_decimal}
use Prim.Native.Nat.{ℕ, zero, suc, ◌+◌, ◌/◌, ◌%◌, ◌<◌, ◌≤◌}
use mathlib.Core.Bool.{false}
use mathlib.Core.Option.{some}
use mathlib.Core.Logic.{inl, inr}
use mathlib.Core.Path.{◌≡◌, refl, ◌∙◌}
use mathlib.Core.List.{[], ◌∷◌}
use native.Mathlib.Omega.{arith}

abbrev pub IsDigit : ℕ → Type 0
IsDigit c = (b'0' ≤ c) × (c ≤ b'9')

digits_loop-IsDigit :
    (fuel n : ℕ) (out : Text) → All IsDigit out → All IsDigit (digits_loop fuel n out)
unfolding digits_loop
digits_loop-IsDigit zero n out h = h
digits_loop-IsDigit (suc fuel) n out h = elim (Bool-cases (ltb n 10)) [
  | inl small ↦ rw small ((omega arith, ground arith), h)
  | inr large ↦
      rw large
        (digits_loop-IsDigit fuel (n / 10) ((b'0' + n % 10) ∷ out) ((omega arith, omega arith), h))
]

pub to_decimal-IsDigit : (n : ℕ) → All IsDigit (to_decimal n)
unfolding to_decimal
to_decimal-IsDigit n = digits_loop-IsDigit (suc n) n [] tt

parse_digits-digits_loop :
    (bound fuel n : ℕ) (out : Text)
    → n < fuel
    → n < bound
    → parse_digits bound 0 (digits_loop fuel n out) ≡ parse_digits bound n out
unfolding digits_loop parse_digits
parse_digits-digits_loop bound zero n out h k = absurd (omega arith)
parse_digits-digits_loop bound (suc fuel) n out h k = elim (Bool-cases (ltb n 10)) [
  | inl small ↦ ground arith
  | inr large ↦ rw large (
      parse_digits-digits_loop bound fuel (n / 10) ((b'0' + n % 10) ∷ out) (ground arith)
        (ground arith)
      ∙ ground arith)
]

digits_loop-is_empty :
    (fuel n : ℕ) (out : Text) → n < fuel → is_empty (digits_loop fuel n out) ≡ false
unfolding digits_loop
digits_loop-is_empty zero n out h = absurd (omega arith)
digits_loop-is_empty (suc fuel) n out h = elim (Bool-cases (ltb n 10)) [
  | inl small ↦ rw small refl
  | inr large ↦ rw large (digits_loop-is_empty fuel (n / 10) ((b'0' + n % 10) ∷ out) (ground arith))
]

parse_unsigned-digits :
    (bound : ℕ) (t : Text)
    → is_empty t ≡ false
    → All IsDigit t
    → parse_unsigned bound t ≡ parse_digits bound 0 t
unfolding parse_unsigned
parse_unsigned-digits bound [] full h = cc
parse_unsigned-digits bound (c ∷ t) full ((low, high), h) = ground arith

pub parse_unsigned-to_decimal :
    (bound n : ℕ) → n < bound → parse_unsigned bound (to_decimal n) ≡ some n
unfolding to_decimal parse_digits
parse_unsigned-to_decimal bound n h =
    parse_unsigned-digits bound (to_decimal n) (digits_loop-is_empty (suc n) n [] (omega arith))
      (to_decimal-IsDigit n)
    ∙ parse_digits-digits_loop bound (suc n) n [] (omega arith) h
