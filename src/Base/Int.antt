-- ===== src/Base/Int.antt =====
-- The signed integers of the sources: `i32` and `i64` as integers, with the conversions that are called.
use seclab_suite_protocol_si.Base.{
  ==_iff, Bool, Option, ap, false, if◌then◌else◌, ltb, none, refl, some, true, ℕ, ◌%◌, ◌&&◌, ◌+◌,
  ◌-◌, ◌==◌, ◌^◌, ◌∷◌, ◌≡◌,
}
use seclab_suite_protocol_si.Base.Text.{Text, to_decimal}

pub data ℤ : Type 0 where
  pos : ℕ → ℤ
  negsuc : ℕ → ℤ

-- `==`
abbrev pub int_eq : ℤ → ℤ → Bool
int_eq (pos m) (pos n) = m == n
int_eq (negsuc m) (negsuc n) = m == n
int_eq _ _ = false

pub int_eq_sound : (i j : ℤ) → int_eq i j ≡ true → i ≡ j
int_eq_sound (pos m) (pos n) h = ap pos ((==_iff m n).0 h)
int_eq_sound (negsuc m) (negsuc n) h = ap negsuc ((==_iff m n).0 h)
int_eq_sound (pos m) (negsuc n) h = cc
int_eq_sound (negsuc m) (pos n) h = cc

pub int_eq_refl : (i : ℤ) → int_eq i i ≡ true
int_eq_refl (pos m) = (==_iff m m).1 refl
int_eq_refl (negsuc m) = (==_iff m m).1 refl

-- `u16::try_from`
abbrev pub u16_try_from : ℤ → Option ℕ
u16_try_from (pos n) = if ltb n (2 ^ 16) then some n else none
u16_try_from (negsuc n) = none

-- `as i32` of a length
abbrev pub as_i32 : ℕ → ℤ
as_i32 n = let low = n % 2 ^ 32 in if ltb low (2 ^ 31) then pos low else negsuc (2 ^ 32 - 1 - low)

-- `(1..bound).contains`
abbrev pub in_range_from_one : ℕ → ℤ → Bool
in_range_from_one bound (pos n) = ltb 0 n && ltb n bound
in_range_from_one bound (negsuc n) = false

-- `{}`
abbrev pub int_text : ℤ → Text
int_text (pos n) = to_decimal n
int_text (negsuc n) = b'-' ∷ to_decimal (n + 1)
