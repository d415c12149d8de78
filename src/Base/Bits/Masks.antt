-- ===== src/Base/Bits/Masks.antt =====
-- The mask 0x7f on a number of any size, from the digits that `bit_and` stands for.
use Prim.Native.Nat.{
  ℕ, zero, suc, ◌+◌, ◌*◌, ◌/◌, ◌%◌, ◌≤◌, ◌<◌, min, bit_and, digits, bit_and-bitwise,
}
use mathlib.Core.Path.{◌≡◌, refl}
use native.Mathlib.Omega.{arith}

-- `m` masks what is left of a division by `d`: at every fuel from the number on.
abbrev Masks : ℕ → ℕ → Type 0
Masks m d = (n a : ℕ) → a ≤ n → digits (λ b. zero) min n a m ≡ a % d

Masks-zero : Masks 0 1
Masks-zero zero a h = omega arith
Masks-zero (suc n) zero h = refl
Masks-zero (suc n) (suc a) h = omega (arith, Masks-zero n (suc a / 2) (omega arith))

-- One more digit of the mask.
mod_double : (a d : ℕ) → 0 < d → a % (2 * d) ≡ (a / 2 % d) * 2 + a % 2
mod_double a d h = grind arith

half_odd : (m : ℕ) → (m * 2 + 1) / 2 ≡ m
half_odd m = omega arith

Masks-suc : (m d : ℕ) → 0 < d → Masks m d → Masks (m * 2 + 1) (2 * d)
Masks-suc m d h k zero a p = omega arith
Masks-suc m d h k (suc n) zero p = omega arith
Masks-suc m d h k (suc n) (suc a) p =
    rw (half_odd m) (omega (arith, k n (suc a / 2) (omega arith), mod_double (suc a) d h))

Masks-seven : Masks 127 128
Masks-seven = Masks-suc 63 64 (omega arith) (
    Masks-suc 31 32 (omega arith) (
      Masks-suc 15 16 (omega arith) (
        Masks-suc 7 8 (omega arith) (
          Masks-suc 3 4 (omega arith)
            (Masks-suc 1 2 (omega arith) (Masks-suc 0 1 (omega arith) Masks-zero))))))

-- Seven low bits of any number.
pub low_seven : (a : ℕ) → bit_and a 0x7f ≡ a % 128
low_seven a = omega (arith, bit_and-bitwise a 127, Masks-seven a a (omega arith))
