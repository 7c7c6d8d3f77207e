-- ===== src/Prelude/Bits.antt =====
-- The bits of numbers: a mask of low bits, and a number put into low bits that are clear.
use Prim.Native.Nat.{
  ℕ, zero, suc, ◌+◌, ◌*◌, ◌/◌, ◌%◌, ◌≤◌, ◌<◌, min, max, bit_and, bit_or, digits, bit_and-bitwise,
  bit_or-bitwise,
}
use mathlib.Core.Path.{◌≡◌, refl, ap, ◌∙◌, sym}
use native.Mathlib.Nat.{mul_assoc}
use native.Mathlib.Omega.{arith}

-- Rounds behind the last digit change nothing.
module _ (stop : ℕ → ℕ) (one : ℕ → ℕ → ℕ) where
  digits_fuel : (n m a b : ℕ) → a ≤ n → a ≤ m → digits stop one n a b ≡ digits stop one m a b
  digits_fuel zero zero a b p q = refl
  digits_fuel zero (suc m) zero b p q = refl
  digits_fuel (suc n) zero zero b p q = refl
  digits_fuel (suc n) (suc m) zero b p q = refl
  digits_fuel zero (suc m) (suc a) b p q = absurd (omega arith)
  digits_fuel (suc n) zero (suc a) b p q = absurd (omega arith)
  digits_fuel (suc n) (suc m) (suc a) b p q =
      let half = digits_fuel n m (suc a / 2) (b / 2) (omega arith) (omega arith) in
      ap (λ t. t * 2 + one (suc a % 2) (b % 2)) half

bit_and_step : (a b : ℕ) → bit_and a b ≡ bit_and (a / 2) (b / 2) * 2 + min (a % 2) (b % 2)
bit_and_step zero b = omega (arith, bit_and-bitwise 0 b, bit_and-bitwise 0 (b / 2))
bit_and_step (suc a) b =
    let h = suc a / 2 in
    omega (
      arith,
      bit_and-bitwise (suc a) b,
      bit_and-bitwise h (b / 2),
      digits_fuel (λ b. zero) min a h h (b / 2) (omega arith) (omega arith),
    )

bit_or_step : (a b : ℕ) → bit_or a b ≡ bit_or (a / 2) (b / 2) * 2 + max (a % 2) (b % 2)
bit_or_step zero b = omega (arith, bit_or-bitwise 0 b, bit_or-bitwise 0 (b / 2))
bit_or_step (suc a) b =
    let h = suc a / 2 in
    omega (
      arith,
      bit_or-bitwise (suc a) b,
      bit_or-bitwise h (b / 2),
      digits_fuel (λ b. b) max a h h (b / 2) (omega arith) (omega arith),
    )

bit_and-zero : (n a : ℕ) → a ≤ n → bit_and a 0 ≡ 0
bit_and-zero n zero h = refl
bit_and-zero zero (suc a) h = absurd (omega arith)
bit_and-zero (suc n) (suc a) h =
    omega (arith, bit_and_step (suc a) 0, bit_and-zero n (suc a / 2) (omega arith))

bit_or-zero : (n a : ℕ) → a ≤ n → bit_or a 0 ≡ a
bit_or-zero n zero h = refl
bit_or-zero zero (suc a) h = absurd (omega arith)
bit_or-zero (suc n) (suc a) h =
    omega (arith, bit_or_step (suc a) 0, bit_or-zero n (suc a / 2) (omega arith))

mask_three : (a : ℕ) → bit_and a 7 ≡ a % 8
mask_three a =
    let b = a / 2 in
    omega (
      arith,
      bit_and_step a 7,
      bit_and_step b 3,
      bit_and_step (b / 2) 1,
      bit_and-zero (b / 2 / 2) (b / 2 / 2) (omega arith),
    )

-- A mask of six ones leaves six digits.
pub mask_six : (a : ℕ) → bit_and a 63 ≡ a % 64
mask_six a =
    let b = a / 2 in
    omega
      (arith, bit_and_step a 63, bit_and_step b 31, bit_and_step (b / 2) 15, mask_three (b / 2 / 2))

-- A number below `m` is added to a multiple of `m`.
abbrev Fills : ℕ → Type 0
Fills m = (a d : ℕ) → d < m → bit_or (a * m) d ≡ a * m + d

Fills-one : Fills 1
Fills-one a d h =
    let z : d ≡ 0 = omega arith in
    let e : a * 1 ≡ a = omega arith in rw (z, e) (bit_or-zero a a (omega arith) ∙ omega arith)

Fills-double : (m : ℕ) → Fills m → Fills (m * 2)
Fills-double m fills a d h =
    let twice : a * (m * 2) ≡ a * m * 2 = sym (mul_assoc a m 2) in
    let e : a * (m * 2) / 2 ≡ a * m = omega (arith, twice) in
    omega (
      arith,
      bit_or_step (a * (m * 2)) d,
      ap (λ t. bit_or t (d / 2)) e,
      fills a (d / 2) (omega arith),
      twice,
    )

pub Fills-16 : Fills 16
Fills-16 = Fills-double 8 (Fills-double 4 (Fills-double 2 (Fills-double 1 Fills-one)))

pub Fills-32 : Fills 32
Fills-32 = Fills-double 16 Fills-16

pub Fills-64 : Fills 64
Fills-64 = Fills-double 32 Fills-32
