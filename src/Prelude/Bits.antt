-- ===== src/Prelude/Bits.antt =====
-- Exclusive or and inclusive or of numbers, as the bytes of a cipher use them.
use Prim.Native.Nat.{
  ℕ, zero, suc, ◌+◌, ◌*◌, ◌/◌, ◌%◌, ◌≤◌, ◌<◌, max, bit_or, bit_xor, digits, differ, bit_or-bitwise,
  bit_xor-bitwise,
}
use mathlib.Core.Path.{◌≡◌, refl, ap}
use native.Mathlib.Omega.{arith}

-- Both keep the digits of the second number once the first has run out.
module _ (f : ℕ → ℕ → ℕ) where
  abbrev digits_of : ℕ → ℕ → ℕ → ℕ
  digits_of n a b = digits (λ b. b) f n a b

  digits_of_fuel : (n m a b : ℕ) → a ≤ n → a ≤ m → digits_of n a b ≡ digits_of m a b
  digits_of_fuel zero zero a b p q = refl
  digits_of_fuel zero (suc m) zero b p q = refl
  digits_of_fuel zero (suc m) (suc a) b p q = absurd (omega arith)
  digits_of_fuel (suc n) zero zero b p q = refl
  digits_of_fuel (suc n) zero (suc a) b p q = absurd (omega arith)
  digits_of_fuel (suc n) (suc m) zero b p q = refl
  digits_of_fuel (suc n) (suc m) (suc a) b p q =
      ap (λ d. d * 2 + f (suc a % 2) (b % 2))
        (digits_of_fuel n m (suc a / 2) (b / 2) (omega arith) (omega arith))

xor_step : (a b : ℕ) → bit_xor a b ≡ bit_xor (a / 2) (b / 2) * 2 + differ (a % 2) (b % 2)
xor_step zero b = omega (arith, bit_xor-bitwise 0 b, bit_xor-bitwise 0 (b / 2))
xor_step (suc a) b = omega (
  arith,
  bit_xor-bitwise (suc a) b,
  bit_xor-bitwise (suc a / 2) (b / 2),
  digits_of_fuel differ a (suc a / 2) (suc a / 2) (b / 2) (omega arith) (omega arith),
)

or_step : (a b : ℕ) → bit_or a b ≡ bit_or (a / 2) (b / 2) * 2 + max (a % 2) (b % 2)
or_step zero b = omega (arith, bit_or-bitwise 0 b, bit_or-bitwise 0 (b / 2))
or_step (suc a) b = omega (
  arith,
  bit_or-bitwise (suc a) b,
  bit_or-bitwise (suc a / 2) (b / 2),
  digits_of_fuel max a (suc a / 2) (suc a / 2) (b / 2) (omega arith) (omega arith),
)

-- Exclusive or of two digits.
differ_digit :
    (a b : ℕ)
    → a < 2
    → b < 2
    → (differ a b < 2) × (differ (differ a b) b ≡ a) × (differ a b ≡ 0 → a ≡ b)
differ_digit zero zero p q = ((omega arith), (omega arith), λ h. (omega arith))
differ_digit zero (suc zero) p q = ((omega arith), (omega arith), λ h. (omega arith))
differ_digit (suc zero) zero p q = ((omega arith), (omega arith), λ h. (omega arith))
differ_digit (suc zero) (suc zero) p q = ((omega arith), (omega arith), λ h. (omega arith))
differ_digit (suc (suc a)) b p q = absurd (omega arith)
differ_digit zero (suc (suc b)) p q = absurd (omega arith)
differ_digit (suc zero) (suc (suc b)) p q = absurd (omega arith)

bit_xor-bit_xor_fuel : (n a b : ℕ) → a ≤ n → b ≤ n → bit_xor (bit_xor a b) b ≡ a
bit_xor-bit_xor_fuel zero zero zero p q = refl
bit_xor-bit_xor_fuel zero (suc a) b p q = absurd (omega arith)
bit_xor-bit_xor_fuel zero zero (suc b) p q = absurd (omega arith)
bit_xor-bit_xor_fuel (suc n) a b p q =
    let x = bit_xor a b in
    let (small, back, _) = differ_digit (a % 2) (b % 2) (omega arith) (omega arith) in
    let step = xor_step a b in
    let half : x / 2 ≡ bit_xor (a / 2) (b / 2) = omega arith in
    let digit : x % 2 ≡ differ (a % 2) (b % 2) = omega arith in
    let rec = bit_xor-bit_xor_fuel n (a / 2) (b / 2) (omega arith) (omega arith) in
    omega (arith, xor_step x b, ap (λ h. bit_xor h (b / 2)) half, ap (λ d. differ d (b % 2)) digit)

-- Exclusive or undoes itself.
pub bit_xor-bit_xor : (a b : ℕ) → bit_xor (bit_xor a b) b ≡ a
bit_xor-bit_xor a b = bit_xor-bit_xor_fuel (a + b) a b (omega arith) (omega arith)

eq_of_bit_xor_fuel : (n a b : ℕ) → a ≤ n → b ≤ n → bit_xor a b ≡ 0 → a ≡ b
eq_of_bit_xor_fuel zero a b p q h = omega arith
eq_of_bit_xor_fuel (suc n) a b p q h =
    let step = xor_step a b in
    let (_, _, same) = differ_digit (a % 2) (b % 2) (omega arith) (omega arith) in
    let half = eq_of_bit_xor_fuel n (a / 2) (b / 2) (omega arith) (omega arith) (omega arith) in
    let digit = same (omega arith) in omega arith

-- It is zero of equal numbers only.
pub eq_of_bit_xor : (a b : ℕ) → bit_xor a b ≡ 0 → a ≡ b
eq_of_bit_xor a b = eq_of_bit_xor_fuel (a + b) a b (omega arith) (omega arith)

zero-bit_xor : (b : ℕ) → bit_xor 0 b ≡ b
zero-bit_xor b = bit_xor-bitwise 0 b

pub bit_xor_self : (a : ℕ) → bit_xor a a ≡ 0
bit_xor_self a =
    let undone : bit_xor (bit_xor 0 a) a ≡ 0 = bit_xor-bit_xor 0 a in
    omega (arith, ap (λ x. bit_xor x a) (zero-bit_xor a))

zero_of_bit_or_fuel : (n a b : ℕ) → a ≤ n → b ≤ n → bit_or a b ≡ 0 → (a ≡ 0) × (b ≡ 0)
zero_of_bit_or_fuel zero a b p q h = omega arith
zero_of_bit_or_fuel (suc n) a b p q h =
    let step = or_step a b in
    let rec = zero_of_bit_or_fuel n (a / 2) (b / 2) (omega arith) (omega arith) (omega arith) in
    ground arith

-- An inclusive or is zero of zeros only.
pub zero_of_bit_or : (a b : ℕ) → bit_or a b ≡ 0 → (a ≡ 0) × (b ≡ 0)
zero_of_bit_or a b = zero_of_bit_or_fuel (a + b) a b (omega arith) (omega arith)
