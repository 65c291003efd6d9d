-- ===== src/Bits.antt =====
-- `|`, `&` and `^` on unsigned integers, as arithmetic: one equation for the lowest binary digit,
-- then `|` of disjoint fields, and `^` applied twice.
use Prim.Native.Nat.{
  ℕ, zero, suc, ◌+◌, ◌*◌, ◌/◌, ◌%◌, ◌^◌, ◌≤◌, ◌<◌, min, max, digits, bit_and, bit_or, bit_xor,
  differ, bit_and-bitwise, bit_or-bitwise, bit_xor-bitwise,
}
use native.Mathlib.Nat.{pow-suc}
use crablib.Base.{◌≡◌, refl, ap, arith}

differ_digits : (x y : ℕ) → x < 2 → y < 2 → differ x y ≡ (x + y) % 2
differ_digits zero zero p q = refl
differ_digits zero (suc zero) p q = refl
differ_digits (suc zero) zero p q = refl
differ_digits (suc zero) (suc zero) p q = refl
differ_digits (suc (suc x)) y p q = absurd (omega arith)
differ_digits zero (suc (suc y)) p q = absurd (omega arith)
differ_digits (suc zero) (suc (suc y)) p q = absurd (omega arith)

module _ (z : ℕ → ℕ) (f : ℕ → ℕ → ℕ) where
  -- More fuel than the number is worth nothing.
  digits_enough : (n m u w : ℕ) → u ≤ n → u ≤ m → digits z f n u w ≡ digits z f m u w
  digits_enough zero zero zero w p q = refl
  digits_enough zero (suc m) zero w p q = refl
  digits_enough (suc n) zero zero w p q = refl
  digits_enough (suc n) (suc m) zero w p q = refl
  digits_enough zero m (suc u) w p q = absurd (omega arith)
  digits_enough (suc n) zero (suc u) w p q = absurd (omega arith)
  digits_enough (suc n) (suc m) (suc u) w p q =
      ap (λ (t : ℕ). t * 2 + f (suc u % 2) (w % 2))
        (digits_enough n m (suc u / 2) (w / 2) (omega arith) (omega arith))

and_step : (u w : ℕ) → bit_and u w ≡ bit_and (u / 2) (w / 2) * 2 + min (u % 2) (w % 2)
and_step zero w = omega (arith, bit_and-bitwise 0 w, bit_and-bitwise 0 (w / 2))
and_step (suc u) w = omega (
  arith,
  bit_and-bitwise (suc u) w,
  bit_and-bitwise (suc u / 2) (w / 2),
  digits_enough (λ d. 0) min u (suc u / 2) (suc u / 2) (w / 2) (omega arith) (omega arith),
)

xor_step : (u w : ℕ) → bit_xor u w ≡ bit_xor (u / 2) (w / 2) * 2 + (u % 2 + w % 2) % 2
xor_step zero w = omega (arith, bit_xor-bitwise 0 w, bit_xor-bitwise 0 (w / 2))
xor_step (suc u) w = omega (
  arith,
  bit_xor-bitwise (suc u) w,
  bit_xor-bitwise (suc u / 2) (w / 2),
  digits_enough (λ d. d) differ u (suc u / 2) (suc u / 2) (w / 2) (omega arith) (omega arith),
  differ_digits (suc u % 2) (w % 2) (omega arith) (omega arith),
)

or_step : (u w : ℕ) → bit_or u w ≡ bit_or (u / 2) (w / 2) * 2 + max (u % 2) (w % 2)
or_step zero w = omega (arith, bit_or-bitwise 0 w, bit_or-bitwise 0 (w / 2))
or_step (suc u) w = omega (
  arith,
  bit_or-bitwise (suc u) w,
  bit_or-bitwise (suc u / 2) (w / 2),
  digits_enough (λ d. d) max u (suc u / 2) (suc u / 2) (w / 2) (omega arith) (omega arith),
)

or_zero_fuel : (n a : ℕ) → a ≤ n → bit_or a 0 ≡ a
or_zero_fuel zero zero h = refl
or_zero_fuel zero (suc a) h = absurd (omega arith)
or_zero_fuel (suc n) a h = omega (arith, or_step a 0, or_zero_fuel n (a / 2) (omega arith))

-- `(q << k) | r` is a sum where `r` has at most `k` bits.
pub or_shifted : (k q r : ℕ) → r < 2 ^ k → bit_or (q * 2 ^ k) r ≡ q * 2 ^ k + r
or_shifted zero q r h = ground (arith, or_zero_fuel q q (omega arith))
or_shifted (suc k) q r h = ground (
  arith,
  or_step (q * 2 ^ suc k) r,
  pow-suc 2 k,
  ap (λ (t : ℕ). q * t) (pow-suc 2 k),
  or_shifted k q (r / 2) (omega (arith, pow-suc 2 k)),
)

and_le_fuel : (n a b : ℕ) → a ≤ n → bit_and a b ≤ b
and_le_fuel zero zero b h = omega (arith, bit_and-bitwise 0 b)
and_le_fuel zero (suc a) b h = absurd (omega arith)
and_le_fuel (suc n) zero b h = omega (arith, bit_and-bitwise 0 b)
and_le_fuel (suc n) (suc a) b h =
    omega (arith, and_step (suc a) b, and_le_fuel n (suc a / 2) (b / 2) (omega arith))

-- `a & b` is at most its mask.
pub bit_and-le : (a b : ℕ) → bit_and a b ≤ b
bit_and-le a b = and_le_fuel a a b (omega arith)

-- Five low bits.
pub and_31 : (a : ℕ) → bit_and a 31 ≡ a % 32
and_31 a = omega (
  arith,
  and_step a 31,
  and_step (a / 2) 15,
  and_step (a / 2 / 2) 7,
  and_step (a / 2 / 2 / 2) 3,
  and_step (a / 2 / 2 / 2 / 2) 1,
  bit_and-le (a / 2 / 2 / 2 / 2 / 2) 0,
)

xor_twice_fuel : (n a b : ℕ) → a + b ≤ n → bit_xor (bit_xor a b) b ≡ a
xor_twice_fuel zero zero zero h = refl
xor_twice_fuel zero (suc a) b h = absurd (omega arith)
xor_twice_fuel zero zero (suc b) h = absurd (omega arith)
xor_twice_fuel (suc n) zero zero h = refl
xor_twice_fuel (suc n) zero (suc b) h = ground (
  arith,
  xor_step 0 (suc b),
  xor_step (bit_xor 0 (suc b)) (suc b),
  xor_twice_fuel n 0 (suc b / 2) (omega arith),
)
xor_twice_fuel (suc n) (suc a) b h = ground (
  arith,
  xor_step (suc a) b,
  xor_step (bit_xor (suc a) b) b,
  xor_twice_fuel n (suc a / 2) (b / 2) (omega arith),
)

xor_zero_fuel : (n a : ℕ) → a ≤ n → bit_xor a 0 ≡ a
xor_zero_fuel zero zero h = refl
xor_zero_fuel zero (suc a) h = absurd (omega arith)
xor_zero_fuel (suc n) a h = omega (arith, xor_step a 0, xor_zero_fuel n (a / 2) (omega arith))

pub xor_zero : (a : ℕ) → bit_xor a 0 ≡ a
xor_zero a = xor_zero_fuel a a (omega arith)

-- A second `^` with the same mask undoes the first.
pub xor_twice : (a b : ℕ) → bit_xor (bit_xor a b) b ≡ a
xor_twice a b = xor_twice_fuel (a + b) a b (omega arith)

-- The low bits of a `^` depend on the low bits alone: from `m` to `2 * m`.
xor_low_double :
    (m : ℕ)
    → ((a : ℕ) → a % (m * 2) / 2 ≡ a / 2 % m)
    → ((a : ℕ) → a % (m * 2) ≡ a / 2 % m * 2 + a % 2)
    → ((a b : ℕ) → bit_xor a b % m ≡ bit_xor (a % m) (b % m))
    → (a b : ℕ) → bit_xor a b % (m * 2) ≡ bit_xor (a % (m * 2)) (b % (m * 2))
xor_low_double m half split ih a b = ground (
  arith,
  xor_step a b,
  xor_step (a % (m * 2)) (b % (m * 2)),
  half a,
  half b,
  split a,
  split b,
  split (bit_xor a b),
  ih (a / 2) (b / 2),
)

abbrev LowBits : ℕ → Type 0
LowBits m = (a b : ℕ) → bit_xor a b % m ≡ bit_xor (a % m) (b % m)

xor_low_1 : LowBits 1
xor_low_1 a b = ground arith

xor_low_16 : LowBits 16
xor_low_16 =
    xor_low_double 8 (λ a. omega arith) (λ a. omega arith)
      (xor_low_double 4 (λ a. omega arith) (λ a. omega arith)
        (xor_low_double 2 (λ a. omega arith) (λ a. omega arith)
          (xor_low_double 1 (λ a. omega arith) (λ a. omega arith) xor_low_1)))

-- The low byte of a `^` is the `^` of the low bytes.
pub xor_low : (a b : ℕ) → bit_xor a b % 256 ≡ bit_xor (a % 256) (b % 256)
xor_low =
    xor_low_double 128 (λ a. omega arith) (λ a. omega arith)
      (xor_low_double 64 (λ a. omega arith) (λ a. omega arith)
        (xor_low_double 32 (λ a. omega arith) (λ a. omega arith)
          (xor_low_double 16 (λ a. omega arith) (λ a. omega arith) xor_low_16)))
