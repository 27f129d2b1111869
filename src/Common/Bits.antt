-- ===== src/Common/Bits.antt =====
-- `|` of a shifted byte with a byte and `&` with a low mask, as arithmetic.
use Prim.Native.Nat.{ℕ, zero, suc, ◌+◌, ◌*◌, ◌/◌, ◌%◌, ◌≤◌, ◌<◌, min, max, bit_and, bit_or}
use Prim.Native.Nat.{digits, bit_and-bitwise, bit_or-bitwise}
use mathlib.Core.Path.{ap, ◌≡◌, refl, ap₂}
use native.Mathlib.Omega.{arith}

-- The native operations run through binary digits; any fuel from the number on serves.
enough_fuel :
    (z : ℕ → ℕ) (f : ℕ → ℕ → ℕ) (n m a b : ℕ) → a ≤ n → a ≤ m → digits z f n a b ≡ digits z f m a b
enough_fuel z f n m zero b p q = stop n m
  where
    stop : (i j : ℕ) → digits z f i zero b ≡ digits z f j zero b
    stop zero zero = refl
    stop zero (suc j) = refl
    stop (suc i) zero = refl
    stop (suc i) (suc j) = refl
enough_fuel z f zero m (suc a) b p q = absurd (omega arith)
enough_fuel z f (suc n) zero (suc a) b p q = absurd (omega arith)
enough_fuel z f (suc n) (suc m) (suc a) b p q =
    omega (arith, enough_fuel z f n m (suc a / 2) (b / 2) (omega arith) (omega arith))

-- One binary digit of `&` and of `|`.
and_digit : (a b : ℕ) → bit_and a b ≡ bit_and (a / 2) (b / 2) * 2 + min (a % 2) (b % 2)
and_digit zero b = omega (arith, bit_and-bitwise 0 b, bit_and-bitwise 0 (b / 2))
and_digit (suc a) b = omega (
  arith,
  bit_and-bitwise (suc a) b,
  bit_and-bitwise (suc a / 2) (b / 2),
  enough_fuel (λ y. zero) min a (suc a / 2) (suc a / 2) (b / 2) (omega arith) (omega arith),
)

or_digit : (a b : ℕ) → bit_or a b ≡ bit_or (a / 2) (b / 2) * 2 + max (a % 2) (b % 2)
or_digit zero b = omega (arith, bit_or-bitwise 0 b, bit_or-bitwise 0 (b / 2))
or_digit (suc a) b = omega (
  arith,
  bit_or-bitwise (suc a) b,
  bit_or-bitwise (suc a / 2) (b / 2),
  enough_fuel (λ y. y) max a (suc a / 2) (suc a / 2) (b / 2) (omega arith) (omega arith),
)

and_zero_upto : (n a : ℕ) → a ≤ n → bit_and a 0 ≡ 0
and_zero_upto n zero h = refl
and_zero_upto zero (suc a) h = absurd (omega arith)
and_zero_upto (suc n) (suc a) h =
    omega (arith, and_digit (suc a) 0, and_zero_upto n (suc a / 2) (omega arith))

or_zero_upto : (n a : ℕ) → a ≤ n → bit_or a 0 ≡ a
or_zero_upto n zero h = refl
or_zero_upto zero (suc a) h = absurd (omega arith)
or_zero_upto (suc n) (suc a) h =
    omega (arith, or_digit (suc a) 0, or_zero_upto n (suc a / 2) (omega arith))

pub bit_and-zero : (a : ℕ) → bit_and a 0 ≡ 0
bit_and-zero a = and_zero_upto a a (omega arith)

pub bit_or-zero : (a : ℕ) → bit_or a 0 ≡ a
bit_or-zero a = or_zero_upto a a (omega arith)

-- A mask of ones, digit by digit.
pub bit_and-1 : (a : ℕ) → bit_and a 1 ≡ a % 2
bit_and-1 a = omega (arith, and_digit a 1, bit_and-zero (a / 2))

bit_and-7 : (a : ℕ) → bit_and a 7 ≡ a % 8
bit_and-7 a = omega (arith, and_digit a 7, and_digit (a / 2) 3, bit_and-1 (a / 2 / 2))

pub bit_and-15 : (a : ℕ) → bit_and a 0x0f ≡ a % 16
bit_and-15 a = omega (arith, and_digit a 15, bit_and-7 (a / 2))

bit_and-31 : (a : ℕ) → bit_and a 0x1f ≡ a % 32
bit_and-31 a = omega (arith, and_digit a 31, bit_and-15 (a / 2))

pub bit_and-255 : (a : ℕ) → bit_and a 0xff ≡ a % 256
bit_and-255 a = omega (
  arith,
  and_digit a 255,
  and_digit (a / 2) 127,
  and_digit (a / 2 / 2) 63,
  bit_and-31 (a / 2 / 2 / 2),
)

bit_and-1023 : (a : ℕ) → bit_and a 1023 ≡ a % 1024
bit_and-1023 a = omega (arith, and_digit a 1023, and_digit (a / 2) 511, bit_and-255 (a / 2 / 2))

pub bit_and-8191 : (a : ℕ) → bit_and a 0x1fff ≡ a % 8192
bit_and-8191 a = omega (
  arith,
  and_digit a 8191,
  and_digit (a / 2) 4095,
  and_digit (a / 2 / 2) 2047,
  bit_and-1023 (a / 2 / 2 / 2),
)

pub bit_and-65535 : (a : ℕ) → bit_and a 0xffff ≡ a % 65536
bit_and-65535 a = omega (
  arith,
  and_digit a 65535,
  and_digit (a / 2) 32767,
  and_digit (a / 2 / 2) 16383,
  bit_and-8191 (a / 2 / 2 / 2),
)

-- Doubling goes through `|`, so a shift of both sides does.
or_double : (a b : ℕ) → bit_or (2 * a) (2 * b) ≡ 2 * bit_or a b
or_double a b = omega (arith, or_digit (2 * a) (2 * b), ap₂ bit_or (half a) (half b))
  where
    half : (n : ℕ) → 2 * n / 2 ≡ n
    half n = omega arith

or_times_16 : (a b : ℕ) → bit_or (16 * a) (16 * b) ≡ 16 * bit_or a b
or_times_16 a b = omega (
  arith,
  or_double a b,
  or_double (2 * a) (2 * b),
  or_double (4 * a) (4 * b),
  or_double (8 * a) (8 * b),
  ap₂ bit_or (two_two a) (two_two b),
  ap₂ bit_or (two_four a) (two_four b),
  ap₂ bit_or (two_eight a) (two_eight b),
)
  where
    two_two : (n : ℕ) → 2 * (2 * n) ≡ 4 * n
    two_two n = omega arith

    two_four : (n : ℕ) → 2 * (4 * n) ≡ 8 * n
    two_four n = omega arith

    two_eight : (n : ℕ) → 2 * (8 * n) ≡ 16 * n
    two_eight n = omega arith

pub bit_or-times_256 : (a b : ℕ) → bit_or (a * 256) (b * 256) ≡ bit_or a b * 256
bit_or-times_256 a b =
    omega
      (arith, or_times_16 a b, or_times_16 (16 * a) (16 * b), ap₂ bit_or (regroup a) (regroup b))
  where
    regroup : (n : ℕ) → 16 * (16 * n) ≡ n * 256
    regroup n = omega arith

-- `q << 4 | r` and `q << 8 | r` are sums where `r` fits the bits made free.
pub bit_or_nibble : (q r : ℕ) → r < 16 → bit_or (q * 16) r ≡ q * 16 + r
bit_or_nibble q r h = omega (
  arith,
  or_digit (q * 16) r,
  or_digit (q * 16 / 2) (r / 2),
  or_digit (q * 16 / 2 / 2) (r / 2 / 2),
  or_digit (q * 16 / 2 / 2 / 2) (r / 2 / 2 / 2),
  ap₂ bit_or left right,
  bit_or-zero q,
)
  where
    left : q * 16 / 2 / 2 / 2 / 2 ≡ q
    left = omega arith

    right : r / 2 / 2 / 2 / 2 ≡ 0
    right = omega arith

pub bit_or_byte : (q r : ℕ) → r < 256 → bit_or (q * 256) r ≡ q * 256 + r
bit_or_byte q r h = omega (
  arith,
  or_digit (q * 256) r,
  or_digit (q * 256 / 2) (r / 2),
  or_digit (q * 256 / 2 / 2) (r / 2 / 2),
  or_digit (q * 256 / 2 / 2 / 2) (r / 2 / 2 / 2),
  ap₂ bit_or left right,
  bit_or_nibble q (r / 16),
)
  where
    left : q * 256 / 2 / 2 / 2 / 2 ≡ q * 16
    left = omega arith

    right : r / 2 / 2 / 2 / 2 ≡ r / 16
    right = omega arith

-- The single bit 0x2000.
bit_and-2 : (a : ℕ) → bit_and a 2 ≡ a / 2 % 2 * 2
bit_and-2 a = omega (arith, and_digit a 2, bit_and-1 (a / 2))

bit_and-4 : (a : ℕ) → bit_and a 4 ≡ a / 4 % 2 * 4
bit_and-4 a = omega (arith, and_digit a 4, bit_and-2 (a / 2))

bit_and-8 : (a : ℕ) → bit_and a 8 ≡ a / 8 % 2 * 8
bit_and-8 a = omega (arith, and_digit a 8, bit_and-4 (a / 2))

bit_and-16 : (a : ℕ) → bit_and a 16 ≡ a / 16 % 2 * 16
bit_and-16 a = omega (arith, and_digit a 16, bit_and-8 (a / 2))

bit_and-32 : (a : ℕ) → bit_and a 32 ≡ a / 32 % 2 * 32
bit_and-32 a = omega (arith, and_digit a 32, bit_and-16 (a / 2))

bit_and-64 : (a : ℕ) → bit_and a 64 ≡ a / 64 % 2 * 64
bit_and-64 a = omega (arith, and_digit a 64, bit_and-32 (a / 2))

bit_and-128 : (a : ℕ) → bit_and a 128 ≡ a / 128 % 2 * 128
bit_and-128 a = omega (arith, and_digit a 128, bit_and-64 (a / 2))

bit_and-256 : (a : ℕ) → bit_and a 256 ≡ a / 256 % 2 * 256
bit_and-256 a = omega (arith, and_digit a 256, bit_and-128 (a / 2))

bit_and-512 : (a : ℕ) → bit_and a 512 ≡ a / 512 % 2 * 512
bit_and-512 a = omega (arith, and_digit a 512, bit_and-256 (a / 2))

bit_and-1024 : (a : ℕ) → bit_and a 1024 ≡ a / 1024 % 2 * 1024
bit_and-1024 a = omega (arith, and_digit a 1024, bit_and-512 (a / 2))

bit_and-2048 : (a : ℕ) → bit_and a 2048 ≡ a / 2048 % 2 * 2048
bit_and-2048 a = omega (arith, and_digit a 2048, bit_and-1024 (a / 2))

bit_and-4096 : (a : ℕ) → bit_and a 4096 ≡ a / 4096 % 2 * 4096
bit_and-4096 a = omega (arith, and_digit a 4096, bit_and-2048 (a / 2))

pub bit_and-8192 : (a : ℕ) → bit_and a 0x2000 ≡ a / 8192 % 2 * 8192
bit_and-8192 a = omega (arith, and_digit a 8192, bit_and-4096 (a / 2))

and_zero_left : (a : ℕ) → a ≡ 0 → bit_and a 3 ≡ 0
and_zero_left a h = ap (λ n. bit_and n 3) h

-- The two top bits of a byte below 64.
pub bit_and-192 : (a : ℕ) → a < 64 → bit_and a 0xc0 ≡ 0
bit_and-192 a h = omega (
  arith,
  and_digit a 192,
  and_digit (a / 2) 96,
  and_digit (a / 2 / 2) 48,
  and_digit (a / 2 / 2 / 2) 24,
  and_digit (a / 2 / 2 / 2 / 2) 12,
  and_digit (a / 2 / 2 / 2 / 2 / 2) 6,
  and_zero_left (a / 2 / 2 / 2 / 2 / 2 / 2),
)
