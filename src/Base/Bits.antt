-- ===== src/Base/Bits.antt =====
-- `&` and `|` at variables: by the lowest digit, on fields apart, and `b & ~a`.
mod Digits
use Digits.{lowest, apart}
use Prim.Native.Nat.{
  ℕ, zero, suc, ◌+◌, ◌*◌, ◌/◌, ◌%◌, ◌^◌, ◌≤◌, ◌<◌, ◌-◌, min, max, bit_and, bit_or, bit_and-bitwise,
  bit_or-bitwise,
}
use mathlib.Core.Path.{◌≡◌, ap, ◌∙◌}
use native.Mathlib.Omega.{arith}
use ctfuzz.Base.Order.{smaller}

pub nothing-bit_and : (b : ℕ) → bit_and 0 b ≡ 0
nothing-bit_and b = bit_and-bitwise 0 b

pub nothing-bit_or : (b : ℕ) → bit_or 0 b ≡ b
nothing-bit_or b = bit_or-bitwise 0 b

pub bit_and-low_digit : (a b : ℕ) → bit_and a b ≡ bit_and (a / 2) (b / 2) * 2 + min (a % 2) (b % 2)
bit_and-low_digit zero b = omega (arith, nothing-bit_and b, nothing-bit_and (b / 2))
bit_and-low_digit (suc a) b = omega (
  arith,
  bit_and-bitwise (suc a) b,
  bit_and-bitwise (suc a / 2) (b / 2),
  lowest (λ rest. zero) min a b,
)

pub bit_or-low_digit : (a b : ℕ) → bit_or a b ≡ bit_or (a / 2) (b / 2) * 2 + max (a % 2) (b % 2)
bit_or-low_digit zero b = omega (arith, nothing-bit_or b, nothing-bit_or (b / 2))
bit_or-low_digit (suc a) b = omega (
  arith,
  bit_or-bitwise (suc a) b,
  bit_or-bitwise (suc a / 2) (b / 2),
  lowest (λ rest. rest) max a b,
)

pub bit_and-nothing : (a : ℕ) → bit_and a 0 ≡ 0
bit_and-nothing = smaller (λ a. bit_and a 0 ≡ 0) halved
  where
    halved : (a : ℕ) → ((k : ℕ) → k < a → bit_and k 0 ≡ 0) → bit_and a 0 ≡ 0
    halved zero below = nothing-bit_and 0
    halved (suc a) below =
        omega (arith, bit_and-low_digit (suc a) 0, below (suc a / 2) (omega arith))

pub bit_or-nothing : (a : ℕ) → bit_or a 0 ≡ a
bit_or-nothing = smaller (λ a. bit_or a 0 ≡ a) halved
  where
    halved : (a : ℕ) → ((k : ℕ) → k < a → bit_or k 0 ≡ k) → bit_or a 0 ≡ a
    halved zero below = nothing-bit_or 0
    halved (suc a) below =
        omega (arith, bit_or-low_digit (suc a) 0, below (suc a / 2) (omega arith))

-- `&` works byte by byte.
pub bit_and_byte :
    (a b m n : ℕ)
    → a < 256
    → m < 256
    → bit_and (a + 256 * b) (m + 256 * n) ≡ bit_and a m + 256 * bit_and b n
bit_and_byte a b m n p q =
    ground (arith, apart min bit_and (nothing-bit_and 0) bit_and-low_digit 8 a b m n)

-- Digits above those of the mask do not matter.
pub bit_and_low : (k a b m : ℕ) → a < 2 ^ k → m < 2 ^ k → bit_and (a + 2 ^ k * b) m ≡ bit_and a m
bit_and_low k a b m p q =
    ground
      (arith, apart min bit_and (nothing-bit_and 0) bit_and-low_digit k a b m 0, bit_and-nothing b)

-- `|` of fields that do not overlap is their sum.
pub bit_or_fields : (k high low : ℕ) → low < 2 ^ k → bit_or (high * 2 ^ k) low ≡ high * 2 ^ k + low
bit_or_fields k high low fits = ground (
  arith,
  apart max bit_or (nothing-bit_or 0) bit_or-low_digit k 0 high low 0,
  bit_or-nothing high,
  nothing-bit_or low,
)

pub bit_and-le : (a b : ℕ) → bit_and a b ≤ b
bit_and-le = smaller (λ a. (b : ℕ) → bit_and a b ≤ b) halved
  where
    halved : (a : ℕ) → ((k : ℕ) → k < a → (b : ℕ) → bit_and k b ≤ b) → (b : ℕ) → bit_and a b ≤ b
    halved zero below b = omega (arith, nothing-bit_and b)
    halved (suc a) below b =
        omega (arith, bit_and-low_digit (suc a) b, below (suc a / 2) (omega arith) (b / 2))

-- `b & ~a` has no digit in common with `a`.
pub bit_and-cleared : (a b : ℕ) → bit_and a (b - bit_and a b) ≡ 0
bit_and-cleared = smaller (λ a. (b : ℕ) → bit_and a (b - bit_and a b) ≡ 0) halved
  where
    halved :
        (a : ℕ)
        → ((k : ℕ) → k < a → (b : ℕ) → bit_and k (b - bit_and k b) ≡ 0)
        → (b : ℕ) → bit_and a (b - bit_and a b) ≡ 0
    halved zero below b = nothing-bit_and (b - bit_and 0 b)
    halved (suc a) below b =
        let rest = b - bit_and (suc a) b in
        let digit = bit_and-low_digit (suc a) b in
        let bound = bit_and-le (suc a / 2) (b / 2) in
        let low : min (suc a % 2) (rest % 2) ≡ 0 = omega (arith, digit, bound) in
        let high : rest / 2 ≡ b / 2 - bit_and (suc a / 2) (b / 2) = omega (arith, digit, bound) in
        bit_and-low_digit (suc a) rest
        ∙ omega (arith, low, ap (bit_and (suc a / 2)) high, below (suc a / 2) (omega arith) (b / 2))
