-- ===== src/Base/Bits/Digits.antt =====
-- A bitwise operation from its recursion on binary digits: the equation for the lowest digit, and
-- that it works on the low digits and on the others apart. `∘` is the operation and `f` its digit.
use Prim.Native.Nat.{ℕ, zero, suc, ◌+◌, ◌*◌, ◌/◌, ◌%◌, ◌^◌, ◌≤◌, ◌<◌, digits}
use mathlib.Core.Path.{◌≡◌, refl, ap, ◌∙◌, sym}
use mathlib.Core.Logic.{◌⊎◌, inl, inr}
use native.Mathlib.Nat.{pow-suc}
use native.Mathlib.Omega.{arith}

module _ (z : ℕ → ℕ) (f : ℕ → ℕ → ℕ) where
  -- One round of fuel more than needed makes no difference.
  spare : (b a n : ℕ) → a ≤ n → digits z f (suc n) a b ≡ digits z f n a b
  spare b zero zero h = refl
  spare b (suc a) zero h = absurd (omega arith)
  spare b zero (suc n) h = refl
  spare b (suc a) (suc n) h =
      ap (λ high. high * 2 + f (suc a % 2) (b % 2)) (spare (b / 2) (suc a / 2) n (omega arith))

  last_or_before : (a n : ℕ) → a ≤ suc n → (a ≡ suc n) ⊎ (a ≤ n)
  last_or_before a n h = omega arith

  own_fuel : (b a n : ℕ) → a ≤ n → digits z f n a b ≡ digits z f a a b
  own_fuel b a zero h = let none_left : 0 ≡ a = omega arith in ap (λ k. digits z f k a b) none_left
  own_fuel b a (suc n) h = elim (last_or_before a n h) [
    | inl all ↦ ap (λ k. digits z f k a b) (sym all)
    | inr fewer ↦ spare b a n fewer ∙ own_fuel b a n fewer
  ]

  -- The lowest digit and the others.
  pub lowest :
      (a b : ℕ)
      → digits z f (suc a) (suc a) b
        ≡ digits z f (suc a / 2) (suc a / 2) (b / 2) * 2 + f (suc a % 2) (b % 2)
  lowest a b =
      ap (λ high. high * 2 + f (suc a % 2) (b % 2)) (own_fuel (b / 2) (suc a / 2) a (omega arith))

twice_pow : (q k : ℕ) → q * 2 ^ suc k ≡ 2 * (q * 2 ^ k)
twice_pow q k = omega (arith, ap (λ (t : ℕ). q * t) (pow-suc 2 k))

module _ (f op : ℕ → ℕ → ℕ) (nothing : op 0 0 ≡ 0)
    (by_digit : (a b : ℕ) → op a b ≡ op (a / 2) (b / 2) * 2 + f (a % 2) (b % 2)) where
  pub apart :
      (k low high low' high' : ℕ)
      → low < 2 ^ k
      → low' < 2 ^ k
      → op (high * 2 ^ k + low) (high' * 2 ^ k + low') ≡ op high high' * 2 ^ k + op low low'
  apart zero low high low' high' p q = ground (arith, nothing)
  apart (suc k) low high low' high' p q = ground (
    arith,
    by_digit (high * 2 ^ suc k + low) (high' * 2 ^ suc k + low'),
    by_digit low low',
    twice_pow high k,
    twice_pow high' k,
    twice_pow (op high high') k,
    pow-suc 2 k,
    apart k (low / 2) high (low' / 2) high',
  )
