-- ===== src/Random/Power.antt =====
-- The next power of two.
use native.Mathlib.Nat.{pow-suc, pow-le-pow_right}
use native.Mathlib.Decide.{dec_lt}
use ctfuzz.Base.{
  ap, true, ℕ, zero, suc, ◌+◌, ◌*◌, ◌%◌, ◌^◌, ◌≤◌, ◌<◌, ◌≡◌, ◌⊎◌, inl, inr, refl, ◌∙◌, inl, inr,
  Bool-cases, none, some, ltb, arith, if-true, if-false,
}
use ctfuzz.Random.{doubled, next_p2}

-- 2 ^ k is the least power of two that is not below the number.
pub record IsLeast (val k : ℕ) : Type 0 where
  pub reaches : val ≤ 2 ^ k
  pub least : (j : ℕ) → j < k → 2 ^ j < val

double : (k : ℕ) → k < 63 → 2 ^ k * 2 % 2 ^ 64 ≡ 2 ^ suc k
double k small =
    omega (arith, pow-suc 2 k, pow-le-pow_right {n = 2} (omega arith) {i = suc k} {j = 63} small)

not_last : (k val : ℕ) → val ≤ 2 ^ 63 → k ≤ 63 → 2 ^ k < val → k < 63
not_last k val small below less = elim (dec_lt k 63) [
  | yes low ↦ low
  | no last ↦
      let e : k ≡ 63 = omega (arith, last, below) in absurd (omega (arith, small, rw e at less))
]

one_more :
    (k val : ℕ) → ((j : ℕ) → j < k → 2 ^ j < val) → 2 ^ k < val → (j : ℕ) → j < suc k → 2 ^ j < val
one_more k val old less j before = elim (dec_lt j k) [
  | yes earlier ↦ old j earlier
  | no last ↦ let e : j ≡ k = omega (arith, last, before) in rw e less
]

power_below : (k val : ℕ) → k ≤ 63 → 2 ^ 63 < val → 2 ^ k < val
power_below k val below large =
    omega (arith, large, pow-le-pow_right {n = 2} (omega arith) {i = k} {j = 63} below)

lt_true : (a b : ℕ) → a < b → ltb a b ≡ true
lt_true a b less = ground (arith, less)

doubled_lem :
    (fuel val k : ℕ)
    → val ≤ 2 ^ 63
    → k ≤ 63
    → 63 < k + fuel
    → ((j : ℕ) → j < k → 2 ^ j < val)
    → (n : ℕ) × (doubled fuel val (2 ^ k) ≡ some (2 ^ n)) × IsLeast val n
unfolding doubled
doubled_lem zero val k small below enough old = absurd (omega (arith, enough))
doubled_lem (suc fuel) val k small below enough old = elim (Bool-cases (ltb (2 ^ k) val)) [
  | inr stops ↦ (
    k,
    if-false (ltb (2 ^ k) val) _ _ stops,
    record { reaches = ground (arith, stops); least = old },
  )
  | inl more ↦
      let low : k < 63 = not_last k val small below (ground (arith, more)) in
      let (n, e, is) =
        doubled_lem fuel val (suc k) small low (omega (arith, enough))
          (λ j before. one_more k val old (ground (arith, more)) j before) in
      (n, if-true (ltb (2 ^ k) val) _ _ more ∙ ap (doubled fuel val) (double k low) ∙ e, is)
]

-- next_p2 returns, for every number up to 2^63, the least power of two that is not below it: 64 rounds
-- are enough.
pub next_p2_lem :
    (val : ℕ) → val ≤ 2 ^ 63 → (n : ℕ) × (next_p2 64 val ≡ some (2 ^ n)) × IsLeast val n
unfolding next_p2
next_p2_lem val small =
    doubled_lem 64 val 0 small (omega arith) (omega arith) (λ j h. absurd (omega (arith, h)))

-- Every power that fits into a u64 is too small, and so is the 0 that doubling 2^63 gives.
doubled_zero : (fuel val : ℕ) → 0 < val → doubled fuel val 0 ≡ none
unfolding doubled
doubled_zero zero val above = refl
doubled_zero (suc fuel) val above = rw (lt_true 0 val above) (doubled_zero fuel val above)

doubled-none : (fuel val k : ℕ) → 2 ^ 63 < val → k ≤ 63 → doubled fuel val (2 ^ k) ≡ none
unfolding doubled
doubled-none zero val k large below = refl
doubled-none (suc fuel) val k large below = elim (dec_lt k 63) [
  | yes low ↦
      if-true _ _ _ (lt_true (2 ^ k) val (power_below k val below large))
      ∙ ap (doubled fuel val) (double k low)
      ∙ doubled-none fuel val (suc k) large low
  | no last ↦
      let e : k ≡ 63 = omega (arith, last, below) in
      rw e
        (if-true _ _ _ (lt_true (2 ^ 63) val large) ∙ doubled_zero fuel val (omega (arith, large)))
]

-- For a number above 2^63 that fits into its u64, next_p2 never returns, whatever the fuel is: the
-- power of two wraps to 0 and stays there.
pub next_p2-none : (fuel val : ℕ) → 2 ^ 63 < val → val < 2 ^ 64 → next_p2 fuel val ≡ none
unfolding next_p2
next_p2-none fuel val large fits = doubled-none fuel val 0 large (omega arith)

-- For every u64: up to 2^63, next_p2 returns the least power of two that is not below it, and 64
-- rounds are enough; above, it never returns, whatever the fuel is.
pub next_p2-u64 :
    (val : ℕ)
    → val < 2 ^ 64
    → ((val ≤ 2 ^ 63) × ((n : ℕ) × (next_p2 64 val ≡ some (2 ^ n)) × IsLeast val n))
      ⊎ ((2 ^ 63 < val) × ((fuel : ℕ) → next_p2 fuel val ≡ none))
next_p2-u64 val fits = elim (dec_lt (2 ^ 63) val) [
  | no small ↦ let below : val ≤ 2 ^ 63 = omega (arith, small) in inl (below, next_p2_lem val below)
  | yes large ↦ inr (large, λ fuel. next_p2-none fuel val large fits)
]
