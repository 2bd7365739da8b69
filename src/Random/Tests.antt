-- ===== src/Random/Tests.antt =====
-- The theorems on random numbers at a counter as generator, and on powers of two.
use ctfuzz.Base.{ℕ, ◌+◌, ◌*◌, ◌%◌, ◌^◌, ◌<◌, ◌≡◌, ◌↔◌, ◌⊎◌, ◌≤◌, false, none, some, arith}
use ctfuzz.Random.{Source, Rng, is_biased, uint64_max, rand_below, rand_below_datalen, next_p2}
use ctfuzz.Random.Uniform.{kept_each, is_biased-uniform}
use ctfuzz.Random.Fair.{IsFair, Below, rand_below-Below}
use ctfuzz.Random.Power.{IsLeast, next_p2-u64}

-- Outputs from 0 to 999, in turn.
abbrev counter : Source ℕ
counter = record {
  rand_next = λ g. (g % 1000, g + 1);
  urandom = λ g. 5;
  first = λ g. g;
  second = λ g. g + 1;
  reseed_rng = 100000;
}

small_is_kept : (x limit : ℕ) → x < 1000 → 1 < limit → limit < 2 ^ 32 → is_biased limit x ≡ false
small_is_kept x limit small large word = ground (arith, mod_word uint64_max limit)
  where
    mod_word : (a limit : ℕ) → 0 < limit → a % limit < limit
    mod_word a limit pos = omega (arith, pos)

counter-IsFair : IsFair counter 1
counter-IsFair limit g large word =
    (0, omega arith, small_is_kept (g % 1000) limit (omega arith) large word)

abbrev fresh : Rng ℕ
fresh = record { rand_cnt = 0; fixed_seed = false; init_seed = 0; rand_seed = 0 }

rand_below-Below_example :
    Below counter 10 (rand_below counter 1 10 fresh)
    × Below counter 10 (rand_below_datalen counter 1 10 fresh)
rand_below-Below_example =
    rand_below-Below counter 1 counter-IsFair 10 fresh (omega arith) (omega arith)

is_biased-uniform_example :
    (is_biased 6 13 ≡ false) × (13 % 6 ≡ 1)
    ↔ ((k : ℕ) × (k < kept_each 6) × (◌≡◌ {A = ℕ} 13 (k * 6 + 1)))
is_biased-uniform_example = is_biased-uniform 6 1 13 (omega arith) (omega arith)

next_p2-u64_example :
    ((2 ^ 63 + 1 ≤ 2 ^ 63)
      × ((n : ℕ) × (next_p2 64 (2 ^ 63 + 1) ≡ some (2 ^ n)) × IsLeast (2 ^ 63 + 1) n))
    ⊎ ((2 ^ 63 < 2 ^ 63 + 1) × ((fuel : ℕ) → next_p2 fuel (2 ^ 63 + 1) ≡ none))
next_p2-u64_example = next_p2-u64 (2 ^ 63 + 1) (omega arith)
