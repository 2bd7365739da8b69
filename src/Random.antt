-- ===== src/Random.antt =====
-- The inline routines of `ctfuzz/afl/afl-fuzz.h`: random numbers below a limit, and `next_p2`. The
-- generator `rand_next` is a parameter, as is what `/dev/urandom` gives. Loops take fuel.
pub mod Uniform
pub mod Fair
pub mod Power
mod Tests
use ctfuzz.Base.{
  ℕ, zero, suc, ◌+◌, ◌-◌, ◌*◌, ◌/◌, ◌%◌, ◌^◌, Bool, true, false, not, ◌&&◌, Option, none, some,
  ◌==◌, leb, ltb, if◌then◌else◌,
}

-- `rand_next`, the seed that `/dev/urandom` gives, `rand_seed[0]` and `rand_seed[1]`, over the seeds
-- `G`; and `RESEED_RNG` of `config.h`.
pub record Source (G : Type 0) : Type 0 where
  pub rand_next : G → ℕ × G
  pub urandom : G → G
  pub first : G → ℕ
  pub second : G → ℕ
  pub reseed_rng : ℕ

-- The fields of `afl_state_t`. `rand_cnt` is a `u32`.
pub record Rng (G : Type 0) : Type 0 where
  pub rand_cnt : ℕ
  pub fixed_seed : Bool
  pub init_seed : ℕ
  pub rand_seed : G

abbrev pub uint64_max : ℕ
uint64_max = 2 ^ 64 - 1

-- `unbiased_rnd >= (UINT64_MAX - (UINT64_MAX % limit))`
abbrev pub is_biased : ℕ → ℕ → Bool
is_biased limit unbiased_rnd = leb (uint64_max - uint64_max % limit) unbiased_rnd

infixl 5 ◌>>=◌
abbrev pub ◌>>=◌ : {A : Type 0} {B : Type 0} → Option A → (A → Option B) → Option B
none >>= f = none
some a >>= f = f a

module _ {G : Type 0} (source : Source G) where
  -- `!afl->rand_cnt--`, and a new seed where it was 0.
  unfoldable pub counted_down : Rng G → Rng G
  counted_down s =
      let seed = source.urandom s.rand_seed in
      if s.rand_cnt == 0 && not s.fixed_seed
      then record s {
        rand_seed = seed;
        rand_cnt = source.reseed_rng / 2 + source.second seed % source.reseed_rng;
      }
      else record s { rand_cnt = (s.rand_cnt + 2 ^ 32 - 1) % 2 ^ 32 }

  -- The `do` loop; `none` is the end of the fuel.
  unfoldable pub draw : ℕ → ℕ → G → Option (ℕ × G)
  draw zero limit g = none
  draw (suc fuel) limit g =
      let drawn = source.rand_next g in
      let rest = draw fuel limit drawn.1 in
      if is_biased limit drawn.0 then rest else some (drawn.0 % limit, drawn.1)

  unfoldable pub rand_below : ℕ → ℕ → Rng G → Option (ℕ × Rng G)
  rand_below fuel limit s =
      let s' = counted_down s in
      if leb limit 1
      then some (0, s)
      else draw fuel limit s'.rand_seed >>= λ (r, g). some (r, record s' { rand_seed = g })

  -- `rand_below(afl, limit) % (1 + rand_below(afl, limit - 1))`, and the same once more. The operands
  -- of a `%` are computed from the left.
  unfoldable pub reduced_by : ℕ → ℕ → ℕ × Rng G → Option (ℕ × Rng G)
  reduced_by fuel limit (a, s) = rand_below fuel (limit - 1) s >>= λ (b, s). some (a % (1 + b), s)

  -- `switch (rand_below(afl, 3))`
  unfoldable pub by_case : ℕ → ℕ → ℕ → Rng G → Option (ℕ × Rng G)
  by_case fuel limit c s =
      if c == 2
      then rand_below fuel limit s >>= reduced_by fuel limit >>= reduced_by fuel limit
      else if c == 1
      then rand_below fuel limit s >>= reduced_by fuel limit
      else if c == 0
      then rand_below fuel limit s
      else some (1, s)

  unfoldable pub rand_below_datalen : ℕ → ℕ → Rng G → Option (ℕ × Rng G)
  rand_below_datalen fuel limit s =
      if leb limit 1 then some (0, s) else rand_below fuel 3 s >>= λ (c, s). by_case fuel limit c s

  abbrev pub rand_get_seed : Rng G → ℕ
  rand_get_seed s = if s.fixed_seed then s.init_seed else source.first s.rand_seed

-- `while (val > ret)`, in `u64`.
unfoldable pub doubled : ℕ → ℕ → ℕ → Option ℕ
doubled zero val ret = none
doubled (suc fuel) val ret =
    let rest = doubled fuel val (ret * 2 % 2 ^ 64) in if ltb ret val then rest else some ret

unfoldable pub next_p2 : ℕ → ℕ → Option ℕ
next_p2 fuel val = doubled fuel val 1
