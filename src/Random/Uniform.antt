-- ===== src/Random/Uniform.antt =====
-- No number below the limit is more likely than another.
use native.Mathlib.Nat.{mod-eq_of_lt, mul-add-mod_self_right, div-add-mod', div-mul-le_self}
use ctfuzz.Base.{ℕ, ◌+◌, ◌*◌, ◌/◌, ◌%◌, ◌<◌, ◌≡◌, ◌∙◌, ◌↔◌, false, arith}
use ctfuzz.Random.{uint64_max, is_biased}

-- How many numbers that are kept give each result.
abbrev pub kept_each : ℕ → ℕ
kept_each limit = uint64_max / limit

-- The numbers that are kept are those below a multiple of the limit.
kept_below : (limit x : ℕ) → is_biased limit x ≡ false → x < kept_each limit * limit
kept_below limit x kept = ground (arith, div-add-mod' uint64_max limit)

below_kept : (limit x : ℕ) → x < kept_each limit * limit → is_biased limit x ≡ false
below_kept limit x small = ground (arith, div-add-mod' uint64_max limit)

quotient_below : (limit x q : ℕ) → x < q * limit → x / limit < q
quotient_below limit x q small = grind (arith, div-mul-le_self x limit)

group_below : (k q limit r : ℕ) → k < q → r < limit → k * limit + r < q * limit
group_below k q limit r small below = grind arith

-- For a limit that is not 0 and every result r below it, the outputs of rand_next that the loop of
-- rand_below keeps and that give r are exactly the numbers k * limit + r with k below
-- UINT64_MAX / limit: as many for one result as for another.
pub is_biased-uniform :
    (limit r x : ℕ)
    → 0 < limit
    → r < limit
    → ((is_biased limit x ≡ false) × (x % limit ≡ r)
        ↔ ((k : ℕ) × (k < kept_each limit) × (x ≡ k * limit + r)))
is_biased-uniform limit r x pos below = (
  λ (kept, same). (
    x / limit,
    quotient_below limit x (kept_each limit) (kept_below limit x kept),
    omega (arith, same, div-add-mod' x limit),
  ),
  λ (k, small, e). (
    below_kept limit x (rw e (group_below k (kept_each limit) limit r small below)),
    rw e (mul-add-mod_self_right k limit r ∙ mod-eq_of_lt below),
  ),
)
