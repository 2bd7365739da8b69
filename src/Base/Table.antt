-- ===== src/Base/Table.antt =====
-- A claim on a small range, checked at every value.
use Prim.Native.Nat.{ℕ, zero, suc, ◌<◌}
use mathlib.Core.Path.{◌≡◌}
use mathlib.Core.Bool.{Bool, true, false}
use native.Mathlib.Omega.{arith}

-- The test passes at every number that is below the bound.
unfoldable pub passes : (ℕ → Bool) → ℕ → Bool
passes test zero = true
passes test (suc top) = elim (test top) [ true ↦ passes test top | false ↦ false ]

pub passes_at :
    (test : ℕ → Bool) (bound v : ℕ) → v < bound → passes test bound ≡ true → test v ≡ true
unfolding passes
passes_at test zero v below all = absurd (omega arith)
passes_at test (suc top) v below all = ground (arith, passes_at test top v)
