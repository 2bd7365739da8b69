-- ===== src/Base/Order.antt =====
-- Induction on numbers from all the smaller ones.
use Prim.Native.Nat.{ℕ, zero, suc, ◌<◌}
use native.Mathlib.Omega.{arith}

module _ {ℓ} (P : ℕ → Type ℓ) (grow : (n : ℕ) → ((k : ℕ) → k < n → P k) → P n) where
  smaller_upto : (top k : ℕ) → k < top → P k
  smaller_upto zero k h = elim h [ ]
  smaller_upto (suc top) k h = grow k (λ j below. smaller_upto top j (omega arith))

  pub smaller : (n : ℕ) → P n
  smaller n = grow n (smaller_upto n)
