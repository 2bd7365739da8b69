-- ===== src/Bitmap/Novelty/Spec.antt =====
-- What a run brings anew, byte by byte, and what `discover_word` is documented to do with a word:
-- it raises `ret` to 1 where only a hit count is new and to 2 where a tuple is, and clears the bits
-- of the run in the virgin map.
use Prim.Native.Nat.{max}
use ctfuzz.Base.{
  ℕ, zero, suc, ◌+◌, ◌-◌, ◌≤◌, ◌<◌, ◌≡◌, refl, ap, ap₂, bit_and, List, [], ◌∷◌, map, false, arith,
  ◌==◌, if◌then◌else◌, length,
}
use ctfuzz.Base.Bits.{bit_and-cleared, bit_and-le}
use ctfuzz.Bitmap.Classes.{count_class_lookup8, simplify_lookup}
use ctfuzz.Bitmap.Novelty.{Coverage}

-- The bits of the run's byte that are still virgin tell: 255 is a tuple that was never seen.
abbrev pub novelty : ℕ → ℕ → ℕ
novelty c v = if bit_and c v == 0 then 0 else if v == 255 then 2 else 1

-- `v & ~c`
abbrev pub clear : ℕ → ℕ → ℕ
clear c v = v - bit_and c v

-- The most novel of the first `n` bytes.
abbrev pub novelty_upto : ℕ → List ℕ → List ℕ → ℕ
novelty_upto zero cs vs = 0
novelty_upto (suc n) [] vs = 0
novelty_upto (suc n) (c ∷ cs) [] = 0
novelty_upto (suc n) (c ∷ cs) (v ∷ vs) = max (novelty c v) (novelty_upto n cs vs)

-- The first `n` bytes cleared.
abbrev pub clear_upto : ℕ → List ℕ → List ℕ → List ℕ
clear_upto zero cs vs = vs
clear_upto (suc n) [] vs = vs
clear_upto (suc n) (c ∷ cs) [] = []
clear_upto (suc n) (c ∷ cs) (v ∷ vs) = clear c v ∷ clear_upto n cs vs

-- What the comments of `afl-fuzz-bitmap.c` say of the functions of `coverage-64.h`.
pub record IsCoverage (cov : Coverage) : Type 0 where
  pub discover_word_lem :
      (ret : ℕ) (c v : List ℕ)
      → length c ≡ 8
      → length v ≡ 8
      → cov.discover_word ret c v ≡ (max ret (novelty_upto 8 c v), clear_upto 8 c v)
  pub classify_counts_lem : (t : List ℕ) → cov.classify_counts t ≡ map count_class_lookup8 t
  pub simplify_trace_lem : (t : List ℕ) → cov.simplify_trace t ≡ map simplify_lookup t
  -- The scan that finds nothing: no count of the trace, once classified, is new.
  pub skim_lem :
      (v t : List ℕ)
      → cov.skim v t ≡ false
      → novelty_upto (length t) (map count_class_lookup8 t) v ≡ 0

pub length-clear_upto : (n : ℕ) (cs vs : List ℕ) → length (clear_upto n cs vs) ≡ length vs
length-clear_upto zero cs vs = refl
length-clear_upto (suc n) [] vs = refl
length-clear_upto (suc n) (c ∷ cs) [] = refl
length-clear_upto (suc n) (c ∷ cs) (v ∷ vs) = ap suc (length-clear_upto n cs vs)

novelty-clear : (c v : ℕ) → novelty c (clear c v) ≡ 0
novelty-clear c v = rw bit_and-cleared

clear-clear : (c v : ℕ) → clear c (clear c v) ≡ clear c v
clear-clear c v = omega (arith, bit_and-cleared c v)

-- What has been cleared is not new.
pub novelty_upto-clear_upto : (n : ℕ) (cs vs : List ℕ) → novelty_upto n cs (clear_upto n cs vs) ≡ 0
novelty_upto-clear_upto zero cs vs = refl
novelty_upto-clear_upto (suc n) [] vs = refl
novelty_upto-clear_upto (suc n) (c ∷ cs) [] = refl
novelty_upto-clear_upto (suc n) (c ∷ cs) (v ∷ vs) =
    ap₂ max (novelty-clear c v) (novelty_upto-clear_upto n cs vs)

pub clear_upto_idem :
    (n : ℕ) (cs vs : List ℕ) → clear_upto n cs (clear_upto n cs vs) ≡ clear_upto n cs vs
clear_upto_idem zero cs vs = refl
clear_upto_idem (suc n) [] vs = refl
clear_upto_idem (suc n) (c ∷ cs) [] = refl
clear_upto_idem (suc n) (c ∷ cs) (v ∷ vs) = ap₂ ◌∷◌ (clear-clear c v) (clear_upto_idem n cs vs)

-- Nothing is new exactly where nothing is cleared.
pub clear_upto_same : (n : ℕ) (cs vs : List ℕ) → novelty_upto n cs vs ≡ 0 → clear_upto n cs vs ≡ vs
clear_upto_same zero cs vs h = refl
clear_upto_same (suc n) [] vs h = refl
clear_upto_same (suc n) (c ∷ cs) [] h = refl
clear_upto_same (suc n) (c ∷ cs) (v ∷ vs) h =
    ap₂ ◌∷◌ (ground (arith, h)) (clear_upto_same n cs vs (omega (arith, h)))

-- The sum of a map's bytes, which every find makes smaller.
abbrev pub weight : List ℕ → ℕ
weight [] = 0
weight (v ∷ vs) = v + weight vs

pub weight-clear_upto : (n : ℕ) (cs vs : List ℕ) → weight (clear_upto n cs vs) ≤ weight vs
weight-clear_upto zero cs vs = omega arith
weight-clear_upto (suc n) [] vs = omega arith
weight-clear_upto (suc n) (c ∷ cs) [] = omega arith
weight-clear_upto (suc n) (c ∷ cs) (v ∷ vs) = omega (arith, weight-clear_upto n cs vs)

pub weight-clear_upto_lt :
    (n : ℕ) (cs vs : List ℕ) → 0 < novelty_upto n cs vs → weight (clear_upto n cs vs) < weight vs
weight-clear_upto_lt zero cs vs h = absurd (omega arith)
weight-clear_upto_lt (suc n) [] vs h = absurd (omega arith)
weight-clear_upto_lt (suc n) (c ∷ cs) [] h = absurd (omega arith)
weight-clear_upto_lt (suc n) (c ∷ cs) (v ∷ vs) h =
    ground (arith, weight-clear_upto n cs vs, weight-clear_upto_lt n cs vs, bit_and-le c v)
