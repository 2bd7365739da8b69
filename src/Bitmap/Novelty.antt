-- ===== src/Bitmap/Novelty.antt =====
-- `has_new_bits`, `has_new_bits_unclassified` and `minimize_bits` of
-- `ctfuzz/afl/afl-fuzz-bitmap.c`, in the build with `WORD_SIZE_64`. The functions on words stand in
-- `coverage-64.h`, which the repository does not hold: they are a parameter, over the eight bytes
-- that a `u64` pointer refers to.
pub mod Spec
pub mod Loop
pub mod Laws
pub mod Fast
pub mod Samples
use ctfuzz.Base.{
  ℕ, zero, suc, ◌+◌, ◌/◌, ◌%◌, ◌^◌, bit_or, Bool, true, false, ◌||◌, Option, none, some, List, [],
  ◌∷◌, ◌++◌, ◌==◌, if◌then◌else◌, get_elem?, set, take,
}
use ctfuzz.State.{Afl, Result, ok, in_bounds, ◌>>=◌, VirginMap, virgin_bits, map_of, with_map}

-- `coverage-64.h`. `discover_word ret current virgin` is the new `*ret` and the new `*virgin`.
pub record Coverage : Type 0 where
  pub discover_word : ℕ → List ℕ → List ℕ → ℕ × List ℕ
  pub skim : List ℕ → List ℕ → Bool
  pub classify_counts : List ℕ → List ℕ
  pub simplify_trace : List ℕ → List ℕ

-- `*current` and `current++`: eight bytes, and what follows.
abbrev pub load64 : List ℕ → Option (List ℕ × List ℕ)
load64 (a ∷ b ∷ c ∷ d ∷ e ∷ f ∷ g ∷ h ∷ rest) = some (a ∷ b ∷ c ∷ d ∷ e ∷ f ∷ g ∷ h ∷ [], rest)
load64 _ = none

-- A word as a condition.
abbrev pub nonzero_word : List ℕ → Bool
nonzero_word [] = false
nonzero_word (b ∷ bs) = if b == 0 then nonzero_word bs else true

-- `((afl->fsrv.real_map_size + 7) >> 3)`, in `u32`.
abbrev pub words64 : ℕ → ℕ
words64 real_map_size = (real_map_size + 7) % 2 ^ 32 / 8

abbrev behind : List ℕ → Option (ℕ × List ℕ) → Option (ℕ × List ℕ)
behind w none = none
behind w (some (ret, rest)) = some (ret, w ++ rest)

-- `virgin_map == afl->virgin_bits`
abbrev pub is_virgin_bits : VirginMap → Bool
is_virgin_bits virgin_bits = true
is_virgin_bits _ = false

unfoldable pub mark_changed : VirginMap → ℕ → Afl → Afl
mark_changed m ret s =
    if ret == 0 then s else if is_virgin_bits m then record s { bitmap_changed = true } else s

module _ (cov : Coverage) where
  -- One round of the loop: the new `ret` and the new word of the virgin map.
  pub round : ℕ → List ℕ → List ℕ → ℕ × List ℕ
  round ret c v = if nonzero_word c then cov.discover_word ret c v else (ret, v)

  -- The loop `while (i--)`; the result is `ret` and the virgin map from the pointer on.
  pub discover : ℕ → ℕ → List ℕ → List ℕ → Option (ℕ × List ℕ)
  discover zero ret current virgin = some (ret, virgin)
  discover (suc i) ret current virgin = elim (load64 current) [
    | none ↦ none
    | some (c, current') ↦ elim (load64 virgin) [
      | none ↦ none
      | some (v, virgin') ↦ behind (round ret c v).1 (discover i (round ret c v).0 current' virgin')
    ]
  ]

  unfoldable pub has_new_bits : Afl → VirginMap → Result (ℕ × Afl)
  has_new_bits s m = do
    (ret, virgin) ←
        in_bounds (discover (words64 s.fsrv.real_map_size) 0 s.fsrv.trace_bits (map_of m s))
    ok (ret, mark_changed m ret (with_map m virgin s))

  -- `classify_counts(&afl->fsrv)`
  abbrev pub classify : Afl → Afl
  classify s =
      let fsrv = s.fsrv in
      record s { fsrv = record fsrv { trace_bits = cov.classify_counts fsrv.trace_bits } }

  -- `simplify_trace(afl, afl->fsrv.trace_bits)`
  abbrev pub simplify : Afl → Afl
  simplify s =
      let fsrv = s.fsrv in
      record s { fsrv = record fsrv { trace_bits = cov.simplify_trace fsrv.trace_bits } }

  -- `skim` is handed the end of the trace, at `map_size`.
  unfoldable pub has_new_bits_unclassified : Afl → VirginMap → Result (ℕ × Afl)
  has_new_bits_unclassified s m =
      if cov.skim (map_of m s) (take s.fsrv.map_size s.fsrv.trace_bits)
      then has_new_bits (classify s) m
      else ok (0, s)

-- `while (i < afl->fsrv.map_size)`, with `left` rounds to go and `src` at `*(src++)`; `none` is an
-- access out of bounds.
unfoldable pub minimize : ℕ → ℕ → List ℕ → List ℕ → Option (List ℕ)
minimize zero i dst src = some dst
minimize (suc left) i dst [] = none
minimize (suc left) i dst (b ∷ src) = elim (get_elem? dst (i / 8)) [
  | none ↦ if b == 0 then minimize left (i + 1) dst src else none
  | some old ↦
      minimize left (i + 1)
        (if b == 0 then dst else set dst (i / 8) (bit_or old (2 ^ (i % 8)) % 256)) src
]

unfoldable pub minimize_bits : Afl → List ℕ → List ℕ → Option (List ℕ)
minimize_bits s dst src = minimize s.fsrv.map_size 0 dst src
