-- ===== src/Bitmap/Count.antt =====
-- `count_bits`, `count_bytes` and `count_non_255_bytes` of `ctfuzz/afl/afl-fuzz-bitmap.c`: sums over
-- a bitmap that is read as little-endian `u32` words. A bitmap is the list of its bytes; a read past
-- its end is `none`.
pub mod Masks
pub mod Popcount
pub mod Bytes
pub mod Totals
use ctfuzz.Base.{
  ℕ, zero, suc, ◌+◌, ◌-◌, ◌*◌, ◌/◌, ◌%◌, ◌^◌, bit_and, Option, none, some, List, [], ◌∷◌, ◌==◌,
  if◌then◌else◌,
}

-- Four bytes in memory order as one word.
abbrev pub word : ℕ → ℕ → ℕ → ℕ → ℕ
word a b c d = a + 256 * (b + 256 * (c + 256 * d))

-- `*(ptr++)`
abbrev pub load32 : List ℕ → Option (ℕ × List ℕ)
load32 (a ∷ b ∷ c ∷ d ∷ rest) = some (word a b c d, rest)
load32 _ = none

-- `((afl->fsrv.real_map_size + 3) >> 2)`, in `u32`.
abbrev pub words : ℕ → ℕ
words real_map_size = (real_map_size + 3) % 2 ^ 32 / 4

-- The loop `while (i--)` over the words, which adds `weight v` to the `u32` `ret`.
pub scan : (ℕ → ℕ) → ℕ → List ℕ → ℕ → Option ℕ
scan weight zero mem ret = some ret
scan weight (suc i) mem ret = elim (load32 mem) [
  | none ↦ none
  | some (v, rest) ↦ scan weight i rest ((ret + weight v) % 2 ^ 32)
]

-- The parallel sums of `count_bits`; `-` and `+` wrap.
pub parallel_sum : ℕ → ℕ
parallel_sum v =
    let v1 = (v + 2 ^ 32 - bit_and (v / 2) 0x55555555) % 2 ^ 32 in
    let v2 = (bit_and v1 0x33333333 + bit_and (v1 / 4) 0x33333333) % 2 ^ 32 in
    bit_and ((v2 + v2 / 16) % 2 ^ 32) 0xF0F0F0F * 0x01010101 % 2 ^ 32 / 2 ^ 24

pub bits_of_word : ℕ → ℕ
bits_of_word v = if v == 0xffffffff then 32 else parallel_sum v

pub bytes_of_word : ℕ → ℕ
bytes_of_word v =
    if v == 0
    then 0
    else (if bit_and v 0x000000ff == 0 then 0 else 1)
      + (if bit_and v 0x0000ff00 == 0 then 0 else 1)
      + (if bit_and v 0x00ff0000 == 0 then 0 else 1)
      + (if bit_and v 0xff000000 == 0 then 0 else 1)

pub non_255_of_word : ℕ → ℕ
non_255_of_word v =
    if v == 0xffffffff
    then 0
    else (if bit_and v 0x000000ff == 0x000000ff then 0 else 1)
      + (if bit_and v 0x0000ff00 == 0x0000ff00 then 0 else 1)
      + (if bit_and v 0x00ff0000 == 0x00ff0000 then 0 else 1)
      + (if bit_and v 0xff000000 == 0xff000000 then 0 else 1)

module _ (real_map_size : ℕ) (mem : List ℕ) where
  unfoldable pub count_bits : Option ℕ
  unfolding scan bits_of_word parallel_sum
  count_bits = scan bits_of_word (words real_map_size) mem 0

  unfoldable pub count_bytes : Option ℕ
  unfolding scan bytes_of_word
  count_bytes = scan bytes_of_word (words real_map_size) mem 0

  unfoldable pub count_non_255_bytes : Option ℕ
  unfolding scan non_255_of_word
  count_non_255_bytes = scan non_255_of_word (words real_map_size) mem 0
