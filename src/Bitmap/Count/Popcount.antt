-- ===== src/Bitmap/Count/Popcount.antt =====
-- The parallel sums of `count_bits`, byte by byte: one step of the word is one step of each byte.
use ctfuzz.Base.{
  ℕ, zero, suc, ◌+◌, ◌-◌, ◌*◌, ◌/◌, ◌%◌, ◌^◌, ◌≤◌, ◌<◌, bit_and, ◌≡◌, refl, ◌∙◌, ap, true, arith,
  ◌==◌, leb, ==_iff, leb→le, inl, inr, Bool-cases,
}
use ctfuzz.Base.Table.{passes, passes_at}
use ctfuzz.Base.Bits.{bit_and_low}
use ctfuzz.Bitmap.Count.Masks.{bit_and-word}
use ctfuzz.Bitmap.Count.{word, bits_of_word, parallel_sum}

-- The binary digits that are one, among the lowest `k`.
pub ones : ℕ → ℕ → ℕ
ones zero b = 0
ones (suc k) b = b % 2 + ones k (b / 2)

-- What the three steps make of a byte.
abbrev pairs : ℕ → ℕ
pairs b = b - bit_and (b / 2) 0x55

abbrev nibbles : ℕ → ℕ
nibbles p = bit_and p 0x33 + bit_and (p / 4) 0x33

pairs_table : passes (λ b. leb (bit_and (b / 2) 0x55) b) 256 ≡ true
unfolding passes
pairs_table = refl

high_nibble_table : passes (λ b. leb (nibbles (pairs b) / 16) 4) 256 ≡ true
unfolding passes
high_nibble_table = refl

low_nibble_table : passes (λ b. leb (nibbles (pairs b) % 16) 4) 256 ≡ true
unfolding passes
low_nibble_table = refl

-- Two counts of at most four, one in each half of a byte.
abbrev FourAtMost : ℕ → Type 0
FourAtMost q = (q / 16 ≤ 4) × (q % 16 ≤ 4)

ones_table :
    passes (λ b. bit_and ((nibbles (pairs b) + nibbles (pairs b) / 16) % 16) 15 == ones 8 b) 256
    ≡ true
unfolding passes ones
ones_table = refl

pub ones_le_table : passes (λ b. leb (ones 8 b) 8) 256 ≡ true
unfolding passes ones
ones_le_table = refl

module _ (b : ℕ) (h : b < 256) where
  pairs_le : bit_and (b / 2) 0x55 ≤ b
  pairs_le = leb→le _ _ (passes_at _ 256 b h pairs_table)

  nibbles_le : FourAtMost (nibbles (pairs b))
  nibbles_le = (
    leb→le _ _ (passes_at _ 256 b h high_nibble_table),
    leb→le _ _ (passes_at _ 256 b h low_nibble_table),
  )

  ones_of_nibbles : bit_and ((nibbles (pairs b) + nibbles (pairs b) / 16) % 16) 15 ≡ ones 8 b
  ones_of_nibbles = (==_iff _ _).0 (passes_at _ 256 b h ones_table)

  pub ones_le : ones 8 b ≤ 8
  ones_le = leb→le _ _ (passes_at _ 256 b h ones_le_table)

-- The last step on one byte: the digits of the next byte that the shift brings in are masked off.
last_byte :
    (q c : ℕ)
    → FourAtMost q
    → c < 16
    → bit_and (q + q / 16 + 16 * c) 15 ≡ bit_and ((q + q / 16) % 16) 15
last_byte q c hq hc =
    ap (λ x. bit_and x 15) regroup
    ∙ bit_and_low 4 ((q + q / 16) % 16) ((q + q / 16) / 16 + c) 15 (omega arith) (omega arith)
  where
    regroup : q + q / 16 + 16 * c ≡ (q + q / 16) % 16 + 2 ^ 4 * ((q + q / 16) / 16 + c)
    regroup = omega arith

module _ (a b c d : ℕ) (ha : a < 256) (hb : b < 256) (hc : c < 256) (hd : d < 256) where
  first_mask :
      bit_and (word a b c d / 2) 0x55555555
      ≡ word
          (bit_and (a / 2) 0x55)
          (bit_and (b / 2) 0x55)
          (bit_and (c / 2) 0x55)
          (bit_and (d / 2) 0x55)
  first_mask =
      ap (λ v. bit_and v 0x55555555) shifted
      ∙ bit_and-word 0x55 0x55 0x55 0x55 (a / 2 + 2 ^ 7 * (b % 2)) (b / 2 + 2 ^ 7 * (c % 2))
          (c / 2 + 2 ^ 7 * (d % 2)) (d / 2) (omega arith) (omega arith) (omega arith) (omega arith)
          (omega arith) (omega arith)
      ∙ omega (
        arith,
        bit_and_low 7 (a / 2) (b % 2) 0x55 (omega arith) (omega arith),
        bit_and_low 7 (b / 2) (c % 2) 0x55 (omega arith) (omega arith),
        bit_and_low 7 (c / 2) (d % 2) 0x55 (omega arith) (omega arith),
      )
    where
      shifted :
          word a b c d / 2
          ≡ word
              (a / 2 + 2 ^ 7 * (b % 2))
              (b / 2 + 2 ^ 7 * (c % 2))
              (c / 2 + 2 ^ 7 * (d % 2))
              (d / 2)
      shifted = omega arith

  first_step :
      (word a b c d + 2 ^ 32 - bit_and (word a b c d / 2) 0x55555555) % 2 ^ 32
      ≡ word (pairs a) (pairs b) (pairs c) (pairs d)
  first_step = omega (arith, first_mask, pairs_le a ha, pairs_le b hb, pairs_le c hc, pairs_le d hd)

  second_mask :
      bit_and (word a b c d / 4) 0x33333333
      ≡ word
          (bit_and (a / 4) 0x33)
          (bit_and (b / 4) 0x33)
          (bit_and (c / 4) 0x33)
          (bit_and (d / 4) 0x33)
  second_mask =
      ap (λ v. bit_and v 0x33333333) shifted
      ∙ bit_and-word 0x33 0x33 0x33 0x33 (a / 4 + 2 ^ 6 * (b % 4)) (b / 4 + 2 ^ 6 * (c % 4))
          (c / 4 + 2 ^ 6 * (d % 4)) (d / 4) (omega arith) (omega arith) (omega arith) (omega arith)
          (omega arith) (omega arith)
      ∙ omega (
        arith,
        bit_and_low 6 (a / 4) (b % 4) 0x33 (omega arith) (omega arith),
        bit_and_low 6 (b / 4) (c % 4) 0x33 (omega arith) (omega arith),
        bit_and_low 6 (c / 4) (d % 4) 0x33 (omega arith) (omega arith),
      )
    where
      shifted :
          word a b c d / 4
          ≡ word
              (a / 4 + 2 ^ 6 * (b % 4))
              (b / 4 + 2 ^ 6 * (c % 4))
              (c / 4 + 2 ^ 6 * (d % 4))
              (d / 4)
      shifted = omega arith

  second_step :
      FourAtMost (nibbles a)
      → FourAtMost (nibbles b)
      → FourAtMost (nibbles c)
      → FourAtMost (nibbles d)
      → (bit_and (word a b c d) 0x33333333 + bit_and (word a b c d / 4) 0x33333333) % 2 ^ 32
        ≡ word (nibbles a) (nibbles b) (nibbles c) (nibbles d)
  second_step la lb lc ld = omega (
    arith,
    bit_and-word 0x33 0x33 0x33 0x33 a b c d (omega arith) (omega arith) (omega arith) ha hb hc,
    second_mask,
  )

module _ (a b c d : ℕ) (ha : FourAtMost a) (hb : FourAtMost b) (hc : FourAtMost c)
    (hd : FourAtMost d) where
  abbrev low : ℕ → ℕ
  low q = bit_and ((q + q / 16) % 16) 15

  third_step :
      bit_and ((word a b c d + word a b c d / 16) % 2 ^ 32) 0xF0F0F0F
      ≡ word (low a) (low b) (low c) (low d)
  third_step =
      ap (λ v. bit_and v 0xF0F0F0F) shifted
      ∙ bit_and-word 15 15 15 15 (a + a / 16 + 16 * (b % 16)) (b + b / 16 + 16 * (c % 16))
          (c + c / 16 + 16 * (d % 16)) (d + d / 16 + 16 * 0) (omega arith) (omega arith)
          (omega arith) (omega arith) (omega arith) (omega arith)
      ∙ omega (
        arith,
        last_byte a (b % 16) ha (omega arith),
        last_byte b (c % 16) hb (omega arith),
        last_byte c (d % 16) hc (omega arith),
        last_byte d 0 hd (omega arith),
      )
    where
      shifted :
          (word a b c d + word a b c d / 16) % 2 ^ 32
          ≡ word
              (a + a / 16 + 16 * (b % 16))
              (b + b / 16 + 16 * (c % 16))
              (c + c / 16 + 16 * (d % 16))
              (d + d / 16 + 16 * 0)
      shifted = omega arith

module _ (a b c d : ℕ) (ha : a < 256) (hb : b < 256) (hc : c < 256) (hd : d < 256) where
  parallel_sum-word : parallel_sum (word a b c d) ≡ ones 8 a + (ones 8 b + (ones 8 c + ones 8 d))
  unfolding parallel_sum
  parallel_sum-word = rw (first_step a b c d ha hb hc hd) (
      rw
        (second_step (pairs a) (pairs b) (pairs c) (pairs d) (omega arith) (omega arith)
          (omega arith) (omega arith) (nibbles_le a ha) (nibbles_le b hb) (nibbles_le c hc)
          (nibbles_le d hd))
        (rw
          (third_step (nibbles (pairs a)) (nibbles (pairs b)) (nibbles (pairs c))
            (nibbles (pairs d)) (nibbles_le a ha) (nibbles_le b hb) (nibbles_le c hc)
            (nibbles_le d hd))
          (rw
            (ones_of_nibbles a ha, ones_of_nibbles b hb, ones_of_nibbles c hc, ones_of_nibbles d hd)
            (omega (arith, ones_le a ha, ones_le b hb, ones_le c hc, ones_le d hd)))))

  all_ones : word a b c d ≡ 0xffffffff → ones 8 a + (ones 8 b + (ones 8 c + ones 8 d)) ≡ 32
  unfolding ones
  all_ones e =
      let each : (a ≡ 255) × (b ≡ 255) × (c ≡ 255) × (d ≡ 255) = omega arith in
      rw (each.0, each.1, each.2, each.3)

  -- `count_bits` adds to its sum the number of ones in the four bytes of a word.
  pub bits_of_word-eq-ones :
      bits_of_word (word a b c d) ≡ ones 8 a + (ones 8 b + (ones 8 c + ones 8 d))
  unfolding bits_of_word
  bits_of_word-eq-ones = elim (Bool-cases (word a b c d == 0xffffffff)) [
    | inl full ↦ rw full (rw (all_ones ((==_iff _ _).0 full)))
    | inr other ↦ rw other parallel_sum-word
  ]
