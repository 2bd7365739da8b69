-- ===== src/Bitmap/Count/Bytes.antt =====
-- The word tests of `count_bytes` and `count_non_255_bytes` are tests of each of its bytes.
use ctfuzz.Base.{ℕ, ◌+◌, ◌*◌, ◌<◌, bit_and, ◌≡◌, arith, ◌==◌, if◌then◌else◌}
use ctfuzz.Base.Bits.{bit_and-nothing}
use ctfuzz.Bitmap.Count.Masks.{bit_and-word, bit_and_full}
use ctfuzz.Bitmap.Count.{word, bytes_of_word, non_255_of_word}

abbrev pub nonzero : ℕ → ℕ
nonzero b = if b == 0 then 0 else 1

abbrev pub not_255 : ℕ → ℕ
not_255 b = if b == 255 then 0 else 1

module _ (a b c d : ℕ) (ha : a < 256) (hb : b < 256) (hc : c < 256) (hd : d < 256) where
  -- The four masks of both functions pick the four bytes.
  masked :
      (bit_and (word a b c d) 0x000000ff ≡ a)
      × (bit_and (word a b c d) 0x0000ff00 ≡ 256 * b)
      × (bit_and (word a b c d) 0x00ff0000 ≡ 256 * (256 * c))
      × (bit_and (word a b c d) 0xff000000 ≡ 256 * (256 * (256 * d)))
  masked = omega (
    arith,
    bit_and-word 255 0 0 0 a b c d,
    bit_and-word 0 255 0 0 a b c d,
    bit_and-word 0 0 255 0 a b c d,
    bit_and-word 0 0 0 255 a b c d,
    bit_and_full a ha,
    bit_and_full b hb,
    bit_and_full c hc,
    bit_and_full d hd,
    bit_and-nothing a,
    bit_and-nothing b,
    bit_and-nothing c,
    bit_and-nothing d,
  )

  pub bytes_of_word-eq-nonzero :
      bytes_of_word (word a b c d) ≡ nonzero a + (nonzero b + (nonzero c + nonzero d))
  unfolding bytes_of_word
  bytes_of_word-eq-nonzero = ground (arith, masked)

  pub non_255_of_word-eq-not_255 :
      non_255_of_word (word a b c d) ≡ not_255 a + (not_255 b + (not_255 c + not_255 d))
  unfolding non_255_of_word
  non_255_of_word-eq-not_255 = ground (arith, masked)
