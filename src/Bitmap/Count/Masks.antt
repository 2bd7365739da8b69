-- ===== src/Bitmap/Count/Masks.antt =====
-- `&` of a word of four bytes with a mask, byte by byte.
use ctfuzz.Base.{ℕ, ◌+◌, ◌*◌, ◌<◌, bit_and, ◌≡◌, refl, true, arith, ◌==◌, ==_iff}
use ctfuzz.Base.Table.{passes, passes_at}
use ctfuzz.Base.Bits.{bit_and_byte}
use ctfuzz.Bitmap.Count.{word}

pub bit_and-word :
    (m n o p a b c d : ℕ)
    → m < 256
    → n < 256
    → o < 256
    → a < 256
    → b < 256
    → c < 256
    → bit_and (word a b c d) (word m n o p)
      ≡ word (bit_and a m) (bit_and b n) (bit_and c o) (bit_and d p)
bit_and-word m n o p a b c d hm hn ho ha hb hc = omega (
  arith,
  bit_and_byte a (b + 256 * (c + 256 * d)) m (n + 256 * (o + 256 * p)) ha hm,
  bit_and_byte b (c + 256 * d) n (o + 256 * p) hb hn,
  bit_and_byte c d o p hc ho,
)

full_table : passes (λ b. bit_and b 255 == b) 256 ≡ true
unfolding passes
full_table = refl

-- A byte is its own lowest eight digits.
pub bit_and_full : (b : ℕ) → b < 256 → bit_and b 255 ≡ b
bit_and_full b h = (==_iff _ _).0 (passes_at _ 256 b h full_table)
