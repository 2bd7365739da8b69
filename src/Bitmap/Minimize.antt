-- ===== src/Bitmap/Minimize.antt =====
-- Which bits `minimize_bits` of `ctfuzz/afl/afl-fuzz-bitmap.c` sets.
use mathlib.Core.Path.{sym}
use native.Mathlib.Decide.{ℕ_discrete}
use ctfuzz.Base.{
  ℕ, zero, suc, ◌+◌, ◌-◌, ◌*◌, ◌/◌, ◌%◌, ◌^◌, ◌≤◌, ◌<◌, ◌≡◌, ◌≢◌, refl, ap, ◌∙◌, bit_or, Bool, true,
  false, not, ◌&&◌, Bool-cases, inl, inr, some, List, [], ◌∷◌, ◌==◌, ==_iff, leb, ltb,
  if◌then◌else◌, if-false, length, get_elem?, get_or, set, length-set, get_or-set_self,
  get_or-set_ne, IsBytes, arith,
}
use ctfuzz.Base.Table.{passes, passes_at}
use ctfuzz.State.{Afl}
use ctfuzz.Bitmap.Novelty.{minimize, minimize_bits}

-- `(dst[j >> 3] >> (j & 7)) & 1`
abbrev pub bit_at : List ℕ → ℕ → ℕ
bit_at dst j = get_or dst (j / 8) 0 / 2 ^ (j % 8) % 2

-- A bit behind the `|=`, for every byte, bit to set and bit to look at, as one number.
abbrev is_set_right : ℕ → Bool
is_set_right v =
    bit_or (v / 64) (2 ^ (v / 8 % 8)) % 256 / 2 ^ (v % 8) % 2
    == (if v % 8 == v / 8 % 8 then 1 else v / 64 / 2 ^ (v % 8) % 2)

all_set_right : passes is_set_right (256 * 64) ≡ true
unfolding passes
all_set_right = refl

byte_bit :
    (b k j : ℕ)
    → b < 256
    → k < 8
    → j < 8
    → bit_or b (2 ^ k) % 256 / 2 ^ j % 2 ≡ (if j == k then 1 else b / 2 ^ j % 2)
byte_bit b k j hb hk hj =
    let v = b * 64 + k * 8 + j in
    let e : v / 64 ≡ b = omega (arith, hb, hk, hj) in
    let e' : v / 8 % 8 ≡ k = omega (arith, hb, hk, hj) in
    let e'' : v % 8 ≡ j = omega (arith, hb, hk, hj) in
    (==_iff _ _).0 (
      rw (e, e', e'') at
        (passes_at is_set_right (256 * 64) v (omega (arith, hb, hk, hj)) all_set_right))

byte_at : (xs : List ℕ) (i : ℕ) → IsBytes xs → get_or xs i 0 < 256
byte_at [] i h = omega arith
byte_at (x ∷ xs) zero h = h.0
byte_at (x ∷ xs) (suc i) h = byte_at xs i h.1

set-IsBytes : (xs : List ℕ) (i v : ℕ) → IsBytes xs → v < 256 → IsBytes (set xs i v)
set-IsBytes [] i v h small = tt
set-IsBytes (x ∷ xs) zero v h small = (small, h.1)
set-IsBytes (x ∷ xs) (suc i) v h small = (h.0, set-IsBytes xs i v h.1 small)

get_elem?-get_or : (xs : List ℕ) (i : ℕ) → i < length xs → get_elem? xs i ≡ some (get_or xs i 0)
get_elem?-get_or [] i h = absurd (omega (arith, h))
get_elem?-get_or (x ∷ xs) zero h = refl
get_elem?-get_or (x ∷ xs) (suc i) h = get_elem?-get_or xs i (omega (arith, h))

-- `dst[i >> 3] |= 1 << (i & 7)`
abbrev with_bit : List ℕ → ℕ → List ℕ
with_bit dst i = set dst (i / 8) (bit_or (get_or dst (i / 8) 0) (2 ^ (i % 8)) % 256)

same_bit : (i j : ℕ) → i / 8 ≡ j / 8 → (j % 8 == i % 8) ≡ (j == i)
same_bit i j same = ground (arith, same)

other_bit : (i j : ℕ) → i / 8 ≢ j / 8 → (j == i) ≡ false
other_bit i j other = ground (arith, other)

bit_at-with_bit :
    (dst : List ℕ) (i j : ℕ)
    → IsBytes dst
    → i < 8 * length dst
    → bit_at (with_bit dst i) j ≡ (if j == i then 1 else bit_at dst j)
bit_at-with_bit dst i j bytes fits = elim (ℕ_discrete (i / 8) (j / 8)) [
  | yes same ↦ rw same (
      ap (λ b. b / 2 ^ (j % 8) % 2) (get_or-set_self dst (j / 8) _ 0 (omega (arith, same, fits)))
      ∙ byte_bit (get_or dst (j / 8) 0) (i % 8) (j % 8) (byte_at dst (j / 8) bytes) (omega arith)
          (omega arith)
      ∙ ap (λ t. if t then 1 else bit_at dst j) (same_bit i j same))
  | no other ↦
      ap (λ b. b / 2 ^ (j % 8) % 2) (get_or-set_ne dst (i / 8) (j / 8) _ 0 other)
      ∙ sym (if-false (j == i) 1 (bit_at dst j) (other_bit i j other))
]

-- What minimize_bits is to leave: as many bytes, the bits of the bytes of the source that are not 0
-- set, and all others as they were.
pub record IsMinimized (left i : ℕ) (src dst out : List ℕ) : Type 0 where
  pub same_length : length out ≡ length dst
  pub bits :
      (j : ℕ)
      → bit_at out j ≡ (
          if (leb i j && ltb j (i + left)) && not (get_or src (j - i) 0 == 0)
          then 1
          else bit_at dst j)

get_or-tail :
    (b : ℕ) (src : List ℕ) (i j : ℕ)
    → i < j
    → get_or (b ∷ src) (j - i) 0 ≡ get_or src (j - (i + 1)) 0
get_or-tail b src i j less = let e : j - i ≡ suc (j - (i + 1)) = omega (arith, less) in rw e refl

-- The bit at j behind a round.
round_bit :
    (i b : ℕ) (dst : List ℕ) (j : ℕ)
    → IsBytes dst
    → i < 8 * length dst
    → bit_at (if b == 0 then dst else with_bit dst i) j
      ≡ (if not (b == 0) && j == i then 1 else bit_at dst j)
round_bit i b dst j bytes fits = elim (Bool-cases (b == 0)) [
  | inl nothing ↦ rw nothing refl
  | inr hit ↦ rw hit (bit_at-with_bit dst i j bytes fits)
]

one_round :
    (left i b j m n d : ℕ)
    → (i < j → m ≡ n)
    → (j ≡ i → m ≡ b)
    → (if (leb (i + 1) j && ltb j (i + 1 + left)) && not (n == 0)
        then 1
        else if not (b == 0) && j == i
        then 1
        else d)
      ≡ (if (leb i j && ltb j (i + suc left)) && not (m == 0) then 1 else d)
one_round left i b j m n d later now = ground (arith, later, now)

get_or-first : (b : ℕ) (src : List ℕ) (i j : ℕ) → j ≡ i → get_or (b ∷ src) (j - i) 0 ≡ b
get_or-first b src i j e = let none_left : j - i ≡ 0 = omega (arith, e) in rw none_left refl

-- One round more, for the bit of the round and for the others.
round_bits :
    (left i b : ℕ) (src dst : List ℕ) (j : ℕ)
    → IsBytes dst
    → i < 8 * length dst
    → (if (leb (i + 1) j && ltb j (i + 1 + left)) && not (get_or src (j - (i + 1)) 0 == 0)
        then 1
        else bit_at (if b == 0 then dst else with_bit dst i) j)
      ≡ (if (leb i j && ltb j (i + suc left)) && not (get_or (b ∷ src) (j - i) 0 == 0)
          then 1
          else bit_at dst j)
round_bits left i b src dst j bytes fits = rw (round_bit i b dst j bytes fits) (
    one_round left i b j (get_or (b ∷ src) (j - i) 0) (get_or src (j - (i + 1)) 0) (bit_at dst j)
      (get_or-tail b src i j) (get_or-first b src i j))

empty_range : (i j n : ℕ) → ((leb i j && ltb j (i + 0)) && not (n == 0)) ≡ false
empty_range i j n = ground arith

round_keeps :
    (i b : ℕ) (dst : List ℕ)
    → IsBytes dst
    → IsBytes (if b == 0 then dst else with_bit dst i)
      × (length (if b == 0 then dst else with_bit dst i) ≡ length dst)
round_keeps i b dst bytes = elim (Bool-cases (b == 0)) [
  | inl nothing ↦ rw nothing (bytes, refl)
  | inr hit ↦ rw hit (set-IsBytes dst (i / 8) _ bytes (omega arith), length-set dst (i / 8) _)
]

from_zero :
    (j size : ℕ) (src : List ℕ) (d : ℕ)
    → (if (leb 0 j && ltb j (0 + size)) && not (get_or src (j - 0) 0 == 0) then 1 else d)
      ≡ (if ltb j size && not (get_or src j 0 == 0) then 1 else d)
from_zero j size src d =
    let e : j - 0 ≡ j = omega arith in
    let e' : 0 + size ≡ size = omega arith in
    let e'' : leb 0 j ≡ true = ground arith in rw (e, e', e'') refl

minimize_step :
    (left i b : ℕ) (src dst : List ℕ)
    → i < 8 * length dst
    → minimize (suc left) i dst (b ∷ src)
      ≡ minimize left (i + 1) (if b == 0 then dst else with_bit dst i) src
unfolding minimize
minimize_step left i b src dst fits =
    rw (get_elem?-get_or dst (i / 8) (omega (arith, fits)), minimize) refl

minimize_lem :
    (left i : ℕ) (src dst : List ℕ)
    → IsBytes dst
    → left ≤ length src
    → i + left ≤ 8 * length dst
    → (out : List ℕ) × (minimize left i dst src ≡ some out) × IsMinimized left i src dst out
unfolding minimize
minimize_lem zero i src dst bytes read fits = (
  dst,
  refl,
  record {
    same_length = refl;
    bits = λ j. sym (if-false _ 1 (bit_at dst j) (empty_range i j (get_or src (j - i) 0)));
  },
)
minimize_lem (suc left) i [] dst bytes read fits = absurd (omega (arith, read))
minimize_lem (suc left) i (b ∷ src) dst bytes read fits =
    let dst' = if b == 0 then dst else with_bit dst i in
    let step = round_keeps i b dst bytes in
    let (out, e, is) =
      minimize_lem left (i + 1) src dst' step.0 (omega (arith, read))
        (omega (arith, step.1, fits)) in
    (
      out,
      minimize_step left i b src dst (omega (arith, fits)) ∙ e,
      record {
        same_length = is.same_length ∙ step.1;
        bits = λ j. is.bits j ∙ round_bits left i b src dst j bytes (omega (arith, fits));
      },
    )

-- From a destination with room for a bit of each byte of the map, minimize_bits leaves as many bytes,
-- of which the bits are: set where the byte of the source at that position of the map is not 0, and
-- elsewhere as they were.
pub minimize_bits_lem :
    (s : Afl) (dst src : List ℕ)
    → IsBytes dst
    → s.fsrv.map_size ≤ length src
    → s.fsrv.map_size ≤ 8 * length dst
    → (out : List ℕ) × (minimize_bits s dst src ≡ some out)
      × (length out ≡ length dst)
      × ((j : ℕ)
          → bit_at out j
            ≡ (if ltb j s.fsrv.map_size && not (get_or src j 0 == 0) then 1 else bit_at dst j))
unfolding minimize_bits
minimize_bits_lem s dst src bytes read fits =
    let (out, e, is) = minimize_lem s.fsrv.map_size 0 src dst bytes read (omega (arith, fits)) in
    (out, e, is.same_length, λ j. is.bits j ∙ from_zero j s.fsrv.map_size src (bit_at dst j))
