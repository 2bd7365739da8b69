-- ===== src/Bitmap/Classes/Table.antt =====
-- What `init_count_class16` leaves in the table.
use ctfuzz.Base.{
  ℕ, zero, suc, ◌+◌, ◌-◌, ◌*◌, ◌/◌, ◌%◌, ◌^◌, ◌≤◌, ◌≡◌, ◌∙◌, true, arith, ◌==◌, Bool-cases, inl,
  inr, ltb, leb, ◌&&◌, if◌then◌else◌,
}
use ctfuzz.Base.Bits.{bit_or_fields}
use ctfuzz.Bitmap.Classes.{
  count_class_lookup8, Table16, store16, entry, inner, outer, init_count_class16,
}

class_le : (b : ℕ) → count_class_lookup8 b ≤ 128
unfolding count_class_lookup8
class_le b = ground arith

entry_lem : (b1 b2 : ℕ) → entry b1 b2 ≡ count_class_lookup8 b1 * 256 + count_class_lookup8 b2
unfolding entry
entry_lem b1 b2 =
    bit_or_fields 8 (count_class_lookup8 b1) (count_class_lookup8 b2) (omega (arith, class_le b2))

-- The inner loop writes the entries from `b2` on, and nothing else.
inner_lem :
    (b1 left b2 : ℕ) (t : Table16) (j : ℕ)
    → inner b1 left b2 t j ≡ (
        if leb (b1 * 256 + b2) j && ltb j (b1 * 256 + b2 + left)
        then entry b1 (j - b1 * 256) % 2 ^ 16
        else t j)
unfolding inner
inner_lem b1 zero b2 t j = ground arith
inner_lem b1 (suc left) b2 t j =
    inner_lem b1 left (b2 + 1) (store16 t (b1 * 2 ^ 8 + b2) (entry b1 b2)) j ∙ ground arith

row_lem :
    (b1 : ℕ) (t : Table16) (j : ℕ)
    → inner b1 256 0 t j ≡ (if j / 256 == b1 then entry b1 (j % 256) % 2 ^ 16 else t j)
row_lem b1 t j = elim (Bool-cases (j / 256 == b1)) [
  | inl here ↦ rw here (inner_lem b1 256 0 t j ∙ ground (arith, column here))
  | inr other ↦ rw other (inner_lem b1 256 0 t j ∙ ground arith)
]
  where
    column : (j / 256 == b1) ≡ true → j - b1 * 256 ≡ j % 256
    column here = ground arith

-- The outer loop writes the rows from `b1` on, and nothing else.
outer_lem :
    (left b1 : ℕ) (t : Table16) (j : ℕ)
    → outer left b1 t j ≡ (
        if leb b1 (j / 256) && ltb (j / 256) (b1 + left)
        then entry (j / 256) (j % 256) % 2 ^ 16
        else t j)
unfolding outer
outer_lem zero b1 t j = ground arith
outer_lem (suc left) b1 t j =
    outer_lem left (b1 + 1) (inner b1 256 0 t) j ∙ ground (arith, row_lem b1 t j)

-- After `init_count_class16` the table classifies a `u16` as both of its bytes at once; the rest
-- of memory is as it was.
pub init_count_class16_lem :
    (t : Table16) (v : ℕ)
    → init_count_class16 t v ≡ (
        if ltb v 65536
        then count_class_lookup8 (v / 256) * 256 + count_class_lookup8 (v % 256)
        else t v)
unfolding init_count_class16
init_count_class16_lem t v =
    outer_lem 256 0 t v
    ∙ ground (arith, entry_lem (v / 256) (v % 256), class_le (v / 256), class_le (v % 256))
