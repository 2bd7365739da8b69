-- ===== src/Bitmap/Classes.antt =====
-- The lookup tables of `ctfuzz/afl/afl-fuzz-bitmap.c`: `simplify_lookup`, `count_class_lookup8` and
-- `count_class_lookup16`, which `init_count_class16` fills.
pub mod Buckets
pub mod Table
use ctfuzz.Base.{ℕ, zero, suc, ◌+◌, ◌*◌, ◌%◌, ◌^◌, bit_or, ◌==◌, leb, if◌then◌else◌}

-- `simplify_lookup[b]`
unfoldable pub simplify_lookup : ℕ → ℕ
simplify_lookup b = if b == 0 then 1 else 128

-- `count_class_lookup8[b]`
unfoldable pub count_class_lookup8 : ℕ → ℕ
count_class_lookup8 b =
    if b == 0
    then 0
    else if b == 1
    then 1
    else if b == 2
    then 2
    else if b == 3
    then 4
    else if leb b 7
    then 8
    else if leb b 15
    then 16
    else if leb b 31
    then 32
    else if leb b 127
    then 64
    else 128

-- A table of `u16` by its index.
abbrev pub Table16 : Type 0
Table16 = ℕ → ℕ

-- `count_class_lookup16[i] = v`
abbrev pub store16 : Table16 → ℕ → ℕ → Table16
store16 t i v j = if i == j then v % 2 ^ 16 else t j

-- The value that the inner loop stores.
pub entry : ℕ → ℕ → ℕ
entry b1 b2 = bit_or (count_class_lookup8 b1 * 2 ^ 8) (count_class_lookup8 b2)

-- The loop over `b2`, with `left` rounds to go.
pub inner : ℕ → ℕ → ℕ → Table16 → Table16
inner b1 zero b2 t = t
inner b1 (suc left) b2 t = inner b1 left (b2 + 1) (store16 t (b1 * 2 ^ 8 + b2) (entry b1 b2))

-- The loop over `b1`, with `left` rounds to go.
pub outer : ℕ → ℕ → Table16 → Table16
outer zero b1 t = t
outer (suc left) b1 t = outer left (b1 + 1) (inner b1 256 0 t)

pub init_count_class16 : Table16 → Table16
init_count_class16 t = outer 256 0 t
