-- ===== src/Bitmap/Classes/Buckets.antt =====
-- The hit-count buckets of `count_class_lookup8`.
use ctfuzz.Base.{ℕ, ◌*◌, ◌≤◌, ◌<◌, ◌≡◌, ◌↔◌, arith}
use ctfuzz.Bitmap.Classes.{count_class_lookup8}

-- A hit count that is not smaller is in no lower bucket; only the count 0 is in the bucket 0; and
-- a bucket is within a factor of two of every byte in it: `bucket ≤ 2 * count` and, but for the
-- count 0, `count < 2 * bucket`.
pub count_class_lookup8_lem :
    (a b : ℕ)
    → a ≤ b
    → b < 256
    → (count_class_lookup8 a ≤ count_class_lookup8 b)
      × ((count_class_lookup8 a ≡ 0) ↔ (a ≡ 0))
      × (count_class_lookup8 a ≤ 2 * a)
      × (0 < a → a < 2 * count_class_lookup8 a)
unfolding count_class_lookup8
count_class_lookup8_lem a b h k = ground arith
