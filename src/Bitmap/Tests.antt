-- ===== src/Bitmap/Tests.antt =====
-- The theorems on the bitmap at concrete maps, and runs of its functions.
use ctfuzz.Base.{true, false, not, ◌&&◌, ◌==◌, ltb, if◌then◌else◌, length, get_or}
use ctfuzz.Base.{ℕ, ◌*◌, ◌<◌, ◌≡◌, ◌⊎◌, refl, some, List, [], ◌∷◌, arith, take}
use ctfuzz.State.{Afl, ok, virgin_bits}
use ctfuzz.State.Samples.{fresh_state}
use ctfuzz.Bitmap.Count.{words, count_bits, count_bytes, count_non_255_bytes}
use ctfuzz.Bitmap.Count.Popcount.{ones}
use ctfuzz.Bitmap.Count.Bytes.{nonzero, not_255}
use ctfuzz.Bitmap.Count.Totals.{total, count_bits-total, byte_counts}
use ctfuzz.Bitmap.Classes.{count_class_lookup8, init_count_class16}
use ctfuzz.Bitmap.Classes.Table.{init_count_class16_lem}
use ctfuzz.Bitmap.Novelty.{has_new_bits, has_new_bits_unclassified, classify, minimize_bits}
use ctfuzz.Bitmap.Minimize.{bit_at, minimize_bits_lem}
use ctfuzz.Bitmap.Novelty.Samples.{by_bytes, by_bytes-IsCoverage}
use ctfuzz.Bitmap.Novelty.Spec.{weight}
use ctfuzz.Bitmap.File.{
  write_bitmap, bitmap_name, IsSaved, looked, wrote, ran, here, next, Reach-IsSaved,
}
use ctfuzz.Bitmap.Novelty.Laws.{
  HasRoom, found, cleared, marked, has_new_bits_lem, has_new_bits_progress,
}
use ctfuzz.Bitmap.Novelty.Fast.{has_new_bits_unclassified_lem}

abbrev some_bytes : List ℕ
some_bytes = 255 ∷ 0 ∷ 255 ∷ 3 ∷ 255 ∷ 255 ∷ 255 ∷ 255 ∷ []

count_bits-total_example :
    count_bits 6 some_bytes ≡ some (total (ones 8) (take (4 * words 6) some_bytes))
count_bits-total_example = count_bits-total 6 some_bytes (omega arith) (omega arith) (omega arith)

byte_counts_example :
    (count_bytes 6 some_bytes ≡ some (total nonzero (take (4 * words 6) some_bytes)))
    × (count_non_255_bytes 6 some_bytes ≡ some (total not_255 (take (4 * words 6) some_bytes)))
byte_counts_example = byte_counts 6 some_bytes (omega arith) (omega arith)

counts_run :
    (count_bits 6 some_bytes ≡ some 50)
    × (count_bytes 6 some_bytes ≡ some 7)
    × (count_non_255_bytes 6 some_bytes ≡ some 2)
unfolding count_bits count_bytes count_non_255_bytes
counts_run = (refl, refl, refl)

init_count_class16_lem_example : init_count_class16 (λ j. 7) 1026 ≡ 2050
unfolding count_class_lookup8
init_count_class16_lem_example = init_count_class16_lem (λ j. 7) 1026

abbrev start : Afl
start = fresh_state 8 (1 ∷ 0 ∷ 3 ∷ 0 ∷ 0 ∷ 0 ∷ 0 ∷ 9 ∷ [])

start-HasRoom : HasRoom start virgin_bits
start-HasRoom = record { trace = omega arith; virgin = omega arith }

has_new_bits_lem_example :
    has_new_bits by_bytes start virgin_bits
    ≡ ok (
      found start virgin_bits,
      marked virgin_bits (found start virgin_bits) (cleared start virgin_bits),
    )
has_new_bits_lem_example =
    has_new_bits_lem by_bytes by_bytes-IsCoverage start virgin_bits start-HasRoom

abbrev seen : Afl
seen = marked virgin_bits (found start virgin_bits) (cleared start virgin_bits)

has_new_bits_progress_example :
    (found start virgin_bits ≡ 0 → seen ≡ start)
    × (0 < found start virgin_bits → weight seen.virgin_bits < weight start.virgin_bits)
has_new_bits_progress_example =
    has_new_bits_progress by_bytes by_bytes-IsCoverage start virgin_bits start-HasRoom
      has_new_bits_lem_example

start_finds_tuples : found start virgin_bits ≡ 2
start_finds_tuples = refl

abbrev classified : Afl
classified = classify by_bytes start

classified-HasRoom : HasRoom classified virgin_bits
unfolding count_class_lookup8
classified-HasRoom = record { trace = omega arith; virgin = omega arith }

classified_finds :
    has_new_bits by_bytes classified virgin_bits
    ≡ ok (
      found classified virgin_bits,
      marked virgin_bits (found classified virgin_bits) (cleared classified virgin_bits),
    )
classified_finds =
    has_new_bits_lem by_bytes by_bytes-IsCoverage classified virgin_bits classified-HasRoom

has_new_bits_unclassified_lem_example :
    (has_new_bits_unclassified by_bytes start virgin_bits
      ≡ ok (
        found classified virgin_bits,
        marked virgin_bits (found classified virgin_bits) (cleared classified virgin_bits),
      ))
    ⊎ ((found classified virgin_bits ≡ 0)
        × (has_new_bits_unclassified by_bytes start virgin_bits ≡ ok (0, start)))
has_new_bits_unclassified_lem_example =
    has_new_bits_unclassified_lem by_bytes by_bytes-IsCoverage start virgin_bits (omega arith)
      (omega arith) classified-HasRoom classified_finds

-- A find that is written to the file.
abbrev written : Afl
written = record seen {
  bitmap_changed = false;
  files = (bitmap_name seen.out_dir, seen.virgin_bits) ∷ [];
}

seen_is_written : write_bitmap (λ fn s. true) seen ≡ ok written
unfolding write_bitmap
seen_is_written = refl

abbrev marked_start : Afl
marked_start = record start { bitmap_changed = true }

marked_start-HasRoom : HasRoom marked_start virgin_bits
marked_start-HasRoom = record { trace = omega arith; virgin = omega arith }

abbrev before_run : Afl
before_run = record marked_start { fsrv = record marked_start.fsrv { trace_bits = [] } }

Reach-IsSaved_example : IsSaved written
Reach-IsSaved_example =
    Reach-IsSaved by_bytes by_bytes-IsCoverage (λ fn s. true) {s = before_run} {t = written}
      (λ quiet. cc)
      (next
        (next (next here (ran marked_start.fsrv.trace_bits)) (
          looked virgin_bits (found marked_start virgin_bits) marked_start-HasRoom (
            has_new_bits_lem by_bytes by_bytes-IsCoverage marked_start virgin_bits
              marked_start-HasRoom)))
        (wrote seen_is_written))

minimize_bits_lem_example :
    let s = fresh_state 8 some_bytes in
    (out : List ℕ) × (minimize_bits s (0 ∷ []) some_bytes ≡ some out)
    × (length out ≡ 1)
    × ((j : ℕ)
        → bit_at out j ≡ (
            if ltb j s.fsrv.map_size && not (get_or some_bytes j 0 == 0)
            then 1
            else bit_at (0 ∷ []) j))
minimize_bits_lem_example =
    minimize_bits_lem (fresh_state 8 some_bytes) (0 ∷ []) some_bytes (omega arith) (omega arith)
      (omega arith)
