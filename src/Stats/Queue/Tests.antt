-- ===== src/Stats/Queue/Tests.antt =====
-- A queue of one entry, whose name holds commas.
use ctfuzz.Base.{ℕ, zero, suc, ◌≡◌, List, [], ◌∷◌, map, take, arith}
use ctfuzz.Base.Text.{codes}
use ctfuzz.State.{Text, ok}
use ctfuzz.Stats.Queue.{Entry, Formats, head_line, write_queue_stats}
use ctfuzz.Stats.Queue.Csv.{AreBare, IsBare, cells, values, write_queue_stats-cells}

-- Numbers in unary, and one text for all doubles.
abbrev strokes : ℕ → Text
strokes zero = []
strokes (suc n) = 49 ∷ strokes n

abbrev sample_formats : Formats ℕ
sample_formats = record { decimal = strokes; fixed3 = λ x. codes "1.000" }

strokes-IsBare : (n : ℕ) → IsBare (strokes n)
strokes-IsBare zero = tt
strokes-IsBare (suc n) = ((omega arith, omega arith), strokes-IsBare n)

sample_AreBare : AreBare sample_formats
sample_AreBare = record {
  decimals = strokes-IsBare;
  fixed = λ x. (
    (omega arith, omega arith),
    (
      (omega arith, omega arith),
      ((omega arith, omega arith), ((omega arith, omega arith), ((omega arith, omega arith), tt))),
    ),
  );
}

abbrev sample_entry : Entry ℕ
sample_entry = record {
  fname = codes "id,op";
  len = 3;
  exec_us = 2;
  stats_selected = 1;
  stats_skipped = 0;
  stats_mutated = 4;
  stats_finds = 0;
  stats_crashes = 1;
  stats_tmouts = 0;
  bitmap_size = 5;
  perf_score = 1;
  weight = 1;
  colorized = 0;
  favored = 1;
  disabled = 0;
}

write_queue_stats-cells_example :
    (lines : List Text) × (write_queue_stats sample_formats 1 (sample_entry ∷ [])
      ≡ ok (head_line ∷ lines))
    × (map cells lines ≡ map (values sample_formats) (take 1 (sample_entry ∷ [])))
write_queue_stats-cells_example =
    write_queue_stats-cells sample_formats 1 (sample_entry ∷ []) sample_AreBare (omega arith)
      ((omega arith, (omega arith, (omega arith, (omega arith, (omega arith, tt))))), tt)
