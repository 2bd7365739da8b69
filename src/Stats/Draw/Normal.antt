-- ===== src/Stats/Draw/Normal.antt =====
-- The rows of `show_stats_normal` of `ctfuzz/afl/afl-fuzz-stats.c` beneath the banner.
pub mod Top
pub mod Middle
pub mod Bottom
use ctfuzz.Base.{ℕ, ◌∷◌, [], List, ◌++◌}
use ctfuzz.Base.Text.{codes}
use ctfuzz.State.{Text}
use ctfuzz.Stats.Draw.{crst, clgn, Row, colour, label}
use ctfuzz.Stats.Draw.Screen.{Formats, Reals, Caps, Screen}
use ctfuzz.Stats.Draw.Yields.{
  bit_flips_cell, kept_or, byte_flips, arithmetics, known_ints, cpu_meter,
}
use ctfuzz.Stats.Draw.Normal.Top.{
  normal_head, time_row, find_half, corpus_half, crash_row, hang_row, cycle_head, processing_half,
  density_half,
}
use ctfuzz.Stats.Draw.Normal.Middle.{
  skipped_half, tuple_half, stage_head, favored_row, stage_half, edges_half, execs_row, speed_half,
  tmouts_half,
}
use ctfuzz.Stats.Draw.Normal.Bottom.{
  yield_head, bit_flips_row, byte_flips_row, arithmetics_row, known_ints_row, dictionary_row,
  havoc_half, stability_half, mutators_row, trim_half, last_row,
}

module _ {F : Type 0} (fmt : Formats F) (reals : Reals F) (caps : Caps) (now : ℕ)
    (s : Screen F) where
  -- The four rows that share `tmp`.
  abbrev pub flips_rows : Text → List Row
  flips_rows tmp0 =
      let tmp1 = kept_or fmt reals caps s (byte_flips fmt reals caps s) tmp0 in
      let tmp2 = kept_or fmt reals caps s (arithmetics fmt reals caps s) tmp1 in
      let tmp3 = kept_or fmt reals caps s (known_ints fmt reals caps s) tmp2 in
      bit_flips_row fmt reals caps now s tmp0
      ∷ byte_flips_row fmt reals caps now s tmp1
      ∷ arithmetics_row fmt reals caps now s tmp2
      ∷ known_ints_row fmt reals caps now s tmp3
      ∷ []

  -- The rows between the banner and the meter of the processor.
  abbrev pub table : List Row
  table =
      normal_head fmt reals caps now s
      ∷ time_row fmt reals caps now s
      ∷ (find_half fmt reals caps now s ++ corpus_half fmt reals caps now s)
      ∷ crash_row fmt reals caps now s
      ∷ hang_row fmt reals caps now s
      ∷ cycle_head fmt reals caps now s
      ∷ (processing_half fmt reals caps now s ++ density_half fmt reals caps now s)
      ∷ (skipped_half fmt reals caps now s ++ tuple_half fmt reals caps now s)
      ∷ stage_head fmt reals caps now s
      ∷ favored_row fmt reals caps now s
      ∷ (stage_half fmt reals caps now s ++ edges_half fmt reals caps now s)
      ∷ execs_row fmt reals caps now s
      ∷ (speed_half fmt reals caps now s ++ tmouts_half fmt reals caps now s)
      ∷ yield_head fmt reals caps now s
      ∷ (flips_rows (
            bit_flips_cell fmt reals caps s (codes "disabled (custom-mutator-only mode)")
              (codes "disabled (default, enable with -D)"))
          ++ (dictionary_row fmt reals caps now s
              ∷ (havoc_half fmt reals caps now s ++ stability_half fmt reals caps now s)
              ∷ mutators_row fmt reals caps now s
              ∷ []))

  -- The row with the meter.
  abbrev pub meter_row : Row
  meter_row =
      trim_half fmt reals caps now s
      ++ cpu_meter fmt reals caps s
          (label " " ∷ colour clgn ∷ label "snapshot" ∷ colour crst ∷ label " " ∷ [])

  -- Every row beneath the banner, each behind a newline.
  unfoldable pub normal_rows : List Row
  normal_rows = table ++ (meter_row ∷ last_row fmt reals caps now s ∷ [])
