-- ===== src/Stats/Draw/Layout.antt =====
-- The rows of the normal screen, added up from the widths of their cells.
use ctfuzz.Base.{
  ℕ, ◌+◌, ◌≤◌, ◌≡◌, refl, ◌==◌, ◌||◌, Bool, true, false, Bool-cases, Option-cases, min, inl, inr,
  [], ◌∷◌, ◌++◌, All, length, if◌then◌else◌, arith,
}
use ctfuzz.Base.Text.{codes}
use ctfuzz.State.{Text}
use ctfuzz.Stats.Draw.{Row, cgra, clgn, crst, colour, label, text}
use ctfuzz.Stats.Draw.Columns.{columns, columns-append}
use ctfuzz.Stats.Draw.Screen.{Formats, Reals, Caps, Screen}
use ctfuzz.Stats.Draw.Widths.{
  AreShort, AreRecent, IsShown, length-saved_crashes_cell, length-saved_hangs_cell,
  length-with_share, length-processing_cell, length-density_cell, length-tuple_cell,
  length-stage_cell, length-crashes_cell, length-tmouts_cell, length-speed_cell, length-if,
  length-trim_cell, length-imported_cell, length-havoc_cell, length-stability_cell,
}
use ctfuzz.Stats.Draw.Normal.{table, meter_row, flips_rows}
use ctfuzz.Stats.Draw.Normal.Top.{
  time_row, find_half, corpus_half, crash_row, hang_row, processing_half, density_half,
}
use ctfuzz.Stats.Draw.Normal.Middle.{
  skipped_half, tuple_half, favored_row, stage_half, edges_half, execs_row, speed_half, tmouts_half,
}
use ctfuzz.Stats.Draw.Normal.Bottom.{
  dictionary_row, havoc_half, stability_half, mutators_row, trim_half,
}
use ctfuzz.Stats.Draw.Cells.{shows_find, is_slow}
use ctfuzz.Stats.Draw.Yields.{load_pieces, spacing, cpu_meter, bit_flips_cell, dictionary_cell}

-- The options that the session has by default.
pub record HasDefaults {F : Type 0} (s : Screen F) : Type 0 where
  pub skips_stages : s.skip_deterministic ≡ true
  pub python : s.afl_python_module ≡ false
  pub custom : s.afl_custom_mutator_library ≡ false
  pub cmplog : s.cmplog_mode ≡ false

columns-if :
    (b : Bool) (x y z : Row) (n : ℕ)
    → columns (x ++ z) ≡ n
    → columns (y ++ z) ≡ n
    → columns ((if b then x else y) ++ z) ≡ n
columns-if true x y z n hx hy = hx
columns-if false x y z n hx hy = hy

module _ {F : Type 0} (fmt : Formats F) (reals : Reals F) (caps : Caps) (now : ℕ) (s : Screen F)
    (short : AreShort fmt reals) (is : IsShown s) (recent : AreRecent now s) where
  columns-time_row : columns (time_row fmt reals caps now s) ≡ 78
  columns-time_row =
      omega (arith, short.times (s.prev_run_time + now) s.start_time recent.start, short.ints)

  columns-find_row :
      columns (find_half fmt reals caps now s ++ corpus_half fmt reals caps now s) ≡ 78
  columns-find_row = elim (Bool-cases (shows_find s)) [
    | inl shows ↦ rw shows (omega (arith, short.times now s.last_find_time recent.find, short.ints))
    | inr hides ↦ elim (Bool-cases s.non_instrumented_mode) [
      | inl dumb ↦ rw (hides, dumb) (omega (arith, short.ints))
      | inr other ↦ rw (hides, other) (omega (arith, short.ints))
    ]
  ]

  columns-crash_row : columns (crash_row fmt reals caps now s) ≡ 78
  columns-crash_row = omega (
    arith,
    short.times now s.last_crash_time recent.crash,
    length-saved_crashes_cell fmt reals caps s short is,
  )

  columns-hang_row : columns (hang_row fmt reals caps now s) ≡ 78
  columns-hang_row = omega (
    arith,
    short.times now s.last_hang_time recent.hang,
    length-saved_hangs_cell fmt reals caps s short is,
  )

  columns-processing_row :
      columns (processing_half fmt reals caps now s ++ density_half fmt reals caps now s) ≡ 78
  columns-processing_row = omega (
    arith,
    length-processing_cell fmt reals caps s short is,
    length-density_cell fmt reals caps s short is,
  )

  columns-skipped_row :
      columns (skipped_half fmt reals caps now s ++ tuple_half fmt reals caps now s) ≡ 78
  columns-skipped_row = omega (
    arith,
    length-with_share fmt reals caps s short is s.cur_skipped_items is.skipped,
    length-tuple_cell fmt reals caps s short is,
  )

  columns-favored_row : columns (favored_row fmt reals caps now s) ≡ 78
  columns-favored_row =
      omega
        (arith, is.name, length-with_share fmt reals caps s short is s.queued_favored is.favored)

  columns-stage_row :
      columns (stage_half fmt reals caps now s ++ edges_half fmt reals caps now s) ≡ 78
  columns-stage_row = omega (
    arith,
    length-stage_cell fmt reals caps s short is,
    length-with_share fmt reals caps s short is s.queued_with_cov is.covering,
  )

  columns-execs_row : columns (execs_row fmt reals caps now s) ≡ 78
  columns-execs_row =
      let cell = length-crashes_cell fmt reals caps s short is in
      elim (Bool-cases s.crash_mode) [
        | inl crash ↦ rw crash (omega (arith, short.ints, cell))
        | inr fuzz ↦ rw fuzz (omega (arith, short.ints, cell))
      ]

  columns-speed_row :
      columns (speed_half fmt reals caps now s ++ tmouts_half fmt reals caps now s) ≡ 78
  columns-speed_row =
      let speed = length-speed_cell fmt reals caps s short is (codes "slow!") (omega arith) in
      let tmouts = length-tmouts_cell fmt reals caps s short is in
      columns-if (is_slow fmt reals caps s) _ _ (tmouts_half fmt reals caps now s) 78
        (omega (arith, speed, tmouts)) (omega (arith, speed, tmouts))

  module _ (defaults : HasDefaults s) where
    columns-flips_rows :
        (tmp : Text)
        → length tmp ≤ 36
        → All (λ r. columns r ≡ 78) (flips_rows fmt reals caps now s tmp)
    columns-flips_rows tmp h = rw defaults.skips_stages (
      omega (arith, h, short.ints),
      (
        omega (arith, h, short.ints),
        (omega (arith, h, short.ints), (omega (arith, h, short.ints), tt)),
      ),
    )

    length-bit_flips_cell :
        (only default : Text)
        → length only ≤ 36
        → length default ≤ 36
        → length (bit_flips_cell fmt reals caps s only default) ≤ 36
    length-bit_flips_cell only default ho hd =
        rw defaults.skips_stages (length-if s.custom_only only default 36 ho hd)

    columns-dictionary_row : columns (dictionary_row fmt reals caps now s) ≡ 78
    columns-dictionary_row =
        let words : length (dictionary_cell fmt reals caps s (codes "havoc mode")) ≤ 36 =
          rw defaults.skips_stages (
            length-if (s.extras_cnt == 0 || s.custom_only) (codes "n/a") (codes "havoc mode") 36
              (omega arith) (omega arith)) in
        omega (arith, words, length-imported_cell fmt reals caps s short is)

    columns-havoc_row :
        columns (havoc_half fmt reals caps now s ++ stability_half fmt reals caps now s) ≡ 78
    columns-havoc_row = omega (
      arith,
      length-havoc_cell fmt reals caps s short is,
      length-stability_cell fmt reals caps s short is,
    )

    columns-mutators_row : columns (mutators_row fmt reals caps now s) ≡ 78
    columns-mutators_row = rw (defaults.python, defaults.custom, defaults.cmplog) refl

    pub columns-table : All (λ r. columns r ≡ 78) (table fmt reals caps now s)
    columns-table =
        let tmp =
          bit_flips_cell fmt reals caps s (codes "disabled (custom-mutator-only mode)")
            (codes "disabled (default, enable with -D)") in
        let (f1, (f2, (f3, (f4, tt_)))) =
          columns-flips_rows tmp (length-bit_flips_cell _ _ (omega arith) (omega arith)) in
        (
          refl,
          (
            columns-time_row,
            (
              columns-find_row,
              (
                columns-crash_row,
                (
                  columns-hang_row,
                  (
                    refl,
                    (
                      columns-processing_row,
                      (
                        columns-skipped_row,
                        (
                          refl,
                          (
                            columns-favored_row,
                            (
                              columns-stage_row,
                              (
                                columns-execs_row,
                                (
                                  columns-speed_row,
                                  (
                                    refl,
                                    (
                                      f1,
                                      (
                                        f2,
                                        (
                                          f3,
                                          (
                                            f4,
                                            (
                                              columns-dictionary_row,
                                              (columns-havoc_row, (columns-mutators_row, tt)),
                                            ),
                                          ),
                                        ),
                                      ),
                                    ),
                                  ),
                                ),
                              ),
                            ),
                          ),
                        ),
                      ),
                    ),
                  ),
                ),
              ),
            ),
          ),
        )

    columns-load_pieces : columns (load_pieces fmt reals caps s) ≤ 5
    columns-load_pieces =
        omega (
          arith,
          short.pads (min (reals.utilization s.runnable s.cpu_core_count) 999) (omega arith),
        )

    columns-spacing :
        (snap : Row) → columns snap ≤ 10 → columns (spacing fmt reals caps s snap) ≤ 10
    columns-spacing snap h = elim (Bool-cases s.snapshot) [
      | inl on ↦ rw on h
      | inr off ↦ rw off (omega arith)
    ]

    columns-cpu_meter :
        (snap : Row) → columns snap ≤ 10 → columns (cpu_meter fmt reals caps s snap) ≤ 23
    columns-cpu_meter snap h = elim (Bool-cases (s.cpu_core_count == 0)) [
      | inl unknown ↦ rw unknown (omega arith)
      | inr counted ↦
          let load = columns-load_pieces in
          let space = columns-spacing snap h in
          rw counted (elim (Option-cases s.cpu_aff) [
            | inl free ↦ rw free (
                omega (
                  arith,
                  load,
                  space,
                  columns-append (spacing fmt reals caps s snap)
                      (colour cgra ∷ label "   [cpu:" ∷ load_pieces fmt reals caps s),
                ))
            | inr (core, bound) ↦ rw bound (
                omega (
                  arith,
                  load,
                  space,
                  short.zeros (min core 999) (omega arith),
                  columns-append (spacing fmt reals caps s snap) (
                      colour cgra
                      ∷ label "[cpu"
                      ∷ text (fmt.zero3 (min core 999))
                      ∷ label ":"
                      ∷ load_pieces fmt reals caps s),
                ))
          ])
    ]

    pub columns-meter_row : columns (meter_row fmt reals caps now s) ≤ 78
    columns-meter_row =
        let snap = label " " ∷ colour clgn ∷ label "snapshot" ∷ colour crst ∷ label " " ∷ [] in
        let trim : columns (trim_half fmt reals caps now s) ≤ 54 =
          omega (arith, length-trim_cell fmt reals caps s short is defaults.skips_stages) in
        omega (
          arith,
          trim,
          columns-cpu_meter snap (omega arith),
          columns-append (trim_half fmt reals caps now s) (cpu_meter fmt reals caps s snap),
        )
