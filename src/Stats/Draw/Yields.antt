-- ===== src/Stats/Draw/Yields.antt =====
-- The texts of the yields of the stages, and the meter of the processor, on both status screens.
use ctfuzz.Base.{
  not, ◌&&◌, ◌||◌, some, none, List, [], ◌∷◌, ◌++◌, ◌==◌, leb, ltb, if◌then◌else◌, min,
}
use ctfuzz.Base.Text.{codes}
use ctfuzz.State.{Text}
use ctfuzz.Stats.File.{sub64}
use ctfuzz.Stats.Draw.{
  Colour, cgra, clrd, crst, cmgn, clgn, ccya, Row, colour, label, text, carriage_return,
}
use ctfuzz.Stats.Draw.Screen.{
  StageName, stage_flip1, stage_flip2, stage_flip4, stage_flip8, stage_flip16, stage_flip32,
  stage_arith8, stage_arith16, stage_arith32, stage_interest8, stage_interest16, stage_interest32,
  stage_extras_uo, stage_extras_ui, stage_extras_ao, stage_extras_ai, stage_havoc, stage_splice,
  stage_python, stage_custom_mutator, stage_colorization, stage_its, Formats, Reals, Caps, Screen,
}
use ctfuzz.Stats.Draw.Cells.{percentage}

module _ {F : Type 0} (fmt : Formats F) (reals : Reals F) (caps : Caps) (s : Screen F) where
  -- `%s/%s`: the finds and the executions of a stage.
  abbrev pub yield_of : StageName → Text
  yield_of stage = fmt.int (s.stage_finds stage) ++ (codes "/" ++ fmt.int (s.stage_cycles stage))

  abbrev pub listed : List StageName → Text
  listed [] = []
  listed (stage ∷ []) = yield_of stage
  listed (stage ∷ more ∷ stages) = yield_of stage ++ (codes ", " ++ listed (more ∷ stages))

  -- `tmp` in the row of bit flips, with the words of the screen for what is off.
  abbrev pub bit_flips_cell : Text → Text → Text
  bit_flips_cell only default =
      if s.custom_only
      then only
      else if s.skip_deterministic
      then default
      else listed (stage_flip1 ∷ stage_flip2 ∷ stage_flip4 ∷ [])

  -- `tmp` in a later row: it stays as it was where the deterministic stages are skipped.
  abbrev pub kept_or : List StageName → Text → Text
  kept_or stages tmp = if s.skip_deterministic then tmp else listed stages

  abbrev pub byte_flips : List StageName
  byte_flips = stage_flip8 ∷ stage_flip16 ∷ stage_flip32 ∷ []

  abbrev pub arithmetics : List StageName
  arithmetics = stage_arith8 ∷ stage_arith16 ∷ stage_arith32 ∷ []

  abbrev pub known_ints : List StageName
  known_ints = stage_interest8 ∷ stage_interest16 ∷ stage_interest32 ∷ []

  abbrev pub dictionary_cell : Text → Text
  dictionary_cell havoc =
      if not s.skip_deterministic
      then listed (stage_extras_uo ∷ stage_extras_ui ∷ stage_extras_ao ∷ stage_extras_ai ∷ [])
      else if s.extras_cnt == 0 || s.custom_only
      then codes "n/a"
      else havoc

  abbrev pub imported_cell : Text
  imported_cell = if s.sync_id then fmt.int s.queued_imported else codes "n/a"

  abbrev pub havoc_cell : Text
  havoc_cell = listed (stage_havoc ∷ stage_splice ∷ [])

  -- `stab_ratio`, which is 100 where no byte varies.
  abbrev pub stab_ratio : F
  stab_ratio =
      if not (s.t_bytes == 0) && not (s.var_byte_count == 0)
      then reals.less_100 (reals.percent s.var_byte_count s.t_bytes)
      else reals.less_100 reals.nought

  abbrev pub stability_cell : Text
  stability_cell = if s.t_bytes == 0 then codes "n/a" else fmt.fixed 2 stab_ratio ++ codes "%"

  abbrev pub stability_colour : Colour
  stability_colour =
      if reals.below stab_ratio 85 && ltb 40 s.var_byte_count
      then clrd
      else if not (s.queued_variable == 0) && (not s.persistent_mode || ltb 20 s.var_byte_count)
      then cmgn
      else crst

  -- The row `py/custom/rq`.
  abbrev pub mutators_cell : Text
  mutators_cell =
      (if s.afl_python_module then yield_of stage_python ++ codes "," else codes "unused,")
      ++ ((if s.afl_custom_mutator_library
            then codes " " ++ (yield_of stage_custom_mutator ++ codes ",")
            else codes " unused,")
          ++ (if s.cmplog_mode
              then codes " " ++ (yield_of stage_colorization ++ (codes ", " ++ yield_of stage_its))
              else codes " unused, unused"))

  abbrev pub trim_part : Text
  trim_part =
      if s.disable_trim
      then codes "disabled, "
      else if s.bytes_trim_out == 0
      then codes "n/a, "
      else percentage fmt reals caps s (sub64 s.bytes_trim_in s.bytes_trim_out) s.bytes_trim_in
        ++ (codes "/" ++ (fmt.int s.trim_execs ++ codes ", "))

  abbrev pub eff_part : Text
  eff_part =
      if s.skip_deterministic
      then codes "disabled"
      else if s.blocks_eff_total == 0
      then codes "n/a"
      else percentage fmt reals caps s (sub64 s.blocks_eff_total s.blocks_eff_select)
          s.blocks_eff_total

  abbrev pub trim_cell : Text
  trim_cell = trim_part ++ eff_part

  -- The meter of the processor, with the row that stands in for `spacing` in a snapshot.
  abbrev pub cpu_colour : Colour
  cpu_colour =
      if not s.no_cpu_meter_red && leb 150 (reals.utilization s.runnable s.cpu_core_count)
      then clrd
      else if ltb 1 s.cpu_core_count && reals.has_room s.runnable s.cpu_core_count
      then clgn
      else ccya

  abbrev pub spacing : Row → Row
  spacing snap = if s.snapshot then snap else label "          " ∷ []

  abbrev pub load_pieces : Row
  load_pieces =
      colour cpu_colour
      ∷ text (fmt.pad3 (min (reals.utilization s.runnable s.cpu_core_count) 999))
      ∷ label "%"
      ∷ colour cgra
      ∷ label "]"
      ∷ carriage_return
      ∷ colour crst
      ∷ []

  abbrev pub cpu_meter : Row → Row
  cpu_meter snap =
      if s.cpu_core_count == 0
      then carriage_return ∷ []
      else spacing snap ++ elim s.cpu_aff [
        | none ↦ colour cgra ∷ label "   [cpu:" ∷ load_pieces
        | some core ↦
            colour cgra ∷ label "[cpu" ∷ text (fmt.zero3 (min core 999)) ∷ label ":" ∷ load_pieces
      ]
