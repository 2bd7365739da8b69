-- ===== src/Stats/Draw/Normal/Top.antt =====
-- The rows of `show_stats_normal` of `ctfuzz/afl/afl-fuzz-stats.c`, from the head on.
use ctfuzz.Base.{ℕ, ◌∷◌, [], ◌+◌, if◌then◌else◌}
use ctfuzz.Stats.File.{sub64}
use ctfuzz.Stats.Draw.{
  cgra, clrd, crst, cpin, ccya, bstart, bstop, set_g1, bh, bv, blt, brt, bvr, bvl, bht, bhb, Row,
  colour, switch, box, bars, label, field,
}
use ctfuzz.Stats.Draw.Screen.{Formats, Reals, Caps, Screen}
use ctfuzz.Stats.Draw.Cells.{
  crash_colour, cycle_colour, shows_find, saved_crashes_cell, saved_hangs_cell, processing_cell,
  density_cell, density_colour,
}

module _ {F : Type 0} (fmt : Formats F) (reals : Reals F) (caps : Caps) (now : ℕ)
    (s : Screen F) where
  abbrev pub normal_head : Row
  normal_head =
      switch set_g1
      ∷ switch bstart
      ∷ colour cgra
      ∷ box blt
      ∷ box bh
      ∷ switch bstop
      ∷ colour ccya
      ∷ label " process timing "
      ∷ switch bstart
      ∷ colour cgra
      ∷ bars 36
      ∷ box bhb
      ∷ box bh
      ∷ switch bstop
      ∷ colour ccya
      ∷ label " overall results "
      ∷ switch bstart
      ∷ colour cgra
      ∷ bars 4
      ∷ box brt
      ∷ []

  abbrev pub time_row : Row
  time_row =
      box bv
      ∷ switch bstop
      ∷ label "        run time : "
      ∷ colour crst
      ∷ field 33 (fmt.time_diff (s.prev_run_time + now) s.start_time)
      ∷ label " "
      ∷ switch bstart
      ∷ colour cgra
      ∷ box bv
      ∷ switch bstop
      ∷ label "  cycles done : "
      ∷ colour (cycle_colour now s)
      ∷ field 5 (fmt.int (sub64 s.queue_cycle 1))
      ∷ label " "
      ∷ switch bstart
      ∷ colour cgra
      ∷ box bv
      ∷ []

  abbrev pub find_half : Row
  find_half =
      if shows_find s
      then box bv
        ∷ switch bstop
        ∷ label "   last new find : "
        ∷ colour crst
        ∷ field 33 (fmt.time_diff now s.last_find_time)
        ∷ label " "
        ∷ []
      else if s.non_instrumented_mode
      then box bv
        ∷ switch bstop
        ∷ label "   last new find : "
        ∷ colour cpin
        ∷ label "n/a"
        ∷ colour crst
        ∷ label " (non-instrumented mode)       "
        ∷ []
      else box bv
        ∷ switch bstop
        ∷ label "   last new find : "
        ∷ colour crst
        ∷ label "none yet "
        ∷ colour clrd
        ∷ label "(odd, check syntax!)     "
        ∷ []

  abbrev pub corpus_half : Row
  corpus_half =
      switch bstart
      ∷ colour cgra
      ∷ box bv
      ∷ switch bstop
      ∷ label " corpus count : "
      ∷ colour crst
      ∷ field 5 (fmt.int s.queued_items)
      ∷ label " "
      ∷ switch bstart
      ∷ colour cgra
      ∷ box bv
      ∷ []

  abbrev pub crash_row : Row
  crash_row =
      box bv
      ∷ switch bstop
      ∷ label "last saved crash : "
      ∷ colour crst
      ∷ field 33 (fmt.time_diff now s.last_crash_time)
      ∷ label " "
      ∷ switch bstart
      ∷ colour cgra
      ∷ box bv
      ∷ switch bstop
      ∷ label "saved crashes : "
      ∷ colour (crash_colour s)
      ∷ field 6 (saved_crashes_cell fmt reals caps s)
      ∷ switch bstart
      ∷ colour cgra
      ∷ box bv
      ∷ []

  abbrev pub hang_row : Row
  hang_row =
      box bv
      ∷ switch bstop
      ∷ label " last saved hang : "
      ∷ colour crst
      ∷ field 33 (fmt.time_diff now s.last_hang_time)
      ∷ label " "
      ∷ switch bstart
      ∷ colour cgra
      ∷ box bv
      ∷ switch bstop
      ∷ label "  saved hangs : "
      ∷ colour crst
      ∷ field 6 (saved_hangs_cell fmt reals caps s)
      ∷ switch bstart
      ∷ colour cgra
      ∷ box bv
      ∷ []

  abbrev pub cycle_head : Row
  cycle_head =
      box bvr
      ∷ box bh
      ∷ switch bstop
      ∷ colour ccya
      ∷ label " cycle progress "
      ∷ switch bstart
      ∷ colour cgra
      ∷ bars 21
      ∷ box bhb
      ∷ box bh
      ∷ switch bstop
      ∷ colour ccya
      ∷ label " map coverage"
      ∷ switch bstart
      ∷ colour cgra
      ∷ box bht
      ∷ bars 22
      ∷ box bvl
      ∷ []

  abbrev pub processing_half : Row
  processing_half =
      box bv
      ∷ switch bstop
      ∷ label "  now processing : "
      ∷ colour crst
      ∷ field 18 (processing_cell fmt reals caps s)
      ∷ label " "
      ∷ switch bstart
      ∷ colour cgra
      ∷ box bv
      ∷ switch bstop
      ∷ []

  abbrev pub density_half : Row
  density_half =
      label "    map density : "
      ∷ colour (density_colour fmt reals caps s)
      ∷ field 19 (density_cell fmt reals caps s)
      ∷ switch bstart
      ∷ colour cgra
      ∷ box bv
      ∷ []
