-- ===== src/Stats/Draw/Pizza/Top.antt =====
-- The rows of `show_stats_pizza` of `ctfuzz/afl/afl-fuzz-stats.c`, from the head on.
use ctfuzz.Base.{ℕ, ◌∷◌, [], ◌+◌, if◌then◌else◌}
use ctfuzz.Stats.File.{sub64}
use ctfuzz.Stats.Draw.{
  cgra, clrd, crst, cpin, ccya, bstart, bstop, set_g1, bh, bv, blt, brt, bvr, bvl, bhb, bx, Row,
  colour, switch, box, bars, label, field,
}
use ctfuzz.Stats.Draw.Screen.{Formats, Reals, Caps, Screen}
use ctfuzz.Stats.Draw.Cells.{
  crash_colour, cycle_colour, shows_find, saved_crashes_cell, saved_hangs_cell, processing_cell,
  density_cell, density_colour,
}

module _ {F : Type 0} (fmt : Formats F) (reals : Reals F) (caps : Caps) (now : ℕ)
    (s : Screen F) where
  abbrev pub pizza_head : Row
  pizza_head =
      switch set_g1
      ∷ switch bstart
      ∷ colour cgra
      ∷ box blt
      ∷ box bh
      ∷ switch bstop
      ∷ colour ccya
      ∷ label " Mozzarbella has been proudly serving pizzas since "
      ∷ switch bstart
      ∷ colour cgra
      ∷ bars 23
      ∷ box bhb
      ∷ box bh
      ∷ switch bstop
      ∷ colour ccya
      ∷ label " In this time, we served "
      ∷ switch bstart
      ∷ colour cgra
      ∷ bars 30
      ∷ box brt
      ∷ []

  abbrev pub time_row : Row
  time_row =
      box bv
      ∷ switch bstop
      ∷ label "                         open time : "
      ∷ colour crst
      ∷ field 37 (fmt.time_diff (s.prev_run_time + now) s.start_time)
      ∷ label " "
      ∷ switch bstart
      ∷ colour cgra
      ∷ box bv
      ∷ switch bstop
      ∷ label "                     seasons done : "
      ∷ colour (cycle_colour now s)
      ∷ field 5 (fmt.int (sub64 s.queue_cycle 1))
      ∷ label "               "
      ∷ switch bstart
      ∷ colour cgra
      ∷ box bv
      ∷ []

  abbrev pub find_half : Row
  find_half =
      if shows_find s
      then box bv
        ∷ switch bstop
        ∷ label "                  last pizza baked : "
        ∷ colour crst
        ∷ field 37 (fmt.time_diff now s.last_find_time)
        ∷ label " "
        ∷ []
      else if s.non_instrumented_mode
      then box bv
        ∷ switch bstop
        ∷ label "                  last pizza baked : "
        ∷ colour cpin
        ∷ label "n/a"
        ∷ colour crst
        ∷ label " (non-instrumented mode)           "
        ∷ []
      else box bv
        ∷ switch bstop
        ∷ label "                  last pizza baked : "
        ∷ colour crst
        ∷ label "none yet "
        ∷ colour clrd
        ∷ label "(odd, check Gennarino, he might be slacking!)     "
        ∷ []

  abbrev pub corpus_half : Row
  corpus_half =
      switch bstart
      ∷ colour cgra
      ∷ box bv
      ∷ switch bstop
      ∷ label "               pizzas on the menu : "
      ∷ colour crst
      ∷ field 5 (fmt.int s.queued_items)
      ∷ label "               "
      ∷ switch bstart
      ∷ colour cgra
      ∷ box bv
      ∷ []

  abbrev pub crash_row : Row
  crash_row =
      box bv
      ∷ switch bstop
      ∷ label "                last ordered pizza : "
      ∷ colour crst
      ∷ field 33 (fmt.time_diff now s.last_crash_time)
      ∷ label "     "
      ∷ switch bstart
      ∷ colour cgra
      ∷ box bv
      ∷ switch bstop
      ∷ label "                         at table : "
      ∷ colour (crash_colour s)
      ∷ field 6 (saved_crashes_cell fmt reals caps s)
      ∷ label "              "
      ∷ switch bstart
      ∷ colour cgra
      ∷ box bv
      ∷ []

  abbrev pub hang_row : Row
  hang_row =
      box bv
      ∷ switch bstop
      ∷ label "  last conversation with customers : "
      ∷ colour crst
      ∷ field 33 (fmt.time_diff now s.last_hang_time)
      ∷ label "     "
      ∷ switch bstart
      ∷ colour cgra
      ∷ box bv
      ∷ switch bstop
      ∷ label "                 number of Peroni : "
      ∷ colour crst
      ∷ field 6 (saved_hangs_cell fmt reals caps s)
      ∷ label "              "
      ∷ switch bstart
      ∷ colour cgra
      ∷ box bv
      ∷ []

  abbrev pub cycle_head : Row
  cycle_head =
      box bvr
      ∷ box bh
      ∷ switch bstop
      ∷ colour ccya
      ∷ label " Baking progress  "
      ∷ switch bstart
      ∷ colour cgra
      ∷ bars 56
      ∷ box bx
      ∷ box bh
      ∷ switch bstop
      ∷ colour ccya
      ∷ label " Pizzeria busyness"
      ∷ switch bstart
      ∷ colour cgra
      ∷ bars 37
      ∷ box bvl
      ∷ []

  abbrev pub processing_half : Row
  processing_half =
      box bv
      ∷ switch bstop
      ∷ label "                        now baking : "
      ∷ colour crst
      ∷ field 18 (processing_cell fmt reals caps s)
      ∷ label "                    "
      ∷ switch bstart
      ∷ colour cgra
      ∷ box bv
      ∷ switch bstop
      ∷ []

  abbrev pub density_half : Row
  density_half =
      label "                       table full : "
      ∷ colour (density_colour fmt reals caps s)
      ∷ field 19 (density_cell fmt reals caps s)
      ∷ label " "
      ∷ switch bstart
      ∷ colour cgra
      ∷ box bv
      ∷ []
