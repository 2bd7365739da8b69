-- ===== src/Stats/Draw/Pizza/Middle.antt =====
-- The rows of `show_stats_pizza` of `ctfuzz/afl/afl-fuzz-stats.c`, in the middle.
use ctfuzz.Base.{ℕ, ◌∷◌, [], if◌then◌else◌}
use ctfuzz.Base.Text.{codes}
use ctfuzz.Stats.Draw.{
  cgra, clrd, crst, ccya, bstart, bstop, bh, bv, bvr, bvl, bx, Row, colour, switch, box, bars,
  label, field,
}
use ctfuzz.Stats.Draw.Screen.{Formats, Reals, Caps, Screen}
use ctfuzz.Stats.Draw.Cells.{
  crash_colour, with_share, tuple_cell, stage_cell, crashes_cell, tmouts_cell, is_slow, speed_cell,
}

module _ {F : Type 0} (fmt : Formats F) (reals : Reals F) (caps : Caps) (now : ℕ)
    (s : Screen F) where
  abbrev pub skipped_half : Row
  skipped_half =
      box bv
      ∷ switch bstop
      ∷ label "                     burned pizzas : "
      ∷ colour crst
      ∷ field 18 (with_share fmt reals caps s s.cur_skipped_items)
      ∷ label "                    "
      ∷ switch bstart
      ∷ colour cgra
      ∷ box bv
      ∷ []

  abbrev pub tuple_half : Row
  tuple_half =
      switch bstop
      ∷ label "                   count coverage : "
      ∷ colour crst
      ∷ field 19 (tuple_cell fmt reals caps s)
      ∷ label " "
      ∷ switch bstart
      ∷ colour cgra
      ∷ box bv
      ∷ []

  abbrev pub stage_head : Row
  stage_head =
      box bvr
      ∷ box bh
      ∷ switch bstop
      ∷ colour ccya
      ∷ label " Pizzas almost ready "
      ∷ switch bstart
      ∷ colour cgra
      ∷ bars 53
      ∷ box bx
      ∷ box bh
      ∷ switch bstop
      ∷ colour ccya
      ∷ label " Types of pizzas cooking "
      ∷ switch bstart
      ∷ colour cgra
      ∷ bars 30
      ∷ box bvl
      ∷ []

  abbrev pub favored_row : Row
  favored_row =
      box bv
      ∷ switch bstop
      ∷ label "                     now preparing : "
      ∷ colour crst
      ∷ field 22 s.stage_name
      ∷ label "                "
      ∷ switch bstart
      ∷ colour cgra
      ∷ box bv
      ∷ switch bstop
      ∷ label "                favourite topping : "
      ∷ colour crst
      ∷ field 20 (with_share fmt reals caps s s.queued_favored)
      ∷ switch bstart
      ∷ colour cgra
      ∷ box bv
      ∷ []

  abbrev pub stage_half : Row
  stage_half =
      box bv
      ∷ switch bstop
      ∷ label "                  number of pizzas : "
      ∷ colour crst
      ∷ field 23 (stage_cell fmt reals caps s)
      ∷ label "               "
      ∷ switch bstart
      ∷ colour cgra
      ∷ box bv
      ∷ switch bstop
      ∷ []

  abbrev pub edges_half : Row
  edges_half =
      label " new pizza type seen on Instagram : "
      ∷ colour crst
      ∷ field 20 (with_share fmt reals caps s s.queued_with_cov)
      ∷ switch bstart
      ∷ colour cgra
      ∷ box bv
      ∷ []

  abbrev pub execs_row : Row
  execs_row =
      if s.crash_mode
      then box bv
        ∷ switch bstop
        ∷ label "                      total pizzas : "
        ∷ colour crst
        ∷ field 22 (fmt.int s.total_execs)
        ∷ label "                "
        ∷ switch bstart
        ∷ colour cgra
        ∷ box bv
        ∷ switch bstop
        ∷ label "      pizzas with pineapple : "
        ∷ colour (crash_colour s)
        ∷ field 20 (crashes_cell fmt reals caps s)
        ∷ switch bstart
        ∷ colour cgra
        ∷ box bv
        ∷ []
      else box bv
        ∷ switch bstop
        ∷ label "                      total pizzas : "
        ∷ colour crst
        ∷ field 22 (fmt.int s.total_execs)
        ∷ label "                "
        ∷ switch bstart
        ∷ colour cgra
        ∷ box bv
        ∷ switch bstop
        ∷ label "      total pizzas with pineapple : "
        ∷ colour (crash_colour s)
        ∷ field 20 (crashes_cell fmt reals caps s)
        ∷ switch bstart
        ∷ colour cgra
        ∷ box bv
        ∷ []

  abbrev pub speed_half : Row
  speed_half =
      if is_slow fmt reals caps s
      then box bv
        ∷ switch bstop
        ∷ label "                pizza making speed : "
        ∷ colour clrd
        ∷ field 22 (speed_cell fmt reals caps s (codes "Gennarino is at it again!"))
        ∷ label "                "
        ∷ []
      else box bv
        ∷ switch bstop
        ∷ label "                pizza making speed : "
        ∷ colour crst
        ∷ field 22 (speed_cell fmt reals caps s (codes "Gennarino is at it again!"))
        ∷ label "                "
        ∷ []

  abbrev pub tmouts_half : Row
  tmouts_half =
      switch bstart
      ∷ colour cgra
      ∷ box bv
      ∷ switch bstop
      ∷ label "                    burned pizzas : "
      ∷ colour crst
      ∷ field 20 (tmouts_cell fmt reals caps s)
      ∷ switch bstart
      ∷ colour cgra
      ∷ box bv
      ∷ []
