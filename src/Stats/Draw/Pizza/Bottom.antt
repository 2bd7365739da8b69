-- ===== src/Stats/Draw/Pizza/Bottom.antt =====
-- The rows of `show_stats_pizza` of `ctfuzz/afl/afl-fuzz-stats.c`, from the yields of the stages on.
use ctfuzz.Base.{ℕ, ◌∷◌, []}
use ctfuzz.Base.Text.{codes}
use ctfuzz.State.{Text}
use ctfuzz.Stats.Draw.{
  cgra, crst, ccya, bstart, bstop, set_g1, reset_g1, bh, bv, blb, brb, bvr, bvl, bx, Row, colour,
  switch, box, bars, label, field,
}
use ctfuzz.Stats.Draw.Screen.{Formats, Reals, Caps, Screen}
use ctfuzz.Stats.Draw.Yields.{
  dictionary_cell, imported_cell, havoc_cell, stability_cell, stability_colour, mutators_cell,
  trim_cell,
}

module _ {F : Type 0} (fmt : Formats F) (reals : Reals F) (caps : Caps) (now : ℕ)
    (s : Screen F) where
  abbrev pub yield_head : Row
  yield_head =
      box bvr
      ∷ box bh
      ∷ colour ccya
      ∷ switch bstop
      ∷ label " Promotional campaign on TikTok yields "
      ∷ switch bstart
      ∷ colour cgra
      ∷ bars 35
      ∷ box bx
      ∷ box bh
      ∷ switch bstop
      ∷ colour ccya
      ∷ label " Customer type "
      ∷ switch bstart
      ∷ colour cgra
      ∷ bars 40
      ∷ box bvl
      ∷ []

  abbrev pub bit_flips_row : Text → Row
  bit_flips_row tmp =
      box bv
      ∷ switch bstop
      ∷ label "                pizzas for celiac  : "
      ∷ colour crst
      ∷ field 36 tmp
      ∷ label "  "
      ∷ switch bstart
      ∷ colour cgra
      ∷ box bv
      ∷ switch bstop
      ∷ label "                           levels : "
      ∷ colour crst
      ∷ field 10 (fmt.int s.max_depth)
      ∷ label "          "
      ∷ switch bstart
      ∷ colour cgra
      ∷ box bv
      ∷ []

  abbrev pub byte_flips_row : Text → Row
  byte_flips_row tmp =
      box bv
      ∷ switch bstop
      ∷ label "                   pizzas for kids : "
      ∷ colour crst
      ∷ field 36 tmp
      ∷ label "  "
      ∷ switch bstart
      ∷ colour cgra
      ∷ box bv
      ∷ switch bstop
      ∷ label "                   pizzas to make : "
      ∷ colour crst
      ∷ field 10 (fmt.int s.pending_not_fuzzed)
      ∷ label "          "
      ∷ switch bstart
      ∷ colour cgra
      ∷ box bv
      ∷ []

  abbrev pub arithmetics_row : Text → Row
  arithmetics_row tmp =
      box bv
      ∷ switch bstop
      ∷ label "                      pizza bianca : "
      ∷ colour crst
      ∷ field 36 tmp
      ∷ label "  "
      ∷ switch bstart
      ∷ colour cgra
      ∷ box bv
      ∷ switch bstop
      ∷ label "                       nice table : "
      ∷ colour crst
      ∷ field 10 (fmt.int s.pending_favored)
      ∷ label "          "
      ∷ switch bstart
      ∷ colour cgra
      ∷ box bv
      ∷ []

  abbrev pub known_ints_row : Text → Row
  known_ints_row tmp =
      box bv
      ∷ switch bstop
      ∷ label "               recurring customers : "
      ∷ colour crst
      ∷ field 36 tmp
      ∷ label "  "
      ∷ switch bstart
      ∷ colour cgra
      ∷ box bv
      ∷ switch bstop
      ∷ label "                    new customers : "
      ∷ colour crst
      ∷ field 10 (fmt.int s.queued_discovered)
      ∷ label "          "
      ∷ switch bstart
      ∷ colour cgra
      ∷ box bv
      ∷ []

  abbrev pub dictionary_row : Row
  dictionary_row =
      box bv
      ∷ switch bstop
      ∷ label "                        dictionary : "
      ∷ colour crst
      ∷ field 36 (dictionary_cell fmt reals caps s (codes "18 year aniversary mode"))
      ∷ label "  "
      ∷ switch bstart
      ∷ colour cgra
      ∷ box bv
      ∷ switch bstop
      ∷ label "       patrons from old resturant : "
      ∷ colour crst
      ∷ field 10 (imported_cell fmt reals caps s)
      ∷ label "          "
      ∷ switch bstart
      ∷ colour cgra
      ∷ box bv
      ∷ []

  abbrev pub havoc_half : Row
  havoc_half =
      box bv
      ∷ switch bstop
      ∷ label " 18 year anniversary mode/cleaning : "
      ∷ colour crst
      ∷ field 36 (havoc_cell fmt reals caps s)
      ∷ label "  "
      ∷ switch bstart
      ∷ colour cgra
      ∷ box bv
      ∷ switch bstop
      ∷ []

  abbrev pub stability_half : Row
  stability_half =
      label "                    oven flameout : "
      ∷ colour (stability_colour fmt reals caps s)
      ∷ field 10 (stability_cell fmt reals caps s)
      ∷ label "          "
      ∷ switch bstart
      ∷ colour cgra
      ∷ box bv
      ∷ []

  abbrev pub mutators_row : Row
  mutators_row =
      box bv
      ∷ switch bstop
      ∷ label "                      py/custom/rq : "
      ∷ colour crst
      ∷ field 36 (mutators_cell fmt reals caps s)
      ∷ label "  "
      ∷ switch bstart
      ∷ colour cgra
      ∷ box bvr
      ∷ bars 56
      ∷ box brb
      ∷ []

  abbrev pub trim_half : Row
  trim_half =
      box bv
      ∷ switch bstop
      ∷ label "                   toilets clogged : "
      ∷ colour crst
      ∷ field 36 (trim_cell fmt reals caps s)
      ∷ label "  "
      ∷ switch bstart
      ∷ colour cgra
      ∷ box bv
      ∷ switch reset_g1
      ∷ []

  abbrev pub last_row : Row
  last_row =
      switch set_g1
      ∷ switch bstart
      ∷ colour cgra
      ∷ box blb
      ∷ bars 75
      ∷ box brb
      ∷ switch bstop
      ∷ colour crst
      ∷ switch reset_g1
      ∷ []
