-- ===== src/Stats/Draw/Normal/Bottom.antt =====
-- The rows of `show_stats_normal` of `ctfuzz/afl/afl-fuzz-stats.c`, from the yields of the stages on.
use ctfuzz.Base.{ℕ, ◌∷◌, []}
use ctfuzz.Base.Text.{codes}
use ctfuzz.State.{Text}
use ctfuzz.Stats.Draw.{
  cgra, crst, ccya, bstart, bstop, set_g1, reset_g1, bh, bv, blb, brb, bvr, bvl, bht, bhb, Row,
  colour, switch, box, bars, label, field,
}
use ctfuzz.Stats.Draw.Screen.{Formats, Reals, Caps, Screen}
use ctfuzz.Stats.Draw.Yields.{
  dictionary_cell, imported_cell, havoc_cell, stability_cell, stability_colour, mutators_cell,
  trim_cell,
}

module _ {F : Type 0} (fmt : Formats F) (reals : Reals F) (caps : Caps) (now : ℕ)
    (s : Screen F) where
  abbrev pub yield_head : Row
  yield_head =
      box bvr
      ∷ box bh
      ∷ colour ccya
      ∷ switch bstop
      ∷ label " fuzzing strategy yields "
      ∷ switch bstart
      ∷ colour cgra
      ∷ bars 12
      ∷ box bht
      ∷ bars 13
      ∷ box bhb
      ∷ box bh
      ∷ switch bstop
      ∷ colour ccya
      ∷ label " item geometry "
      ∷ switch bstart
      ∷ colour cgra
      ∷ bars 7
      ∷ box bvl
      ∷ []

  abbrev pub bit_flips_row : Text → Row
  bit_flips_row tmp =
      box bv
      ∷ switch bstop
      ∷ label "   bit flips : "
      ∷ colour crst
      ∷ field 36 tmp
      ∷ label " "
      ∷ switch bstart
      ∷ colour cgra
      ∷ box bv
      ∷ switch bstop
      ∷ label "    levels : "
      ∷ colour crst
      ∷ field 10 (fmt.int s.max_depth)
      ∷ switch bstart
      ∷ colour cgra
      ∷ box bv
      ∷ []

  abbrev pub byte_flips_row : Text → Row
  byte_flips_row tmp =
      box bv
      ∷ switch bstop
      ∷ label "  byte flips : "
      ∷ colour crst
      ∷ field 36 tmp
      ∷ label " "
      ∷ switch bstart
      ∷ colour cgra
      ∷ box bv
      ∷ switch bstop
      ∷ label "   pending : "
      ∷ colour crst
      ∷ field 10 (fmt.int s.pending_not_fuzzed)
      ∷ switch bstart
      ∷ colour cgra
      ∷ box bv
      ∷ []

  abbrev pub arithmetics_row : Text → Row
  arithmetics_row tmp =
      box bv
      ∷ switch bstop
      ∷ label " arithmetics : "
      ∷ colour crst
      ∷ field 36 tmp
      ∷ label " "
      ∷ switch bstart
      ∷ colour cgra
      ∷ box bv
      ∷ switch bstop
      ∷ label "  pend fav : "
      ∷ colour crst
      ∷ field 10 (fmt.int s.pending_favored)
      ∷ switch bstart
      ∷ colour cgra
      ∷ box bv
      ∷ []

  abbrev pub known_ints_row : Text → Row
  known_ints_row tmp =
      box bv
      ∷ switch bstop
      ∷ label "  known ints : "
      ∷ colour crst
      ∷ field 36 tmp
      ∷ label " "
      ∷ switch bstart
      ∷ colour cgra
      ∷ box bv
      ∷ switch bstop
      ∷ label " own finds : "
      ∷ colour crst
      ∷ field 10 (fmt.int s.queued_discovered)
      ∷ switch bstart
      ∷ colour cgra
      ∷ box bv
      ∷ []

  abbrev pub dictionary_row : Row
  dictionary_row =
      box bv
      ∷ switch bstop
      ∷ label "  dictionary : "
      ∷ colour crst
      ∷ field 36 (dictionary_cell fmt reals caps s (codes "havoc mode"))
      ∷ label " "
      ∷ switch bstart
      ∷ colour cgra
      ∷ box bv
      ∷ switch bstop
      ∷ label "  imported : "
      ∷ colour crst
      ∷ field 10 (imported_cell fmt reals caps s)
      ∷ switch bstart
      ∷ colour cgra
      ∷ box bv
      ∷ []

  abbrev pub havoc_half : Row
  havoc_half =
      box bv
      ∷ switch bstop
      ∷ label "havoc/splice : "
      ∷ colour crst
      ∷ field 36 (havoc_cell fmt reals caps s)
      ∷ label " "
      ∷ switch bstart
      ∷ colour cgra
      ∷ box bv
      ∷ switch bstop
      ∷ []

  abbrev pub stability_half : Row
  stability_half =
      label " stability : "
      ∷ colour (stability_colour fmt reals caps s)
      ∷ field 10 (stability_cell fmt reals caps s)
      ∷ switch bstart
      ∷ colour cgra
      ∷ box bv
      ∷ []

  abbrev pub mutators_row : Row
  mutators_row =
      box bv
      ∷ switch bstop
      ∷ label "py/custom/rq : "
      ∷ colour crst
      ∷ field 36 (mutators_cell fmt reals caps s)
      ∷ label " "
      ∷ switch bstart
      ∷ colour cgra
      ∷ box bvr
      ∷ bars 23
      ∷ box brb
      ∷ []

  abbrev pub trim_half : Row
  trim_half =
      box bv
      ∷ switch bstop
      ∷ label "    trim/eff : "
      ∷ colour crst
      ∷ field 36 (trim_cell fmt reals caps s)
      ∷ label " "
      ∷ switch bstart
      ∷ colour cgra
      ∷ box bv
      ∷ switch reset_g1
      ∷ []

  abbrev pub last_row : Row
  last_row =
      switch set_g1
      ∷ switch bstart
      ∷ colour cgra
      ∷ box blb
      ∷ bars 52
      ∷ box brb
      ∷ switch bstop
      ∷ colour crst
      ∷ switch reset_g1
      ∷ []
