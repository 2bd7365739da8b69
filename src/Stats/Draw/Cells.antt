-- ===== src/Stats/Draw/Cells.antt =====
-- The texts and colours that both status screens compute for their fields, most of them in `tmp`.
use ctfuzz.Base.{ℕ, ◌/◌, Bool, not, ◌&&◌, ◌||◌, [], ◌++◌, ◌==◌, leb, ltb, if◌then◌else◌}
use ctfuzz.Base.Text.{codes}
use ctfuzz.State.{Text}
use ctfuzz.Stats.File.{sub64}
use ctfuzz.Stats.Draw.{Colour, clrd, cyel, crst, cmgn, clgn, clbl, cpin}
use ctfuzz.Stats.Draw.Screen.{Formats, Reals, Caps, Screen}

module _ {F : Type 0} where
  abbrev pub crash_colour : Screen F → Colour
  crash_colour s =
      if not (s.total_crashes == 0) then clrd else if not (s.saved_crashes == 0) then cyel else crst

  -- The colour of the cycles that are done.
  abbrev pub cycle_colour : ℕ → Screen F → Colour
  cycle_colour now s =
      let min_wo_finds = sub64 now s.last_find_time / 1000 / 60 in
      if s.non_instrumented_mode
      then crst
      else if s.queue_cycle == 1 || ltb min_wo_finds 15
      then cmgn
      else if ltb s.cycles_wo_finds 25 || ltb min_wo_finds 30
      then cyel
      else if ltb 100 s.cycles_wo_finds && s.pending_not_fuzzed == 0 && ltb 120 min_wo_finds
      then clgn
      else clbl

  -- Whether the time of the last find is shown.
  abbrev pub shows_find : Screen F → Bool
  shows_find s =
      not s.non_instrumented_mode
      && (not (s.last_find_time == 0)
          || s.resuming_fuzz
          || s.queue_cycle == 1
          || s.in_bitmap
          || s.crash_mode)

  -- The fields of the numbers, each as it is formatted into `tmp`.
  module _ (fmt : Formats F) (reals : Reals F) (caps : Caps) (s : Screen F) where
    -- A `+` where the limit is reached.
    abbrev pub plus_from : ℕ → ℕ → Text
    plus_from limit n = if leb limit n then codes "+" else []

    abbrev pub percentage : ℕ → ℕ → Text
    percentage a b = fmt.fixed 2 (reals.percent a b) ++ codes "%"

    abbrev pub with_share : ℕ → Text
    with_share n = fmt.int n ++ (codes " (" ++ (percentage n s.queued_items ++ codes ")"))

    abbrev pub saved_crashes_cell : Text
    saved_crashes_cell = fmt.int s.saved_crashes ++ plus_from caps.keep_unique_crash s.saved_crashes

    abbrev pub saved_hangs_cell : Text
    saved_hangs_cell = fmt.int s.saved_hangs ++ plus_from caps.keep_unique_hang s.saved_hangs

    abbrev pub processing_cell : Text
    processing_cell =
        fmt.int s.current_entry
        ++ ((if s.favored then codes "." else codes "*")
            ++ (fmt.decimal s.fuzz_level
                ++ (codes " ("
                    ++ (fmt.fixed 1 (reals.percent s.current_entry s.queued_items) ++ codes "%)"))))

    abbrev pub density_cell : Text
    density_cell =
        percentage s.bitmap_size s.real_map_size
        ++ (codes " / " ++ percentage s.t_bytes s.real_map_size)

    abbrev pub density_colour : Colour
    density_colour =
        if reals.above (reals.percent s.t_bytes s.real_map_size) 70
        then clrd
        else if ltb s.t_bytes 200 && not s.non_instrumented_mode
        then cpin
        else crst

    abbrev pub tuple_cell : Text
    tuple_cell =
        fmt.fixed 2 (if s.t_bytes == 0 then reals.nought else reals.quotient s.t_bits s.t_bytes)
        ++ codes " bits/tuple"

    abbrev pub stage_cell : Text
    stage_cell =
        if s.stage_max == 0
        then fmt.int s.stage_cur ++ codes "/-"
        else fmt.int s.stage_cur
          ++ (codes "/"
              ++ (fmt.int s.stage_max
                  ++ (codes " (" ++ (percentage s.stage_cur s.stage_max ++ codes ")"))))

    -- `%s (%s%s saved)`
    abbrev pub saved_of : ℕ → ℕ → Text → Text
    saved_of total saved plus =
        fmt.int total ++ (codes " (" ++ (fmt.int saved ++ (plus ++ codes " saved)")))

    abbrev pub crashes_cell : Text
    crashes_cell =
        saved_of s.total_crashes s.saved_crashes (plus_from caps.keep_unique_crash s.saved_crashes)

    -- The `+` is that of the hangs.
    abbrev pub tmouts_cell : Text
    tmouts_cell =
        saved_of s.total_tmouts s.saved_tmouts (plus_from caps.keep_unique_hang s.saved_hangs)

    abbrev pub is_slow : Bool
    is_slow = reals.below s.stats_avg_exec 100

    -- The speed; `slow` is the remark on a slow target.
    abbrev pub speed_cell : Text → Text
    speed_cell slow =
        if is_slow
        then fmt.float s.stats_avg_exec
          ++ (codes "/sec ("
              ++ ((if reals.below s.stats_avg_exec 20 then codes "zzzz..." else slow) ++ codes ")"))
        else fmt.float s.stats_avg_exec ++ codes "/sec"
