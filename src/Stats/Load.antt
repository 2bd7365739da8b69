-- ===== src/Stats/Load.antt =====
-- `load_stats_file` of `ctfuzz/afl/afl-fuzz-stats.c`, over the lines of the file. A line is shorter
-- than `MAX_LINE`.
use ctfuzz.Base.{
  ℕ, ◌+◌, ◌*◌, ◌%◌, ◌^◌, Bool, not, Option, none, some, List, [], ◌∷◌, ◌++◌, ◌==◌, if◌then◌else◌,
}
use ctfuzz.Base.Text.{codes, str_eq}
use ctfuzz.State.{Text}
use ctfuzz.Stats.File.{Formats, Stats}

module _ (fmt : Formats) where
  -- The text before the first `:`, which the scan stops at, and the text behind it; `none` where the
  -- scan reaches the last byte of the line.
  abbrev pub split_key : Text → Text → Option (Text × Text)
  split_key before [] = none
  split_key before (c ∷ []) = if c == 58 then some (before, []) else none
  split_key before (c ∷ d ∷ rest) =
      if c == 58 then some (before, d ∷ rest) else split_key (before ++ c ∷ []) (d ∷ rest)

  -- The `switch (lineno)`.
  unfoldable pub load_entry : ℕ → Text → Text → Stats → Stats
  load_entry lineno key value s =
      let n = fmt.strtoull value in
      if lineno == 3
      then if str_eq key (codes "run_time          ")
        then record s { prev_run_time = 1000 * n % 2 ^ 64 }
        else s
      else if lineno == 5
      then if str_eq key (codes "cycles_done       ")
        then record s { queue_cycle = if n == 0 then 0 else (n + 1) % 2 ^ 64 }
        else s
      else if lineno == 7
      then if str_eq key (codes "execs_done        ") then record s { total_execs = n } else s
      else if lineno == 12
      then if str_eq key (codes "corpus_found      ")
        then record s { queued_discovered = n % 2 ^ 32 }
        else s
      else if lineno == 13
      then if str_eq key (codes "corpus_imported   ")
        then record s { queued_imported = n % 2 ^ 32 }
        else s
      else if lineno == 14
      then if str_eq key (codes "max_depth         ")
        then record s { max_depth = n % 2 ^ 32 }
        else s
      else if lineno == 21
      then if str_eq key (codes "saved_crashes    ") then record s { saved_crashes = n } else s
      else if lineno == 22
      then if str_eq key (codes "saved_hangs      ") then record s { saved_hangs = n } else s
      else s

  unfoldable pub load_line : ℕ → Text → Stats → Stats
  unfolding load_entry
  load_line lineno line s = elim (split_key [] line) [
    | none ↦ s
    | some (key, value) ↦ load_entry lineno key value s
  ]

  -- The loop over the lines behind line `lineno`.
  unfoldable pub load_lines : ℕ → List Text → Stats → Stats
  load_lines lineno [] s = s
  load_lines lineno (line ∷ lines) s = load_lines (lineno + 1) lines (load_line (lineno + 1) line s)

  -- The state that is loaded, and whether `write_crash_readme` is called. The missing file, which
  -- changes nothing, is the empty list.
  unfoldable pub load_stats_file : List Text → Stats → Stats × Bool
  unfolding load_lines load_line
  load_stats_file lines s = let s' = load_lines 0 lines s in (s', not (s'.saved_crashes == 0))
