-- ===== src/Stats/Resume.antt =====
-- What a resumed session gets back of the statistics that the session before it wrote.
use ctfuzz.Base.{
  ℕ, ◌+◌, ◌-◌, ◌*◌, ◌/◌, ◌%◌, ◌^◌, ◌<◌, ◌≡◌, refl, List, [], ◌∷◌, ◌++◌, not, ◌==◌, leb, ◌≤◌,
  if◌then◌else◌, arith,
}
use ctfuzz.State.{Text}
use ctfuzz.Stats.File.{Formats, Doubles, Stats, Averages, System, newline, sub64}
use ctfuzz.Stats.Write.{write_stats_file}
use ctfuzz.Stats.Load.{load_line, load_lines, load_stats_file}

-- `strtoull` reads back what `%llu` prints, behind a space and before the newline.
pub record ReadsBack (fmt : Formats) : Type 0 where
  pub reads : (n : ℕ) → n < 2 ^ 64 → fmt.strtoull (32 ∷ (fmt.decimal n ++ newline)) ≡ n

-- Lines behind the 22nd change nothing, whatever they hold.
load_line-late :
    (fmt : Formats) (lineno : ℕ) (line : Text) (t : Stats)
    → 22 < lineno
    → load_line fmt lineno line t ≡ t
unfolding load_line
load_line-late fmt lineno line t late = ground arith

load_lines-late :
    (fmt : Formats) (lines : List Text) (lineno : ℕ) (t : Stats)
    → 22 ≤ lineno
    → load_lines fmt lineno lines t ≡ t
unfolding load_lines
load_lines-late fmt [] lineno t late = refl
load_lines-late fmt (line ∷ lines) lineno t late =
    rw (load_line-late fmt (lineno + 1) line t (omega arith))
      (load_lines-late fmt lines (lineno + 1) t (omega arith))

-- What is left of a cycle count that is written one less and read one more.
abbrev pub cycle_back : ℕ → ℕ
cycle_back cycle = if leb cycle 1 then 0 else cycle

-- The milliseconds since the start of the first session, in whole seconds.
abbrev pub run_time_back : Stats → System → ℕ
run_time_back s sys = 1000 * (sub64 (s.prev_run_time + sys.cur_time) s.start_time / 1000) % 2 ^ 64

module _ (fmt : Formats) (back : ReadsBack fmt) {F : Type 0} (dbl : Doubles F) where
  cycles :
      (n : ℕ)
      → n < 2 ^ 64
      → (if (if n == 0 then 0 else n - 1) == 0
          then 0
          else ((if n == 0 then 0 else n - 1) + 1) % 2 ^ 64)
        ≡ cycle_back n
  cycles n h = ground arith

  -- Where `strtoull` reads back what `%llu` prints, a session that is resumed from a file of
  -- `write_stats_file` gets back the run time in whole seconds, the count of executions, and the
  -- cycle from the second on. It gets back nothing else, and writes no crash readme for crashes
  -- that were saved: `load_stats_file` counts on the corpus lines one line above, and on another
  -- width of the two keys of saved crashes and hangs.
  pub load_stats_file-write_stats_file :
      (s t : Stats) (sys : System) (t_bytes : ℕ) (bitmap_cvg stability eps : F) (a : Averages F)
      → s.queue_cycle < 2 ^ 64
      → s.total_execs < 2 ^ 64
      → load_stats_file fmt (write_stats_file fmt dbl s sys t_bytes bitmap_cvg stability eps a).0 t
        ≡ (
          record t {
            prev_run_time = run_time_back s sys;
            queue_cycle = cycle_back s.queue_cycle;
            total_execs = s.total_execs;
          },
          not (t.saved_crashes == 0),
        )
  unfolding load_stats_file write_stats_file
  load_stats_file-write_stats_file s t sys t_bytes bitmap_cvg stability eps a hc he = rw (
    load_lines-late fmt _ 43 _ (omega arith),
    back.reads (sub64 (s.prev_run_time + sys.cur_time) s.start_time / 1000) (omega arith),
    back.reads (if s.queue_cycle == 0 then 0 else s.queue_cycle - 1) (ground arith),
    back.reads s.total_execs he,
    cycles s.queue_cycle hc,
  )
