-- ===== src/Stats/Screen.antt =====
-- What `show_stats_normal` of `ctfuzz/afl/afl-fuzz-stats.c` does before it draws: when the session
-- stops, when the screen is due, and when which file is written. The intervals are those of
-- `config.h`, the doubles are a parameter, and `cur_ms` is `get_cur_time()`.
pub mod Laws
pub mod Pizza
use ctfuzz.Base.{
  ℕ, ◌+◌, ◌*◌, ◌/◌, ◌%◌, ◌^◌, Bool, true, false, not, ◌&&◌, ◌||◌, Option, none, some, List, [], ◌∷◌,
  ◌++◌, ◌==◌, leb, ltb, if◌then◌else◌,
}
use ctfuzz.State.{Result, ok, stop, in_bounds, ◌>>=◌}
use ctfuzz.Stats.File.{sub64}
use ctfuzz.Bitmap.Count.{count_non_255_bytes}

pub record Config : Type 0 where
  pub ui_target_hz : ℕ
  pub stats_update_sec : ℕ
  pub statsd_update_sec : ℕ
  pub plot_update_sec : ℕ
  pub queue_update_sec : ℕ

-- `execs * 1000 / ms`, the smoothing of the average (with the jump where the speed changes fivefold),
-- and `avg / (UI_TARGET_HZ * 10)` as a `u32`.
pub record Speeds (F : Type 0) : Type 0 where
  pub rate : ℕ → ℕ → F
  pub smoothed : F → F → F
  pub frequency : F → ℕ

pub record Ui (F : Type 0) : Type 0 where
  pub most_time_key : ℕ
  pub most_time : ℕ
  pub most_execs_key : ℕ
  pub most_execs : ℕ
  pub start_time : ℕ
  pub prev_run_time : ℕ
  pub total_execs : ℕ
  pub stop_soon : ℕ
  pub force_ui_update : Bool
  pub run_over10m : Bool
  pub stats_last_ms : ℕ
  pub stats_last_execs : ℕ
  pub stats_avg_exec : F
  pub stats_update_freq : ℕ
  pub stats_last_stats_ms : ℕ
  pub statsd_last_send_ms : ℕ
  pub stats_last_plot_ms : ℕ
  pub stats_last_queue_ms : ℕ
  pub non_instrumented_mode : Bool
  pub afl_statsd : Bool
  pub afl_ignore_problems : Bool
  pub afl_exit_when_done : Bool
  pub afl_exit_on_time : Bool
  pub afl_bench_until_crash : Bool
  pub cycles_wo_finds : ℕ
  pub pending_not_fuzzed : ℕ
  pub last_find_time : ℕ
  pub exit_on_time : ℕ
  pub total_crashes : ℕ
  pub real_map_size : ℕ
  pub virgin_bits : List ℕ

-- The calls it makes, in their order: `write_stats_file`, `save_auto`, `write_bitmap`,
-- `statsd_send_metric` and `maybe_update_plot_file`.
pub data Event : Type 0 where
  stats_file auto_tokens bitmap_file statsd_metric plot_line : Event

-- `FATAL` of a target with shared libraries that are not instrumented, or the events.
pub data Shown (F : Type 0) : Type 0 where
  too_early : Ui F → Shown F
  shown : Ui F → List Event → Shown F
  bad_setup outside : Shown F

abbrev pub is_past : ℕ → ℕ → ℕ → Bool
is_past now since limit = ltb limit (sub64 now since)

module _ {F : Type 0} where
  -- The two limits of the command line.
  abbrev pub time_is_up : Ui F → ℕ → Bool
  time_is_up s now =
      not (s.most_time_key == 0) && ltb (s.most_time * 1000 % 2 ^ 64) (sub64 now s.start_time)

  abbrev pub execs_are_up : Ui F → Bool
  execs_are_up s = s.most_execs_key == 1 && leb s.most_execs s.total_execs

  abbrev pub check_time : ℕ → Ui F → Ui F
  check_time now s = if time_is_up s now then record s { most_time_key = 2; stop_soon = 2 } else s

  abbrev pub check_execs : Ui F → Ui F
  check_execs s = if execs_are_up s then record s { most_execs_key = 2; stop_soon = 2 } else s

  -- `AFL_EXIT_WHEN_DONE`, `AFL_EXIT_ON_TIME` and `AFL_BENCH_UNTIL_CRASH`.
  abbrev pub is_done : Ui F → Bool
  is_done s =
      not s.non_instrumented_mode
      && ltb 100 s.cycles_wo_finds
      && s.pending_not_fuzzed == 0
      && s.afl_exit_when_done

  abbrev pub is_stale : Ui F → ℕ → Bool
  is_stale s now =
      not (s.last_find_time == 0)
      && not s.non_instrumented_mode
      && s.afl_exit_on_time
      && is_past now s.last_find_time s.exit_on_time

  abbrev pub has_crashed : Ui F → Bool
  has_crashed s = not (s.total_crashes == 0) && s.afl_bench_until_crash

  abbrev pub stop_if : Bool → Ui F → Ui F
  stop_if b s = if b then record s { stop_soon = 2 } else s

  module _ (cfg : Config) (speeds : Speeds F) where
    abbrev pub is_early : ℕ → Ui F → Bool
    is_early now s =
        ltb (sub64 now s.stats_last_ms) (1000 / cfg.ui_target_hz) && not s.force_ui_update

    -- The average speed.
    abbrev pub average : ℕ → Ui F → F
    average now s =
        if s.stats_last_execs == 0
        then if now == s.start_time
          then s.stats_avg_exec
          else speeds.rate s.total_execs (sub64 (s.prev_run_time + now) s.start_time)
        else if now == s.stats_last_ms
        then s.stats_avg_exec
        else speeds.smoothed s.stats_avg_exec
            (speeds.rate (sub64 s.total_execs s.stats_last_execs) (sub64 now s.stats_last_ms))

    abbrev pub at_least_one : ℕ → ℕ
    at_least_one n = if n == 0 then 1 else n

    abbrev pub measured : ℕ → Ui F → Ui F
    measured now s =
        let avg = average now s in
        record s {
          run_over10m = if is_past now s.start_time 600000 then true else s.run_over10m;
          stats_avg_exec = avg;
          stats_last_ms = now;
          stats_last_execs = s.total_execs;
          stats_update_freq = at_least_one (speeds.frequency avg);
        }

    abbrev pub stats_due : ℕ → Ui F → Bool
    stats_due now s =
        not s.non_instrumented_mode
        && (s.force_ui_update || is_past now s.stats_last_stats_ms (cfg.stats_update_sec * 1000))

    abbrev pub statsd_due : ℕ → Ui F → Bool
    statsd_due now s =
        s.afl_statsd
        && (s.force_ui_update || is_past now s.statsd_last_send_ms (cfg.statsd_update_sec * 1000))

    abbrev pub plot_due : ℕ → Ui F → Bool
    plot_due now s =
        s.force_ui_update || is_past now s.stats_last_plot_ms (cfg.plot_update_sec * 1000)

    abbrev pub queue_due : ℕ → Ui F → Bool
    queue_due now s =
        s.force_ui_update || is_past now s.stats_last_queue_ms (cfg.queue_update_sec * 1000)

    -- The files that are due, and their times.
    abbrev pub stamped : ℕ → Ui F → Ui F
    stamped now s = record s {
      stats_last_stats_ms = if stats_due now s then now else s.stats_last_stats_ms;
      statsd_last_send_ms = if statsd_due now s then now else s.statsd_last_send_ms;
      stats_last_plot_ms = if plot_due now s then now else s.stats_last_plot_ms;
      stats_last_queue_ms = if queue_due now s then now else s.stats_last_queue_ms;
    }

    abbrev pub events : ℕ → Ui F → List Event
    events now s =
        (if stats_due now s then stats_file ∷ auto_tokens ∷ bitmap_file ∷ [] else [])
        ++ ((if statsd_due now s then statsd_metric ∷ [] else [])
            ++ (if plot_due now s then plot_line ∷ [] else []))

    -- What follows the counting of the map, up to the drawing.
    abbrev pub counted : ℕ → Ui F → Option ℕ → Shown F
    counted now s none = outside
    counted now s (some t_bytes) =
        if ltb s.real_map_size t_bytes && not s.afl_ignore_problems
        then bad_setup
        else shown
            (stop_if (has_crashed s)
              (stop_if (is_stale s now) (stop_if (is_done s) (stamped now s))))
            (events now s)

    unfoldable pub show_stats_normal : ℕ → Ui F → Shown F
    show_stats_normal now s =
        let s1 = check_execs (check_time now s) in
        if is_early now s1
        then too_early s1
        else counted now (measured now s1) (count_non_255_bytes s1.real_map_size s1.virgin_bits)
