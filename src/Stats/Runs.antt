-- ===== src/Stats/Runs.antt =====
-- The theorems on the screens and the initial statistics at concrete states.
use ctfuzz.Base.{
  some, ◌++◌, length, replicate, ℕ, true, ◌*◌, ◌/◌, ◌≤◌, ◌≡◌, ◌≢◌, ◌+◌, ◌<◌, ◌^◌, ◌⊎◌, refl, min,
  false, [], ◌∷◌, arith,
}
use ctfuzz.Base.Text.{codes}
use ctfuzz.State.{Text, ok, stop, out_of_bounds}
use ctfuzz.Stats.Screen.{Config, Speeds, Ui, bad_setup, show_stats_normal}
use ctfuzz.Stats.Screen.Laws.{Stops, show_stats_normal-Stops, show_stats_normal-ne-bad_setup}
use ctfuzz.Stats.Screen.Pizza.{
  show_stats_pizza, never_found, also_stopping, show_stats_pizza-show_stats_normal,
}
use ctfuzz.Stats.Banner.{
  Style, Banner, normal_titles, pizza_titles, frame, banner_text, draw_banner,
}
use ctfuzz.Stats.Banner.Laws.{
  IsShortened, draw_banner-normal, shown_columns, nyx_columns, draw_banner-pizza,
}
use ctfuzz.Stats.Init.{Session, survey, nothing_noted, show_init_stats}
use ctfuzz.Stats.Init.Laws.{IsNextMultiple, estimate, show_init_stats-timeouts}

-- The intervals of `config.h`.
abbrev intervals : Config
intervals = record {
  ui_target_hz = 5;
  stats_update_sec = 60;
  statsd_update_sec = 1;
  plot_update_sec = 5;
  queue_update_sec = 1800;
}

abbrev per_second : Speeds ℕ
per_second = record {
  rate = λ execs ms. execs * 1000 / ms;
  smoothed = λ old new. new;
  frequency = λ avg. avg / 50;
}

-- A session with a limit of 100 seconds.
abbrev limited_session : Ui ℕ
limited_session = record {
  most_time_key = 1;
  most_time = 100;
  most_execs_key = 0;
  most_execs = 0;
  start_time = 1000;
  prev_run_time = 0;
  total_execs = 700;
  stop_soon = 0;
  force_ui_update = false;
  run_over10m = false;
  stats_last_ms = 1000;
  stats_last_execs = 10;
  stats_avg_exec = 5;
  stats_update_freq = 1;
  stats_last_stats_ms = 1000;
  statsd_last_send_ms = 0;
  stats_last_plot_ms = 1000;
  stats_last_queue_ms = 1000;
  non_instrumented_mode = false;
  afl_statsd = false;
  afl_ignore_problems = false;
  afl_exit_when_done = false;
  afl_exit_on_time = false;
  afl_bench_until_crash = false;
  cycles_wo_finds = 0;
  pending_not_fuzzed = 0;
  last_find_time = 0;
  exit_on_time = 0;
  total_crashes = 0;
  real_map_size = 8;
  virgin_bits = 255 ∷ 254 ∷ 255 ∷ 0 ∷ 255 ∷ 255 ∷ 255 ∷ 255 ∷ [];
}

show_stats_normal-Stops_example :
    Stops limited_session 102000 (show_stats_normal intervals per_second 102000 limited_session)
show_stats_normal-Stops_example =
    show_stats_normal-Stops intervals per_second 102000 limited_session

show_stats_normal-ne-bad_setup_example :
    show_stats_normal intervals per_second 50000 limited_session ≢ bad_setup
show_stats_normal-ne-bad_setup_example =
    show_stats_normal-ne-bad_setup intervals per_second 50000 limited_session (ground arith) refl
      (omega arith) (omega arith)

-- A session that is to end after 40 seconds without a find, and has none.
abbrev fruitless_session : Ui ℕ
fruitless_session = record limited_session {
  most_time_key = 0;
  afl_exit_on_time = true;
  exit_on_time = 40000;
}

show_stats_pizza-show_stats_normal_example :
    show_stats_pizza intervals per_second 50000 fruitless_session
    ≡ also_stopping
        (never_found 50000 fruitless_session)
        (show_stats_normal intervals per_second 50000 fruitless_session)
show_stats_pizza-show_stats_normal_example =
    show_stats_pizza-show_stats_normal intervals per_second 50000 fruitless_session

fruitless_stops : never_found 50000 fruitless_session ≡ true
fruitless_stops = refl

-- An escape is written as `_`.
abbrev terminal : Style
terminal = record {
  version = codes "++4.07c";
  cyel = codes "_[1;93m";
  cpin = codes "_[1;95m";
  clcy = codes "_[1;96m";
  clbl = codes "_[1;94m";
  clgn = codes "_[1;92m";
}

-- A target with a path of 60 bytes.
abbrev long_path : Banner
long_path = record {
  sync_id = some (codes "main");
  power_name = codes "fast";
  use_banner = replicate 60 47;
  crash_mode = false;
  nyx_mode = true;
  banner = [];
}

draw_banner-normal_example :
    (z : Text) × (pad : ℕ) × (text : Text) × (draw_banner terminal normal_titles long_path
      ≡ ok (record long_path { use_banner = z; banner = text }))
    × IsShortened (frame terminal long_path) long_path.use_banner z
    × (text ≡ replicate pad 32 ++ banner_text terminal normal_titles long_path z)
    × ((2 * pad + shown_columns terminal long_path z ≡ 78 + nyx_columns long_path)
        ⊎ (2 * pad + shown_columns terminal long_path z ≡ 79 + nyx_columns long_path))
    × (length text < 128)
draw_banner-normal_example =
    draw_banner-normal terminal long_path refl (omega arith)
      (omega arith, (omega arith, (omega arith, (omega arith, (omega arith, tt)))))

draw_banner-pizza_example : draw_banner terminal pizza_titles long_path ≡ stop out_of_bounds
draw_banner-pizza_example =
    draw_banner-pizza terminal long_path refl (omega arith) (omega arith)
      (omega arith, (omega arith, (omega arith, (omega arith, (omega arith, tt)))))

abbrev two_seeds : Session
two_seeds = record {
  seeds =
      record { disabled = false; exec_us = 900; bitmap_size = 40; len = 12 }
      ∷ record { disabled = false; exec_us = 30000; bitmap_size = 55; len = 3 }
      ∷ [];
  total_cal_us = 30900;
  total_cal_cycles = 2;
  slow_mode = false;
  fixed_seed = false;
  havoc_div = 1;
  resuming_fuzz = false;
  useless_at_start = 0;
  in_bitmap = false;
  queued_items = 2;
  timeout_given = 0;
  exec_tmout = 1000;
  hang_tmout = 1000;
  non_instrumented_mode = false;
  afl_hang_tmout = false;
}

two_seeds_fit : estimate two_seeds (survey two_seeds.seeds nothing_noted) + 20 < 2 ^ 32
unfolding survey
two_seeds_fit = ground arith

show_init_stats-timeouts_example :
    let t = (show_init_stats 1000 20 two_seeds).0 in
    ((n : ℕ) × IsNextMultiple 20 (estimate two_seeds (survey two_seeds.seeds nothing_noted)) n
      × (t.exec_tmout ≡ min 1000 n))
    × ((t.hang_tmout ≤ 1000) ⊎ (t.hang_tmout ≡ two_seeds.hang_tmout))
    × (t.timeout_given ≡ 1)
show_init_stats-timeouts_example =
    show_init_stats-timeouts 1000 20 two_seeds (omega arith) (ground arith) (ground arith)
      two_seeds_fit
