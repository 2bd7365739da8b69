-- ===== src/Stats/Draw/Tests.antt =====
-- The two status screens of a small session.
use ctfuzz.Base.{inl, inr, ◌≤◌, ℕ, ◌<◌, ◌≡◌, refl, false, true, some, All, arith}
use ctfuzz.Base.Text.{codes}
use ctfuzz.Stats.Screen.Pizza.{check_term_size}
use ctfuzz.Stats.Draw.Columns.{lines, columns}
use ctfuzz.Stats.Draw.Screen.{Formats, Reals, Caps, Screen}
use ctfuzz.Stats.Draw.Widths.{AreShort, AreRecent, IsShown}
use ctfuzz.Stats.Draw.Layout.{HasDefaults}
use ctfuzz.Stats.Draw.Normal
use ctfuzz.Stats.Draw.Normal.{normal_rows}
use ctfuzz.Stats.Draw.Pizza
use ctfuzz.Stats.Draw.Pizza.{pizza_rows}
use ctfuzz.Stats.Draw.Tty.{Tty, drawn, draw_screen, IsResized}
use ctfuzz.Stats.Draw.Terminals.{normal_rows-draw_screen, pizza_rows-draw_screen, lines-draw_screen}

-- Numbers as five digits, which are not looked at.
abbrev digits : Formats ℕ
digits = record {
  int = λ n. codes "12.3k";
  float = λ x. codes "12.3k";
  time_diff = λ a b. codes "0 days, 0 hrs, 0 min, 0 sec";
  decimal = λ n. codes "7";
  zero3 = λ n. codes "007";
  pad3 = λ n. codes " 42";
  fixed = λ k x. codes "9.9";
}

abbrev per_cent : Reals ℕ
per_cent = record {
  percent = λ a b. 50;
  quotient = λ a b. 1;
  nought = 0;
  less_100 = λ x. 50;
  below = λ x n. false;
  above = λ x n. false;
  utilization = λ x n. 42;
  has_room = λ x n. true;
}

abbrev caps : Caps
caps = record { keep_unique_crash = 5000; keep_unique_hang = 500 }

digits-AreShort : AreShort digits per_cent
digits-AreShort = record {
  ints = λ n. omega arith;
  floats = λ x. omega arith;
  times = λ a b h. omega arith;
  decimals = λ n h. omega arith;
  shares = λ k a b h. omega arith;
  tuples = λ a b h. omega arith;
  noughts = omega arith;
  rests = λ a b h. omega arith;
  zeros = λ n h. omega arith;
  pads = λ n h. omega arith;
  hundreds = omega arith;
}

abbrev session : Screen ℕ
session = record {
  total_crashes = 3;
  saved_crashes = 1;
  saved_hangs = 0;
  total_tmouts = 4;
  saved_tmouts = 2;
  non_instrumented_mode = false;
  last_find_time = 90000;
  last_crash_time = 80000;
  last_hang_time = 0;
  prev_run_time = 0;
  start_time = 1000;
  queue_cycle = 3;
  cycles_wo_finds = 1;
  pending_not_fuzzed = 5;
  pending_favored = 2;
  resuming_fuzz = false;
  in_bitmap = false;
  crash_mode = false;
  queued_items = 20;
  queued_favored = 6;
  queued_with_cov = 9;
  queued_discovered = 18;
  queued_imported = 0;
  queued_variable = 0;
  current_entry = 7;
  favored = true;
  fuzz_level = 1;
  bitmap_size = 40;
  real_map_size = 65536;
  cur_skipped_items = 0;
  stage_name = codes "havoc";
  stage_cur = 10;
  stage_max = 100;
  total_execs = 700;
  stats_avg_exec = 50;
  custom_only = false;
  skip_deterministic = true;
  stage_finds = λ stage. 4;
  stage_cycles = λ stage. 900;
  max_depth = 3;
  extras_cnt = 0;
  sync_id = true;
  var_byte_count = 0;
  persistent_mode = false;
  afl_python_module = false;
  afl_custom_mutator_library = false;
  cmplog_mode = false;
  disable_trim = false;
  bytes_trim_in = 500;
  bytes_trim_out = 200;
  trim_execs = 30;
  blocks_eff_total = 0;
  blocks_eff_select = 0;
  cpu_core_count = 8;
  no_cpu_meter_red = false;
  snapshot = false;
  cpu_aff = some 3;
  t_bytes = 120;
  t_bits = 300;
  runnable = 2;
}

session-IsShown : IsShown session
session-IsShown = record {
  entry = omega arith;
  skipped = omega arith;
  favored = omega arith;
  covering = omega arith;
  entry_bytes = omega arith;
  bytes = omega arith;
  bits = omega arith;
  stage = omega arith;
  varying = omega arith;
  level = omega arith;
  trimmed = omega arith;
  trim_word = omega arith;
  name = omega arith;
}

session-AreRecent : AreRecent 100000 session
session-AreRecent = record {
  start = inr (omega arith, omega arith);
  find = inr (omega arith, omega arith);
  crash = inr (omega arith, omega arith);
  hang = inl refl;
}

session-HasDefaults : HasDefaults session
session-HasDefaults = record { skips_stages = refl; python = refl; custom = refl; cmplog = refl }

-- The first screen of a session.
abbrev first : Tty
first = record { not_on_tty = false; queue_cur = true; clear_screen = true; term_too_small = false }

first-IsResized : IsResized first
first-IsResized = record { on_tty = refl; queue_cur = refl; clear_screen = refl }

term_25_80 :
    (draw_screen (some (25, 80)) (normal_rows digits per_cent caps 100000 session) first).1
    ≡ drawn (normal_rows digits per_cent caps 100000 session)
unfolding draw_screen check_term_size
term_25_80 = refl

normal_rows-draw_screen_example :
    All (λ r. columns r ≡ 78) (Normal.table digits per_cent caps 100000 session)
    × All (λ r. columns r < 80) (normal_rows digits per_cent caps 100000 session)
normal_rows-draw_screen_example =
    normal_rows-draw_screen digits per_cent caps 100000 session 25 80 first digits-AreShort
      session-IsShown session-AreRecent session-HasDefaults first-IsResized (omega arith)
      (omega arith) term_25_80

pizza_rows-draw_screen_example :
    ((draw_screen (some (25, 80)) (pizza_rows digits per_cent caps 100000 session) first).1
      ≡ drawn (pizza_rows digits per_cent caps 100000 session))
    × All (λ r. 80 < columns r) (Pizza.table digits per_cent caps 100000 session)
    × (46 ≤ lines 80 (pizza_rows digits per_cent caps 100000 session))
pizza_rows-draw_screen_example =
    pizza_rows-draw_screen digits per_cent caps 100000 session 25 80 first first-IsResized
      (omega arith) (omega arith) (omega arith)

lines-draw_screen_example :
    ((draw_screen (some (24, 79)) (normal_rows digits per_cent caps 100000 session) first).1
      ≡ drawn (normal_rows digits per_cent caps 100000 session))
    × (lines 79 (normal_rows digits per_cent caps 100000 session) ≡ 25)
lines-draw_screen_example =
    lines-draw_screen digits per_cent caps 100000 session 79 first digits-AreShort session-IsShown
      session-AreRecent session-HasDefaults first-IsResized (omega arith)

-- In crash mode a row of the other screen is six columns shorter than the rest.
crash_mode_row :
    columns
      (Pizza.Middle.execs_row digits per_cent caps 100000 (record session { crash_mode = true }))
    ≡ 128
crash_mode_row = refl
