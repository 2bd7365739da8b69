-- ===== src/Stats/Tests.antt =====
-- The theorems on the statistics at concrete states.
use ctfuzz.Base.{ℕ, ◌*◌, ◌/◌, ◌≡◌, refl, false, some, [], ◌∷◌, ◌==◌, arith}
use ctfuzz.Base.Text.{codes}
use ctfuzz.State.{Text}
use ctfuzz.Stats.File.{Formats, Doubles, Stats, Averages, System}
use ctfuzz.Stats.Write.{write_stats_file}
use ctfuzz.Stats.Load.{load_stats_file}
use ctfuzz.Stats.Resume.{ReadsBack, cycle_back, run_time_back, load_stats_file-write_stats_file}
use ctfuzz.Stats.Plot.{Counters, PlotState, PlotLine, maybe_update_plot_file}
use ctfuzz.Stats.Plot.Session.{Changes, plot_lines, plot_lines-Changes}
use ctfuzz.Stats.Setup.{command_line}
use ctfuzz.Stats.Setup.Shell.{shell, between, shell-command_line}

-- Numbers printed in one digit to the base 2^64.
abbrev head_digit : Text → ℕ
head_digit [] = 0
head_digit (c ∷ []) = 0
head_digit (c ∷ d ∷ cs) = d

abbrev one_digit : Formats
one_digit = record { decimal = λ n. n ∷ []; hex2 = λ n. n ∷ []; strtoull = head_digit }

one_digit-ReadsBack : ReadsBack one_digit
one_digit-ReadsBack = record { reads = λ n h. refl }

abbrev whole_numbers : Doubles ℕ
whole_numbers = record {
  is_zero = λ x. x == 0;
  show = λ x. x ∷ [];
  quotient = λ a b. a / b;
  per_second = λ a b. a * 1000 / b;
}

abbrev session : Stats
session = record {
  start_time = 5000;
  prev_run_time = 1500;
  queue_cycle = 3;
  cycles_wo_finds = 0;
  total_execs = 77;
  total_unique_path = 12;
  queued_items = 6;
  queued_favored = 2;
  queued_discovered = 4;
  queued_imported = 1;
  queued_variable = 0;
  max_depth = 3;
  current_entry = 2;
  pending_favored = 0;
  pending_not_fuzzed = 1;
  saved_crashes = 2;
  saved_hangs = 1;
  last_find_time = 6000;
  last_crash_time = 7000;
  last_hang_time = 7500;
  last_crash_execs = 50;
  exec_tmout = 20;
  slowest_exec_ms = 9;
  real_map_size = 8;
  var_byte_count = 0;
  expand_havoc = 0;
  a_extras_cnt = 0;
  q_testcase_cache_size = 0;
  q_testcase_cache_count = 0;
  q_testcase_evictions = 0;
  use_banner = codes "size";
  orig_cmdline = codes "afl-fuzz -i in -o out -- size @@";
  unicorn_mode = false;
  qemu_mode = false;
  cs_mode = false;
  non_instrumented_mode = false;
  no_forkserver = false;
  crash_mode = false;
  persistent_mode = false;
  shmem_testcase_mode = false;
  deferred_mode = false;
  debug = false;
  virgin_bits = [];
  var_bytes = [];
}

abbrev new_session : Stats
new_session = record session {
  prev_run_time = 0;
  queue_cycle = 0;
  total_execs = 0;
  queued_discovered = 0;
  queued_imported = 0;
  max_depth = 0;
  saved_crashes = 0;
  saved_hangs = 0;
}

abbrev machine : System
machine = record {
  cur_time = 9000;
  pid = 1;
  peak_rss_mb = 3;
  cpu_aff = codes "-1";
  version = codes "++4.05c";
}

abbrev no_averages : Averages ℕ
no_averages = record {
  last_bitmap_cvg = 0;
  last_stability = 0;
  last_eps = 0;
  last_avg_exec_update = 0;
  last_avg_execs = 0;
  last_avg_execs_saved = 0;
}

load_stats_file-write_stats_file_example :
    load_stats_file one_digit
      (write_stats_file one_digit whole_numbers session machine 5 6 7 8 no_averages).0
      new_session
    ≡ (
      record new_session {
        prev_run_time = run_time_back session machine;
        queue_cycle = cycle_back 3;
        total_execs = 77;
      },
      false,
    )
load_stats_file-write_stats_file_example =
    load_stats_file-write_stats_file one_digit one_digit-ReadsBack whole_numbers session new_session
      machine 5 6 7 8 no_averages (omega arith) (omega arith)

-- The four found items and the two saved crashes are lost.
finds_are_lost :
    (load_stats_file one_digit
      (write_stats_file one_digit whole_numbers session machine 5 6 7 8 no_averages).0
      new_session).0.queued_discovered
    ≡ 0
finds_are_lost = rw load_stats_file-write_stats_file_example

abbrev counters : Counters
counters = record {
  queued_items = 6;
  pending_favored = 0;
  pending_not_fuzzed = 1;
  current_entry = 2;
  queue_cycle = 3;
  saved_crashes = 2;
  saved_hangs = 1;
  max_depth = 3;
  total_execs = 77;
}

abbrev plotting : PlotState
plotting = record {
  force_ui_update = 0;
  stop_soon = 0;
  start_time = 0;
  prev_run_time = 0;
  counters = counters;
  plot_prev = record counters { total_execs = 70 };
}

abbrev plotted : PlotState
plotted = record plotting { plot_prev = counters }

abbrev line : PlotLine
line = record { relative_time = 70; cycles_done = 2; counters = counters; t_bytes = 9 }

plots : maybe_update_plot_file plotting 70000 9 ≡ (plotted, some line)
unfolding maybe_update_plot_file
plots = refl

plot_lines-Changes_example : Changes plotting.plot_prev (
    plot_lines plotting (
      record { counters = plotting.counters; now = 70000; t_bytes = 9 }
      ∷ record { counters = plotting.counters; now = 80000; t_bytes = 10 }
      ∷ []))
plot_lines-Changes_example =
    plot_lines-Changes plotting
      (record { counters = plotting.counters; now = 70000; t_bytes = 9 }
        ∷ record { counters = plotting.counters; now = 80000; t_bytes = 10 }
        ∷ [])
      refl

shell-command_line_example :
    shell between [] (command_line (codes "afl" ∷ codes "it's a \"test\"" ∷ []))
    ≡ codes "afl" ∷ codes "it's a \"test\"" ∷ []
shell-command_line_example = shell-command_line (codes "afl" ∷ codes "it's a \"test\"" ∷ [])
