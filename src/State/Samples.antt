-- ===== src/State/Samples.antt =====
-- States for the tests.
use ctfuzz.Base.{ℕ, false, none, List, [], ◌∷◌, replicate}
use ctfuzz.Base.Int.{pos, negsuc}
use ctfuzz.State.{Afl, Stage}

abbrev pub idle_stage : Stage
idle_stage = record {
  syncing_party = none;
  syncing_case = 0;
  current_entry = 4;
  splicing_with = negsuc 0;
  prev_run_time = 0;
  start_time = 1000;
  stage_short = b'h' ∷ b'v' ∷ [];
  stage_cur_byte = negsuc 0;
  stage_val_type = 0;
  stage_cur_val = pos 2;
}

-- Just started, with the maps of `size` bytes untouched, after a run that left `trace`.
abbrev pub fresh_state : ℕ → List ℕ → Afl
fresh_state size trace = record {
  fsrv = record {
    map_size = size;
    real_map_size = size;
    trace_bits = trace;
    total_execs = 10;
    exec_tmout = 1000;
    last_kill_signal = 0;
  };
  virgin_bits = replicate size 255;
  virgin_tmout = replicate size 255;
  virgin_crash = replicate size 255;
  bitmap_changed = false;
  unique_path = [];
  total_unique_path = 0;
  schedule = 3;
  n_fuzz = λ i. 0;
  crash_mode = 0;
  total_crashes = 0;
  saved_crashes = 0;
  total_tmouts = 0;
  saved_tmouts = 0;
  saved_hangs = 0;
  queue = [];
  queued_items = 0;
  queued_with_cov = 0;
  queue_cycle = 1;
  q_testcase_max_cache_size = 0;
  non_instrumented_mode = false;
  hang_tmout = 1000;
  stop_soon = 0;
  afl_keep_timeouts = false;
  afl_no_crash_readme = 0;
  infoexec = false;
  last_hang_time = 0;
  last_crash_time = 0;
  last_crash_execs = 0;
  out_dir = b'o' ∷ [];
  stage = idle_stage;
  files = [];
}
