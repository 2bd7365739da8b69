-- ===== src/States/Init.antt =====
-- `afl_state_init` of `ctfuzz/afl/afl-fuzz-state.c`: the fields of the modelled state. `n_fuzz` is the
-- array that the fuzzer allocates for it later, all 0.
use ctfuzz.Base.{ℕ, ◌*◌, ◌%◌, ◌^◌, false, none, [], replicate}
use ctfuzz.Base.Int.{pos, negsuc}
use ctfuzz.State.{Afl}

-- `EXEC_TIMEOUT` and `TESTCASE_CACHE_SIZE` of `config.h`.
pub record Limits : Type 0 where
  pub exec_timeout : ℕ
  pub testcase_cache_size : ℕ

-- `memset`, and then the fields that are not 0; `ck_alloc` gives memory that is 0.
unfoldable pub afl_state_init : Limits → ℕ → Afl
afl_state_init limits map_size = record {
  fsrv = record {
    map_size = map_size;
    real_map_size = 0;
    trace_bits = [];
    total_execs = 0;
    exec_tmout = limits.exec_timeout;
    last_kill_signal = 0;
  };
  virgin_bits = replicate map_size 0;
  virgin_tmout = replicate map_size 0;
  virgin_crash = replicate map_size 0;
  bitmap_changed = false;
  unique_path = [];
  total_unique_path = 0;
  schedule = 3;
  n_fuzz = λ i. 0;
  crash_mode = 0;
  total_crashes = 0;
  saved_crashes = 0;
  total_tmouts = 0;
  saved_tmouts = 0;
  saved_hangs = 0;
  queue = [];
  queued_items = 0;
  queued_with_cov = 0;
  queue_cycle = 0;
  q_testcase_max_cache_size = limits.testcase_cache_size * 1048576 % 2 ^ 64;
  non_instrumented_mode = false;
  hang_tmout = limits.exec_timeout;
  stop_soon = 0;
  afl_keep_timeouts = false;
  afl_no_crash_readme = 0;
  infoexec = false;
  last_hang_time = 0;
  last_crash_time = 0;
  last_crash_execs = 0;
  out_dir = [];
  stage = record {
    syncing_party = none;
    syncing_case = 0;
    current_entry = 0;
    splicing_with = negsuc 0;
    prev_run_time = 0;
    start_time = 0;
    stage_short = [];
    stage_cur_byte = pos 0;
    stage_val_type = 0;
    stage_cur_val = pos 0;
  };
  files = [];
}
