-- ===== src/Stats/File.antt =====
-- The statistics file of `ctfuzz/afl/afl-fuzz-stats.c`: what it is made from. The C library's
-- formats and `strtoull`, and the doubles, are parameters.
use ctfuzz.Base.{ℕ, ◌+◌, ◌-◌, ◌%◌, ◌^◌, Bool, List, [], ◌∷◌}
use ctfuzz.State.{Text}

-- `%llu` and `%u`, `%02x`, and `strtoull(text, &nptr, 10)`.
pub record Formats : Type 0 where
  pub decimal : ℕ → Text
  pub hex2 : ℕ → Text
  pub strtoull : Text → ℕ

-- The doubles: `!x`, `%0.02f`, a quotient of two integers, and `execs / (ms / 1000)`.
pub record Doubles (F : Type 0) : Type 0 where
  pub is_zero : F → Bool
  pub show : F → Text
  pub quotient : ℕ → ℕ → F
  pub per_second : ℕ → ℕ → F

-- What the file is written from, and what is read back into, besides the doubles.
pub record Stats : Type 0 where
  pub start_time : ℕ
  pub prev_run_time : ℕ
  pub queue_cycle : ℕ
  pub cycles_wo_finds : ℕ
  pub total_execs : ℕ
  pub total_unique_path : ℕ
  pub queued_items : ℕ
  pub queued_favored : ℕ
  pub queued_discovered : ℕ
  pub queued_imported : ℕ
  pub queued_variable : ℕ
  pub max_depth : ℕ
  pub current_entry : ℕ
  pub pending_favored : ℕ
  pub pending_not_fuzzed : ℕ
  pub saved_crashes : ℕ
  pub saved_hangs : ℕ
  pub last_find_time : ℕ
  pub last_crash_time : ℕ
  pub last_hang_time : ℕ
  pub last_crash_execs : ℕ
  pub exec_tmout : ℕ
  pub slowest_exec_ms : ℕ
  pub real_map_size : ℕ
  pub var_byte_count : ℕ
  pub expand_havoc : ℕ
  pub a_extras_cnt : ℕ
  pub q_testcase_cache_size : ℕ
  pub q_testcase_cache_count : ℕ
  pub q_testcase_evictions : ℕ
  pub use_banner : Text
  pub orig_cmdline : Text
  pub unicorn_mode : Bool
  pub qemu_mode : Bool
  pub cs_mode : Bool
  pub non_instrumented_mode : Bool
  pub no_forkserver : Bool
  pub crash_mode : Bool
  pub persistent_mode : Bool
  pub shmem_testcase_mode : Bool
  pub deferred_mode : Bool
  pub debug : Bool
  pub virgin_bits : List ℕ
  pub var_bytes : List ℕ

-- The averages that `write_stats_file` keeps.
pub record Averages (F : Type 0) : Type 0 where
  pub last_bitmap_cvg : F
  pub last_stability : F
  pub last_eps : F
  pub last_avg_exec_update : ℕ
  pub last_avg_execs : ℕ
  pub last_avg_execs_saved : F

-- What the system tells: the time, the process id, the peak memory and `VERSION`. The affinity is
-- printed with `%d`.
pub record System : Type 0 where
  pub cur_time : ℕ
  pub pid : ℕ
  pub peak_rss_mb : ℕ
  pub cpu_aff : Text
  pub version : Text

abbrev pub sub64 : ℕ → ℕ → ℕ
sub64 a b = (a % 2 ^ 64 + 2 ^ 64 - b % 2 ^ 64) % 2 ^ 64

abbrev pub newline : Text
newline = 10 ∷ []
