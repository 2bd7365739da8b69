-- ===== src/Stats/Draw/Screen.antt =====
-- What the two status screens of `ctfuzz/afl/afl-fuzz-stats.c` show of the session.
use ctfuzz.Base.{ℕ, Bool, Option}
use ctfuzz.State.{Text}

-- The stages of `ctfuzz/afl/afl-fuzz.h`.
pub data StageName : Type 0 where
  stage_flip1 stage_flip2 stage_flip4 stage_flip8 stage_flip16 stage_flip32 : StageName
  stage_arith8 stage_arith16 stage_arith32 : StageName
  stage_interest8 stage_interest16 stage_interest32 : StageName
  stage_extras_uo stage_extras_ui stage_extras_ao stage_extras_ai : StageName
  stage_havoc stage_splice stage_python stage_custom_mutator stage_colorization stage_its :
      StageName

-- `u_stringify_int`, `u_stringify_float`, `u_stringify_time_diff`, `%u`, `%03u`, `%3u` and `%0.0nf%%`.
pub record Formats (F : Type 0) : Type 0 where
  pub int : ℕ → Text
  pub float : F → Text
  pub time_diff : ℕ → ℕ → Text
  pub decimal : ℕ → Text
  pub zero3 : ℕ → Text
  pub pad3 : ℕ → Text
  pub fixed : ℕ → F → Text

-- The doubles: `(double)a * 100 / b`, `(double)a / b`, 0, `100 - x`, and the comparisons with numbers;
-- `x * 100 / n` as a `u32`, and `x + 1 <= n`.
pub record Reals (F : Type 0) : Type 0 where
  pub percent : ℕ → ℕ → F
  pub quotient : ℕ → ℕ → F
  pub nought : F
  pub less_100 : F → F
  pub below : F → ℕ → Bool
  pub above : F → ℕ → Bool
  pub utilization : F → ℕ → ℕ
  pub has_room : F → ℕ → Bool

-- `KEEP_UNIQUE_CRASH` and `KEEP_UNIQUE_HANG`.
pub record Caps : Type 0 where
  pub keep_unique_crash : ℕ
  pub keep_unique_hang : ℕ

-- Pointers are whether they are set. `cpu_aff` is `none` where it is negative.
pub record Screen (F : Type 0) : Type 0 where
  pub total_crashes : ℕ
  pub saved_crashes : ℕ
  pub saved_hangs : ℕ
  pub total_tmouts : ℕ
  pub saved_tmouts : ℕ
  pub non_instrumented_mode : Bool
  pub last_find_time : ℕ
  pub last_crash_time : ℕ
  pub last_hang_time : ℕ
  pub prev_run_time : ℕ
  pub start_time : ℕ
  pub queue_cycle : ℕ
  pub cycles_wo_finds : ℕ
  pub pending_not_fuzzed : ℕ
  pub pending_favored : ℕ
  pub resuming_fuzz : Bool
  pub in_bitmap : Bool
  pub crash_mode : Bool
  pub queued_items : ℕ
  pub queued_favored : ℕ
  pub queued_with_cov : ℕ
  pub queued_discovered : ℕ
  pub queued_imported : ℕ
  pub queued_variable : ℕ
  pub current_entry : ℕ
  pub favored : Bool
  pub fuzz_level : ℕ
  pub bitmap_size : ℕ
  pub real_map_size : ℕ
  pub cur_skipped_items : ℕ
  pub stage_name : Text
  pub stage_cur : ℕ
  pub stage_max : ℕ
  pub total_execs : ℕ
  pub stats_avg_exec : F
  pub custom_only : Bool
  pub skip_deterministic : Bool
  pub stage_finds : StageName → ℕ
  pub stage_cycles : StageName → ℕ
  pub max_depth : ℕ
  pub extras_cnt : ℕ
  pub sync_id : Bool
  pub var_byte_count : ℕ
  pub persistent_mode : Bool
  pub afl_python_module : Bool
  pub afl_custom_mutator_library : Bool
  pub cmplog_mode : Bool
  pub disable_trim : Bool
  pub bytes_trim_in : ℕ
  pub bytes_trim_out : ℕ
  pub trim_execs : ℕ
  pub blocks_eff_total : ℕ
  pub blocks_eff_select : ℕ
  pub cpu_core_count : ℕ
  pub no_cpu_meter_red : Bool
  pub snapshot : Bool
  pub cpu_aff : Option ℕ
  pub t_bytes : ℕ
  pub t_bits : ℕ
  pub runnable : F
