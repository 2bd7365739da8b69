-- ===== src/Environ.antt =====
-- `read_afl_environment` of `ctfuzz/afl/afl-fuzz-state.c`: the fields that it sets, and which variable
-- sets which. The tables of names are those of `envs.h`; `get_afl_env` and `atoi` are parameters.
pub mod Read
pub mod Laws
pub mod Warnings
mod Tests
use ctfuzz.Base.{
  ℕ, ◌+◌, ◌-◌, ◌*◌, ◌/◌, ◌%◌, ◌^◌, Bool, true, false, Option, none, some, List, [], ◌∷◌, ◌++◌, ◌==◌,
  if◌then◌else◌,
}
use ctfuzz.Base.Int.{ℤ, pos, negsuc}
use ctfuzz.Base.Text.{codes}
use ctfuzz.State.{Text, Result, ok, stop, out_of_bounds}

-- The fields of `afl_env_vars_t` of type `u8`.
pub data Flag : Type 0 where
  afl_skip_cpufreq afl_exit_when_done afl_no_affinity afl_skip_bin_check afl_dumb_forksrv : Flag
  afl_import_first afl_custom_mutator_only afl_no_ui afl_force_ui : Flag
  afl_i_dont_care_about_missing_crashes afl_bench_just_one afl_bench_until_crash : Flag
  afl_debug_child afl_autoresume afl_cal_fast afl_cycle_schedules afl_expand_havoc afl_statsd : Flag
  afl_cmplog_only_new afl_exit_on_seed_issues afl_try_affinity afl_ignore_problems : Flag
  afl_keep_timeouts afl_pizza_mode afl_no_crash_readme afl_no_startup_calibration : Flag

-- Its fields of type `u8 *`.
pub data Pointer : Type 0 where
  afl_tmpdir afl_custom_mutator_library afl_python_module afl_path afl_hang_tmout : Pointer
  afl_forksrv_init_tmout afl_preload afl_max_det_extras afl_statsd_host afl_statsd_port : Pointer
  afl_crash_exitcode afl_statsd_tags_flavor afl_testcache_size afl_testcache_entries : Pointer
  afl_child_kill_signal afl_fsrv_kill_signal afl_target_env afl_persistent_record : Pointer
  afl_exit_on_time : Pointer

abbrev pub flag_index : Flag → ℕ
flag_index afl_skip_cpufreq = 0
flag_index afl_exit_when_done = 1
flag_index afl_no_affinity = 2
flag_index afl_skip_bin_check = 3
flag_index afl_dumb_forksrv = 4
flag_index afl_import_first = 5
flag_index afl_custom_mutator_only = 6
flag_index afl_no_ui = 7
flag_index afl_force_ui = 8
flag_index afl_i_dont_care_about_missing_crashes = 9
flag_index afl_bench_just_one = 10
flag_index afl_bench_until_crash = 11
flag_index afl_debug_child = 12
flag_index afl_autoresume = 13
flag_index afl_cal_fast = 14
flag_index afl_cycle_schedules = 15
flag_index afl_expand_havoc = 16
flag_index afl_statsd = 17
flag_index afl_cmplog_only_new = 18
flag_index afl_exit_on_seed_issues = 19
flag_index afl_try_affinity = 20
flag_index afl_ignore_problems = 21
flag_index afl_keep_timeouts = 22
flag_index afl_pizza_mode = 23
flag_index afl_no_crash_readme = 24
flag_index afl_no_startup_calibration = 25

abbrev pub pointer_index : Pointer → ℕ
pointer_index afl_tmpdir = 0
pointer_index afl_custom_mutator_library = 1
pointer_index afl_python_module = 2
pointer_index afl_path = 3
pointer_index afl_hang_tmout = 4
pointer_index afl_forksrv_init_tmout = 5
pointer_index afl_preload = 6
pointer_index afl_max_det_extras = 7
pointer_index afl_statsd_host = 8
pointer_index afl_statsd_port = 9
pointer_index afl_crash_exitcode = 10
pointer_index afl_statsd_tags_flavor = 11
pointer_index afl_testcache_size = 12
pointer_index afl_testcache_entries = 13
pointer_index afl_child_kill_signal = 14
pointer_index afl_fsrv_kill_signal = 15
pointer_index afl_target_env = 16
pointer_index afl_persistent_record = 17
pointer_index afl_exit_on_time = 18

-- What the variables set: `afl_env` by its fields, and the fields of `afl_state_t`. `sync_time` is in
-- milliseconds. `sync_warnings` are the default values, in minutes, that the warnings about
-- `AFL_SYNC_TIME` print, the newest first.
pub record Settings : Type 0 where
  pub flags : Flag → ℕ
  pub pointers : Pointer → Option Text
  pub cycle_schedules : ℕ
  pub expand_havoc : ℕ
  pub min_length : ℕ
  pub max_length : ℕ
  pub sync_time : ℕ
  pub pizza_is_served : Bool
  pub issue_detected : Bool
  pub sync_warnings : List ℕ

-- What a branch of the chain does.
pub data Setting : Type 0 where
  flag number : Flag → Setting
  text : Pointer → Setting
  cycles havoc min max sync nothing : Setting

abbrev pub set_flag : Flag → ℕ → Settings → Settings
set_flag f n s = record s { flags = λ g. if flag_index f == flag_index g then n else s.flags g }

abbrev pub set_pointer : Pointer → Option Text → Settings → Settings
set_pointer p v s = record s {
  pointers = λ q. if pointer_index p == pointer_index q then v else s.pointers q;
}

-- `get_afl_env(...) ? 1 : 0`
abbrev pub is_set : Option Text → ℕ
is_set none = 0
is_set (some v) = 1

-- An `int` stored in an unsigned integer of `w` bits.
abbrev pub wrapped : ℕ → ℤ → ℕ
wrapped w (pos n) = n % 2 ^ w
wrapped w (negsuc n) = 2 ^ w - 1 - n % 2 ^ w

-- `WARNF("incorrect value for AFL_SYNC_TIME ...")`
abbrev pub warn_sync : Settings → Settings
warn_sync s = record s { sync_warnings = s.sync_time / 60 / 1000 ∷ s.sync_warnings }

abbrev pub sync_minutes : ℤ → Settings → Settings
sync_minutes (pos n) s = if n == 0 then warn_sync s else record s { sync_time = n * 60000 }
sync_minutes (negsuc n) s = warn_sync s

-- The branch, with the value of the variable. `atoi` of `NULL` is an access out of bounds.
unfoldable pub apply : (Text → ℤ) → Setting → Option Text → Settings → Result Settings
apply atoi (flag f) v s = ok (set_flag f (is_set v) s)
apply atoi (number f) none s = stop out_of_bounds
apply atoi (number f) (some v) s = ok (set_flag f (wrapped 8 (atoi v)) s)
apply atoi (text p) v s = ok (set_pointer p v s)
apply atoi cycles v s =
    ok (record (set_flag afl_cycle_schedules (is_set v) s) { cycle_schedules = is_set v })
apply atoi havoc v s =
    ok (record (set_flag afl_expand_havoc (is_set v) s) { expand_havoc = is_set v })
apply atoi min none s = stop out_of_bounds
apply atoi min (some v) s = ok (record s { min_length = wrapped 32 (atoi v) })
apply atoi max none s = stop out_of_bounds
apply atoi max (some v) s = ok (record s { max_length = wrapped 32 (atoi v) })
apply atoi sync none s = stop out_of_bounds
apply atoi sync (some v) s = ok (sync_minutes (atoi v) s)
apply atoi nothing v s = ok s

-- The chain of `else if`, in its order: a literal that the variable is compared with, and its branch.
abbrev pub Rule : Type 0
Rule = Text × Setting

abbrev pub first_rules : List Rule
first_rules =
    (codes "AFL_SKIP_CPUFREQ", flag afl_skip_cpufreq)
    ∷ (codes "AFL_EXIT_WHEN_DONE", flag afl_exit_when_done)
    ∷ (codes "AFL_EXIT_ON_TIME", text afl_exit_on_time)
    ∷ (codes "AFL_NO_AFFINITY", flag afl_no_affinity)
    ∷ (codes "AFL_TRY_AFFINITY", flag afl_try_affinity)
    ∷ (codes "AFL_SKIP_CRASHES", nothing)
    ∷ (codes "AFL_HANG_TMOUT", text afl_hang_tmout)
    ∷ (codes "AFL_KEEP_TIMEOUTS", flag afl_keep_timeouts)
    ∷ (codes "AFL_SKIP_BIN_CHECK", flag afl_skip_bin_check)
    ∷ (codes "AFL_DUMB_FORKSRV", flag afl_dumb_forksrv)
    ∷ (codes "AFL_IMPORT_FIRST", flag afl_import_first)
    ∷ (codes "AFL_CUSTOM_MUTATOR_ONLY", flag afl_custom_mutator_only)
    ∷ (codes "AFL_CMPLOG_ONLY_NEW", flag afl_cmplog_only_new)
    ∷ (codes "AFL_NO_STARTUP_CALIBRATION", flag afl_no_startup_calibration)
    ∷ (codes "AFL_NO_UI", flag afl_no_ui)
    ∷ (codes "AFL_FORCE_UI", flag afl_force_ui)
    ∷ (codes "AFL_IGNORE_PROBLEMS", flag afl_ignore_problems)
    ∷ (codes "AFL_I_DONT_CARE_ABOUT_MISSING_CRASHES", flag afl_i_dont_care_about_missing_crashes)
    ∷ []

abbrev pub second_rules : List Rule
second_rules =
    (codes "AFL_BENCH_JUST_ONE", flag afl_bench_just_one)
    ∷ (codes "AFL_BENCH_UNTIL_CRASH", flag afl_bench_until_crash)
    ∷ (codes "AFL_DEBUG_CHILD", flag afl_debug_child)
    ∷ (codes "AFL_DEBUG_CHILD_OUTPUT", flag afl_debug_child)
    ∷ (codes "AFL_AUTORESUME", flag afl_autoresume)
    ∷ (codes "AFL_PERSISTENT_RECORD", text afl_persistent_record)
    ∷ (codes "AFL_CYCLE_SCHEDULES", cycles)
    ∷ (codes "AFL_EXIT_ON_SEED_ISSUES", flag afl_exit_on_seed_issues)
    ∷ (codes "AFL_EXPAND_HAVOC_NOW", havoc)
    ∷ (codes "AFL_CAL_FAST", flag afl_cal_fast)
    ∷ (codes "AFL_FAST_CAL", flag afl_cal_fast)
    ∷ (codes "AFL_STATSD", flag afl_statsd)
    ∷ (codes "AFL_TMPDIR", text afl_tmpdir)
    ∷ (codes "AFL_CUSTOM_MUTATOR_LIBRARY", text afl_custom_mutator_library)
    ∷ (codes "AFL_PYTHON_MODULE", text afl_python_module)
    ∷ (codes "AFL_PATH", text afl_path)
    ∷ (codes "AFL_PRELOAD", text afl_preload)
    ∷ (codes "AFL_MAX_DET_EXTRAS", text afl_max_det_extras)
    ∷ (codes "AFL_FORKSRV_INIT_TMOUT", text afl_forksrv_init_tmout)
    ∷ []

abbrev pub last_rules : List Rule
last_rules =
    (codes "AFL_TESTCACHE_SIZE", text afl_testcache_size)
    ∷ (codes "AFL_TESTCACHE_ENTRIES", text afl_testcache_entries)
    ∷ (codes "AFL_STATSD_HOST", text afl_statsd_host)
    ∷ (codes "AFL_STATSD_PORT", text afl_statsd_port)
    ∷ (codes "AFL_STATSD_TAGS_FLAVOR", text afl_statsd_tags_flavor)
    ∷ (codes "AFL_CRASH_EXITCODE", text afl_crash_exitcode)
    ∷ (codes "AFL_NO_COLOR", text afl_statsd_tags_flavor)
    ∷ (codes "AFL_NO_COLOUR", text afl_statsd_tags_flavor)
    ∷ (codes "AFL_KILL_SIGNAL", text afl_child_kill_signal)
    ∷ (codes "AFL_FORK_SERVER_KILL_SIGNAL", text afl_fsrv_kill_signal)
    ∷ (codes "AFL_TARGET_ENV", text afl_target_env)
    ∷ (codes "AFL_INPUT_LEN_MIN", min)
    ∷ (codes "AFL_INPUT_LEN_MAX", max)
    ∷ (codes "AFL_PIZZA_MODE", number afl_pizza_mode)
    ∷ (codes "AFL_NO_CRASH_README", number afl_no_crash_readme)
    ∷ (codes "AFL_SYNC_TIME", sync)
    ∷ []

abbrev pub chain : List Rule
chain = first_rules ++ second_rules ++ last_rules
