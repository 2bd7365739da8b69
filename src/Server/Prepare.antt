-- ===== src/Server/Prepare.antt =====
-- What `main` of `ctfuzz/afl/ex-frsv.c` prepares before it starts the target: `set_up_environment`,
-- and the exit code and the timeout that the environment gives. `get_afl_env`, `find_afl_binary`,
-- `strtol`, `atoi` and the constants of `config.h` are parameters.
pub mod Laws
mod Tests
use ctfuzz.Base.{
  ℕ, Bool, true, false, ◌&&◌, ◌||◌, Option, some, none, List, [], ◌∷◌, ◌++◌, ◌==◌, ltb,
  if◌then◌else◌,
}
use ctfuzz.Base.Int.{ℤ, pos, negsuc}
use ctfuzz.Base.Text.{codes, str_eq}
use ctfuzz.State.{Text, Result, ok, stop, out_of_bounds}
use ctfuzz.Environ.{wrapped}

-- The environment, as `getenv` reads it.
abbrev pub Env : Type 0
Env = Text → Option Text

-- `setenv(name, val, overwrite)`
abbrev pub setenv : Text → Text → Bool → Env → Env
setenv name val overwrite env = λ n.
    if str_eq n name
    then elim (env n) [ some old ↦ some (if overwrite then val else old) | none ↦ some val ]
    else env n

pub record Libs : Type 0 where
  pub get_afl_env : Env → Text → Option Text
  pub find_afl_binary : Text → Text → Text
  -- `STRINGIFY(LSAN_ERROR)` and `STRINGIFY(MSAN_ERROR)`
  pub lsan_error : Text
  pub msan_error : Text

abbrev pub asan_options : Text
asan_options =
    codes "abort_on_error=1:detect_leaks=0:allocator_may_return_null=1:symbolize=0:"
    ++ codes "detect_odr_violation=0:handle_segv=0:handle_sigbus=0:handle_abort=0:"
    ++ codes "handle_sigfpe=0:handle_sigill=0"

abbrev pub lsan_options : Libs → Text
lsan_options lib =
    codes "exitcode="
    ++ lib.lsan_error
    ++ codes ":fast_unwind_on_malloc=0:symbolize=0:print_suppressions=0"

abbrev pub ubsan_options : Text
ubsan_options =
    codes "halt_on_error=1:abort_on_error=1:malloc_context_size=0:"
    ++ codes "allocator_may_return_null=1:symbolize=0:handle_segv=0:handle_sigbus=0:"
    ++ codes "handle_abort=0:handle_sigfpe=0:handle_sigill=0"

-- There is no colon behind `msan_track_origins=0`.
abbrev pub msan_options : Libs → Text
msan_options lib =
    codes "exit_code="
    ++ lib.msan_error
    ++ codes ":abort_on_error=1:msan_track_origins=0allocator_may_return_null=1:symbolize=0:"
    ++ codes "handle_segv=0:handle_sigbus=0:handle_abort=0:handle_sigfpe=0:handle_sigill=0"

-- The first four calls of `setenv`.
abbrev pub sanitized : Libs → Env → Env
sanitized lib env = setenv (codes "MSAN_OPTIONS") (msan_options lib) false (
    setenv (codes "UBSAN_OPTIONS") ubsan_options false (
      setenv (codes "LSAN_OPTIONS") (lsan_options lib) false
        (setenv (codes "ASAN_OPTIONS") asan_options false env)))

abbrev pub preloaded : Text → Env → Env
preloaded val env =
    setenv (codes "DYLD_INSERT_LIBRARIES") val true (setenv (codes "LD_PRELOAD") val true env)

-- `alloc_printf("%s:%s", afl_preload, frida_binary)`, or without `afl_preload`.
abbrev pub frida_preload : Option Text → Text → Text
frida_preload none binary = binary
frida_preload (some afl_preload) binary = afl_preload ++ codes ":" ++ binary

-- `setenv("LD_PRELOAD", getenv("AFL_PRELOAD"), 1)`, where `NULL` is no text.
abbrev pub preload_given : Option Text → Env → Result Env
preload_given none env = stop out_of_bounds
preload_given (some val) env = ok (preloaded val env)

abbrev pub preload : Bool → Bool → Option Text → Text → Env → Result Env
preload qemu_mode frida_mode (some given) binary env =
    if qemu_mode
    then ok env
    else if frida_mode
    then ok (preloaded (frida_preload (env (codes "AFL_PRELOAD")) binary) env)
    else preload_given (env (codes "AFL_PRELOAD")) env
preload qemu_mode frida_mode none binary env =
    if frida_mode then ok (preloaded binary env) else ok env

unfoldable pub set_up_environment : Libs → Bool → Bool → Text → Env → Result Env
set_up_environment lib qemu_mode frida_mode argv0 env =
    let env1 = sanitized lib env in
    preload qemu_mode frida_mode (lib.get_afl_env env1 (codes "AFL_PRELOAD"))
      (lib.find_afl_binary argv0 (codes "afl-frida-trace.so")) env1

-- `exitcode < -127 || exitcode > 128`
abbrev pub out_of_range : ℤ → Bool
out_of_range (pos n) = ltb 128 n
out_of_range (negsuc n) = ltb 126 n

abbrev pub is_zero : ℤ → Bool
is_zero (pos n) = n == 0
is_zero (negsuc n) = false

-- `AFL_CRASH_EXITCODE`: what `strtol` gives, and whether `errno` is then `EINVAL` or `ERANGE`. `none`
-- is the `FATAL`.
unfoldable pub crash_exitcode : ℤ → Bool → Option ℕ
crash_exitcode exitcode is_error =
    if (is_zero exitcode && is_error) || out_of_range exitcode
    then none
    else some (wrapped 8 exitcode)

-- `AFL_FORKSRV_INIT_TMOUT`, as `atoi` reads it.
pub init_tmout : ℤ → Option ℕ
init_tmout (pos n) = if n == 0 then none else some n
init_tmout (negsuc n) = none
