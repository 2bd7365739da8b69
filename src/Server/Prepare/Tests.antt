-- ===== src/Server/Prepare/Tests.antt =====
-- The environment of the target, and a crash exit code.
use ctfuzz.Base.{◌≡◌, Bool, ◌++◌, false, true, some, none, if◌then◌else◌, arith}
use ctfuzz.Base.Int.{ℤ}
use ctfuzz.Base.Text.{codes, str_eq}
use ctfuzz.State.{ok}
use ctfuzz.Server.Prepare.{Env, Libs, crash_exitcode, set_up_environment}
use ctfuzz.Server.Prepare.Laws.{
  IsReader, IsPrepared, libraries, set_up_environment_lem, crash_exitcode_unique,
}

abbrev libs : Libs
libs = record {
  get_afl_env = λ env name. env name;
  find_afl_binary = λ argv0 fname. codes "/usr/lib/afl/" ++ fname;
  lsan_error = codes "23";
  msan_error = codes "86";
}

libs-IsReader : IsReader libs.get_afl_env
libs-IsReader = record { reads = λ e n v given. given; looks = λ e e' n same. same }

-- A user with a library to load.
abbrev user_env : Env
user_env = λ n. if str_eq n (codes "AFL_PRELOAD") then some (codes "libdesock.so") else none

set_up_environment_lem_example :
    (out : Env) × (set_up_environment libs false true (codes "./ex-frsv") user_env ≡ ok out)
    × IsPrepared libs
        (libraries false true
          (libs.get_afl_env user_env (codes "AFL_PRELOAD"))
          (libs.find_afl_binary (codes "./ex-frsv") (codes "afl-frida-trace.so")))
        user_env
        out
set_up_environment_lem_example =
    set_up_environment_lem libs false true (codes "./ex-frsv") user_env libs-IsReader

crash_exitcode_unique_example :
    (z : ℤ) × (crash_exitcode z false ≡ some 134)
    × ((y : ℤ) (is_error : Bool) → crash_exitcode y is_error ≡ some 134 → y ≡ z)
crash_exitcode_unique_example = crash_exitcode_unique 134 (omega arith)
