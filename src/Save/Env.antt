-- ===== src/Save/Env.antt =====
-- What `save_if_interesting` calls that the repository does not hold: the other files of AFL++, the C
-- library and the system. Each call of a function that changes the fuzzer is a function of its
-- state.
use ctfuzz.Base.{ℕ, Bool, Option, List, ◌∷◌, if◌then◌else◌}
use ctfuzz.Base.Int.{ℤ}
use ctfuzz.State.{Afl, Text, Result, ok, stop, cannot_create}
use ctfuzz.Bitmap.Novelty.{Coverage}

-- `%06u`, `%02u`, `%llu`, `%d` and `%+d`.
pub record Formats : Type 0 where
  pub pad6 : ℕ → Text
  pub pad2 : ℕ → Text
  pub decimal : ℕ → Text
  pub signed : ℤ → Text
  pub plus : ℤ → Text

-- `run_tmout`, `run_crash` and `run_error` are the codes `FSRV_RUN_*` of `forkserver.h`; `map_size`,
-- `keep_unique_hang` and `keep_unique_crash` are constants of `config.h`; `name_max` is `NAME_MAX`.
-- `custom_describe` is that of the mutator in use, if it has one, by the size that is left.
pub record Env : Type 0 where
  pub run_tmout : ℕ
  pub run_crash : ℕ
  pub run_error : ℕ
  pub map_size : ℕ
  pub keep_unique_hang : ℕ
  pub keep_unique_crash : ℕ
  pub name_max : ℕ
  pub formats : Formats
  pub cov : Coverage
  pub hash64 : List ℕ → ℕ
  pub get_cur_time : Afl → ℕ
  pub custom_describe : Afl → Option (ℕ → Text)
  pub can_create : Text → Afl → Bool
  pub readme_text : Afl → List ℕ
  pub run_infoexec : Afl → Afl
  pub add_to_queue : Text → ℕ → Afl → Afl
  pub calibrate_case : List ℕ → ℕ → Afl → ℕ × Afl
  pub queue_testcase_store_mem : List ℕ → Afl → Afl
  pub write_to_testcase : List ℕ → ℕ → ℕ → Afl → ℕ × List ℕ × Afl
  pub fuzz_run_target : ℕ → Afl → ℕ × Afl

-- `open(fn, O_WRONLY | O_CREAT | O_EXCL, ...)`, `PFATAL` where that fails, `ck_write` and `close`.
abbrev pub create : Env → Text → List ℕ → Afl → Result Afl
create env fn bytes s =
    if env.can_create fn s
    then ok (record s { files = (fn, bytes) ∷ s.files })
    else stop cannot_create
