-- ===== src/Save/Judge.antt =====
-- `save_if_interesting` of `ctfuzz/afl/afl-fuzz-bitmap.c`, in the build without `SIMPLE_FILES`,
-- `INTROSPECTION` and Nyx. The `goto save_to_queue` from the timeouts goes back, so the part behind
-- the queue takes fuel; `Judge/Fuel` says how much is enough. The result is the returned value.
pub mod Unique
pub mod Frame
pub mod Fuel
pub mod Counts
pub mod Caps
use ctfuzz.Base.{
  ℕ, zero, suc, ◌+◌, ◌-◌, ◌%◌, ◌^◌, Bool, true, false, not, ◌&&◌, ◌||◌, List, [], ◌∷◌, ◌++◌, ◌==◌,
  leb, ltb, if◌then◌else◌, take,
}
use ctfuzz.Base.Text.{codes}
use ctfuzz.State.{
  Afl, Text, Result, ok, stop, cannot_execute, out_of_fuel, ◌>>=◌, VirginMap, virgin_bits,
  virgin_tmout, virgin_crash,
}
use ctfuzz.Bitmap.Novelty.{classify, simplify, has_new_bits, has_new_bits_unclassified}
use ctfuzz.Save.Env.{Env, create}
use ctfuzz.Save.Path.{update_path_frequency}
use ctfuzz.Save.Describe.{describe_op}
use ctfuzz.Save.Queue.{save_to_queue}

abbrev pub inc64 : ℕ → ℕ
inc64 n = (n + 1) % 2 ^ 64

-- `if (!classified) classify_counts`, and `simplify_trace`.
abbrev pub prepared : Env → Bool → Afl → Afl
prepared env classified s = simplify env.cov (if classified then s else classify env.cov s)

-- `has_new_bits` of the trace so prepared, but for a run that is not
-- instrumented, whose every result is kept: whether it is new in the map.
pub unique_in : Env → VirginMap → Bool → Afl → Result (Bool × Afl)
unique_in env m classified s =
    if s.non_instrumented_mode
    then ok (true, s)
    else do (ret, s) ← has_new_bits env.cov (prepared env classified s) m; ok (not (ret == 0), s)

-- `write_crash_readme`: a file that cannot be created is left out.
pub write_crash_readme : Env → Afl → Afl
write_crash_readme env s =
    let fn = s.out_dir ++ codes "/crashes/README.txt" in
    if env.can_create fn s then record s { files = (fn, env.readme_text s) ∷ s.files } else s

abbrev pub crash_name : Env → Afl → Text → Text
crash_name env s text =
    s.out_dir
    ++ codes "/crashes/id:"
    ++ env.formats.pad6 s.saved_crashes
    ++ codes ",sig:"
    ++ env.formats.pad2 s.fsrv.last_kill_signal
    ++ codes ","
    ++ text

abbrev pub hang_name : Env → Afl → Text → Text
hang_name env s text =
    s.out_dir ++ codes "/hangs/id:" ++ env.formats.pad6 s.saved_hangs ++ codes "," ++ text

abbrev pub first_readme : Env → Afl → Afl
first_readme env s =
    if s.saved_crashes == 0 && not (s.afl_no_crash_readme == 1) then write_crash_readme env s else s

-- What a unique crash leaves.
pub save_crash : Env → List ℕ → ℕ → Afl → Result Afl
save_crash env mem len s = do
  let s = first_readme env s
  text ← describe_op env s 0 (env.name_max - 17)
  let fn = crash_name env s text
  let s = record s { saved_crashes = inc64 s.saved_crashes }
  let s = if s.infoexec then env.run_infoexec s else s
  create env fn (take len mem)
      (record s { last_crash_time = env.get_cur_time s; last_crash_execs = s.fsrv.total_execs })

-- What a unique hang leaves.
pub save_hang : Env → List ℕ → ℕ → Afl → Result Afl
save_hang env mem len s = do
  text ← describe_op env s 0 (env.name_max - 10)
  let fn = hang_name env s text
  let s = record s { saved_hangs = inc64 s.saved_hangs }
  create env fn (take len mem) (record s { last_hang_time = env.get_cur_time s })

abbrev pub returning : ℕ → Result Afl → Result (ℕ × Afl)
returning keeping r = r >>= λ s. ok (keeping, s)

-- The label `keep_as_crash`, up to the end.
pub keep_as_crash : Env → List ℕ → ℕ → Bool → ℕ → Afl → Result (ℕ × Afl)
keep_as_crash env mem len classified keeping s =
    let counted = record s { total_crashes = inc64 s.total_crashes } in
    if leb env.keep_unique_crash counted.saved_crashes
    then ok (keeping, counted)
    else unique_in env virgin_crash classified counted >>= λ (unique, s).
        if unique then returning keeping (save_crash env mem len s) else ok (keeping, s)

-- The second run of a hang with the more generous timeout: its fault, the test case as it was
-- written, and the state with the trace of that run.
pub record Rerun : Type 0 where
  pub new_fault : ℕ
  pub mem : List ℕ
  pub len : ℕ
  pub state : Afl

pub run_again : Env → List ℕ → ℕ → Afl → Rerun
run_again env mem len s =
    let first = env.write_to_testcase mem len 0 s in
    let second = env.write_to_testcase first.1 len 1 first.2 in
    let written = if first.0 == 0 then second else first in
    let ran = env.fuzz_run_target s.hang_tmout written.2 in
    record { new_fault = ran.0; mem = written.1; len = written.0; state = classify env.cov ran.1 }

-- What follows a hang that is new in `virgin_tmout`: it is a crash after all, it is queued as a
-- slow test case and judged again, it is dropped, or it is saved as a hang.
pub data Verdict : Type 0 where
  crash slow drop hang : Verdict

pub verdict : Env → Afl → ℕ → Verdict
verdict env s new_fault =
    if s.stop_soon == 0 && new_fault == env.run_crash
    then crash
    else if s.stop_soon == 0 && new_fault == env.run_tmout
    then hang
    else if s.afl_keep_timeouts
    then slow
    else drop

-- The `switch (fault)`, for the part of a timeout behind the second run; `again` is the way back
-- through `save_to_queue`.
pub conclude : Env → (Rerun → Result (ℕ × Afl)) → ℕ → Verdict → Bool → Rerun → Result (ℕ × Afl)
conclude env again keeping crash classified r =
    keep_as_crash env r.mem r.len classified keeping r.state
conclude env again keeping slow classified r =
    let s = r.state in
    again (record {
      new_fault = r.new_fault;
      mem = r.mem;
      len = r.len;
      state = record s { saved_tmouts = inc64 s.saved_tmouts };
    })
conclude env again keeping drop classified r = ok (keeping, r.state)
conclude env again keeping hang classified r = returning keeping (save_hang env r.mem r.len r.state)

-- A timeout that is new in `virgin_tmout`.
pub new_timeout : Env → (Rerun → Result (ℕ × Afl)) → List ℕ → ℕ → Bool → ℕ → Afl → Result (ℕ × Afl)
new_timeout env again mem len classified keeping s =
    if ltb s.fsrv.exec_tmout s.hang_tmout
    then (let r = run_again env mem len s in
        conclude env again keeping (verdict env r.state r.new_fault) classified r)
    else returning keeping (save_hang env mem len s)

-- `case FSRV_RUN_TMOUT`
pub judge_timeout :
    Env → (Rerun → Result (ℕ × Afl)) → List ℕ → ℕ → Bool → ℕ → Afl → Result (ℕ × Afl)
judge_timeout env again mem len classified keeping s =
    let counted = record s { total_tmouts = inc64 s.total_tmouts } in
    if leb env.keep_unique_hang counted.saved_hangs
    then ok (keeping, counted)
    else unique_in env virgin_tmout classified counted >>= λ (unique, s').
        if unique
        then new_timeout env again mem len (classified || not s.non_instrumented_mode) keeping s'
        else ok (keeping, s')

module _ (env : Env) (fault new_bits cksum : ℕ) where
  -- The `switch (fault)`. The way back queues the test case and comes here with `keeping` set.
  pub judge : ℕ → List ℕ → ℕ → Bool → ℕ → Afl → Result (ℕ × Afl)
  judge zero mem len classified keeping s = stop out_of_fuel
  judge (suc fuel) mem len classified keeping s =
      let again : Rerun → Result (ℕ × Afl) = λ r.
        save_to_queue env r.mem r.len new_bits 0x80 cksum r.state >>= λ queued.
        judge fuel r.mem r.len (classified || not s.non_instrumented_mode) 1 queued in
      if fault == env.run_tmout
      then judge_timeout env again mem len classified keeping s
      else if fault == env.run_crash
      then keep_as_crash env mem len classified keeping s
      else if fault == env.run_error
      then stop cannot_execute
      else ok (keeping, s)

-- A run with the fault that the session is after (none, or in crash mode a crash).
pub expected_fault : Env → ℕ → List ℕ → ℕ → ℕ → ℕ → Afl → Result (ℕ × Afl)
expected_fault env fuel mem len fault cksum s =
    has_new_bits_unclassified env.cov s virgin_bits >>= λ (new_bits, s).
    if new_bits == 0
    then ok (0, if s.crash_mode == 0 then s else record s { total_crashes = inc64 s.total_crashes })
    else save_to_queue env mem len new_bits 0 cksum s >>= λ s.
        judge env fault new_bits cksum fuel mem len true 1 s

pub save_if_interesting : Env → ℕ → List ℕ → ℕ → ℕ → Afl → Result (ℕ × Afl)
save_if_interesting env fuel mem len fault s =
    if len == 0
    then ok (0, s)
    else update_path_frequency env s >>= λ (cksum, s).
        if fault == s.crash_mode
        then expected_fault env fuel mem len fault cksum s
        else judge env fault 0 cksum fuel mem len false 0 s
