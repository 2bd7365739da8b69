-- ===== src/Save/Queue.antt =====
-- The block `save_to_queue` of `save_if_interesting`.
use ctfuzz.Base.{ℕ, ◌+◌, ◌-◌, ◌%◌, ◌^◌, true, List, [], ◌∷◌, ◌++◌, ◌==◌, if◌then◌else◌, take}
use ctfuzz.Base.Text.{codes}
use ctfuzz.State.{Afl, Entry, Text, Result, ok, stop, out_of_bounds, cannot_execute, ◌>>=◌}
use ctfuzz.Save.Env.{Env, create}
use ctfuzz.Save.Path.{n_fuzz_size, put}
use ctfuzz.Save.Describe.{describe_op}

-- `"%s/queue/id:%06u,%s"`
abbrev pub queue_name : Env → Afl → Text → Text
queue_name env s text =
    s.out_dir ++ codes "/queue/id:" ++ env.formats.pad6 s.queued_items ++ codes "," ++ text

abbrev pub with_cov : Entry → ℕ → Entry
with_cov q new_bits = if new_bits == 2 then record q { has_new_cov = true } else q

-- The fields of `afl->queue_top` and what goes with them; without an entry it is `NULL`.
abbrev pub note_top : Env → ℕ → ℕ → List Entry → Afl → Result Afl
note_top env new_bits cksum [] s = stop out_of_bounds
note_top env new_bits cksum (q ∷ qs) s =
    let i = if cksum == 0 then q.n_fuzz_entry else cksum % n_fuzz_size in
    ok (record s {
      queue =
          record (with_cov q new_bits) {
            n_fuzz_entry = i;
            exec_cksum = env.hash64 (take s.fsrv.map_size s.fsrv.trace_bits);
          }
          ∷ qs;
      queued_with_cov =
          if new_bits == 2 then (s.queued_with_cov + 1) % 2 ^ 32 else s.queued_with_cov;
      n_fuzz = if cksum == 0 then s.n_fuzz else put s.n_fuzz i 1;
    })

abbrev pub keep_mem : Env → List ℕ → Afl → Afl
keep_mem env mem s =
    if s.q_testcase_max_cache_size == 0 then s else env.queue_testcase_store_mem mem s

abbrev pub calibrated : Env → List ℕ → ℕ × Afl → Result Afl
calibrated env mem (res, s) =
    if res == env.run_error then stop cannot_execute else ok (keep_mem env mem s)

unfoldable pub save_to_queue : Env → List ℕ → ℕ → ℕ → ℕ → ℕ → Afl → Result Afl
save_to_queue env mem len new_bits is_timeout cksum s = do
  text ← describe_op env s (new_bits + is_timeout) (env.name_max - 10)
  let fn = queue_name env s text
  s ← create env fn (take len mem) s
  let queued = env.add_to_queue fn len s
  s ← note_top env new_bits cksum queued.queue queued
  calibrated env mem (env.calibrate_case mem ((s.queue_cycle + 2 ^ 32 - 1) % 2 ^ 32) s)
