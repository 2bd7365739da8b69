-- ===== src/Save/Tests.antt =====
-- `save_if_interesting` and its parts on small states.
use mathlib.Core.List.{Memᴰ}
use ctfuzz.Base.{ℕ, ◌↔◌, map, ◌+◌, ◌*◌, ◌≡◌, ◌≢◌, refl, true, false, none, List, [], ◌∷◌, arith}
use ctfuzz.State.{Afl, ok, stop, out_of_fuel}
use ctfuzz.State.Samples.{fresh_state}
use ctfuzz.Bitmap.Novelty.Samples.{by_bytes, by_bytes-IsCoverage}
use ctfuzz.Save.Env.{Env}
use ctfuzz.Save.Keeps.{IsEnv, Keeps-refl}
use ctfuzz.Save.Path.{update_path_frequency, count_path, add_path, on_path, mark_hits}
use ctfuzz.Save.Path.Laws.{IsCounted, IsPathAdded, hit_map, update_path_frequency_lem}
use ctfuzz.Save.Path.Campaign.{campaign, path_of, campaign-afl_state_init}
use ctfuzz.States.Init.{Limits, afl_state_init}
use ctfuzz.Save.Judge.{save_if_interesting}
use ctfuzz.Save.Judge.Unique.{CanRun}
use ctfuzz.Save.Outcome.{Ends}
use ctfuzz.Save.Judge.Counts.{Saves}
use ctfuzz.Save.Judge.Caps.{IsSmall, save_if_interesting-Saves}
use ctfuzz.Save.Judge.Fuel.{save_if_interesting-terminates}

-- The bytes as digits.
abbrev digest : List ℕ → ℕ
digest [] = 1
digest (b ∷ bs) = b + 2 * digest bs

-- The target ends well when it is given more time.
abbrev env : Env
env = record {
  run_tmout = 1;
  run_crash = 2;
  run_error = 3;
  map_size = 16;
  keep_unique_hang = 500;
  keep_unique_crash = 5000;
  name_max = 255;
  formats = record {
    pad6 = λ n. 48 ∷ [];
    pad2 = λ n. 48 ∷ [];
    decimal = λ n. 48 ∷ [];
    signed = λ n. 48 ∷ [];
    plus = λ n. 48 ∷ [];
  };
  cov = by_bytes;
  hash64 = digest;
  get_cur_time = λ s. 5000;
  custom_describe = λ s. none;
  can_create = λ fn s. true;
  readme_text = λ s. [];
  run_infoexec = λ s. s;
  add_to_queue = λ fn len s. record s {
    queue =
        record { fname = fn; len = len; has_new_cov = false; n_fuzz_entry = 0; exec_cksum = 0 }
        ∷ s.queue;
    queued_items = s.queued_items + 1;
  };
  calibrate_case = λ mem h s. (0, s);
  queue_testcase_store_mem = λ mem s. s;
  write_to_testcase = λ mem len fix s. (len, mem, s);
  fuzz_run_target = λ timeout s. (0, s);
}

env-IsEnv : IsEnv env
env-IsEnv = record {
  coverage = by_bytes-IsCoverage;
  added = λ fn len s. record {
    size = refl;
    trace = refl;
    tmout = refl;
    mode = refl;
    crashes = refl;
    hangs = refl;
  };
  calibrates = λ mem h s. Keeps-refl s;
  stores = λ mem s. Keeps-refl s;
  writes = λ mem len fix s. Keeps-refl s;
  hooks = λ s. Keeps-refl s;
  runs = λ timeout s. Keeps-refl s;
}

-- A slow run that hit two tuples, in a session that keeps timeouts.
abbrev slow_run : Afl
slow_run =
    let s = fresh_state 8 (0 ∷ 3 ∷ 0 ∷ 0 ∷ 1 ∷ 0 ∷ 0 ∷ 0 ∷ []) in
    record s { hang_tmout = 2000; afl_keep_timeouts = true }

slow_run-CanRun : CanRun slow_run
slow_run-CanRun = record {
  room = record { trace = omega arith; virgin = omega arith };
  mode = refl;
}

save_if_interesting-terminates_example :
    save_if_interesting env 2041 (7 ∷ []) 1 1 slow_run ≢ stop out_of_fuel
save_if_interesting-terminates_example =
    save_if_interesting-terminates env env-IsEnv 2041 (7 ∷ []) 1 1 slow_run slow_run-CanRun
      (omega arith)

slow_run-IsCounted : IsCounted slow_run
slow_run-IsCounted = record { distinct = tt; counted = refl }

update_path_frequency_lem_example :
    (t : Afl) × (update_path_frequency env slow_run ≡ ok (env.hash64 (hit_map env slow_run), t))
    × IsPathAdded (env.hash64 (hit_map env slow_run)) slow_run t
update_path_frequency_lem_example =
    update_path_frequency_lem env slow_run (omega arith) (omega arith) (omega arith)
      slow_run-IsCounted

abbrev path : ℕ
path = digest (hit_map env slow_run)

abbrev counted : Afl
counted = record slow_run {
  unique_path = path ∷ [];
  total_unique_path = 1;
  n_fuzz = (count_path path slow_run).n_fuzz;
}

slow_run_is_counted : update_path_frequency env slow_run ≡ ok (path, counted)
unfolding update_path_frequency add_path count_path on_path mark_hits
slow_run_is_counted = refl

abbrev limits : Limits
limits = record { exec_timeout = 1000; testcase_cache_size = 50 }

-- Three runs on two paths.
abbrev three_runs : List (List ℕ)
three_runs = (1 ∷ 0 ∷ 0 ∷ []) ∷ (0 ∷ 4 ∷ 2 ∷ []) ∷ (200 ∷ 0 ∷ 0 ∷ []) ∷ []

campaign-afl_state_init_example :
    (t : Afl) × (campaign env three_runs (afl_state_init limits 3) ≡ ok t)
    × IsCounted t
    × ((d : ℕ) → (on_path d t.unique_path ≡ true) ↔ Memᴰ d (map (path_of env 3) three_runs))
campaign-afl_state_init_example =
    campaign-afl_state_init env limits 3 three_runs (omega arith)
      (omega arith, (omega arith, (omega arith, tt))) (omega arith)

env-IsSmall : IsSmall env
env-IsSmall = record { crashes = omega arith; hangs = omega arith }

save_if_interesting-Saves_example :
    Ends
      (λ p. Saves env env-IsEnv slow_run p.1)
      (save_if_interesting env 2041 (7 ∷ []) 1 1 slow_run)
save_if_interesting-Saves_example =
    save_if_interesting-Saves env env-IsEnv env-IsSmall 2041 (7 ∷ []) 1 1 slow_run slow_run-CanRun
      (omega arith)
