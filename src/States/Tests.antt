-- ===== src/States/Tests.antt =====
-- The theorems on the states at concrete instances.
use mathlib.Core.List.{Memᴰ}
use ctfuzz.Base.{◌≡◌, ◌↔◌, true, false, List, [], ◌∷◌, ◌==◌, if◌then◌else◌, All}
use ctfuzz.Base.Int.{pos, negsuc}
use ctfuzz.States.{
  Instance, Call, afl_states_stop, unique_path, buffer_index, allocated, Held, afl_state_deinit,
}
use ctfuzz.States.Laws.{
  IsProcess, Owes, pid_of, times, afl_states_stop_lem, afl_state_deinit-allocated,
}

-- One with a child and a fork server, and one that has not started any.
abbrev two_instances : List Instance
two_instances =
    record {
      stop_soon = 0;
      clear_screen = 0;
      skip_requested = 0;
      child_pid = pos 41;
      child_kill_signal = pos 9;
      fsrv_pid = pos 40;
      fsrv_kill_signal = pos 15;
    }
    ∷ record {
      stop_soon = 0;
      clear_screen = 1;
      skip_requested = 0;
      child_pid = negsuc 0;
      child_kill_signal = pos 9;
      fsrv_pid = pos 0;
      fsrv_kill_signal = pos 15;
    }
    ∷ []

afl_states_stop_lem_example :
    All (λ s. s.stop_soon ≡ 1) (afl_states_stop two_instances).0
    × ((c : Call)
        → (Memᴰ c (afl_states_stop two_instances).1
            ↔ ((s : Instance) × Memᴰ s two_instances × Owes s c)))
    × ((c : Call) → Memᴰ c (afl_states_stop two_instances).1 → IsProcess (pid_of c))
afl_states_stop_lem_example = afl_states_stop_lem two_instances

abbrev resumed : Held
resumed = record {
  in_place_resume = true;
  sync_id = true;
  has_pass_stats = false;
  has_orig_cmp_map = true;
  has_cmplog_binary = true;
}

afl_state_deinit-allocated_example :
    All
      (λ a.
        times a.0 (afl_state_deinit resumed)
        ≡ (if buffer_index a.0 == buffer_index unique_path then 0 else 1))
      (allocated 65536)
afl_state_deinit-allocated_example = afl_state_deinit-allocated resumed 65536
