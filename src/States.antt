-- ===== src/States.antt =====
-- The life of the fuzzer's states in `ctfuzz/afl/afl-fuzz-state.c`: the buffers of `afl_state_init` and
-- `afl_state_deinit`, and the functions on the list `afl_states`, which the signal handlers call.
pub mod Laws
pub mod Init
mod Tests
use ctfuzz.Base.{ℕ, ◌*◌, ◌%◌, ◌^◌, Bool, true, false, List, [], ◌∷◌, ◌++◌, map, ltb, if◌then◌else◌}
use ctfuzz.Base.Int.{ℤ, pos, negsuc}

-- What these functions use of an `afl_state_t`.
pub record Instance : Type 0 where
  pub stop_soon : ℕ
  pub clear_screen : ℕ
  pub skip_requested : ℕ
  pub child_pid : ℤ
  pub child_kill_signal : ℤ
  pub fsrv_pid : ℤ
  pub fsrv_kill_signal : ℤ

-- `kill(pid, signal)` and `waitpid(pid, NULL, 0)`
pub data Call : Type 0 where
  kill : ℤ → ℤ → Call
  waitpid : ℤ → Call

abbrev pub is_positive : ℤ → Bool
is_positive (pos n) = ltb 0 n
is_positive (negsuc n) = false

-- The calls for one state.
abbrev pub calls_of : Instance → List Call
calls_of s =
    (if is_positive s.child_pid then kill s.child_pid s.child_kill_signal ∷ [] else [])
    ++ (if is_positive s.fsrv_pid
        then kill s.fsrv_pid s.fsrv_kill_signal ∷ waitpid s.fsrv_pid ∷ []
        else [])

-- The second loop.
unfoldable pub send_all : List Instance → List Call
send_all [] = []
send_all (s ∷ states) = calls_of s ++ send_all states

abbrev pub told_to_stop : Instance → Instance
told_to_stop s = record s { stop_soon = 1 }

-- The flags of all states first, then the calls, in their order.
unfoldable pub afl_states_stop : List Instance → List Instance × List Call
afl_states_stop states = let told = map told_to_stop states in (told, send_all told)

abbrev pub afl_states_clear_screen : List Instance → List Instance
afl_states_clear_screen states = map (λ (s : Instance). record s { clear_screen = 1 }) states

abbrev pub afl_states_request_skip : List Instance → List Instance
afl_states_request_skip states = map (λ (s : Instance). record s { skip_requested = 1 }) states

-- The pointers of an `afl_state_t` that are allocated or freed.
pub data Buffer : Type 0 where
  virgin_bits virgin_tmout virgin_crash var_bytes top_rated clean_trace : Buffer
  clean_trace_custom first_trace map_tmp_buf unique_path : Buffer
  in_dir out_dir pass_stats orig_cmp_map cmplog_binary : Buffer
  queue_buf out_buf out_scratch_buf eff_buf in_buf in_scratch_buf ex_buf : Buffer

abbrev pub buffer_index : Buffer → ℕ
buffer_index virgin_bits = 0
buffer_index virgin_tmout = 1
buffer_index virgin_crash = 2
buffer_index var_bytes = 3
buffer_index top_rated = 4
buffer_index clean_trace = 5
buffer_index clean_trace_custom = 6
buffer_index first_trace = 7
buffer_index map_tmp_buf = 8
buffer_index unique_path = 9
buffer_index in_dir = 10
buffer_index out_dir = 11
buffer_index pass_stats = 12
buffer_index orig_cmp_map = 13
buffer_index cmplog_binary = 14
buffer_index queue_buf = 15
buffer_index out_buf = 16
buffer_index out_scratch_buf = 17
buffer_index eff_buf = 18
buffer_index in_buf = 19
buffer_index in_scratch_buf = 20
buffer_index ex_buf = 21

-- The calls of `ck_alloc` in `afl_state_init`, with their sizes: pointers have 8 bytes, and a
-- `struct unique_path` has 16.
unfoldable pub allocated : ℕ → List (Buffer × ℕ)
allocated map_size =
    (virgin_bits, map_size)
    ∷ (virgin_tmout, map_size)
    ∷ (virgin_crash, map_size)
    ∷ (var_bytes, map_size)
    ∷ (top_rated, map_size * 8)
    ∷ (clean_trace, map_size)
    ∷ (clean_trace_custom, map_size)
    ∷ (first_trace, map_size)
    ∷ (map_tmp_buf, map_size)
    ∷ (unique_path, 16)
    ∷ []

-- The conditions of `afl_state_deinit`.
pub record Held : Type 0 where
  pub in_place_resume : Bool
  pub sync_id : Bool
  pub has_pass_stats : Bool
  pub has_orig_cmp_map : Bool
  pub has_cmplog_binary : Bool

abbrev pub freed_if : Bool → Buffer → List Buffer → List Buffer
freed_if b x later = if b then x ∷ later else later

-- The calls of `afl_free` and `ck_free` that have no condition.
abbrev pub always_freed : List Buffer
always_freed =
    queue_buf ∷ out_buf ∷ out_scratch_buf ∷ eff_buf ∷ in_buf ∷ in_scratch_buf ∷ ex_buf ∷ virgin_bits
    ∷ virgin_tmout ∷ virgin_crash ∷ var_bytes ∷ top_rated ∷ clean_trace ∷ clean_trace_custom
    ∷ first_trace ∷ map_tmp_buf ∷ []

-- What `afl_state_deinit` frees, in its order.
unfoldable pub afl_state_deinit : Held → List Buffer
afl_state_deinit h = freed_if h.in_place_resume in_dir (
    freed_if h.sync_id out_dir (
      freed_if h.has_pass_stats pass_stats (
        freed_if h.has_orig_cmp_map orig_cmp_map
          (freed_if h.has_cmplog_binary cmplog_binary always_freed))))
