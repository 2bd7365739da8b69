-- ===== src/Server/Shutdown.antt =====
-- How the fork server of `ctfuzz/afl/ex-frsv.c` ends: the handler of the stop signals against the loop
-- of `run`, and what the handlers release.
pub mod Laws
mod Tests
use ctfuzz.Base.{
  ℕ, zero, suc, ◌+◌, ◌-◌, Bool, true, false, not, ◌&&◌, ◌==◌, ltb, List, [], ◌∷◌, ◌++◌,
  if◌then◌else◌,
}
use ctfuzz.Base.Int.{ℤ, pos, negsuc}
use ctfuzz.States.{Call, kill, is_positive}

-- Where the loop of `run` stands: before `sem_wait`, before the request is read and given to the
-- target, in the run of the target up to the test of `stop_soon`, before `analyze_results`, before the
-- answer is written, and before `sem_post`.
pub data Point : Type 0 where
  waiting reading running analyzing answering posting : Point

-- `has_shared_mem` and `has_in_data` are whether `shared_mem` is mapped and `in_data` allocated, and
-- `killalls` how often `afl_fsrv_killall` was called.
pub record Process : Type 0 where
  pub point : Point
  pub stop_soon : Bool
  pub sem_input : ℕ
  pub sem_output : ℕ
  pub has_shared_mem : Bool
  pub has_in_data : Bool
  pub killalls : ℕ

-- What a step leads to: a next step, a wait on `sem_input`, `exit`, or an access to memory that is
-- not mapped or not allocated.
pub data Next : Type 0 where
  goes : Process → Next
  waits exits faults : Next

-- `init_sem_shm`
abbrev pub initialized : Process
initialized = record {
  point = waiting;
  stop_soon = false;
  sem_input = 0;
  sem_output = 0;
  has_shared_mem = true;
  has_in_data = true;
  killalls = 0;
}

-- `deinit_sem_shm`: `free(in_data)` is its last call.
abbrev pub deinit_sem_shm : Process → Next
deinit_sem_shm p =
    if p.has_in_data
    then goes
        (record p { sem_input = p.sem_input + 1; has_shared_mem = false; has_in_data = false })
    else faults

-- `handle_stop_sig`
unfoldable pub handle_stop_sig : Process → Next
handle_stop_sig p = deinit_sem_shm (record p { stop_soon = true; killalls = p.killalls + 1 })

-- The step from each point of the loop, for a target whose run does not fail. A run whose child is
-- killed returns too.
abbrev pub step_from : Point → Process → Next
step_from waiting p =
    if p.sem_input == 0
    then waits
    else goes (record p { point = reading; sem_input = p.sem_input - 1 })
step_from reading p =
    if p.has_shared_mem && p.has_in_data then goes (record p { point = running }) else faults
step_from running p = if p.stop_soon then exits else goes (record p { point = analyzing })
step_from analyzing p = goes (record p { point = answering })
step_from answering p = if p.has_shared_mem then goes (record p { point = posting }) else faults
step_from posting p = goes (record p { point = waiting; sem_output = p.sem_output + 1 })

unfoldable pub step : Process → Next
step p = step_from p.point p

-- As many steps as the fuel, or up to the end.
unfoldable pub steps : ℕ → Process → Next
steps zero p = goes p
steps (suc n) p = elim (step p) [
  | goes q ↦ steps n q
  | waits ↦ waits
  | exits ↦ exits
  | faults ↦ faults
]

-- The client's `sem_input.release()`.
abbrev pub released : Process → Process
released p = record p { sem_input = p.sem_input + 1 }

-- `kill_child`
pub record Child : Type 0 where
  pub child_pid : ℤ
  pub child_kill_signal : ℤ
  pub timed_out : Bool

abbrev pub kill_child : Child → Child × List Call
kill_child c =
    let late = record c { timed_out = true } in
    if is_positive c.child_pid
    then (record late { child_pid = negsuc 0 }, kill c.child_pid c.child_kill_signal ∷ [])
    else (late, [])

-- What is released at the end: the file of the input, the segments of the trace and of the input, the
-- structure of the latter, and the children.
pub data Release : Type 0 where
  unlink_stdin_file deinit_shm deinit_shm_fuzz free_shm_fuzz killall : Release

pub record Owned : Type 0 where
  pub stdin_file : Bool
  pub remove_shm : Bool
  pub shm_map : Bool
  pub support_shmem_fuzz : Bool
  pub use_shmem_fuzz : Bool

abbrev pub when : Bool → List Release → List Release
when b calls = if b then calls else []

-- `deinit_shmem`, less the fields that it resets, which nothing reads behind it.
abbrev pub deinit_shmem : List Release
deinit_shmem = deinit_shm_fuzz ∷ free_shm_fuzz ∷ []

-- `if (fsrv->support_shmem_fuzz && !fsrv->use_shmem_fuzz)`
abbrev pub unused_shmem : Owned → List Release
unused_shmem o = when (o.support_shmem_fuzz && not o.use_shmem_fuzz) deinit_shmem

unfoldable pub at_exit_handler : Owned → List Release
at_exit_handler o =
    when o.stdin_file (unlink_stdin_file ∷ [])
    ++ (when o.remove_shm (when o.shm_map (deinit_shm ∷ []) ++ when o.use_shmem_fuzz deinit_shmem)
        ++ killall ∷ [])

-- The end of `main`, behind `run`.
unfoldable pub end_of_main : Owned → Owned × List Release
end_of_main o = (
  record o { stdin_file = false; remove_shm = false; shm_map = false },
  when o.stdin_file (unlink_stdin_file ∷ []) ++ (deinit_shm ∷ when o.use_shmem_fuzz deinit_shmem),
)
