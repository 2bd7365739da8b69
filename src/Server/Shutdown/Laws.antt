-- ===== src/Server/Shutdown/Laws.antt =====
-- A stop signal ends the server, but seldom in order; and what the ends release.
use ctfuzz.Base.{
  ℕ, ◌+◌, ◌≡◌, refl, Bool, true, false, not, ◌==◌, if◌then◌else◌, List, [], ◌∷◌, ◌++◌, arith,
}
use ctfuzz.Server.Shutdown.{
  Point, waiting, reading, running, analyzing, answering, posting, Process, initialized, released,
  Next, goes, exits, faults, handle_stop_sig, step_from, step, steps, Release, unlink_stdin_file,
  deinit_shm, deinit_shm_fuzz, free_shm_fuzz, killall, Owned, when, deinit_shmem, unused_shmem,
  at_exit_handler, end_of_main,
}

-- The states of the loop before a stop signal: from `init_sem_shm` on, the server steps and the
-- client posts `sem_input`, in any order.
pub data Reach : Process → Type 0 where
  starts : Reach initialized
  proceeds : {p q : Process} → Reach p → step p ≡ goes q → Reach q
  posts : {p : Process} → Reach p → Reach (released p)

pub record IsRunning (p : Process) : Type 0 where
  pub shared_mem : p.has_shared_mem ≡ true
  pub in_data : p.has_in_data ≡ true

goes-IsRunning :
    (at_ : Point) (p q : Process) → IsRunning p → step_from at_ p ≡ goes q → IsRunning q
goes-IsRunning waiting p q is e = ground (arith, is, e)
goes-IsRunning reading p q is e = ground (arith, is, e)
goes-IsRunning running p q is e = ground (arith, is, e)
goes-IsRunning analyzing p q is e = ground (arith, is, e)
goes-IsRunning answering p q is e = ground (arith, is, e)
goes-IsRunning posting p q is e = ground (arith, is, e)

Reach-IsRunning : {p : Process} → Reach p → IsRunning p
unfolding step
Reach-IsRunning starts = record { shared_mem = refl; in_data = refl }
Reach-IsRunning (proceeds {p} {q} r e) = goes-IsRunning p.point p q (Reach-IsRunning r) e
Reach-IsRunning (posts r) =
    let is = Reach-IsRunning r in record { shared_mem = is.shared_mem; in_data = is.in_data }

-- The end of a server that is stopped at a point.
abbrev pub end_from : Point → Next
end_from running = exits
end_from waiting = faults
end_from reading = faults
end_from analyzing = faults
end_from answering = faults
end_from posting = faults

not_zero : (n : ℕ) → ((n + 1) == 0) ≡ false
not_zero n = ground arith

stopped_from :
    (at_ : Point) (a b k : ℕ)
    → steps 3 (record {
      point = at_;
      stop_soon = true;
      sem_input = a + 1;
      sem_output = b;
      has_shared_mem = false;
      has_in_data = false;
      killalls = k;
    })
      ≡ end_from at_
unfolding steps step
stopped_from waiting a b k = ground (arith, not_zero a)
stopped_from reading a b k = refl
stopped_from running a b k = refl
stopped_from analyzing a b k = refl
stopped_from answering a b k = refl
stopped_from posting a b k = ground (arith, not_zero a)

-- A stop signal at any point that the loop reaches, however it and the client's posts follow each
-- other, kills the children once and brings the server to its end within three steps: it exits if
-- the target runs, and from every other point it accesses memory that the handler has released. A
-- second signal right behind the first frees in_data again.
pub handle_stop_sig-steps :
    {p : Process}
    → Reach p
    → (q : Process) × (handle_stop_sig p ≡ goes q)
      × (q.killalls ≡ p.killalls + 1)
      × (steps 3 q ≡ end_from p.point)
      × (handle_stop_sig q ≡ faults)
unfolding handle_stop_sig
handle_stop_sig-steps {p} r = (
  record p {
    stop_soon = true;
    sem_input = p.sem_input + 1;
    has_shared_mem = false;
    has_in_data = false;
    killalls = p.killalls + 1;
  },
  rw (Reach-IsRunning r).in_data refl,
  refl,
  stopped_from p.point p.sem_input p.sem_output (p.killalls + 1),
  refl,
)

abbrev pub release_index : Release → ℕ
release_index unlink_stdin_file = 0
release_index deinit_shm = 1
release_index deinit_shm_fuzz = 2
release_index free_shm_fuzz = 3
release_index killall = 4

-- How often something is released.
abbrev pub times : ℕ → List Release → ℕ
times i [] = 0
times i (r ∷ rs) = (if i == release_index r then 1 else 0) + times i rs

-- What the process owns when the loop starts.
pub record IsStarted (o : Owned) : Type 0 where
  pub stdin_file : o.stdin_file ≡ true
  pub remove_shm : o.remove_shm ≡ true
  pub shm_map : o.shm_map ≡ true
  pub support : o.support_shmem_fuzz ≡ true

-- Whether the process exits in the loop or at the end of main, everything is released exactly once.
pub at_exit_handler-times :
    (o : Owned) (r : Release)
    → IsStarted o
    → (times (release_index r) (unused_shmem o ++ at_exit_handler o) ≡ 1)
      × (times
            (release_index r)
            (unused_shmem o ++ ((end_of_main o).1 ++ at_exit_handler (end_of_main o).0))
          ≡ 1)
unfolding at_exit_handler end_of_main
at_exit_handler-times o r is =
    rw (is.stdin_file, is.remove_shm, is.shm_map, is.support) (each o.use_shmem_fuzz r)
  where
    each :
        (b : Bool) (r : Release)
        → (times (release_index r) (
              when (not b) deinit_shmem
              ++ (unlink_stdin_file ∷ ((deinit_shm ∷ when b deinit_shmem) ++ killall ∷ [])))
            ≡ 1)
          × (times (release_index r) (
                when (not b) deinit_shmem
                ++ ((unlink_stdin_file ∷ deinit_shm ∷ when b deinit_shmem) ++ killall ∷ []))
              ≡ 1)
    each true unlink_stdin_file = (refl, refl)
    each true deinit_shm = (refl, refl)
    each true deinit_shm_fuzz = (refl, refl)
    each true free_shm_fuzz = (refl, refl)
    each true killall = (refl, refl)
    each false unlink_stdin_file = (refl, refl)
    each false deinit_shm = (refl, refl)
    each false deinit_shm_fuzz = (refl, refl)
    each false free_shm_fuzz = (refl, refl)
    each false killall = (refl, refl)
