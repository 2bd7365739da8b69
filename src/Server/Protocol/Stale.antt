-- ===== src/Server/Protocol/Stale.antt =====
-- A semaphore that was left up: `sem_open` with `O_CREAT` alone opens the one that is
-- there, with its value.
use ctfuzz.Base.{ℕ, ◌+◌, ◌<◌, ◌≤◌, ◌≡◌, Option, some, refl, List, [], ◌∷◌, length, drop, replicate}
use ctfuzz.Server.{Server, Ran, shared_mem_size}
use ctfuzz.Server.Laws.{request}
use ctfuzz.Server.Protocol.{
  Link, init_sem_shm_over, writes, releases, acquires, reads, Reach, here, next,
}

-- If a semaphore of the name of `sem_output` is there and is up when the server starts, `init_sem_shm`
-- opens it as it is, and the client's first request, whatever it is, if it fits, can be answered by
-- itself: the client reads its own length and input back as the status, the time and the coverage of a
-- run, and the target has not run.
pub init_sem_shm_over-answer :
    (target : List ℕ → Ran) (Asks : List ℕ → Type 0) (s : Server) (old_input : Option ℕ) (value : ℕ)
    (input : List ℕ)
    → 0 < value
    → Asks input
    → 4 + length input ≤ shared_mem_size
    → (l : Link) × Reach target Asks (init_sem_shm_over old_input (some value) s) l
      × (l.answers
          ≡ (input, request input (drop (4 + length input) (replicate shared_mem_size 0))) ∷ [])
      × (l.server ≡ s)
init_sem_shm_over-answer target Asks s old_input value input up asks fits = (
  _,
  next
      (next (next (next here (writes input asks fits refl)) (releases input refl))
        (acquires input refl up))
      (reads input refl),
  refl,
  refl,
)
