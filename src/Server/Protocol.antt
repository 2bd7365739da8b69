-- ===== src/Server/Protocol.antt =====
-- The client `Afl.run` of `ctfuzz/coverage/coverage.py` and the loop of `run` of
-- `ctfuzz/afl/ex-frsv.c`, two processes over the shared memory and the semaphores of `init_sem_shm`:
-- their steps in any order.
pub mod Turns
pub mod Laws
pub mod Progress
pub mod Stale
mod Tests
use ctfuzz.Base.{
  ℕ, ◌+◌, ◌-◌, ◌<◌, ◌≤◌, ◌≡◌, Option, none, some, List, [], ◌∷◌, length, drop, replicate,
}
use ctfuzz.Server.{Server, Ran, Served, answered, fatal, aborted, outside, serve, shared_mem_size}
use ctfuzz.Server.Laws.{request}

-- Where the client stands in `Afl.run`: outside of it, before `sem_input.release()`, before
-- `sem_output.acquire()`, and before it reads the shared memory.
pub data Client : Type 0 where
  idle : Client
  wrote posted woken : List ℕ → Client

-- Where the server stands in the loop: before `sem_wait`, before it reads the request, before
-- `sem_post`, and behind the end of the process.
pub data Loop : Type 0 where
  waiting taken served ended : Loop

-- Both processes, what they share, and the inputs with the answers that the client has read, the
-- newest first.
pub record Link : Type 0 where
  pub shared_mem : List ℕ
  pub sem_input : ℕ
  pub sem_output : ℕ
  pub client : Client
  pub loop : Loop
  pub server : Server
  pub answers : List (List ℕ × List ℕ)

-- `sem_open(name, O_CREAT, 0660, 0)`: the value of a semaphore of that name, which `O_CREAT` without
-- `O_EXCL` opens as it is, or 0 for a new one.
abbrev pub sem_open : Option ℕ → ℕ
sem_open none = 0
sem_open (some value) = value

-- `init_sem_shm`, over the values of the semaphores that are there under the two names.
abbrev pub init_sem_shm_over : Option ℕ → Option ℕ → Server → Link
init_sem_shm_over old_input old_output s = record {
  shared_mem = replicate shared_mem_size 0;
  sem_input = sem_open old_input;
  sem_output = sem_open old_output;
  client = idle;
  loop = waiting;
  server = s;
  answers = [];
}

-- `init_sem_shm` where neither is there.
abbrev pub init_sem_shm : Server → Link
init_sem_shm s = init_sem_shm_over none none s

-- The round ends the process.
abbrev pub Fails : Served → Type 0
Fails (answered t out) = ⊥
Fails fatal = Unit
Fails aborted = Unit
Fails outside = Unit

module _ (target : List ℕ → Ran) (Asks : List ℕ → Type 0) where
  -- One process does a step. The client sends inputs with `Asks`, which fit into the shared memory:
  -- `mmap.write` raises an exception for those that do not.
  pub data Step : Link → Link → Type 0 where
    writes :
        {l : Link} (input : List ℕ)
        → Asks input
        → 4 + length input ≤ shared_mem_size
        → l.client ≡ idle
        → Step l (record l {
          client = wrote input;
          shared_mem = request input (drop (4 + length input) l.shared_mem);
        })
    releases :
        {l : Link} (input : List ℕ)
        → l.client ≡ wrote input
        → Step l (record l { client = posted input; sem_input = l.sem_input + 1 })
    acquires :
        {l : Link} (input : List ℕ)
        → l.client ≡ posted input
        → 0 < l.sem_output
        → Step l (record l { client = woken input; sem_output = l.sem_output - 1 })
    reads :
        {l : Link} (input : List ℕ)
        → l.client ≡ woken input
        → Step l (record l { client = idle; answers = (input, l.shared_mem) ∷ l.answers })
    takes :
        {l : Link}
        → l.loop ≡ waiting
        → 0 < l.sem_input
        → Step l (record l { loop = taken; sem_input = l.sem_input - 1 })
    serves :
        {l : Link} (t : Server) (out : List ℕ)
        → l.loop ≡ taken
        → serve target l.server l.shared_mem ≡ answered t out
        → Step l (record l { loop = served; server = t; shared_mem = out })
    fails :
        {l : Link}
        → l.loop ≡ taken
        → Fails (serve target l.server l.shared_mem)
        → Step l (record l { loop = ended })
    posts :
        {l : Link}
        → l.loop ≡ served
        → Step l (record l { loop = waiting; sem_output = l.sem_output + 1 })

  pub data Reach (l : Link) : Link → Type 0 where
    here : Reach l l
    next : {m n : Link} → Reach l m → Step m n → Reach l n
