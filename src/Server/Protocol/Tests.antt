-- ===== src/Server/Protocol/Tests.antt =====
-- A client that has sent one request.
use ctfuzz.Base.{
  none, some, ℕ, ◌+◌, ◌≡◌, refl, true, false, List, [], ◌∷◌, length, length-replicate, replicate,
  drop, inl, inr, arith,
}
use ctfuzz.Server.{Server, Ran, shared_mem_size}
use ctfuzz.Server.Laws.{request, IsReady}
use ctfuzz.Server.Session.{IsServable}
use ctfuzz.Server.Protocol.{
  Link, posted, init_sem_shm, init_sem_shm_over, Reach, here, next, writes, releases,
}
use ctfuzz.Server.Protocol.Laws.{AreAnswers, IsExclusive, Reach-IsExclusive}
use ctfuzz.Server.Protocol.Progress.{Inevitable, IsAnswered, Reach-Inevitable}
use ctfuzz.Server.Protocol.Stale.{init_sem_shm_over-answer}

-- A target that hits the second byte of its map, and takes no time.
abbrev target : List ℕ → Ran
target bytes = record {
  run_error = false;
  trace_bits = 0 ∷ 7 ∷ [];
  last_run_timed_out = false;
  signaled = false;
  stop_soon = false;
  time_spent = 0;
}

abbrev server : Server
server = record {
  options = record {
    edges_only = false;
    raw_instr_output = true;
    binary_mode = false;
    no_classify = false;
  };
  map_size = 2;
  coverage_map = replicate 65600 0;
  total = 0;
  highest = 0;
  have_coverage = false;
  child_crashed = false;
}

server-IsReady : IsReady server
server-IsReady = record {
  edges = refl;
  raw = refl;
  fits = omega arith;
  room = rw (length-replicate {A = ℕ} 65600 0) (omega arith);
}

abbrev one_byte : List ℕ
one_byte = 65 ∷ []

one_byte-IsServable : IsServable target 2 one_byte
one_byte-IsServable = (omega arith, record { good = refl; going = refl; read = omega arith })

-- The request is in the memory, and `sem_input` is up.
abbrev asking : Link
asking = record (init_sem_shm server) {
  client = posted one_byte;
  shared_mem = request one_byte (drop (4 + length one_byte) (init_sem_shm server).shared_mem);
  sem_input = 1;
}

asking-Reach : Reach target (IsServable target 2) (init_sem_shm server) asking
asking-Reach =
    next (next here (writes one_byte one_byte-IsServable (omega arith) refl))
      (releases one_byte refl)

Reach-IsExclusive_example :
    AreAnswers target (IsServable target 2) 2 asking.answers × IsExclusive asking
Reach-IsExclusive_example =
    Reach-IsExclusive target (IsServable target 2) 2 (λ x good. good) server server-IsReady refl
      asking-Reach

Reach-Inevitable_example :
    Inevitable target
      (IsServable target 2)
      (IsAnswered target (IsServable target 2) 2 one_byte asking.answers)
      asking
Reach-Inevitable_example =
    Reach-Inevitable target (IsServable target 2) 2 server one_byte (λ x good. good) server-IsReady
      refl asking-Reach (inr (inl refl))

init_sem_shm_over-answer_example :
    (l : Link) × Reach target (IsServable target 2) (init_sem_shm_over none (some 1) server) l
    × (l.answers
        ≡ (one_byte, request one_byte (drop (4 + length one_byte) (replicate shared_mem_size 0)))
          ∷ [])
    × (l.server ≡ server)
init_sem_shm_over-answer_example =
    init_sem_shm_over-answer target (IsServable target 2) server none 1 one_byte (omega arith)
      one_byte-IsServable (omega arith)
