-- ===== src/Server/Tests.antt =====
-- One request of a client, and its answer.
use Prim.Native.Nat.{ℕ}
use ctfuzz.Base.{
  ap, ◌∙◌, sym, none, ◌≡◌, refl, some, map, true, false, List, [], ◌∷◌, arith, length,
  length-replicate, replicate, ◌≤◌,
}
use ctfuzz.Base.Int.{pos}
use ctfuzz.Base.Text.{codes}
use ctfuzz.Server.{outside}
use ctfuzz.Server.Args.{
  Opt, Chosen, Scans, chosen, parse, take_opts, take_opt, set_memory, initial, frida, coverage,
  input, output, memory,
}
use ctfuzz.Server.Args.Chooses.{Chooses}
use ctfuzz.Server.Args.Laws.{IsSane, parse-IsSane}
use ctfuzz.Server.Start.Collects.{session-start}
use ctfuzz.Server.Prepare.{crash_exitcode}
use ctfuzz.Server.Start.{Target, gets_to_run, start, begun, start-serve-outside}
use ctfuzz.Server.{Server, Ran, answered, serve}
use ctfuzz.Server.Session.{session, oracle, session-oracle}
use ctfuzz.Server.Laws.{request, reply, IsReady, IsComplete, IsStillReady, serve_lem}

-- A target that hits the third byte of its map five times and crashes.
abbrev target : List ℕ → Ran
target bytes = record {
  run_error = false;
  trace_bits = 1 ∷ 0 ∷ 5 ∷ 0 ∷ [];
  last_run_timed_out = false;
  signaled = true;
  stop_soon = false;
  time_spent = 300;
}

abbrev server : ℕ → Server
server size = record {
  options = record {
    edges_only = false;
    raw_instr_output = true;
    binary_mode = false;
    no_classify = true;
  };
  map_size = 4;
  coverage_map = replicate size 0;
  total = 0;
  highest = 0;
  have_coverage = false;
  child_crashed = false;
}

room : (n size : ℕ) → n ≤ size → n ≤ length (server size).coverage_map
room n size h = rw (length-replicate {A = ℕ} size 0) h

server-IsReady : IsReady (server 65600)
server-IsReady = record {
  edges = refl;
  raw = refl;
  fits = omega arith;
  room = room 65536 65600 (omega arith);
}

target-IsComplete : (bytes : List ℕ) → IsComplete 4 (target bytes)
target-IsComplete bytes = record { good = refl; going = refl; read = omega arith }

serve_lem_example :
    (t : Server) × (serve target (server 65600) (request (65 ∷ []) [])
      ≡ answered t (reply 4 (target (65 ∷ []))))
    × IsStillReady (server 65600) t
serve_lem_example =
    serve_lem target (server 65600) (65 ∷ []) [] server-IsReady (omega arith)
      (target-IsComplete (65 ∷ []))

session-oracle_example :
    session target (server 65600) [] ((65 ∷ []) ∷ [] ∷ [])
    ≡ some (map (oracle target 4) ((65 ∷ []) ∷ [] ∷ []))
session-oracle_example =
    session-oracle target (server 65600) [] ((65 ∷ []) ∷ [] ∷ []) server-IsReady
      ((omega arith, target-IsComplete (65 ∷ [])), ((omega arith, target-IsComplete []), tt))

-- The options of the client, and a limit of 50 megabytes.
abbrev client_opts : List Opt
client_opts =
    frida ∷ coverage ∷ input (codes "in") ∷ output (codes "out") ∷ memory (codes "50M") ∷ []

abbrev client : Chosen
client = record (initial 0 1000) {
  in_dir = some (codes "in");
  out_file = some (codes "out");
  frida_mode = true;
  mem_limit_given = true;
  mem_limit = 50;
}

abbrev lib : Scans
lib = record { sscanf = λ text. some (50, some b'M'); atoi = λ text. pos 0 }

client_is_parsed : parse lib 200 0 true client_opts (initial 0 1000) ≡ chosen client
unfolding parse take_opts take_opt set_memory
client_is_parsed = refl

parse-IsSane_example : Chooses IsSane (parse lib 200 0 true client_opts (initial 0 1000))
parse-IsSane_example =
    parse-IsSane lib 200 0 true client_opts (initial 0 1000)
      (record { exclusive = refl; memory_limit = λ given. cc; exec_timeout = λ given. cc })

-- A target with an answer and a map size, for which every call comes back.
abbrev target_of : ℕ → (ℕ → ℕ) → Target
target_of size map_size_of = record {
  new_map_size = size;
  started_map_size = map_size_of;
  malloc = λ n. some (replicate n 0);
  environment = true;
  target_path = true;
  trace_bits = true;
  shm_fuzz = true;
  dev_null = true;
  dir_out = true;
  stdin_file = true;
  fork_server = true;
  sem_shm = true;
  init_tmout_var = none;
  exitcode_var = some (pos 77, false);
}

-- A target that asks for 4096 bytes, and one that asks for 65536 and uses four of them.
abbrev small_target : Target
small_target = target_of 4096 (λ n. n)

abbrev large_target : Target
large_target = target_of 65536 (λ n. 4)

zeros : (n : ℕ) (m : List ℕ) → small_target.malloc n ≡ some m → length m ≡ n
zeros n m e =
    let same : replicate {A = ℕ} n 0 ≡ m = cc e in
    ap length (sym same) ∙ length-replicate {A = ℕ} n 0

large_runs : gets_to_run large_target ≡ true
unfolding crash_exitcode
large_runs = refl

small_started :
    start client small_target 65536 ≡ some (begun client small_target 4096 (replicate 4160 0))
unfolding start crash_exitcode
small_started = refl

session-start_example :
    (r : Server) × (start client large_target 65536 ≡ some r)
    × (session target r [] ((65 ∷ []) ∷ [] ∷ [])
        ≡ some (map (oracle target r.map_size) ((65 ∷ []) ∷ [] ∷ [])))
session-start_example =
    session-start lib 200 0 0 1000 true client_opts client (codes "in") large_target 65536
      (replicate 65600 0) target [] ((65 ∷ []) ∷ [] ∷ []) client_is_parsed refl large_runs refl
      zeros (omega arith) (omega arith)
      ((omega arith, target-IsComplete (65 ∷ [])), ((omega arith, target-IsComplete []), tt))

start-serve-outside_example :
    serve target (begun client small_target 4096 (replicate 4160 0)) (request (65 ∷ []) [])
    ≡ outside
start-serve-outside_example =
    start-serve-outside client small_target 65536
      (begun client small_target 4096 (replicate 4160 0)) target (request (65 ∷ []) [])
      small_started refl zeros (omega arith)
