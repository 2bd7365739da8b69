-- ===== src/Server/Start.antt =====
-- From the options to the server: the rest of `main` of `ctfuzz/afl/ex-frsv.c` up to `run`.
pub mod Collects
use mathlib.Core.Path.{subst, sym}
use ctfuzz.Base.{
  Bool-cases, ℕ, ◌+◌, ◌≤◌, ◌<◌, ◌≡◌, refl, ap, ◌∙◌, Bool, true, false, ◌&&◌, ◌||◌, Option-cases,
  inl, inr, Option, none, some, List, [], ◌==◌, leb, if◌then◌else◌, if-true, if-false, length,
  arith,
}
use ctfuzz.Server.{Server, Ran, outside, serve, read_length, shared_mem_size}
use ctfuzz.Server.Laws.{IsReady}
use ctfuzz.Server.Args.{Chosen}
use ctfuzz.Server.Prepare.{init_tmout, crash_exitcode}
use ctfuzz.Base.Int.{ℤ}

-- What `main` calls, and what it finds. `new_map_size` is the answer of `afl_fsrv_get_mapsize`,
-- `started_map_size` the map size that `afl_fsrv_start` leaves. The flags are whether a call comes
-- back with what it is for: `set_up_environment`, `find_binary` (or `ck_strdup`), `afl_shm_init`
-- for the trace and for the input, `open` of `/dev/null`, `opendir` or `mkdir` of the output
-- directory, `open` of the file of the input, which must not be there yet, `afl_fsrv_start`, and
-- `init_sem_shm`, the first call of `run`. The numbers of `AFL_FORKSRV_INIT_TMOUT` and of
-- `AFL_CRASH_EXITCODE`, where they are set, are as `atoi` and `strtol` read them, the latter with
-- whether `errno` is `EINVAL` or `ERANGE`.
pub record Target : Type 0 where
  pub new_map_size : ℕ
  pub started_map_size : ℕ → ℕ
  pub malloc : ℕ → Option (List ℕ)
  pub environment : Bool
  pub target_path : Bool
  pub trace_bits : Bool
  pub shm_fuzz : Bool
  pub dev_null : Bool
  pub dir_out : Bool
  pub stdin_file : Bool
  pub fork_server : Bool
  pub sem_shm : Bool
  pub init_tmout_var : Option ℤ
  pub exitcode_var : Option (ℤ × Bool)

abbrev pub is_given : Option ℕ → Bool
is_given none = false
is_given (some n) = true

-- `if (getenv("AFL_FORKSRV_INIT_TMOUT"))`, and `if (getenv("AFL_CRASH_EXITCODE"))`
abbrev pub valid_tmout : Option ℤ → Bool
valid_tmout none = true
valid_tmout (some n) = is_given (init_tmout n)

abbrev pub valid_exitcode : Option (ℤ × Bool) → Bool
valid_exitcode none = true
valid_exitcode (some (n, is_error)) = is_given (crash_exitcode n is_error)

-- Whether no call and no variable on the way to the loop of `run` ends the process.
abbrev pub gets_to_run : Target → Bool
gets_to_run t =
    t.environment
    && (t.target_path
        && (t.trace_bits
            && (valid_tmout t.init_tmout_var
                && (valid_exitcode t.exitcode_var
                    && (t.shm_fuzz
                        && (t.dev_null && (t.stdin_file && (t.fork_server && t.sem_shm))))))))

-- The map size behind the question to the target, which CoreSight, QEMU and Unicorn do not ask.
abbrev pub acquired : Chosen → Target → ℕ → ℕ
acquired s t map_size =
    if s.qemu_mode || s.unicorn_mode
    then map_size
    else if t.new_map_size == 0
    then map_size
    else t.new_map_size

-- The globals at the call of `run`.
abbrev pub begun : Chosen → Target → ℕ → List ℕ → Server
begun s t size coverage_map = record {
  options = record {
    edges_only = if s.collect_coverage then false else s.edges_only;
    raw_instr_output = if s.collect_coverage then true else s.raw_instr_output;
    binary_mode = s.binary_mode;
    no_classify = s.no_classify;
  };
  map_size = t.started_map_size size;
  coverage_map = coverage_map;
  total = 0;
  highest = 0;
  have_coverage = false;
  child_crashed = false;
}

-- `if (!collect_coverage)`: the map of coverage stays `NULL` without it.
abbrev pub coverage_of : Chosen → Target → ℕ → Option (List ℕ)
coverage_of s t size =
    if s.collect_coverage then t.malloc (size + 64) else if t.dir_out then some [] else none

abbrev pub begun_with : Chosen → Target → ℕ → Option (List ℕ) → Option Server
begun_with s t size none = none
begun_with s t size (some coverage_map) = some (begun s t size coverage_map)

-- From the options to the call of `run`: `none` is the end of the process, or no call, without `in_dir`.
unfoldable pub start : Chosen → Target → ℕ → Option Server
start s t map_size = elim s.in_dir [
  | none ↦ none
  | some dir ↦
      let size = acquired s t map_size in
      if gets_to_run t then begun_with s t size (coverage_of s t size) else none
]

-- What a call of `run` shows of the way to it.
pub record Started (s : Chosen) (t : Target) (size : ℕ) (r : Server) : Type 0 where
  pub map_of : List ℕ
  pub given : coverage_of s t size ≡ some map_of
  pub same : r ≡ begun s t size map_of

begun_with-Started :
    (s : Chosen) (t : Target) (size : ℕ) (r : Server) (o : Option (List ℕ))
    → coverage_of s t size ≡ o
    → begun_with s t size o ≡ some r
    → Started s t size r
begun_with-Started s t size r none e h = cc
begun_with-Started s t size r (some m) e h = record { map_of = m; given = e; same = cc }

started :
    (s : Chosen) (t : Target) (map_size : ℕ) (r : Server)
    → start s t map_size ≡ some r
    → Started s t (acquired s t map_size) r
unfolding start
started s t map_size r e = elim (Option-cases s.in_dir) [
  | inl none_ ↦ cc (rw none_ at e)
  | inr (dir, given) ↦ elim (Bool-cases (gets_to_run t)) [
    | inl runs ↦
        let size = acquired s t map_size in
        begun_with-Started s t size r (coverage_of s t size) refl (
          sym (if-true (gets_to_run t) (begun_with s t size (coverage_of s t size)) none runs)
          ∙ (rw given at e))
    | inr ends ↦ cc (rw (given, ends) at e)
  ]
]

-- With `-C`, the room of the map.
room_of :
    (s : Chosen) (t : Target) (size : ℕ) (r : Server)
    → Started s t size r
    → s.collect_coverage ≡ true
    → ((n : ℕ) (m : List ℕ) → t.malloc n ≡ some m → length m ≡ n)
    → length r.coverage_map ≡ size + 64
room_of s t size r st coverage allocates =
    ap (λ u. length u.coverage_map) st.same
    ∙ allocates (size + 64) st.map_of
        (sym (if-true s.collect_coverage (t.malloc (size + 64)) _ coverage) ∙ st.given)

-- A server that collects coverage is ready for requests if the target's map has between 65472 and
-- 65536 bytes.
pub start-IsReady :
    (s : Chosen) (t : Target) (map_size : ℕ) (r : Server)
    → start s t map_size ≡ some r
    → s.collect_coverage ≡ true
    → ((n : ℕ) (m : List ℕ) → t.malloc n ≡ some m → length m ≡ n)
    → 65472 ≤ acquired s t map_size
    → t.started_map_size (acquired s t map_size) ≤ 65536
    → IsReady r
start-IsReady s t map_size r e coverage allocates large small =
    let size = acquired s t map_size in
    let st = started s t map_size r e in
    let long = room_of s t size r st coverage allocates in
    subst IsReady {x = begun s t size st.map_of} {y = r} (sym st.same) (record {
      edges = if-true s.collect_coverage false s.edges_only coverage;
      raw = if-true s.collect_coverage true s.raw_instr_output coverage;
      fits = small;
      room = subst (λ u. 65536 ≤ length u.coverage_map) st.same (omega (arith, large, long));
    })

not_room : (size : ℕ) → size < 65472 → leb 65536 (size + 64) ≡ false
not_room size small = ground (arith, small)

both-false : (a b : Bool) → b ≡ false → (a && b) ≡ false
both-false true b e = e
both-false false b e = refl

-- If the target's map has fewer than 65472 bytes, every request ends in an access out of bounds,
-- before the target runs: `run` clears and copies 65536 bytes of a map of `map_size + 64`.
pub start-serve-outside :
    (s : Chosen) (t : Target) (map_size : ℕ) (r : Server) (target : List ℕ → Ran) (mem : List ℕ)
    → start s t map_size ≡ some r
    → s.collect_coverage ≡ true
    → ((n : ℕ) (m : List ℕ) → t.malloc n ≡ some m → length m ≡ n)
    → acquired s t map_size < 65472
    → serve target r mem ≡ outside
unfolding serve
start-serve-outside s t map_size r target mem e coverage allocates small =
    let size = acquired s t map_size in
    let short = room_of s t size r (started s t map_size r e) coverage allocates in
    if-false _ _ _ (
      both-false (leb (read_length 4 0 mem + 4) shared_mem_size) (leb 65536 (length r.coverage_map))
        (rw short (not_room size small)))
