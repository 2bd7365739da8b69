-- ===== src/Server.antt =====
-- The fork server of `ctfuzz/afl/ex-frsv.c`: how it serves one request of the client over the shared
-- memory. The target is a parameter: `afl_fsrv_write_to_testcase` and `afl_fsrv_run_target`.
pub mod Laws
pub mod Session
pub mod Protocol
pub mod Args
pub mod Start
pub mod Prepare
pub mod Shutdown
mod Tests
use ctfuzz.Base.{
  ℕ, zero, suc, ◌+◌, ◌*◌, ◌/◌, ◌%◌, ◌^◌, Bool, true, false, not, ◌&&◌, ◌||◌, Option, none, some,
  List, [], ◌∷◌, ◌++◌, ◌==◌, leb, ltb, if◌then◌else◌, length, take, drop, ◌-◌, replicate,
}

-- The flags of the command line that the run reads.
pub record Options : Type 0 where
  pub edges_only : Bool
  pub raw_instr_output : Bool
  pub binary_mode : Bool
  pub no_classify : Bool

-- The globals. `coverage_map` is what is allocated, of `map_size + 64` bytes.
pub record Server : Type 0 where
  pub options : Options
  pub map_size : ℕ
  pub coverage_map : List ℕ
  pub total : ℕ
  pub highest : ℕ
  pub have_coverage : Bool
  pub child_crashed : Bool

-- A run of the target: `FSRV_RUN_ERROR`, the trace, `last_run_timed_out`, `WIFSIGNALED`, whether the
-- user stopped it, and the clock ticks it took.
pub record Ran : Type 0 where
  pub run_error : Bool
  pub trace_bits : List ℕ
  pub last_run_timed_out : Bool
  pub signaled : Bool
  pub stop_soon : Bool
  pub time_spent : ℕ

-- How a request ends: with an answer in the shared memory, by `FATAL`, by `exit(1)`, or with an
-- access out of bounds.
pub data Served : Type 0 where
  answered : Server → List ℕ → Served
  fatal aborted outside : Served

abbrev pub shared_mem_size : ℕ
shared_mem_size = 65541

unfoldable pub count_class_human : ℕ → ℕ
count_class_human b =
    if leb b 4
    then b
    else if b == 8
    then 5
    else if b == 16
    then 6
    else if b == 32
    then 7
    else if b == 128
    then 8
    else 0

unfoldable pub count_class_binary : ℕ → ℕ
count_class_binary b =
    if leb b 2
    then b
    else if b == 3
    then 4
    else if leb b 7
    then 8
    else if leb b 15
    then 16
    else if leb b 31
    then 32
    else if leb b 127
    then 64
    else 128

-- `while (i--)` over the trace; `none` is an access out of bounds.
unfoldable pub reclass : (ℕ → ℕ) → ℕ → List ℕ → Option (List ℕ)
reclass f zero mem = some mem
reclass f (suc i) [] = none
reclass f (suc i) (b ∷ bs) = elim (reclass f i bs) [ none ↦ none | some rest ↦ some (f b ∷ rest) ]

unfoldable pub classify_counts : Options → ℕ → List ℕ → Option (List ℕ)
classify_counts o map_size mem =
    if o.edges_only
    then reclass (λ b. if b == 0 then 0 else 1) map_size mem
    else if o.raw_instr_output
    then some mem
    else reclass (if o.binary_mode then count_class_binary else count_class_human) map_size mem

-- The coverage, `total` and `highest`.
abbrev pub Analysis : Type 0
Analysis = List ℕ × ℕ × ℕ

abbrev pub with_byte : ℕ → Option Analysis → Option Analysis
with_byte c none = none
with_byte c (some (cs, total, highest)) = some (c ∷ cs, total, highest)

-- `for (i = 0; i < map_size; i++)`, with `left` rounds to go.
unfoldable pub analyze_results : ℕ → List ℕ → List ℕ → ℕ → ℕ → Option Analysis
analyze_results zero trace cov total highest = some (cov, total, highest)
analyze_results (suc left) [] cov total highest = none
analyze_results (suc left) (b ∷ bs) [] total highest = none
analyze_results (suc left) (b ∷ bs) (c ∷ cs) total highest =
    with_byte (if b == 0 then c else if c == 0 then 1 else c)
      (analyze_results left bs cs ((total + b) % 2 ^ 64) (if ltb highest b then b else highest))

-- `in_len = in_len * 256 + input[i]`, over the first `left` bytes.
unfoldable pub read_length : ℕ → ℕ → List ℕ → ℕ
read_length zero in_len input = in_len
read_length (suc left) in_len [] = in_len
read_length (suc left) in_len (b ∷ bs) = read_length left ((in_len * 256 + b) % 2 ^ 32) bs

-- `trace_bits[0] == 1` is a mark of the instrumentation, and taken out.
abbrev pub has_mark : List ℕ → Bool
has_mark [] = false
has_mark (b ∷ bs) = b == 1

abbrev pub unmarked : List ℕ → List ℕ
unmarked [] = []
unmarked (b ∷ bs) = (if b == 1 then 0 else b) ∷ bs

abbrev pub bit : Bool → ℕ
bit true = 1
bit false = 0

-- `memset(coverage_map, 0, 65536)`
unfoldable pub cleared : List ℕ → List ℕ
cleared cov = replicate 65536 0 ++ drop 65536 cov

-- `output[0]` to `output[4]`
abbrev pub status_and_time : Bool → Bool → ℕ → List ℕ
status_and_time crashed timed_out time =
    (bit crashed * 2 + bit timed_out)
    ∷ (time / 2 ^ 24 % 256)
    ∷ (time / 2 ^ 16 % 256)
    ∷ (time / 2 ^ 8 % 256)
    ∷ (time % 256)
    ∷ []

-- The whole shared memory with the answer in it.
unfoldable pub answer : Bool → Bool → ℕ → List ℕ → List ℕ
answer crashed timed_out time cov =
    status_and_time crashed timed_out time ++ take (shared_mem_size - 5) cov

abbrev pub crashed : Ran → Bool
crashed ran = not ran.last_run_timed_out && not ran.stop_soon && ran.signaled

-- What follows `analyze_results`.
unfoldable pub finished : Server → Ran → Option Analysis → Served
finished s ran none = outside
finished s ran (some (cov, total, highest)) =
    answered
      (record s {
        coverage_map = cov;
        total = total;
        highest = highest;
        have_coverage = has_mark ran.trace_bits;
        child_crashed = crashed ran;
      })
      (answer (crashed ran) ran.last_run_timed_out ran.time_spent cov)

-- What follows the classification.
unfoldable pub analyzed : Server → Ran → Option (List ℕ) → Served
analyzed s ran none = outside
analyzed s ran (some trace) =
    let analysis = analyze_results s.map_size trace (cleared s.coverage_map) s.total s.highest in
    if ran.stop_soon then aborted else finished s ran analysis

-- `showmap_run_target_forkserver` from the run on.
unfoldable pub after_run : Server → Ran → Served
after_run s ran =
    let trace = unmarked ran.trace_bits in
    if ran.run_error
    then fatal
    else analyzed s ran
        (if s.options.no_classify then some trace else classify_counts s.options s.map_size trace)

-- One round of the loop of `run`, from a request to its answer. The copy of the input needs
-- `in_len` bytes behind the length, and the coverage map needs the bytes that are cleared and copied.
unfoldable pub serve : (List ℕ → Ran) → Server → List ℕ → Served
serve target s shared_mem =
    let in_len = read_length 4 0 shared_mem in
    if leb (in_len + 4) shared_mem_size && leb 65536 (length s.coverage_map)
    then after_run s (target (take in_len (drop 4 shared_mem)))
    else outside
