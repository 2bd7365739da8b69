-- ===== src/Server/Laws.antt =====
-- What the client gets for its request.
use ctfuzz.Base.{
  if-true, if-false, ℕ, zero, suc, ◌+◌, ◌-◌, ◌/◌, ◌%◌, ◌^◌, ◌≤◌, ◌<◌, ◌≡◌, refl, ap, ◌∙◌, Bool,
  true, false, ◌&&◌, some, List, [], ◌∷◌, ◌++◌, leb, ltb, if◌then◌else◌, length, length-append,
  length-replicate, take, drop, replicate, arith, Bool-cases, inl, inr,
}
use mathlib.Core.Path.{sym}
use mathlib.Core.List.{append_assoc}
use ctfuzz.Save.Path.Laws.{hits, replicate-split}
use ctfuzz.Server.{
  outside, shared_mem_size, crashed, finished, analyzed, cleared, status_and_time, Server, Ran,
  answered, analyze_results, read_length, unmarked, answer, after_run, serve, classify_counts,
  has_mark,
}

-- `struct.pack(">I", n)`
abbrev pub big_endian : ℕ → List ℕ
big_endian n = n / 2 ^ 24 ∷ n / 2 ^ 16 % 256 ∷ n / 2 ^ 8 % 256 ∷ n % 256 ∷ []

read_length-big_endian :
    (n : ℕ) (rest : List ℕ) → n < 2 ^ 32 → read_length 4 0 (big_endian n ++ rest) ≡ n
unfolding read_length
read_length-big_endian n rest h = omega arith

take-append : (xs ys : List ℕ) → take (length xs) (xs ++ ys) ≡ xs
take-append [] ys = refl
take-append (x ∷ xs) ys = ap (λ t. x ∷ t) (take-append xs ys)

analyze_results_lem :
    (n : ℕ) (trace rest : List ℕ) (total highest : ℕ)
    → n ≤ length trace
    → (sums : ℕ × ℕ) × (analyze_results n trace (replicate n 0 ++ rest) total highest
        ≡ some (hits n trace ++ rest, sums.0, sums.1))
unfolding analyze_results
analyze_results_lem zero trace rest total highest h = ((total, highest), refl)
analyze_results_lem (suc n) [] rest total highest h = absurd (omega arith)
analyze_results_lem (suc n) (b ∷ bs) rest total highest h =
    let later =
      analyze_results_lem n bs rest ((total + b) % 2 ^ 64) (if ltb highest b then b else highest)
        (omega arith) in
    (later.0, rw later.1 refl)

take-append_eq : (n : ℕ) (xs ys : List ℕ) → n ≡ length xs → take n (xs ++ ys) ≡ xs
take-append_eq n xs ys e = rw e (take-append xs ys)

length-hits : (n : ℕ) (trace : List ℕ) → n ≤ length trace → length (hits n trace) ≡ n
length-hits zero trace h = refl
length-hits (suc n) [] h = absurd (omega arith)
length-hits (suc n) (b ∷ bs) h = ap suc (length-hits n bs (omega arith))

-- The coverage that the client reads: 1 for each byte of the map that the run hit.
abbrev pub coverage : ℕ → List ℕ → List ℕ
coverage map_size trace = hits map_size trace ++ replicate (65536 - map_size) 0

length-coverage :
    (m : ℕ) (trace : List ℕ) → m ≤ length trace → m ≤ 65536 → 65536 ≡ length (coverage m trace)
length-coverage m trace read fits = omega (
  arith,
  length-append (hits m trace) (replicate {A = ℕ} (65536 - m) 0),
  length-hits m trace read,
  length-replicate {A = ℕ} (65536 - m) 0,
)

-- The answer to a run that neither failed nor was stopped.
abbrev pub reply : ℕ → Ran → List ℕ
reply map_size ran =
    status_and_time (crashed ran) ran.last_run_timed_out ran.time_spent
    ++ coverage map_size (unmarked ran.trace_bits)

zeros-split :
    (m total : ℕ) (rest : List ℕ)
    → m ≤ total
    → replicate {A = ℕ} total 0 ++ rest
      ≡ replicate {A = ℕ} m 0 ++ (replicate {A = ℕ} (total - m) 0 ++ rest)
zeros-split m total rest fits =
    ap (λ zs. zs ++ rest) (replicate-split m total fits)
    ∙ append_assoc (replicate m 0) (replicate (total - m) 0) rest

cleared-split :
    (m : ℕ) (cov : List ℕ)
    → m ≤ 65536
    → cleared cov ≡ replicate m 0 ++ (replicate {A = ℕ} (65536 - m) 0 ++ drop 65536 cov)
unfolding cleared
cleared-split m cov fits = zeros-split m 65536 (drop 65536 cov) fits

answer_lem :
    (c t : Bool) (time m : ℕ) (trace rest : List ℕ)
    → m ≤ length trace
    → m ≤ 65536
    → answer c t time (hits m trace ++ (replicate (65536 - m) 0 ++ rest))
      ≡ status_and_time c t time ++ coverage m trace
unfolding answer
answer_lem c t time m trace rest read fits =
    ap (λ cov. status_and_time c t time ++ cov)
      (ap (take 65536) (sym (append_assoc (hits m trace) (replicate (65536 - m) 0) rest))
        ∙ take-append_eq 65536 (coverage m trace) rest (length-coverage m trace read fits))

fits_both : (a b c d : ℕ) → a ≤ b → c ≤ d → (leb a b && leb c d) ≡ true
fits_both a b c d first second = ground arith

-- A server with the options that the client gives, and a map within the shared memory.
pub record IsReady (s : Server) : Type 0 where
  pub edges : s.options.edges_only ≡ false
  pub raw : s.options.raw_instr_output ≡ true
  pub fits : s.map_size ≤ 65536
  pub room : 65536 ≤ length s.coverage_map

-- A run that neither fails nor is stopped, and that leaves a trace of the whole map.
pub record IsComplete (map_size : ℕ) (ran : Ran) : Type 0 where
  pub good : ran.run_error ≡ false
  pub going : ran.stop_soon ≡ false
  pub read : map_size ≤ length (unmarked ran.trace_bits)

-- The state behind an answer: ready for the next request, with the same map.
pub record IsStillReady (s t : Server) : Type 0 where
  pub ready : IsReady t
  pub same_size : t.map_size ≡ s.map_size

analyzed_lem :
    (s : Server) (ran : Ran)
    → IsReady s
    → IsComplete s.map_size ran
    → (t : Server) × (analyzed s ran (some (unmarked ran.trace_bits))
        ≡ answered t (reply s.map_size ran))
      × IsStillReady s t
unfolding analyzed finished
analyzed_lem s ran is done =
    let trace = unmarked ran.trace_bits in
    let zeros = replicate {A = ℕ} (65536 - s.map_size) 0 in
    let behind = drop 65536 s.coverage_map in
    let analysis =
      analyze_results_lem s.map_size trace (zeros ++ behind) s.total s.highest done.read in
    let t = record s {
      coverage_map = hits s.map_size trace ++ (zeros ++ behind);
      total = analysis.0.0;
      highest = analysis.0.1;
      have_coverage = has_mark ran.trace_bits;
      child_crashed = crashed ran;
    } in
    (
      t,
      if-false ran.stop_soon _ _ done.going
          ∙ ap (finished s ran) (
              ap (λ cov. analyze_results s.map_size trace cov s.total s.highest)
                (cleared-split s.map_size s.coverage_map is.fits)
              ∙ analysis.1)
          ∙ ap (λ out. answered t out)
              (answer_lem (crashed ran) ran.last_run_timed_out ran.time_spent s.map_size trace
                behind done.read is.fits),
      record {
        ready = record {
          edges = is.edges;
          raw = is.raw;
          fits = is.fits;
          room = omega (
            arith,
            is.fits,
            length-append (hits s.map_size trace) (zeros ++ behind),
            length-append zeros behind,
            length-hits s.map_size trace done.read,
            length-replicate {A = ℕ} (65536 - s.map_size) 0,
          );
        };
        same_size = refl;
      },
    )

unclassified :
    (s : Server) (trace : List ℕ)
    → s.options.edges_only ≡ false
    → s.options.raw_instr_output ≡ true
    → (if s.options.no_classify then some trace else classify_counts s.options s.map_size trace)
      ≡ some trace
unfolding classify_counts
unclassified s trace edges raw = elim (Bool-cases s.options.no_classify) [
  | inl skips ↦ rw skips refl
  | inr does ↦ rw (does, edges, raw) refl
]

after_run_lem :
    (s : Server) (ran : Ran)
    → IsReady s
    → IsComplete s.map_size ran
    → (t : Server) × (after_run s ran ≡ answered t (reply s.map_size ran)) × IsStillReady s t
unfolding after_run classify_counts
after_run_lem s ran is done =
    let answers = analyzed_lem s ran is done in
    (
      answers.0,
      if-false ran.run_error _ _ done.good
          ∙ ap (analyzed s ran) (unclassified s (unmarked ran.trace_bits) is.edges is.raw)
          ∙ answers.1,
      answers.2,
    )

-- A request as the client writes it into the shared memory, before what was there.
abbrev pub request : List ℕ → List ℕ → List ℕ
request input rest = big_endian (length input) ++ (input ++ rest)

-- With the options that the client gives, a map of at most 65536 bytes and an input that fits into
-- the shared memory, a run that neither fails nor is stopped is answered: the target is given exactly
-- the client's input, the answer is the status, the time and which bytes of the map the run hit, and
-- the server is ready for the next request.
pub serve_lem :
    (target : List ℕ → Ran) (s : Server) (input rest : List ℕ)
    → IsReady s
    → length input ≤ 65537
    → IsComplete s.map_size (target input)
    → (t : Server) × (serve target s (request input rest)
        ≡ answered t (reply s.map_size (target input)))
      × IsStillReady s t
unfolding serve
serve_lem target s input rest is short done =
    let answers = after_run_lem s (target input) is done in
    (
      answers.0,
      ap
            (λ n.
              if leb (n + 4) shared_mem_size && leb 65536 (length s.coverage_map)
              then after_run s (target (take n (input ++ rest)))
              else outside)
            (read_length-big_endian (length input) (input ++ rest) (omega (arith, short)))
          ∙ if-true _ _ _ (
              fits_both (length input + 4) shared_mem_size 65536 (length s.coverage_map)
                (omega (arith, short)) is.room)
          ∙ ap (λ i. after_run s (target i)) (take-append input rest)
          ∙ answers.1,
      answers.2,
    )
