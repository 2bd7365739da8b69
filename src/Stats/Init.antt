-- ===== src/Stats/Init.antt =====
-- `show_init_stats` of `ctfuzz/afl/afl-fuzz-stats.c`: what the dry run of the seeds says, and the
-- timeouts that it sets. `EXEC_TIMEOUT` and `EXEC_TM_ROUND` are those of `config.h`.
pub mod Laws
pub mod Survey
use ctfuzz.Base.{
  ℕ, zero, suc, ◌+◌, ◌-◌, ◌*◌, ◌/◌, ◌%◌, ◌^◌, min, Bool, true, false, not, ◌&&◌, ◌||◌, Option, none,
  some, List, [], ◌∷◌, ◌++◌, ◌==◌, leb, ltb, if◌then◌else◌,
}

-- A seed behind its calibration, of `struct queue_entry`.
pub record Seed : Type 0 where
  pub disabled : Bool
  pub exec_us : ℕ
  pub bitmap_size : ℕ
  pub len : ℕ

-- The local variables of the loop.
pub record Range : Type 0 where
  pub min_us : ℕ
  pub max_us : ℕ
  pub min_bits : ℕ
  pub max_bits : ℕ
  pub max_len : ℕ
  pub count : ℕ

abbrev pub lower : ℕ → ℕ → ℕ
lower n lowest = if lowest == 0 || ltb n lowest then n else lowest

abbrev pub higher : ℕ → ℕ → ℕ
higher n highest = if ltb highest n then n else highest

-- The body of the loop for a seed that is not disabled.
abbrev pub noted : Seed → Range → Range
noted q r = record {
  min_us = lower q.exec_us r.min_us;
  max_us = higher q.exec_us r.max_us;
  min_bits = lower q.bitmap_size r.min_bits;
  max_bits = higher q.bitmap_size r.max_bits;
  max_len = higher q.len r.max_len;
  count = (r.count + 1) % 2 ^ 32;
}

-- `for (i = 0; i < afl->queued_items; i++)`, over the seeds of `queue_buf`.
unfoldable pub survey : List Seed → Range → Range
survey [] r = r
survey (q ∷ seeds) r = survey seeds (if q.disabled then r else noted q r)

abbrev pub nothing_noted : Range
nothing_noted = record {
  min_us = 0;
  max_us = 0;
  min_bits = 0;
  max_bits = 0;
  max_len = 0;
  count = 0;
}

-- The part of the state that the function reads and sets.
pub record Session : Type 0 where
  pub seeds : List Seed
  pub total_cal_us : ℕ
  pub total_cal_cycles : ℕ
  pub slow_mode : Bool
  pub fixed_seed : Bool
  pub havoc_div : ℕ
  pub resuming_fuzz : Bool
  pub useless_at_start : ℕ
  pub in_bitmap : Bool
  pub queued_items : ℕ
  pub timeout_given : ℕ
  pub exec_tmout : ℕ
  pub hang_tmout : ℕ
  pub non_instrumented_mode : Bool
  pub afl_hang_tmout : Bool

-- The warnings, in the order of the text.
pub data Warning : Type 0 where
  slow_target huge_test_cases big_test_cases useless_test_cases far_too_many many_inputs : Warning

abbrev pub avg_us : Session → ℕ
avg_us s = if s.total_cal_cycles == 0 then 0 else s.total_cal_us / s.total_cal_cycles

abbrev pub warn_if : Bool → Warning → List Warning
warn_if b w = if b then w ∷ [] else []

abbrev pub warnings : Session → Range → List Warning
warnings s r =
    warn_if (ltb (if s.slow_mode then 50000 else 10000) (avg_us s)) slow_target
    ++ (if s.resuming_fuzz
        then []
        else (if ltb (50 * 1024) r.max_len
            then huge_test_cases ∷ []
            else warn_if (ltb (10 * 1024) r.max_len) big_test_cases)
          ++ (warn_if (not (s.useless_at_start == 0) && not s.in_bitmap) useless_test_cases
              ++ (if ltb 100 s.queued_items
                  then far_too_many ∷ []
                  else warn_if (ltb 20 s.queued_items) many_inputs)))

-- `havoc_div`
abbrev pub divisor : Session → ℕ
divisor s =
    let avg = avg_us s in
    if s.fixed_seed
    then 1
    else if ltb 50000 avg
    then 10
    else if ltb 20000 avg
    then 5
    else if ltb 10000 avg
    then 2
    else s.havoc_div

-- The multiplier of the average.
abbrev pub multiplier : Session → ℕ
multiplier s =
    let avg = avg_us s in
    if s.fixed_seed then 5 else if ltb 50000 avg then 2 else if ltb 10000 avg then 3 else 5

-- Rounded up, in `u32`; `EXEC_TM_ROUND` is not 0.
abbrev pub rounded : ℕ → ℕ → ℕ
rounded tm_round ms = (ms + tm_round) % 2 ^ 32 / tm_round * tm_round % 2 ^ 32

-- The timeout by the average and the slowest run.
abbrev pub guess : Session → Range → ℕ
guess s r =
    let by_avg = (avg_us s * multiplier s) % 2 ^ 64 / 1000 % 2 ^ 32 in
    (if leb by_avg (r.max_us / 1000) then r.max_us / 1000 else by_avg) % 2 ^ 32

module _ (exec_timeout tm_round : ℕ) where
  abbrev pub exec_tmout_of : Session → Range → ℕ
  exec_tmout_of s r =
      let ms = rounded tm_round (guess s r) in
      if s.timeout_given == 1
      then s.exec_tmout
      else if ltb exec_timeout ms
      then exec_timeout
      else ms

  -- `MIN((u32)EXEC_TIMEOUT, afl->fsrv.exec_tmout * 2 + 100)`
  abbrev pub hang_tmout_of : Session → ℕ → ℕ
  hang_tmout_of s exec_tmout =
      if s.non_instrumented_mode && not s.afl_hang_tmout
      then min exec_timeout ((exec_tmout * 2 + 100) % 2 ^ 32)
      else s.hang_tmout

  -- The state behind the call, and the warnings.
  unfoldable pub show_init_stats : Session → Session × List Warning
  show_init_stats s =
      let r = survey s.seeds nothing_noted in
      let exec_tmout = exec_tmout_of s r in
      (
        record s {
          havoc_div = divisor s;
          exec_tmout = exec_tmout;
          hang_tmout = hang_tmout_of s exec_tmout;
          timeout_given = if s.timeout_given == 1 then s.timeout_given else 1;
        },
        warnings s r,
      )
