-- ===== src/Stats/Init/Laws.antt =====
-- The timeout that a session starts with, and what the loop over the seeds finds.
use Prim.Native.Nat.{max}
use native.Mathlib.Nat.{mod-eq_of_lt, mul-mod_left, div-mul-le_self, lt-div-mul-add}
use ctfuzz.Base.{
  ℕ, ◌+◌, ◌*◌, ◌/◌, ◌%◌, ◌^◌, ◌≤◌, ◌<◌, ◌≡◌, ◌≢◌, refl, ◌∙◌, min, Bool, true, false, not, ◌&&◌, ◌⊎◌,
  inl, inr, ◌==◌, leb, ltb, if◌then◌else◌, if-false, arith,
}
use ctfuzz.Stats.Init.{
  Range, survey, nothing_noted, Session, avg_us, multiplier, rounded, guess, show_init_stats,
}

-- The estimate: 2, 3 or 5 times the average, or the slowest run.
abbrev pub estimate : Session → Range → ℕ
estimate s r = max (avg_us s * multiplier s / 1000) (r.max_us / 1000)

-- `n` is the next multiple of `tm_round` above `ms`.
pub record IsNextMultiple (tm_round ms n : ℕ) : Type 0 where
  pub multiple : n % tm_round ≡ 0
  pub above : ms < n
  pub near : n ≤ ms + tm_round

rounded_lem :
    (tm_round ms : ℕ)
    → 0 < tm_round
    → ms + tm_round < 2 ^ 32
    → IsNextMultiple tm_round ms (rounded tm_round ms)
rounded_lem tm_round ms pos fits =
    let q = (ms + tm_round) / tm_round in
    let exact : rounded tm_round ms ≡ q * tm_round =
      rw (mod-eq_of_lt {n = ms + tm_round} {m = 2 ^ 32} fits) (
        mod-eq_of_lt {n = q * tm_round} {m = 2 ^ 32}
          (omega (arith, fits, div-mul-le_self (ms + tm_round) tm_round))) in
    record {
      multiple = rw exact (mul-mod_left q tm_round);
      above = omega (arith, exact, lt-div-mul-add {a = ms + tm_round} {b = tm_round} pos);
      near = omega (arith, exact, div-mul-le_self (ms + tm_round) tm_round);
    }

larger :
    (p m : ℕ)
    → p < 2 ^ 64
    → max (p / 1000) (m / 1000) < 2 ^ 32
    → (if leb (p % 2 ^ 64 / 1000 % 2 ^ 32) (m / 1000) then m / 1000 else p % 2 ^ 64 / 1000 % 2 ^ 32)
        % 2 ^ 32
      ≡ max (p / 1000) (m / 1000)
larger p m small fits = ground (arith, small, fits)

guess_lem :
    (s : Session) (r : Range)
    → avg_us s * multiplier s < 2 ^ 64
    → estimate s r < 2 ^ 32
    → guess s r ≡ estimate s r
guess_lem s r small fits = larger (avg_us s * multiplier s) r.max_us small fits

capped : (cap n : ℕ) → (if ltb cap n then cap else n) ≡ min cap n
capped cap n = ground arith

other_than_one : (n : ℕ) → n ≢ 1 → (n == 1) ≡ false
other_than_one n h = ground (arith, h)

min_or :
    (cap x h : ℕ) (b : Bool)
    → ((if b then min cap x else h) ≤ cap) ⊎ ((if b then min cap x else h) ≡ h)
min_or cap x h true = inl (omega arith)
min_or cap x h false = inr refl

-- Without `-t`, and where the estimate fits into the timeout's `u32`, the timeout is the estimate
-- rounded up to the next multiple of `EXEC_TM_ROUND` above it, capped at `EXEC_TIMEOUT`; the hang
-- timeout is at most `EXEC_TIMEOUT` or as it was; and the timeout counts as given from then on. A
-- timeout of a resumed session, where `timeout_given` is 3, is replaced too.
pub show_init_stats-timeouts :
    (exec_timeout tm_round : ℕ) (s : Session)
    → 0 < tm_round
    → s.timeout_given ≢ 1
    → avg_us s * multiplier s < 2 ^ 64
    → estimate s (survey s.seeds nothing_noted) + tm_round < 2 ^ 32
    → let t = (show_init_stats exec_timeout tm_round s).0 in
      ((n : ℕ) × IsNextMultiple tm_round (estimate s (survey s.seeds nothing_noted)) n
        × (t.exec_tmout ≡ min exec_timeout n))
      × ((t.hang_tmout ≤ exec_timeout) ⊎ (t.hang_tmout ≡ s.hang_tmout))
      × (t.timeout_given ≡ 1)
unfolding show_init_stats
show_init_stats-timeouts exec_timeout tm_round s pos free small fits =
    let r = survey s.seeds nothing_noted in
    let ms = rounded tm_round (guess s r) in
    let guessed = guess_lem s r small (omega (arith, fits)) in
    let no_timeout = other_than_one s.timeout_given free in
    (
      (
        ms,
        rw guessed (rounded_lem tm_round (estimate s r) pos fits),
        if-false (s.timeout_given == 1) s.exec_tmout _ no_timeout ∙ capped exec_timeout ms,
      ),
      min_or exec_timeout _ s.hang_tmout (s.non_instrumented_mode && not s.afl_hang_tmout),
      if-false (s.timeout_given == 1) s.timeout_given 1 no_timeout,
    )
