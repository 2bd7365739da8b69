-- ===== src/Save/Judge/Fuel.antt =====
-- How often `save_if_interesting` goes back to queue a slow test case: each time, the run has
-- cleared bits of `virgin_tmout`, so that the sum of that map's bytes bounds the rounds.
use ctfuzz.Base.{
  ℕ, zero, suc, ◌-◌, ◌<◌, ◌≢◌, Bool, true, false, not, ◌||◌, List, ◌==◌, leb, ltb, Bool-cases, inl,
  inr, take, arith,
}
use ctfuzz.State.{Afl, Result, stop, out_of_fuel, virgin_bits, virgin_tmout, virgin_crash}
use ctfuzz.Bitmap.Novelty.{classify, has_new_bits_unclassified}
use ctfuzz.Bitmap.Novelty.Spec.{weight}
use ctfuzz.Save.Outcome.{Ends, Any, Ends-bind, Ends-map, Ends-if, Ends-fuel}
use ctfuzz.Save.Env.{Env}
use ctfuzz.Save.Keeps.{
  Keeps, Keeps-trans, IsEnv, classify-Keeps, create-Ends, describe_op-Ends, save_to_queue-Ends,
}
use ctfuzz.Save.Describe.{describe_op}
use ctfuzz.Save.Queue.{save_to_queue}
use ctfuzz.Save.Path.{update_path_frequency}
use ctfuzz.Save.Judge.{
  unique_in, save_crash, save_hang, returning, keep_as_crash, crash_name, hang_name, first_readme,
  Rerun, run_again, Verdict, crash, slow, drop, hang, verdict, conclude, new_timeout, judge_timeout,
  judge, expected_fault, save_if_interesting, inc64,
}
use ctfuzz.Save.Judge.Unique.{CanRun, CanRun-Keeps, Lighter, unique_in-Any, unique_tmout}
use ctfuzz.Save.Judge.Frame.{look_at_unclassified, update_path_frequency-Keeps}

module _ (env : Env) (laws : IsEnv env) where
  save_hang-Any : (mem : List ℕ) (len : ℕ) (s : Afl) → Ends Any (save_hang env mem len s)
  unfolding save_hang
  save_hang-Any mem len s =
      Ends-bind Any Any (describe_op env s 0 (env.name_max - 10)) _
        (describe_op-Ends env laws s _ _)
        (λ text h.
          Ends-map (Keeps _) Any _ (create-Ends env laws (hang_name env s text) (take len mem) _)
            (λ u k. tt))

  save_crash-Any : (mem : List ℕ) (len : ℕ) (s : Afl) → Ends Any (save_crash env mem len s)
  unfolding save_crash
  save_crash-Any mem len s =
      let u = first_readme env s in
      Ends-bind Any Any (describe_op env u 0 (env.name_max - 17)) _
        (describe_op-Ends env laws u _ _)
        (λ text h.
          Ends-map (Keeps _) Any _ (create-Ends env laws (crash_name env u text) (take len mem) _)
            (λ t k. tt))

  returning-Any : (keeping : ℕ) (r : Result Afl) → Ends Any r → Ends Any (returning keeping r)
  returning-Any keeping r h = Ends-bind Any Any r _ h (λ s h. tt)

  keep_as_crash-Any :
      (mem : List ℕ) (len : ℕ) (classified : Bool) (keeping : ℕ) (s : Afl)
      → Ends Any (keep_as_crash env mem len classified keeping s)
  unfolding keep_as_crash
  keep_as_crash-Any mem len classified keeping s =
      let counted = record s { total_crashes = inc64 s.total_crashes } in
      Ends-if Any (leb env.keep_unique_crash s.saved_crashes) _ _ (λ e. tt)
        (λ e.
          Ends-bind Any Any (unique_in env virgin_crash classified counted) _
            (unique_in-Any env laws virgin_crash classified counted)
            (λ p h.
              Ends-if Any p.0 _ _ (λ u. returning-Any keeping _ (save_crash-Any mem len p.1))
                (λ u. tt)))

  pub run_again-Keeps : (mem : List ℕ) (len : ℕ) (s : Afl) → Keeps s (run_again env mem len s).state
  unfolding run_again
  run_again-Keeps mem len s =
      let first = env.write_to_testcase mem len 0 s in
      let wrote = laws.writes mem len 0 s in
      let ran : (t : Afl)
          → Keeps s t
          → Keeps s (classify env.cov (env.fuzz_run_target s.hang_tmout t).1) =
        λ t k. Keeps-trans k (Keeps-trans (laws.runs s.hang_tmout t) (classify-Keeps env laws _)) in
      elim (Bool-cases (first.0 == 0)) [
        | inl twice ↦ rw twice (ran _ (Keeps-trans wrote (laws.writes first.1 len 1 first.2)))
        | inr once ↦ rw once (ran _ wrote)
      ]

  -- What the way back has to do for a bound `w` on the map of the known hangs.
  abbrev Returns : ℕ → (Rerun → Result (ℕ × Afl)) → Type 0
  Returns w again =
      (r : Rerun) → CanRun r.state → weight r.state.virgin_tmout < w → Ends Any (again r)

  conclude-Any :
      (w : ℕ) (again : Rerun → Result (ℕ × Afl)) (keeping : ℕ) (v : Verdict) (classified : Bool)
      (r : Rerun)
      → Returns w again
      → CanRun r.state
      → weight r.state.virgin_tmout < w
      → Ends Any (conclude env again keeping v classified r)
  unfolding conclude
  conclude-Any w again keeping crash classified r back can h =
      keep_as_crash-Any r.mem r.len classified keeping r.state
  conclude-Any w again keeping slow classified r back can h =
      back _
        (record {
          room = record { trace = can.room.trace; virgin = can.room.virgin };
          mode = can.mode;
        })
        h
  conclude-Any w again keeping drop classified r back can h = tt
  conclude-Any w again keeping hang classified r back can h =
      returning-Any keeping _ (save_hang-Any r.mem r.len r.state)

  new_timeout-Any :
      (w : ℕ) (again : Rerun → Result (ℕ × Afl)) (mem : List ℕ) (len : ℕ) (classified : Bool)
      (keeping : ℕ) (s : Afl)
      → Returns w again
      → CanRun s
      → weight s.virgin_tmout < w
      → Ends Any (new_timeout env again mem len classified keeping s)
  unfolding new_timeout
  new_timeout-Any w again mem len classified keeping s back can h =
      let r = run_again env mem len s in
      let kept = run_again-Keeps mem len s in
      Ends-if Any (ltb s.fsrv.exec_tmout s.hang_tmout) _ _
        (λ e.
          conclude-Any w again keeping (verdict env r.state r.new_fault) classified r back
            (CanRun-Keeps kept can) (rw kept.tmout h))
        (λ e. returning-Any keeping _ (save_hang-Any mem len s))

  judge_timeout-Any :
      (again : Rerun → Result (ℕ × Afl)) (mem : List ℕ) (len : ℕ) (classified : Bool) (keeping : ℕ)
      (s : Afl)
      → Returns (weight s.virgin_tmout) again
      → CanRun s
      → Ends Any (judge_timeout env again mem len classified keeping s)
  unfolding judge_timeout
  judge_timeout-Any again mem len classified keeping s back can =
      let counted = record s { total_tmouts = inc64 s.total_tmouts } in
      let w = weight s.virgin_tmout in
      Ends-if Any (leb env.keep_unique_hang s.saved_hangs) _ _ (λ e. tt)
        (λ e.
          Ends-bind (Lighter w) Any (unique_in env virgin_tmout classified counted) _
            (unique_tmout env laws classified counted (record {
              room = record { trace = can.room.trace; virgin = can.room.virgin };
              mode = can.mode;
            }))
            (λ p found.
              Ends-if Any p.0 _ _
                (λ new.
                  new_timeout-Any w again mem len (classified || not s.non_instrumented_mode)
                    keeping p.1 back found.can (found.lighter new))
                (λ u. tt)))

  judge-Any :
      (fault new_bits cksum fuel : ℕ) (mem : List ℕ) (len : ℕ) (classified : Bool) (keeping : ℕ)
      (s : Afl)
      → CanRun s
      → weight s.virgin_tmout < fuel
      → Ends Any (judge env fault new_bits cksum fuel mem len classified keeping s)
  unfolding judge
  judge-Any fault new_bits cksum zero mem len classified keeping s can h = absurd (omega arith)
  judge-Any fault new_bits cksum (suc fuel) mem len classified keeping s can h =
      Ends-if Any (fault == env.run_tmout) _ _
        (λ e.
          judge_timeout-Any _ mem len classified keeping s
            (λ r can' less.
              Ends-bind (Keeps r.state) Any
                (save_to_queue env r.mem r.len new_bits 0x80 cksum r.state) _
                (save_to_queue-Ends env laws r.mem r.len new_bits 0x80 cksum r.state)
                (λ t k.
                  judge-Any fault new_bits cksum fuel r.mem r.len _ 1 t (CanRun-Keeps k can')
                    (rw k.tmout (omega (arith, less, h)))))
            can)
        (λ e.
          Ends-if Any (fault == env.run_crash) _ _
            (λ e. keep_as_crash-Any mem len classified keeping s)
            (λ e. Ends-if Any (fault == env.run_error) _ _ (λ e. tt) (λ e. tt)))

  expected_fault-Any :
      (fuel : ℕ) (mem : List ℕ) (len fault cksum : ℕ) (s : Afl)
      → CanRun s
      → weight s.virgin_tmout < fuel
      → Ends Any (expected_fault env fuel mem len fault cksum s)
  unfolding expected_fault
  expected_fault-Any fuel mem len fault cksum s can h =
      Ends-bind (λ p. Keeps s p.1) Any (has_new_bits_unclassified env.cov s virgin_bits) _
        (look_at_unclassified env laws s)
        (λ p k.
          Ends-if Any (p.0 == 0) _ _ (λ e. tt)
            (λ e.
              Ends-bind (Keeps p.1) Any (save_to_queue env mem len p.0 0 cksum p.1) _
                (save_to_queue-Ends env laws mem len p.0 0 cksum p.1)
                (λ t k'.
                  judge-Any fault p.0 cksum fuel mem len true 1 t
                    (CanRun-Keeps (Keeps-trans k k') can) (rw ((Keeps-trans k k').tmout) h))))

  -- For a run that is instrumented, with its words and those of `virgin_tmout` in memory, more fuel
  -- than the sum of the bytes of `virgin_tmout` is enough for every fault: `save_if_interesting`
  -- goes back to `save_to_queue` a finite number of times, and then returns, ends the process, or
  -- makes an access out of bounds, which has no meaning in C.
  pub save_if_interesting-terminates :
      (fuel : ℕ) (mem : List ℕ) (len fault : ℕ) (s : Afl)
      → CanRun s
      → weight s.virgin_tmout < fuel
      → save_if_interesting env fuel mem len fault s ≢ stop out_of_fuel
  unfolding save_if_interesting
  save_if_interesting-terminates fuel mem len fault s can h = Ends-fuel Any _ (
      Ends-if Any (len == 0) _ _ (λ e. tt)
        (λ e.
          Ends-bind (λ p. Keeps s p.1) Any (update_path_frequency env s) _
            (update_path_frequency-Keeps env laws s)
            (λ p k.
              Ends-if Any (fault == p.1.crash_mode) _ _
                (λ e.
                  expected_fault-Any fuel mem len fault p.0 p.1 (CanRun-Keeps k can) (rw k.tmout h))
                (λ e.
                  judge-Any fault 0 p.0 fuel mem len false 0 p.1 (CanRun-Keeps k can)
                    (rw k.tmout h)))))
