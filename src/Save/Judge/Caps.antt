-- ===== src/Save/Judge/Caps.antt =====
-- A call of `save_if_interesting` saves one crash or one hang at most, and none over the limits.
use ctfuzz.Base.{
  ℕ, zero, suc, ◌^◌, ◌<◌, ◌≡◌, refl, ap, ◌∙◌, inl, inr, Bool, true, false, not, ◌||◌, List, ◌==◌,
  leb, ltb, if◌then◌else◌,
}
use ctfuzz.State.{Afl, Result, virgin_bits, virgin_tmout, virgin_crash}
use ctfuzz.Bitmap.Novelty.{has_new_bits_unclassified}
use ctfuzz.Bitmap.Novelty.Spec.{weight}
use ctfuzz.Save.Outcome.{Ends, Yields-bind, Yields-if, Yields-Ends, Ends-Yields}
use ctfuzz.Save.Env.{Env}
use ctfuzz.Save.Keeps.{Keeps, IsEnv, save_to_queue-Ends}
use ctfuzz.Save.Queue.{save_to_queue}
use ctfuzz.Save.Path.{update_path_frequency}
use ctfuzz.Save.Judge.{
  unique_in, save_crash, save_hang, returning, keep_as_crash, Rerun, run_again, Verdict, crash,
  slow, drop, hang, verdict, conclude, new_timeout, judge_timeout, judge, expected_fault,
  save_if_interesting, inc64,
}
use ctfuzz.Save.Judge.Unique.{CanRun}
use ctfuzz.Save.Judge.Frame.{look_at_unclassified, update_path_frequency-Keeps}
use ctfuzz.Save.Judge.Fuel.{run_again-Keeps, save_if_interesting-terminates}
use ctfuzz.Save.Judge.Counts.{
  IsSame, IsSame-Keeps, IsSame-trans, IsSame-refl, no_wrap, Saves, SavesTo, SavesTo-IsSame,
  IsSame-if, unique_in-IsSame, save_crash-count, save_hang-count,
}

-- The limits of `config.h` fit into a `u64`.
pub record IsSmall (env : Env) : Type 0 where
  pub crashes : env.keep_unique_crash < 2 ^ 64
  pub hangs : env.keep_unique_hang < 2 ^ 64

module _ (env : Env) (laws : IsEnv env) (small : IsSmall env) where
  keep_as_crash-SavesTo :
      (mem : List ℕ) (len : ℕ) (classified : Bool) (keeping : ℕ) (s : Afl)
      → SavesTo env laws s (keep_as_crash env mem len classified keeping s)
  unfolding keep_as_crash
  keep_as_crash-SavesTo mem len classified keeping s =
      let counted = record s { total_crashes = inc64 s.total_crashes } in
      let old : IsSame s counted = record { crashes = refl; hangs = refl } in
      Yields-if (λ p. Saves env laws s p.1) (leb env.keep_unique_crash s.saved_crashes) _ _
        (λ e. inl old)
        (λ room.
          let fits = no_wrap s.saved_crashes env.keep_unique_crash room small.crashes in
          Yields-bind (λ p. IsSame counted p.1) (λ p. Saves env laws s p.1)
            (unique_in env virgin_crash classified counted) _
            (unique_in-IsSame env laws virgin_crash classified counted)
            (λ p same.
              Yields-if (λ q. Saves env laws s q.1) p.0 _ _
                (λ u.
                  Yields-bind _ (λ q. Saves env laws s q.1) (save_crash env mem len p.1) _
                    (save_crash-count env laws mem len p.1)
                    (λ t h.
                      inr (inl (fits.0, h.0 ∙ ap inc64 same.crashes ∙ fits.1, h.1 ∙ same.hangs))))
                (λ u. inl (IsSame-trans old same))))

  -- A hang is saved where there is room for it.
  saved_hang-SavesTo :
      (mem : List ℕ) (len keeping : ℕ) (s : Afl)
      → leb env.keep_unique_hang s.saved_hangs ≡ false
      → SavesTo env laws s (returning keeping (save_hang env mem len s))
  saved_hang-SavesTo mem len keeping s room =
      let fits = no_wrap s.saved_hangs env.keep_unique_hang room small.hangs in
      Yields-bind _ (λ q. Saves env laws s q.1) (save_hang env mem len s) _
        (save_hang-count env laws mem len s) (λ t h. inr (inr (fits.0, h.0 ∙ fits.1, h.1)))

  -- The way back saves so too.
  abbrev Returns : (Rerun → Result (ℕ × Afl)) → Type 0
  Returns again = (r : Rerun) → SavesTo env laws r.state (again r)

  conclude-SavesTo :
      (again : Rerun → Result (ℕ × Afl)) (keeping : ℕ) (v : Verdict) (classified : Bool) (r : Rerun)
      → Returns again
      → leb env.keep_unique_hang r.state.saved_hangs ≡ false
      → SavesTo env laws r.state (conclude env again keeping v classified r)
  unfolding conclude
  conclude-SavesTo again keeping crash classified r back room =
      keep_as_crash-SavesTo r.mem r.len classified keeping r.state
  conclude-SavesTo again keeping slow classified r back room =
      SavesTo-IsSame env laws {s = r.state} (record { crashes = refl; hangs = refl }) _ (back _)
  conclude-SavesTo again keeping drop classified r back room = inl (IsSame-refl r.state)
  conclude-SavesTo again keeping hang classified r back room =
      saved_hang-SavesTo r.mem r.len keeping r.state room

  new_timeout-SavesTo :
      (again : Rerun → Result (ℕ × Afl)) (mem : List ℕ) (len : ℕ) (classified : Bool) (keeping : ℕ)
      (s : Afl)
      → Returns again
      → leb env.keep_unique_hang s.saved_hangs ≡ false
      → SavesTo env laws s (new_timeout env again mem len classified keeping s)
  unfolding new_timeout
  new_timeout-SavesTo again mem len classified keeping s back room =
      let r = run_again env mem len s in
      let same = IsSame-Keeps (run_again-Keeps env laws mem len s) in
      Yields-if (λ p. Saves env laws s p.1) (ltb s.fsrv.exec_tmout s.hang_tmout) _ _
        (λ e. SavesTo-IsSame env laws same _ (
          conclude-SavesTo again keeping (verdict env r.state r.new_fault) classified r back
            (ap (leb env.keep_unique_hang) same.hangs ∙ room)))
        (λ e. saved_hang-SavesTo mem len keeping s room)

  judge_timeout-SavesTo :
      (again : Rerun → Result (ℕ × Afl)) (mem : List ℕ) (len : ℕ) (classified : Bool) (keeping : ℕ)
      (s : Afl)
      → Returns again
      → SavesTo env laws s (judge_timeout env again mem len classified keeping s)
  unfolding judge_timeout
  judge_timeout-SavesTo again mem len classified keeping s back =
      let counted = record s { total_tmouts = inc64 s.total_tmouts } in
      let old : IsSame s counted = record { crashes = refl; hangs = refl } in
      Yields-if (λ p. Saves env laws s p.1) (leb env.keep_unique_hang s.saved_hangs) _ _
        (λ e. inl old)
        (λ room.
          Yields-bind (λ p. IsSame counted p.1) (λ p. Saves env laws s p.1)
            (unique_in env virgin_tmout classified counted) _
            (unique_in-IsSame env laws virgin_tmout classified counted)
            (λ p same.
              let both = IsSame-trans old same in
              Yields-if (λ q. Saves env laws s q.1) p.0 _ _
                (λ u. SavesTo-IsSame env laws both _ (
                  new_timeout-SavesTo again mem len (classified || not s.non_instrumented_mode)
                    keeping p.1 back (ap (leb env.keep_unique_hang) both.hangs ∙ room)))
                (λ u. inl both)))

  judge-SavesTo :
      (fault new_bits cksum fuel : ℕ) (mem : List ℕ) (len : ℕ) (classified : Bool) (keeping : ℕ)
      (s : Afl)
      → SavesTo env laws s (judge env fault new_bits cksum fuel mem len classified keeping s)
  unfolding judge
  judge-SavesTo fault new_bits cksum zero mem len classified keeping s = tt
  judge-SavesTo fault new_bits cksum (suc fuel) mem len classified keeping s =
      Yields-if (λ p. Saves env laws s p.1) (fault == env.run_tmout) _ _
        (λ e. judge_timeout-SavesTo _ mem len classified keeping s (λ r.
          Yields-bind (Keeps r.state) (λ p. Saves env laws r.state p.1)
            (save_to_queue env r.mem r.len new_bits 0x80 cksum r.state) _
            (Yields-Ends (Keeps r.state) _
              (save_to_queue-Ends env laws r.mem r.len new_bits 0x80 cksum r.state))
            (λ t k.
              SavesTo-IsSame env laws (IsSame-Keeps k) _
                (judge-SavesTo fault new_bits cksum fuel r.mem r.len _ 1 t))))
        (λ e.
          Yields-if (λ p. Saves env laws s p.1) (fault == env.run_crash) _ _
            (λ e. keep_as_crash-SavesTo mem len classified keeping s)
            (λ e.
              Yields-if (λ p. Saves env laws s p.1) (fault == env.run_error) _ _ (λ e. tt)
                (λ e. inl (IsSame-refl s))))

  expected_fault-SavesTo :
      (fuel : ℕ) (mem : List ℕ) (len fault cksum : ℕ) (s : Afl)
      → SavesTo env laws s (expected_fault env fuel mem len fault cksum s)
  unfolding expected_fault
  expected_fault-SavesTo fuel mem len fault cksum s =
      Yields-bind (λ p. Keeps s p.1) (λ p. Saves env laws s p.1)
        (has_new_bits_unclassified env.cov s virgin_bits) _
        (Yields-Ends (λ p. Keeps s p.1) _ (look_at_unclassified env laws s))
        (λ p k.
          let same = IsSame-Keeps k in
          Yields-if (λ q. Saves env laws s q.1) (p.0 == 0) _ _
            (λ e. inl (IsSame-trans same (IsSame-if_crash p.1)))
            (λ e.
              Yields-bind (Keeps p.1) (λ q. Saves env laws s q.1)
                (save_to_queue env mem len p.0 0 cksum p.1) _
                (Yields-Ends (Keeps p.1) _ (save_to_queue-Ends env laws mem len p.0 0 cksum p.1))
                (λ t k'.
                  SavesTo-IsSame env laws (IsSame-trans same (IsSame-Keeps k')) _
                    (judge-SavesTo fault p.0 cksum fuel mem len true 1 t))))
    where
      IsSame-if_crash :
          (u : Afl)
          → IsSame u
              (if u.crash_mode == 0 then u else record u { total_crashes = inc64 u.total_crashes })
      IsSame-if_crash u =
          IsSame-if u (u.crash_mode == 0) u _ (IsSame-refl u)
            (record { crashes = refl; hangs = refl })

  -- With enough fuel, as above, a call on an instrumented run ends the process, makes an access out
  -- of bounds, or returns and has saved one crash more, one hang more, or neither: a crash only
  -- where fewer than KEEP_UNIQUE_CRASH, and a hang only where fewer than KEEP_UNIQUE_HANG were
  -- saved before. So neither count passes its limit, whatever the fault is and however often a slow
  -- test case is judged again.
  pub save_if_interesting-Saves :
      (fuel : ℕ) (mem : List ℕ) (len fault : ℕ) (s : Afl)
      → CanRun s
      → weight s.virgin_tmout < fuel
      → Ends (λ p. Saves env laws s p.1) (save_if_interesting env fuel mem len fault s)
  unfolding save_if_interesting
  save_if_interesting-Saves fuel mem len fault s can enough =
      Ends-Yields (λ p. Saves env laws s p.1) _
        (save_if_interesting-terminates env laws fuel mem len fault s can enough)
        (Yields-if (λ p. Saves env laws s p.1) (len == 0) _ _ (λ e. inl (IsSame-refl s))
          (λ e.
            Yields-bind (λ p. Keeps s p.1) (λ p. Saves env laws s p.1) (update_path_frequency env s)
              _ (Yields-Ends (λ p. Keeps s p.1) _ (update_path_frequency-Keeps env laws s))
              (λ p k. SavesTo-IsSame env laws (IsSame-Keeps k) _ (
                Yields-if (λ q. Saves env laws p.1 q.1) (fault == p.1.crash_mode) _ _
                  (λ e. expected_fault-SavesTo fuel mem len fault p.0 p.1)
                  (λ e. judge-SavesTo fault 0 p.0 fuel mem len false 0 p.1)))))
