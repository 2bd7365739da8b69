-- ===== src/Save/Keeps.antt =====
-- What the calls around a hang leave as it is: the sizes of the map and of the trace, the map of the
-- known hangs, the mode, and how many crashes and hangs are saved.
use ctfuzz.Base.{ℕ, ◌≡◌, refl, ◌∙◌, List, [], ◌∷◌, ◌++◌, map, ap, suc, length, ◌==◌}
use ctfuzz.Base.{Bool-cases, Option-cases, inl, inr, ◌+◌, ◌-◌, take, if◌then◌else◌, leb}
use Prim.Native.Nat.{min}
use ctfuzz.Base.Text.{codes}
use ctfuzz.State.{Afl, Text, Entry, Result, ok, virgin_tmout}
use ctfuzz.Bitmap.Novelty.{classify, simplify}
use ctfuzz.Bitmap.Novelty.Spec.{IsCoverage}
use ctfuzz.Bitmap.Novelty.Laws.{HasRoom}
use ctfuzz.Save.Outcome.{Ends, Any, Ends-bind, Ends-map, Ends-if}
use ctfuzz.Save.Env.{Env, create}
use ctfuzz.Save.Describe.{
  describe_op, op_part, custom_op, source_part, is_timeout, custom_part, marks,
}
use ctfuzz.Save.Queue.{queue_name, save_to_queue, note_top, calibrated, keep_mem}

pub record Keeps (s t : Afl) : Type 0 where
  pub size : t.fsrv.real_map_size ≡ s.fsrv.real_map_size
  pub trace : length t.fsrv.trace_bits ≡ length s.fsrv.trace_bits
  pub tmout : t.virgin_tmout ≡ s.virgin_tmout
  pub mode : t.non_instrumented_mode ≡ s.non_instrumented_mode
  pub crashes : t.saved_crashes ≡ s.saved_crashes
  pub hangs : t.saved_hangs ≡ s.saved_hangs

pub Keeps-refl : (s : Afl) → Keeps s s
Keeps-refl s = record {
  size = refl;
  trace = refl;
  tmout = refl;
  mode = refl;
  crashes = refl;
  hangs = refl;
}

pub Keeps-trans : {s t u : Afl} → Keeps s t → Keeps t u → Keeps s u
Keeps-trans a b = record {
  size = b.size ∙ a.size;
  trace = b.trace ∙ a.trace;
  tmout = b.tmout ∙ a.tmout;
  mode = b.mode ∙ a.mode;
  crashes = b.crashes ∙ a.crashes;
  hangs = b.hangs ∙ a.hangs;
}

pub HasRoom-Keeps : {s t : Afl} → Keeps s t → HasRoom s virgin_tmout → HasRoom t virgin_tmout
HasRoom-Keeps {s} {t} k room = record {
  trace = rw (k.size, k.trace) room.trace;
  virgin = rw (k.size, k.tmout) room.virgin;
}

-- The queue, the calibration, the runs of the target and the hook for crashes change neither what is
-- known of hangs, nor how many crashes and hangs are saved, nor the sizes; calibration updates `virgin_bits` alone.
pub record IsEnv (env : Env) : Type 0 where
  pub coverage : IsCoverage env.cov
  pub added : (fn : Text) (len : ℕ) (s : Afl) → Keeps s (env.add_to_queue fn len s)
  pub calibrates : (mem : List ℕ) (h : ℕ) (s : Afl) → Keeps s (env.calibrate_case mem h s).1
  pub stores : (mem : List ℕ) (s : Afl) → Keeps s (env.queue_testcase_store_mem mem s)
  pub writes :
      (mem : List ℕ) (len fix : ℕ) (s : Afl) → Keeps s (env.write_to_testcase mem len fix s).2
  pub hooks : (s : Afl) → Keeps s (env.run_infoexec s)
  pub runs : (timeout : ℕ) (s : Afl) → Keeps s (env.fuzz_run_target timeout s).1

length-map : (f : ℕ → ℕ) (xs : List ℕ) → length (map f xs) ≡ length xs
length-map f [] = refl
length-map f (x ∷ xs) = ap suc (length-map f xs)

module _ (env : Env) (laws : IsEnv env) where
  pub classify-Keeps : (s : Afl) → Keeps s (classify env.cov s)
  classify-Keeps s = record {
    size = refl;
    trace = rw laws.coverage.classify_counts_lem (length-map _ s.fsrv.trace_bits);
    tmout = refl;
    mode = refl;
    crashes = refl;
    hangs = refl;
  }

  pub simplify-Keeps : (s : Afl) → Keeps s (simplify env.cov s)
  simplify-Keeps s = record {
    size = refl;
    trace = rw laws.coverage.simplify_trace_lem (length-map _ s.fsrv.trace_bits);
    tmout = refl;
    mode = refl;
    crashes = refl;
    hangs = refl;
  }

  custom_part-Ends :
      (s : Afl) (d : ℕ → Text) (used room : ℕ) → Ends Any (custom_part env s.stage d used room)
  custom_part-Ends s d used room = Ends-if Any (leb room used) _ _ (λ e. tt) (λ e. tt)

  custom_op-Ends :
      (s : Afl) (d : ℕ → Text) (start : Text) (marks_len room : ℕ)
      → Ends Any (custom_op env s.stage d start marks_len room)
  custom_op-Ends s d start marks_len room =
      Ends-bind Any Any (custom_part env s.stage d (length start + 5 + 2 + marks_len) room)
        (λ text. ok (start ++ text)) (custom_part-Ends s d _ room) (λ t h. tt)

  op_part-Ends : (s : Afl) (new_bits room : ℕ) → Ends Any (op_part env s new_bits room)
  op_part-Ends s new_bits room = elim (Option-cases s.stage.syncing_party) [
    | inr (party, e) ↦ rw e tt
    | inl e ↦ elim (Option-cases (env.custom_describe s)) [
      | inl e' ↦ rw (e, op_part, e') tt
      | inr (d, e') ↦
          rw (e, op_part, e')
            (custom_op-Ends s d (source_part env s ++ codes ",")
              (if is_timeout new_bits then 6 else 0) (min room 256))
    ]
  ]

  pub describe_op-Ends : (s : Afl) (new_bits room : ℕ) → Ends Any (describe_op env s new_bits room)
  unfolding describe_op
  describe_op-Ends s new_bits room =
      Ends-bind Any Any (op_part env s new_bits room) _ (op_part-Ends s new_bits room) (λ t h.
        Ends-if Any (leb 256 (length (t ++ marks env new_bits))) _ _ (λ e. tt)
          (λ e. Ends-if Any (leb room (length (t ++ marks env new_bits))) _ _ (λ e. tt) (λ e. tt)))

  pub create-Ends : (fn : Text) (bytes : List ℕ) (s : Afl) → Ends (Keeps s) (create env fn bytes s)
  create-Ends fn bytes s =
      Ends-if (Keeps s) (env.can_create fn s) _ _
        (λ e. record {
          size = refl;
          trace = refl;
          tmout = refl;
          mode = refl;
          crashes = refl;
          hangs = refl;
        })
        (λ e. tt)

  note_top-Ends :
      (new_bits cksum : ℕ) (qs : List Entry) (s : Afl)
      → Ends (Keeps s) (note_top env new_bits cksum qs s)
  note_top-Ends new_bits cksum [] s = tt
  note_top-Ends new_bits cksum (q ∷ qs) s = record {
    size = refl;
    trace = refl;
    tmout = refl;
    mode = refl;
    crashes = refl;
    hangs = refl;
  }

  keep_mem-Keeps : (mem : List ℕ) (s : Afl) → Keeps s (keep_mem env mem s)
  keep_mem-Keeps mem s = elim (Bool-cases (s.q_testcase_max_cache_size == 0)) [
    | inl off ↦ rw off (Keeps-refl s)
    | inr on ↦ rw on (laws.stores mem s)
  ]

  Ends-Keeps : {s t : Afl} → Keeps s t → (r : Result Afl) → Ends (Keeps t) r → Ends (Keeps s) r
  Ends-Keeps {s} {t} k r h = Ends-map (Keeps t) (Keeps s) r h (λ u k'. Keeps-trans k k')

  calibrated-Ends :
      (mem : List ℕ) (h : ℕ) (s : Afl)
      → Ends (Keeps s) (calibrated env mem (env.calibrate_case mem h s))
  calibrated-Ends mem h s =
      Ends-if (Keeps s) ((env.calibrate_case mem h s).0 == env.run_error) _ _ (λ e. tt)
        (λ e.
          Keeps-trans (laws.calibrates mem h s) (keep_mem-Keeps mem (env.calibrate_case mem h s).1))

  pub save_to_queue-Ends :
      (mem : List ℕ) (len new_bits is_timeout cksum : ℕ) (s : Afl)
      → Ends (Keeps s) (save_to_queue env mem len new_bits is_timeout cksum s)
  unfolding save_to_queue
  save_to_queue-Ends mem len new_bits is_timeout cksum s =
      Ends-bind Any (Keeps s) (describe_op env s (new_bits + is_timeout) (env.name_max - 10)) _
        (describe_op-Ends s _ _)
        (λ text h.
          Ends-bind (Keeps s) (Keeps s) (create env (queue_name env s text) (take len mem) s) _
            (create-Ends _ _ s)
            (λ s1 k1.
              let t = env.add_to_queue (queue_name env s text) len s1 in
              Ends-Keeps (Keeps-trans k1 (laws.added (queue_name env s text) len s1)) _ (
                Ends-bind (Keeps t) (Keeps t) (note_top env new_bits cksum t.queue t) _
                  (note_top-Ends new_bits cksum t.queue t)
                  (λ s2 k2. Ends-Keeps k2 _ (calibrated-Ends mem _ s2)))))
