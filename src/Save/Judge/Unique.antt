-- ===== src/Save/Judge/Unique.antt =====
-- The look at `virgin_tmout`: a hang that is new there makes that map lighter.
use ctfuzz.Base.{ℕ, ◌<◌, ◌≡◌, ap, ◌∙◌, Bool, true, false, not, ◌==◌, arith}
use mathlib.Core.Path.{sym}
use ctfuzz.State.{Afl, in_bounds, ok, ◌>>=◌, VirginMap, virgin_tmout, map_of}
use ctfuzz.Bitmap.Novelty.{classify, discover, words64, has_new_bits}
use ctfuzz.Bitmap.Novelty.Spec.{weight, length-clear_upto}
use ctfuzz.Bitmap.Novelty.Laws.{HasRoom, has_new_bits_lem, has_new_bits_progress}
use ctfuzz.Save.Outcome.{Ends, Any, Ends-bind, Ends-in_bounds, Ends-if}
use ctfuzz.Save.Env.{Env}
use ctfuzz.Save.Keeps.{Keeps, Keeps-trans, HasRoom-Keeps, IsEnv, classify-Keeps, simplify-Keeps}
use ctfuzz.Save.Judge.{unique_in, prepared}

-- A run that is instrumented, with its words and those of `virgin_tmout` in memory.
pub record CanRun (s : Afl) : Type 0 where
  pub room : HasRoom s virgin_tmout
  pub mode : s.non_instrumented_mode ≡ false

-- Behind the look at `virgin_tmout`: where the hang is new, that map has become lighter.
pub record Lighter (w : ℕ) (found : Bool × Afl) : Type 0 where
  pub can : CanRun found.1
  pub lighter : found.0 ≡ true → weight found.1.virgin_tmout < w

pub CanRun-Keeps : {s t : Afl} → Keeps s t → CanRun s → CanRun t
CanRun-Keeps k can = record { room = HasRoom-Keeps k can.room; mode = k.mode ∙ can.mode }

module _ (env : Env) (laws : IsEnv env) where
  has_new_bits-Any : (m : VirginMap) (s : Afl) → Ends Any (has_new_bits env.cov s m)
  unfolding has_new_bits
  has_new_bits-Any m s =
      Ends-bind Any Any
        (in_bounds
          (discover env.cov (words64 s.fsrv.real_map_size) 0 s.fsrv.trace_bits (map_of m s)))
        _ (Ends-in_bounds Any _ (λ a. tt)) (λ a h. tt)

  pub unique_in-Any :
      (m : VirginMap) (classified : Bool) (s : Afl) → Ends Any (unique_in env m classified s)
  unfolding unique_in
  unique_in-Any m classified s =
      Ends-if Any s.non_instrumented_mode _ _ (λ e. tt)
        (λ e.
          Ends-bind Any Any (has_new_bits env.cov (prepared env classified s) m) _
            (has_new_bits-Any m (prepared env classified s)) (λ a h. tt))

  pub prepared-Keeps : (classified : Bool) (s : Afl) → Keeps s (prepared env classified s)
  prepared-Keeps true s = simplify-Keeps env laws s
  prepared-Keeps false s =
      Keeps-trans (classify-Keeps env laws s) (simplify-Keeps env laws (classify env.cov s))

  look_at_tmout :
      (w : ℕ) (p : Afl)
      → CanRun p
      → w ≡ weight p.virgin_tmout
      → Ends
          (Lighter w)
          (has_new_bits env.cov p virgin_tmout >>= λ (ret, t). ok (not (ret == 0), t))
  look_at_tmout w p can e =
      let finds = has_new_bits_lem env.cov laws.coverage p virgin_tmout can.room in
      let less = (has_new_bits_progress env.cov laws.coverage p virgin_tmout can.room finds).1 in
      rw finds (record {
        can = record {
          room = record { trace = can.room.trace; virgin = rw length-clear_upto can.room.virgin };
          mode = can.mode;
        };
        lighter = λ new. rw e (less (ground (arith, new)));
      })

  pub unique_tmout :
      (classified : Bool) (s : Afl)
      → CanRun s
      → Ends (Lighter (weight s.virgin_tmout)) (unique_in env virgin_tmout classified s)
  unfolding unique_in
  unique_tmout classified s can =
      let kept = prepared-Keeps classified s in
      Ends-if (Lighter (weight s.virgin_tmout)) s.non_instrumented_mode _ _ (λ e. cc (can.mode))
        (λ e.
          look_at_tmout (weight s.virgin_tmout) (prepared env classified s) (CanRun-Keeps kept can)
            (ap weight (sym kept.tmout)))
