-- ===== src/Stats/Screen/Laws.antt =====
-- When the session stops, and how often the statistics are written.
use ctfuzz.Base.{
  ℕ, ◌*◌, ◌%◌, ◌^◌, ◌≤◌, ◌<◌, ◌≡◌, refl, ap, ◌∙◌, Bool, true, false, not, ◌&&◌, ◌||◌, Option, none,
  some, List, ltb, if◌then◌else◌, if-false, arith,
}
use mathlib.Core.Path.{sym, subst}
use ctfuzz.Base.{length, IsBytes, ◌≢◌, take}
use ctfuzz.Bitmap.Count.{words}
use ctfuzz.Bitmap.Count.Bytes.{not_255}
use ctfuzz.Bitmap.Count.Totals.{total, count_non_255_bytes-total, total-take-le}
use ctfuzz.Bitmap.Count.{count_non_255_bytes}
use ctfuzz.Stats.Screen.{
  Config, Speeds, Ui, Shown, too_early, shown, bad_setup, outside, time_is_up, execs_are_up,
  check_time, check_execs, is_done, is_stale, has_crashed, stop_if, is_early, measured, stamped,
  events, counted, show_stats_normal,
}

if-ap :
    {A : Type 0} {B : Type 0} (f : A → B) (b : Bool) (x y : A)
    → f (if b then x else y) ≡ (if b then f x else f y)
if-ap f true x y = refl
if-ap f false x y = refl

if-same :
    {A : Type 0} {B : Type 0} (f : A → B) (b : Bool) (x y : A)
    → f x ≡ f y
    → f (if b then x else y) ≡ f y
if-same f true x y e = e
if-same f false x y e = refl

either : (a b : Bool) (n : ℕ) → (if b then 2 else (if a then 2 else n)) ≡ (if a || b then 2 else n)
either true true n = refl
either true false n = refl
either false b n = refl

not_over : (size n : ℕ) (b : Bool) → n ≤ size → (ltb size n && b) ≡ false
not_over size n b fits = ground (arith, fits)

Shown-if :
    {F : Type 0} (P : Shown F → Type 0) (b : Bool) (x y : Shown F)
    → P x
    → P y
    → P (if b then x else y)
Shown-if P true x y px py = px
Shown-if P false x y px py = py

module _ {F : Type 0} where
  abbrev pub limits : ℕ → Ui F → Ui F
  limits now s = check_execs (check_time now s)

  -- One of the two limits of the command line is reached.
  abbrev pub limit_reached : Ui F → ℕ → Bool
  limit_reached s now = time_is_up s now || execs_are_up s

  -- Any reason to stop.
  abbrev pub must_stop : Ui F → ℕ → Bool
  must_stop s now = limit_reached s now || (is_done s || (is_stale s now || has_crashed s))

  -- The flag behind the call: 2 for a reason to stop, and as before without one. A call that is too
  -- early for the screen looks at the two limits only.
  abbrev pub Stops : Ui F → ℕ → Shown F → Type 0
  Stops s now (too_early t) = t.stop_soon ≡ (if limit_reached s now then 2 else s.stop_soon)
  Stops s now (shown t evs) = t.stop_soon ≡ (if must_stop s now then 2 else s.stop_soon)
  Stops s now bad_setup = Unit
  Stops s now outside = Unit

  -- What the two limits do not touch.
  pub limits-same :
      {B : Type 0} (f : Ui F → B) (now : ℕ) (s : Ui F)
      → ((u : Ui F) → f (record u { most_time_key = 2; stop_soon = 2 }) ≡ f u)
      → ((u : Ui F) → f (record u { most_execs_key = 2; stop_soon = 2 }) ≡ f u)
      → f (limits now s) ≡ f s
  limits-same f now s time execs =
      if-same f (execs_are_up (check_time now s)) _ (check_time now s) (execs (check_time now s))
      ∙ if-same f (time_is_up s now) _ s (time s)

  limits-stop_soon :
      (now : ℕ) (s : Ui F)
      → (limits now s).stop_soon ≡ (if limit_reached s now then 2 else s.stop_soon)
  limits-stop_soon now s =
      if-ap (λ u. u.stop_soon) (execs_are_up (check_time now s)) _ (check_time now s)
      ∙ ap (λ b. if b then 2 else (check_time now s).stop_soon)
          (if-same execs_are_up (time_is_up s now) _ s refl)
      ∙ ap (λ n. if execs_are_up s then 2 else n) (if-ap (λ u. u.stop_soon) (time_is_up s now) _ s)
      ∙ either (time_is_up s now) (execs_are_up s) s.stop_soon

  -- The three tests behind the files, in the order of the code.
  stop_if-stop_soon :
      (a b c : Bool) (s : Ui F)
      → (stop_if c (stop_if b (stop_if a s))).stop_soon ≡ (if a || (b || c) then 2 else s.stop_soon)
  stop_if-stop_soon true true true s = refl
  stop_if-stop_soon true true false s = refl
  stop_if-stop_soon true false true s = refl
  stop_if-stop_soon true false false s = refl
  stop_if-stop_soon false true true s = refl
  stop_if-stop_soon false true false s = refl
  stop_if-stop_soon false false true s = refl
  stop_if-stop_soon false false false s = refl

  module _ (cfg : Config) (speeds : Speeds F) where
    abbrev reasons : ℕ → Ui F → Bool
    reasons now s = is_done s || (is_stale s now || has_crashed s)

    counted-Stops :
        (now : ℕ) (s : Ui F) (n : Option ℕ)
        → Stops s now (counted cfg speeds now (measured cfg speeds now (limits now s)) n)
    counted-Stops now s none = tt
    counted-Stops now s (some t_bytes) =
        let m = measured cfg speeds now (limits now s) in
        Shown-if (Stops s now) (ltb m.real_map_size t_bytes && not m.afl_ignore_problems) _ _ tt (
          stop_if-stop_soon (is_done m) (is_stale m now) (has_crashed m) (stamped cfg speeds now m)
          ∙ ap (λ b. if b then 2 else (limits now s).stop_soon)
              (limits-same (reasons now) now s (λ u. refl) (λ u. refl))
          ∙ ap (λ n. if reasons now s then 2 else n) (limits-stop_soon now s)
          ∙ either (limit_reached s now) (reasons now s) s.stop_soon)

    -- On every branch that returns, the flag `stop_soon` is 2 behind the call exactly if it was 2 or
    -- there is a reason to stop, and is otherwise as it was: a request to stop is never taken back.
    pub show_stats_normal-Stops :
        (now : ℕ) (s : Ui F) → Stops s now (show_stats_normal cfg speeds now s)
    unfolding show_stats_normal
    show_stats_normal-Stops now s =
        let u = limits now s in
        Shown-if (Stops s now) (is_early cfg speeds now u) _ _ (limits-stop_soon now s)
          (counted-Stops now s (count_non_255_bytes u.real_map_size u.virgin_bits))

    counted-ne :
        (now : ℕ) (m : Ui F) (n : ℕ)
        → n ≤ m.real_map_size
        → counted cfg speeds now m (some n) ≢ bad_setup
    counted-ne now m n fits e =
        let out =
          shown
            (stop_if (has_crashed m)
              (stop_if (is_stale m now) (stop_if (is_done m) (stamped cfg speeds now m))))
            (events cfg speeds now m) in
        let ends : out ≡ bad_setup =
          sym (
            if-false (ltb m.real_map_size n && not m.afl_ignore_problems) bad_setup out
              (not_over m.real_map_size n (not m.afl_ignore_problems) fits))
          ∙ e in
        cc ends

    words_of_whole : (size : ℕ) → size % 4 ≡ 0 → size < 2 ^ 32 → 4 * words size ≡ size
    words_of_whole size whole small = omega (arith, whole, small)

    counts_within :
        (size : ℕ) (map : List ℕ)
        → IsBytes map
        → size % 4 ≡ 0
        → size < 2 ^ 32
        → total not_255 (take (4 * words size) map) ≤ size
    counts_within size map bytes whole small = omega (
      arith,
      words_of_whole size whole small,
      total-take-le not_255 1 (4 * words size) map (λ b _. ground arith) bytes,
    )

    -- Over a map in memory whose size is a multiple of the word, the check for a target with
    -- libraries that are not instrumented never ends the session: the number of bytes that
    -- `count_non_255_bytes` counts is not more than `real_map_size`, whatever the target did.
    pub show_stats_normal-ne-bad_setup :
        (now : ℕ) (s : Ui F)
        → IsBytes s.virgin_bits
        → s.real_map_size % 4 ≡ 0
        → s.real_map_size < 2 ^ 32
        → s.real_map_size ≤ length s.virgin_bits
        → show_stats_normal cfg speeds now s ≢ bad_setup
    unfolding show_stats_normal
    show_stats_normal-ne-bad_setup now s bytes whole small room =
        let u = limits now s in
        let n = total not_255 (take (4 * words s.real_map_size) s.virgin_bits) in
        let size : u.real_map_size ≡ s.real_map_size =
          limits-same (λ v. v.real_map_size) now s (λ v. refl) (λ v. refl) in
        let counts : count_non_255_bytes u.real_map_size u.virgin_bits ≡ some n =
          limits-same (λ v. count_non_255_bytes v.real_map_size v.virgin_bits) now s (λ v. refl)
            (λ v. refl)
          ∙ count_non_255_bytes-total s.real_map_size s.virgin_bits bytes
              (omega (arith, room, words_of_whole s.real_map_size whole small)) in
        Shown-if (λ x. x ≢ bad_setup) (is_early cfg speeds now u) _ _ (λ e. cc)
          (subst (λ o. counted cfg speeds now (measured cfg speeds now u) o ≢ bad_setup)
            (sym counts)
            (counted-ne now (measured cfg speeds now u) n (
              subst (λ k. n ≤ k) (sym size)
                (counts_within s.real_map_size s.virgin_bits bytes whole small))))
