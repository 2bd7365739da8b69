-- ===== src/Stats/Screen/Pizza.antt =====
-- The other status screen, `show_stats_pizza` of `ctfuzz/afl/afl-fuzz-stats.c`, up to its drawing, and
-- `show_stats` and `check_term_size`.
use ctfuzz.Base.{
  ℕ, ◌+◌, ◌≡◌, refl, ap, ◌∙◌, Bool, true, false, not, ◌&&◌, ◌||◌, Option, none, some, ◌==◌, ltb,
  if◌then◌else◌, arith,
}
use mathlib.Core.Path.{sym}
use ctfuzz.Stats.File.{sub64}
use ctfuzz.Bitmap.Count.{count_non_255_bytes}
use ctfuzz.Stats.Screen.{
  Config, Speeds, Ui, Shown, too_early, shown, bad_setup, outside, is_past, check_time, check_execs,
  is_done, is_stale, has_crashed, stop_if, is_early, measured, stamped, events, counted,
  show_stats_normal,
}
use ctfuzz.Stats.Screen.Laws.{limits, limits-same}

-- Whether `term_too_small` is set, for the rows and columns that `ioctl` gives, if it gives any.
unfoldable pub check_term_size : Option (ℕ × ℕ) → Bool
check_term_size none = false
check_term_size (some (ws_row, ws_col)) =
    if ws_row == 0 || ws_col == 0 then false else ltb ws_row 24 || ltb ws_col 79

late_or_never :
    (a b c d e : Bool)
    → (a && b && ((not c && d) || (c && e))) ≡ ((not c && a && b && d) || (a && b && c && e))
late_or_never a b c d e = ground arith

module _ {F : Type 0} where
  -- `AFL_EXIT_ON_TIME`, also where nothing has been found yet.
  abbrev pub is_late : Ui F → ℕ → Bool
  is_late s now =
      not s.non_instrumented_mode
      && s.afl_exit_on_time
      && ((not (s.last_find_time == 0) && is_past now s.last_find_time s.exit_on_time)
          || (s.last_find_time == 0
              && ltb s.exit_on_time (sub64 (s.prev_run_time + now) s.start_time)))

  module _ (cfg : Config) (speeds : Speeds F) where
    abbrev pub counted_pizza : ℕ → Ui F → Option ℕ → Shown F
    counted_pizza now s none = outside
    counted_pizza now s (some t_bytes) =
        if ltb s.real_map_size t_bytes && not s.afl_ignore_problems
        then bad_setup
        else shown
            (stop_if (has_crashed s)
              (stop_if (is_late s now) (stop_if (is_done s) (stamped cfg speeds now s))))
            (events cfg speeds now s)

    unfoldable pub show_stats_pizza : ℕ → Ui F → Shown F
    show_stats_pizza now s =
        let s1 = check_execs (check_time now s) in
        if is_early cfg speeds now s1
        then too_early s1
        else counted_pizza now (measured cfg speeds now s1)
            (count_non_255_bytes s1.real_map_size s1.virgin_bits)

    -- `if (afl->pizza_is_served)`
    pub show_stats : Bool → ℕ → Ui F → Shown F
    show_stats pizza_is_served now s =
        if pizza_is_served then show_stats_pizza now s else show_stats_normal cfg speeds now s

  -- The limit on time is over, counted from the start, and nothing has been found.
  abbrev pub never_found : ℕ → Ui F → Bool
  never_found now s =
      not s.non_instrumented_mode
      && s.afl_exit_on_time
      && s.last_find_time == 0
      && ltb s.exit_on_time (sub64 (s.prev_run_time + now) s.start_time)

  -- The same, with a reason more to stop.
  abbrev pub also_stopping : Bool → Shown F → Shown F
  also_stopping b (too_early t) = too_early t
  also_stopping b (shown t evs) = shown (stop_if b t) evs
  also_stopping b bad_setup = bad_setup
  also_stopping b outside = outside

  stop_if-or : (b d : Bool) (s : Ui F) → stop_if (b || d) s ≡ stop_if d (stop_if b s)
  stop_if-or true true s = refl
  stop_if-or true false s = refl
  stop_if-or false d s = refl

  stop_if_comm : (c d : Bool) (s : Ui F) → stop_if c (stop_if d s) ≡ stop_if d (stop_if c s)
  stop_if_comm true true s = refl
  stop_if_comm true false s = refl
  stop_if_comm false d s = refl

  also_stopping-if :
      (d b : Bool) (x y : Shown F)
      → also_stopping d (if b then x else y) ≡ (if b then also_stopping d x else also_stopping d y)
  also_stopping-if d true x y = refl
  also_stopping-if d false x y = refl

  module _ (cfg : Config) (speeds : Speeds F) where
    counted_pizza-counted :
        (now : ℕ) (s : Ui F) (n : Option ℕ)
        → counted_pizza cfg speeds now s n
          ≡ also_stopping (never_found now s) (counted cfg speeds now s n)
    counted_pizza-counted now s none = refl
    counted_pizza-counted now s (some t_bytes) =
        let done = stop_if (is_done s) (stamped cfg speeds now s) in
        let never = never_found now s in
        let stops : stop_if (has_crashed s) (stop_if (is_late s now) done)
            ≡ stop_if never (stop_if (has_crashed s) (stop_if (is_stale s now) done)) =
          ap (λ b. stop_if (has_crashed s) (stop_if b done))
            (late_or_never (not s.non_instrumented_mode) s.afl_exit_on_time (s.last_find_time == 0)
              (is_past now s.last_find_time s.exit_on_time)
              (ltb s.exit_on_time (sub64 (s.prev_run_time + now) s.start_time)))
          ∙ ap (stop_if (has_crashed s)) (stop_if-or (is_stale s now) never done)
          ∙ stop_if_comm (has_crashed s) never (stop_if (is_stale s now) done) in
        ap
          (λ t.
            if ltb s.real_map_size t_bytes && not s.afl_ignore_problems
            then bad_setup
            else shown t (events cfg speeds now s))
          stops
        ∙ sym (also_stopping-if never _ bad_setup _)

    -- At every time and in every state, show_stats_pizza does what show_stats_normal does before it
    -- draws, and, where it counts the map, asks to stop in one case more: with AFL_EXIT_ON_TIME, in
    -- an instrumented session that has found nothing and has run for longer than that.
    pub show_stats_pizza-show_stats_normal :
        (now : ℕ) (s : Ui F)
        → show_stats_pizza cfg speeds now s
          ≡ also_stopping (never_found now s) (show_stats_normal cfg speeds now s)
    unfolding show_stats_pizza show_stats_normal
    show_stats_pizza-show_stats_normal now s =
        let u = limits now s in
        let m = measured cfg speeds now u in
        let bytes = count_non_255_bytes u.real_map_size u.virgin_bits in
        let same : never_found now u ≡ never_found now s =
          limits-same (never_found now) now s (λ v. refl) (λ v. refl) in
        ap (λ x. if is_early cfg speeds now u then too_early u else x)
          (counted_pizza-counted now m bytes
            ∙ ap (λ b. also_stopping b (counted cfg speeds now m bytes)) same)
        ∙ sym (also_stopping-if (never_found now s) (is_early cfg speeds now u) _ _)
