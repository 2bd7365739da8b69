-- ===== src/Stats/Plot.antt =====
-- `maybe_update_plot_file` of `ctfuzz/afl/afl-fuzz-stats.c`. The result is the new state and the
-- line that is written, if one is; `now` is `get_cur_time()`.
pub mod Session
use ctfuzz.Base.{
  ℕ, ◌+◌, ◌/◌, ◌≡◌, Bool, true, false, ◌&&◌, ◌||◌, not, Option, none, some, ◌==◌, leb,
  if◌then◌else◌, arith, refl, Bool-cases, inl, inr,
}
use ctfuzz.Stats.File.{sub64}

-- What a line is made of, besides the time and the two doubles.
pub record Counters : Type 0 where
  pub queued_items : ℕ
  pub pending_favored : ℕ
  pub pending_not_fuzzed : ℕ
  pub current_entry : ℕ
  pub queue_cycle : ℕ
  pub saved_crashes : ℕ
  pub saved_hangs : ℕ
  pub max_depth : ℕ
  pub total_execs : ℕ

-- `plot_prev_*` are the counters of the last line.
pub record PlotState : Type 0 where
  pub force_ui_update : ℕ
  pub stop_soon : ℕ
  pub start_time : ℕ
  pub prev_run_time : ℕ
  pub counters : Counters
  pub plot_prev : Counters

pub record PlotLine : Type 0 where
  pub relative_time : ℕ
  pub cycles_done : ℕ
  pub counters : Counters
  pub t_bytes : ℕ

abbrev pub same_counters : Counters → Counters → Bool
same_counters a b =
    a.queued_items == b.queued_items
    && a.pending_favored == b.pending_favored
    && a.pending_not_fuzzed == b.pending_not_fuzzed
    && a.current_entry == b.current_entry
    && a.queue_cycle == b.queue_cycle
    && a.saved_crashes == b.saved_crashes
    && a.saved_hangs == b.saved_hangs
    && a.max_depth == b.max_depth
    && a.total_execs == b.total_execs

abbrev pub skips : PlotState → ℕ → Bool
skips s now =
    s.force_ui_update == 0
    && (not (s.stop_soon == 0)
        || same_counters s.plot_prev s.counters
        || s.counters.queue_cycle == 0
        || leb (sub64 now s.start_time) 60000)

unfoldable pub maybe_update_plot_file : PlotState → ℕ → ℕ → PlotState × Option PlotLine
maybe_update_plot_file s now t_bytes = if skips s now then (s, none) else (
  record s { plot_prev = s.counters },
  some (record {
    relative_time = sub64 (s.prev_run_time + now) s.start_time / 1000;
    cycles_done = sub64 s.counters.queue_cycle 1;
    counters = s.counters;
    t_bytes = t_bytes;
  }),
)

pub same_counters_self : (c : Counters) → same_counters c c ≡ true
same_counters_self c = ground arith

or-true : (a b c : Bool) → (a || true || b || c) ≡ true
or-true true b c = refl
or-true false b c = refl

skips_same :
    (t : PlotState) (later : ℕ)
    → t.force_ui_update ≡ 0
    → t.plot_prev ≡ t.counters
    → skips t later ≡ true
skips_same t later calm e =
    rw (calm, e, same_counters_self t.counters) (or-true (not (t.stop_soon == 0)) _ _)

written :
    (s t : PlotState) (line : PlotLine) (now t_bytes : ℕ)
    → maybe_update_plot_file s now t_bytes ≡ (t, some line)
    → t.plot_prev ≡ t.counters
unfolding maybe_update_plot_file
written s t line now t_bytes wrote = elim (Bool-cases (skips s now)) [
  | inl skip ↦ cc (rw skip at wrote)
  | inr write ↦ cc (rw write at wrote)
]

-- A call that is not forced, right after one that wrote a line, writes none: whatever the time and
-- the coverage are by then.
pub maybe_update_plot_file_twice :
    (s t : PlotState) (line : PlotLine) (now later t_bytes t_bytes' : ℕ)
    → maybe_update_plot_file s now t_bytes ≡ (t, some line)
    → t.force_ui_update ≡ 0
    → maybe_update_plot_file t later t_bytes' ≡ (t, none)
unfolding maybe_update_plot_file
maybe_update_plot_file_twice s t line now later t_bytes t_bytes' wrote calm =
    rw (skips_same t later calm (written s t line now t_bytes wrote))
