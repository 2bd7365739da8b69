-- ===== src/Stats/Plot/Session.antt =====
-- The plot file of a session: the lines of one call of `maybe_update_plot_file` behind the other.
use ctfuzz.Base.{
  ℕ, ◌≡◌, ◌≢◌, ap, sym, false, Option, none, some, List, [], ◌∷◌, ◌++◌, arith, Bool-cases, inl, inr,
}
use ctfuzz.Stats.Plot.{
  Counters, PlotState, PlotLine, same_counters, same_counters_self, skips, maybe_update_plot_file,
}

-- What a call finds: the counters, the time and the coverage.
pub record Sight : Type 0 where
  pub counters : Counters
  pub now : ℕ
  pub t_bytes : ℕ

abbrev pub line_of : Option PlotLine → List PlotLine
line_of none = []
line_of (some line) = line ∷ []

-- The lines of all calls, in their order.
pub plot_lines : PlotState → List Sight → List PlotLine
plot_lines s [] = []
plot_lines s (c ∷ cs) =
    let r = maybe_update_plot_file (record s { counters = c.counters }) c.now c.t_bytes in
    line_of r.1 ++ plot_lines r.0 cs

-- Each line has other counters than the one before it, and none is of the cycle 0.
abbrev pub Changes : Counters → List PlotLine → Type 0
Changes prev [] = Unit
Changes prev (l ∷ ls) = (prev ≢ l.counters) × (l.counters.queue_cycle ≢ 0) × Changes l.counters ls

changed :
    (s : PlotState) (now : ℕ)
    → s.force_ui_update ≡ 0
    → skips s now ≡ false
    → (s.plot_prev ≢ s.counters) × (s.counters.queue_cycle ≢ 0)
changed s now calm writes = (
  λ same. absurd (
      ground (
        arith,
        calm,
        writes,
        ap (same_counters s.plot_prev) (sym same),
        same_counters_self s.plot_prev,
      )),
  λ zero. absurd (ground (arith, calm, writes, zero)),
)

-- In a session that does not force the file, whatever the calls find and whenever they come, no two
-- lines in succession have the same counters, the first one has others than those of the last line
-- before the session, and no line is written before the first cycle.
pub plot_lines-Changes :
    (s : PlotState) (calls : List Sight)
    → s.force_ui_update ≡ 0
    → Changes s.plot_prev (plot_lines s calls)
unfolding plot_lines maybe_update_plot_file
plot_lines-Changes s [] calm = tt
plot_lines-Changes s (c ∷ cs) calm =
    let u = record s { counters = c.counters } in
    elim (Bool-cases (skips u c.now)) [
      | inl skip ↦ rw skip (plot_lines-Changes u cs calm)
      | inr write ↦
          let (new, cycle) = changed u c.now calm write in
          rw write (new, cycle, plot_lines-Changes (record u { plot_prev = c.counters }) cs calm)
    ]
