-- ===== src/Stats/Draw/Terminals.antt =====
-- Whether the two status screens fit into the terminals that `check_term_size` accepts.
use ctfuzz.Base.{
  ℕ, ◌≤◌, ◌<◌, ◌≡◌, refl, Bool, true, false, if◌then◌else◌, Bool-cases, inl, inr, some, List, [],
  ◌∷◌, ◌++◌, All, if-false, sym, ◌∙◌, arith,
}
use ctfuzz.Stats.Screen.Pizza.{check_term_size}
use ctfuzz.Stats.Draw.{Row}
use ctfuzz.Stats.Draw.Tty.{Tty, drawn, too_small, draw_screen, IsResized, draw_screen-IsResized}
use ctfuzz.Stats.Draw.Columns.{
  columns, lines, lines_of, wide-lines_of, narrow-lines_of, lines_of-append,
}
use ctfuzz.Stats.Draw.Screen.{Formats, Reals, Caps, Screen}
use ctfuzz.Stats.Draw.Widths.{AreShort, AreRecent, IsShown}
use ctfuzz.Stats.Draw.Layout.{HasDefaults, columns-table, columns-meter_row}
use ctfuzz.Stats.Draw.Cells.{shows_find, is_slow}
use ctfuzz.Stats.Draw.Normal
use ctfuzz.Stats.Draw.Normal.{normal_rows}
use ctfuzz.Stats.Draw.Pizza
use ctfuzz.Stats.Draw.Pizza.{pizza_rows}
use ctfuzz.Stats.Draw.Pizza.Top.{find_half, corpus_half}
use ctfuzz.Stats.Draw.Pizza.Middle.{execs_row, speed_half, tmouts_half}

All-below :
    (rows : List Row) (c : ℕ)
    → 78 < c
    → All (λ r. columns r ≡ 78) rows
    → All (λ r. columns r < c) rows
All-below [] c h all = tt
All-below (r ∷ rows) c h (e, all) = (omega (arith, e, h), All-below rows c h all)

All-append : (P : Row → Type 0) (xs ys : List Row) → All P xs → All P ys → All P (xs ++ ys)
All-append P [] ys hx hy = hy
All-append P (x ∷ xs) ys (h, hx) hy = (h, All-append P xs ys hx hy)

accepted_columns :
    (ws_row ws_col : ℕ)
    → 0 < ws_row
    → 0 < ws_col
    → check_term_size (some (ws_row, ws_col)) ≡ false
    → 78 < ws_col
unfolding check_term_size
accepted_columns ws_row ws_col hr hc h = ground (arith, h)

drawn_only :
    (b : Bool) (rows : List Row) → (if b then too_small else drawn rows) ≡ drawn rows → b ≡ false
drawn_only true rows h = cc h
drawn_only false rows h = refl

accepted :
    (ws_row ws_col : ℕ)
    → 24 ≤ ws_row
    → 79 ≤ ws_col
    → check_term_size (some (ws_row, ws_col)) ≡ false
unfolding check_term_size
accepted ws_row ws_col hr hc = ground arith

wider-if :
    (b : Bool) (x y z : Row) (c : ℕ)
    → c < columns (x ++ z)
    → c < columns (y ++ z)
    → c < columns ((if b then x else y) ++ z)
wider-if true x y z c hx hy = hx
wider-if false x y z c hx hy = hy

draws_on :
    (rows : List Row) (ws_row ws_col : ℕ) (t : Tty)
    → IsResized t
    → 24 ≤ ws_row
    → 79 ≤ ws_col
    → (draw_screen (some (ws_row, ws_col)) rows t).1 ≡ drawn rows
draws_on rows ws_row ws_col t resized hr hc =
    draw_screen-IsResized (some (ws_row, ws_col)) rows t resized
    ∙ if-false (check_term_size (some (ws_row, ws_col))) _ _ (accepted ws_row ws_col hr hc)

module _ {F : Type 0} (fmt : Formats F) (reals : Reals F) (caps : Caps) (now : ℕ)
    (s : Screen F) where
  normal_rows-below :
      (c : ℕ)
      → AreShort fmt reals
      → IsShown s
      → AreRecent now s
      → HasDefaults s
      → 78 < c
      → All (λ r. columns r < c) (normal_rows fmt reals caps now s)
  unfolding normal_rows
  normal_rows-below c short is recent defaults wide =
      All-append (λ r. columns r < c) (Normal.table fmt reals caps now s)
        (Normal.meter_row fmt reals caps now s ∷ Normal.Bottom.last_row fmt reals caps now s ∷ [])
        (All-below (Normal.table fmt reals caps now s) c wide
          (columns-table fmt reals caps now s short is recent defaults))
        (
          omega (arith, columns-meter_row fmt reals caps now s short is recent defaults, wide),
          (omega (arith, wide), tt),
        )

  pizza_rows-above :
      (ws_col : ℕ) → ws_col < 128 → All (λ r. ws_col < columns r) (Pizza.table fmt reals caps now s)
  pizza_rows-above ws_col h =
      let corpus = corpus_half fmt reals caps now s in
      let tmouts = tmouts_half fmt reals caps now s in
      let find : ws_col < columns (find_half fmt reals caps now s ++ corpus) =
        wider-if (shows_find s) _ _ corpus ws_col (omega arith)
          (wider-if s.non_instrumented_mode _ _ corpus ws_col (omega arith) (omega arith)) in
      let execs : ws_col < columns (execs_row fmt reals caps now s) =
        elim (Bool-cases s.crash_mode) [
          | inl crash ↦ rw crash (omega arith)
          | inr fuzz ↦ rw fuzz (omega arith)
        ] in
      let speed : ws_col < columns (speed_half fmt reals caps now s ++ tmouts) =
        wider-if (is_slow fmt reals caps s) _ _ tmouts ws_col (omega arith) (omega arith) in
      (
        omega arith,
        (
          omega arith,
          (
            find,
            (
              omega arith,
              (
                omega arith,
                (
                  omega arith,
                  (
                    omega arith,
                    (
                      omega arith,
                      (
                        omega arith,
                        (
                          omega arith,
                          (
                            omega arith,
                            (
                              execs,
                              (
                                speed,
                                (
                                  omega arith,
                                  (
                                    omega arith,
                                    (
                                      omega arith,
                                      (
                                        omega arith,
                                        (
                                          omega arith,
                                          (omega arith, (omega arith, (omega arith, tt))),
                                        ),
                                      ),
                                    ),
                                  ),
                                ),
                              ),
                            ),
                          ),
                        ),
                      ),
                    ),
                  ),
                ),
              ),
            ),
          ),
        ),
      )

  -- Where the numbers keep to their formats, the stage has a name of at most 22 characters, the times
  -- that are shown lie less than 10000 days back, and with the default options, the table of the normal
  -- screen is rectangular: each of its rows has 78 columns. And if it is drawn behind a change of the
  -- terminal's size, which is known, every row, that of the processor's meter and the last one
  -- included, has fewer columns than the terminal.
  pub normal_rows-draw_screen :
      (ws_row ws_col : ℕ) (t : Tty)
      → AreShort fmt reals
      → IsShown s
      → AreRecent now s
      → HasDefaults s
      → IsResized t
      → 0 < ws_row
      → 0 < ws_col
      → (draw_screen (some (ws_row, ws_col)) (normal_rows fmt reals caps now s) t).1
        ≡ drawn (normal_rows fmt reals caps now s)
      → All (λ r. columns r ≡ 78) (Normal.table fmt reals caps now s)
        × All (λ r. columns r < ws_col) (normal_rows fmt reals caps now s)
  normal_rows-draw_screen ws_row ws_col t short is recent defaults resized hr hc h =
      let rows = normal_rows fmt reals caps now s in
      let size = some (ws_row, ws_col) in
      let accepts : check_term_size size ≡ false =
        drawn_only (check_term_size size) rows
          (sym (draw_screen-IsResized size rows t resized) ∙ h) in
      let table = columns-table fmt reals caps now s short is recent defaults in
      (
        table,
        normal_rows-below ws_col short is recent defaults
            (accepted_columns ws_row ws_col hr hc accepts),
      )

  -- On a terminal of 24 rows or more and 79 to 127 columns, the other screen, at the start or behind a
  -- change of the terminal's size and with an entry of the queue under test, is drawn in every state of
  -- the session. Each row of its table has more columns than the terminal, so that the screen takes at
  -- least 46 lines.
  pub pizza_rows-draw_screen :
      (ws_row ws_col : ℕ) (t : Tty)
      → IsResized t
      → 24 ≤ ws_row
      → 79 ≤ ws_col
      → ws_col < 128
      → ((draw_screen (some (ws_row, ws_col)) (pizza_rows fmt reals caps now s) t).1
          ≡ drawn (pizza_rows fmt reals caps now s))
        × All (λ r. ws_col < columns r) (Pizza.table fmt reals caps now s)
        × (46 ≤ lines ws_col (pizza_rows fmt reals caps now s))
  unfolding pizza_rows
  pizza_rows-draw_screen ws_row ws_col t resized hr hc h =
      let table = Pizza.table fmt reals caps now s in
      let rest =
        Pizza.meter_row fmt reals caps now s ∷ Pizza.Bottom.last_row fmt reals caps now s ∷ [] in
      let wide = pizza_rows-above ws_col h in
      let long : 42 ≤ lines_of ws_col table = wide-lines_of ws_col table (omega arith) wide in
      let two : 2 ≤ lines_of ws_col rest = omega arith in
      (
        draws_on (pizza_rows fmt reals caps now s) ws_row ws_col t resized hr hc,
        wide,
        omega (arith, lines_of-append ws_col table rest, long, two),
      )

  -- On a terminal of 24 rows and at least 79 columns, at the start or behind a change of the
  -- terminal's size and with an entry of the queue under test, the normal screen is drawn. With a
  -- banner of one line it takes 25 lines, where the numbers keep to their formats, the stage has a
  -- name of at most 22 characters, the times that are shown lie less than 10000 days back, and with
  -- the default options.
  pub lines-draw_screen :
      (ws_col : ℕ) (t : Tty)
      → AreShort fmt reals
      → IsShown s
      → AreRecent now s
      → HasDefaults s
      → IsResized t
      → 79 ≤ ws_col
      → ((draw_screen (some (24, ws_col)) (normal_rows fmt reals caps now s) t).1
          ≡ drawn (normal_rows fmt reals caps now s))
        × (lines ws_col (normal_rows fmt reals caps now s) ≡ 25)
  unfolding normal_rows
  lines-draw_screen ws_col t short is recent defaults resized hc = (
    draws_on (normal_rows fmt reals caps now s) 24 ws_col t resized (omega arith) hc,
    omega (
      arith,
      narrow-lines_of ws_col (normal_rows fmt reals caps now s) (omega arith)
          (normal_rows-below ws_col short is recent defaults (omega arith)),
    ),
  )
