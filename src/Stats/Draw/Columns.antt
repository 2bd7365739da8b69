-- ===== src/Stats/Draw/Columns.antt =====
-- How many columns a row takes on a terminal.
use native.Mathlib.Nat.{div-eq-sub-div, div-eq_of_lt}
use ctfuzz.Base.{
  ◌*◌, ◌/◌, ◌≤◌, ◌<◌, List, All, ℕ, zero, suc, ◌+◌, ◌-◌, ◌≡◌, refl, [], ◌∷◌, ◌++◌, length,
  length-append, length-replicate, replicate, arith,
}
use ctfuzz.Base.Text.{codes}
use ctfuzz.State.{Text}
use ctfuzz.Stats.Draw.{
  Colour, Switch, Box, bh, Piece, colour, switch, box, bars, label, field, text, carriage_return,
  Row, Terminal, repeated, padded, printed_row,
}

-- The columns of a piece, with at least as many for a field as its width.
abbrev pub columns_of : Piece → ℕ
columns_of (colour c) = 0
columns_of (switch s) = 0
columns_of (box b) = 1
columns_of (bars n) = n
columns_of (label s) = length (codes s)
columns_of (field n t) = length t + (n - length t)
columns_of (text t) = length t
columns_of carriage_return = 0

abbrev pub columns : Row → ℕ
columns [] = 0
columns (p ∷ ps) = columns_of p + columns ps

pub columns-append : (x y : Row) → columns (x ++ y) ≡ columns x + columns y
columns-append [] y = omega arith
columns-append (p ∷ x) y = omega (arith, columns-append x y)

-- The lines that a row takes on a terminal of so many columns, which wraps a row that is wider.
abbrev pub row_lines : ℕ → Row → ℕ
row_lines ws_col r = suc ((columns r - 1) / ws_col)

abbrev pub lines_of : ℕ → List Row → ℕ
lines_of ws_col [] = 0
lines_of ws_col (r ∷ rows) = row_lines ws_col r + lines_of ws_col rows

-- The lines of a screen: one above the banner, the banner, if it fits into one, and the rows.
abbrev pub lines : ℕ → List Row → ℕ
lines ws_col rows = 2 + lines_of ws_col rows

-- A row that is wider than the terminal takes two lines.
pub wide-lines_of :
    (ws_col : ℕ) (rows : List Row)
    → 0 < ws_col
    → All (λ r. ws_col < columns r) rows
    → 2 * length rows ≤ lines_of ws_col rows
wide-lines_of ws_col [] pos_ wide = omega arith
wide-lines_of ws_col (r ∷ rows) pos_ (w, wide) = omega (
  arith,
  div-eq-sub-div {m = ws_col} {n = columns r - 1} pos_ (omega (arith, w)),
  wide-lines_of ws_col rows pos_ wide,
)

-- A row that fits takes one.
pub narrow-lines_of :
    (ws_col : ℕ) (rows : List Row)
    → 0 < ws_col
    → All (λ r. columns r < ws_col) rows
    → lines_of ws_col rows ≡ length rows
narrow-lines_of ws_col [] pos_ narrow = refl
narrow-lines_of ws_col (r ∷ rows) pos_ (n, narrow) = omega (
  arith,
  div-eq_of_lt {n = columns r - 1} {m = ws_col} (omega (arith, n)),
  narrow-lines_of ws_col rows pos_ narrow,
)

pub lines_of-append :
    (ws_col : ℕ) (x y : List Row) → lines_of ws_col (x ++ y) ≡ lines_of ws_col x + lines_of ws_col y
lines_of-append ws_col [] y = omega arith
lines_of-append ws_col (r ∷ x) y = omega (arith, lines_of-append ws_col x y)

-- A terminal that shows no escape, and each character of a box as one.
pub record IsPlain (term : Terminal) : Type 0 where
  pub colours : (c : Colour) → term.escape_colour c ≡ []
  pub switches : (s : Switch) → term.escape_switch s ≡ []
  pub boxes : (b : Box) → length (term.box_char b) ≡ 1

abbrev pub returns : Row → ℕ
returns [] = 0
returns (carriage_return ∷ ps) = suc (returns ps)
returns (colour c ∷ ps) = returns ps
returns (switch s ∷ ps) = returns ps
returns (box b ∷ ps) = returns ps
returns (bars n ∷ ps) = returns ps
returns (label s ∷ ps) = returns ps
returns (field n t ∷ ps) = returns ps
returns (text t ∷ ps) = returns ps

length-repeated : (n : ℕ) (t : Text) → length t ≡ 1 → length (repeated n t) ≡ n
length-repeated zero t h = refl
length-repeated (suc n) t h =
    omega (arith, length-append t (repeated n t), length-repeated n t h, h)

-- On such a terminal the columns are the bytes but the carriage returns.
pub length-printed_row :
    (term : Terminal) (r : Row) → IsPlain term → length (printed_row term r) ≡ columns r + returns r
length-printed_row term [] plain = refl
length-printed_row term (colour c ∷ ps) plain =
    rw (plain.colours c) (omega (arith, length-printed_row term ps plain))
length-printed_row term (switch s ∷ ps) plain =
    rw (plain.switches s) (omega (arith, length-printed_row term ps plain))
length-printed_row term (box b ∷ ps) plain = omega (
  arith,
  length-append (term.box_char b) (printed_row term ps),
  plain.boxes b,
  length-printed_row term ps plain,
)
length-printed_row term (bars n ∷ ps) plain = omega (
  arith,
  length-append (repeated n (term.box_char bh)) (printed_row term ps),
  length-repeated n (term.box_char bh) (plain.boxes bh),
  length-printed_row term ps plain,
)
length-printed_row term (label s ∷ ps) plain =
    omega (arith, length-append (codes s) (printed_row term ps), length-printed_row term ps plain)
length-printed_row term (field n t ∷ ps) plain = omega (
  arith,
  length-append (padded n t) (printed_row term ps),
  length-append t (replicate (n - length t) 32),
  length-replicate {A = ℕ} (n - length t) 32,
  length-printed_row term ps plain,
)
length-printed_row term (text t ∷ ps) plain =
    omega (arith, length-append t (printed_row term ps), length-printed_row term ps plain)
length-printed_row term (carriage_return ∷ ps) plain =
    omega (arith, length-printed_row term ps plain)
