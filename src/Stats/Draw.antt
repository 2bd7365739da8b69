-- ===== src/Stats/Draw.antt =====
-- What the status screens of `ctfuzz/afl/afl-fuzz-stats.c` draw beneath the banner: the pieces that
-- the arguments of `SAYF` are made of. The escapes and the characters of boxes are those of `debug.h`.
pub mod Screen
pub mod Columns
pub mod Widths
pub mod Layout
pub mod Tty
pub mod Terminals
mod Tests
pub mod Cells
pub mod Yields
pub mod Normal
pub mod Pizza
use Prim.Native.String.{String}
use ctfuzz.Base.{ℕ, suc, zero, ◌+◌, ◌-◌, List, [], ◌∷◌, ◌++◌, length, replicate}
use ctfuzz.Base.Text.{codes}
use ctfuzz.State.{Text}

pub data Colour : Type 0 where
  cgra clrd cyel crst cmgn clgn clbl cpin ccya : Colour

pub data Switch : Type 0 where
  bstart bstop set_g1 reset_g1 : Switch

pub data Box : Type 0 where
  bh bv blt brt blb brb bvr bvl bht bhb bx : Box

-- `bars n` is `bH` n times, as in `bH20`; `field n t` is `%-ns`, and `text` a `%s` or a number.
pub data Piece : Type 0 where
  colour : Colour → Piece
  switch : Switch → Piece
  box : Box → Piece
  bars : ℕ → Piece
  label : String → Piece
  field : ℕ → Text → Piece
  text : Text → Piece
  carriage_return : Piece

abbrev pub Row : Type 0
Row = List Piece

pub record Terminal : Type 0 where
  pub escape_colour : Colour → Text
  pub escape_switch : Switch → Text
  pub box_char : Box → Text

abbrev pub repeated : ℕ → Text → Text
repeated zero t = []
repeated (suc n) t = t ++ repeated n t

-- `%-ns`: spaces behind a text that is shorter than n.
abbrev pub padded : ℕ → Text → Text
padded n t = t ++ replicate (n - length t) 32

abbrev pub printed : Terminal → Piece → Text
printed term (colour c) = term.escape_colour c
printed term (switch s) = term.escape_switch s
printed term (box b) = term.box_char b
printed term (bars n) = repeated n (term.box_char bh)
printed term (label s) = codes s
printed term (field n t) = padded n t
printed term (text t) = t
printed term carriage_return = 13 ∷ []

-- The bytes of a row.
abbrev pub printed_row : Terminal → Row → Text
printed_row term [] = []
printed_row term (p ∷ ps) = printed term p ++ printed_row term ps
