-- ===== src/Stats/Draw/Tty.antt =====
-- When the status screens of `ctfuzz/afl/afl-fuzz-stats.c` are drawn.
use ctfuzz.Base.{ℕ, Bool, true, false, not, Option, List, if◌then◌else◌, ◌≡◌, refl}
use ctfuzz.Stats.Screen.Pizza.{check_term_size}
use ctfuzz.Stats.Draw.{Row}

-- `queue_cur` is whether it is set.
pub record Tty : Type 0 where
  pub not_on_tty : Bool
  pub queue_cur : Bool
  pub clear_screen : Bool
  pub term_too_small : Bool

-- Nothing, the message on a small terminal, or the banner and the rows beneath it.
pub data Output : Type 0 where
  nothing too_small : Output
  drawn : List Row → Output

-- `if (afl->clear_screen)`, with what `ioctl` gives.
abbrev pub cleared : Option (ℕ × ℕ) → Tty → Tty
cleared size t =
    if t.clear_screen
    then record t { clear_screen = false; term_too_small = check_term_size size }
    else t

unfoldable pub draw_screen : Option (ℕ × ℕ) → List Row → Tty → Tty × Output
draw_screen size rows t =
    if t.not_on_tty
    then (t, nothing)
    else if not t.queue_cur
    then (t, nothing)
    else let u = cleared size t in (u, if u.term_too_small then too_small else drawn rows)

-- Just started, or behind a change of the size, on a terminal.
pub record IsResized (t : Tty) : Type 0 where
  pub on_tty : t.not_on_tty ≡ false
  pub queue_cur : t.queue_cur ≡ true
  pub clear_screen : t.clear_screen ≡ true

pub draw_screen-IsResized :
    (size : Option (ℕ × ℕ)) (rows : List Row) (t : Tty)
    → IsResized t
    → (draw_screen size rows t).1 ≡ (if check_term_size size then too_small else drawn rows)
unfolding draw_screen
draw_screen-IsResized size rows t is = rw (is.on_tty, is.queue_cur, is.clear_screen) refl
