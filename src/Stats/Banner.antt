-- ===== src/Stats/Banner.antt =====
-- The banner of the two status screens: the block `if (!banner[0])` that `show_stats_normal` and
-- `show_stats_pizza` of `ctfuzz/afl/afl-fuzz-stats.c` share but for their titles. `strlen` is the
-- length of a text, and `sprintf` its formatted text with the final 0.
pub mod Laws
use ctfuzz.Base.{
  ℕ, ◌+◌, ◌-◌, ◌/◌, ◌%◌, ◌^◌, Bool, Option, some, none, List, [], ◌∷◌, ◌++◌, ltb, leb,
  if◌then◌else◌, length, drop, replicate,
}
use ctfuzz.Base.Text.{codes}
use ctfuzz.State.{Text, Result, ok, stop, out_of_bounds, ◌>>=◌}

-- `VERSION`, and the colours of `debug.h`.
pub record Style : Type 0 where
  pub version : Text
  pub cyel : Text
  pub cpin : Text
  pub clcy : Text
  pub clbl : Text
  pub clgn : Text

-- The titles of a screen: in crash mode, and otherwise.
pub record Titles : Type 0 where
  pub crash_title : Text
  pub fuzz_title : Text

abbrev pub normal_titles : Titles
normal_titles = record {
  crash_title = codes "peruvian were-rabbit";
  fuzz_title = codes "american fuzzy lop";
}

abbrev pub pizza_titles : Titles
pizza_titles = record {
  crash_title = codes "Mozzarbella Pizzeria table booking system";
  fuzz_title = codes "Mozzarbella Pizzeria management system";
}

-- What the banner is made of, and the static buffer, which is empty before the first call.
pub record Banner : Type 0 where
  pub sync_id : Option Text
  pub power_name : Text
  pub use_banner : Text
  pub crash_mode : Bool
  pub nyx_mode : Bool
  pub banner : Text

abbrev pub si_of : Banner → Text
si_of b = elim b.sync_id [ some id ↦ id | none ↦ [] ]

-- The columns without `use_banner`.
abbrev pub frame : Style → Banner → ℕ
frame st b =
    (if b.crash_mode then 20 else 18)
    + length st.version
    + length (si_of b)
    + length b.power_name
    + 4
    + 6

-- `use_banner += n` and three dots there: the text ends with a 0, which the dots must not overwrite.
unfoldable pub dotted : ℕ → Text → Result Text
dotted n name =
    if leb (n + 3) (length name)
    then ok (replicate 3 46 ++ drop (n + 3) name)
    else stop out_of_bounds

-- `use_banner`, for a `banner_len` of 32 bits.
unfoldable pub shortened : ℕ → Text → Result Text
shortened banner_len name =
    if ltb 75 (length name + banner_len)
    then dotted (length name + banner_len - 76) name
    else ok name

-- `(79 - banner_len) / 2` as a `u32`.
abbrev pub banner_pad : ℕ → ℕ
banner_pad banner_len = (79 + 2 ^ 32 - banner_len) % 2 ^ 32 / 2

-- The formatted text.
abbrev pub banner_text : Style → Titles → Banner → Text → Text
banner_text st t b name =
    (if b.crash_mode then st.cpin ++ t.crash_title else st.cyel ++ t.fuzz_title)
    ++ codes " "
    ++ st.clcy
    ++ st.version
    ++ st.clbl
    ++ codes " {"
    ++ si_of b
    ++ codes "} "
    ++ st.clgn
    ++ codes "("
    ++ name
    ++ codes ") "
    ++ st.cpin
    ++ codes "["
    ++ b.power_name
    ++ codes "]"
    ++ (if b.nyx_mode then codes " - Nyx" else [])

-- The text behind `pad` spaces in the buffer of 128 bytes.
unfoldable pub centred : ℕ → Text → Result Text
centred pad text =
    if leb (pad + length text + 1) 128 then ok (replicate pad 32 ++ text) else stop out_of_bounds

-- The block, behind `!banner[0]`.
abbrev pub draw_new : Style → Titles → Banner → Result Banner
draw_new st t b =
    let banner_len = frame st b % 2 ^ 32 in
    shortened banner_len b.use_banner >>= (λ name.
      centred (banner_pad ((banner_len + length name) % 2 ^ 32)) (banner_text st t b name)
      >>= (λ text. ok (record b { use_banner = name; banner = text })))

unfoldable pub draw_banner : Style → Titles → Banner → Result Banner
draw_banner st t b = elim b.banner [ [] ↦ draw_new st t b | c ∷ cs ↦ ok b ]
