-- ===== src/Stats/Banner/Laws.antt =====
-- When the banner of a status screen fits into its buffer, and what it then shows.
use ctfuzz.Base.{
  ltb→lt, ℕ, ◌+◌, ◌-◌, ◌*◌, ◌/◌, ◌%◌, ◌^◌, ◌≤◌, ◌<◌, ◌≡◌, ◌⊎◌, inl, inr, refl, ap, ◌∙◌, Bool, true,
  false, Bool-cases, if-true, if-false, List, [], ◌∷◌, ◌++◌, All, ltb, leb, if◌then◌else◌, length,
  drop, replicate, length-append, length-drop, length-replicate, arith,
}
use ctfuzz.Base.Text.{codes}
use ctfuzz.State.{Text, Result, ok, stop, out_of_bounds, ◌>>=◌}
use ctfuzz.Stats.Banner.{
  Style, Titles, Banner, normal_titles, pizza_titles, frame, dotted, shortened, centred, banner_pad,
  banner_text, draw_new, draw_banner,
}

-- The bytes of the text that are not counted as columns: the colours, and what the title has more
-- than the 20 or 18 columns that are counted.
abbrev colours : Style → Banner → ℕ
colours st b =
    length (if b.crash_mode then st.cpin else st.cyel)
    + length st.clcy
    + length st.clbl
    + length st.clgn
    + length st.cpin

abbrev title : Titles → Banner → ℕ
title t b = length (if b.crash_mode then t.crash_title else t.fuzz_title)

text_length :
    (st : Style) (t : Titles) (b : Banner) (name : Text)
    → length (banner_text st t b name) + (if b.crash_mode then 20 else 18)
      ≡ frame st b + length name + colours st b + title t b + (if b.nyx_mode then 6 else 0)
text_length st t b name = elim (Bool-cases b.crash_mode) [
  | inl crash ↦ elim (Bool-cases b.nyx_mode) [
    | inl nyx ↦ rw (crash, nyx) (simp (length-append) (omega arith))
    | inr nyx ↦ rw (crash, nyx) (simp (length-append) (omega arith))
  ]
  | inr crash ↦ elim (Bool-cases b.nyx_mode) [
    | inl nyx ↦ rw (crash, nyx) (simp (length-append) (omega arith))
    | inr nyx ↦ rw (crash, nyx) (simp (length-append) (omega arith))
  ]
]

-- What is shown of the name beside a frame: all of it where both fit, and otherwise three dots and
-- its end.
abbrev pub IsShortened : ℕ → Text → Text → Type 0
IsShortened l name z =
    ((length name + l ≤ 75) × (z ≡ name))
    ⊎ ((75 < length name + l) × (z ≡ codes "..." ++ drop (length name + l - 73) name))

shortened_lem :
    (l : ℕ) (name : Text) → l ≤ 73 → (z : Text) × (shortened l name ≡ ok z) × IsShortened l name z
unfolding shortened dotted
shortened_lem l name h = elim (Bool-cases (ltb 75 (length name + l))) [
  | inl long ↦
      let long' : 75 < length name + l = ltb→lt 75 (length name + l) long in
      let same : length name + l - 76 + 3 ≡ length name + l - 73 = omega arith in
      (
        codes "..." ++ drop (length name + l - 73) name,
        rw long (rw same (if-true (leb (length name + l - 73) (length name)) _ _ (ground arith))),
        inr (long', refl),
      )
  | inr short ↦ (name, rw short, inl (ground arith, refl))
]

length-IsShortened :
    (l : ℕ) (name z : Text)
    → l ≤ 73
    → IsShortened l name z
    → ((length name + l ≤ 75) × (length z ≡ length name))
      ⊎ ((75 < length name + l) × (length z + l ≡ 76))
length-IsShortened l name z h (inl (fits, same)) = inl (fits, ap length same)
length-IsShortened l name z h (inr (long, end)) =
    inr (long, omega (arith, ap length end, length-drop (length name + l - 73) name))

-- The first call, where the name is shortened to `z`.
draw_banner-new :
    (st : Style) (t : Titles) (b : Banner) (z : Text)
    → b.banner ≡ []
    → frame st b + length z ≤ 79
    → shortened (frame st b) b.use_banner ≡ ok z
    → draw_banner st t b ≡ (
        centred ((79 - (frame st b + length z)) / 2) (banner_text st t b z)
        >>= (λ text. ok (record b { use_banner = z; banner = text })))
unfolding draw_banner
draw_banner-new st t b z new room short =
    let l = frame st b in
    let small : l % 2 ^ 32 ≡ l = omega arith in
    let pad : banner_pad ((l + length z) % 2 ^ 32) ≡ (79 - (l + length z)) / 2 = omega arith in
    let put : ℕ → Text → Result Banner = λ p name.
      centred p (banner_text st t b name)
      >>= (λ text. ok (record b { use_banner = name; banner = text })) in
    let rest : ℕ → Text → Result Banner =
      λ k name. put (banner_pad ((k + length name) % 2 ^ 32)) name in
    ap (λ old. elim old [ [] ↦ draw_new st t b | c ∷ cs ↦ ok b ]) new
    ∙ ap (λ k. shortened k b.use_banner >>= rest k) small
    ∙ ap (λ r. r >>= rest l) short
    ∙ ap (λ p. put p z) pad

centred-fits :
    (pad : ℕ) (text : Text)
    → pad + length text + 1 ≤ 128
    → centred pad text ≡ ok (replicate pad 32 ++ text)
unfolding centred
centred-fits pad text h = if-true (leb (pad + length text + 1) 128) _ _ (ground arith)

centred-stop :
    (pad : ℕ) (text : Text) → 128 < pad + length text + 1 → centred pad text ≡ stop out_of_bounds
unfolding centred
centred-stop pad text h = if-false (leb (pad + length text + 1) 128) _ _ (ground arith)

-- The colours that a banner has.
abbrev pub colours_of : Style → Banner → List Text
colours_of st b =
    (if b.crash_mode then st.cpin else st.cyel) ∷ st.clcy ∷ st.clbl ∷ st.clgn ∷ st.cpin ∷ []

title_length : (b : Banner) → title normal_titles b ≡ (if b.crash_mode then 20 else 18)
title_length b = elim (Bool-cases b.crash_mode) [
  | inl crash ↦ rw crash refl
  | inr fuzz ↦ rw fuzz refl
]

nyx_length : (b : Banner) → (if b.nyx_mode then 6 else 0) ≤ 6
nyx_length b = elim (Bool-cases b.nyx_mode) [
  | inl nyx ↦ rw nyx (omega arith)
  | inr other ↦ rw other (omega arith)
]

-- The columns of a banner: its text without the colours.
abbrev pub without_colours : Style → Style
without_colours st = record st { cyel = []; cpin = []; clcy = []; clbl = []; clgn = [] }

abbrev pub shown_columns : Style → Banner → Text → ℕ
shown_columns st b z = length (banner_text (without_colours st) normal_titles b z)

-- The columns of ` - Nyx`.
abbrev pub nyx_columns : Banner → ℕ
nyx_columns b = if b.nyx_mode then 6 else 0

if_same : (b : Bool) → length {A = ℕ} (if b then [] else []) ≡ 0
if_same true = refl
if_same false = refl

shown_columns_lem :
    (st : Style) (b : Banner) (z : Text)
    → shown_columns st b z ≡ frame st b + length z + nyx_columns b
shown_columns_lem st b z = omega (
  arith,
  text_length (without_colours st) normal_titles b z,
  title_length b,
  if_same b.crash_mode,
)

-- On the normal screen, with a frame of at most 73 columns and colours of at most 8 bytes, the first
-- call draws the banner: the name is shown whole where it fits into 75 columns beside the frame, and
-- otherwise as three dots and its end; the banner, less its colours, stands in the middle of the 79
-- columns, or in Nyx mode, where six columns more are shown than counted, of 85; and it fits into its
-- 128 bytes.
pub draw_banner-normal :
    (st : Style) (b : Banner)
    → b.banner ≡ []
    → frame st b ≤ 73
    → All (λ c. length c ≤ 8) (colours_of st b)
    → (z : Text) × (pad : ℕ) × (text : Text) × (draw_banner st normal_titles b
        ≡ ok (record b { use_banner = z; banner = text }))
      × IsShortened (frame st b) b.use_banner z
      × (text ≡ replicate pad 32 ++ banner_text st normal_titles b z)
      × ((2 * pad + shown_columns st b z ≡ 78 + nyx_columns b)
          ⊎ (2 * pad + shown_columns st b z ≡ 79 + nyx_columns b))
      × (length text < 128)
draw_banner-normal st b new narrow (c1, (c2, (c3, (c4, (c5, tt))))) =
    let l = frame st b in
    let (z, short, cut) = shortened_lem l b.use_banner narrow in
    let size = length-IsShortened l b.use_banner z narrow cut in
    let room : l + length z ≤ 76 = omega (arith, size) in
    let pad = (79 - (l + length z)) / 2 in
    let body = banner_text st normal_titles b z in
    let long = text_length st normal_titles b z in
    let fits : pad + length body + 1 ≤ 128 = omega (arith, long, title_length b, nyx_length b) in
    let bytes : length (replicate pad 32 ++ body) ≡ pad + length body =
      length-append (replicate pad 32) body ∙ ap (λ n. n + length body) (length-replicate pad 32) in
    (
      z,
      pad,
      replicate pad 32 ++ body,
      draw_banner-new st normal_titles b z new (omega arith) short
          ∙ ap (λ r. r >>= (λ text. ok (record b { use_banner = z; banner = text })))
              (centred-fits pad body fits),
      cut,
      refl,
      omega (arith, shown_columns_lem st b z),
      omega arith,
    )

title_excess : (b : Banner) → (if b.crash_mode then 20 else 18) + 20 ≤ title pizza_titles b
title_excess b = elim (Bool-cases b.crash_mode) [
  | inl crash ↦ rw crash (omega arith)
  | inr fuzz ↦ rw fuzz (omega arith)
]

-- On the other screen, with a frame of at most 73 columns and colours of at least 7 bytes, the first
-- call writes behind the end of its 128 bytes whenever the name has to be shortened: its titles are
-- longer than the 20 or 18 columns that it counts.
pub draw_banner-pizza :
    (st : Style) (b : Banner)
    → b.banner ≡ []
    → frame st b ≤ 73
    → 75 < length b.use_banner + frame st b
    → All (λ c. 7 ≤ length c) (colours_of st b)
    → draw_banner st pizza_titles b ≡ stop out_of_bounds
draw_banner-pizza st b new narrow long (c1, (c2, (c3, (c4, (c5, tt))))) =
    let l = frame st b in
    let (z, short, cut) = shortened_lem l b.use_banner narrow in
    let size = length-IsShortened l b.use_banner z narrow cut in
    let body = banner_text st pizza_titles b z in
    let counted = text_length st pizza_titles b z in
    draw_banner-new st pizza_titles b z new (omega (arith, size)) short
    ∙ ap (λ r. r >>= (λ text. ok (record b { use_banner = z; banner = text })))
        (centred-stop ((79 - (l + length z)) / 2) body
          (omega (arith, size, counted, title_excess b)))
