-- ===== src/Stats/Draw/Widths.antt =====
-- The widths of the texts in the fields of the status screens.
use ctfuzz.Base.{
  ℕ, ◌+◌, ◌*◌, ◌^◌, ◌≤◌, ◌<◌, ◌≡◌, ◌⊎◌, Bool, true, false, not, ◌&&◌, Bool-cases, inl, inr, [],
  ◌++◌, ◌==◌, leb, if◌then◌else◌, length, length-append, arith,
}
use ctfuzz.Base.Text.{codes}
use ctfuzz.State.{Text}
use ctfuzz.Stats.File.{sub64}
use ctfuzz.Stats.Draw.Screen.{Formats, Reals, Caps, Screen, stage_havoc, stage_splice}
use ctfuzz.Stats.Draw.Cells.{
  plus_from, percentage, with_share, saved_crashes_cell, saved_hangs_cell, processing_cell,
  density_cell, tuple_cell, stage_cell, saved_of, crashes_cell, tmouts_cell, is_slow, speed_cell,
}
use ctfuzz.Stats.Draw.Yields.{
  imported_cell, havoc_cell, stability_cell, trim_part, eff_part, trim_cell,
}

-- A time that has not come, or that lies less than 10000 days back.
abbrev pub IsRecent : ℕ → ℕ → Type 0
IsRecent now event = (event ≡ 0) ⊎ ((event ≤ now) × (now < event + 864000000000))

-- The formats of AFL++ give at most five characters for a number and 33 for a recent time, `%u` prints
-- three for a number below 1000, as `%03u` and `%3u` do, and a share of at most 100 % has three digits before the point.
pub record AreShort {F : Type 0} (fmt : Formats F) (reals : Reals F) : Type 0 where
  pub ints : (n : ℕ) → length (fmt.int n) ≤ 5
  pub floats : (x : F) → length (fmt.float x) ≤ 5
  pub times : (a b : ℕ) → IsRecent a b → length (fmt.time_diff a b) ≤ 33
  pub decimals : (n : ℕ) → n < 1000 → length (fmt.decimal n) ≤ 3
  pub shares : (k a b : ℕ) → a ≤ b → length (fmt.fixed k (reals.percent a b)) ≤ 4 + k
  pub tuples : (a b : ℕ) → a ≤ 8 * b → length (fmt.fixed 2 (reals.quotient a b)) ≤ 6
  pub noughts : length (fmt.fixed 2 reals.nought) ≤ 6
  pub rests : (a b : ℕ) → a ≤ b → length (fmt.fixed 2 (reals.less_100 (reals.percent a b))) ≤ 6
  pub zeros : (n : ℕ) → n ≤ 999 → length (fmt.zero3 n) ≤ 3
  pub pads : (n : ℕ) → n ≤ 999 → length (fmt.pad3 n) ≤ 3
  pub hundreds : length (fmt.fixed 2 (reals.less_100 reals.nought)) ≤ 6

-- What the counts of a session keep to, with a stage of a name and an entry of a level that fit.
pub record IsShown {F : Type 0} (s : Screen F) : Type 0 where
  pub entry : s.current_entry ≤ s.queued_items
  pub skipped : s.cur_skipped_items ≤ s.queued_items
  pub favored : s.queued_favored ≤ s.queued_items
  pub covering : s.queued_with_cov ≤ s.queued_items
  pub entry_bytes : s.bitmap_size ≤ s.real_map_size
  pub bytes : s.t_bytes ≤ s.real_map_size
  pub bits : s.t_bits ≤ 8 * s.t_bytes
  pub stage : s.stage_cur ≤ s.stage_max
  pub varying : s.var_byte_count ≤ s.t_bytes
  pub level : s.fuzz_level < 1000
  pub trimmed : s.bytes_trim_out ≤ s.bytes_trim_in
  pub trim_word : s.bytes_trim_in < 2 ^ 64
  pub name : length s.stage_name ≤ 22

-- The times that are shown.
pub record AreRecent {F : Type 0} (now : ℕ) (s : Screen F) : Type 0 where
  pub start : IsRecent (s.prev_run_time + now) s.start_time
  pub find : IsRecent now s.last_find_time
  pub crash : IsRecent now s.last_crash_time
  pub hang : IsRecent now s.last_hang_time

pub length-if :
    (b : Bool) (t u : Text) (n : ℕ) → length t ≤ n → length u ≤ n → length (if b then t else u) ≤ n
length-if true t u n ht hu = ht
length-if false t u n ht hu = hu

module _ {F : Type 0} (fmt : Formats F) (reals : Reals F) (caps : Caps) (s : Screen F)
    (short : AreShort fmt reals) (is : IsShown s) where
  length-plus_from : (limit n : ℕ) → length (plus_from fmt reals caps s limit n) ≤ 1
  length-plus_from limit n = length-if (leb limit n) (codes "+") [] 1 (omega arith) (omega arith)

  length-percentage : (a b : ℕ) → a ≤ b → length (percentage fmt reals caps s a b) ≤ 7
  length-percentage a b h =
      omega
        (arith, length-append (fmt.fixed 2 (reals.percent a b)) (codes "%"), short.shares 2 a b h)

  pub length-with_share : (n : ℕ) → n ≤ s.queued_items → length (with_share fmt reals caps s n) ≤ 15
  length-with_share n h =
      simp (length-append) (omega (arith, short.ints n, short.shares 2 n s.queued_items h))

  pub length-saved_crashes_cell : length (saved_crashes_cell fmt reals caps s) ≤ 6
  length-saved_crashes_cell = simp (length-append) (
      omega (
        arith,
        short.ints s.saved_crashes,
        length-plus_from caps.keep_unique_crash s.saved_crashes,
      ))

  pub length-saved_hangs_cell : length (saved_hangs_cell fmt reals caps s) ≤ 6
  length-saved_hangs_cell = simp (length-append) (
      omega (arith, short.ints s.saved_hangs, length-plus_from caps.keep_unique_hang s.saved_hangs))

  pub length-processing_cell : length (processing_cell fmt reals caps s) ≤ 18
  length-processing_cell =
      let mark = length-if s.favored (codes ".") (codes "*") 1 (omega arith) (omega arith) in
      simp (length-append) (
        omega (
          arith,
          short.ints s.current_entry,
          mark,
          short.decimals s.fuzz_level is.level,
          short.shares 1 s.current_entry s.queued_items is.entry,
        ))

  pub length-density_cell : length (density_cell fmt reals caps s) ≤ 19
  length-density_cell =
      let entry = length-percentage s.bitmap_size s.real_map_size is.entry_bytes in
      let all = length-percentage s.t_bytes s.real_map_size is.bytes in
      omega (
        arith,
        length-append (percentage fmt reals caps s s.bitmap_size s.real_map_size)
            (codes " / " ++ percentage fmt reals caps s s.t_bytes s.real_map_size),
        entry,
        all,
      )

  pub length-tuple_cell : length (tuple_cell fmt reals caps s) ≤ 19
  length-tuple_cell = elim (Bool-cases (s.t_bytes == 0)) [
    | inl zero ↦ rw zero (simp (length-append) (omega (arith, short.noughts)))
    | inr some_ ↦
        rw some_ (simp (length-append) (omega (arith, short.tuples s.t_bits s.t_bytes is.bits)))
  ]

  pub length-stage_cell : length (stage_cell fmt reals caps s) ≤ 23
  length-stage_cell =
      let share = length-percentage s.stage_cur s.stage_max is.stage in
      length-if (s.stage_max == 0) _ _ 23
        (simp (length-append) (omega (arith, short.ints s.stage_cur)))
        (simp (length-append) (
          omega (
            arith,
            short.ints s.stage_cur,
            short.ints s.stage_max,
            short.shares 2 s.stage_cur s.stage_max is.stage,
          )))

  length-saved_of :
      (total saved : ℕ) (plus : Text)
      → length plus ≤ 1
      → length (saved_of fmt reals caps s total saved plus) ≤ 20
  length-saved_of total saved plus h =
      simp (length-append) (omega (arith, short.ints total, short.ints saved, h))

  pub length-crashes_cell : length (crashes_cell fmt reals caps s) ≤ 20
  length-crashes_cell =
      length-saved_of s.total_crashes s.saved_crashes _
        (length-plus_from caps.keep_unique_crash s.saved_crashes)

  pub length-tmouts_cell : length (tmouts_cell fmt reals caps s) ≤ 20
  length-tmouts_cell =
      length-saved_of s.total_tmouts s.saved_tmouts _
        (length-plus_from caps.keep_unique_hang s.saved_hangs)

  pub length-speed_cell :
      (slow : Text) → length slow ≤ 8 → length (speed_cell fmt reals caps s slow) ≤ 22
  length-speed_cell slow h =
      let remark =
        length-if (reals.below s.stats_avg_exec 20) (codes "zzzz...") slow 8 (omega arith) h in
      length-if (is_slow fmt reals caps s) _ _ 22
        (simp (length-append) (omega (arith, short.floats s.stats_avg_exec, remark)))
        (simp (length-append) (omega (arith, short.floats s.stats_avg_exec)))

  pub length-havoc_cell : length (havoc_cell fmt reals caps s) ≤ 36
  length-havoc_cell = simp (length-append) (
      omega (
        arith,
        short.ints (s.stage_finds stage_havoc),
        short.ints (s.stage_cycles stage_havoc),
        short.ints (s.stage_finds stage_splice),
        short.ints (s.stage_cycles stage_splice),
      ))

  pub length-imported_cell : length (imported_cell fmt reals caps s) ≤ 10
  length-imported_cell =
      length-if s.sync_id (fmt.int s.queued_imported) (codes "n/a") 10
        (omega (arith, short.ints s.queued_imported)) (omega arith)

  pub length-stability_cell : length (stability_cell fmt reals caps s) ≤ 10
  length-stability_cell =
      length-if (s.t_bytes == 0) _ _ 10 (omega arith)
        (elim (Bool-cases (not (s.t_bytes == 0) && not (s.var_byte_count == 0))) [
          | inl varies ↦ rw varies (
              simp (length-append)
                (omega (arith, short.rests s.var_byte_count s.t_bytes is.varying)))
          | inr stable ↦ rw stable (simp (length-append) (omega (arith, short.hundreds)))
        ])

  length-trim_part : length (trim_part fmt reals caps s) ≤ 15
  length-trim_part =
      let less : sub64 s.bytes_trim_in s.bytes_trim_out ≤ s.bytes_trim_in =
        omega (arith, is.trimmed, is.trim_word) in
      length-if s.disable_trim _ _ 15 (omega arith) (
        length-if (s.bytes_trim_out == 0) _ _ 15 (omega arith) (
          simp (length-append) (
            omega (
              arith,
              short.shares 2 (sub64 s.bytes_trim_in s.bytes_trim_out) s.bytes_trim_in less,
              short.ints s.trim_execs,
            ))))

  pub length-trim_cell : s.skip_deterministic ≡ true → length (trim_cell fmt reals caps s) ≤ 36
  length-trim_cell skips_stages =
      let eff : length (eff_part fmt reals caps s) ≤ 8 = rw skips_stages (omega arith) in
      omega (
        arith,
        length-append (trim_part fmt reals caps s) (eff_part fmt reals caps s),
        length-trim_part,
        eff,
      )
