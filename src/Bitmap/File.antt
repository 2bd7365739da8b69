-- ===== src/Bitmap/File.antt =====
-- `write_bitmap` of `ctfuzz/afl/afl-fuzz-bitmap.c`, and the file that it keeps.
use mathlib.Core.Path.{sym, subst}
use ctfuzz.Base.{
  ℕ, ◌≡◌, refl, ◌∙◌, Bool, true, false, Bool-cases, inl, inr, Option, none, some, List, [], ◌∷◌,
  ◌++◌, ◌==◌, ==_iff, if-false, leb, if◌then◌else◌, length, take, arith,
}
use ctfuzz.Base.Text.{codes, str_eq}
use ctfuzz.State.{
  Afl, Text, Result, ok, stop, cannot_create, out_of_bounds, VirginMap, virgin_bits, virgin_tmout,
  virgin_crash,
}
use ctfuzz.Bitmap.Novelty.{Coverage, has_new_bits}
use ctfuzz.Bitmap.Novelty.Spec.{IsCoverage, clear_upto_same}
use ctfuzz.Bitmap.Novelty.Laws.{HasRoom, span, found, cleared, marked, has_new_bits_lem}

abbrev pub bitmap_name : Text → Text
bitmap_name out_dir = out_dir ++ codes "/fuzz_bitmap"

-- The bytes of a file: the last that were written to its name.
abbrev pub file : Text → List (Text × List ℕ) → Option (List ℕ)
file fn [] = none
file fn ((name, bytes) ∷ files) = if str_eq name fn then some bytes else file fn files

-- `can_open` is whether `open(fname, O_WRONLY | O_CREAT | O_TRUNC, ...)` succeeds.
unfoldable pub write_bitmap : (Text → Afl → Bool) → Afl → Result Afl
write_bitmap can_open s =
    let fname = bitmap_name s.out_dir in
    let s' = record s { bitmap_changed = false } in
    if s.bitmap_changed
    then if can_open fname s'
      then if leb s.fsrv.map_size (length s.virgin_bits)
        then ok (record s' { files = (fname, take s.fsrv.map_size s.virgin_bits) ∷ s.files })
        else stop out_of_bounds
      else stop cannot_create
    else ok s

-- The file is what `virgin_bits` was when `bitmap_changed` was last cleared: where the flag is not
-- set, the file holds the map.
abbrev pub IsSaved : Afl → Type 0
IsSaved s =
    s.bitmap_changed ≡ false
    → file (bitmap_name s.out_dir) s.files ≡ some (take s.fsrv.map_size s.virgin_bits)

str_eq_self : (t : Text) → str_eq t t ≡ true
str_eq_self [] = refl
str_eq_self (c ∷ cs) = ground (arith, str_eq_self cs)

-- A call that returns leaves the flag cleared and the file with the map's bytes, or finds the flag
-- cleared and does nothing.
write_bitmap_lem :
    (can_open : Text → Afl → Bool) (s t : Afl)
    → write_bitmap can_open s ≡ ok t
    → IsSaved s
    → IsSaved t
unfolding write_bitmap
write_bitmap_lem can_open s t e saved = elim (Bool-cases s.bitmap_changed) [
  | inl changed ↦
      elim (Bool-cases (can_open (bitmap_name s.out_dir) (record s { bitmap_changed = false }))) [
        | inr closed ↦ cc (rw (changed, closed) at e)
        | inl opened ↦ elim (Bool-cases (leb s.fsrv.map_size (length s.virgin_bits))) [
          | inr short ↦ cc (rw (changed, opened, short) at e)
          | inl long ↦
              let written = record s {
                bitmap_changed = false;
                files = (bitmap_name s.out_dir, take s.fsrv.map_size s.virgin_bits) ∷ s.files;
              } in
              let ends : ok written ≡ ok t = rw (changed, opened, long) at e in
              subst IsSaved {x = written} {y = t} (cc ends)
                (λ quiet. rw (str_eq_self (bitmap_name s.out_dir)) refl)
        ]
      ]
  | inr same ↦
      let ends : ok s ≡ ok t = sym (if-false s.bitmap_changed _ _ same) ∙ e in
      subst IsSaved {x = s} {y = t} (cc ends) saved
]

same_flag : (b c : Bool) → (if b then c else c) ≡ false → c ≡ false
same_flag true c e = e
same_flag false c e = e

has_new_bits-IsSaved :
    (cov : Coverage) (laws : IsCoverage cov) (s t : Afl) (m : VirginMap) (ret : ℕ)
    → HasRoom s m
    → has_new_bits cov s m ≡ ok (ret, t)
    → IsSaved s
    → IsSaved t
has_new_bits-IsSaved cov laws s t m ret room e saved =
    let ends : t ≡ marked m (found s m) (cleared s m) = cc (has_new_bits_lem cov laws s m room) in
    subst IsSaved (sym ends) (look m)
  where
    look : (m : VirginMap) → IsSaved (marked m (found s m) (cleared s m))
    look virgin_bits quiet = elim (Bool-cases (found s virgin_bits == 0)) [
      | inr new ↦ cc (rw new at quiet)
      | inl old ↦
          rw (clear_upto_same (span s) s.fsrv.trace_bits s.virgin_bits ((==_iff _ _).0 old))
            (saved (rw old at quiet))
    ]
    look virgin_tmout quiet = saved (same_flag (found s virgin_tmout == 0) s.bitmap_changed quiet)
    look virgin_crash quiet = saved (same_flag (found s virgin_crash == 0) s.bitmap_changed quiet)

-- The calls that touch the map, the flag or the file, in any order, and the runs of the target between
-- them, each of which leaves whatever trace it does. What `classify_counts` and `simplify_trace` make
-- of a trace is a trace too.
pub data Step (cov : Coverage) (can_open : Text → Afl → Bool) : Afl → Afl → Type 0 where
  looked :
      {s t : Afl} (m : VirginMap) (ret : ℕ)
      → HasRoom s m
      → has_new_bits cov s m ≡ ok (ret, t)
      → Step cov can_open s t
  wrote : {s t : Afl} → write_bitmap can_open s ≡ ok t → Step cov can_open s t
  ran :
      {s : Afl} (trace_bits : List ℕ)
      → Step cov can_open s (record s { fsrv = record s.fsrv { trace_bits = trace_bits } })

pub data Reach (cov : Coverage) (can_open : Text → Afl → Bool) (s : Afl) : Afl → Type 0 where
  here : Reach cov can_open s s
  next : {t u : Afl} → Reach cov can_open s t → Step cov can_open t u → Reach cov can_open s u

module _ (cov : Coverage) (laws : IsCoverage cov) (can_open : Text → Afl → Bool) where
  Step-IsSaved : {s t : Afl} → Step cov can_open s t → IsSaved s → IsSaved t
  Step-IsSaved {s} {t} (looked m ret room e) = has_new_bits-IsSaved cov laws s t m ret room e
  Step-IsSaved {s} {t} (wrote e) = write_bitmap_lem can_open s t e
  Step-IsSaved {s} {t} (ran trace_bits) = λ saved. saved

  -- Whatever runs of the target, with whatever traces, calls of has_new_bits, on any of the three
  -- maps and with its words in memory, and calls of write_bitmap that return follow each other:
  -- where bitmap_changed is not set, the file fuzz_bitmap holds the bytes of virgin_bits, if that
  -- is so at the start. No find of any run is left out of the file without the flag.
  pub Reach-IsSaved : {s t : Afl} → IsSaved s → Reach cov can_open s t → IsSaved t
  Reach-IsSaved saved here = saved
  Reach-IsSaved saved (next r step) = Step-IsSaved step (Reach-IsSaved saved r)
