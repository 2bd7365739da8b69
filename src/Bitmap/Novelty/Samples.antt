-- ===== src/Bitmap/Novelty/Samples.antt =====
-- Functions on words that meet the laws of `IsCoverage`, for the tests.
use Prim.Native.Nat.{max}
use ctfuzz.Base.{◌≡◌, ◌==◌, Bool, not, false, map, length, ==_iff, refl, true}
use ctfuzz.Bitmap.Classes.{count_class_lookup8, simplify_lookup}
use ctfuzz.Bitmap.Novelty.{Coverage}
use ctfuzz.Bitmap.Novelty.Spec.{novelty_upto, clear_upto, IsCoverage}

abbrev pub by_bytes : Coverage
by_bytes = record {
  discover_word = λ ret c v. (max ret (novelty_upto 8 c v), clear_upto 8 c v);
  skim = λ v t. not (novelty_upto (length t) (map count_class_lookup8 t) v == 0);
  classify_counts = λ t. map count_class_lookup8 t;
  simplify_trace = λ t. map simplify_lookup t;
}

not-eq-false : (b : Bool) → not b ≡ false → b ≡ true
not-eq-false true h = refl
not-eq-false false h = cc

pub by_bytes-IsCoverage : IsCoverage by_bytes
by_bytes-IsCoverage = record {
  discover_word_lem = λ ret c v lc lv. refl;
  classify_counts_lem = λ t. refl;
  simplify_trace_lem = λ t. refl;
  skim_lem = λ v t h. (==_iff _ _).0 (not-eq-false _ h);
}
