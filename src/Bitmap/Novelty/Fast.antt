-- ===== src/Bitmap/Novelty/Fast.antt =====
-- `has_new_bits_unclassified` against `classify_counts` followed by `has_new_bits`.
use ctfuzz.Base.{
  ℕ, zero, suc, ◌≤◌, ◌≡◌, ◌⊎◌, refl, ap, ◌∙◌, sym, false, Bool-cases, inl, inr, List, [], ◌∷◌, map,
  arith, length, take, length-take,
}
use ctfuzz.State.{Afl, ok, VirginMap, virgin_bits, virgin_tmout, virgin_crash, map_of}
use ctfuzz.Bitmap.Classes.{count_class_lookup8}
use ctfuzz.Bitmap.Novelty.{Coverage, has_new_bits, classify, has_new_bits_unclassified}
use ctfuzz.Bitmap.Novelty.Laws.{span, HasRoom, found, has_new_bits_lem}
use ctfuzz.Bitmap.Novelty.Spec.{novelty_upto, IsCoverage}

-- Bytes beyond the first `n` do not matter.
novelty_upto-take :
    (f : ℕ → ℕ) (n k : ℕ) (t v : List ℕ)
    → n ≤ k
    → novelty_upto n (map f (take k t)) v ≡ novelty_upto n (map f t) v
novelty_upto-take f zero k t v h = refl
novelty_upto-take f (suc n) zero t v h = absurd (omega arith)
novelty_upto-take f (suc n) (suc k) [] v h = refl
novelty_upto-take f (suc n) (suc k) (c ∷ t) [] h = refl
novelty_upto-take f (suc n) (suc k) (c ∷ t) (x ∷ v) h =
    omega (arith, novelty_upto-take f n k t v (omega arith))

novelty_upto-zero :
    (n k : ℕ) (t v : List ℕ) → n ≤ k → novelty_upto k t v ≡ 0 → novelty_upto n t v ≡ 0
novelty_upto-zero zero k t v h z = refl
novelty_upto-zero (suc n) zero t v h z = absurd (omega arith)
novelty_upto-zero (suc n) (suc k) [] v h z = refl
novelty_upto-zero (suc n) (suc k) (c ∷ t) [] h z = refl
novelty_upto-zero (suc n) (suc k) (c ∷ t) (x ∷ v) h z =
    omega (arith, novelty_upto-zero n k t v (omega arith) (omega arith))

module _ (cov : Coverage) (laws : IsCoverage cov) where
  skimmed :
      (s : Afl) (m : VirginMap)
      → span s ≤ s.fsrv.map_size
      → s.fsrv.map_size ≤ length s.fsrv.trace_bits
      → cov.skim (map_of m s) (take s.fsrv.map_size s.fsrv.trace_bits) ≡ false
      → novelty_upto (span s) (cov.classify_counts s.fsrv.trace_bits) (map_of m s) ≡ 0
  skimmed s m narrow room e = rw (laws.classify_counts_lem) (
      sym (
        novelty_upto-take count_class_lookup8 (span s) s.fsrv.map_size s.fsrv.trace_bits
          (map_of m s) narrow)
      ∙ novelty_upto-zero (span s) (length (take s.fsrv.map_size s.fsrv.trace_bits)) _ (map_of m s)
          (omega (arith, length-take s.fsrv.map_size s.fsrv.trace_bits)) (laws.skim_lem _ _ e))

  map_of-classify : (m : VirginMap) (s : Afl) → map_of m (classify cov s) ≡ map_of m s
  map_of-classify virgin_bits s = refl
  map_of-classify virgin_tmout s = refl
  map_of-classify virgin_crash s = refl

  returned :
      (s : Afl) (m : VirginMap) {ret : ℕ} {t : Afl}
      → has_new_bits cov (classify cov s) m ≡ ok (ret, t)
      → HasRoom (classify cov s) m
      → ret ≡ found (classify cov s) m
  returned s m e room = cc (has_new_bits_lem cov laws (classify cov s) m room)

  -- Where `classify_counts` and then `has_new_bits` return `ret` in the state `t`, over maps whose
  -- words are in memory and within `map_size`, `has_new_bits_unclassified` returns `ret` too. It
  -- ends in `t`, unless `ret` is 0 and it leaves the state, with the trace, as it was.
  pub has_new_bits_unclassified_lem :
      (s : Afl) (m : VirginMap) {ret : ℕ} {t : Afl}
      → span s ≤ s.fsrv.map_size
      → s.fsrv.map_size ≤ length s.fsrv.trace_bits
      → HasRoom (classify cov s) m
      → has_new_bits cov (classify cov s) m ≡ ok (ret, t)
      → (has_new_bits_unclassified cov s m ≡ ok (ret, t))
        ⊎ ((ret ≡ 0) × (has_new_bits_unclassified cov s m ≡ ok (0, s)))
  unfolding has_new_bits_unclassified
  has_new_bits_unclassified_lem s m {ret} {t} narrow size room e =
      elim (Bool-cases (cov.skim (map_of m s) (take s.fsrv.map_size s.fsrv.trace_bits))) [
        | inl hit ↦ inl (rw hit e)
        | inr none_new ↦ inr (
          returned s m e room
              ∙ ap (novelty_upto (span s) (cov.classify_counts s.fsrv.trace_bits))
                  (map_of-classify m s)
              ∙ skimmed s m narrow size none_new,
          rw none_new,
        )
      ]
