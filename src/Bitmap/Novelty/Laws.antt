-- ===== src/Bitmap/Novelty/Laws.antt =====
-- What `has_new_bits` and `has_new_bits_unclassified` return and leave behind.
use native.Mathlib.Nat.{zero-max}
use ctfuzz.Base.{
  ℕ, ◌*◌, ◌≤◌, ◌<◌, ◌≡◌, ap, ◌∙◌, true, Bool-cases, inl, inr, ◌==◌, if◌then◌else◌, length,
}
use mathlib.Core.Path.{subst, sym}
use ctfuzz.State.{Afl, ok, VirginMap, virgin_bits, virgin_tmout, virgin_crash, map_of, with_map}
use ctfuzz.Bitmap.Novelty.{Coverage, words64, is_virgin_bits, mark_changed, has_new_bits}
use ctfuzz.Bitmap.Novelty.Loop.{discover_lem}
use ctfuzz.Bitmap.Novelty.Spec.{
  novelty_upto, clear_upto, IsCoverage, length-clear_upto, novelty_upto-clear_upto, clear_upto_idem,
  clear_upto_same, weight, weight-clear_upto_lt,
}

-- The bytes that `has_new_bits` looks at.
abbrev pub span : Afl → ℕ
span s = 8 * words64 s.fsrv.real_map_size

-- The words of the trace and of a virgin map are in memory.
pub record HasRoom (s : Afl) (m : VirginMap) : Type 0 where
  pub trace : span s ≤ length s.fsrv.trace_bits
  pub virgin : span s ≤ length (map_of m s)

-- What the call finds.
abbrev pub found : Afl → VirginMap → ℕ
found s m = novelty_upto (span s) s.fsrv.trace_bits (map_of m s)

-- What it leaves.
abbrev pub cleared : Afl → VirginMap → Afl
cleared s m = with_map m (clear_upto (span s) s.fsrv.trace_bits (map_of m s)) s

abbrev pub marked : VirginMap → ℕ → Afl → Afl
marked m ret s = record s {
  bitmap_changed =
      if ret == 0 then s.bitmap_changed else if is_virgin_bits m then true else s.bitmap_changed;
}

mark_changed-eq : (m : VirginMap) (ret : ℕ) (s : Afl) → mark_changed m ret s ≡ marked m ret s
unfolding mark_changed
mark_changed-eq m ret s = elim (Bool-cases (ret == 0)) [
  | inl none_found ↦ rw none_found
  | inr some_found ↦ elim (Bool-cases (is_virgin_bits m)) [
    | inl bits ↦ rw (some_found, bits)
    | inr other ↦ rw (some_found, other)
  ]
]

module _ (cov : Coverage) (laws : IsCoverage cov) where
  -- With room for its words, `has_new_bits` returns the novelty of the most novel byte (0 none,
  -- 1 a hit count, 2 a tuple), clears the bits of the run in the virgin map that it is given and
  -- in no other, and sets `bitmap_changed` exactly where it found something in `virgin_bits`.
  pub has_new_bits_lem :
      (s : Afl) (m : VirginMap)
      → HasRoom s m
      → has_new_bits cov s m ≡ ok (found s m, marked m (found s m) (cleared s m))
  unfolding has_new_bits
  has_new_bits_lem s m room =
      rw
        (
          discover_lem cov laws (words64 s.fsrv.real_map_size) 0 s.fsrv.trace_bits (map_of m s)
              room.trace room.virgin,
          zero-max,
        )
        (ap (λ t. ok (found s m, t)) (mark_changed-eq m (found s m) (cleared s m)))

  abbrev after : Afl → VirginMap → Afl
  after s m = marked m (found s m) (cleared s m)

  again :
      (s : Afl) (m : VirginMap) → HasRoom s m → has_new_bits cov (after s m) m ≡ ok (0, after s m)
  again s virgin_bits room =
      has_new_bits_lem (after s virgin_bits) virgin_bits
        (record { trace = room.trace; virgin = rw length-clear_upto room.virgin })
      ∙ rw (novelty_upto-clear_upto, clear_upto_idem)
  again s virgin_tmout room =
      has_new_bits_lem (after s virgin_tmout) virgin_tmout
        (record { trace = room.trace; virgin = rw length-clear_upto room.virgin })
      ∙ rw (novelty_upto-clear_upto, clear_upto_idem)
  again s virgin_crash room =
      has_new_bits_lem (after s virgin_crash) virgin_crash
        (record { trace = room.trace; virgin = rw length-clear_upto room.virgin })
      ∙ rw (novelty_upto-clear_upto, clear_upto_idem)

  -- A second call on the same run finds nothing and changes nothing.
  pub has_new_bits_twice :
      (s : Afl) (m : VirginMap) {ret : ℕ} {t : Afl}
      → HasRoom s m
      → has_new_bits cov s m ≡ ok (ret, t)
      → has_new_bits cov t m ≡ ok (0, t)
  has_new_bits_twice s m {ret} {t} room e =
      subst (λ u. has_new_bits cov u m ≡ ok (0, u)) {x = after s m} {y = t}
        (cc (has_new_bits_lem s m room)) (again s m room)

  same : (s : Afl) (m : VirginMap) → found s m ≡ 0 → after s m ≡ s
  same s virgin_bits z = rw (z, clear_upto_same (span s) s.fsrv.trace_bits s.virgin_bits z)
  same s virgin_tmout z = rw (z, clear_upto_same (span s) s.fsrv.trace_bits s.virgin_tmout z)
  same s virgin_crash z = rw (z, clear_upto_same (span s) s.fsrv.trace_bits s.virgin_crash z)

  lighter :
      (s : Afl) (m : VirginMap)
      → 0 < found s m
      → weight (map_of m (after s m)) < weight (map_of m s)
  lighter s virgin_bits h = weight-clear_upto_lt (span s) s.fsrv.trace_bits s.virgin_bits h
  lighter s virgin_tmout h = weight-clear_upto_lt (span s) s.fsrv.trace_bits s.virgin_tmout h
  lighter s virgin_crash h = weight-clear_upto_lt (span s) s.fsrv.trace_bits s.virgin_crash h

  -- With room for its words the call returns 0 only if it changes nothing, and more than 0 only
  -- if the bytes of the virgin map add up to less than before.
  pub has_new_bits_progress :
      (s : Afl) (m : VirginMap) {ret : ℕ} {t : Afl}
      → HasRoom s m
      → has_new_bits cov s m ≡ ok (ret, t)
      → (ret ≡ 0 → t ≡ s) × (0 < ret → weight (map_of m t) < weight (map_of m s))
  has_new_bits_progress s m {ret} {t} room e =
      let ends : t ≡ after s m = cc (has_new_bits_lem s m room) in
      let returns : ret ≡ found s m = cc (has_new_bits_lem s m room) in
      (λ z. ends ∙ same s m (sym returns ∙ z), λ h. rw ends (lighter s m (rw (← returns) h)))
