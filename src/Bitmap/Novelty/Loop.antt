-- ===== src/Bitmap/Novelty/Loop.antt =====
-- The loop of `has_new_bits` word by word is the loop over its bytes.
use Prim.Native.Nat.{max}
use ctfuzz.Base.{
  ℕ, zero, suc, ◌*◌, ◌≤◌, ◌≡◌, refl, ap, false, Bool-cases, inl, inr, some, List, [], ◌∷◌, arith,
  ◌==◌, length, ==_iff,
}
use native.Mathlib.Nat.{zero-max}
use ctfuzz.Base.Bits.{nothing-bit_and}
use ctfuzz.Bitmap.Novelty.{Coverage, nonzero_word, round, discover}
use ctfuzz.Bitmap.Novelty.Spec.{novelty_upto, clear_upto, IsCoverage}

-- `8 * i`, in the form that the byte loop computes with.
abbrev oct : ℕ → ℕ
oct zero = 0
oct (suc i) = suc (suc (suc (suc (suc (suc (suc (suc (oct i))))))))

pub oct-eq : (i : ℕ) → oct i ≡ 8 * i
oct-eq zero = refl
oct-eq (suc i) = omega (arith, oct-eq i)

-- A list that begins with eight bytes.
data Eight : List ℕ → Type 0 where
  eight : (a b c d e f g h : ℕ) (rest : List ℕ) → Eight (a ∷ b ∷ c ∷ d ∷ e ∷ f ∷ g ∷ h ∷ rest)

Eight-of : (xs : List ℕ) → 8 ≤ length xs → Eight xs
Eight-of [] l = absurd (omega arith)
Eight-of (a ∷ []) l = absurd (omega arith)
Eight-of (a ∷ b ∷ []) l = absurd (omega arith)
Eight-of (a ∷ b ∷ c ∷ []) l = absurd (omega arith)
Eight-of (a ∷ b ∷ c ∷ d ∷ []) l = absurd (omega arith)
Eight-of (a ∷ b ∷ c ∷ d ∷ e ∷ []) l = absurd (omega arith)
Eight-of (a ∷ b ∷ c ∷ d ∷ e ∷ f ∷ []) l = absurd (omega arith)
Eight-of (a ∷ b ∷ c ∷ d ∷ e ∷ f ∷ g ∷ []) l = absurd (omega arith)
Eight-of (a ∷ b ∷ c ∷ d ∷ e ∷ f ∷ g ∷ h ∷ rest) l = eight a b c d e f g h rest

max_assoc : (a b c : ℕ) → max (max a b) c ≡ max a (max b c)
max_assoc a b c = omega arith

-- A word of the run that is 0 brings nothing anew, and clears nothing.
zero_word :
    (n : ℕ) (cs vs : List ℕ)
    → nonzero_word cs ≡ false
    → (novelty_upto n cs vs ≡ 0) × (clear_upto n cs vs ≡ vs)
zero_word zero cs vs h = (refl, refl)
zero_word (suc n) [] vs h = (refl, refl)
zero_word (suc n) (c ∷ cs) [] h = (refl, refl)
zero_word (suc n) (c ∷ cs) (v ∷ vs) h = elim (Bool-cases (c == 0)) [
  | inl z ↦
      let rest = zero_word n cs vs (rw z at h) in
      rw ((==_iff c 0).0 z, nothing-bit_and, rest.0, rest.1)
        (omega arith, ap (λ x. x ∷ vs) (omega arith))
  | inr nz ↦ absurd (cc (rw nz at h))
]

module _ (cov : Coverage) (laws : IsCoverage cov) where
  round_lem :
      (ret : ℕ) (c v : List ℕ)
      → length c ≡ 8
      → length v ≡ 8
      → round cov ret c v ≡ (max ret (novelty_upto 8 c v), clear_upto 8 c v)
  unfolding round
  round_lem ret c v lc lv = elim (Bool-cases (nonzero_word c)) [
    | inl some_bit ↦ rw some_bit (laws.discover_word_lem ret c v lc lv)
    | inr none_set ↦
        rw (none_set, (zero_word 8 c v none_set).0, (zero_word 8 c v none_set).1)
          (ap (λ r. (r, v)) (omega arith))
  ]

  abbrev Loops : ℕ → Type 0
  Loops i =
      (ret : ℕ) (current virgin : List ℕ)
      → oct i ≤ length current
      → oct i ≤ length virgin
      → discover cov i ret current virgin
        ≡ some (max ret (novelty_upto (oct i) current virgin), clear_upto (oct i) current virgin)

  step :
      (i : ℕ)
      → Loops i
      → (ret : ℕ) {current virgin : List ℕ} → Eight current
      → Eight virgin
      → oct (suc i) ≤ length current
      → oct (suc i) ≤ length virgin
      → discover cov (suc i) ret current virgin
        ≡ some (
          max ret (novelty_upto (oct (suc i)) current virgin),
          clear_upto (oct (suc i)) current virgin,
        )
  unfolding discover
  step i loops ret (eight a b c d e f g h cs) (eight a' b' c' d' e' f' g' h' vs) lc lv =
      rw
        (round_lem ret (a ∷ b ∷ c ∷ d ∷ e ∷ f ∷ g ∷ h ∷ [])
          (a' ∷ b' ∷ c' ∷ d' ∷ e' ∷ f' ∷ g' ∷ h' ∷ []) refl refl)
        (rw (loops _ cs vs (omega arith) (omega arith)) (simp (max_assoc, zero-max)))

  discover-oct : (i : ℕ) → Loops i
  unfolding discover
  discover-oct zero ret cs vs lc lv = ap (λ r. some (r, vs)) (omega arith)
  discover-oct (suc i) ret cs vs lc lv =
      step i (discover-oct i) ret (Eight-of cs (omega arith)) (Eight-of vs (omega arith)) lc lv

  -- With the words of both maps in memory, the loop raises `ret` to the most novel byte and
  -- clears the run's bits.
  pub discover_lem :
      (i ret : ℕ) (current virgin : List ℕ)
      → 8 * i ≤ length current
      → 8 * i ≤ length virgin
      → discover cov i ret current virgin
        ≡ some (max ret (novelty_upto (8 * i) current virgin), clear_upto (8 * i) current virgin)
  discover_lem i ret current virgin lc lv =
      rw (← oct-eq i) (discover-oct i ret current virgin (rw oct-eq lc) (rw oct-eq lv))
