-- ===== src/Bitmap/Count/Totals.antt =====
-- What the three counting loops return: a sum over the bytes of the words that they read.
use mathlib.Core.Path.{subst}
use ctfuzz.Base.{
  ℕ, zero, suc, ◌+◌, ◌-◌, ◌*◌, ◌%◌, ◌^◌, ◌≤◌, ◌<◌, ◌≡◌, refl, ap, ◌∙◌, none, some, List, [], ◌∷◌,
  arith, length, take, length-take, IsBytes,
}
use ctfuzz.Bitmap.Count.{word, words, scan, count_bits, count_bytes, count_non_255_bytes}
use ctfuzz.Bitmap.Count.{bits_of_word, bytes_of_word, non_255_of_word}
use ctfuzz.Bitmap.Count.Popcount.{ones, ones_le, bits_of_word-eq-ones}
use ctfuzz.Bitmap.Count.Bytes.{
  nonzero, not_255, bytes_of_word-eq-nonzero, non_255_of_word-eq-not_255,
}

abbrev pub total : (ℕ → ℕ) → List ℕ → ℕ
total w [] = 0
total w (x ∷ xs) = w x + total w xs

-- `4 * i`, in the form that `take` computes with.
abbrev quad : ℕ → ℕ
quad zero = 0
quad (suc i) = suc (suc (suc (suc (quad i))))

quad-eq : (i : ℕ) → quad i ≡ 4 * i
quad-eq zero = refl
quad-eq (suc i) = omega (arith, quad-eq i)

-- A function of a word that adds up a function of its bytes.
abbrev IsSumOf : (ℕ → ℕ) → (ℕ → ℕ) → Type 0
IsSumOf w weight =
    (a b c d : ℕ)
    → a < 256
    → b < 256
    → c < 256
    → d < 256
    → weight (word a b c d) ≡ w a + (w b + (w c + w d))

module _ (w weight : ℕ → ℕ) (adds : IsSumOf w weight) where
  scan-quad :
      (i : ℕ) (mem : List ℕ) (ret : ℕ)
      → IsBytes mem
      → quad i ≤ length mem
      → ret < 2 ^ 32
      → scan weight i mem ret ≡ some ((ret + total w (take (quad i) mem)) % 2 ^ 32)
  unfolding scan
  scan-quad zero mem ret h l r = ap some (omega arith)
  scan-quad (suc i) [] ret h l r = absurd (omega arith)
  scan-quad (suc i) (a ∷ []) ret h l r = absurd (omega arith)
  scan-quad (suc i) (a ∷ b ∷ []) ret h l r = absurd (omega arith)
  scan-quad (suc i) (a ∷ b ∷ c ∷ []) ret h l r = absurd (omega arith)
  scan-quad (suc i) (a ∷ b ∷ c ∷ d ∷ mem) ret h l r =
      scan-quad i mem ((ret + weight (word a b c d)) % 2 ^ 32) h.1.1.1.1 (omega arith) (omega arith)
      ∙ ap some (omega (arith, adds a b c d h.0 h.1.0 h.1.1.0 h.1.1.1.0))

  pub scan-total :
      (i : ℕ) (mem : List ℕ)
      → IsBytes mem
      → 4 * i ≤ length mem
      → scan weight i mem 0 ≡ some (total w (take (4 * i) mem) % 2 ^ 32)
  scan-total i mem h l =
      subst (λ n. scan weight i mem 0 ≡ some (total w (take n mem) % 2 ^ 32)) (quad-eq i)
        (scan-quad i mem 0 h (rw quad-eq l) (omega arith) ∙ ap some (omega arith))

-- A word that is not there is read: the loop is cut off.
pub scan-none :
    (weight : ℕ → ℕ) (i : ℕ) (mem : List ℕ) (ret : ℕ)
    → length mem < 4 * i
    → scan weight i mem ret ≡ none
unfolding scan
scan-none weight zero mem ret l = absurd (omega arith)
scan-none weight (suc i) [] ret l = refl
scan-none weight (suc i) (a ∷ []) ret l = refl
scan-none weight (suc i) (a ∷ b ∷ []) ret l = refl
scan-none weight (suc i) (a ∷ b ∷ c ∷ []) ret l = refl
scan-none weight (suc i) (a ∷ b ∷ c ∷ d ∷ mem) ret l = scan-none weight i mem _ (omega arith)

total-le :
    (w : ℕ → ℕ) (k : ℕ) (xs : List ℕ)
    → ((b : ℕ) → b < 256 → w b ≤ k)
    → IsBytes xs
    → total w xs ≤ k * length xs
total-le w k [] bound h = omega arith
total-le w k (x ∷ xs) bound h = omega (arith, bound x h.0, total-le w k xs bound h.1)

take-IsBytes : (n : ℕ) (xs : List ℕ) → IsBytes xs → IsBytes (take n xs)
take-IsBytes zero xs h = tt
take-IsBytes (suc n) [] h = tt
take-IsBytes (suc n) (x ∷ xs) h = (h.0, take-IsBytes n xs h.1)

pub total-take-le :
    (w : ℕ → ℕ) (k n : ℕ) (xs : List ℕ)
    → ((b : ℕ) → b < 256 → w b ≤ k)
    → IsBytes xs
    → total w (take n xs) ≤ k * n
total-take-le w k n xs bound h =
    grind (arith, total-le w k (take n xs) bound (take-IsBytes n xs h), length-take n xs)

module _ (real_map_size : ℕ) (mem : List ℕ) (h : IsBytes mem)
    (room : 4 * words real_map_size ≤ length mem) where
  -- Over a map of bytes whose words are all in memory, and of at most 2^29 - 4 bytes so that the
  -- sum fits, `count_bits` returns the number of ones in the bytes of these words.
  pub count_bits-total :
      real_map_size ≤ 2 ^ 29 - 4
      → count_bits real_map_size mem ≡ some (total (ones 8) (take (4 * words real_map_size) mem))
  unfolding count_bits
  count_bits-total small =
      scan-total (ones 8) bits_of_word bits_of_word-eq-ones (words real_map_size) mem h room
      ∙ ap some (omega (arith, total-take-le (ones 8) 8 (4 * words real_map_size) mem ones_le h))

  -- Over a map of bytes whose words are all in memory, `count_bytes` returns how many bytes of
  -- these words are not 0.
  pub count_bytes-total :
      count_bytes real_map_size mem ≡ some (total nonzero (take (4 * words real_map_size) mem))
  unfolding count_bytes
  count_bytes-total =
      scan-total nonzero bytes_of_word bytes_of_word-eq-nonzero (words real_map_size) mem h room
      ∙ ap some (
          omega
            (arith, total-take-le nonzero 1 (4 * words real_map_size) mem (λ b _. ground arith) h))

  -- Over a map of bytes whose words are all in memory, `count_non_255_bytes` returns how many
  -- bytes of these words are not 255.
  pub count_non_255_bytes-total :
      count_non_255_bytes real_map_size mem
      ≡ some (total not_255 (take (4 * words real_map_size) mem))
  unfolding count_non_255_bytes
  count_non_255_bytes-total =
      scan-total not_255 non_255_of_word non_255_of_word-eq-not_255 (words real_map_size) mem h room
      ∙ ap some (
          omega
            (arith, total-take-le not_255 1 (4 * words real_map_size) mem (λ b _. ground arith) h))

  -- Over a map of bytes whose words are all in memory, count_bytes returns how many bytes of these
  -- words are not 0, and count_non_255_bytes how many are not 255.
  pub byte_counts :
      (count_bytes real_map_size mem ≡ some (total nonzero (take (4 * words real_map_size) mem)))
      × (count_non_255_bytes real_map_size mem
          ≡ some (total not_255 (take (4 * words real_map_size) mem)))
  byte_counts = (count_bytes-total, count_non_255_bytes-total)
