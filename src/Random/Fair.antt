-- ===== src/Random/Fair.antt =====
-- Every call returns, with a number below the limit, if the generator does not stay biased.
use ctfuzz.Base.{
  ℕ, zero, suc, ◌+◌, ◌-◌, ◌%◌, ◌^◌, ◌≤◌, ◌<◌, ◌≡◌, refl, ap, ◌∙◌, inl, inr, Bool-cases, Option,
  some, Bool, true, false, ◌==◌, leb, if◌then◌else◌, if-true, if-false, arith,
}
use ctfuzz.Random.{
  Source, Rng, is_biased, counted_down, draw, rand_below, reduced_by, by_case, rand_below_datalen,
  ◌>>=◌,
}

one_is_small : (limit : ℕ) → limit ≤ 1 → leb limit 1 ≡ true
one_is_small limit small = ground (arith, small)

not_small : (limit : ℕ) → 1 < limit → leb limit 1 ≡ false
not_small limit large = ground (arith, large)

mod_below : (a limit : ℕ) → 0 < limit → a % limit < limit
mod_below a limit pos = omega (arith, pos)

reduced_below : (a b limit : ℕ) → a < limit → a % (1 + b) < limit
reduced_below a b limit below = grind arith

module _ {G : Type 0} (source : Source G) where
  -- The seed behind so many outputs.
  abbrev pub seed_after : ℕ → G → G
  seed_after zero g = g
  seed_after (suc k) g = seed_after k (source.rand_next g).1

  -- One of the next outputs from every seed, as many as the fuel, is not biased.
  abbrev pub IsFair : ℕ → Type 0
  IsFair fuel =
      (limit : ℕ) (g : G)
      → 1 < limit
      → limit < 2 ^ 32
      → (k : ℕ) × (k < fuel) × (is_biased limit (source.rand_next (seed_after k g)).0 ≡ false)

  -- A call returns a number below the limit.
  abbrev pub Below : ℕ → Option (ℕ × Rng G) → Type 0
  Below limit o = (r : ℕ) × (t : Rng G) × (o ≡ some (r, t)) × (r < limit)

  draw_lem :
      (fuel k limit : ℕ) (g : G)
      → 0 < limit
      → k < fuel
      → is_biased limit (source.rand_next (seed_after k g)).0 ≡ false
      → (r : ℕ) × (g' : G) × (draw source fuel limit g ≡ some (r, g')) × (r < limit)
  unfolding draw
  draw_lem zero k limit g pos less fair = absurd (omega (arith, less))
  draw_lem (suc fuel) zero limit g pos less fair = (
    (source.rand_next g).0 % limit,
    (source.rand_next g).1,
    if-false _ _ _ fair,
    mod_below (source.rand_next g).0 limit pos,
  )
  draw_lem (suc fuel) (suc k) limit g pos less fair =
      elim (Bool-cases (is_biased limit (source.rand_next g).0)) [
        | inr keeps ↦ (
          (source.rand_next g).0 % limit,
          (source.rand_next g).1,
          if-false _ _ _ keeps,
          mod_below (source.rand_next g).0 limit pos,
        )
        | inl again ↦
            let (r, g', e, below) =
              draw_lem fuel k limit (source.rand_next g).1 pos (omega (arith, less)) fair in
            (r, g', if-true _ _ _ again ∙ e, below)
      ]

  module _ (fuel : ℕ) (fair : IsFair fuel) where
    -- With a generator that gives, from every seed, an output that is not biased within the fuel,
    -- rand_below returns a number below the limit, for every limit but 0 that a u32
    -- holds.
    pub rand_below_lem :
        (limit : ℕ) (s : Rng G)
        → 0 < limit
        → limit < 2 ^ 32
        → Below limit (rand_below source fuel limit s)
    unfolding rand_below
    rand_below_lem limit s pos word = elim (Bool-cases (leb limit 1)) [
      | inl small ↦ (0, s, if-true _ _ _ small, pos)
      | inr large ↦
          let s' = counted_down source s in
          let (k, less, unbiased) = fair limit s'.rand_seed (ground (arith, large)) word in
          let (r, g, e, below) = draw_lem fuel k limit s'.rand_seed pos less unbiased in
          (
            r,
            record s' { rand_seed = g },
            if-false _ _ _ large
                ∙ ap (λ o. o >>= λ (r, g). some (r, record s' { rand_seed = g })) e,
            below,
          )
    ]

    reduced_by-Below :
        (limit : ℕ) (o : Option (ℕ × Rng G))
        → 1 < limit
        → limit < 2 ^ 32
        → Below limit o
        → Below limit (o >>= reduced_by source fuel limit)
    unfolding reduced_by
    reduced_by-Below limit o large word (a, s, e, below) =
        let (b, t, e', below') =
          rand_below_lem (limit - 1) s (omega (arith, large)) (omega (arith, word)) in
        (
          a % (1 + b),
          t,
          ap (λ p. p >>= reduced_by source fuel limit) e
              ∙ ap (λ p. p >>= λ (b, s). some (a % (1 + b), s)) e',
          reduced_below a b limit below,
        )

    by_case-Below :
        (limit c : ℕ) (s : Rng G)
        → 1 < limit
        → limit < 2 ^ 32
        → Below limit (by_case source fuel limit c s)
    unfolding by_case
    by_case-Below limit c s large word =
        let first = rand_below_lem limit s (omega (arith, large)) word in
        let second = reduced_by-Below limit (rand_below source fuel limit s) large word first in
        Below-if (c == 2) (reduced_by-Below limit _ large word second)
          (Below-if (c == 1) second (Below-if (c == 0) first (1, s, refl, large)))
      where
        Below-if :
            (b : Bool) {x y : Option (ℕ × Rng G)}
            → Below limit x
            → Below limit y
            → Below limit (if b then x else y)
        Below-if true hx hy = hx
        Below-if false hx hy = hy

    -- With such a generator rand_below_datalen returns a number below the limit, on each of its three
    -- branches, for every limit but 0 that a u32
    -- holds.
    pub rand_below_datalen_lem :
        (limit : ℕ) (s : Rng G)
        → 0 < limit
        → limit < 2 ^ 32
        → Below limit (rand_below_datalen source fuel limit s)
    unfolding rand_below_datalen
    rand_below_datalen_lem limit s pos word = elim (Bool-cases (leb limit 1)) [
      | inl small ↦ (0, s, if-true _ _ _ small, pos)
      | inr large ↦
          let (c, t, e, below) = rand_below_lem 3 s (omega arith) (omega arith) in
          let (r, u, e', below') = by_case-Below limit c t (ground (arith, large)) word in
          (
            r,
            u,
            if-false _ _ _ large ∙ ap (λ p. p >>= λ (c, s). by_case source fuel limit c s) e ∙ e',
            below',
          )
    ]

    -- With a generator that gives, from every seed, an output that is not biased within the fuel,
    -- rand_below and, on each of its three branches, rand_below_datalen return a number below the
    -- limit, for every limit but 0 that a u32 holds.
    pub rand_below-Below :
        (limit : ℕ) (s : Rng G)
        → 0 < limit
        → limit < 2 ^ 32
        → Below limit (rand_below source fuel limit s)
          × Below limit (rand_below_datalen source fuel limit s)
    rand_below-Below limit s pos word =
        (rand_below_lem limit s pos word, rand_below_datalen_lem limit s pos word)
