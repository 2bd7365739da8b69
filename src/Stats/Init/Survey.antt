-- ===== src/Stats/Init/Survey.antt =====
-- What the loop of `show_init_stats` over the seeds finds.
use ctfuzz.Base.{
  ℕ, ◌≤◌, ◌<◌, ◌≡◌, false, Bool-cases, inl, inr, List, [], ◌∷◌, ◌∙◌, if-true, if-false, All, arith,
}
use mathlib.Core.Path.{sym, subst}
use ctfuzz.Stats.Init.{Seed, Range, lower, higher, noted, survey, nothing_noted}

-- The range `r` holds the seed's time and length.
abbrev pub IsWithin : Range → Seed → Type 0
IsWithin r q = (r.min_us ≤ q.exec_us) × (q.exec_us ≤ r.max_us) × (q.len ≤ r.max_len)

-- The range `t` holds what `r` holds; a lowest time of 0 stands for none.
abbrev IsWider : Range → Range → Type 0
IsWider r t =
    (r.max_us ≤ t.max_us)
    × (r.max_len ≤ t.max_len)
    × (0 < r.min_us → (0 < t.min_us) × (t.min_us ≤ r.min_us))

higher-le : (n h : ℕ) → (n ≤ higher n h) × (h ≤ higher n h)
higher-le n h = (ground arith, ground arith)

lower-le : (n l : ℕ) → 0 < n → (lower n l ≤ n) × (0 < lower n l)
lower-le n l above = (ground (arith, above), ground (arith, above))

lower-below : (n l : ℕ) → 0 < l → lower n l ≤ l
lower-below n l above = ground (arith, above)

noted-IsWider : (q : Seed) (r : Range) → 0 < q.exec_us → IsWider r (noted q r)
noted-IsWider q r above = (
  (higher-le q.exec_us r.max_us).1,
  (higher-le q.len r.max_len).1,
  λ old. ((lower-le q.exec_us r.min_us above).1, lower-below q.exec_us r.min_us old),
)

IsWider-trans : (r t u : Range) → IsWider r t → IsWider t u → IsWider r u
IsWider-trans r t u a b = (
  omega (arith, a.0, b.0),
  omega (arith, a.1, b.1),
  λ above.
      let (x, below) = a.2 above in let (y, below') = b.2 x in (y, omega (arith, below, below')),
)

-- A seed that is not disabled took some time.
abbrev pub TookTime : Seed → Type 0
TookTime q = q.disabled ≡ false → 0 < q.exec_us

survey-IsWider : (seeds : List Seed) (r : Range) → All TookTime seeds → IsWider r (survey seeds r)
unfolding survey
survey-IsWider [] r h = (omega arith, omega arith, λ above. (above, omega arith))
survey-IsWider (q ∷ seeds) r h = elim (Bool-cases q.disabled) [
  | inl off ↦ rw off (survey-IsWider seeds r h.1)
  | inr on ↦ rw on (
      IsWider-trans r (noted q r) (survey seeds (noted q r)) (noted-IsWider q r (h.0 on))
        (survey-IsWider seeds (noted q r) h.1))
]

abbrev AllWithin : Range → List Seed → Type 0
AllWithin t seeds = All (λ q. q.disabled ≡ false → IsWithin t q) seeds

within : (seeds : List Seed) (r : Range) → All TookTime seeds → AllWithin (survey seeds r) seeds
unfolding survey
within [] r h = tt
within (q ∷ seeds) r h = elim (Bool-cases q.disabled) [
  | inl off ↦
      subst (λ t. AllWithin (survey seeds t) (q ∷ seeds))
        (sym (if-true q.disabled r (noted q r) off)) ((λ on. cc (sym off ∙ on)), within seeds r h.1)
  | inr on ↦
      let wider = survey-IsWider seeds (noted q r) h.1 in
      let low = lower-le q.exec_us r.min_us (h.0 on) in
      subst (λ t. AllWithin (survey seeds t) (q ∷ seeds))
        (sym (if-false q.disabled r (noted q r) on))
        (
          (λ on'. (
            omega (arith, low.0, (wider.2 low.1).1),
            omega (arith, (higher-le q.exec_us r.max_us).0, wider.0),
            omega (arith, (higher-le q.len r.max_len).0, wider.1),
          )),
          within seeds (noted q r) h.1,
        )
]

-- If every seed that is not disabled took some time, the times and lengths of all these seeds are
-- within the range that is printed and that the timeout is estimated by.
pub survey_lem :
    (seeds : List Seed)
    → All TookTime seeds
    → All (λ q. q.disabled ≡ false → IsWithin (survey seeds nothing_noted) q) seeds
survey_lem seeds h = within seeds nothing_noted h
