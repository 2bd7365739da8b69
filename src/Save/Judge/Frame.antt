-- ===== src/Save/Judge/Frame.antt =====
-- What the steps before the `switch` leave as it is.
use ctfuzz.Base.{ℕ, ◌%◌, refl, ◌&&◌, ◌==◌, leb, ltb, Bool-cases, inl, inr, take, replicate}
use ctfuzz.State.{Afl, in_bounds, virgin_bits, with_map}
use ctfuzz.Bitmap.Novelty.{
  classify, discover, words64, mark_changed, has_new_bits, has_new_bits_unclassified,
}
use ctfuzz.Save.Outcome.{Ends, Any, Ends-bind, Ends-map, Ends-in_bounds, Ends-if}
use ctfuzz.Save.Env.{Env}
use ctfuzz.Save.Keeps.{Keeps, Keeps-refl, Keeps-trans, IsEnv, classify-Keeps}
use ctfuzz.Save.Path.{update_path_frequency, add_path, count_path, on_path, mark_hits, n_fuzz_size}

add_path-Keeps : (c : ℕ) (s : Afl) → Keeps s (add_path c s)
unfolding add_path
add_path-Keeps c s = elim (Bool-cases (on_path c s.unique_path)) [
  | inl known ↦ rw known (Keeps-refl s)
  | inr fresh ↦ rw fresh (record {
    size = refl;
    trace = refl;
    tmout = refl;
    mode = refl;
    crashes = refl;
    hangs = refl;
  })
]

count_path-Keeps : (c : ℕ) (s : Afl) → Keeps s (count_path c s)
unfolding count_path
count_path-Keeps c s =
    elim (Bool-cases
      (leb 3 s.schedule && leb s.schedule 7 && ltb (s.n_fuzz (c % n_fuzz_size)) 0xFFFFFFFF)) [
        | inl counts ↦ rw counts (record {
          size = refl;
          trace = refl;
          tmout = refl;
          mode = refl;
          crashes = refl;
          hangs = refl;
        })
        | inr not_ ↦ rw not_ (Keeps-refl s)
      ]

module _ (env : Env) (laws : IsEnv env) where
  mark_changed-Keeps : (ret : ℕ) (s : Afl) → Keeps s (mark_changed virgin_bits ret s)
  unfolding mark_changed
  mark_changed-Keeps ret s = elim (Bool-cases (ret == 0)) [
    | inl none_found ↦ rw none_found (Keeps-refl s)
    | inr some_found ↦ rw some_found (record {
      size = refl;
      trace = refl;
      tmout = refl;
      mode = refl;
      crashes = refl;
      hangs = refl;
    })
  ]

  look_at_bits : (s : Afl) → Ends (λ p. Keeps s p.1) (has_new_bits env.cov s virgin_bits)
  unfolding has_new_bits
  look_at_bits s =
      Ends-bind Any (λ p. Keeps s p.1)
        (in_bounds
          (discover env.cov (words64 s.fsrv.real_map_size) 0 s.fsrv.trace_bits s.virgin_bits))
        _ (Ends-in_bounds Any _ (λ a. tt))
        (λ a h.
          Keeps-trans
            (record {
              size = refl;
              trace = refl;
              tmout = refl;
              mode = refl;
              crashes = refl;
              hangs = refl;
            })
            (mark_changed-Keeps a.0 (with_map virgin_bits a.1 s)))

  pub look_at_unclassified :
      (s : Afl) → Ends (λ p. Keeps s p.1) (has_new_bits_unclassified env.cov s virgin_bits)
  unfolding has_new_bits_unclassified
  look_at_unclassified s =
      Ends-if (λ p. Keeps s p.1)
        (env.cov.skim s.virgin_bits (take s.fsrv.map_size s.fsrv.trace_bits)) _ _
        (λ e.
          Ends-map (λ p. Keeps (classify env.cov s) p.1) (λ p. Keeps s p.1) _
            (look_at_bits (classify env.cov s)) (λ p k. Keeps-trans (classify-Keeps env laws s) k))
        (λ e. Keeps-refl s)

  pub update_path_frequency-Keeps :
      (s : Afl) → Ends (λ p. Keeps s p.1) (update_path_frequency env s)
  unfolding update_path_frequency
  update_path_frequency-Keeps s =
      Ends-bind Any (λ p. Keeps s p.1)
        (in_bounds (mark_hits s.fsrv.map_size 0 s.fsrv.trace_bits (replicate env.map_size 0))) _
        (Ends-in_bounds Any _ (λ a. tt))
        (λ tmp h.
          Keeps-trans (add_path-Keeps (env.hash64 tmp) s) (count_path-Keeps (env.hash64 tmp) _))
