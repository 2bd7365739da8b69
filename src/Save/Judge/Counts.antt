-- ===== src/Save/Judge/Counts.antt =====
-- How the parts of `save_if_interesting` count what they save.
use ctfuzz.Base.{
  ℕ, ◌+◌, ◌-◌, ◌^◌, ◌<◌, ◌≡◌, refl, ap, ◌∙◌, ◌⊎◌, inl, inr, Bool, true, false, List, ◌==◌, leb,
  if◌then◌else◌, take, arith,
}
use ctfuzz.State.{
  Afl, Result, in_bounds, VirginMap, virgin_bits, virgin_tmout, virgin_crash, map_of, with_map,
}
use ctfuzz.Bitmap.Novelty.{discover, words64, mark_changed, has_new_bits}
use ctfuzz.Save.Outcome.{
  Any, Yields, Yields-bind, Yields-if, Yields-map, Yields-Ends, Ends-in_bounds,
}
use ctfuzz.Save.Env.{Env}
use ctfuzz.Save.Keeps.{Keeps, IsEnv, create-Ends, describe_op-Ends}
use ctfuzz.Save.Describe.{describe_op}
use ctfuzz.Save.Judge.{
  unique_in, prepared, save_crash, save_hang, crash_name, hang_name, first_readme,
  write_crash_readme, inc64,
}
use ctfuzz.Save.Judge.Unique.{prepared-Keeps}

-- As many crashes and hangs are saved as before.
pub record IsSame (s t : Afl) : Type 0 where
  pub crashes : t.saved_crashes ≡ s.saved_crashes
  pub hangs : t.saved_hangs ≡ s.saved_hangs

pub IsSame-refl : (s : Afl) → IsSame s s
IsSame-refl s = record { crashes = refl; hangs = refl }

pub IsSame-Keeps : {s t : Afl} → Keeps s t → IsSame s t
IsSame-Keeps k = record { crashes = k.crashes; hangs = k.hangs }

pub IsSame-trans : {s t u : Afl} → IsSame s t → IsSame t u → IsSame s u
IsSame-trans a b = record { crashes = b.crashes ∙ a.crashes; hangs = b.hangs ∙ a.hangs }

pub IsSame-if :
    (s : Afl) (b : Bool) (t u : Afl) → IsSame s t → IsSame s u → IsSame s (if b then t else u)
IsSame-if s true t u ht hu = ht
IsSame-if s false t u ht hu = hu

mark_changed-IsSame : (m : VirginMap) (ret : ℕ) (s : Afl) → IsSame s (mark_changed m ret s)
unfolding mark_changed
mark_changed-IsSame virgin_bits ret s =
    IsSame-if s (ret == 0) _ _ (IsSame-refl s) (record { crashes = refl; hangs = refl })
mark_changed-IsSame virgin_tmout ret s = IsSame-if s (ret == 0) _ _ (IsSame-refl s) (IsSame-refl s)
mark_changed-IsSame virgin_crash ret s = IsSame-if s (ret == 0) _ _ (IsSame-refl s) (IsSame-refl s)

with_map-IsSame : (m : VirginMap) (v : List ℕ) (s : Afl) → IsSame s (with_map m v s)
with_map-IsSame virgin_bits v s = record { crashes = refl; hangs = refl }
with_map-IsSame virgin_tmout v s = record { crashes = refl; hangs = refl }
with_map-IsSame virgin_crash v s = record { crashes = refl; hangs = refl }

pub no_wrap : (n cap : ℕ) → leb cap n ≡ false → cap < 2 ^ 64 → (n < cap) × (inc64 n ≡ n + 1)
no_wrap n cap room small = ground (arith, room, small)

module _ (env : Env) (laws : IsEnv env) where
  -- One crash more, one hang more, or neither: more only where there was room.
  abbrev pub Saves : Afl → Afl → Type 0
  Saves s t =
      IsSame s t
      ⊎ ((s.saved_crashes < env.keep_unique_crash)
          × (t.saved_crashes ≡ s.saved_crashes + 1)
          × (t.saved_hangs ≡ s.saved_hangs))
      ⊎ ((s.saved_hangs < env.keep_unique_hang)
          × (t.saved_hangs ≡ s.saved_hangs + 1)
          × (t.saved_crashes ≡ s.saved_crashes))

  Saves-IsSame : {s t u : Afl} → IsSame s t → Saves t u → Saves s u
  Saves-IsSame a (inl same) = inl (IsSame-trans a same)
  Saves-IsSame a (inr (inl (room, more, still))) =
      inr (inl (rw⁻¹ a.crashes room, more ∙ ap (λ n. n + 1) a.crashes, still ∙ a.hangs))
  Saves-IsSame a (inr (inr (room, more, still))) =
      inr (inr (rw⁻¹ a.hangs room, more ∙ ap (λ n. n + 1) a.hangs, still ∙ a.crashes))

  abbrev pub SavesTo : Afl → Result (ℕ × Afl) → Type 0
  SavesTo s r = Yields (λ p. Saves s p.1) r

  pub SavesTo-IsSame : {s t : Afl} → IsSame s t → (r : Result (ℕ × Afl)) → SavesTo t r → SavesTo s r
  SavesTo-IsSame {s} {t} a r h =
      Yields-map (λ p. Saves t p.1) (λ p. Saves s p.1) r h (λ p saves. Saves-IsSame a saves)

  has_new_bits-IsSame :
      (m : VirginMap) (s : Afl) → Yields (λ p. IsSame s p.1) (has_new_bits env.cov s m)
  unfolding has_new_bits
  has_new_bits-IsSame m s =
      Yields-bind Any (λ p. IsSame s p.1)
        (in_bounds
          (discover env.cov (words64 s.fsrv.real_map_size) 0 s.fsrv.trace_bits (map_of m s)))
        _ (Yields-Ends Any _ (Ends-in_bounds Any _ (λ a. tt)))
        (λ a h.
          IsSame-trans (with_map-IsSame m a.1 s) (mark_changed-IsSame m a.0 (with_map m a.1 s)))

  pub unique_in-IsSame :
      (m : VirginMap) (classified : Bool) (s : Afl)
      → Yields (λ p. IsSame s p.1) (unique_in env m classified s)
  unfolding unique_in
  unique_in-IsSame m classified s =
      let u = prepared env classified s in
      Yields-if (λ p. IsSame s p.1) s.non_instrumented_mode _ _ (λ e. IsSame-refl s)
        (λ e.
          Yields-bind (λ p. IsSame u p.1) (λ p. IsSame s p.1) (has_new_bits env.cov u m) _
            (has_new_bits-IsSame m u)
            (λ p same. IsSame-trans (IsSame-Keeps (prepared-Keeps env laws classified s)) same))

  first_readme-IsSame : (s : Afl) → IsSame s (first_readme env s)
  unfolding write_crash_readme
  first_readme-IsSame s =
      IsSame-if s _ _ s
        (IsSame-if s (env.can_create _ s) _ s (record { crashes = refl; hangs = refl })
          (IsSame-refl s))
        (IsSame-refl s)

  pub save_crash-count :
      (mem : List ℕ) (len : ℕ) (s : Afl)
      → Yields
          (λ t. (t.saved_crashes ≡ inc64 s.saved_crashes) × (t.saved_hangs ≡ s.saved_hangs))
          (save_crash env mem len s)
  unfolding save_crash
  save_crash-count mem len s =
      let u = first_readme env s in
      let same = first_readme-IsSame s in
      let more = record u { saved_crashes = inc64 u.saved_crashes } in
      let hooked =
        IsSame-if more more.infoexec _ more (IsSame-Keeps (laws.hooks more)) (IsSame-refl more) in
      Yields-bind Any _ (describe_op env u 0 (env.name_max - 17)) _
        (Yields-Ends Any _ (describe_op-Ends env laws u _ _))
        (λ text h.
          Yields-map (Keeps _) _ _
            (Yields-Ends (Keeps _) _
              (create-Ends env laws (crash_name env u text) (take len mem) _))
            (λ t k. (
              k.crashes ∙ hooked.crashes ∙ ap inc64 same.crashes,
              k.hangs ∙ hooked.hangs ∙ same.hangs,
            )))

  pub save_hang-count :
      (mem : List ℕ) (len : ℕ) (s : Afl)
      → Yields
          (λ t. (t.saved_hangs ≡ inc64 s.saved_hangs) × (t.saved_crashes ≡ s.saved_crashes))
          (save_hang env mem len s)
  unfolding save_hang
  save_hang-count mem len s =
      Yields-bind Any _ (describe_op env s 0 (env.name_max - 10)) _
        (Yields-Ends Any _ (describe_op-Ends env laws s _ _))
        (λ text h.
          Yields-map (Keeps _) _ _
            (Yields-Ends (Keeps _) _ (create-Ends env laws (hang_name env s text) (take len mem) _))
            (λ t k. (k.hangs, k.crashes)))
