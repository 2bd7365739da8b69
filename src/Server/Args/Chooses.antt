-- ===== src/Server/Args/Chooses.antt =====
-- Predicates that hold of what the options choose, along the loop of `main` and the checks behind it.
use ctfuzz.Base.{
  ℕ, ◌≡◌, refl, Bool, true, false, Option-cases, inl, inr, List, [], ◌∷◌, if◌then◌else◌,
}
use ctfuzz.Server.Args.{
  Opt, Chosen, Parsed, chosen, refused, usage, Scans, take_opt, and_then, take_opts,
  with_mode_limit, parse,
}

abbrev pub Chooses : (Chosen → Type 0) → Parsed → Type 0
Chooses P (chosen s) = P s
Chooses P refused = Unit
Chooses P usage = Unit

pub Chooses-if :
    (P : Chosen → Type 0) (b : Bool) (x y : Parsed)
    → (b ≡ true → Chooses P x)
    → (b ≡ false → Chooses P y)
    → Chooses P (if b then x else y)
Chooses-if P true x y hx hy = hx refl
Chooses-if P false x y hx hy = hy refl

pub Chooses-and_then :
    (P Q : Chosen → Type 0) (later : Chosen → Parsed) (p : Parsed)
    → Chooses P p
    → ((s : Chosen) → P s → Chooses Q (later s))
    → Chooses Q (and_then later p)
Chooses-and_then P Q later (chosen s) h k = k s h
Chooses-and_then P Q later refused h k = tt
Chooses-and_then P Q later usage h k = tt

take_opts-Chooses :
    (P : Chosen → Type 0) (lib : Scans)
    → ((o : Opt) (s : Chosen) → P s → Chooses P (take_opt lib o s))
    → (opts : List Opt) (s : Chosen) → P s
    → Chooses P (take_opts lib opts s)
unfolding take_opts
take_opts-Chooses P lib each [] s h = h
take_opts-Chooses P lib each (o ∷ opts) s h =
    Chooses-and_then P P (take_opts lib opts) (take_opt lib o s) (each o s h)
      (take_opts-Chooses P lib each opts)

-- What every option keeps, and the limits of the modes keep, holds of every command line that is
-- accepted.
pub parse-Chooses :
    (P : Chosen → Type 0) (lib : Scans) (q u : ℕ) (rest : Bool)
    → ((o : Opt) (s : Chosen) → P s → Chooses P (take_opt lib o s))
    → ((s : Chosen) → P s → P (with_mode_limit q u s))
    → (opts : List Opt) (s : Chosen) → P s
    → Chooses P (parse lib q u rest opts s)
unfolding parse
parse-Chooses P lib q u rest each modes opts s h =
    Chooses-and_then P P _ (take_opts lib opts s) (take_opts-Chooses P lib each opts s h) (λ t h'.
      elim (Option-cases t.out_file) [
        | inl none_ ↦ rw none_ tt
        | inr (fn, given) ↦ rw given (Chooses-if P rest _ _ (λ r. modes t h') (λ r. tt))
      ])
