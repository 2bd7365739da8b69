-- ===== src/Environ/Warnings.antt =====
-- When `read_afl_environment` warns.
use ctfuzz.Base.{
  ◌≡◌, refl, ap, ◌∙◌, Bool, true, false, ◌&&◌, ◌||◌, Bool-cases, Option-cases, inl, inr, Option,
  none, some, List, [], ◌∷◌, ◌==◌, if◌then◌else◌, length, arith,
}
use ctfuzz.Base.Text.{codes}
use ctfuzz.Base.Int.{ℤ, pos, negsuc}
use ctfuzz.State.{Text, Result-cases, ok}
use ctfuzz.Environ.{
  sync_minutes, flag, number, text, cycles, havoc, min, max, sync, afl_pizza_mode, Settings,
  Setting, nothing, apply, chain,
}
use ctfuzz.Environ.Read.{
  strncmp_eq, find_name, find_rule, Outside, read_afl, read_entry, read_entries,
  read_afl_environment, with_issue, unless_known, warn,
}

abbrev is_unknown : Option Text → Bool
is_unknown none = true
is_unknown (some name) = false

or-false : (b : Bool) → b ≡ (b || false)
or-false true = refl
or-false false = refl

or-true : (b : Bool) → true ≡ (b || true)
or-true true = refl
or-true false = refl

or_assoc : (a b c : Bool) → ((a || b) || c) ≡ (a || (b || c))
or_assoc true b c = refl
or_assoc false b c = refl

warned : (s t : Settings) → ok (with_issue s) ≡ ok t → t.issue_detected ≡ (s.issue_detected || true)
warned s t e =
    ap (λ u. u.issue_detected) {x = t} {y = with_issue s} (cc e) ∙ or-true s.issue_detected

warn-issue :
    (old : Option Text) (s t : Settings)
    → warn old s ≡ ok t
    → t.issue_detected ≡ (s.issue_detected || true)
warn-issue none s t e = warned s t e
warn-issue (some name) s t e = warned s t e

kept : (s t : Settings) → ok s ≡ ok t → t.issue_detected ≡ (s.issue_detected || false)
kept s t e = ap (λ u. u.issue_detected) {x = t} {y = s} (cc e) ∙ or-false s.issue_detected

served_pizza :
    (u t : Settings)
    → ok (if u.flags afl_pizza_mode == 0 then u else record u { pizza_is_served = true }) ≡ ok t
    → t.issue_detected ≡ u.issue_detected
served_pizza u t e = elim (Bool-cases (u.flags afl_pizza_mode == 0)) [
  | inl no_pizza ↦ ap (λ v. v.issue_detected) {x = t} {y = u} (cc (rw no_pizza at e))
  | inr pizza ↦
      ap (λ v. v.issue_detected) {x = t} {y = record u { pizza_is_served = true }}
        (cc (rw pizza at e))
]

module _ (out : Outside) where
  -- A variable that `read_afl_environment` warns about: its prefix is mistyped, or it begins with
  -- `AFL_` and has no name of the table.
  abbrev pub is_suspicious : Text → Bool
  is_suspicious env =
      strncmp_eq 4 env (codes "ALF_")
      || strncmp_eq 4 env (codes "USE_")
      || (strncmp_eq 4 env (codes "AFL_") && is_unknown (find_name env out.variables))

  abbrev pub any_suspicious : List Text → Bool
  any_suspicious [] = false
  any_suspicious (env ∷ envp) = is_suspicious env || any_suspicious envp

  sync_minutes-issue : (n : ℤ) (s : Settings) → (sync_minutes n s).issue_detected ≡ s.issue_detected
  sync_minutes-issue (pos n) s = ground arith
  sync_minutes-issue (negsuc n) s = refl

  apply-issue :
      (act : Setting) (v : Option Text) (s t : Settings)
      → apply out.atoi act v s ≡ ok t
      → t.issue_detected ≡ s.issue_detected
  unfolding apply
  apply-issue (flag f) v s t e = cc
  apply-issue (number f) none s t e = cc
  apply-issue (number f) (some v) s t e = cc
  apply-issue (text p) v s t e = cc
  apply-issue cycles v s t e = cc
  apply-issue havoc v s t e = cc
  apply-issue min none s t e = cc
  apply-issue min (some v) s t e = cc
  apply-issue max none s t e = cc
  apply-issue max (some v) s t e = cc
  apply-issue sync none s t e = cc
  apply-issue sync (some v) s t e =
      ap (λ u. u.issue_detected) {x = t} {y = sync_minutes (out.atoi v) s} (cc e)
      ∙ sync_minutes-issue (out.atoi v) s
  apply-issue nothing v s t e = cc

  read_afl-issue :
      (env : Text) (s t : Settings)
      → read_afl out env s ≡ ok t
      → t.issue_detected ≡ (s.issue_detected || is_unknown (find_name env out.variables))
  unfolding read_afl
  read_afl-issue env s t e = elim (Option-cases (find_name env out.variables)) [
    | inr (name, known) ↦ rw known (
        apply-issue (find_rule env (length name) chain) (out.get_afl_env name) s t
          (rw (read_afl, known) at e)
        ∙ or-false s.issue_detected)
    | inl unknown ↦ rw unknown (
        warn-issue (find_name env out.deprecated) s t
          (rw (read_afl, unknown, unless_known, unknown) at e))
  ]

  read_entry-issue :
      (env : Text) (s t : Settings)
      → read_entry out env s ≡ ok t
      → t.issue_detected ≡ (s.issue_detected || is_suspicious env)
  unfolding read_entry read_afl
  read_entry-issue env s t e = elim (Bool-cases (strncmp_eq 4 env (codes "ALF_"))) [
    | inl alf ↦ rw alf (warned s t (rw alf at e))
    | inr not_alf ↦ elim (Bool-cases (strncmp_eq 4 env (codes "USE_"))) [
      | inl use_ ↦ rw (not_alf, use_) (warned s t (rw (not_alf, use_) at e))
      | inr not_use ↦ elim (Bool-cases (strncmp_eq 4 env (codes "AFL_"))) [
        | inr other ↦ rw (not_alf, not_use, other) (kept s t (rw (not_alf, not_use, other) at e))
        | inl afl ↦
            rw (not_alf, not_use, afl) (read_afl-issue env s t (rw (not_alf, not_use, afl) at e))
      ]
    ]
  ]

  read_entries-issue :
      (envp : List Text) (s t : Settings)
      → read_entries out envp s ≡ ok t
      → t.issue_detected ≡ (s.issue_detected || any_suspicious envp)
  unfolding read_entries
  read_entries-issue [] s t e = kept s t e
  read_entries-issue (env ∷ envp) s t e = elim (Result-cases (read_entry out env s)) [
    | inr (why, stopped) ↦ cc (rw stopped at e)
    | inl (u, read) ↦
        read_entries-issue envp u t (rw read at e)
        ∙ ap (λ b. b || any_suspicious envp) (read_entry-issue env s u read)
        ∙ or_assoc s.issue_detected (is_suspicious env) (any_suspicious envp)
  ]

  -- Where the variables are read to the end, `issue_detected`, which the warnings about names set and
  -- for which the function waits, is set exactly if some variable is suspicious: begins with `ALF_` or
  -- `USE_`, or with `AFL_` but has no name of the table. The warning about the value of `AFL_SYNC_TIME`
  -- does not set it.
  pub read_afl_environment-issue :
      (envp : List Text) (s t : Settings)
      → read_afl_environment out envp s ≡ ok t
      → t.issue_detected ≡ any_suspicious envp
  unfolding read_afl_environment
  read_afl_environment-issue envp s t e =
      let quiet = record s { issue_detected = false } in
      elim (Result-cases (read_entries out envp quiet)) [
        | inr (why, stopped) ↦ cc (rw stopped at e)
        | inl (u, read) ↦ served_pizza u t (rw read at e) ∙ read_entries-issue envp quiet u read
      ]
