-- ===== src/Environ/Read.antt =====
-- The loops of `read_afl_environment`.
use ctfuzz.Base.{
  ℕ, zero, suc, Bool, true, false, ◌&&◌, Option, none, some, List, [], ◌∷◌, ◌==◌, if◌then◌else◌,
  length, get_or,
}
use ctfuzz.Base.Int.{ℤ}
use ctfuzz.Base.Text.{codes}
use ctfuzz.State.{Text, Result, ok, ◌>>=◌}
use ctfuzz.Environ.{afl_pizza_mode, Settings, Setting, nothing, Rule, apply, chain}

-- `strncmp(a, b, n) == 0`, where a text ends with a 0.
unfoldable pub strncmp_eq : ℕ → Text → Text → Bool
strncmp_eq zero a b = true
strncmp_eq (suc n) [] [] = true
strncmp_eq (suc n) [] (c ∷ cs) = false
strncmp_eq (suc n) (c ∷ cs) [] = false
strncmp_eq (suc n) (c ∷ cs) (d ∷ ds) = if c == d then strncmp_eq n cs ds else false

abbrev pub equals_sign : ℕ
equals_sign = 61

-- `strncmp(env, name, strlen(name)) == 0 && env[strlen(name)] == '='`
unfoldable pub is_named : Text → Text → Bool
is_named env name = strncmp_eq (length name) env name && get_or env (length name) 0 == equals_sign

-- The first name of a table that the variable has.
unfoldable pub find_name : Text → List Text → Option Text
find_name env [] = none
find_name env (name ∷ names) = if is_named env name then some name else find_name env names

-- The branch that is taken for a name of the table, if one is.
unfoldable pub find_rule : Text → ℕ → List Rule → Setting
find_rule env n [] = nothing
find_rule env n ((literal, act) ∷ rules) =
    if strncmp_eq n env literal then act else find_rule env n rules

abbrev pub with_issue : Settings → Settings
with_issue s = record s { issue_detected = true }

-- `afl_environment_variables` and `afl_environment_deprecated` of `envs.h`, `get_afl_env` of
-- `common.c` and `atoi`.
pub record Outside : Type 0 where
  pub variables : List Text
  pub deprecated : List Text
  pub get_afl_env : Text → Option Text
  pub atoi : Text → ℤ

-- A deprecated name, or none at all: both are warned about.
abbrev pub warn : Option Text → Settings → Result Settings
warn none s = ok (with_issue s)
warn (some name) s = ok (with_issue s)

abbrev pub unless_known : Option Text → Option Text → Settings → Result Settings
unless_known none old s = warn old s
unless_known (some name) old s = ok s

module _ (out : Outside) where
  -- A variable that begins with `AFL_`. The table of variables is searched a second time.
  unfoldable pub read_afl : Text → Settings → Result Settings
  read_afl env s = elim (find_name env out.variables) [
    | some name ↦ apply out.atoi (find_rule env (length name) chain) (out.get_afl_env name) s
    | none ↦ unless_known (find_name env out.variables) (find_name env out.deprecated) s
  ]

  unfoldable pub read_entry : Text → Settings → Result Settings
  read_entry env s =
      if strncmp_eq 4 env (codes "ALF_")
      then ok (with_issue s)
      else if strncmp_eq 4 env (codes "USE_")
      then ok (with_issue s)
      else if strncmp_eq 4 env (codes "AFL_")
      then read_afl env s
      else ok s

  -- `while ((env = envp[index++]) != NULL)`
  unfoldable pub read_entries : List Text → Settings → Result Settings
  read_entries [] s = ok s
  read_entries (env ∷ envp) s = read_entry env s >>= λ s'. read_entries envp s'

  -- The last step is `if (afl->afl_env.afl_pizza_mode) { afl->pizza_is_served = 1; }`.
  unfoldable pub read_afl_environment : List Text → Settings → Result Settings
  read_afl_environment envp s = read_entries envp (record s { issue_detected = false }) >>= λ t.
      ok (if t.flags afl_pizza_mode == 0 then t else record t { pizza_is_served = true })
