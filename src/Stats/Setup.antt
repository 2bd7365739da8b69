-- ===== src/Stats/Setup.antt =====
-- `write_setup_file` of `ctfuzz/afl/afl-fuzz-stats.c`: the environment and the command line, quoted
-- for a shell. The table of names is that of `envs.h`, and `getenv` is the C library's.
pub mod Shell
use ctfuzz.Base.{
  ℕ, ◌+◌, Bool, true, false, Option, none, some, List, [], ◌∷◌, ◌++◌, ◌==◌, if◌then◌else◌,
}
use ctfuzz.Base.Text.{codes}
use ctfuzz.State.{Text}

abbrev pub apostrophe : ℕ
apostrophe = 39

-- `index(argv[i], '\'')`
abbrev pub has_apostrophe : Text → Bool
has_apostrophe [] = false
has_apostrophe (c ∷ cs) = if c == apostrophe then true else has_apostrophe cs

-- The loop over `argv[i][j]`.
pub escape : Text → Text
escape [] = []
escape (c ∷ cs) = (if c == apostrophe then codes "'\"'\"'" else c ∷ []) ++ escape cs

pub quote : Text → Text
quote arg =
    if has_apostrophe arg
    then apostrophe ∷ (escape arg ++ apostrophe ∷ [])
    else apostrophe ∷ (arg ++ apostrophe ∷ [])

-- The arguments behind the first, each behind a space.
pub more_args : List Text → Text
more_args [] = []
more_args (arg ∷ args) = 32 ∷ (quote arg ++ more_args args)

pub command_line : List Text → Text
command_line [] = []
command_line (arg ∷ args) = quote arg ++ more_args args

pub environment : (Text → Option Text) → List Text → Text
environment getenv [] = []
environment getenv (name ∷ names) =
    elim (getenv name) [ some val ↦ name ++ (61 ∷ (val ++ 10 ∷ [])) | none ↦ [] ]
    ++ environment getenv names

-- The text of the file, for a table of names.
pub write_setup_file : (Text → Option Text) → List Text → List Text → Text
write_setup_file getenv names argv =
    codes "# environment variables:\n"
    ++ (environment getenv names ++ (codes "# command line:\n" ++ (command_line argv ++ 10 ∷ [])))
