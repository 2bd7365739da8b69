-- ===== src/Stats/Setup/Shell.antt =====
-- How a shell reads a line of quoted words, and that it reads back the arguments.
use mathlib.Core.List.{append-nil, append_assoc}
use ctfuzz.Base.{
  ℕ, false, Bool-cases, inl, inr, List, [], ◌∷◌, ◌++◌, ◌≡◌, refl, ap, ◌∙◌, ◌==◌, ==_iff,
  if◌then◌else◌,
}
use ctfuzz.State.{Text}
use ctfuzz.Stats.Setup.{apostrophe, has_apostrophe, escape, quote, more_args, command_line}

-- Within `'`, within `"`, within a word that is not quoted, or between words.
pub data Mode : Type 0 where
  single double bare between : Mode

abbrev enter : ℕ → Mode
enter c = if c == apostrophe then single else if c == 34 then double else bare

abbrev unless_quote : ℕ → Text → Text
unless_quote c word = if c == apostrophe then word else if c == 34 then word else word ++ (c ∷ [])

-- The words of a line by the shell's rules for `'`, `"` and the space, from a mode and the part of
-- the word that is read. (A shell also gives `\` and `$` a meaning outside `'`; a quoted command line
-- has none there.)
pub shell : Mode → Text → Text → List Text
shell single word [] = word ∷ []
shell double word [] = word ∷ []
shell bare word [] = word ∷ []
shell between word [] = []
shell single word (c ∷ cs) =
    shell (if c == apostrophe then bare else single)
      (if c == apostrophe then word else word ++ (c ∷ [])) cs
shell double word (c ∷ cs) =
    shell (if c == 34 then bare else double) (if c == 34 then word else word ++ (c ∷ [])) cs
shell bare word (c ∷ cs) =
    if c == 32 then word ∷ shell between [] cs else shell (enter c) (unless_quote c word) cs
shell between word (c ∷ cs) =
    if c == 32 then shell between [] cs else shell (enter c) (unless_quote c []) cs

escaped :
    (arg word rest : Text)
    → shell single word (escape arg ++ apostrophe ∷ rest) ≡ shell bare (word ++ arg) rest
unfolding shell escape
escaped [] word rest = rw append-nil
escaped (c ∷ cs) word rest = elim (Bool-cases (c == apostrophe)) [
  | inl quoted ↦ rw ((==_iff c apostrophe).0 quoted) (
      escaped cs (word ++ apostrophe ∷ []) rest
      ∙ ap (λ w. shell bare w rest) (append_assoc word (apostrophe ∷ []) cs))
  | inr plain ↦ rw plain (
      rw (plain, shell)
        (escaped cs (word ++ c ∷ []) rest
          ∙ ap (λ w. shell bare w rest) (append_assoc word (c ∷ []) cs)))
]

escape-same : (arg : Text) → has_apostrophe arg ≡ false → escape arg ≡ arg
unfolding escape
escape-same [] h = refl
escape-same (c ∷ cs) h = elim (Bool-cases (c == apostrophe)) [
  | inl quoted ↦ cc (rw quoted at h)
  | inr plain ↦ rw plain (ap (λ w. c ∷ w) (escape-same cs (rw plain at h)))
]

quote-escape : (arg : Text) → quote arg ≡ apostrophe ∷ (escape arg ++ apostrophe ∷ [])
unfolding quote
quote-escape arg = elim (Bool-cases (has_apostrophe arg)) [
  | inl some_in ↦ rw some_in
  | inr none_in ↦ rw (none_in, escape-same arg none_in)
]

quoted_word : (arg rest : Text) → shell between [] (quote arg ++ rest) ≡ shell bare arg rest
unfolding shell
quoted_word arg rest = rw (quote-escape, append_assoc) (escaped arg [] rest)

more : (args : List Text) (word : Text) → shell bare word (more_args args) ≡ word ∷ args
unfolding more_args shell
more [] word = refl
more (arg ∷ args) word =
    ap (λ words. word ∷ words) (quoted_word arg (more_args args) ∙ more args arg)

-- A shell that reads the command line of the setup file gets back exactly the arguments, whatever
-- bytes they hold.
pub shell-command_line : (argv : List Text) → shell between [] (command_line argv) ≡ argv
unfolding command_line
shell-command_line [] = unfold shell in refl
shell-command_line (arg ∷ args) = quoted_word arg (more_args args) ∙ more args arg
