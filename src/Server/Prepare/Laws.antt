-- ===== src/Server/Prepare/Laws.antt =====
-- What the target finds in its environment, and which exit codes can mean a crash.
use ctfuzz.Base.{
  ℕ, ◌+◌, ◌-◌, ◌<◌, ◌≤◌, ◌≡◌, refl, ap, ◌∙◌, inl, inr, Bool, true, false, Bool-cases, Option-cases,
  Option, some, none, List, [], ◌∷◌, ◌++◌, All, ltb, ◌==◌, if◌then◌else◌, ◌&&◌, ◌||◌, arith,
}
use ctfuzz.Base.Int.{ℤ, pos, negsuc}
use ctfuzz.Base.Text.{codes, str_eq}
use ctfuzz.State.{Text, ok}
use ctfuzz.Environ.{wrapped}
use ctfuzz.Server.Prepare.{
  Env, setenv, Libs, asan_options, lsan_options, ubsan_options, msan_options, sanitized, preloaded,
  preload, frida_preload, preload_given, set_up_environment, crash_exitcode,
}

-- `get_afl_env` gives the value of its variable or nothing, and looks at no other.
pub record IsReader (get_afl_env : Env → Text → Option Text) : Type 0 where
  pub reads : (e : Env) (n v : Text) → get_afl_env e n ≡ some v → e n ≡ some v
  pub looks : (e e' : Env) (n : Text) → e n ≡ e' n → get_afl_env e n ≡ get_afl_env e' n

abbrev pub or_default : Option Text → Text → Option Text
or_default (some v) d = some v
or_default none d = some d

abbrev pub or_else : Option Text → Option Text → Option Text
or_else (some v) o = some v
or_else none o = o

-- The libraries to load: in FRIDA mode that of FRIDA, behind those that are given; in QEMU mode none.
abbrev pub libraries : Bool → Bool → Option Text → Text → Option Text
libraries qemu_mode frida_mode (some given) binary =
    if qemu_mode then none else some (if frida_mode then given ++ codes ":" ++ binary else given)
libraries qemu_mode frida_mode none binary = if frida_mode then some binary else none

abbrev pub changed_names : List Text
changed_names =
    codes "ASAN_OPTIONS"
    ∷ codes "LSAN_OPTIONS"
    ∷ codes "UBSAN_OPTIONS"
    ∷ codes "MSAN_OPTIONS"
    ∷ codes "LD_PRELOAD"
    ∷ codes "DYLD_INSERT_LIBRARIES"
    ∷ []

-- What an environment is made of another one.
pub record IsPrepared (lib : Libs) (load : Option Text) (env out : Env) : Type 0 where
  pub asan : out (codes "ASAN_OPTIONS") ≡ or_default (env (codes "ASAN_OPTIONS")) asan_options
  pub lsan : out (codes "LSAN_OPTIONS") ≡ or_default (env (codes "LSAN_OPTIONS")) (lsan_options lib)
  pub ubsan : out (codes "UBSAN_OPTIONS") ≡ or_default (env (codes "UBSAN_OPTIONS")) ubsan_options
  pub msan : out (codes "MSAN_OPTIONS") ≡ or_default (env (codes "MSAN_OPTIONS")) (msan_options lib)
  pub ld : out (codes "LD_PRELOAD") ≡ or_else load (env (codes "LD_PRELOAD"))
  pub dyld :
      out (codes "DYLD_INSERT_LIBRARIES") ≡ or_else load (env (codes "DYLD_INSERT_LIBRARIES"))
  pub others : (n : Text) → All (λ m. str_eq n m ≡ false) changed_names → out n ≡ env n

setenv-keeps :
    (name val : Text) (env : Env)
    → str_eq name name ≡ true
    → setenv name val false env name ≡ or_default (env name) val
setenv-keeps name val env same = elim (Option-cases (env name)) [
  | inl new ↦ rw (same, new) refl
  | inr (old, set) ↦ rw (same, set) refl
]

setenv-sets :
    (name val : Text) (env : Env)
    → str_eq name name ≡ true
    → setenv name val true env name ≡ some val
setenv-sets name val env same = elim (Option-cases (env name)) [
  | inl new ↦ rw (same, new) refl
  | inr (old, set) ↦ rw (same, set) refl
]

sanitized-IsPrepared : (lib : Libs) (env : Env) → IsPrepared lib none env (sanitized lib env)
sanitized-IsPrepared lib env = record {
  asan = setenv-keeps (codes "ASAN_OPTIONS") asan_options env refl;
  lsan = setenv-keeps (codes "LSAN_OPTIONS") (lsan_options lib) env refl;
  ubsan = setenv-keeps (codes "UBSAN_OPTIONS") ubsan_options env refl;
  msan = setenv-keeps (codes "MSAN_OPTIONS") (msan_options lib) env refl;
  ld = refl;
  dyld = refl;
  others = λ n (a, (l, (u, (m, rest)))). rw (a, l, u, m) refl;
}

preloaded-IsPrepared :
    (lib : Libs) (val : Text) (env : Env)
    → IsPrepared lib (some val) env (preloaded val (sanitized lib env))
preloaded-IsPrepared lib val env =
    let before = sanitized-IsPrepared lib env in
    record {
      asan = before.asan;
      lsan = before.lsan;
      ubsan = before.ubsan;
      msan = before.msan;
      ld = setenv-sets (codes "LD_PRELOAD") val (sanitized lib env) refl;
      dyld =
          setenv-sets (codes "DYLD_INSERT_LIBRARIES") val
            (setenv (codes "LD_PRELOAD") val true (sanitized lib env)) refl;
      others = λ n (a, (l, (u, (m, (ld, (dyld, t)))))). rw (a, l, u, m, ld, dyld) refl;
    }

preload-IsPrepared :
    (lib : Libs) (qemu_mode frida_mode : Bool) (given : Option Text) (binary : Text) (env : Env)
    → ((v : Text) → given ≡ some v → env (codes "AFL_PRELOAD") ≡ some v)
    → (out : Env) × (preload qemu_mode frida_mode given binary (sanitized lib env) ≡ ok out)
      × IsPrepared lib (libraries qemu_mode frida_mode given binary) env out
preload-IsPrepared lib true frida_mode (some v) binary env reads =
    (sanitized lib env, refl, sanitized-IsPrepared lib env)
preload-IsPrepared lib false true (some v) binary env reads = (
  preloaded (v ++ codes ":" ++ binary) (sanitized lib env),
  ap (λ o. ok (preloaded (frida_preload o binary) (sanitized lib env))) (reads v refl),
  preloaded-IsPrepared lib (v ++ codes ":" ++ binary) env,
)
preload-IsPrepared lib false false (some v) binary env reads = (
  preloaded v (sanitized lib env),
  ap (λ o. preload_given o (sanitized lib env)) (reads v refl),
  preloaded-IsPrepared lib v env,
)
preload-IsPrepared lib qemu_mode true none binary env reads =
    (preloaded binary (sanitized lib env), refl, preloaded-IsPrepared lib binary env)
preload-IsPrepared lib qemu_mode false none binary env reads =
    (sanitized lib env, refl, sanitized-IsPrepared lib env)

-- Where get_afl_env gives the value of its variable or nothing, set_up_environment ends, in every
-- mode: the sanitizers' options are what the user has set, or the defaults; LD_PRELOAD and
-- DYLD_INSERT_LIBRARIES name the library of FRIDA in its mode, behind those of AFL_PRELOAD, and
-- otherwise those of AFL_PRELOAD, if any are given, but stay as they were where AFL_PRELOAD meets
-- QEMU; and every other variable is as it was.
pub set_up_environment_lem :
    (lib : Libs) (qemu_mode frida_mode : Bool) (argv0 : Text) (env : Env)
    → IsReader lib.get_afl_env
    → (out : Env) × (set_up_environment lib qemu_mode frida_mode argv0 env ≡ ok out)
      × IsPrepared lib
          (libraries qemu_mode frida_mode
            (lib.get_afl_env env (codes "AFL_PRELOAD"))
            (lib.find_afl_binary argv0 (codes "afl-frida-trace.so")))
          env
          out
unfolding set_up_environment
set_up_environment_lem lib qemu_mode frida_mode argv0 env reader =
    let name = codes "AFL_PRELOAD" in
    let binary = lib.find_afl_binary argv0 (codes "afl-frida-trace.so") in
    let same : lib.get_afl_env (sanitized lib env) name ≡ lib.get_afl_env env name =
      reader.looks (sanitized lib env) env name refl in
    let (out, ends, prepared) =
      preload-IsPrepared lib qemu_mode frida_mode (lib.get_afl_env env name) binary env
        (reader.reads env name) in
    (out, ap (λ o. preload qemu_mode frida_mode o binary (sanitized lib env)) same ∙ ends, prepared)

abbrev IsAccepted : ℤ → ℕ → Type 0
IsAccepted (pos n) c = (n ≤ 128) × (c ≡ n)
IsAccepted (negsuc n) c = (n ≤ 126) × (c + n ≡ 255)

some-only : (b : Bool) (d c : ℕ) → (if b then none else some d) ≡ some c → (b ≡ false) × (c ≡ d)
some-only true d c h = cc
some-only false d c h = (refl, cc)

crash_exitcode-IsAccepted :
    (z : ℤ) (is_error : Bool) (c : ℕ) → crash_exitcode z is_error ≡ some c → IsAccepted z c
unfolding crash_exitcode
crash_exitcode-IsAccepted (pos n) is_error c h =
    let (kept, byte) = some-only ((n == 0 && is_error) || ltb 128 n) (wrapped 8 (pos n)) c h in
    let small : n ≤ 128 = ground (arith, kept) in (small, omega (arith, byte, small))
crash_exitcode-IsAccepted (negsuc n) is_error c h =
    let (kept, byte) = some-only (ltb 126 n) (wrapped 8 (negsuc n)) c h in
    let small : n ≤ 126 = ground (arith, kept) in (small, omega (arith, byte, small))

IsAccepted-unique : (c : ℕ) (y z : ℤ) → IsAccepted y c → IsAccepted z c → y ≡ z
IsAccepted-unique c (pos n) (pos m) hy hz = ap pos (omega (arith, hy, hz))
IsAccepted-unique c (negsuc n) (negsuc m) hy hz = ap negsuc (omega (arith, hy, hz))
IsAccepted-unique c (pos n) (negsuc m) hy hz = absurd (omega (arith, hy, hz))
IsAccepted-unique c (negsuc n) (pos m) hy hz = absurd (omega (arith, hy, hz))

code_of_byte : (c : ℕ) → c < 256 → (z : ℤ) × (crash_exitcode z false ≡ some c)
unfolding crash_exitcode
code_of_byte c h = elim (Bool-cases (ltb 128 c)) [
  | inl high ↦ (negsuc (255 - c), ground (arith, high))
  | inr low ↦ (pos c, ground (arith, low))
]

-- For every byte there is one number, and only one, that as AFL_CRASH_EXITCODE makes it the crash exit
-- code; where errno shows no error, that number is accepted.
pub crash_exitcode_unique :
    (c : ℕ)
    → c < 256
    → (z : ℤ) × (crash_exitcode z false ≡ some c)
      × ((y : ℤ) (is_error : Bool) → crash_exitcode y is_error ≡ some c → y ≡ z)
crash_exitcode_unique c h =
    let (z, gives) = code_of_byte c h in
    let accepted = crash_exitcode-IsAccepted z false c gives in
    (
      z,
      gives,
      λ y is_error other.
          IsAccepted-unique c y z (crash_exitcode-IsAccepted y is_error c other) accepted,
    )
