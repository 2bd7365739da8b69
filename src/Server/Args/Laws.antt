-- ===== src/Server/Args/Laws.antt =====
-- What holds of every command line that is accepted.
use mathlib.Core.Path.{subst, sym}
use ctfuzz.Base.{if-true, if-false}
use ctfuzz.Base.{
  ℕ, ◌%◌, ◌^◌, ◌≤◌, ◌<◌, ◌≡◌, refl, ◌∙◌, ◌⊎◌, inl, inr, Bool, true, false, ◌&&◌, ◌||◌, Bool-cases,
  Option, none, some, List, ltb, arith,
}
use ctfuzz.Base.Int.{ℤ, pos, negsuc}
use ctfuzz.Base.Text.{codes, str_eq}
use ctfuzz.State.{Text}
use ctfuzz.Environ.{wrapped}
use ctfuzz.Server.Args.Chooses.{Chooses, Chooses-if, parse-Chooses}
use ctfuzz.Server.Args.{
  Opt, Chosen, Scans, has_minus, scaled, letter_or_m, limited, scanned, set_memory, set_timeout,
  once, unless, take_opt, limit_of_mode, with_mode_limit, parse, input, output, memory, file,
  timeout, at, skip_classes, coverage, edges, quiet, cmin, frida, coresight, qemu, unicorn, wine,
  nyx, binary, cores, raw, help, unknown,
}

-- The options do not contradict each other: not both `-e` and `-r`, a limit that is given is none or
-- at least 5, and a timeout that is given is at least 20 and fits into its `u32`.
pub record IsSane (s : Chosen) : Type 0 where
  pub exclusive : (s.edges_only && s.raw_instr_output) ≡ false
  pub memory_limit : s.mem_limit_given ≡ true → (s.mem_limit ≡ 0) ⊎ (5 ≤ s.mem_limit)
  pub exec_timeout : s.timeout_given ≡ true → (20 ≤ s.exec_tmout) × (s.exec_tmout < 2 ^ 32)

limited-IsSane : (s : Chosen) (n : Option ℕ) → IsSane s → Chooses IsSane (limited s n)
limited-IsSane s none is = tt
limited-IsSane s (some n) is =
    Chooses-if IsSane (ltb n 5) _ _ (λ low. tt)
      (λ high. record {
        exclusive = is.exclusive;
        memory_limit = λ given. inr (ground (arith, high));
        exec_timeout = is.exec_timeout;
      })

scanned-IsSane :
    (s : Chosen) (minus : Bool) (found : Option (ℕ × Option ℕ))
    → IsSane s
    → Chooses IsSane (scanned s minus found)
scanned-IsSane s minus none is = tt
scanned-IsSane s minus (some (n, letter)) is =
    Chooses-if IsSane minus _ _ (λ m. tt)
      (λ m. limited-IsSane s (scaled (n % 2 ^ 64) (letter_or_m letter)) is)

set_memory-IsSane :
    (lib : Scans) (arg : Text) (s : Chosen) → IsSane s → Chooses IsSane (set_memory lib arg s)
unfolding set_memory
set_memory-IsSane lib arg s is =
    Chooses-if IsSane s.mem_limit_given _ _ (λ given. tt)
      (λ first.
        Chooses-if IsSane (str_eq arg (codes "none")) _ _
          (λ none_. record {
            exclusive = is.exclusive;
            memory_limit = λ given. inl refl;
            exec_timeout = is.exec_timeout;
          })
          (λ some_. scanned-IsSane s (has_minus arg) (lib.sscanf arg) is))

wrapped-lt : (n : ℤ) → wrapped 32 n < 2 ^ 32
wrapped-lt (pos n) = omega arith
wrapped-lt (negsuc n) = omega arith

set_timeout-IsSane :
    (lib : Scans) (arg : Text) (s : Chosen) → IsSane s → Chooses IsSane (set_timeout lib arg s)
unfolding set_timeout
set_timeout-IsSane lib arg s is =
    let ms = wrapped 32 (lib.atoi arg) in
    Chooses-if IsSane s.timeout_given _ _ (λ given. tt)
      (λ first.
        Chooses-if IsSane (str_eq arg (codes "none")) _ _
          (λ none_. record {
            exclusive = is.exclusive;
            memory_limit = is.memory_limit;
            exec_timeout = λ given. (omega arith, omega arith);
          })
          (λ some_.
            Chooses-if IsSane (ltb ms 20 || has_minus arg) _ _ (λ low. tt)
              (λ high. record {
                exclusive = is.exclusive;
                memory_limit = is.memory_limit;
                exec_timeout =
                    λ given. (at_least ms (has_minus arg) high, wrapped-lt (lib.atoi arg));
              })))
  where
    at_least : (ms : ℕ) (minus : Bool) → (ltb ms 20 || minus) ≡ false → 20 ≤ ms
    at_least ms true h = ground (arith, h)
    at_least ms false h = ground (arith, h)

-- An option that leaves these three alone.
Chooses-same :
    (s t : Chosen)
    → IsSane s
    → (t.edges_only && t.raw_instr_output) ≡ (s.edges_only && s.raw_instr_output)
    → t.mem_limit_given ≡ s.mem_limit_given
    → t.mem_limit ≡ s.mem_limit
    → t.timeout_given ≡ s.timeout_given
    → t.exec_tmout ≡ s.exec_tmout
    → IsSane t
Chooses-same s t is a b c d e = record {
  exclusive = a ∙ is.exclusive;
  memory_limit = rw (b, c) is.memory_limit;
  exec_timeout = rw (d, e) is.exec_timeout;
}

unless-IsSane :
    (given : Bool) (t : Chosen) → (given ≡ false → IsSane t) → Chooses IsSane (unless given t)
unless-IsSane given t h = Chooses-if IsSane given _ _ (λ twice. tt) h

once-IsSane : (given : Option Text) (t : Chosen) → IsSane t → Chooses IsSane (once given t)
once-IsSane none t is = is
once-IsSane (some a) t is = tt

neither : (a b : Bool) → (a || b) ≡ false → b ≡ false
neither true b h = cc
neither false b h = h

take_opt-IsSane :
    (lib : Scans) (o : Opt) (s : Chosen) → IsSane s → Chooses IsSane (take_opt lib o s)
unfolding take_opt
take_opt-IsSane lib skip_classes s is = Chooses-same s _ is refl refl refl refl refl
take_opt-IsSane lib coverage s is = Chooses-same s _ is refl refl refl refl refl
take_opt-IsSane lib quiet s is = Chooses-same s _ is refl refl refl refl refl
take_opt-IsSane lib cmin s is = Chooses-same s _ is refl refl refl refl refl
take_opt-IsSane lib binary s is = Chooses-same s _ is refl refl refl refl refl
take_opt-IsSane lib (at arg) s is = Chooses-same s _ is refl refl refl refl refl
take_opt-IsSane lib (input arg) s is =
    once-IsSane s.in_dir _ (Chooses-same s _ is refl refl refl refl refl)
take_opt-IsSane lib (output arg) s is =
    once-IsSane s.out_file _ (Chooses-same s _ is refl refl refl refl refl)
take_opt-IsSane lib (memory arg) s is = set_memory-IsSane lib arg s is
take_opt-IsSane lib (timeout arg) s is = set_timeout-IsSane lib arg s is
take_opt-IsSane lib (file arg) s is = tt
take_opt-IsSane lib coresight s is = tt
take_opt-IsSane lib help s is = tt
take_opt-IsSane lib unknown s is = tt
take_opt-IsSane lib frida s is =
    unless-IsSane s.frida_mode _ (λ first. Chooses-same s _ is refl refl refl refl refl)
take_opt-IsSane lib qemu s is =
    unless-IsSane s.qemu_mode _ (λ first. Chooses-same s _ is refl refl refl refl refl)
take_opt-IsSane lib unicorn s is =
    unless-IsSane s.unicorn_mode _ (λ first. Chooses-same s _ is refl refl refl refl refl)
take_opt-IsSane lib wine s is =
    unless-IsSane s.use_wine _ (λ first. Chooses-same s _ is refl refl refl refl refl)
take_opt-IsSane lib nyx s is =
    unless-IsSane s.nyx_mode _ (λ first. Chooses-same s _ is refl refl refl refl refl)
take_opt-IsSane lib cores s is =
    unless-IsSane s.keep_cores _ (λ first. Chooses-same s _ is refl refl refl refl refl)
take_opt-IsSane lib edges s is = unless-IsSane (s.edges_only || s.raw_instr_output) _ (λ first.
    record {
      exclusive = neither s.edges_only s.raw_instr_output first;
      memory_limit = is.memory_limit;
      exec_timeout = is.exec_timeout;
    })
take_opt-IsSane lib raw s is = unless-IsSane (s.raw_instr_output || s.edges_only) _ (λ first.
    record {
      exclusive = rw (neither s.raw_instr_output s.edges_only first) refl;
      memory_limit = is.memory_limit;
      exec_timeout = is.exec_timeout;
    })

limit_of_mode-IsSane :
    (mode : Bool) (n : ℕ) (s : Chosen) → IsSane s → IsSane (limit_of_mode mode n s)
limit_of_mode-IsSane false n s is = is
limit_of_mode-IsSane true n s is = elim (Bool-cases s.mem_limit_given) [
  | inl given ↦
      subst IsSane {x = s} {y = limit_of_mode true n s}
        (sym (if-true s.mem_limit_given s (record s { mem_limit = n }) given)) is
  | inr default ↦
      subst IsSane {x = record s { mem_limit = n }} {y = limit_of_mode true n s}
        (sym (if-false s.mem_limit_given s (record s { mem_limit = n }) default))
        (record {
          exclusive = is.exclusive;
          memory_limit = λ given. cc;
          exec_timeout = is.exec_timeout;
        })
]

with_mode_limit-IsSane : (q u : ℕ) (s : Chosen) → IsSane s → IsSane (with_mode_limit q u s)
with_mode_limit-IsSane q u s is =
    let s' = limit_of_mode s.qemu_mode q s in
    limit_of_mode-IsSane s'.unicorn_mode u s' (limit_of_mode-IsSane s.qemu_mode q s is)

-- Whatever the options are and in whatever order they stand: a command line that is accepted is
-- sane, if what the process starts with is.
pub parse-IsSane :
    (lib : Scans) (q u : ℕ) (rest : Bool) (opts : List Opt) (s : Chosen)
    → IsSane s
    → Chooses IsSane (parse lib q u rest opts s)
parse-IsSane lib q u rest opts s is =
    parse-Chooses IsSane lib q u rest (take_opt-IsSane lib) (with_mode_limit-IsSane q u) opts s is
