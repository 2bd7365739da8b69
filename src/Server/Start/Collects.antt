-- ===== src/Server/Start/Collects.antt =====
-- From the command line to the answers: `main` of `ctfuzz/afl/ex-frsv.c` always collects coverage.
use mathlib.Core.Path.{subst}
use ctfuzz.Base.{
  if-true, ap, ◌∙◌, ◌+◌, ℕ, ◌%◌, ◌^◌, ◌≤◌, ◌≡◌, refl, Bool, true, ◌||◌, Option, none, some, List,
  map, arith, All, length, ltb,
}
use ctfuzz.Base.Text.{codes, str_eq}
use ctfuzz.State.{Text}
use ctfuzz.Environ.{wrapped}
use ctfuzz.Server.{Server, Ran}
use ctfuzz.Server.Args.{
  Opt, Chosen, chosen, Scans, has_minus, scaled, letter_or_m, limited, scanned, set_memory,
  set_timeout, once, unless, take_opt, limit_of_mode, with_mode_limit, parse, initial, input,
  output, memory, file, timeout, at, skip_classes, coverage, edges, quiet, cmin, frida, coresight,
  qemu, unicorn, wine, nyx, binary, cores, raw, help, unknown,
}
use ctfuzz.Server.Args.Chooses.{Chooses, Chooses-if, parse-Chooses}
use ctfuzz.Server.Start.{
  Target, acquired, begun, gets_to_run, coverage_of, begun_with, start, start-IsReady,
}
use ctfuzz.Server.Session.{session, oracle, session-oracle, IsServable}

abbrev Collects : Chosen → Type 0
Collects s = s.collect_coverage ≡ true

limited-Collects : (s : Chosen) (n : Option ℕ) → Collects s → Chooses Collects (limited s n)
limited-Collects s none on = tt
limited-Collects s (some n) on = Chooses-if Collects (ltb n 5) _ _ (λ low. tt) (λ high. on)

scanned-Collects :
    (s : Chosen) (minus : Bool) (found : Option (ℕ × Option ℕ))
    → Collects s
    → Chooses Collects (scanned s minus found)
scanned-Collects s minus none on = tt
scanned-Collects s minus (some (n, letter)) on =
    Chooses-if Collects minus _ _ (λ m. tt)
      (λ m. limited-Collects s (scaled (n % 2 ^ 64) (letter_or_m letter)) on)

unless-Collects : (given : Bool) (t : Chosen) → Collects t → Chooses Collects (unless given t)
unless-Collects given t on = Chooses-if Collects given _ _ (λ twice. tt) (λ first. on)

once-Collects : (given : Option Text) (t : Chosen) → Collects t → Chooses Collects (once given t)
once-Collects none t on = on
once-Collects (some a) t on = tt

take_opt-Collects :
    (lib : Scans) (o : Opt) (s : Chosen) → Collects s → Chooses Collects (take_opt lib o s)
unfolding take_opt set_memory set_timeout
take_opt-Collects lib skip_classes s on = on
take_opt-Collects lib coverage s on = refl
take_opt-Collects lib quiet s on = on
take_opt-Collects lib cmin s on = on
take_opt-Collects lib binary s on = on
take_opt-Collects lib (at arg) s on = on
take_opt-Collects lib (input arg) s on = once-Collects s.in_dir _ on
take_opt-Collects lib (output arg) s on = once-Collects s.out_file _ on
take_opt-Collects lib (memory arg) s on =
    Chooses-if Collects s.mem_limit_given _ _ (λ given. tt)
      (λ first.
        Chooses-if Collects (str_eq arg (codes "none")) _ _ (λ none_. on)
          (λ some_. scanned-Collects s (has_minus arg) (lib.sscanf arg) on))
take_opt-Collects lib (timeout arg) s on =
    Chooses-if Collects s.timeout_given _ _ (λ given. tt)
      (λ first.
        Chooses-if Collects (str_eq arg (codes "none")) _ _ (λ none_. on)
          (λ some_.
            Chooses-if Collects (ltb (wrapped 32 (lib.atoi arg)) 20 || has_minus arg) _ _
              (λ low. tt) (λ high. on)))
take_opt-Collects lib (file arg) s on = tt
take_opt-Collects lib coresight s on = tt
take_opt-Collects lib help s on = tt
take_opt-Collects lib unknown s on = tt
take_opt-Collects lib edges s on = unless-Collects (s.edges_only || s.raw_instr_output) _ on
take_opt-Collects lib raw s on = unless-Collects (s.raw_instr_output || s.edges_only) _ on
take_opt-Collects lib frida s on = unless-Collects s.frida_mode _ on
take_opt-Collects lib qemu s on = unless-Collects s.qemu_mode _ on
take_opt-Collects lib unicorn s on = unless-Collects s.unicorn_mode _ on
take_opt-Collects lib wine s on = unless-Collects s.use_wine _ on
take_opt-Collects lib nyx s on = unless-Collects s.nyx_mode _ on
take_opt-Collects lib cores s on = unless-Collects s.keep_cores _ on

limit_of_mode-Collects :
    (mode : Bool) (n : ℕ) (s : Chosen) → Collects s → Collects (limit_of_mode mode n s)
limit_of_mode-Collects mode n s on = ground (arith, on)

with_mode_limit-Collects : (q u : ℕ) (s : Chosen) → Collects s → Collects (with_mode_limit q u s)
with_mode_limit-Collects q u s on =
    let s' = limit_of_mode s.qemu_mode q s in
    limit_of_mode-Collects s'.unicorn_mode u s' (limit_of_mode-Collects s.qemu_mode q s on)

parse-Collects :
    (lib : Scans) (q u mem_limit exec_tmout : ℕ) (rest : Bool) (opts : List Opt) (s : Chosen)
    → parse lib q u rest opts (initial mem_limit exec_tmout) ≡ chosen s
    → Collects s
parse-Collects lib q u mem_limit exec_tmout rest opts s e = subst (Chooses Collects) e (
    parse-Chooses Collects lib q u rest (take_opt-Collects lib) (with_mode_limit-Collects q u) opts
      (initial mem_limit exec_tmout) refl)

-- Whatever the options are, without `-C` too: a command line that is accepted and names an input
-- directory starts a server, if the target's map has between 65472 and 65536 bytes, memory is given
-- for it, the environment is valid, and the calls on the way come back. It answers every request of a
-- session, whose inputs fit and whose runs complete, with the reply to that input alone.
pub session-start :
    (lib : Scans) (q u mem_limit exec_tmout : ℕ) (rest : Bool) (opts : List Opt) (s : Chosen)
    (dir : Text) (t : Target) (map_size : ℕ) (given_map : List ℕ) (target : List ℕ → Ran)
    (mem : List ℕ) (inputs : List (List ℕ))
    → parse lib q u rest opts (initial mem_limit exec_tmout) ≡ chosen s
    → s.in_dir ≡ some dir
    → gets_to_run t ≡ true
    → t.malloc (acquired s t map_size + 64) ≡ some given_map
    → ((n : ℕ) (m : List ℕ) → t.malloc n ≡ some m → length m ≡ n)
    → 65472 ≤ acquired s t map_size
    → t.started_map_size (acquired s t map_size) ≤ 65536
    → All (IsServable target (t.started_map_size (acquired s t map_size))) inputs
    → (r : Server) × (start s t map_size ≡ some r)
      × (session target r mem inputs ≡ some (map (oracle target r.map_size) inputs))
unfolding start
session-start lib q u mem_limit exec_tmout rest opts s dir t map_size given_map target mem inputs e
      given runs memory_given allocates large small servable =
    let size = acquired s t map_size in
    let r = begun s t size given_map in
    let on = parse-Collects lib q u mem_limit exec_tmout rest opts s e in
    let coverage_given : coverage_of s t size ≡ some given_map =
      if-true s.collect_coverage (t.malloc (size + 64)) _ on ∙ memory_given in
    let begins : start s t map_size ≡ some r = rw given (
      if-true (gets_to_run t) (begun_with s t size (coverage_of s t size)) none runs
      ∙ ap (begun_with s t size) coverage_given) in
    let ready = start-IsReady s t map_size r begins on allocates large small in
    (r, begins, session-oracle target r mem inputs ready servable)
