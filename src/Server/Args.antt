-- ===== src/Server/Args.antt =====
-- The options of `main` of `ctfuzz/afl/ex-frsv.c`, in the build for Linux that is not for AArch64:
-- what `getopt` finds on the command line, one after the other. `sscanf` and `atoi` are parameters.
pub mod Chooses
pub mod Laws
use ctfuzz.Base.{
  ℕ, ◌+◌, ◌*◌, ◌/◌, ◌%◌, ◌^◌, Bool, true, false, not, ◌&&◌, ◌||◌, Option, none, some, List, [], ◌∷◌,
  ◌==◌, ltb, if◌then◌else◌,
}
use ctfuzz.Base.Int.{ℤ}
use ctfuzz.Base.Text.{codes, str_eq}
use ctfuzz.State.{Text}
use ctfuzz.Environ.{wrapped}

-- The letters of `"+i:o:f:m:t:AeqCZOH:QUWbcrshXY"`, with the argument where there is one.
pub data Opt : Type 0 where
  input output memory file timeout at : Text → Opt
  skip_classes coverage edges quiet cmin frida coresight qemu unicorn wine nyx binary cores raw :
      Opt
  help unknown : Opt

-- What the options set. `mem_limit` is a `u64` and `exec_tmout` a `u32`.
pub record Chosen : Type 0 where
  pub in_dir : Option Text
  pub out_file : Option Text
  pub at_file : Option Text
  pub mem_limit_given : Bool
  pub mem_limit : ℕ
  pub timeout_given : Bool
  pub exec_tmout : ℕ
  pub edges_only : Bool
  pub raw_instr_output : Bool
  pub binary_mode : Bool
  pub no_classify : Bool
  pub collect_coverage : Bool
  pub quiet_mode : Bool
  pub cmin_mode : Bool
  pub keep_cores : Bool
  pub frida_mode : Bool
  pub qemu_mode : Bool
  pub unicorn_mode : Bool
  pub use_wine : Bool
  pub nyx_mode : Bool

-- `FATAL`, or `usage`, which ends the process too.
pub data Parsed : Type 0 where
  chosen : Chosen → Parsed
  refused usage : Parsed

-- `sscanf(optarg, "%llu%c", ...)`: the number and the letter behind it, if they are there; and `atoi`.
pub record Scans : Type 0 where
  pub sscanf : Text → Option (ℕ × Option ℕ)
  pub atoi : Text → ℤ

abbrev pub has_minus : Text → Bool
has_minus [] = false
has_minus (c ∷ cs) = c == 45

-- `switch (suffix)`; `none` is the `FATAL`.
abbrev pub scaled : ℕ → ℕ → Option ℕ
scaled n suffix =
    if suffix == b'T'
    then some (n * (1024 * 1024) % 2 ^ 64)
    else if suffix == b'G'
    then some (n * 1024 % 2 ^ 64)
    else if suffix == b'k'
    then some (n / 1024)
    else if suffix == b'M'
    then some n
    else none

abbrev pub letter_or_m : Option ℕ → ℕ
letter_or_m none = b'M'
letter_or_m (some c) = c

-- The limit that is read and scaled.
abbrev pub limited : Chosen → Option ℕ → Parsed
limited s none = refused
limited s (some n) =
    if ltb n 5 then refused else chosen (record s { mem_limit_given = true; mem_limit = n })

abbrev pub scanned : Chosen → Bool → Option (ℕ × Option ℕ) → Parsed
scanned s minus none = refused
scanned s minus (some (n, letter)) =
    if minus then refused else limited s (scaled (n % 2 ^ 64) (letter_or_m letter))

-- `case 'm'` and `case 't'`
unfoldable pub set_memory : Scans → Text → Chosen → Parsed
set_memory lib arg s =
    if s.mem_limit_given
    then refused
    else if str_eq arg (codes "none")
    then chosen (record s { mem_limit_given = true; mem_limit = 0 })
    else scanned s (has_minus arg) (lib.sscanf arg)

unfoldable pub set_timeout : Scans → Text → Chosen → Parsed
set_timeout lib arg s =
    let ms = wrapped 32 (lib.atoi arg) in
    if s.timeout_given
    then refused
    else if str_eq arg (codes "none")
    then chosen (record s { timeout_given = true; exec_tmout = 120000 })
    else if ltb ms 20 || has_minus arg
    then refused
    else chosen (record s { timeout_given = true; exec_tmout = ms })

abbrev pub once : {A : Type 0} → Option A → Chosen → Parsed
once none s = chosen s
once (some a) s = refused

abbrev pub unless : Bool → Chosen → Parsed
unless given s = if given then refused else chosen s

-- `switch (opt)`
unfoldable pub take_opt : Scans → Opt → Chosen → Parsed
take_opt lib skip_classes s = chosen (record s { no_classify = true })
take_opt lib coverage s = chosen (record s { collect_coverage = true; quiet_mode = true })
take_opt lib (input arg) s = once s.in_dir (record s { in_dir = some arg })
take_opt lib (output arg) s = once s.out_file (record s { out_file = some arg })
take_opt lib (memory arg) s = set_memory lib arg s
take_opt lib (file arg) s = refused
take_opt lib (timeout arg) s = set_timeout lib arg s
take_opt lib edges s = unless (s.edges_only || s.raw_instr_output) (record s { edges_only = true })
take_opt lib quiet s = chosen (record s { quiet_mode = true })
take_opt lib cmin s = chosen (record s { cmin_mode = true; quiet_mode = true })
take_opt lib (at arg) s = chosen (record s { at_file = some arg })
take_opt lib frida s = unless s.frida_mode (record s { frida_mode = true })
take_opt lib coresight s = refused
take_opt lib qemu s = unless s.qemu_mode (record s { qemu_mode = true })
take_opt lib unicorn s = unless s.unicorn_mode (record s { unicorn_mode = true })
take_opt lib wine s = unless s.use_wine (record s { qemu_mode = true; use_wine = true })
take_opt lib nyx s = unless s.nyx_mode (record s { nyx_mode = true })
take_opt lib binary s = chosen (record s { binary_mode = true })
take_opt lib cores s = unless s.keep_cores (record s { keep_cores = true })
take_opt lib raw s =
    unless (s.raw_instr_output || s.edges_only) (record s { raw_instr_output = true })
take_opt lib help s = usage
take_opt lib unknown s = usage

abbrev pub and_then : (Chosen → Parsed) → Parsed → Parsed
and_then later (chosen s) = later s
and_then later refused = refused
and_then later usage = usage

-- `while ((opt = getopt(...)) > 0)`
unfoldable pub take_opts : Scans → List Opt → Chosen → Parsed
take_opts lib [] s = chosen s
take_opts lib (o ∷ opts) s = and_then (take_opts lib opts) (take_opt lib o s)

-- The globals and `mem_limit` before the loop; `mem_limit` and `exec_tmout` are what
-- `afl_fsrv_init` leaves.
abbrev pub initial : ℕ → ℕ → Chosen
initial mem_limit exec_tmout = record {
  in_dir = none;
  out_file = none;
  at_file = none;
  mem_limit_given = false;
  mem_limit = mem_limit;
  timeout_given = false;
  exec_tmout = exec_tmout;
  edges_only = false;
  raw_instr_output = false;
  binary_mode = false;
  no_classify = false;
  collect_coverage = true;
  quiet_mode = true;
  cmin_mode = false;
  keep_cores = false;
  frida_mode = false;
  qemu_mode = false;
  unicorn_mode = false;
  use_wine = false;
  nyx_mode = false;
}

-- `if (mode && !mem_limit_given)`
abbrev pub limit_of_mode : Bool → ℕ → Chosen → Chosen
limit_of_mode mode n s =
    if mode then if s.mem_limit_given then s else record s { mem_limit = n } else s

-- `MEM_LIMIT_QEMU`, and then `MEM_LIMIT_UNICORN`.
abbrev pub with_mode_limit : ℕ → ℕ → Chosen → Chosen
with_mode_limit mem_limit_qemu mem_limit_unicorn s =
    let s' = limit_of_mode s.qemu_mode mem_limit_qemu s in
    limit_of_mode s'.unicorn_mode mem_limit_unicorn s'

-- The loop and the checks behind it. `rest` is whether an argument is left for the target.
unfoldable pub parse : Scans → ℕ → ℕ → Bool → List Opt → Chosen → Parsed
parse lib mem_limit_qemu mem_limit_unicorn rest opts s =
    and_then
      (λ t. elim t.out_file [
        | none ↦ usage
        | some fn ↦
            if rest then chosen (with_mode_limit mem_limit_qemu mem_limit_unicorn t) else usage
      ])
      (take_opts lib opts s)
