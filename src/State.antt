-- ===== src/State.antt =====
-- The part of `afl_state_t` (`ctfuzz/afl/afl-fuzz.h`) that the modelled functions read and write,
-- and how a call ends. Numbers are the C integers, whose wrap the functions write out.
pub mod Samples
use ctfuzz.Base.{◌≡◌, refl, ◌⊎◌, inl, inr, ℕ, Bool, List, Option, none, some}
use ctfuzz.Base.Int.{ℤ}

-- Text: the codes of its bytes, without the final 0.
abbrev pub Text : Type 0
Text = List ℕ

-- How a call ends other than by a return: `FATAL` or `PFATAL`, which end the process, an access
-- outside of an object, which C leaves undefined, or the end of the fuel of a loop.
pub data Stop : Type 0 where
  cannot_execute cannot_create too_long : Stop
  out_of_bounds out_of_fuel : Stop

pub data Result {ℓ} (A : Type ℓ) : Type ℓ where
  ok : A → Result A
  stop : Stop → Result A

infixl 5 ◌>>=◌
abbrev pub ◌>>=◌ {ℓ κ} : {A : Type ℓ} {B : Type κ} → Result A → (A → Result B) → Result B
ok a >>= f = f a
stop e >>= f = stop e

pub Result-cases {ℓ} :
    {A : Type ℓ} (r : Result A) → ((a : A) × (r ≡ ok a)) ⊎ ((e : Stop) × (r ≡ stop e))
Result-cases (ok a) = inl (a, refl)
Result-cases (stop e) = inr (e, refl)

-- A read that may be out of bounds.
abbrev pub in_bounds {ℓ} : {A : Type ℓ} → Option A → Result A
in_bounds o = elim o [ some a ↦ ok a | none ↦ stop out_of_bounds ]

-- `afl_forkserver_t`
pub record Fsrv : Type 0 where
  pub map_size : ℕ
  pub real_map_size : ℕ
  pub trace_bits : List ℕ
  pub total_execs : ℕ
  pub exec_tmout : ℕ
  pub last_kill_signal : ℕ

-- `struct queue_entry`
pub record Entry : Type 0 where
  pub fname : Text
  pub len : ℕ
  pub has_new_cov : Bool
  pub n_fuzz_entry : ℕ
  pub exec_cksum : ℕ

-- What `describe_op` reads of the mutation that is under way.
pub record Stage : Type 0 where
  pub syncing_party : Option Text
  pub syncing_case : ℕ
  pub current_entry : ℕ
  pub splicing_with : ℤ
  pub prev_run_time : ℕ
  pub start_time : ℕ
  pub stage_short : Text
  pub stage_cur_byte : ℤ
  pub stage_val_type : ℕ
  pub stage_cur_val : ℤ

-- `afl_state_t`. `unique_path` holds the hashes of that list behind its first node; `queue` is the
-- entries, the top first; `n_fuzz` is the array by its index; `files` is the output directory.
pub record Afl : Type 0 where
  pub fsrv : Fsrv
  pub virgin_bits : List ℕ
  pub virgin_tmout : List ℕ
  pub virgin_crash : List ℕ
  pub bitmap_changed : Bool
  pub unique_path : List ℕ
  pub total_unique_path : ℕ
  pub schedule : ℕ
  pub n_fuzz : ℕ → ℕ
  pub crash_mode : ℕ
  pub total_crashes : ℕ
  pub saved_crashes : ℕ
  pub total_tmouts : ℕ
  pub saved_tmouts : ℕ
  pub saved_hangs : ℕ
  pub queue : List Entry
  pub queued_items : ℕ
  pub queued_with_cov : ℕ
  pub queue_cycle : ℕ
  pub q_testcase_max_cache_size : ℕ
  pub non_instrumented_mode : Bool
  pub hang_tmout : ℕ
  pub stop_soon : ℕ
  pub afl_keep_timeouts : Bool
  pub afl_no_crash_readme : ℕ
  pub infoexec : Bool
  pub last_hang_time : ℕ
  pub last_crash_time : ℕ
  pub last_crash_execs : ℕ
  pub out_dir : Text
  pub stage : Stage
  pub files : List (Text × List ℕ)

-- The three maps that `has_new_bits` is called with.
pub data VirginMap : Type 0 where
  virgin_bits virgin_tmout virgin_crash : VirginMap

abbrev pub map_of : VirginMap → Afl → List ℕ
map_of virgin_bits s = s.virgin_bits
map_of virgin_tmout s = s.virgin_tmout
map_of virgin_crash s = s.virgin_crash

abbrev pub with_map : VirginMap → List ℕ → Afl → Afl
with_map virgin_bits m s = record s { virgin_bits = m }
with_map virgin_tmout m s = record s { virgin_tmout = m }
with_map virgin_crash m s = record s { virgin_crash = m }
