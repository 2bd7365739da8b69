-- ===== src/Save/Describe.antt =====
-- `describe_op` of `ctfuzz/afl/afl-fuzz-bitmap.c`, in the build without `SIMPLE_FILES`.
use Prim.Native.Nat.{min}
use ctfuzz.Base.{
  ℕ, ◌+◌, ◌-◌, ◌%◌, bit_and, Bool, not, none, some, [], ◌∷◌, ◌++◌, ◌==◌, leb, if◌then◌else◌, length,
  take,
}
use ctfuzz.Base.Int.{ℤ, pos, negsuc}
use ctfuzz.Base.Text.{codes}
use ctfuzz.State.{Afl, Text, Stage, Result, ok, stop, too_long, out_of_bounds, ◌>>=◌}
use ctfuzz.Stats.File.{sub64}
use ctfuzz.Save.Env.{Env}

-- `new_bits & 0xf0`, and `new_bits -= 0x80` where that holds, in `u8`.
abbrev pub is_timeout : ℕ → Bool
is_timeout new_bits = not (bit_and new_bits 0xf0 == 0)

abbrev pub found_bits : ℕ → ℕ
found_bits new_bits = if is_timeout new_bits then (new_bits + 256 - 0x80) % 256 else new_bits

module _ (env : Env) where
  abbrev splice_part : ℤ → Text
  splice_part (pos n) = codes "+" ++ env.formats.pad6 n
  splice_part (negsuc n) = []

  abbrev stage_part : Stage → ℤ → Text
  stage_part st (pos n) =
      codes ",pos:"
      ++ env.formats.signed (pos n)
      ++ (if st.stage_val_type == 0
          then []
          else codes ",val:"
            ++ (if st.stage_val_type == 2 then codes "be:" else [])
            ++ env.formats.plus st.stage_cur_val)
  stage_part st (negsuc n) = codes ",rep:" ++ env.formats.signed st.stage_cur_val

  -- What `afl_custom_describe` gives, cut to what is left, or the stage's name where it gives none.
  abbrev pub described : Stage → ℕ → Text → Text
  described st left [] = codes "op:" ++ st.stage_short
  described st left (c ∷ cs) = take left (c ∷ cs)

  -- The description by a custom mutator; `FATAL` where nothing is left for it.
  abbrev pub custom_part : Stage → (ℕ → Text) → ℕ → ℕ → Result Text
  custom_part st describe used room =
      if leb room used
      then stop too_long
      else ok (described st (room - used) (describe (room - used)))

  abbrev pub source_part : Afl → Text
  source_part s =
      codes "src:"
      ++ env.formats.pad6 s.stage.current_entry
      ++ splice_part s.stage.splicing_with
      ++ codes ",time:"
      ++ env.formats.decimal (sub64 (env.get_cur_time s + s.stage.prev_run_time) s.stage.start_time)
      ++ codes ",execs:"
      ++ env.formats.decimal s.fsrv.total_execs

  abbrev pub custom_op : Stage → (ℕ → Text) → Text → ℕ → ℕ → Result Text
  custom_op st describe start marks_len room = do
    text ← custom_part st describe (length start + 5 + 2 + marks_len) room
    ok (start ++ text)

  -- The part before the marks.
  abbrev pub op_part : Afl → ℕ → ℕ → Result Text
  op_part s new_bits max_len = elim s.stage.syncing_party [
    | some party ↦
        ok (codes "sync:" ++ party ++ codes ",src:" ++ env.formats.pad6 s.stage.syncing_case)
    | none ↦ elim (env.custom_describe s) [
      | none ↦ ok (
          source_part s
          ++ codes ",op:"
          ++ s.stage.stage_short
          ++ stage_part s.stage s.stage.stage_cur_byte)
      | some describe ↦
          custom_op s.stage describe (source_part s ++ codes ",")
            (if is_timeout new_bits then 6 else 0) (min max_len 256)
    ]
  ]

  abbrev pub marks : ℕ → Text
  marks new_bits =
      (if is_timeout new_bits then codes ",+tout" else [])
      ++ (if found_bits new_bits == 2 then codes ",+cov" else [])

  -- The buffer holds 256 bytes with the final 0.
  abbrev pub fitting : Text → ℕ → Result Text
  fitting text max_len =
      if leb 256 (length text)
      then stop out_of_bounds
      else if leb max_len (length text)
      then stop too_long
      else ok text

  unfoldable pub describe_op : Afl → ℕ → ℕ → Result Text
  describe_op s new_bits max_description_len = do
    op ← op_part s new_bits max_description_len
    fitting (op ++ marks new_bits) max_description_len
