-- ===== src/Save/Path.antt =====
-- The unique paths of CTFuzz: the first part of `save_if_interesting`.
pub mod Laws
pub mod Campaign
use ctfuzz.Base.{
  ℕ, zero, suc, ◌+◌, ◌%◌, ◌^◌, Bool, true, false, ◌&&◌, Option, none, some, List, [], ◌∷◌, ◌++◌,
  ◌==◌, leb, ltb, if◌then◌else◌, length, set, replicate,
}
use ctfuzz.State.{Afl, Result, ok, in_bounds, ◌>>=◌}
use ctfuzz.Save.Env.{Env}

-- `for (u32 i = 0; i < afl->fsrv.map_size; i++)` over the trace, with `left` rounds to go: `tmp` is
-- `tmp_mapsize`. `none` is an access outside of the trace or of `tmp`.
unfoldable pub mark_hits : ℕ → ℕ → List ℕ → List ℕ → Option (List ℕ)
mark_hits zero i trace tmp = some tmp
mark_hits (suc left) i [] tmp = none
mark_hits (suc left) i (b ∷ trace) tmp =
    let rest = mark_hits left (i + 1) trace (if b == 0 then tmp else set tmp i 1) in
    if b == 0 then rest else if ltb i (length tmp) then rest else none

-- `while (p->next)`: whether a node holds the hash.
unfoldable pub on_path : ℕ → List ℕ → Bool
on_path cksum [] = false
on_path cksum (h ∷ hs) = if h == cksum then true else on_path cksum hs

-- `N_FUZZ_SIZE`
abbrev pub n_fuzz_size : ℕ
n_fuzz_size = 2 ^ 21

abbrev pub put : (ℕ → ℕ) → ℕ → ℕ → ℕ → ℕ
put t i v j = if i == j then v else t j

-- A hash that is not on the path is appended and counted.
unfoldable pub add_path : ℕ → Afl → Afl
add_path cksum s = if on_path cksum s.unique_path then s else record s {
  unique_path = s.unique_path ++ cksum ∷ [];
  total_unique_path = (s.total_unique_path + 1) % 2 ^ 64;
}

-- `afl->schedule >= FAST && afl->schedule <= RARE`, and the saturated increment.
unfoldable pub count_path : ℕ → Afl → Afl
count_path cksum s =
    let i = cksum % n_fuzz_size in
    if leb 3 s.schedule && leb s.schedule 7 && ltb (s.n_fuzz i) 0xFFFFFFFF
    then record s { n_fuzz = put s.n_fuzz i (s.n_fuzz i + 1) }
    else s

-- The checksum, and the state with its path counted.
unfoldable pub update_path_frequency : Env → Afl → Result (ℕ × Afl)
update_path_frequency env s = do
  tmp ← in_bounds (mark_hits s.fsrv.map_size 0 s.fsrv.trace_bits (replicate env.map_size 0))
  ok (env.hash64 tmp, count_path (env.hash64 tmp) (add_path (env.hash64 tmp) s))
