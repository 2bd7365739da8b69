-- ===== src/Save/Path/Laws.antt =====
-- The list of unique paths: no hash twice, and as many as are counted.
use ctfuzz.Base.{
  ℕ, zero, suc, ◌+◌, ◌-◌, ◌%◌, ◌^◌, ◌<◌, ◌≤◌, ◌≡◌, refl, ap, ◌∙◌, true, false, Bool-cases, inl, inr,
  some, List, [], ◌∷◌, ◌++◌, ◌==◌, leb, ◌&&◌, ltb, lt→ltb, if◌then◌else◌, arith, length,
  length-append, set, replicate,
}
use mathlib.Core.List.{append_assoc}
use native.Mathlib.Numerals.{unary_clauses}
use mathlib.Core.Path.{sym}
use ctfuzz.State.{Afl, ok}
use ctfuzz.Save.Env.{Env}
use ctfuzz.Save.Path.{mark_hits, on_path, add_path, count_path, update_path_frequency, n_fuzz_size}

-- No hash stands in front of itself.
abbrev pub Distinct : List ℕ → Type 0
Distinct [] = Unit
Distinct (h ∷ hs) = (on_path h hs ≡ false) × Distinct hs

-- The list behind the first node holds each path once, and their number is the count.
pub record IsCounted (s : Afl) : Type 0 where
  pub distinct : Distinct s.unique_path
  pub counted : s.total_unique_path ≡ length s.unique_path

pub on_path-append :
    (h c : ℕ) (hs : List ℕ)
    → on_path h (hs ++ c ∷ []) ≡ (if on_path h hs then true else if c == h then true else false)
unfolding on_path
on_path-append h c [] = refl
on_path-append h c (x ∷ hs) = ground (arith, on_path-append h c hs)

Distinct-append :
    (c : ℕ) (hs : List ℕ) → on_path c hs ≡ false → Distinct hs → Distinct (hs ++ c ∷ [])
unfolding on_path
Distinct-append c [] fresh d = (refl, tt)
Distinct-append c (h ∷ hs) fresh d =
    (ground (arith, on_path-append h c hs, d.0), Distinct-append c hs (ground (arith, fresh)) d.1)

length-add : (c : ℕ) (hs : List ℕ) → length (hs ++ c ∷ []) ≡ length hs + 1
length-add c hs = length-append hs (c ∷ [])

-- What a run leaves in `tmp_mapsize`: 1 for each byte of the map that it hit.
abbrev pub hits : ℕ → List ℕ → List ℕ
hits zero trace = []
hits (suc n) [] = []
hits (suc n) (b ∷ bs) = (if b == 0 then 0 else 1) ∷ hits n bs

set-append : (pre post : List ℕ) (v w : ℕ) → set (pre ++ v ∷ post) (length pre) w ≡ pre ++ w ∷ post
set-append [] post v w = refl
set-append (x ∷ pre) post v w = ap (λ t. x ∷ t) (set-append pre post v w)

mark_hits_lem :
    (left : ℕ) (pre trace rest : List ℕ)
    → left ≤ length trace
    → mark_hits left (length pre) trace (pre ++ (replicate left 0 ++ rest))
      ≡ some (pre ++ (hits left trace ++ rest))
unfolding mark_hits
mark_hits_lem zero pre trace rest h = refl
mark_hits_lem (suc left) pre [] rest h = absurd (omega arith)
mark_hits_lem (suc left) pre (b ∷ bs) rest h = elim (Bool-cases (b == 0)) [
  | inl missed ↦ rw missed (
      rw
        (
          ← append_assoc pre (0 ∷ []) (replicate left 0 ++ rest),
          ← append_assoc pre (0 ∷ []) (hits left bs ++ rest),
          ← length-add 0 pre,
        )
        (mark_hits_lem left (pre ++ 0 ∷ []) bs rest (omega arith)))
  | inr hit ↦
      rw
        (
          hit,
          set-append pre (replicate left 0 ++ rest) 0 1,
          lt→ltb (length pre) (length (pre ++ 0 ∷ (replicate left 0 ++ rest)))
              (omega (arith, length-append pre (0 ∷ (replicate left 0 ++ rest)))),
        )
        (rw
          (
            ← append_assoc pre (1 ∷ []) (replicate left 0 ++ rest),
            ← append_assoc pre (1 ∷ []) (hits left bs ++ rest),
            ← length-add 1 pre,
          )
          (mark_hits_lem left (pre ++ 1 ∷ []) bs rest (omega arith)))
]

pub replicate-split :
    (n m : ℕ) → n ≤ m → replicate {A = ℕ} m 0 ≡ replicate {A = ℕ} n 0 ++ replicate {A = ℕ} (m - n) 0
replicate-split zero m h = simp unary_clauses refl
replicate-split (suc n) zero h = absurd (omega arith)
replicate-split (suc n) (suc m) h =
    simp unary_clauses (ap (λ t. 0 ∷ t) (replicate-split n m (omega arith)))

-- What the hash of a run is taken of: the hits of the map, in a buffer of `MAP_SIZE` bytes.
abbrev pub hit_map : Env → Afl → List ℕ
hit_map env s =
    hits s.fsrv.map_size s.fsrv.trace_bits ++ replicate (env.map_size - s.fsrv.map_size) 0

marked_hits :
    (env : Env) (s : Afl)
    → s.fsrv.map_size ≤ env.map_size
    → s.fsrv.map_size ≤ length s.fsrv.trace_bits
    → mark_hits s.fsrv.map_size 0 s.fsrv.trace_bits (replicate env.map_size 0)
      ≡ some (hit_map env s)
marked_hits env s fits read =
    rw (replicate-split s.fsrv.map_size env.map_size fits)
      (mark_hits_lem s.fsrv.map_size [] s.fsrv.trace_bits _ read)

add_path-IsCounted :
    (c : ℕ) (s : Afl) → length s.unique_path + 1 < 2 ^ 64 → IsCounted s → IsCounted (add_path c s)
unfolding add_path
add_path-IsCounted c s small old = elim (Bool-cases (on_path c s.unique_path)) [
  | inl known ↦ rw known old
  | inr fresh ↦ rw fresh (record {
    distinct = Distinct-append c s.unique_path fresh old.distinct;
    counted = omega (arith, old.counted, length-add c s.unique_path, small);
  })
]

pub count_path-same :
    (c : ℕ) (s : Afl)
    → ((count_path c s).unique_path ≡ s.unique_path)
      × ((count_path c s).total_unique_path ≡ s.total_unique_path)
      × ((count_path c s).fsrv ≡ s.fsrv)
unfolding count_path
count_path-same c s =
    elim (Bool-cases
      (leb 3 s.schedule && leb s.schedule 7 && ltb (s.n_fuzz (c % n_fuzz_size)) 0xFFFFFFFF)) [
        | inl counts ↦ rw counts (refl, refl, refl)
        | inr not_ ↦ rw not_ (refl, refl, refl)
      ]

add_path-total :
    (c : ℕ) (s : Afl)
    → length s.unique_path + 1 < 2 ^ 64
    → IsCounted s
    → (add_path c s).total_unique_path
      ≡ (if on_path c s.unique_path then s.total_unique_path else s.total_unique_path + 1)
unfolding add_path
add_path-total c s small old = elim (Bool-cases (on_path c s.unique_path)) [
  | inl known ↦ rw known refl
  | inr fresh ↦ rw fresh (omega (arith, small, old.counted))
]

on_path-add_path : (c : ℕ) (s : Afl) → on_path c (add_path c s).unique_path ≡ true
unfolding add_path
on_path-add_path c s = elim (Bool-cases (on_path c s.unique_path)) [
  | inl known ↦ rw known known
  | inr fresh ↦ rw fresh (ground (arith, on_path-append c c s.unique_path))
]

-- What `update_path_frequency` promises of the path `c` of a run: `t` is the state behind it.
pub record IsPathAdded (c : ℕ) (s t : Afl) : Type 0 where
  pub counted : IsCounted t
  pub present : on_path c t.unique_path ≡ true
  pub total :
      t.total_unique_path
      ≡ (if on_path c s.unique_path then s.total_unique_path else s.total_unique_path + 1)

-- Where the map is within the trace and within `MAP_SIZE`, and fewer than 2^64 - 1 paths are known,
-- the update returns the hash of which bytes the run hit; behind it the path is on the list, no path
-- is twice, and the count is the list's length, one more exactly where the path was not there.
pub update_path_frequency_lem :
    (env : Env) (s : Afl)
    → s.fsrv.map_size ≤ env.map_size
    → s.fsrv.map_size ≤ length s.fsrv.trace_bits
    → length s.unique_path + 1 < 2 ^ 64
    → IsCounted s
    → (t : Afl) × (update_path_frequency env s ≡ ok (env.hash64 (hit_map env s), t))
      × IsPathAdded (env.hash64 (hit_map env s)) s t
unfolding update_path_frequency
update_path_frequency_lem env s fits read small old =
    let c = env.hash64 (hit_map env s) in
    let kept = count_path-same c (add_path c s) in
    let before = add_path-IsCounted c s small old in
    (
      count_path c (add_path c s),
      rw (marked_hits env s fits read),
      record {
        counted = record {
          distinct = rw kept.0 before.distinct;
          counted = rw (kept.0, kept.1) before.counted;
        };
        present = rw kept.0 (on_path-add_path c s);
        total = kept.1 ∙ add_path-total c s small old;
      },
    )

pub updated :
    (env : Env) (s : Afl)
    → s.fsrv.map_size ≤ env.map_size
    → s.fsrv.map_size ≤ length s.fsrv.trace_bits
    → update_path_frequency env s
      ≡ ok (
        env.hash64 (hit_map env s),
        count_path (env.hash64 (hit_map env s)) (add_path (env.hash64 (hit_map env s)) s),
      )
unfolding update_path_frequency
updated env s fits read = rw (marked_hits env s fits read) refl

count_path-n_fuzz :
    (c : ℕ) (s : Afl) → count_path c s ≡ record s { n_fuzz = (count_path c s).n_fuzz }
unfolding count_path
count_path-n_fuzz c s =
    elim (Bool-cases
      (leb 3 s.schedule && leb s.schedule 7 && ltb (s.n_fuzz (c % n_fuzz_size)) 0xFFFFFFFF)) [
        | inl counts ↦ rw counts refl
        | inr not_ ↦ rw not_ refl
      ]

known_path : (c : ℕ) (s : Afl) → on_path c s.unique_path ≡ true → add_path c s ≡ s
unfolding add_path
known_path c s known = rw known

-- A run that hits the same bytes as an earlier one, whatever the counts are, is no new path: its
-- update returns the same hash and changes at most `n_fuzz`.
pub update_path_frequency_again :
    (env : Env) (s t u : Afl) (c : ℕ)
    → s.fsrv.map_size ≤ env.map_size
    → s.fsrv.map_size ≤ length s.fsrv.trace_bits
    → u.fsrv.map_size ≤ env.map_size
    → u.fsrv.map_size ≤ length u.fsrv.trace_bits
    → update_path_frequency env s ≡ ok (c, t)
    → u.unique_path ≡ t.unique_path
    → hit_map env u ≡ hit_map env s
    → update_path_frequency env u ≡ ok (c, record u { n_fuzz = (count_path c u).n_fuzz })
unfolding update_path_frequency
update_path_frequency_again env s t u c fits read fits' read' first path hit =
    let d = env.hash64 (hit_map env s) in
    let ends : ok (c, t) ≡ ok (d, count_path d (add_path d s)) =
      sym first ∙ rw (marked_hits env s fits read) in
    let hash : c ≡ d = cc ends in
    let state : t ≡ count_path d (add_path d s) = cc ends in
    let known : on_path d u.unique_path ≡ true =
      rw (path, state, (count_path-same d (add_path d s)).0) (on_path-add_path d s) in
    rw (marked_hits env u fits' read', hit, hash, known_path d u known)
      (ap (λ v. ok (d, v)) (count_path-n_fuzz d u))
