-- ===== src/Save/Path/Campaign.antt =====
-- The unique paths of a whole campaign: one update behind the other, from `afl_state_init` on.
use mathlib.Core.List.{Memᴰ}
use mathlib.Core.List.Memᴰ.{head, tail, not-nil}
use ctfuzz.Base.{
  ℕ, ◌+◌, ◌-◌, ◌^◌, ◌<◌, ◌≤◌, ◌≡◌, ◌↔◌, ◌⊎◌, refl, ap, ◌∙◌, sym, Bool, true, false, Bool-cases, inl,
  inr, List, [], ◌∷◌, ◌++◌, All, if◌then◌else◌, arith, length, map, replicate,
}
use ctfuzz.State.{Afl, Result, ok, ◌>>=◌}
use ctfuzz.States.Init.{Limits, afl_state_init}
use ctfuzz.Save.Env.{Env}
use ctfuzz.Save.Path.{on_path, add_path, count_path, update_path_frequency}
use ctfuzz.Save.Path.Laws.{
  IsCounted, hits, on_path-append, count_path-same, update_path_frequency_lem, updated,
}

-- The state with the trace of the next run.
abbrev pub with_trace : List ℕ → Afl → Afl
with_trace trace s = record s { fsrv = record s.fsrv { trace_bits = trace } }

pub campaign : Env → List (List ℕ) → Afl → Result Afl
campaign env [] s = ok s
campaign env (trace ∷ traces) s =
    update_path_frequency env (with_trace trace s) >>= (λ (c, t). campaign env traces t)

-- The hash of the bytes that a run hits, over a map of `size` bytes.
abbrev pub path_of : Env → ℕ → List ℕ → ℕ
path_of env size trace = env.hash64 (hits size trace ++ replicate (env.map_size - size) 0)

added_to :
    (c d : ℕ) (hs : List ℕ)
    → (on_path d (if on_path c hs then hs else hs ++ c ∷ []) ≡ true)
      ↔ ((d ≡ c) ⊎ (on_path d hs ≡ true))
added_to c d hs = elim (Bool-cases (on_path c hs)) [
  | inl known ↦ rw known (λ on. inr on, λ h. elim h [ inl e ↦ rw e known | inr on ↦ on ])
  | inr fresh ↦
      rw (fresh, on_path-append d c hs)
        (elim (Bool-cases (on_path d hs)) [
          | inl old ↦ rw old (λ on. inr refl, λ h. refl)
          | inr new ↦ rw new (
            λ on. inl (ground (arith, on)),
            λ h. elim h [ inl e ↦ ground (arith, e) | inr on ↦ cc on ],
          )
        ])
]

unique_path-add_path :
    (c : ℕ) (s : Afl)
    → (add_path c s).unique_path
      ≡ (if on_path c s.unique_path then s.unique_path else s.unique_path ++ c ∷ [])
unfolding add_path
unique_path-add_path c s = elim (Bool-cases (on_path c s.unique_path)) [
  | inl known ↦ rw known refl
  | inr fresh ↦ rw fresh refl
]

on_path-added :
    (c d : ℕ) (s : Afl)
    → (on_path d (count_path c (add_path c s)).unique_path ≡ true)
      ↔ ((d ≡ c) ⊎ (on_path d s.unique_path ≡ true))
on_path-added c d s =
    rw ((count_path-same c (add_path c s)).0, unique_path-add_path c s) (added_to c d s.unique_path)

fsrv-add_path : (c : ℕ) (s : Afl) → (add_path c s).fsrv ≡ s.fsrv
unfolding add_path
fsrv-add_path c s = elim (Bool-cases (on_path c s.unique_path)) [
  | inl known ↦ rw known refl
  | inr fresh ↦ rw fresh refl
]

length-counted : (b : Bool) (m n k : ℕ) → m ≡ (if b then n else n + 1) → n ≡ k → m ≤ k + 1
length-counted true m n k e h = omega (arith, e, h)
length-counted false m n k e h = omega (arith, e, h)

-- One run of a campaign.
one_run :
    (env : Env) (trace : List ℕ) (s : Afl)
    → s.fsrv.map_size ≤ env.map_size
    → s.fsrv.map_size ≤ length trace
    → length s.unique_path + 1 < 2 ^ 64
    → IsCounted s
    → (t : Afl) × (update_path_frequency env (with_trace trace s)
        ≡ ok (path_of env s.fsrv.map_size trace, t))
      × IsCounted t
      × (t.fsrv.map_size ≡ s.fsrv.map_size)
      × (length t.unique_path ≤ length s.unique_path + 1)
      × ((d : ℕ)
          → (on_path d t.unique_path ≡ true)
            ↔ ((d ≡ path_of env s.fsrv.map_size trace) ⊎ (on_path d s.unique_path ≡ true)))
one_run env trace s fits read small old =
    let u = with_trace trace s in
    let c = path_of env s.fsrv.map_size trace in
    let counted : IsCounted u = record { distinct = old.distinct; counted = old.counted } in
    let (t, e, added) = update_path_frequency_lem env u fits read small counted in
    let is : t ≡ count_path c (add_path c u) = cc (sym e ∙ updated env u fits read) in
    (
      t,
      e,
      added.counted,
      ap (λ (v : Afl). v.fsrv.map_size) is
          ∙ ap (λ f. f.map_size) ((count_path-same c (add_path c u)).2 ∙ fsrv-add_path c u),
      length-counted (on_path c s.unique_path) _ _ _ (sym added.counted.counted ∙ added.total)
          old.counted,
      λ d. rw is (on_path-added c d u),
    )

-- What is known behind a campaign from `s` on.
abbrev Known : Env → List (List ℕ) → Afl → Afl → Type 0
Known env traces s t =
    (d : ℕ)
    → (on_path d t.unique_path ≡ true)
      ↔ (Memᴰ d (map (path_of env s.fsrv.map_size) traces) ⊎ (on_path d s.unique_path ≡ true))

Known-cons :
    (env : Env) (trace : List ℕ) (traces : List (List ℕ)) (s t u : Afl)
    → t.fsrv.map_size ≡ s.fsrv.map_size
    → ((d : ℕ)
        → (on_path d t.unique_path ≡ true)
          ↔ ((d ≡ path_of env s.fsrv.map_size trace) ⊎ (on_path d s.unique_path ≡ true)))
    → Known env traces t u
    → Known env (trace ∷ traces) s u
Known-cons env trace traces s t u size one rest d =
    let later : (on_path d u.unique_path ≡ true)
        ↔ (Memᴰ d (map (path_of env s.fsrv.map_size) traces) ⊎ (on_path d t.unique_path ≡ true)) =
      rw (← size) (rest d) in
    (
      λ on. elim (later.0 on) [
        | inl m ↦ inl (tail m)
        | inr old ↦ elim ((one d).0 old) [ inl e ↦ inl (head e) | inr older ↦ inr older ]
      ],
      λ h. elim h [
        | inl (head e) ↦ later.1 (inr ((one d).1 (inl e)))
        | inl (tail m) ↦ later.1 (inl m)
        | inr older ↦ later.1 (inr ((one d).1 (inr older)))
      ],
    )

campaign_lem :
    (env : Env) (traces : List (List ℕ)) (s : Afl)
    → s.fsrv.map_size ≤ env.map_size
    → All (λ trace. s.fsrv.map_size ≤ length trace) traces
    → length s.unique_path + length traces < 2 ^ 64
    → IsCounted s
    → (t : Afl) × (campaign env traces s ≡ ok t) × IsCounted t × Known env traces s t
unfolding campaign
campaign_lem env [] s fits read small old =
    (s, refl, old, λ d. (λ on. inr on, λ h. elim h [ inl m ↦ absurd (not-nil m) | inr on ↦ on ]))
campaign_lem env (trace ∷ traces) s fits (first, read) small old =
    let (t, e, counted, size, grown, one) = one_run env trace s fits first (omega arith) old in
    let (u, e', counted', known) =
      campaign_lem env traces t (omega (arith, size)) (rw size read) (omega (arith, grown))
        counted in
    (
      u,
      ap (λ r. r >>= (λ (c, t). campaign env traces t)) e ∙ e',
      counted',
      Known-cons env trace traces s t u size one known,
    )

-- From afl_state_init on, over a map within MAP_SIZE: fewer than 2^64 updates, one for each run,
-- whose traces hold the map, all succeed, and then the list of unique paths holds each path of a
-- run, which is the hash of the bytes that the run hit, once and nothing else, and
-- total_unique_path is its length.
pub campaign-afl_state_init :
    (env : Env) (limits : Limits) (map_size : ℕ) (traces : List (List ℕ))
    → map_size ≤ env.map_size
    → All (λ trace. map_size ≤ length trace) traces
    → length traces < 2 ^ 64
    → (t : Afl) × (campaign env traces (afl_state_init limits map_size) ≡ ok t)
      × IsCounted t
      × ((d : ℕ) → (on_path d t.unique_path ≡ true) ↔ Memᴰ d (map (path_of env map_size) traces))
unfolding afl_state_init on_path
campaign-afl_state_init env limits map_size traces fits read small =
    let (t, e, counted, known) =
      campaign_lem env traces (afl_state_init limits map_size) fits read (omega arith)
        (record { distinct = tt; counted = refl }) in
    (
      t,
      e,
      counted,
      λ d. (λ on. elim ((known d).0 on) [ inl m ↦ m | inr new ↦ cc new ], λ m. (known d).1 (inl m)),
    )
