-- ===== src/States/Laws.antt =====
-- Whom `afl_states_stop` signals, and which buffers `afl_state_deinit` frees.
use mathlib.Core.List.{Memᴰ}
use mathlib.Core.List.Memᴰ.{head, tail, not-nil, append_left, append_right, append_cases}
use mathlib.Core.Path.{sym, subst}
use ctfuzz.Base.{
  ℕ, ◌+◌, ◌<◌, ◌≡◌, ◌↔◌, refl, ap, ◌∙◌, ◌⊎◌, inl, inr, Bool, true, false, List, [], ◌∷◌, ◌++◌, map,
  ◌==◌, if◌then◌else◌, All, arith,
}
use ctfuzz.Base.Int.{ℤ, pos, negsuc}
use ctfuzz.States.{
  Instance, Call, kill, waitpid, is_positive, calls_of, send_all, told_to_stop, afl_states_stop,
  Buffer, unique_path, buffer_index, allocated, Held, freed_if, always_freed, afl_state_deinit,
}

-- The pid of a process: one that is not 0 or negative.
abbrev pub IsProcess : ℤ → Type 0
IsProcess p = (n : ℕ) × (0 < n) × (p ≡ pos n)

-- A call that a state asks for: its child and its fork server are signalled where they run, and the
-- fork server is waited for.
abbrev pub Owes : Instance → Call → Type 0
Owes s c =
    (IsProcess s.child_pid × (c ≡ kill s.child_pid s.child_kill_signal))
    ⊎ (IsProcess s.fsrv_pid × ((c ≡ kill s.fsrv_pid s.fsrv_kill_signal) ⊎ (c ≡ waitpid s.fsrv_pid)))

abbrev pub pid_of : Call → ℤ
pid_of (kill pid signal) = pid
pid_of (waitpid pid) = pid

is_positive-IsProcess : (p : ℤ) → is_positive p ≡ true → IsProcess p
is_positive-IsProcess (pos n) on = (n, ground (arith, on), refl)
is_positive-IsProcess (negsuc n) on = cc on

IsProcess-is_positive : (p : ℤ) → IsProcess p → is_positive p ≡ true
IsProcess-is_positive p (n, above, e) = ap is_positive e ∙ ground (arith, above)

tested :
    {P : Type 0} {Q : Type 0} (p q : ℤ)
    → ((is_positive p ≡ true) × P) ⊎ ((is_positive q ≡ true) × Q)
    → (IsProcess p × P) ⊎ (IsProcess q × Q)
tested p q (inl (on, x)) = inl (is_positive-IsProcess p on, x)
tested p q (inr (on, x)) = inr (is_positive-IsProcess q on, x)

runs :
    {P : Type 0} {Q : Type 0} (p q : ℤ)
    → (IsProcess p × P) ⊎ (IsProcess q × Q)
    → ((is_positive p ≡ true) × P) ⊎ ((is_positive q ≡ true) × Q)
runs p q (inl (on, x)) = inl (IsProcess-is_positive p on, x)
runs p q (inr (on, x)) = inr (IsProcess-is_positive q on, x)

owed :
    (a b : Bool) (x y z c : Call)
    → Memᴰ c ((if a then x ∷ [] else []) ++ (if b then y ∷ z ∷ [] else []))
    → ((a ≡ true) × (c ≡ x)) ⊎ ((b ≡ true) × ((c ≡ y) ⊎ (c ≡ z)))
owed true b x y z c (head e) = inl (refl, e)
owed true true x y z c (tail (head e)) = inr (refl, inl e)
owed true true x y z c (tail (tail (head e))) = inr (refl, inr e)
owed false true x y z c (head e) = inr (refl, inl e)
owed false true x y z c (tail (head e)) = inr (refl, inr e)
owed true true x y z c (tail (tail (tail m))) = absurd (not-nil m)
owed true false x y z c (tail m) = absurd (not-nil m)
owed false true x y z c (tail (tail m)) = absurd (not-nil m)
owed false false x y z c m = absurd (not-nil m)

sent :
    (a b : Bool) (x y z c : Call)
    → ((a ≡ true) × (c ≡ x)) ⊎ ((b ≡ true) × ((c ≡ y) ⊎ (c ≡ z)))
    → Memᴰ c ((if a then x ∷ [] else []) ++ (if b then y ∷ z ∷ [] else []))
sent true b x y z c (inl (on, e)) = head e
sent true true x y z c (inr (on, inl e)) = tail (head e)
sent true true x y z c (inr (on, inr e)) = tail (tail (head e))
sent false true x y z c (inr (on, inl e)) = head e
sent false true x y z c (inr (on, inr e)) = tail (head e)
sent false b x y z c (inl h) = cc h.0
sent true false x y z c (inr h) = cc h.0
sent false false x y z c (inr h) = cc h.0

send_all-Owes :
    (states : List Instance) (c : Call)
    → Memᴰ c (send_all (map told_to_stop states))
    → (s : Instance) × Memᴰ s states × Owes s c
unfolding send_all
send_all-Owes [] c m = absurd (not-nil m)
send_all-Owes (s ∷ states) c m = elim (append_cases (calls_of s) m) [
  | inl mine ↦ (
    s,
    head refl,
    tested s.child_pid s.fsrv_pid
        (owed (is_positive s.child_pid) (is_positive s.fsrv_pid) _ _ _ c mine),
  )
  | inr other ↦ let (t, is, owes) = send_all-Owes states c other in (t, tail is, owes)
]

Owes-send_all :
    (states : List Instance) (s : Instance) (c : Call)
    → Memᴰ s states
    → Owes s c
    → Memᴰ c (send_all (map told_to_stop states))
unfolding send_all
Owes-send_all [] s c m owes = absurd (not-nil m)
Owes-send_all (t ∷ states) s c (head e) owes = append_left (send_all (map told_to_stop states)) (
    subst (λ u. Memᴰ c (calls_of u)) e
      (sent (is_positive s.child_pid) (is_positive s.fsrv_pid) _ _ _ c
        (runs s.child_pid s.fsrv_pid owes)))
Owes-send_all (t ∷ states) s c (tail m) owes =
    append_right (calls_of t) (Owes-send_all states s c m owes)

Owes-pid : (s : Instance) (c : Call) → Owes s c → IsProcess (pid_of c)
Owes-pid s c (inl (on, e)) = subst (λ d. IsProcess (pid_of d)) (sym e) on
Owes-pid s c (inr (on, inl e)) = subst (λ d. IsProcess (pid_of d)) (sym e) on
Owes-pid s c (inr (on, inr e)) = subst (λ d. IsProcess (pid_of d)) (sym e) on

told : (states : List Instance) → All (λ s. s.stop_soon ≡ 1) (map told_to_stop states)
told [] = tt
told (s ∷ states) = (refl, told states)

-- Every state is told to stop; the calls are exactly those that some state asks for, for its child
-- and its fork server where they run; and no call is on a pid that is 0 or negative, which would
-- signal a whole group of processes.
pub afl_states_stop_lem :
    (states : List Instance)
    → All (λ s. s.stop_soon ≡ 1) (afl_states_stop states).0
      × ((c : Call)
          → (Memᴰ c (afl_states_stop states).1 ↔ ((s : Instance) × Memᴰ s states × Owes s c)))
      × ((c : Call) → Memᴰ c (afl_states_stop states).1 → IsProcess (pid_of c))
unfolding afl_states_stop
afl_states_stop_lem states = (
  told states,
  λ c. (send_all-Owes states c, λ (s, m, owes). Owes-send_all states s c m owes),
  λ c m. let (s, is, owes) = send_all-Owes states c m in Owes-pid s c owes,
)

-- How often a buffer is freed.
abbrev pub times : Buffer → List Buffer → ℕ
times x [] = 0
times x (y ∷ ys) = (if buffer_index x == buffer_index y then 1 else 0) + times x ys

times-freed_if :
    (b : Bool) (x y : Buffer) (later : List Buffer)
    → (buffer_index x == buffer_index y) ≡ false
    → times x (freed_if b y later) ≡ times x later
times-freed_if true x y later e = rw e (omega arith)
times-freed_if false x y later e = refl

less_ne : (m n : ℕ) → m < n → (m == n) ≡ false
less_ne m n less = ground (arith, less)

times-afl_state_deinit :
    (h : Held) (x : Buffer)
    → buffer_index x < 10
    → times x (afl_state_deinit h) ≡ times x always_freed
unfolding afl_state_deinit
times-afl_state_deinit h x low =
    times-freed_if h.in_place_resume x _ _ (less_ne _ 10 low)
    ∙ times-freed_if h.sync_id x _ _ (less_ne _ 11 (omega (arith, low)))
    ∙ times-freed_if h.has_pass_stats x _ _ (less_ne _ 12 (omega (arith, low)))
    ∙ times-freed_if h.has_orig_cmp_map x _ _ (less_ne _ 13 (omega (arith, low)))
    ∙ times-freed_if h.has_cmplog_binary x _ _ (less_ne _ 14 (omega (arith, low)))

-- A buffer that `afl_state_init` allocates, and is freed without a condition but for the last.
abbrev IsOwn : Buffer × ℕ → Type 0
IsOwn a =
    (buffer_index a.0 < 10)
    × (times a.0 always_freed ≡ (if buffer_index a.0 == buffer_index unique_path then 0 else 1))

All-map :
    {A : Type 0} {P Q : A → Type 0} (xs : List A) → ((x : A) → P x → Q x) → All P xs → All Q xs
All-map [] f h = tt
All-map (x ∷ xs) f h = (f x h.0, All-map xs f h.1)

allocated-IsOwn : (map_size : ℕ) → All IsOwn (allocated map_size)
unfolding allocated
allocated-IsOwn map_size = ground arith

-- `afl_state_deinit` frees each buffer that `afl_state_init` allocates exactly once, whatever else it
-- frees, with one exception: the list of unique paths is never freed.
pub afl_state_deinit-allocated :
    (h : Held) (map_size : ℕ)
    → All
        (λ a.
          times a.0 (afl_state_deinit h)
          ≡ (if buffer_index a.0 == buffer_index unique_path then 0 else 1))
        (allocated map_size)
afl_state_deinit-allocated h map_size =
    All-map (allocated map_size) (λ a own. times-afl_state_deinit h a.0 own.0 ∙ own.1)
      (allocated-IsOwn map_size)
