-- ===== src/Server/Session.antt =====
-- A session: the client writes one request after the other into the shared memory and reads each
-- answer, as `Afl.run` of `ctfuzz/coverage/coverage.py` does with the loop of `run`.
use mathlib.Core.Path.{subst, sym}
use ctfuzz.Base.{
  ℕ, ◌+◌, ◌≤◌, ◌≡◌, refl, ap, ◌∙◌, Option, none, some, List, [], ◌∷◌, map, All, length, drop,
}
use ctfuzz.Server.{Server, Ran, Served, answered, fatal, aborted, outside, serve}
use ctfuzz.Server.Laws.{request, reply, IsReady, IsComplete, serve_lem}

abbrev with_answer : List ℕ → Option (List (List ℕ)) → Option (List (List ℕ))
with_answer out none = none
with_answer out (some outs) = some (out ∷ outs)

-- An answer, and what the session answers behind it.
abbrev continued : (Server → List ℕ → Option (List (List ℕ))) → Served → Option (List (List ℕ))
continued later (answered t out) = with_answer out (later t out)
continued later fatal = none
continued later aborted = none
continued later outside = none

-- The rounds of the loop for the client's inputs, from what the shared memory holds: the answers, or
-- `none` where the server ends before it has answered all.
pub session : (List ℕ → Ran) → Server → List ℕ → List (List ℕ) → Option (List (List ℕ))
session target s mem [] = some []
session target s mem (input ∷ inputs) =
    continued (λ t out. session target t out inputs)
      (serve target s (request input (drop (4 + length input) mem)))

-- An input that fits into the shared memory, and a run of it that completes.
abbrev pub IsServable : (List ℕ → Ran) → ℕ → List ℕ → Type 0
IsServable target map_size input = (length input ≤ 65537) × IsComplete map_size (target input)

-- What the server promises: the answer to an input is the reply to the run of that input alone.
abbrev pub oracle : (List ℕ → Ran) → ℕ → List ℕ → List ℕ
oracle target map_size input = reply map_size (target input)

-- A server that is ready answers every request of a session whose inputs fit and whose runs
-- complete, whatever the shared memory held, and each answer is the reply to that input alone:
-- nothing of an earlier request shows in a later answer.
pub session-oracle :
    (target : List ℕ → Ran) (s : Server) (mem : List ℕ) (inputs : List (List ℕ))
    → IsReady s
    → All (IsServable target s.map_size) inputs
    → session target s mem inputs ≡ some (map (oracle target s.map_size) inputs)
unfolding session
session-oracle target s mem [] is h = refl
session-oracle target s mem (input ∷ inputs) is h =
    let served = serve_lem target s input (drop (4 + length input) mem) is h.0.0 h.0.1 in
    let t = served.0 in
    let out = reply s.map_size (target input) in
    let size = served.2.same_size in
    let later : session target t out inputs ≡ some (map (oracle target s.map_size) inputs) =
      session-oracle target t out inputs served.2.ready
        (subst (λ m. All (IsServable target m) inputs) (sym size) h.1)
      ∙ ap (λ m. some (map (oracle target m) inputs)) size in
    ap (continued (λ u m. session target u m inputs)) served.1 ∙ ap (with_answer out) later
