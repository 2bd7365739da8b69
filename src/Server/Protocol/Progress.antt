-- ===== src/Server/Protocol/Progress.antt =====
-- A request is answered in every run, however the two processes are scheduled.
use mathlib.Core.Path.{sym, subst}
use ctfuzz.Base.{ℕ, ◌≡◌, ap, ◌∙◌, ◌⊎◌, inl, inr, List, [], ◌∷◌, arith}
use ctfuzz.Server.{Server, Ran}
use ctfuzz.Server.Laws.{IsReady}
use ctfuzz.Server.Session.{IsServable, oracle}
use ctfuzz.Server.Protocol.{
  Client, idle, wrote, posted, woken, Link, init_sem_shm, Step, releases, acquires, reads, takes,
  serves, posts, Reach,
}
use ctfuzz.Server.Protocol.Turns.{
  Turn, free, sent, asked, read_in, written_out, returned, given, Holds, serves_request, from_sent,
  from_asked, from_read_in, from_written_out, from_returned, from_given,
}
use ctfuzz.Server.Protocol.Laws.{IsSound, resting, busy, Reach-IsSound, init-IsSound}

-- Whatever steps are taken, the goal is reached after finitely many, and there is always a step
-- until then.
pub data Inevitable (target : List ℕ → Ran) (Asks : List ℕ → Type 0) (Goal : Link → Type 0)
    : Link → Type 0 where
  now : {l : Link} → Goal l → Inevitable target Asks Goal l
  later :
      {l : Link} (m : Link)
      → Step target Asks l m
      → ((n : Link) → Step target Asks l n → Inevitable target Asks Goal n)
      → Inevitable target Asks Goal l

-- The client is in `Afl.run` with this input.
abbrev pub IsAsking : List ℕ → Link → Type 0
IsAsking x l = (l.client ≡ wrote x) ⊎ (l.client ≡ posted x) ⊎ (l.client ≡ woken x)

input_of : Client → List ℕ
input_of idle = []
input_of (wrote x) = x
input_of (posted x) = x
input_of (woken x) = x

IsAsking-input : (x : List ℕ) (l : Link) → IsAsking x l → input_of l.client ≡ x
unfolding input_of
IsAsking-input x l (inl e) = ap input_of e
IsAsking-input x l (inr (inl e)) = ap input_of e
IsAsking-input x l (inr (inr e)) = ap input_of e

IsAsking-idle : (x : List ℕ) (l : Link) → IsAsking x l → l.client ≡ idle → ⊥
IsAsking-idle x l (inl e) i = cc (sym e ∙ i)
IsAsking-idle x l (inr (inl e)) i = cc (sym e ∙ i)
IsAsking-idle x l (inr (inr e)) i = cc (sym e ∙ i)

module _ (target : List ℕ → Ran) (Asks : List ℕ → Type 0) (size : ℕ) where
  -- The client has returned with the answer, behind the earlier ones.
  abbrev pub IsAnswered : List ℕ → List (List ℕ × List ℕ) → Link → Type 0
  IsAnswered x h l = (l.client ≡ idle) × (l.answers ≡ (x, oracle target size x) ∷ h)

  module _ (x : List ℕ) (h : List (List ℕ × List ℕ)) where
    abbrev Answers : Link → Type 0
    Answers = Inevitable target Asks (IsAnswered x h)

    given-Answers : (l : Link) → Holds target Asks size given x h l → Answers l
    given-Answers l at = later _ (reads x at.0.client) (λ n st.
        let done = from_given target Asks size x h at st in now (done.client, done.answers))

    returned-Answers : (l : Link) → Holds target Asks size returned x h l → Answers l
    returned-Answers l at =
        later _ (acquires x at.0.client (omega (arith, at.0.output)))
          (λ n st. given-Answers n (from_returned target Asks size x h at st))

    written_out-Answers : (l : Link) → Holds target Asks size written_out x h l → Answers l
    written_out-Answers l at =
        later _ (posts at.0.loop)
          (λ n st. returned-Answers n (from_written_out target Asks size x h at st))

    module _ (good : IsServable target size x) where
      read_in-Answers : (l : Link) → Holds target Asks size read_in x h l → Answers l
      read_in-Answers l at =
          let (t, ran, still) = serves_request target Asks size x h good at in
          later _ (serves t (oracle target size x) at.0.loop ran)
            (λ n st. written_out-Answers n (from_read_in target Asks size x h good at st))

      asked-Answers : (l : Link) → Holds target Asks size asked x h l → Answers l
      asked-Answers l at =
          later _ (takes at.0.loop (omega (arith, at.0.input)))
            (λ n st. read_in-Answers n (from_asked target Asks size x h at st))

      sent-Answers : (l : Link) → Holds target Asks size sent x h l → Answers l
      sent-Answers l at =
          later _ (releases x at.0.client)
            (λ n st. asked-Answers n (from_sent target Asks size x h at st))

      busy-Answers :
          (t : Turn) (l : Link) → (l.client ≡ idle → ⊥) → Holds target Asks size t x h l → Answers l
      busy-Answers free l moving at = absurd (moving at.client)
      busy-Answers sent l moving at = sent-Answers l at
      busy-Answers asked l moving at = asked-Answers l at
      busy-Answers read_in l moving at = read_in-Answers l at
      busy-Answers written_out l moving at = written_out-Answers l at
      busy-Answers returned l moving at = returned-Answers l at
      busy-Answers given l moving at = given-Answers l at

      Holds-client :
          (t : Turn) (l : Link)
          → (l.client ≡ idle → ⊥)
          → Holds target Asks size t x h l
          → (input_of l.client ≡ x) × (l.answers ≡ h)
      unfolding input_of
      Holds-client free l moving at = absurd (moving at.client)
      Holds-client sent l moving at = (ap input_of at.0.client, at.0.answers)
      Holds-client asked l moving at = (ap input_of at.0.client, at.0.answers)
      Holds-client read_in l moving at = (ap input_of at.0.client, at.0.answers)
      Holds-client written_out l moving at = (ap input_of at.0.client, at.0.answers)
      Holds-client returned l moving at = (ap input_of at.0.client, at.0.answers)
      Holds-client given l moving at = (ap input_of at.0.client, at.0.answers)

  IsSound-Inevitable :
      (x : List ℕ) (l : Link)
      → IsAsking x l
      → IsSound target Asks size l
      → Inevitable target Asks (IsAnswered x l.answers) l
  IsSound-Inevitable x l asking (resting h is at) = absurd (IsAsking-idle x l asking at.client)
  IsSound-Inevitable x l asking (busy t y h good is at) =
      let (input, old) = Holds-client y h good t l (IsAsking-idle x l asking) at in
      let same : y ≡ x = sym input ∙ IsAsking-input x l asking in
      subst (λ z. Inevitable target Asks (IsAnswered z l.answers) l) same
        (subst (λ k. Inevitable target Asks (IsAnswered y k) l) (sym old)
          (busy-Answers y h good t l (IsAsking-idle x l asking) at))

  -- If the client asks for inputs that fit and whose runs complete: whenever it has sent one, in
  -- any state that the two processes reach from a ready server, every schedule leads to the
  -- client's return with the answer to that input, no step is missing on the way, and the answers
  -- before it are kept.
  pub Reach-Inevitable :
      {l : Link} (s : Server) (x : List ℕ)
      → ((y : List ℕ) → Asks y → IsServable target size y)
      → IsReady s
      → s.map_size ≡ size
      → Reach target Asks (init_sem_shm s) l
      → IsAsking x l
      → Inevitable target Asks (IsAnswered x l.answers) l
  Reach-Inevitable {l} s x all ready same r asking =
      IsSound-Inevitable x l asking
        (Reach-IsSound target Asks size all (init-IsSound target Asks size all s ready same) r)
