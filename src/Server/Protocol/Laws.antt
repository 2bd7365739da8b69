-- ===== src/Server/Protocol/Laws.antt =====
-- The client and the server take turns: nobody else uses the memory, and every answer is right.
use mathlib.Core.Path.{sym, subst}
use ctfuzz.Base.{ℕ, ◌≡◌, refl, ◌⊎◌, inl, inr, List, [], ◌∷◌, All}
use ctfuzz.Server.{Server, Ran}
use ctfuzz.Server.Laws.{IsReady}
use ctfuzz.Server.Session.{IsServable, oracle}
use ctfuzz.Server.Protocol.{posted, waiting, Link, init_sem_shm, Step, Reach, here, next}
use ctfuzz.Server.Protocol.Turns.{
  Turn, free, sent, asked, read_in, written_out, returned, given, Holds, from_free, from_sent,
  from_asked, from_read_in, from_written_out, from_returned, from_given,
}

-- While the server is between sem_wait and sem_post, the client is blocked.
abbrev pub IsExclusive : Link → Type 0
IsExclusive l = (l.loop ≡ waiting) ⊎ ((x : List ℕ) × (l.client ≡ posted x) × (l.sem_output ≡ 0))

module _ (target : List ℕ → Ran) (Asks : List ℕ → Type 0) (size : ℕ) where
  abbrev pub AreAnswers : List (List ℕ × List ℕ) → Type 0
  AreAnswers h = All (λ a. a.1 ≡ oracle target size a.0) h

  pub data IsSound (l : Link) : Type 0 where
    resting :
        (h : List (List ℕ × List ℕ)) → AreAnswers h → Holds target Asks size free [] h l → IsSound l
    busy :
        (t : Turn) (x : List ℕ) (h : List (List ℕ × List ℕ))
        → IsServable target size x
        → AreAnswers h
        → Holds target Asks size t x h l
        → IsSound l

  module _ (all : (x : List ℕ) → Asks x → IsServable target size x) where
    Step-IsSound : {l l' : Link} → Step target Asks l l' → IsSound l → IsSound l'
    Step-IsSound st (resting h is at) =
        let (y, asks, at') = from_free target Asks size h at st in busy sent y h (all y asks) is at'
    Step-IsSound st (busy free x h good is at) =
        let (y, asks, at') = from_free target Asks size h at st in busy sent y h (all y asks) is at'
    Step-IsSound st (busy sent x h good is at) =
        busy asked x h good is (from_sent target Asks size x h at st)
    Step-IsSound st (busy asked x h good is at) =
        busy read_in x h good is (from_asked target Asks size x h at st)
    Step-IsSound st (busy read_in x h good is at) =
        busy written_out x h good is (from_read_in target Asks size x h good at st)
    Step-IsSound st (busy written_out x h good is at) =
        busy returned x h good is (from_written_out target Asks size x h at st)
    Step-IsSound st (busy returned x h good is at) =
        busy given x h good is (from_returned target Asks size x h at st)
    Step-IsSound st (busy given x h good is at) =
        resting ((x, oracle target size x) ∷ h) (refl, is) (from_given target Asks size x h at st)

    pub Reach-IsSound : {l l' : Link} → IsSound l → Reach target Asks l l' → IsSound l'
    Reach-IsSound is here = is
    Reach-IsSound is (next r st) = Step-IsSound st (Reach-IsSound is r)

    IsSound-IsExclusive : {l : Link} → IsSound l → AreAnswers l.answers × IsExclusive l
    IsSound-IsExclusive (resting h is at) = (subst AreAnswers (sym at.answers) is, inl at.loop)
    IsSound-IsExclusive (busy free x h good is at) =
        (subst AreAnswers (sym at.answers) is, inl at.loop)
    IsSound-IsExclusive (busy sent x h good is at) =
        (subst AreAnswers (sym at.0.answers) is, inl at.0.loop)
    IsSound-IsExclusive (busy asked x h good is at) =
        (subst AreAnswers (sym at.0.answers) is, inl at.0.loop)
    IsSound-IsExclusive (busy read_in x h good is at) =
        (subst AreAnswers (sym at.0.answers) is, inr (x, at.0.client, at.0.output))
    IsSound-IsExclusive (busy written_out x h good is at) =
        (subst AreAnswers (sym at.0.answers) is, inr (x, at.0.client, at.0.output))
    IsSound-IsExclusive (busy returned x h good is at) =
        (subst AreAnswers (sym at.0.answers) is, inl at.0.loop)
    IsSound-IsExclusive (busy given x h good is at) =
        (subst AreAnswers (sym at.0.answers) is, inl at.0.loop)

    pub init-IsSound : (s : Server) → IsReady s → s.map_size ≡ size → IsSound (init_sem_shm s)
    init-IsSound s ready same = resting [] tt (record {
      client = refl;
      loop = refl;
      input = refl;
      output = refl;
      answers = refl;
      ready = ready;
      same_size = same;
    })

    -- However the steps of the client and of the server, which is ready at the start, follow each
    -- other, if the client asks for inputs that fit and whose runs complete: every answer that the
    -- client has read is the reply to the input it stands with, and while the server is between
    -- sem_wait and sem_post, the client waits for sem_output, which is down.
    pub Reach-IsExclusive :
        {l : Link} (s : Server)
        → IsReady s
        → s.map_size ≡ size
        → Reach target Asks (init_sem_shm s) l
        → AreAnswers l.answers × IsExclusive l
    Reach-IsExclusive s ready same r =
        IsSound-IsExclusive (Reach-IsSound (init-IsSound s ready same) r)
