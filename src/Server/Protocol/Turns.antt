-- ===== src/Server/Protocol/Turns.antt =====
-- Whose turn it is, and what every step of either process makes of it.
use mathlib.Core.Path.{sym, subst}
use ctfuzz.Base.{ℕ, ◌+◌, ◌≡◌, refl, ap, ◌∙◌, List, [], ◌∷◌, length, drop, arith}
use ctfuzz.Server.{Server, Ran, Served, answered, fatal, aborted, outside, serve}
use ctfuzz.Server.Laws.{request, reply, IsReady, IsComplete, IsStillReady, serve_lem}
use ctfuzz.Server.Session.{IsServable, oracle}
use ctfuzz.Server.Protocol.{
  Client, idle, wrote, posted, woken, Loop, waiting, taken, served, Link, Fails, Step, writes,
  releases, acquires, reads, takes, serves, fails, posts,
}

abbrev pub IsRequest : List ℕ → List ℕ → Type 0
IsRequest input mem = (rest : List ℕ) × (mem ≡ request input rest)

-- Where both processes stand, how the semaphores are, and what has been answered.
pub record IsAt (c : Client) (w : Loop) (i o size : ℕ) (h : List (List ℕ × List ℕ)) (l : Link)
    : Type 0 where
  pub client : l.client ≡ c
  pub loop : l.loop ≡ w
  pub input : l.sem_input ≡ i
  pub output : l.sem_output ≡ o
  pub answers : l.answers ≡ h
  pub ready : IsReady l.server
  pub same_size : l.server.map_size ≡ size

-- Whose turn it is, in the order of a request.
pub data Turn : Type 0 where
  free sent asked read_in written_out returned given : Turn

answered-not-Fails : (r : Served) (t : Server) (out : List ℕ) → r ≡ answered t out → Fails r → ⊥
answered-not-Fails (answered u m) t out e h = h
answered-not-Fails fatal t out e h = cc e
answered-not-Fails aborted t out e h = cc e
answered-not-Fails outside t out e h = cc e

same_wrote : {x y : List ℕ} → wrote x ≡ wrote y → x ≡ y
same_wrote e = cc

same_posted : {x y : List ℕ} → posted x ≡ posted y → x ≡ y
same_posted e = cc

same_woken : {x y : List ℕ} → woken x ≡ woken y → x ≡ y
same_woken e = cc

one_more :
    {x y m n : List ℕ} {h k : List (List ℕ × List ℕ)}
    → y ≡ x
    → m ≡ n
    → k ≡ h
    → ◌≡◌ {A = List (List ℕ × List ℕ)} ((y, m) ∷ k) ((x, n) ∷ h)
one_more e f g = cc (e, f, g)

same_server : {t u : Server} {m n : List ℕ} → answered t m ≡ answered u n → t ≡ u
same_server e = cc

same_answer : {t u : Server} {m n : List ℕ} → answered t m ≡ answered u n → m ≡ n
same_answer e = cc

module _ (target : List ℕ → Ran) (Asks : List ℕ → Type 0) (size : ℕ) where
  abbrev pub IsAnswer : List ℕ → List ℕ → Type 0
  IsAnswer input mem = mem ≡ oracle target size input

  abbrev pub Holds : Turn → List ℕ → List (List ℕ × List ℕ) → Link → Type 0
  Holds free x h l = IsAt idle waiting 0 0 size h l
  Holds sent x h l = IsAt (wrote x) waiting 0 0 size h l × IsRequest x l.shared_mem
  Holds asked x h l = IsAt (posted x) waiting 1 0 size h l × IsRequest x l.shared_mem
  Holds read_in x h l = IsAt (posted x) taken 0 0 size h l × IsRequest x l.shared_mem
  Holds written_out x h l = IsAt (posted x) served 0 0 size h l × IsAnswer x l.shared_mem
  Holds returned x h l = IsAt (posted x) waiting 0 1 size h l × IsAnswer x l.shared_mem
  Holds given x h l = IsAt (woken x) waiting 0 0 size h l × IsAnswer x l.shared_mem

  pub from_free :
      (h : List (List ℕ × List ℕ)) {l l' : Link}
      → Holds free [] h l
      → Step target Asks l l'
      → (y : List ℕ) × Asks y × Holds sent y h l'
  from_free h {l} at (writes y asks fits e) = (
    y,
    asks,
    (
      record {
        client = refl;
        loop = at.loop;
        input = at.input;
        output = at.output;
        answers = at.answers;
        ready = at.ready;
        same_size = at.same_size;
      },
      (drop (4 + length y) l.shared_mem, refl),
    ),
  )
  from_free h {l} at (releases y e) = absurd (cc (sym at.client ∙ e))
  from_free h {l} at (acquires y e up) = absurd (cc (sym at.client ∙ e))
  from_free h {l} at (reads y e) = absurd (cc (sym at.client ∙ e))
  from_free h {l} at (takes e up) = absurd (omega (arith, at.input, up))
  from_free h {l} at (serves t out e ran) = absurd (cc (sym at.loop ∙ e))
  from_free h {l} at (fails e bad) = absurd (cc (sym at.loop ∙ e))
  from_free h {l} at (posts e) = absurd (cc (sym at.loop ∙ e))

  pub from_sent :
      (x : List ℕ) (h : List (List ℕ × List ℕ)) {l l' : Link}
      → Holds sent x h l
      → Step target Asks l l'
      → Holds asked x h l'
  from_sent x h {l} at (writes y asks fits e) = absurd (cc (sym at.0.client ∙ e))
  from_sent x h {l} at (releases y e) = (
    record {
      client = ap posted (same_wrote (sym e ∙ at.0.client));
      loop = at.0.loop;
      input = omega (arith, at.0.input);
      output = at.0.output;
      answers = at.0.answers;
      ready = at.0.ready;
      same_size = at.0.same_size;
    },
    at.1,
  )
  from_sent x h {l} at (acquires y e up) = absurd (cc (sym at.0.client ∙ e))
  from_sent x h {l} at (reads y e) = absurd (cc (sym at.0.client ∙ e))
  from_sent x h {l} at (takes e up) = absurd (omega (arith, at.0.input, up))
  from_sent x h {l} at (serves t out e ran) = absurd (cc (sym at.0.loop ∙ e))
  from_sent x h {l} at (fails e bad) = absurd (cc (sym at.0.loop ∙ e))
  from_sent x h {l} at (posts e) = absurd (cc (sym at.0.loop ∙ e))

  pub from_asked :
      (x : List ℕ) (h : List (List ℕ × List ℕ)) {l l' : Link}
      → Holds asked x h l
      → Step target Asks l l'
      → Holds read_in x h l'
  from_asked x h {l} at (writes y asks fits e) = absurd (cc (sym at.0.client ∙ e))
  from_asked x h {l} at (releases y e) = absurd (cc (sym at.0.client ∙ e))
  from_asked x h {l} at (acquires y e up) = absurd (omega (arith, at.0.output, up))
  from_asked x h {l} at (reads y e) = absurd (cc (sym at.0.client ∙ e))
  from_asked x h {l} at (takes e up) = (
    record {
      client = at.0.client;
      loop = refl;
      input = omega (arith, at.0.input);
      output = at.0.output;
      answers = at.0.answers;
      ready = at.0.ready;
      same_size = at.0.same_size;
    },
    at.1,
  )
  from_asked x h {l} at (serves t out e ran) = absurd (cc (sym at.0.loop ∙ e))
  from_asked x h {l} at (fails e bad) = absurd (cc (sym at.0.loop ∙ e))
  from_asked x h {l} at (posts e) = absurd (cc (sym at.0.loop ∙ e))

  pub serves_request :
      (x : List ℕ) (h : List (List ℕ × List ℕ)) {l : Link}
      → IsServable target size x
      → Holds read_in x h l
      → (t : Server) × (serve target l.server l.shared_mem ≡ answered t (oracle target size x))
        × IsStillReady l.server t
  serves_request x h {l} good at =
      let mem = at.1 in
      let done = subst (λ n. IsComplete n (target x)) (sym at.0.same_size) good.1 in
      let result = serve_lem target l.server x mem.0 at.0.ready good.0 done in
      (
        result.0,
        ap (serve target l.server) mem.1
            ∙ result.1
            ∙ ap (λ n. answered result.0 (reply n (target x))) at.0.same_size,
        result.2,
      )

  pub from_read_in :
      (x : List ℕ) (h : List (List ℕ × List ℕ)) {l l' : Link}
      → IsServable target size x
      → Holds read_in x h l
      → Step target Asks l l'
      → Holds written_out x h l'
  from_read_in x h {l} good at (writes y asks fits e) = absurd (cc (sym at.0.client ∙ e))
  from_read_in x h {l} good at (releases y e) = absurd (cc (sym at.0.client ∙ e))
  from_read_in x h {l} good at (acquires y e up) = absurd (omega (arith, at.0.output, up))
  from_read_in x h {l} good at (reads y e) = absurd (cc (sym at.0.client ∙ e))
  from_read_in x h {l} good at (takes e up) = absurd (cc (sym at.0.loop ∙ e))
  from_read_in x h {l} good at (serves t out e ran) =
      let (u, served_u, still) = serves_request x h good at in
      (
        record {
          client = at.0.client;
          loop = refl;
          input = at.0.input;
          output = at.0.output;
          answers = at.0.answers;
          ready = subst IsReady (same_server (sym served_u ∙ ran)) still.ready;
          same_size =
              ap (λ v. v.map_size) (sym (same_server (sym served_u ∙ ran)))
              ∙ still.same_size
              ∙ at.0.same_size;
        },
        sym (same_answer (sym served_u ∙ ran)),
      )
  from_read_in x h {l} good at (fails e bad) =
      let (u, served_u, still) = serves_request x h good at in
      absurd (answered-not-Fails _ u (oracle target size x) served_u bad)
  from_read_in x h {l} good at (posts e) = absurd (cc (sym at.0.loop ∙ e))

  pub from_written_out :
      (x : List ℕ) (h : List (List ℕ × List ℕ)) {l l' : Link}
      → Holds written_out x h l
      → Step target Asks l l'
      → Holds returned x h l'
  from_written_out x h {l} at (writes y asks fits e) = absurd (cc (sym at.0.client ∙ e))
  from_written_out x h {l} at (releases y e) = absurd (cc (sym at.0.client ∙ e))
  from_written_out x h {l} at (acquires y e up) = absurd (omega (arith, at.0.output, up))
  from_written_out x h {l} at (reads y e) = absurd (cc (sym at.0.client ∙ e))
  from_written_out x h {l} at (takes e up) = absurd (cc (sym at.0.loop ∙ e))
  from_written_out x h {l} at (serves t out e ran) = absurd (cc (sym at.0.loop ∙ e))
  from_written_out x h {l} at (fails e bad) = absurd (cc (sym at.0.loop ∙ e))
  from_written_out x h {l} at (posts e) = (
    record {
      client = at.0.client;
      loop = refl;
      input = at.0.input;
      output = omega (arith, at.0.output);
      answers = at.0.answers;
      ready = at.0.ready;
      same_size = at.0.same_size;
    },
    at.1,
  )

  pub from_returned :
      (x : List ℕ) (h : List (List ℕ × List ℕ)) {l l' : Link}
      → Holds returned x h l
      → Step target Asks l l'
      → Holds given x h l'
  from_returned x h {l} at (writes y asks fits e) = absurd (cc (sym at.0.client ∙ e))
  from_returned x h {l} at (releases y e) = absurd (cc (sym at.0.client ∙ e))
  from_returned x h {l} at (acquires y e up) = (
    record {
      client = ap woken (same_posted (sym e ∙ at.0.client));
      loop = at.0.loop;
      input = at.0.input;
      output = omega (arith, at.0.output);
      answers = at.0.answers;
      ready = at.0.ready;
      same_size = at.0.same_size;
    },
    at.1,
  )
  from_returned x h {l} at (reads y e) = absurd (cc (sym at.0.client ∙ e))
  from_returned x h {l} at (takes e up) = absurd (omega (arith, at.0.input, up))
  from_returned x h {l} at (serves t out e ran) = absurd (cc (sym at.0.loop ∙ e))
  from_returned x h {l} at (fails e bad) = absurd (cc (sym at.0.loop ∙ e))
  from_returned x h {l} at (posts e) = absurd (cc (sym at.0.loop ∙ e))

  pub from_given :
      (x : List ℕ) (h : List (List ℕ × List ℕ)) {l l' : Link}
      → Holds given x h l
      → Step target Asks l l'
      → Holds free x ((x, oracle target size x) ∷ h) l'
  from_given x h {l} at (writes y asks fits e) = absurd (cc (sym at.0.client ∙ e))
  from_given x h {l} at (releases y e) = absurd (cc (sym at.0.client ∙ e))
  from_given x h {l} at (acquires y e up) = absurd (cc (sym at.0.client ∙ e))
  from_given x h {l} at (reads y e) = record {
    client = refl;
    loop = at.0.loop;
    input = at.0.input;
    output = at.0.output;
    answers = one_more (same_woken (sym e ∙ at.0.client)) at.1 at.0.answers;
    ready = at.0.ready;
    same_size = at.0.same_size;
  }
  from_given x h {l} at (takes e up) = absurd (omega (arith, at.0.input, up))
  from_given x h {l} at (serves t out e ran) = absurd (cc (sym at.0.loop ∙ e))
  from_given x h {l} at (fails e bad) = absurd (cc (sym at.0.loop ∙ e))
  from_given x h {l} at (posts e) = absurd (cc (sym at.0.loop ∙ e))
