-- ===== src/Socks5/Serving/Accepting.antt =====
-- What the server of include/socks5/server.hpp does with all of its clients.
use toad_jawbreaker.Prelude.{
  ℕ, ◌^◌, ◌<◌, ◌≡◌, ◌≢◌, refl, ◌∙◌, true, false, List, [], ◌∷◌, ◌++◌, map, none, some, Outcome,
  ◌>>=◌, returns, aborts, All, arith, Bool-cases, inl, inr, ◌==◌, leb, le→leb,
}
use toad_jawbreaker.Prelude.Int.{ℤ, is_negative}
use toad_jawbreaker.Concurrency.Future.{set_value, await_suspend, await_resume}
use toad_jawbreaker.Concurrency.IoContext.{to_sz, handle_listen}
use toad_jawbreaker.Concurrency.IoContext.Submission.{ListenAnswers, new_listener}
use toad_jawbreaker.Socks5.Server.{handle_client_handshake}
use toad_jawbreaker.Socks5.Server.Handshake.{session}
use toad_jawbreaker.Socks5.Session.{Answer, fails, Followed, execute}
use toad_jawbreaker.Socks5.Session.Refined.{Delivered, events, handshake_execute-session}
use toad_jawbreaker.Socks5.Session.Failing.{failed_read_ends}
use toad_jawbreaker.Socks5.Serving.{
  Client, Accept, accepts, accepts_early, ring_full, accept_by, accept_all, serve_socks5,
}

accept_by-some : (h sockfd : ℕ) (res : ℤ) → accept_by h sockfd (accepts res) ≡ returns (some res)
unfolding accept_by handle_listen set_value await_suspend await_resume
accept_by-some h sockfd res = refl

accept_by-early : (h sockfd : ℕ) (res : ℤ) → accept_by h sockfd (accepts_early res) ≡ returns none
unfolding accept_by handle_listen set_value
accept_by-early h sockfd res = refl

-- What the protocol says of a client.
abbrev pub protocol : Client → Followed
protocol c = record { actions = session c.uninit (events c.answers); is_misled = false }

abbrev pub InRing : Accept → Type 0
InRing (accepts res) = Unit
InRing (accepts_early res) = Unit
InRing ring_full = ⊥

abbrev reached_by : Accept → Client → List Client → List Client
reached_by (accepts res) c later = c ∷ later
reached_by (accepts_early res) c later = []
reached_by ring_full c later = []

-- The clients up to the first whose accept is handled before it is awaited.
abbrev pub reached : List Client → List Client
reached [] = []
reached (c ∷ clients) = reached_by c.accept c (reached clients)

accept_all-accepts :
    (h sockfd : ℕ) (c : Client) (clients : List Client) (res : ℤ) (o : Outcome (List Followed))
    → c.accept ≡ accepts res
    → Delivered c.answers
    → accept_all h sockfd clients ≡ o
    → accept_all h sockfd (c ∷ clients) ≡ (o >>= λ rest. returns (protocol c ∷ rest))
unfolding accept_all
accept_all-accepts h sockfd c clients res o e d rest =
    rw (e, accept_by-some h sockfd res, accept_all)
      (rw (handshake_execute-session c.coroutine (to_sz res) c.remote c.uninit c.answers d, rest)
        refl)

accepting-protocol :
    (h sockfd : ℕ) (c : Client) (clients : List Client) (a : Accept)
    → c.accept ≡ a
    → InRing a
    → Delivered c.answers
    → accept_all h sockfd clients ≡ returns (map protocol (reached clients))
    → accept_all h sockfd (c ∷ clients) ≡ returns (map protocol (reached_by a c (reached clients)))
unfolding accept_all
accepting-protocol h sockfd c clients (accepts res) e i d rest =
    accept_all-accepts h sockfd c clients res (returns (map protocol (reached clients))) e d rest
accepting-protocol h sockfd c clients (accepts_early res) e i d rest =
    rw (e, accept_by-early h sockfd res, accept_all) refl
accepting-protocol h sockfd c clients ring_full e i d rest = elim i [ ]

accept_all-protocol :
    (h sockfd : ℕ) (clients : List Client)
    → All (λ c. InRing c.accept × Delivered c.answers) clients
    → accept_all h sockfd clients ≡ returns (map protocol (reached clients))
unfolding accept_all
accept_all-protocol h sockfd [] d = refl
accept_all-protocol h sockfd (c ∷ clients) ((i, d), ds) =
    accepting-protocol h sockfd c clients c.accept refl i d
      (accept_all-protocol h sockfd clients ds)

-- A server whose listener is set up serves each client, in the order in which they are accepted, up to
-- the first whose accept is handled before it is awaited, and each exactly as the protocol description says
-- of what comes to its coroutine, as long as no read fails and the ring has room for each operation.
pub serve_socks5-protocol :
    (h : ℕ) (answers : ListenAnswers) (clients : List Client)
    → is_negative answers.bind ≡ false
    → is_negative answers.listen ≡ false
    → All (λ c. InRing c.accept × Delivered c.answers) clients
    → serve_socks5 h answers clients ≡ returns (map protocol (reached clients))
unfolding serve_socks5 new_listener
serve_socks5-protocol h answers clients b l d =
    rw (b, l) (accept_all-protocol h (to_sz answers.socket) clients d)

first_read_aborts :
    (k : ℕ) (res : ℤ) (c : Client) (answers : List Answer)
    → c.answers ≡ fails k ∷ answers
    → k < 2 ^ 31
    → k ≢ 103
    → execute c.coroutine (to_sz res) c.remote (handle_client_handshake c.uninit) [] c.answers
      ≡ aborts
unfolding handle_client_handshake
first_read_aborts k res c answers a code other =
    let no_reset : (k == 103) ≡ false = ground (arith, other) in
    let short : leb 0 k ≡ true = le→leb 0 k (omega arith) in
    rw a (
      failed_read_ends c.coroutine (to_sz res) c.remote 2 k _ [] answers (omega arith) code
      ∙ rw (no_reset, short) refl)

accept_all-aborts :
    (h sockfd k : ℕ) (before : List Client) (c : Client) (after : List Client)
    (answers : List Answer)
    → All (λ c. ((res : ℤ) × (c.accept ≡ accepts res)) × Delivered c.answers) before
    → (res : ℤ) → c.accept ≡ accepts res
    → c.answers ≡ fails k ∷ answers
    → k < 2 ^ 31
    → k ≢ 103
    → accept_all h sockfd (before ++ (c ∷ after)) ≡ aborts
unfolding accept_all
accept_all-aborts h sockfd k [] c after answers d res e a code other =
    rw (e, accept_by-some h sockfd res, accept_all)
      (rw (first_read_aborts k res c answers a code other) refl)
accept_all-aborts h sockfd k (b ∷ before) c after answers (((r, e'), d), ds) res e a code other =
    accept_all-accepts h sockfd b (before ++ (c ∷ after)) r aborts e' d
      (accept_all-aborts h sockfd k before c after answers ds res e a code other)

-- One client whose first read fails, with an error other than a reset, ends the process for all clients,
-- whatever came before, served as the protocol says, and comes after: as with a client whose accept failed,
-- which has no descriptor to read from.
pub one_read_aborts :
    (h k : ℕ) (listening : ListenAnswers) (before : List Client) (c : Client) (after : List Client)
    (answers : List Answer)
    → All (λ c. ((res : ℤ) × (c.accept ≡ accepts res)) × Delivered c.answers) before
    → (res : ℤ) → c.accept ≡ accepts res
    → c.answers ≡ fails k ∷ answers
    → k < 2 ^ 31
    → k ≢ 103
    → serve_socks5 h listening (before ++ (c ∷ after)) ≡ aborts
unfolding serve_socks5 new_listener
one_read_aborts h k listening before c after answers d res e a code other =
    let whole =
      accept_all-aborts h (to_sz listening.socket) k before c after answers d res e a code other in
    elim (Bool-cases (is_negative listening.bind)) [
      | inl failed ↦ rw failed
      | inr bound ↦ elim (Bool-cases (is_negative listening.listen)) [
        | inl failed ↦ rw (bound, failed)
        | inr listens ↦ rw (bound, listens) whole
      ]
    ]
