-- ===== src/Socks5/Serving.antt =====
-- `serve_socks5` of include/socks5/server.hpp: the clients that are accepted, each with its handshake.
-- The handshakes share nothing, so each is followed where it is spawned; one that aborts ends the process.
pub mod Accepting
use toad_jawbreaker.Prelude.{
  ℕ, Bool, true, false, aborts, List, [], ◌∷◌, Option, some, Outcome, returns, ◌>>=◌,
}
use toad_jawbreaker.Prelude.Int.{ℤ}
use toad_jawbreaker.Concurrency.Future.{FutureState, new_state, await_resume}
use toad_jawbreaker.Concurrency.IoContext.{to_sz, handle_listen}
use toad_jawbreaker.Concurrency.IoContext.Submission.{ListenAnswers, new_listener}
use toad_jawbreaker.Socks5.Server.{Uninit, handle_client_handshake}
use toad_jawbreaker.Socks5.Session.{Answer, Followed, suspended, execute}

-- How an accept is completed: once the server awaits it, or before, and handled by then; or the ring has no
-- room for it.
pub data Accept : Type 0 where
  accepts : ℤ → Accept
  accepts_early : ℤ → Accept
  ring_full : Accept

-- How the accept is completed, the number of the coroutine that is spawned for it and of the socket that it
-- connects, what its uninitialised variables hold, and how its operations are completed.
pub record Client : Type 0 where
  pub accept : Accept
  pub coroutine : ℕ
  pub remote : ℕ
  pub uninit : Uninit
  pub answers : List Answer

-- `spawn(handle_client_handshake(std::move(client)))`, and what the coroutine does. A descriptor below
-- zero, from an accept that failed, is a large number here.
abbrev pub spawn_handshake : Client → ℤ → Outcome Followed
spawn_handshake c client =
    execute c.coroutine (to_sz client) c.remote (handle_client_handshake c.uninit) [] c.answers

-- The coroutine is resumed if it was spawned, and else waits for ever: `none`.
abbrev pub handed : Option (FutureState ℤ) → List ℕ → Outcome (Option ℤ)
handed handle [] = returns Option.none
handed Option.none (h ∷ spawned) = aborts
handed (some s) (h ∷ spawned) = await_resume s >>= λ (client, s'). returns (some client)

abbrev pub accepted : Bool → ℕ → ℕ → ℤ → Outcome (Option ℤ)
accepted early h sockfd res =
    handle_listen res (record { sockfd = sockfd; handle = suspended early h (some new_state) })
    >>= λ (handle, spawned). handed handle spawned

-- What coroutine h gets from the await of `submit_accept_ipv4`.
unfoldable pub accept_by : ℕ → ℕ → Accept → Outcome (Option ℤ)
accept_by h sockfd (accepts res) = accepted false h sockfd res
accept_by h sockfd (accepts_early res) = accepted true h sockfd res
accept_by h sockfd ring_full = aborts

-- The loop, for the clients that come.
unfoldable pub accept_all : ℕ → ℕ → List Client → Outcome (List Followed)
accept_all h sockfd [] = returns []
accept_all h sockfd (c ∷ clients) = accept_by h sockfd c.accept >>= λ client. elim client [
  | Option.none ↦ returns []
  | some client ↦ spawn_handshake c client >>= λ followed.
      accept_all h sockfd clients >>= λ rest. returns (followed ∷ rest)
]

abbrev pub socks5_port : ℕ
socks5_port = 1080

unfoldable pub serve_socks5 : ℕ → ListenAnswers → List Client → Outcome (List Followed)
serve_socks5 h answers clients = new_listener socks5_port answers >>= λ (listener, addr).
    accept_all h (to_sz listener.sockfd) clients
