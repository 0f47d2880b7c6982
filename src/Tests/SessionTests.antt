-- ===== src/Tests/SessionTests.antt =====
-- The proxy of include/socks5 on the event loop, with concrete completions.
use toad_jawbreaker.Prelude.{
  ℕ, ◌≡◌, ◌==◌, leb, if◌then◌else◌, refl, true, List, [], ◌∷◌, ◌++◌, map, returns, aborts, arith,
}
use toad_jawbreaker.Prelude.Int.{pos}
use toad_jawbreaker.Concurrency.IoContext.Submission.{ListenAnswers}
use toad_jawbreaker.Socks5.Process.{Action, wrote, connecting, relaying, await_read, returned}
use toad_jawbreaker.Socks5.Server.{Uninit, handle_client_handshake, method_response, last_response}
use toad_jawbreaker.Socks5.Server.Handshake.{session}
use toad_jawbreaker.Socks5.Session.{
  Answer, delivers, fails, connects, delivers_early, stops, execute,
}
use toad_jawbreaker.Socks5.Session.Refined.{events, handshake_execute-session}
use toad_jawbreaker.Socks5.Session.Failing.{failed_read_ends}
use toad_jawbreaker.Socks5.Forward.{forward}
use toad_jawbreaker.Socks5.Session.Forwarding.{forward_on, deliveries, forward_on-forward}
use toad_jawbreaker.Socks5.Serving.{Client, accepts, serve_socks5}
use toad_jawbreaker.Socks5.Serving.Accepting.{protocol, reached, serve_socks5-protocol}

abbrev uninit : Uninit
uninit = record { byte = 0xcd; port = 0xcdcd; address = 0xcd ∷ 0xcd ∷ 0xcd ∷ 0xcd ∷ [] }

-- A client that is connected to 10.0.0.1:80.
abbrev answers : List Answer
answers =
    delivers (5 ∷ 1 ∷ [])
    ∷ delivers (0 ∷ [])
    ∷ delivers (5 ∷ 1 ∷ 0 ∷ 1 ∷ [])
    ∷ delivers (10 ∷ 0 ∷ 0 ∷ 1 ∷ [])
    ∷ delivers (0 ∷ 80 ∷ [])
    ∷ connects (pos 0)
    ∷ []

handshake_execute-session_example :
    execute 4 7 8 (handle_client_handshake uninit) [] answers
    ≡ stops (session uninit (events answers))
handshake_execute-session_example = handshake_execute-session 4 7 8 uninit answers (omega arith)

-- A read that fails after three bytes.
failed_read_ends_example :
    execute 4 7 8 (await_read 4 λ more. returned) (5 ∷ 1 ∷ 0 ∷ []) (fails 110 ∷ []) ≡ (
      if 110 == 103
      then stops []
      else if leb 3 110
      then aborts
      else returns (record { actions = []; is_misled = true }))
failed_read_ends_example =
    failed_read_ends 4 7 8 4 110 (λ more. returned) (5 ∷ 1 ∷ 0 ∷ []) [] (omega arith) (omega arith)

abbrev portions : List (List ℕ)
portions = (1 ∷ 2 ∷ []) ∷ [] ∷ (3 ∷ []) ∷ []

forward_on-forward_example :
    (forward_on 4 7 [] (deliveries portions) ≡ returns (forward [] portions))
    × ((bytes : List ℕ) (later : List Answer)
        → forward_on 4 7 [] (deliveries portions ++ (delivers_early bytes ∷ later))
          ≡ returns (forward [] portions))
forward_on-forward_example = forward_on-forward 4 7 [] portions (omega arith)

abbrev listening : ListenAnswers
listening = record { socket = pos 3; bind = pos 0; listen = pos 0 }

abbrev served : Client
served = record {
  accept = accepts (pos 7);
  coroutine = 4;
  remote = 8;
  uninit = uninit;
  answers = answers;
}

serve_socks5-protocol_example :
    serve_socks5 1 listening (served ∷ []) ≡ returns (map protocol (reached (served ∷ [])))
serve_socks5-protocol_example =
    serve_socks5-protocol 1 listening (served ∷ []) refl refl ((tt, omega arith), tt)

-- What the kernel, the handlers and the handshake do together.
abbrev connection : List Action
connection =
    wrote method_response
    ∷ connecting (10 ∷ 0 ∷ 0 ∷ 1 ∷ []) 80
    ∷ wrote last_response
    ∷ relaying
    ∷ []

connection-session : session uninit (events answers) ≡ connection
unfolding session
connection-session = refl
