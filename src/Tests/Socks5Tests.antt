-- ===== src/Tests/Socks5Tests.antt =====
-- include/socks5 on concrete sessions.
use toad_jawbreaker.Prelude.{◌+◌, ◌*◌, ◌≡◌, refl, true, false, List, [], ◌∷◌, arith, All}
use toad_jawbreaker.Socks5.Process.{
  Event, received, connected, Action, wrote, connecting, relaying, closed, run,
}
use toad_jawbreaker.Socks5.Server.{Uninit, handle_client_handshake, method_response, last_response}
use toad_jawbreaker.Socks5.Server.Handshake.{session}
use toad_jawbreaker.Socks5.Server.Stages.{handshake-session}
use toad_jawbreaker.Socks5.Server.Access.{offers, asks, access_needs_method, connects_as_asked}

abbrev uninit : Uninit
uninit = record { byte = 0xcd; port = 0xcdcd; address = 0xcd ∷ 0xcd ∷ 0xcd ∷ 0xcd ∷ [] }

abbrev no_method : List Event
no_method = received (5 ∷ 1 ∷ []) ∷ received (2 ∷ []) ∷ []

handshake-session_example :
    run (handle_client_handshake uninit) no_method ≡ session uninit no_method
handshake-session_example = handshake-session uninit no_method (omega arith)

access_needs_method_example :
    (offers no_method ≡ false
      → All (λ a. a ≡ closed) (run (handle_client_handshake uninit) no_method))
    × (offers no_method ≡ true
        → (rest : List Action) × (run (handle_client_handshake uninit) no_method
            ≡ wrote method_response ∷ rest))
access_needs_method_example = access_needs_method uninit no_method (omega arith)

connects_as_asked_example :
    run (handle_client_handshake uninit) (
      asks
        (2 ∷ 0 ∷ [])
        0
        1
        (received (10 ∷ 0 ∷ 0 ∷ 1 ∷ []) ∷ received (1 ∷ 0xbb ∷ []) ∷ connected true ∷ []))
    ≡ wrote method_response
      ∷ connecting (10 ∷ 0 ∷ 0 ∷ 1 ∷ []) (1 * 256 + 0xbb)
      ∷ (wrote last_response ∷ relaying ∷ [])
connects_as_asked_example =
    connects_as_asked uninit (2 ∷ 0 ∷ []) 0 10 0 0 1 1 0xbb true (omega arith) (omega arith) refl
      (omega arith) (omega arith) (omega arith)
