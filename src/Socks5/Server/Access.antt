-- ===== src/Socks5/Server/Access.antt =====
-- Whom include/socks5/server.hpp lets through, and where it connects to.
use toad_jawbreaker.Prelude.{
  ℕ, ◌+◌, ◌*◌, ◌<◌, ◌≡◌, refl, ap, ◌∙◌, Bool, true, false, ◌&&◌, List, [], ◌∷◌, length, take, ltb,
  leb, ◌==◌, if◌then◌else◌, arith, All, Bool-cases, inl, inr,
}
use toad_jawbreaker.Nic.Checksum.Sum.{IsByte}
use toad_jawbreaker.Socks5.Process.{
  Event, received, connected, Action, wrote, connecting, relaying, closed, run,
}
use toad_jawbreaker.Socks5.Server.{Uninit, method_response, last_response, handle_client_handshake}
use toad_jawbreaker.Socks5.Server.Methods.{has_zero}
use toad_jawbreaker.Socks5.Server.Handshake.{session, Bytes, await_address, await_request}
use toad_jawbreaker.Socks5.Server.Stages.{handshake-session}

-- The client greets with version 5, and sends as many methods as it announces, 0x00 among them.
abbrev pub offers : List Event → Bool
offers (received (version ∷ n ∷ more) ∷ received ms ∷ es) =
    (version == 5) && (leb n (length (take n ms)) && has_zero (take n ms))
offers es = false

refuses : (u : Uninit) (es : List Event) → offers es ≡ false → All (λ a. a ≡ closed) (session u es)
unfolding session
refuses u [] h = tt
refuses u (connected b ∷ es) h = tt
refuses u (received [] ∷ es) h = (refl, tt)
refuses u (received (v ∷ []) ∷ es) h = (refl, tt)
refuses u (received (v ∷ n ∷ more) ∷ []) h = elim (Bool-cases (v == 5)) [
  | inl five ↦ rw five tt
  | inr old ↦ rw old (refl, tt)
]
refuses u (received (v ∷ n ∷ more) ∷ connected b ∷ es) h = elim (Bool-cases (v == 5)) [
  | inl five ↦ rw five tt
  | inr old ↦ rw old (refl, tt)
]
refuses u (received (v ∷ n ∷ more) ∷ received ms ∷ es) h = elim (Bool-cases (v == 5)) [
  | inr old ↦ rw old (refl, tt)
  | inl five ↦ elim (Bool-cases (ltb (length (take n ms)) n)) [
    | inl few ↦ rw five (rw few (refl, tt))
    | inr enough ↦ elim (Bool-cases (has_zero (take n ms))) [
      | inr refused ↦ rw five (rw enough (rw refused (refl, tt)))
      | inl offered ↦ absurd (ground (arith, five, enough, offered, h))
    ]
  ]
]

admits :
    (u : Uninit) (es : List Event)
    → offers es ≡ true
    → (rest : List Action) × (session u es ≡ wrote method_response ∷ rest)
unfolding session
admits u [] h = cc
admits u (connected b ∷ es) h = cc
admits u (received [] ∷ es) h = cc
admits u (received (v ∷ []) ∷ es) h = cc
admits u (received (v ∷ n ∷ more) ∷ []) h = cc
admits u (received (v ∷ n ∷ more) ∷ connected b ∷ es) h = cc
admits u (received (v ∷ n ∷ more) ∷ received ms ∷ es) h = (await_request u es, ground arith)

-- To a client that does not offer version 5 and the method "no authentication" nothing is written
-- and nothing is connected: the only action, if any, is to close. To any other the first action is
-- the response to its methods.
pub access_needs_method :
    (u : Uninit) (es : List Event)
    → Bytes es
    → (offers es ≡ false → All (λ a. a ≡ closed) (run (handle_client_handshake u) es))
      × (offers es ≡ true
          → (rest : List Action) × (run (handle_client_handshake u) es
              ≡ wrote method_response ∷ rest))
access_needs_method u es hb = rw (handshake-session u es hb) (refuses u es, admits u es)

-- The answers of a client that offers the method, asks for a connection with the address type
-- `atype`, and goes on with `es`.
abbrev pub asks : List ℕ → ℕ → ℕ → List Event → List Event
asks ms reserved atype es =
    received (5 ∷ length ms ∷ []) ∷ received ms ∷ received (5 ∷ 1 ∷ reserved ∷ atype ∷ []) ∷ es

take_all : (xs : List ℕ) → take (length xs) xs ≡ xs
take_all [] = refl
take_all (x ∷ xs) = ap (λ l. x ∷ l) (take_all xs)

session-asks :
    (u : Uninit) (ms : List ℕ) (reserved atype : ℕ) (es : List Event)
    → has_zero ms ≡ true
    → session u (asks ms reserved atype es) ≡ wrote method_response ∷ await_address u atype es
unfolding session
session-asks u ms reserved atype es offered =
    let whole : ltb (length ms) (length ms) ≡ false = ground arith in
    rw (take_all ms) (rw whole (rw offered))

-- A client that asks for an IPv4 address and a port is connected to that address and that port, is
-- told so if the connection is made, and is then relayed; else it is only closed.
pub connects_as_asked :
    (u : Uninit) (ms : List ℕ) (reserved a b c d hi lo : ℕ) (made : Bool)
    → All IsByte ms
    → length ms < 256
    → has_zero ms ≡ true
    → IsByte reserved
    → All IsByte (a ∷ b ∷ c ∷ d ∷ [])
    → All IsByte (hi ∷ lo ∷ [])
    → run (handle_client_handshake u) (
        asks ms reserved 1
          (received (a ∷ b ∷ c ∷ d ∷ []) ∷ received (hi ∷ lo ∷ []) ∷ connected made ∷ []))
      ≡ wrote method_response
        ∷ connecting (a ∷ b ∷ c ∷ d ∷ []) (hi * 256 + lo)
        ∷ (if made then wrote last_response ∷ relaying ∷ [] else closed ∷ [])
connects_as_asked u ms reserved a b c d hi lo true hm hl offered hr ha hp =
    handshake-session u _ (
      (omega arith, (hl, tt)),
      (hm, ((omega arith, (omega arith, (hr, (omega arith, tt)))), (ha, (hp, tt)))),
    )
    ∙ session-asks u ms reserved 1 _ offered
connects_as_asked u ms reserved a b c d hi lo false hm hl offered hr ha hp =
    handshake-session u _ (
      (omega arith, (hl, tt)),
      (hm, ((omega arith, (omega arith, (hr, (omega arith, tt)))), (ha, (hp, tt)))),
    )
    ∙ session-asks u ms reserved 1 _ offered

-- A client that asks for a domain name is connected to an address that nobody set, at the port that
-- the first two bytes of the name's encoding make.
pub domain_connects_unset :
    (u : Uninit) (ms : List ℕ) (reserved hi lo : ℕ) (more : List ℕ)
    → All IsByte ms
    → length ms < 256
    → has_zero ms ≡ true
    → IsByte reserved
    → All IsByte (hi ∷ lo ∷ more)
    → run (handle_client_handshake u) (asks ms reserved 3 (received (hi ∷ lo ∷ more) ∷ []))
      ≡ wrote method_response ∷ connecting u.address (hi * 256 + lo) ∷ []
domain_connects_unset u ms reserved hi lo more hm hl offered hr hp =
    handshake-session u _ (
      (omega arith, (hl, tt)),
      (hm, ((omega arith, (omega arith, (hr, (omega arith, tt)))), (hp, tt))),
    )
    ∙ session-asks u ms reserved 3 _ offered

-- A client whose port arrives in part, one byte or none, is connected to its address at a port that
-- nobody set.
pub short_port_connects_unset :
    (u : Uninit) (ms : List ℕ) (reserved a b c d : ℕ) (part : List ℕ)
    → All IsByte ms
    → length ms < 256
    → has_zero ms ≡ true
    → IsByte reserved
    → All IsByte (a ∷ b ∷ c ∷ d ∷ [])
    → All IsByte part
    → length part < 2
    → run
        (handle_client_handshake u)
        (asks ms reserved 1 (received (a ∷ b ∷ c ∷ d ∷ []) ∷ received part ∷ []))
      ≡ wrote method_response ∷ connecting (a ∷ b ∷ c ∷ d ∷ []) u.port ∷ []
short_port_connects_unset u ms reserved a b c d [] hm hl offered hr ha hp few =
    handshake-session u _ (
      (omega arith, (hl, tt)),
      (hm, ((omega arith, (omega arith, (hr, (omega arith, tt)))), (ha, (hp, tt)))),
    )
    ∙ session-asks u ms reserved 1 _ offered
short_port_connects_unset u ms reserved a b c d (x ∷ []) hm hl offered hr ha hp few =
    handshake-session u _ (
      (omega arith, (hl, tt)),
      (hm, ((omega arith, (omega arith, (hr, (omega arith, tt)))), (ha, (hp, tt)))),
    )
    ∙ session-asks u ms reserved 1 _ offered
short_port_connects_unset u ms reserved a b c d (x ∷ y ∷ more) hm hl offered hr ha hp few =
    absurd (omega arith)
