-- ===== src/Socks5/Server/Handshake.antt =====
-- The handshake of include/socks5/server.hpp against a description of the protocol that knows
-- nothing of streams, cursors and vectors.
use toad_jawbreaker.Prelude.{
  ℕ, ◌+◌, ◌*◌, ◌/◌, ◌%◌, ◌^◌, ◌≤◌, ◌<◌, ◌≡◌, refl, ap, ◌∙◌, true, false, ◌&&◌, List, [], ◌∷◌, ◌++◌,
  length, take, ltb, ◌==◌, if◌then◌else◌, arith, length-append, drop-length_append, All,
}
use toad_jawbreaker.Bytes.Stream.{ByteIStream}
use toad_jawbreaker.Bytes.Stream.Reading.{Ahead, skip, be16}
use toad_jawbreaker.Nic.Checksum.Sum.{IsByte}
use toad_jawbreaker.Socks5.Process.{
  Event, received, connected, Action, wrote, connecting, relaying, closed, run,
}
use toad_jawbreaker.Socks5.Server.{Uninit, method_response, last_response, connect_remote}
use toad_jawbreaker.Socks5.Server.Methods.{has_zero}

-- The protocol: what the server does with the answers, in order.
abbrev pub connecting_to : List ℕ → ℕ → List Event → List Action
connecting_to ip port (connected true ∷ es) =
    connecting ip port ∷ wrote last_response ∷ relaying ∷ []
connecting_to ip port (connected false ∷ es) = connecting ip port ∷ closed ∷ []
connecting_to ip port es = connecting ip port ∷ []

-- A short port is not noticed: the variable keeps what it held.
abbrev pub port_of : Uninit → List ℕ → ℕ
port_of u (hi ∷ lo ∷ []) = hi * 256 + lo
port_of u bytes = u.port

abbrev pub await_port : Uninit → List ℕ → List Event → List Action
await_port u ip (received bytes ∷ es) = connecting_to ip (port_of u (take 2 bytes)) es
await_port u ip es = []

abbrev pub await_ip : Uninit → List Event → List Action
await_ip u (received bytes ∷ es) =
    if ltb (length (take 4 bytes)) 4 then closed ∷ [] else await_port u (take 4 bytes) es
await_ip u es = []

-- Type 1 is an address of four bytes; type 3 goes on with an address that was never set.
abbrev pub await_address : Uninit → ℕ → List Event → List Action
await_address u atype es =
    if atype == 0x01
    then await_ip u es
    else (if atype == 0x03 then await_port u u.address es else closed ∷ [])

abbrev pub requested : Uninit → List ℕ → List Event → List Action
requested u (version ∷ command ∷ reserved ∷ atype ∷ []) es =
    if (version == 5) && (command == 1) then await_address u atype es else closed ∷ []
requested u bytes es = closed ∷ []

abbrev pub await_request : Uninit → List Event → List Action
await_request u (received bytes ∷ es) = requested u (take 4 bytes) es
await_request u es = []

abbrev pub await_methods : Uninit → ℕ → List Event → List Action
await_methods u n (received bytes ∷ es) =
    if ltb (length (take n bytes)) n
    then closed ∷ []
    else (if has_zero (take n bytes)
        then wrote method_response ∷ await_request u es
        else closed ∷ [])
await_methods u n es = []

abbrev pub greeted : Uninit → List ℕ → List Event → List Action
greeted u (version ∷ n ∷ []) es = if version == 5 then await_methods u n es else closed ∷ []
greeted u bytes es = closed ∷ []

unfoldable pub session : Uninit → List Event → List Action
session u (received bytes ∷ es) = greeted u (take 2 bytes) es
session u es = []

-- What is delivered is bytes.
abbrev pub Bytes : List Event → Type 0
Bytes [] = Unit {0}
Bytes (received bytes ∷ es) = All IsByte bytes × Bytes es
Bytes (connected b ∷ es) = Bytes es

-- The stream has taken all of the vector, which is not long.
pub record AtEnd (limit : ℕ) (vec : List ℕ) (s : ByteIStream) : Type 0 where
  pub short : length vec ≤ limit
  pub at_end : s.cursor ≡ length vec

pub Ahead-more :
    {limit : ℕ} {vec : List ℕ} {s : ByteIStream} (more : List ℕ)
    → AtEnd limit vec s
    → limit + length more < 2 ^ 63
    → Ahead (vec ++ more) s more
Ahead-more {vec} {s} more h small = record {
  object = omega (arith, h.short, length-append vec more);
  inside = omega (arith, h.at_end, length-append vec more);
  ahead = rw (h.at_end) (drop-length_append vec more);
}

pub AtEnd-more :
    {limit : ℕ} {vec : List ℕ} {s : ByteIStream} (more : List ℕ) (n : ℕ)
    → AtEnd limit vec s
    → length more ≤ n
    → AtEnd (limit + n) (vec ++ more) (skip (length more) s)
AtEnd-more {vec} {s} more n h fit = record {
  short = omega (arith, h.short, length-append vec more);
  at_end = omega (arith, h.at_end, length-append vec more);
}

pub run_connect :
    (ip : List ℕ) (port : ℕ) (es : List Event)
    → run (connect_remote ip port) es ≡ connecting_to ip port es
unfolding connect_remote
run_connect ip port [] = refl
run_connect ip port (received bytes ∷ es) = refl
run_connect ip port (connected true ∷ es) = refl
run_connect ip port (connected false ∷ es) = refl

pub be16_pair : (hi lo : ℕ) → IsByte hi → IsByte lo → be16 (hi * 256 + lo) ≡ hi ∷ lo ∷ []
be16_pair hi lo h l =
    ap (λ (k : ℕ). k ∷ (hi * 256 + lo) % 256 ∷ []) {x = (hi * 256 + lo) / 256} {y = hi}
      (omega arith)
    ∙ ap (λ (k : ℕ). hi ∷ k ∷ []) {x = (hi * 256 + lo) % 256} {y = lo} (omega arith)
