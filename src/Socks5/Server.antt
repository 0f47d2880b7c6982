-- ===== src/Socks5/Server.antt =====
-- include/socks5/server.hpp: the handshake with a client, statement by statement. `vec` is the
-- vector `buffer`, which the reads append to, and `s` the stream over it.
pub mod Methods
pub mod Handshake
pub mod Stages
pub mod Access
use toad_jawbreaker.Prelude.{
  ℕ, zero, suc, ◌+◌, Bool, true, false, not, List, [], ◌∷◌, ◌++◌, Option, none, some, length, ltb,
  ◌==◌, if◌then◌else◌,
}
use toad_jawbreaker.Bytes.Stream.{
  ByteIStream, new_istream, read_u8, read_u16, read_array, remaining,
}
use toad_jawbreaker.Socks5.Process.{
  Process, returned, await_read, submit_write, await_connect, relay, diverges,
}

-- What uninitialised variables hold: a `u8`, the port, and the address. `std::variant` makes its
-- first alternative, an `IPv4`, whose bytes nothing sets.
pub record Uninit : Type 0 where
  pub byte : ℕ
  pub port : ℕ
  pub address : List ℕ

-- `for (u8 i = 0; istream.remaining(); i++)`; nothing reads `i`. `none`: the fuel ran out.
unfoldable pub scan_methods : ℕ → ℕ → List ℕ → ByteIStream → Bool → Option (Bool × ByteIStream)
scan_methods zero junk vec s is_ok = none
scan_methods (suc fuel) junk vec s is_ok =
    let (byte, t) = read_u8 junk vec s in
    let more = scan_methods fuel junk vec t (if byte == 0x00 then true else is_ok) in
    if remaining vec s == 0 then some (is_ok, s) else more

abbrev pub method_response : List ℕ
method_response = 0x05 ∷ 0x00 ∷ []

abbrev pub last_response : List ℕ
last_response = 0x05 ∷ 0x00 ∷ 0x00 ∷ 0x01 ∷ 127 ∷ 0 ∷ 0 ∷ 1 ∷ 0xb8 ∷ 22 ∷ []

-- From `auto ipv4 = std::get<IPv4>(address)` to the end.
unfoldable pub connect_remote : List ℕ → ℕ → Process
connect_remote ipv4 port =
    await_connect ipv4 port λ ok. if ok then submit_write last_response relay else returned

-- From the read of the port on; the result of that read is not looked at.
unfoldable pub read_port : Uninit → List ℕ → List ℕ → ByteIStream → Process
read_port u address vec s =
    await_read 2
      λ more. let (port, t) = read_u16 u.port (vec ++ more) s in connect_remote address port

-- `switch (atype)`
unfoldable pub read_address : Uninit → ℕ → List ℕ → ByteIStream → Process
read_address u atype vec s =
    if atype == 0x01
    then (await_read 4 λ more.
        let (address, t) = read_array 4 u.address (vec ++ more) s in
        if ltb (length more) 4 then returned else read_port u address (vec ++ more) t)
    else (if atype == 0x03 then read_port u u.address vec s else returned)

-- From `read = co_await io.submit_read_some(client, buffer, 4)` on.
unfoldable pub read_request : Uninit → List ℕ → ByteIStream → Process
read_request u vec s = await_read 4 λ more.
    let vec' = vec ++ more in
    let (version, s₁) = read_u8 u.byte vec' s in
    let (command, s₂) = read_u8 u.byte vec' s₁ in
    let (reserved, s₃) = read_u8 u.byte vec' s₂ in
    let (atype, s₄) = read_u8 u.byte vec' s₃ in
    if ltb (length more) 4
    then returned
    else (if not (version == 0x05)
        then returned
        else (if not (command == 0x01) then returned else read_address u atype vec' s₄))

-- The methods that the client offers. The loop takes a byte a round.
unfoldable pub read_methods : Uninit → ℕ → List ℕ → ByteIStream → Process
read_methods u nmethods vec s = await_read nmethods λ more.
    let vec' = vec ++ more in
    if ltb (length more) nmethods
    then returned
    else elim (scan_methods (suc (length vec')) u.byte vec' s false) [
      | none ↦ diverges
      | some (is_ok, t) ↦
          if not is_ok then returned else submit_write method_response (read_request u vec' t)
    ]

unfoldable pub handle_client_handshake : Uninit → Process
handle_client_handshake u = await_read 2 λ vec.
    let (version, s₁) = read_u8 u.byte vec new_istream in
    let (nmethods, s₂) = read_u8 u.byte vec s₁ in
    if ltb (length vec) 2
    then returned
    else (if not (version == 5) then returned else read_methods u nmethods vec s₂)
