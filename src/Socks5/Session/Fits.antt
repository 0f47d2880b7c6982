-- ===== src/Socks5/Session/Fits.antt =====
-- How long the vector of a coroutine of include/socks5/server.hpp grows.
use toad_jawbreaker.Prelude.{
  ℕ, ◌+◌, ◌^◌, ◌≤◌, ◌<◌, Bool, true, false, if◌then◌else◌, if-elim, not, ◌==◌, ltb, List, [], ◌∷◌,
  ◌++◌, Option, none, some, length, All, arith,
}
use toad_jawbreaker.Bytes.Stream.{ByteIStream, new_istream, read_u8}
use toad_jawbreaker.Nic.Checksum.Sum.{IsByte}
use toad_jawbreaker.Socks5.Process.{
  Process, returned, await_read, submit_write, await_connect, relay, diverges,
}
use toad_jawbreaker.Socks5.Server.{
  Uninit, connect_remote, read_port, read_address, read_request, read_methods,
  handle_client_handshake, method_response,
}

-- With a vector of at most v bytes, none of the reads to come makes it longer than memory is.
abbrev pub Fits : Process → ℕ → Type 0
Fits returned v = Unit
Fits (await_read n k) v =
    (v + n < 2 ^ 63) × ((more : List ℕ) → All IsByte more → length more ≤ n → Fits (k more) (v + n))
Fits (submit_write bytes p) v = Fits p v
Fits (await_connect ip port k) v = (ok : Bool) → Fits (k ok) v
Fits relay v = Unit
Fits diverges v = Unit

module _ (v : ℕ) where
  -- Where a condition returns from the coroutine.
  Fits-guard : (b : Bool) (p : Process) → Fits p v → Fits (if b then returned else p) v
  Fits-guard b p h = if-elim (λ x. Fits x v) b returned p (λ _. tt) λ _. h

  connect_remote-Fits : (ip : List ℕ) (port : ℕ) → Fits (connect_remote ip port) v
  unfolding connect_remote
  connect_remote-Fits ip port true = tt
  connect_remote-Fits ip port false = tt

pub read_port-Fits :
    (v : ℕ) (u : Uninit) (address vec : List ℕ) (s : ByteIStream)
    → v + 2 < 2 ^ 63
    → Fits (read_port u address vec s) v
unfolding read_port
read_port-Fits v u address vec s h = (h, λ more b l. connect_remote-Fits (v + 2) address _)

read_address-Fits :
    (v : ℕ) (u : Uninit) (atype : ℕ) (vec : List ℕ) (s : ByteIStream)
    → v + 6 < 2 ^ 63
    → Fits (read_address u atype vec s) v
unfolding read_address
read_address-Fits v u atype vec s h =
    if-elim (λ x. Fits x v) (atype == 0x01) _ _
      (λ _. (
        omega (arith, h),
        λ more b l.
            Fits-guard (v + 4) (ltb (length more) 4) _
              (read_port-Fits (v + 4) u _ _ _ (omega (arith, h))),
      ))
      λ _.
        if-elim (λ x. Fits x v) (atype == 0x03) _ returned
          (λ _. read_port-Fits v u u.address vec s (omega (arith, h))) λ _. tt

read_request-Fits :
    (v : ℕ) (u : Uninit) (vec : List ℕ) (s : ByteIStream)
    → v + 10 < 2 ^ 63
    → Fits (read_request u vec s) v
unfolding read_request
read_request-Fits v u vec s h = (
  omega (arith, h),
  λ more b l.
      let vec' = vec ++ more in
      let (version, s₁) = read_u8 u.byte vec' s in
      let (command, s₂) = read_u8 u.byte vec' s₁ in
      let (reserved, s₃) = read_u8 u.byte vec' s₂ in
      let (atype, s₄) = read_u8 u.byte vec' s₃ in
      let asked = read_address u atype vec' s₄ in
      let connects = if not (command == 1) then returned else asked in
      let versioned = if not (version == 5) then returned else connects in
      Fits-guard (v + 4) (ltb (length more) 4) versioned (
        Fits-guard (v + 4) (not (version == 5)) connects (
          Fits-guard (v + 4) (not (command == 1)) asked
            (read_address-Fits (v + 4) u atype vec' s₄ (omega (arith, h))))),
)

-- Once the methods were scanned.
answered-Fits :
    (v : ℕ) (u : Uninit) (vec : List ℕ) (scanned : Option (Bool × ByteIStream))
    → v + 10 < 2 ^ 63
    → Fits
        (elim scanned [
          | none ↦ diverges
          | some (is_ok, t) ↦
              if not is_ok then returned else submit_write method_response (read_request u vec t)
        ])
        v
answered-Fits v u vec none h = tt
answered-Fits v u vec (some (is_ok, t)) h =
    Fits-guard v (not is_ok) (submit_write method_response (read_request u vec t))
      (read_request-Fits v u vec t h)

read_methods-Fits :
    (v : ℕ) (u : Uninit) (n : ℕ) (vec : List ℕ) (s : ByteIStream)
    → v + n + 10 < 2 ^ 63
    → Fits (read_methods u n vec s) v
unfolding read_methods
read_methods-Fits v u n vec s h = (
  omega (arith, h),
  λ more b l.
      Fits-guard (v + n) (ltb (length more) n) _ (answered-Fits (v + n) u (vec ++ more) _ h),
)

-- The vector of the handshake grows to 267 bytes at most.
greeted-Fits :
    (u : Uninit) (vec : List ℕ)
    → All IsByte vec
    → length vec ≤ 2
    → let (version, s₁) = read_u8 u.byte vec new_istream in
      let (nmethods, s₂) = read_u8 u.byte vec s₁ in
      Fits
        (if ltb (length vec) 2
          then returned
          else (if not (version == 5) then returned else read_methods u nmethods vec s₂))
        2
unfolding read_u8
greeted-Fits u [] b l = tt
greeted-Fits u (version ∷ []) b l = tt
greeted-Fits u (version ∷ n ∷ []) b l =
    Fits-guard 2 (not (version == 5)) (read_methods u n (version ∷ n ∷ []) _)
      (read_methods-Fits 2 u n (version ∷ n ∷ []) _ (omega (arith, b.1.0)))
greeted-Fits u (version ∷ n ∷ x ∷ more) b l = absurd (omega (arith, l))

pub handshake-Fits : (u : Uninit) → Fits (handle_client_handshake u) 0
unfolding handle_client_handshake
handshake-Fits u = (omega arith, λ more b l. greeted-Fits u more b l)
