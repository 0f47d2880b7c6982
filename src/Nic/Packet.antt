-- ===== src/Nic/Packet.antt =====
-- include/nic/packet.hpp: what the concept asks of a packet, as a record of operations, and what the
-- types that are packets keep.
pub mod Filled
pub mod Types
use toad_jawbreaker.Prelude.{ℕ, ◌+◌, ◌≡◌, List, length, Outcome}
use toad_jawbreaker.Prelude.Bits.{sz}
use toad_jawbreaker.Bytes.Stream.{ByteIStream, Writer}
use toad_jawbreaker.Bytes.Stream.Writing.{Writes}

-- `try_from_stream` is given what the uninitialised packet holds.
pub record Packet (P : Type 0) : Type 0 where
  pub try_to_stream : P → Writer
  pub try_from_stream : P → List ℕ → ByteIStream → Outcome (P × ByteIStream)
  pub header_size : ℕ
  pub header_dynamic_size : P → ℕ
  pub payload_size : P → ℕ
  pub size : P → ℕ

-- A packet has bytes that do not depend on where it is written, and `size()` is their number.
pub record IsSized {P : Type 0} (ops : Packet P) (IsValid : P → Type 0) (wire : P → List ℕ)
    : Type 0 where
  pub writes : (p : P) → IsValid p → Writes (ops.try_to_stream p) (wire p)
  pub length-wire : (p : P) → IsValid p → length (wire p) ≡ ops.size p
  pub sum :
      (p : P) → ops.size p ≡ sz (ops.header_size + ops.header_dynamic_size p + ops.payload_size p)
