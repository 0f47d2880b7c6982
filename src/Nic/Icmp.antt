-- ===== src/Nic/Icmp.antt =====
-- include/nic/icmp.hpp: ICMP packets. The payload is a buffer that the packet only reads: the list
-- of its bytes. `IcmpType` is an enumeration over `u8`, and a parsed one may hold any `u8`.
pub mod Codec
use toad_jawbreaker.Prelude.{
  ℕ, ◌+◌, List, length, set, replicate, Outcome, returns, ◌==◌, assert, ◌>>◌,
}
use toad_jawbreaker.Prelude as Prelude
use toad_jawbreaker.Prelude.Bits.{sz}
use toad_jawbreaker.Bytes.Stream.{
  ByteIStream, Reader, pure, ◌>>=◌, read_u8, read_u16, read_array, read_buffer, Writer, ◌⨾◌,
  write_u8, write_u16, write_array, write_buffer, new_ostream,
}
use toad_jawbreaker.Nic.Typestate.{
  TypestateDirection, direction_in, direction_out, reverse_direction,
}
use toad_jawbreaker.Nic.Checksum.{of_span}
use toad_jawbreaker.Nic.Ip.{padded}

abbrev pub protocol_icmp : ℕ
protocol_icmp = 0x01

abbrev pub echo_reply : ℕ
echo_reply = 0

abbrev pub echo_request : ℕ
echo_request = 8

pub record Icmp (direction : TypestateDirection) : Type 0 where
  pub type : ℕ
  pub code : ℕ
  pub checksum : ℕ
  pub rest : List ℕ
  pub payload : List ℕ

-- The chain of reads up to `read_array(&ret.rest)`.
unfoldable pub read_header : {d : TypestateDirection} → Icmp d → Reader (Icmp d)
read_header ret = do
  type ← read_u8 ret.type
  code ← read_u8 ret.code
  checksum ← read_u16 ret.checksum
  rest ← read_array 4 ret.rest
  pure (record ret { type = type; code = code; checksum = checksum; rest = rest })

unfoldable pub try_to_stream : {d : TypestateDirection} → Icmp d → Writer
try_to_stream p =
    write_u8 p.type
    ⨾ write_u8 p.code
    ⨾ write_u16 p.checksum
    ⨾ write_array p.rest
    ⨾ write_buffer p.payload

-- `size()`
abbrev pub size : {d : TypestateDirection} → Icmp d → ℕ
size p = sz (8 + 0 + length p.payload)

-- `rest.size()` is 4.
abbrev pub buffer_size : {d : TypestateDirection} → Icmp d → ℕ
buffer_size p = sz (1 + 1 + 2 + 4 + length p.payload)

unfoldable pub calculate_checksum : {d : TypestateDirection} → Icmp d → Outcome ℕ
calculate_checksum p =
    let stream = try_to_stream p (new_ostream (replicate (padded (buffer_size p)) 0)) in
    of_span (set (set stream.content 2 0) 3 0)

-- `if constexpr (direction == DirectionOut) ASSERT(...)`
abbrev check_checksum : (d : TypestateDirection) → Icmp d → Outcome (Unit {0})
check_checksum direction_in p = returns tt
check_checksum direction_out p = Prelude.◌>>=◌ (calculate_checksum p) λ c. assert (p.checksum == c)

unfoldable pub try_from_stream :
    {d : TypestateDirection} → Icmp d → List ℕ → ByteIStream → Outcome (Icmp d × ByteIStream)
try_from_stream {d} ret bytes s =
    let (p, t) = read_header ret bytes s in
    Prelude.◌>>=◌ (read_buffer p.payload bytes t) λ r.
      let packet : Icmp d = record p { payload = r.0 } in
      check_checksum d packet >> returns (packet, r.1)

-- The constructor from a packet of another direction.
abbrev pub convert : {d : TypestateDirection} (e : TypestateDirection) → Icmp d → Icmp e
convert e p = record {
  type = p.type;
  code = p.code;
  checksum = p.checksum;
  rest = p.rest;
  payload = p.payload;
}

unfoldable pub clone_as_echo_response :
    {d : TypestateDirection} → Icmp d → Outcome (Icmp (reverse_direction d))
clone_as_echo_response {d} p =
    let response : Icmp (reverse_direction d) = record (convert (reverse_direction d) p) {
      type = echo_reply;
    } in
    assert (p.type == echo_request)
    >> (Prelude.◌>>=◌ (calculate_checksum response) λ c. returns (record response { checksum = c }))
