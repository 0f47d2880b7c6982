-- ===== src/Nic/Ethernet.antt =====
-- include/nic/ethernet.hpp: Ethernet frames. The payload is a buffer that the frame only reads: the
-- list of its bytes.
pub mod Codec
use toad_jawbreaker.Prelude.{
  ℕ, ◌+◌, ◌*◌, List, length, replicate, Outcome, returns, if◌then◌else◌, not,
}
use toad_jawbreaker.Prelude as Prelude
use toad_jawbreaker.Prelude.Bits.{sz}
use toad_jawbreaker.Bytes.Stream.{
  ByteIStream, Reader, pure, ◌>>=◌, read_u16, read_array, read_buffer, Writer, ◌⨾◌, write_u16,
  write_array, write_buffer,
}
use toad_jawbreaker.Nic.Typestate.{TypestateDirection, reverse_direction}
use toad_jawbreaker.Nic.Mac.{is_default}

pub record EthernetFrame (direction : TypestateDirection) : Type 0 where
  pub dst : List ℕ
  pub src : List ℕ
  pub ethertype : ℕ
  pub payload : List ℕ

abbrev pub header_size : ℕ
header_size = 14

-- `size()`, and `min_buffer_size()`, which computes it anew.
abbrev pub size : {d : TypestateDirection} → EthernetFrame d → ℕ
size f = sz (header_size + 0 + length f.payload)

abbrev pub min_buffer_size : {d : TypestateDirection} → EthernetFrame d → ℕ
min_buffer_size f = sz (2 * 6 + 2 + length f.payload)

-- The chain of reads up to `read_u16(&frame.ethertype)`; `frame` is uninitialised before.
unfoldable pub read_header : {d : TypestateDirection} → EthernetFrame d → Reader (EthernetFrame d)
read_header frame = do
  dst ← read_array 6 frame.dst
  src ← read_array 6 frame.src
  ethertype ← read_u16 frame.ethertype
  pure (record frame { dst = dst; src = src; ethertype = ethertype })

unfoldable pub try_from_stream :
    {d : TypestateDirection}
    → EthernetFrame d
    → List ℕ
    → ByteIStream
    → Outcome (EthernetFrame d × ByteIStream)
try_from_stream frame bytes s =
    let (f, t) = read_header frame bytes s in
    Prelude.◌>>=◌ (read_buffer f.payload bytes t) λ r. returns (record f { payload = r.0 }, r.1)

unfoldable pub try_to_stream : {d : TypestateDirection} → EthernetFrame d → Writer
try_to_stream f =
    write_array f.dst ⨾ write_array f.src ⨾ write_u16 f.ethertype ⨾ write_buffer f.payload

-- `ret` is the new frame, uninitialised: its source stays so where the sender is the default.
unfoldable pub clone_as_response :
    {d : TypestateDirection}
    → EthernetFrame (reverse_direction d)
    → ℕ
    → ℕ
    → List ℕ
    → EthernetFrame d
    → EthernetFrame (reverse_direction d)
clone_as_response ret ethertype payload_size override_sender f = record ret {
  dst = f.src;
  src = if not (is_default override_sender) then override_sender else ret.src;
  ethertype = ethertype;
  payload = replicate payload_size 0;
}
