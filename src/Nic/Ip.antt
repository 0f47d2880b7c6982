-- ===== src/Nic/Ip.antt =====
-- include/nic/ipv4.hpp: IPv4 packets. The payload is a buffer that the packet only reads: the list
-- of its bytes.
pub mod Codec
pub mod Sums
pub mod Response
use toad_jawbreaker.Prelude.{
  ℕ, ◌+◌, ◌-◌, ◌^◌, ◌<◌, bit_and, bit_or, List, [], length, set, replicate, Outcome, returns,
  aborts, if◌then◌else◌,
}
use toad_jawbreaker.Prelude as Prelude
use toad_jawbreaker.Prelude.Bits.{u8, u16, sz, ◌<<<◌, ◌>>>◌}
use toad_jawbreaker.Bytes.Stream.{
  ByteIStream, Reader, pure, ◌>>=◌, read_u8, read_u16, read_array, read_buffer, is_ok, Writer, ◌⨾◌,
  write_u8, write_u16, write_array, write_buffer, new_ostream,
}
use toad_jawbreaker.Nic.Typestate.{TypestateDirection, reverse_direction}
use toad_jawbreaker.Nic.Checksum.{of_span}

abbrev pub ethertype_ipv4 : ℕ
ethertype_ipv4 = 0x0800

abbrev pub ip_header_size : ℕ
ip_header_size = 20

pub record Ip (direction : TypestateDirection) : Type 0 where
  pub version : ℕ
  pub ihl : ℕ
  pub dscp : ℕ
  pub ecn : ℕ
  pub total_length : ℕ
  pub identification : ℕ
  pub flags : ℕ
  pub fragment_offset : ℕ
  pub ttl : ℕ
  pub protocol : ℕ
  pub header_checksum : ℕ
  pub src : List ℕ
  pub dst : List ℕ
  pub payload : List ℕ

-- The local variables of `try_from_stream` that the chain of reads fills, with those of `ret`.
pub record RawHeader : Type 0 where
  pub version_ihl : ℕ
  pub dscp_ecn : ℕ
  pub total_length : ℕ
  pub identification : ℕ
  pub flags_fragment_offset : ℕ
  pub ttl : ℕ
  pub protocol : ℕ
  pub header_checksum : ℕ
  pub src : List ℕ
  pub dst : List ℕ

-- The chain up to `read_array(&ret.dst)`; `raw` is what the variables hold before.
unfoldable pub read_header : RawHeader → Reader RawHeader
read_header raw = do
  version_ihl ← read_u8 raw.version_ihl
  dscp_ecn ← read_u8 raw.dscp_ecn
  total_length ← read_u16 raw.total_length
  identification ← read_u16 raw.identification
  flags_fragment_offset ← read_u16 raw.flags_fragment_offset
  ttl ← read_u8 raw.ttl
  protocol ← read_u8 raw.protocol
  header_checksum ← read_u16 raw.header_checksum
  src ← read_array 4 raw.src
  dst ← read_array 4 raw.dst
  pure (record {
    version_ihl = version_ihl;
    dscp_ecn = dscp_ecn;
    total_length = total_length;
    identification = identification;
    flags_fragment_offset = flags_fragment_offset;
    ttl = ttl;
    protocol = protocol;
    header_checksum = header_checksum;
    src = src;
    dst = dst;
  })

-- The assignments after the assertion.
unfoldable pub unpack : (d : TypestateDirection) → RawHeader → List ℕ → Ip d
unpack d raw payload = record {
  version = bit_and (raw.version_ihl >>> 4) 0xf;
  ihl = bit_and raw.version_ihl 0xf;
  dscp = bit_and (raw.dscp_ecn >>> 2) 0b111111;
  ecn = bit_and raw.dscp_ecn 0b11;
  total_length = raw.total_length;
  identification = raw.identification;
  flags = bit_and (raw.flags_fragment_offset >>> 13) 0b111;
  fragment_offset = bit_and raw.flags_fragment_offset 0x1fff;
  ttl = raw.ttl;
  protocol = raw.protocol;
  header_checksum = raw.header_checksum;
  src = raw.src;
  dst = raw.dst;
  payload = payload;
}

unfoldable pub try_from_stream :
    (d : TypestateDirection)
    → RawHeader
    → List ℕ
    → List ℕ
    → ByteIStream
    → Outcome (Ip d × ByteIStream)
try_from_stream d raw payload bytes s =
    let (raw', t) = read_header raw bytes s in
    Prelude.◌>>=◌ (read_buffer payload bytes t)
      λ r. if is_ok r.1.errc then returns (unpack d raw' r.0, r.1) else aborts

unfoldable pub try_to_stream : {d : TypestateDirection} → Ip d → Writer
try_to_stream p =
    let hi_byte = u8 (bit_or (p.flags <<< 5) (bit_and (p.fragment_offset >>> 8) 0x1f)) in
    let lo_byte = u8 (bit_and p.fragment_offset 0xff) in
    write_u8 (bit_or (p.version <<< 4) p.ihl)
    ⨾ write_u8 (bit_or (p.dscp <<< 2) p.ecn)
    ⨾ write_u16 p.total_length
    ⨾ write_u16 p.identification
    ⨾ write_u8 hi_byte
    ⨾ write_u8 lo_byte
    ⨾ write_u8 p.ttl
    ⨾ write_u8 p.protocol
    ⨾ write_u16 p.header_checksum
    ⨾ write_array p.src
    ⨾ write_array p.dst
    ⨾ write_buffer p.payload

-- `size()`
abbrev pub size : {d : TypestateDirection} → Ip d → ℕ
size p = sz (20 + 0 + length p.payload)

abbrev pub buffer_size : {d : TypestateDirection} → Ip d → ℕ
buffer_size p = sz (ip_header_size + length p.payload)

-- `(buffer_size() + 1) & ~1`
abbrev pub padded : ℕ → ℕ
padded n = bit_and (sz (n + 1)) (2 ^ 64 - 2)

unfoldable pub calculate_checksum : {d : TypestateDirection} → Ip d → Outcome ℕ
calculate_checksum p =
    let stream = try_to_stream p (new_ostream (replicate (padded (buffer_size p)) 0)) in
    of_span (set (set stream.content 10 0) 11 0)

-- The constructor from a packet of another direction, which leaves the payload empty.
abbrev pub convert : {d : TypestateDirection} (e : TypestateDirection) → Ip d → Ip e
convert e p = record {
  version = p.version;
  ihl = p.ihl;
  dscp = p.dscp;
  ecn = p.ecn;
  total_length = p.total_length;
  identification = p.identification;
  flags = p.flags;
  fragment_offset = p.fragment_offset;
  ttl = p.ttl;
  protocol = p.protocol;
  header_checksum = p.header_checksum;
  src = p.src;
  dst = p.dst;
  payload = [];
}

-- The response before its checksum is taken. `buffer_size()` is that of the packet itself.
unfoldable pub prepare_response :
    {d : TypestateDirection} → List ℕ → ℕ → Ip d → Ip (reverse_direction d)
prepare_response {d} payload ttl p = record (convert (reverse_direction d) p) {
  payload = payload;
  total_length = u16 (buffer_size p);
  ttl = ttl;
  src = p.dst;
  dst = p.src;
}

unfoldable pub clone_as_response :
    {d : TypestateDirection} → List ℕ → ℕ → Ip d → Outcome (Ip (reverse_direction d))
clone_as_response payload ttl p =
    let response = prepare_response payload ttl p in
    Prelude.◌>>=◌ (calculate_checksum response)
      λ c. returns (record response { header_checksum = c })
