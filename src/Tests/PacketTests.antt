-- ===== src/Tests/PacketTests.antt =====
-- The IPv4, ICMP and Ethernet packets of include/nic on concrete inputs.
use toad_jawbreaker.Prelude.{
  ℕ, ◌+◌, ◌%◌, ◌≡◌, ◌≢◌, ◌↔◌, refl, List, [], ◌∷◌, ◌++◌, replicate, arith, returns, aborts, leb,
  if◌then◌else◌,
}
use toad_jawbreaker.Bytes.Stream.{ByteOStream, new_istream, new_ostream}
use toad_jawbreaker.Bytes.Stream.Reading.{skip}
use toad_jawbreaker.Nic.Typestate.{direction_in, direction_out}
use toad_jawbreaker.Nic.Checksum.{of_span}
use toad_jawbreaker.Nic.Checksum.Sum.{word_total}
use toad_jawbreaker.Nic.Padding.{padding}
use toad_jawbreaker.Nic.Ip
use toad_jawbreaker.Nic.Ip.{Ip, RawHeader}
use toad_jawbreaker.Nic.Ip.Codec as IpCodec
use toad_jawbreaker.Nic.Ip.Sums as IpSums
use toad_jawbreaker.Nic.Ip.Response as IpResponse
use toad_jawbreaker.Nic.Icmp
use toad_jawbreaker.Nic.Icmp.{Icmp}
use toad_jawbreaker.Nic.Icmp.Codec as IcmpCodec
use toad_jawbreaker.Nic.Ethernet.{EthernetFrame}
use toad_jawbreaker.Nic.Ethernet.Codec as EthernetCodec
use toad_jawbreaker.Nic.Device.{Device, write_eth, write_eth_lem}

abbrev packet : Ip direction_in
packet = record {
  version = 4;
  ihl = 5;
  dscp = 1;
  ecn = 2;
  total_length = 23;
  identification = 0x1234;
  flags = 2;
  fragment_offset = 0x123;
  ttl = 64;
  protocol = 1;
  header_checksum = 0;
  src = 10 ∷ 0 ∷ 0 ∷ 9 ∷ [];
  dst = 10 ∷ 0 ∷ 0 ∷ 1 ∷ [];
  payload = 7 ∷ 8 ∷ 9 ∷ [];
}

packet-IsIp : IpCodec.IsIp packet
packet-IsIp = record {
  version_fits = omega arith;
  ihl_fits = omega arith;
  dscp_fits = omega arith;
  ecn_fits = omega arith;
  total_length_fits = omega arith;
  identification_fits = omega arith;
  flags_fits = omega arith;
  fragment_offset_fits = omega arith;
  ttl_fits = omega arith;
  protocol_fits = omega arith;
  checksum_fits = omega arith;
  src_length = refl;
  dst_length = refl;
}

packet-IsPacket : IpSums.IsPacket packet
packet-IsPacket = record {
  fields = packet-IsIp;
  src_bytes = omega arith;
  dst_bytes = omega arith;
  payload_bytes = omega arith;
  object = omega arith;
}

abbrev blank : RawHeader
blank = record {
  version_ihl = 0;
  dscp_ecn = 0;
  total_length = 0;
  identification = 0;
  flags_fragment_offset = 0;
  ttl = 0;
  protocol = 0;
  header_checksum = 0;
  src = [];
  dst = [];
}

abbrev start : ByteOStream
start = new_ostream (replicate 30 0)

header_round_trip_example :
    (Ip.unpack direction_in
        (Ip.read_header blank (Ip.try_to_stream packet start).content new_istream).0
        (7 ∷ 8 ∷ 9 ∷ [])
      ≡ packet)
    × ((Ip.read_header blank (Ip.try_to_stream packet start).content new_istream).1
        ≡ skip 20 new_istream)
    × (Ip.try_from_stream direction_in blank [] (Ip.try_to_stream packet start).content new_istream
        ≡ aborts)
header_round_trip_example =
    IpCodec.header_round_trip packet packet-IsIp blank [] start new_istream
      (record { object = omega arith; room = omega arith }) refl

response_verifies_example :
    (r : Ip direction_out) × (Ip.clone_as_response (5 ∷ []) 64 packet ≡ returns r)
    × (r.src ≡ 10 ∷ 0 ∷ 0 ∷ 1 ∷ [])
    × (r.dst ≡ 10 ∷ 0 ∷ 0 ∷ 9 ∷ [])
    × (r.ttl ≡ 64)
    × (r.payload ≡ 5 ∷ [])
    × (of_span (IpCodec.wire r ++ padding (IpCodec.wire r)) ≡ returns 0)
response_verifies_example =
    IpResponse.response_verifies (5 ∷ []) 64 packet packet-IsPacket (omega arith) (omega arith)
      (omega arith)

response_header_verifies_iff_example :
    (r : Ip direction_out) × (Ip.clone_as_response (5 ∷ []) 64 packet ≡ returns r)
    × ((of_span (IpCodec.header_wire r) ≡ returns 0) ↔ (word_total (5 ∷ 0 ∷ []) % 0xffff ≡ 0))
response_header_verifies_iff_example =
    IpResponse.response_header_verifies_iff (5 ∷ []) 64 packet packet-IsPacket (omega arith)
      (omega arith) (omega arith) (omega arith)

abbrev ping : Icmp direction_in
ping = record { type = 8; code = 0; checksum = 0; rest = 1 ∷ 2 ∷ 3 ∷ 4 ∷ []; payload = 9 ∷ [] }

ping-IsIcmp : IcmpCodec.IsIcmp ping
ping-IsIcmp = record {
  type_fits = omega arith;
  code_fits = omega arith;
  checksum_fits = omega arith;
  rest_length = refl;
  rest_bytes = omega arith;
  payload_bytes = omega arith;
  object = omega arith;
}

echo_response_example :
    (◌≡◌ {A = ℕ} 8 8
      → (r : Icmp direction_out) × (Icmp.clone_as_echo_response ping ≡ returns r)
        × (r.type ≡ 0)
        × (r.code ≡ 0)
        × (r.rest ≡ 1 ∷ 2 ∷ 3 ∷ 4 ∷ [])
        × (r.payload ≡ 9 ∷ [])
        × (of_span (IcmpCodec.wire r ++ padding (IcmpCodec.wire r)) ≡ returns 0))
    × (◌≢◌ {A = ℕ} 8 8 → Icmp.clone_as_echo_response ping ≡ aborts)
echo_response_example = IcmpCodec.clone_as_echo_response_lem ping ping-IsIcmp

abbrev mac : List ℕ
mac = 2 ∷ 0 ∷ 0 ∷ 0 ∷ 0 ∷ 7 ∷ []

abbrev frame : EthernetFrame direction_out
frame = record { dst = mac; src = mac; ethertype = 0x0800; payload = 1 ∷ 2 ∷ 3 ∷ [] }

frame-IsFrame : EthernetCodec.IsFrame frame
frame-IsFrame = record {
  dst_mac = refl;
  src_mac = refl;
  ethertype_fits = omega arith;
  object = omega arith;
}

abbrev device : Device
device = record { own_mac = mac; own_ip = 10 ∷ 0 ∷ 0 ∷ 1 ∷ []; maximum_transmission_unit = 16 }

write_eth_example :
    write_eth device frame
    ≡ (if leb (14 + 3) 16 then EthernetCodec.wire frame else EthernetCodec.header_wire frame)
write_eth_example = write_eth_lem device frame frame-IsFrame (omega arith) (omega arith)
