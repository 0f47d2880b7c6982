-- ===== src/Nic/Packet/Types.antt =====
-- The packets of include/nic: the types for which ethernet.hpp, ipv4.hpp and icmp.hpp assert that they
-- are packets.
use toad_jawbreaker.Prelude.{◌^◌, ◌<◌, refl, length, length-append, arith}
use toad_jawbreaker.Nic.Typestate.{TypestateDirection}
use toad_jawbreaker.Nic.Ethernet as Ethernet
use toad_jawbreaker.Nic.Ethernet.{EthernetFrame}
use toad_jawbreaker.Nic.Ethernet.Codec as EthernetCodec
use toad_jawbreaker.Nic.Ip as Ip
use toad_jawbreaker.Nic.Ip.{Ip, RawHeader}
use toad_jawbreaker.Nic.Ip.Codec as IpCodec
use toad_jawbreaker.Nic.Icmp as Icmp
use toad_jawbreaker.Nic.Icmp.{Icmp}
use toad_jawbreaker.Nic.Icmp.Codec as IcmpCodec
use toad_jawbreaker.Nic.Packet.{Packet, IsSized}

module _ {d : TypestateDirection} where
  abbrev pub ethernet_packet : Packet (EthernetFrame d)
  ethernet_packet = record {
    try_to_stream = Ethernet.try_to_stream;
    try_from_stream = Ethernet.try_from_stream;
    header_size = Ethernet.header_size;
    header_dynamic_size = λ f. 0;
    payload_size = λ f. length f.payload;
    size = Ethernet.size;
  }

  pub ethernet_packet-IsSized : IsSized ethernet_packet EthernetCodec.IsFrame EthernetCodec.wire
  ethernet_packet-IsSized = record {
    writes = λ f h. EthernetCodec.try_to_stream-wire f h;
    length-wire = λ f h. omega (
      arith,
      h.object,
      length-append (EthernetCodec.header_wire f) f.payload,
      EthernetCodec.length-header_wire f h,
    );
    sum = λ f. refl;
  }

  -- `raw` is what the header's variables hold before they are read.
  abbrev pub ip_packet : RawHeader → Packet (Ip d)
  ip_packet raw = record {
    try_to_stream = Ip.try_to_stream;
    try_from_stream = λ ret. Ip.try_from_stream d raw ret.payload;
    header_size = 20;
    header_dynamic_size = λ p. 0;
    payload_size = λ p. length p.payload;
    size = Ip.size;
  }

  abbrev pub IsIpObject : Ip d → Type 0
  IsIpObject p = IpCodec.IsIp p × (length p.payload < 2 ^ 62)

  pub ip_packet-IsSized : (raw : RawHeader) → IsSized (ip_packet raw) IsIpObject IpCodec.wire
  ip_packet-IsSized raw = record {
    writes = λ p h. IpCodec.try_to_stream-wire p h.0;
    length-wire = λ p h. omega (arith, h.1, IpCodec.length-wire p h.0);
    sum = λ p. refl;
  }

  abbrev pub icmp_packet : Packet (Icmp d)
  icmp_packet = record {
    try_to_stream = Icmp.try_to_stream;
    try_from_stream = Icmp.try_from_stream;
    header_size = 8;
    header_dynamic_size = λ p. 0;
    payload_size = λ p. length p.payload;
    size = Icmp.size;
  }

  pub icmp_packet-IsSized : IsSized icmp_packet IcmpCodec.IsIcmp IcmpCodec.wire
  icmp_packet-IsSized = record {
    writes = λ p h. IcmpCodec.try_to_stream-wire p h;
    length-wire = λ p h. omega (arith, h.object, IcmpCodec.length-wire p h);
    sum = λ p. refl;
  }
