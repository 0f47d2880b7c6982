-- ===== src/Nic/Ip/Codec.antt =====
-- The wire format of include/nic/ipv4.hpp: writing a packet, reading its header back, and what the
-- parser does with the payload.
use toad_jawbreaker.Prelude.{
  ℕ, ◌+◌, ◌*◌, ◌/◌, ◌%◌, ◌^◌, ◌<◌, ◌≡◌, refl, sym, ap, List, [], ◌∷◌, ◌++◌, length, arith,
  length-append, aborts, append-nil, append_assoc, bit_and, bit_or,
}
use toad_jawbreaker.Prelude.Bits.{u8, bit_or_shifted, bit_and_ones}
use toad_jawbreaker.Bytes.Stream.{ByteIStream, ByteOStream, write_u8, read_buffer}
use toad_jawbreaker.Bytes.Stream.Reading.{
  Reads, Reads-bind, Reads-pure, Reads-u8, Reads-u16, Reads-array, be16, skip,
}
use toad_jawbreaker.Bytes.Stream.Writing.{
  Room, Writes, Writes-seq, Writes-byte, Writes-u16, Writes-array, Writes-buffer,
}
use toad_jawbreaker.Bytes.Stream.RoundTrip.{Reads-Writes_front}
use toad_jawbreaker.Nic.Typestate.{TypestateDirection}
use toad_jawbreaker.Nic.Ip.{Ip, RawHeader, read_header, unpack, try_from_stream, try_to_stream}
use mathlib.Core.Path.{subst}

-- Every field fits the bits that the format gives it.
pub record IsIp {d : TypestateDirection} (p : Ip d) : Type 0 where
  pub version_fits : p.version < 16
  pub ihl_fits : p.ihl < 16
  pub dscp_fits : p.dscp < 64
  pub ecn_fits : p.ecn < 4
  pub total_length_fits : p.total_length < 2 ^ 16
  pub identification_fits : p.identification < 2 ^ 16
  pub flags_fits : p.flags < 8
  pub fragment_offset_fits : p.fragment_offset < 2 ^ 13
  pub ttl_fits : p.ttl < 256
  pub protocol_fits : p.protocol < 256
  pub checksum_fits : p.header_checksum < 2 ^ 16
  pub src_length : length p.src ≡ 4
  pub dst_length : length p.dst ≡ 4

-- The header's variables when it is parsed, as arithmetic on the fields.
abbrev pub raw_of : {d : TypestateDirection} → Ip d → RawHeader
raw_of p = record {
  version_ihl = p.version * 16 + p.ihl;
  dscp_ecn = p.dscp * 4 + p.ecn;
  total_length = p.total_length;
  identification = p.identification;
  flags_fragment_offset = p.flags * 2 ^ 13 + p.fragment_offset;
  ttl = p.ttl;
  protocol = p.protocol;
  header_checksum = p.header_checksum;
  src = p.src;
  dst = p.dst;
}

-- The header up to the checksum, the addresses, and the whole packet.
abbrev pub front : {d : TypestateDirection} → Ip d → List ℕ
front p =
    (p.version * 16 + p.ihl)
    ∷ (p.dscp * 4 + p.ecn)
    ∷ (be16 p.total_length
        ++ (be16 p.identification
            ++ (be16 (p.flags * 2 ^ 13 + p.fragment_offset) ++ (p.ttl ∷ p.protocol ∷ []))))

abbrev pub wire : {d : TypestateDirection} → Ip d → List ℕ
wire p = front p ++ (be16 p.header_checksum ++ (p.src ++ (p.dst ++ p.payload)))

abbrev pub header_wire : {d : TypestateDirection} → Ip d → List ℕ
header_wire p =
    ((p.version * 16 + p.ihl) ∷ [])
    ++ (((p.dscp * 4 + p.ecn) ∷ [])
        ++ (be16 p.total_length
            ++ (be16 p.identification
                ++ (be16 (p.flags * 2 ^ 13 + p.fragment_offset)
                    ++ (p.ttl ∷ []
                        ++ (p.protocol ∷ []
                            ++ (be16 p.header_checksum ++ (p.src ++ (p.dst ++ [])))))))))

pub read_header-wire :
    {d : TypestateDirection} (raw : RawHeader) (p : Ip d)
    → IsIp p
    → Reads (read_header raw) (header_wire p) (raw_of p)
unfolding read_header
read_header-wire raw p h = Reads-bind _ (Reads-u8 raw.version_ihl _) (
    Reads-bind _ (Reads-u8 raw.dscp_ecn _) (
      Reads-bind _ (Reads-u16 raw.total_length _ h.total_length_fits) (
        Reads-bind _ (Reads-u16 raw.identification _ h.identification_fits) (
          Reads-bind _
            (Reads-u16 raw.flags_fragment_offset _
              (omega (arith, h.flags_fits, h.fragment_offset_fits)))
            (Reads-bind _ (Reads-u8 raw.ttl _) (
              Reads-bind _ (Reads-u8 raw.protocol _) (
                Reads-bind _ (Reads-u16 raw.header_checksum _ h.checksum_fits) (
                  Reads-bind _ (Reads-array 4 raw.src _ h.src_length)
                    (Reads-bind _ (Reads-array 4 raw.dst _ h.dst_length) (Reads-pure _))))))))))

-- A byte written from an expression of the code that is worth `v`.
Writes-byte_of : (e v : ℕ) → e ≡ v → v < 256 → Writes (write_u8 e) (v ∷ [])
Writes-byte_of e v q small =
    subst (λ (k : ℕ). Writes (write_u8 k) (v ∷ [])) (sym q) (Writes-byte v small)

module _ {d : TypestateDirection} (p : Ip d) (h : IsIp p) where
  pack_first : bit_or (p.version * 2 ^ 4) p.ihl ≡ p.version * 16 + p.ihl
  pack_first = bit_or_shifted 4 p.version p.ihl h.ihl_fits

  pack_second : bit_or (p.dscp * 2 ^ 2) p.ecn ≡ p.dscp * 4 + p.ecn
  pack_second = bit_or_shifted 2 p.dscp p.ecn h.ecn_fits

  abbrev fragment_word : ℕ
  fragment_word = p.flags * 2 ^ 13 + p.fragment_offset

  pack_high :
      u8 (bit_or (p.flags * 2 ^ 5) (bit_and (p.fragment_offset / 2 ^ 8) 0x1f)) ≡ fragment_word / 256
  pack_high = rw (bit_and_ones 5 (p.fragment_offset / 2 ^ 8) 0x1f refl) (
      rw (bit_or_shifted 5 p.flags (p.fragment_offset / 2 ^ 8 % 2 ^ 5) (omega arith))
        (omega (arith, h.flags_fits, h.fragment_offset_fits)))

  pack_low : u8 (bit_and p.fragment_offset 0xff) ≡ fragment_word % 256
  pack_low =
      rw (bit_and_ones 8 p.fragment_offset 0xff refl)
        (omega (arith, h.flags_fits, h.fragment_offset_fits))

  pub try_to_stream-wire : Writes (try_to_stream p) (wire p)
  unfolding try_to_stream
  try_to_stream-wire = subst (Writes (try_to_stream p)) (simp append_assoc) (
      Writes-seq
        (Writes-seq
          (Writes-seq
            (Writes-seq
              (Writes-seq
                (Writes-seq
                  (Writes-seq
                    (Writes-seq
                      (Writes-seq
                        (Writes-seq
                          (Writes-seq
                            (Writes-byte_of _ _ pack_first
                              (omega (arith, h.version_fits, h.ihl_fits)))
                            (Writes-byte_of _ _ pack_second
                              (omega (arith, h.dscp_fits, h.ecn_fits))))
                          (Writes-u16 _ h.total_length_fits))
                        (Writes-u16 _ h.identification_fits))
                      (Writes-byte_of _ _ pack_high
                        (omega (arith, h.flags_fits, h.fragment_offset_fits))))
                    (Writes-byte_of _ _ pack_low (omega arith)))
                  (Writes-byte _ h.ttl_fits))
                (Writes-byte _ h.protocol_fits))
              (Writes-u16 _ h.checksum_fits))
            (Writes-array p.src))
          (Writes-array p.dst))
        (Writes-buffer p.payload))

  -- The parser's assignments give the fields back.
  pub unpack-raw_of : unpack d (raw_of p) p.payload ≡ p
  unfolding unpack
  unpack-raw_of = ground (
    arith,
    bit_and_ones 4 ((p.version * 16 + p.ihl) / 2 ^ 4) 0xf refl,
    bit_and_ones 4 (p.version * 16 + p.ihl) 0xf refl,
    bit_and_ones 6 ((p.dscp * 4 + p.ecn) / 2 ^ 2) 0b111111 refl,
    bit_and_ones 2 (p.dscp * 4 + p.ecn) 0b11 refl,
    bit_and_ones 3 (fragment_word / 2 ^ 13) 0b111 refl,
    bit_and_ones 13 fragment_word 0x1fff refl,
    h.version_fits,
    h.ihl_fits,
    h.dscp_fits,
    h.ecn_fits,
    h.flags_fits,
    h.fragment_offset_fits,
  )

  pub length-wire : length (wire p) ≡ 20 + length p.payload
  length-wire = omega (
    arith,
    length-append p.src (p.dst ++ p.payload),
    length-append p.dst p.payload,
    h.src_length,
    h.dst_length,
  )

  pub header_wire-payload : header_wire p ++ p.payload ≡ wire p
  header_wire-payload = simp (append_assoc, append-nil)

  pub length-header_wire : length (header_wire p) ≡ 20
  length-header_wire =
      omega (
        arith,
        length-append p.src (p.dst ++ []),
        length-append p.dst [],
        h.src_length,
        h.dst_length,
      )

  -- A packet whose fields fit the format is written as 20 bytes of header and the payload; the
  -- header that is read back has every field as it was, and takes 20 bytes. Yet the parser, which
  -- goes on to read the payload, aborts.
  pub header_round_trip :
      (raw : RawHeader) (old : List ℕ) (s : ByteOStream) (i : ByteIStream)
      → Room (20 + length p.payload) s
      → i.cursor ≡ s.cursor
      → (unpack d (read_header raw (try_to_stream p s).content i).0 p.payload ≡ p)
        × ((read_header raw (try_to_stream p s).content i).1 ≡ skip 20 i)
        × (try_from_stream d raw old (try_to_stream p s).content i ≡ aborts)
  unfolding try_from_stream read_buffer
  header_round_trip raw old s i room e =
      let back : read_header raw (try_to_stream p s).content i
          ≡ (raw_of p, skip (length (header_wire p)) i) =
        Reads-Writes_front p.payload (read_header-wire raw p h)
          (subst (Writes (try_to_stream p)) (sym header_wire-payload) try_to_stream-wire) s i
          (record {
            object = room.object;
            room = omega (arith, ap length header_wire-payload, length-wire, room.room);
          })
          e in
      (rw back unpack-raw_of, rw back (ap (λ (k : ℕ). skip k i) length-header_wire), refl)
