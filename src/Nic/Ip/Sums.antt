-- ===== src/Nic/Ip/Sums.antt =====
-- The checksum of an IPv4 packet, `calculate_checksum` of include/nic/ipv4.hpp, and of its response.
use toad_jawbreaker.Prelude.{
  All-append, ℕ, ◌+◌, ◌-◌, ◌%◌, ◌^◌, ◌≤◌, ◌<◌, ◌≡◌, refl, ap, ◌∙◌, List, ◌∷◌, ◌++◌, length, arith,
  set, length-append, returns, append_assoc, All, replicate, length-replicate,
}
use toad_jawbreaker.Bytes.Stream.Reading.{be16}
use toad_jawbreaker.Nic.Typestate.{TypestateDirection}
use toad_jawbreaker.Nic.Checksum.{of_span}
use toad_jawbreaker.Nic.Checksum.Sum.{IsByte, ones, word_total, of_span_sum, of_span_verifies}
use toad_jawbreaker.Nic.Padding.{padding, content-padded, padding-IsByte}
use toad_jawbreaker.Nic.Ip.{Ip, calculate_checksum, prepare_response, buffer_size}
use toad_jawbreaker.Nic.Ip.Codec.{IsIp, front, wire, try_to_stream-wire, length-wire}

-- The addresses and the payload are bytes, and the packet is an object in memory.
pub record IsPacket {d : TypestateDirection} (p : Ip d) : Type 0 where
  pub fields : IsIp p
  pub src_bytes : All IsByte p.src
  pub dst_bytes : All IsByte p.dst
  pub payload_bytes : All IsByte p.payload
  pub object : length p.payload < 2 ^ 61

-- What follows the checksum, with the zero that pads an odd payload.
abbrev pub back : {d : TypestateDirection} → Ip d → List ℕ
back p = p.src ++ (p.dst ++ (p.payload ++ padding p.payload))

-- The packet as the checksum sees it, with `c` in the place of the checksum.
abbrev pub packet_with : {d : TypestateDirection} → ℕ → Ip d → List ℕ
packet_with c p = front p ++ (be16 c ++ back p)

back-IsByte : {d : TypestateDirection} (p : Ip d) → IsPacket p → All IsByte (back p)
back-IsByte p h = All-append IsByte p.src _ h.src_bytes (
    All-append IsByte p.dst _ h.dst_bytes
      (All-append IsByte p.payload _ h.payload_bytes (padding-IsByte p.payload)))

module _ {d : TypestateDirection} (p : Ip d) (h : IsPacket p) where
  pub front-IsByte : All IsByte (front p)
  front-IsByte =
      let f = h.fields in
      (
        omega (arith, f.version_fits, f.ihl_fits),
        (
          omega (arith, f.dscp_fits, f.ecn_fits),
          (
            omega (arith, f.total_length_fits),
            (
              omega arith,
              (
                omega (arith, f.identification_fits),
                (
                  omega arith,
                  (
                    omega (arith, f.flags_fits, f.fragment_offset_fits),
                    (omega arith, (f.ttl_fits, (f.protocol_fits, tt))),
                  ),
                ),
              ),
            ),
          ),
        ),
      )

  pub padding-wire : wire p ++ padding (wire p) ≡ packet_with p.header_checksum p
  padding-wire =
      ap (λ (k : ℕ). wire p ++ replicate k 0) {x = length (wire p) % 2} {y = length p.payload % 2}
        (omega (arith, length-wire p h.fields))
      ∙ simp append_assoc

  checksum_of_zeroed : calculate_checksum p ≡ of_span (front p ++ (0 ∷ 0 ∷ back p))
  unfolding calculate_checksum
  checksum_of_zeroed =
      rw
        (content-padded (buffer_size p) (try_to_stream-wire p h.fields)
          (omega (arith, length-wire p h.fields, h.object)) (omega (arith, h.object)))
        (ap (λ l. of_span (set (set l 10 0) 11 0)) padding-wire)

pub with_checksum :
    {d : TypestateDirection} (p : Ip d) (c : ℕ)
    → IsPacket p
    → c < 2 ^ 16
    → IsPacket (record p { header_checksum = c })
with_checksum p c h small =
    let f = h.fields in
    record {
      fields = record {
        version_fits = f.version_fits;
        ihl_fits = f.ihl_fits;
        dscp_fits = f.dscp_fits;
        ecn_fits = f.ecn_fits;
        total_length_fits = f.total_length_fits;
        identification_fits = f.identification_fits;
        flags_fits = f.flags_fits;
        fragment_offset_fits = f.fragment_offset_fits;
        ttl_fits = f.ttl_fits;
        protocol_fits = f.protocol_fits;
        checksum_fits = small;
        src_length = f.src_length;
        dst_length = f.dst_length;
      };
      src_bytes = h.src_bytes;
      dst_bytes = h.dst_bytes;
      payload_bytes = h.payload_bytes;
      object = h.object;
    }

pub prepare_response-IsPacket :
    {d : TypestateDirection} (payload : List ℕ) (ttl : ℕ) (p : Ip d)
    → IsPacket p
    → ttl < 256
    → All IsByte payload
    → length payload < 2 ^ 61
    → IsPacket (prepare_response payload ttl p)
unfolding prepare_response
prepare_response-IsPacket payload ttl p h ht hb small =
    let f = h.fields in
    record {
      fields = record {
        version_fits = f.version_fits;
        ihl_fits = f.ihl_fits;
        dscp_fits = f.dscp_fits;
        ecn_fits = f.ecn_fits;
        total_length_fits = omega arith;
        identification_fits = f.identification_fits;
        flags_fits = f.flags_fits;
        fragment_offset_fits = f.fragment_offset_fits;
        ttl_fits = ht;
        protocol_fits = f.protocol_fits;
        checksum_fits = f.checksum_fits;
        src_length = f.dst_length;
        dst_length = f.src_length;
      };
      src_bytes = h.dst_bytes;
      dst_bytes = h.src_bytes;
      payload_bytes = hb;
      object = small;
    }

-- The checksum of a packet that is an object in memory is there, and the packet that carries it
-- has the checksum 0.
pub calculate_checksum_lem :
    {d : TypestateDirection} (p : Ip d)
    → IsPacket p
    → (c : ℕ) × (calculate_checksum p ≡ returns c)
      × (c ≤ 0xffff)
      × (of_span (packet_with c p) ≡ returns 0)
calculate_checksum_lem p h =
    let spec = of_span_sum zeroed zeroed_bytes (omega (arith, sized)) (omega (arith, sized)) in
    let c = 0xffff - ones (word_total zeroed) in
    (
      c,
      checksum_of_zeroed p h ∙ spec,
      omega arith,
      of_span_verifies (front p) (back p) c (front-IsByte p h) (back-IsByte p h) refl spec,
    )
  where
    zeroed : List ℕ
    zeroed = front p ++ (0 ∷ 0 ∷ back p)

    zeroed_bytes : All IsByte zeroed
    zeroed_bytes =
        All-append IsByte (front p) (0 ∷ 0 ∷ back p) (front-IsByte p h)
          (omega arith, (omega arith, back-IsByte p h))

    sized : length zeroed ≡ 20 + length p.payload + length p.payload % 2
    sized = omega (
      arith,
      length-append p.src (p.dst ++ (p.payload ++ padding p.payload)),
      length-append p.dst (p.payload ++ padding p.payload),
      length-append p.payload (padding p.payload),
      length-replicate {A = ℕ} (length p.payload % 2) 0,
      h.fields.src_length,
      h.fields.dst_length,
    )
