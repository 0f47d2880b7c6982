-- ===== src/Nic/Icmp/Codec.antt =====
-- The wire format of include/nic/icmp.hpp, and the echo response with its checksum.
use toad_jawbreaker.Prelude.{
  All-append, ℕ, ◌+◌, ◌-◌, ◌%◌, ◌^◌, ◌≤◌, ◌<◌, ◌≡◌, refl, sym, ap, ◌∙◌, List, [], ◌∷◌, ◌++◌, length,
  set, arith, length-append, returns, aborts, append-nil, append_assoc, All, replicate, ◌==◌, ◌≢◌,
  true, false, length-replicate,
}
use toad_jawbreaker.Bytes.Stream.{ByteIStream, ByteOStream, read_buffer}
use toad_jawbreaker.Bytes.Stream.Reading.{
  Reads, Reads-bind, Reads-pure, Reads-u8, Reads-u16, Reads-array, be16, skip,
}
use toad_jawbreaker.Bytes.Stream.Writing.{
  Room, Writes, Writes-seq, Writes-byte, Writes-u16, Writes-array, Writes-buffer,
}
use toad_jawbreaker.Bytes.Stream.RoundTrip.{Reads-Writes_front}
use toad_jawbreaker.Nic.Typestate.{TypestateDirection, reverse_direction}
use toad_jawbreaker.Nic.Checksum.{of_span}
use toad_jawbreaker.Nic.Checksum.Sum.{IsByte, ones, word_total, of_span_sum, of_span_verifies}
use toad_jawbreaker.Nic.Padding.{padding, content-padded, padding-IsByte}
use toad_jawbreaker.Nic.Icmp.{
  Icmp, echo_reply, echo_request, read_header, try_to_stream, try_from_stream, buffer_size,
  calculate_checksum, clone_as_echo_response,
}
use mathlib.Core.Path.{subst}

-- What the types of the fields say of a packet that is an object in memory.
pub record IsIcmp {d : TypestateDirection} (p : Icmp d) : Type 0 where
  pub type_fits : p.type < 256
  pub code_fits : p.code < 256
  pub checksum_fits : p.checksum < 2 ^ 16
  pub rest_length : length p.rest ≡ 4
  pub rest_bytes : All IsByte p.rest
  pub payload_bytes : All IsByte p.payload
  pub object : length p.payload < 2 ^ 61

abbrev pub header_wire : {d : TypestateDirection} → Icmp d → List ℕ
header_wire p = (p.type ∷ []) ++ ((p.code ∷ []) ++ (be16 p.checksum ++ (p.rest ++ [])))

abbrev pub wire : {d : TypestateDirection} → Icmp d → List ℕ
wire p = p.type ∷ p.code ∷ (be16 p.checksum ++ (p.rest ++ p.payload))

-- What follows the checksum, with the zero that pads an odd payload.
abbrev back : {d : TypestateDirection} → Icmp d → List ℕ
back p = p.rest ++ (p.payload ++ padding p.payload)

abbrev packet_with : {d : TypestateDirection} → ℕ → Icmp d → List ℕ
packet_with c p = (p.type ∷ p.code ∷ []) ++ (be16 c ++ back p)

module _ {d : TypestateDirection} (p : Icmp d) (h : IsIcmp p) where
  pub try_to_stream-wire : Writes (try_to_stream p) (wire p)
  unfolding try_to_stream
  try_to_stream-wire = subst (Writes (try_to_stream p)) (simp append_assoc) (
      Writes-seq
        (Writes-seq
          (Writes-seq (Writes-seq (Writes-byte _ h.type_fits) (Writes-byte _ h.code_fits))
            (Writes-u16 _ h.checksum_fits))
          (Writes-array p.rest))
        (Writes-buffer p.payload))

  read_header-wire :
      (ret : Icmp d) → Reads (read_header ret) (header_wire p) (record p { payload = ret.payload })
  unfolding read_header
  read_header-wire ret = Reads-bind _ (Reads-u8 ret.type _) (
      Reads-bind _ (Reads-u8 ret.code _) (
        Reads-bind _ (Reads-u16 ret.checksum _ h.checksum_fits)
          (Reads-bind _ (Reads-array 4 ret.rest _ h.rest_length) (Reads-pure _))))

  pub length-wire : length (wire p) ≡ 8 + length p.payload
  length-wire = omega (arith, length-append p.rest p.payload, h.rest_length)

  header_wire-payload : header_wire p ++ p.payload ≡ wire p
  header_wire-payload = simp append-nil

  -- A packet is written as 8 bytes of header and the payload; the header that is read back has
  -- every field as it was, and takes 8 bytes. Yet the parser, which goes on to read the payload,
  -- aborts.
  pub icmp_header_round_trip :
      (ret : Icmp d) (s : ByteOStream) (i : ByteIStream)
      → Room (8 + length p.payload) s
      → i.cursor ≡ s.cursor
      → (read_header ret (try_to_stream p s).content i
          ≡ (record p { payload = ret.payload }, skip 8 i))
        × (try_from_stream ret (try_to_stream p s).content i ≡ aborts)
  unfolding try_from_stream read_buffer
  icmp_header_round_trip ret s i room e = (
    Reads-Writes_front p.payload (read_header-wire ret)
          (subst (Writes (try_to_stream p)) (sym header_wire-payload) try_to_stream-wire) s i
          (record {
            object = room.object;
            room = omega (arith, ap length header_wire-payload, length-wire, room.room);
          })
          e
        ∙ ap (λ (k : ℕ). (record p { payload = ret.payload }, skip k i))
            {x = length (header_wire p)} {y = 8}
            (omega (arith, length-append p.rest [], h.rest_length)),
    refl,
  )

  padding-wire : wire p ++ padding (wire p) ≡ packet_with p.checksum p
  padding-wire =
      ap (λ (k : ℕ). wire p ++ replicate k 0) {x = length (wire p) % 2} {y = length p.payload % 2}
        (omega (arith, length-wire))
      ∙ simp append_assoc

  checksum_of_zeroed : calculate_checksum p ≡ of_span ((p.type ∷ p.code ∷ []) ++ (0 ∷ 0 ∷ back p))
  unfolding calculate_checksum
  checksum_of_zeroed =
      rw
        (content-padded (buffer_size p) try_to_stream-wire (omega (arith, length-wire, h.object))
          (omega (arith, h.object)))
        (ap (λ l. of_span (set (set l 2 0) 3 0)) padding-wire)

  back-IsByte : All IsByte (back p)
  back-IsByte =
      All-append IsByte p.rest _ h.rest_bytes
        (All-append IsByte p.payload _ h.payload_bytes (padding-IsByte p.payload))

  -- The checksum is there, and the packet that carries it has the checksum 0.
  calculate_checksum_lem :
      (c : ℕ) × (calculate_checksum p ≡ returns c)
      × (c ≤ 0xffff)
      × (of_span (packet_with c p) ≡ returns 0)
  calculate_checksum_lem =
      let sized : length (back p) ≡ 4 + length p.payload + length p.payload % 2 = omega (
        arith,
        length-append p.rest (p.payload ++ padding p.payload),
        length-append p.payload (padding p.payload),
        length-replicate {A = ℕ} (length p.payload % 2) 0,
        h.rest_length,
      ) in
      let front_bytes : All IsByte (p.type ∷ p.code ∷ []) = (h.type_fits, (h.code_fits, tt)) in
      let spec =
        of_span_sum ((p.type ∷ p.code ∷ []) ++ (0 ∷ 0 ∷ back p))
          (All-append IsByte (p.type ∷ p.code ∷ []) (0 ∷ 0 ∷ back p) front_bytes
            (omega arith, (omega arith, back-IsByte)))
          (omega (arith, sized)) (omega (arith, sized)) in
      let c = 0xffff - ones (word_total ((p.type ∷ p.code ∷ []) ++ (0 ∷ 0 ∷ back p))) in
      (
        c,
        checksum_of_zeroed ∙ spec,
        omega arith,
        of_span_verifies (p.type ∷ p.code ∷ []) (back p) c front_bytes back-IsByte refl spec,
      )

-- A reply is made of every echo request: it has the code, the rest and the payload of the request,
-- and, padded to even size, the checksum 0. Of any other packet none is made: the process aborts.
pub clone_as_echo_response_lem :
    {d : TypestateDirection} (p : Icmp d)
    → IsIcmp p
    → (p.type ≡ echo_request
        → (r : Icmp (reverse_direction d)) × (clone_as_echo_response p ≡ returns r)
          × (r.type ≡ echo_reply)
          × (r.code ≡ p.code)
          × (r.rest ≡ p.rest)
          × (r.payload ≡ p.payload)
          × (of_span (wire r ++ padding (wire r)) ≡ returns 0))
      × (p.type ≢ echo_request → clone_as_echo_response p ≡ aborts)
unfolding clone_as_echo_response
clone_as_echo_response_lem {d} p h = (
  λ request.
      let (c, made, fits, sums) = calculate_checksum_lem reply reply-IsIcmp in
      let r : Icmp (reverse_direction d) = record reply { checksum = c } in
      (
        r,
        rw (request_test request) (rw made),
        refl,
        refl,
        refl,
        refl,
        rw (padding-wire r (with_checksum c (omega arith))) sums,
      ),
  λ other. rw (other_test other),
)
  where
    reply : Icmp (reverse_direction d)
    reply = record {
      type = echo_reply;
      code = p.code;
      checksum = p.checksum;
      rest = p.rest;
      payload = p.payload;
    }

    with_checksum : (c : ℕ) → c < 2 ^ 16 → IsIcmp (record reply { checksum = c })
    with_checksum c small = record {
      type_fits = omega arith;
      code_fits = h.code_fits;
      checksum_fits = small;
      rest_length = h.rest_length;
      rest_bytes = h.rest_bytes;
      payload_bytes = h.payload_bytes;
      object = h.object;
    }

    reply-IsIcmp : IsIcmp reply
    reply-IsIcmp = with_checksum p.checksum h.checksum_fits

    request_test : p.type ≡ 8 → (p.type == 8) ≡ true
    request_test e = ground arith

    other_test : p.type ≢ 8 → (p.type == 8) ≡ false
    other_test e = ground arith
