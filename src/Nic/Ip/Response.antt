-- ===== src/Nic/Ip/Response.antt =====
-- `clone_as_response` and `calculate_checksum` of include/nic/ipv4.hpp.
use toad_jawbreaker.Prelude.{
  All-append, returns-injective, ℕ, ◌+◌, ◌-◌, ◌%◌, ◌^◌, ◌<◌, ◌≡◌, refl, ap, ◌∙◌, ◌↔◌, List, [],
  ◌++◌, length, arith, length-append, returns, append-nil, append_assoc, All, length-replicate,
}
use toad_jawbreaker.Bytes.Stream.Reading.{be16}
use toad_jawbreaker.Nic.Typestate.{TypestateDirection, reverse_direction}
use toad_jawbreaker.Nic.Checksum.{of_span}
use toad_jawbreaker.Nic.Checksum.Sum.{IsByte, ones, word_total, of_span_sum, word_total-append}
use toad_jawbreaker.Nic.Padding.{padding, padding-IsByte}
use toad_jawbreaker.Nic.Ip.{Ip, prepare_response, clone_as_response}
use toad_jawbreaker.Nic.Ip.Sums.{
  IsPacket, packet_with, padding-wire, with_checksum, prepare_response-IsPacket,
  calculate_checksum_lem, front-IsByte,
}
use toad_jawbreaker.Nic.Ip.Codec.{front, wire, header_wire, length-wire, length-header_wire}

-- Two parts of a total whose ones' complement is all ones.
sum_rest_zero : (a b u : ℕ) → u ≡ a + b → 0 ≡ 0xffff - ones u → 0 ≡ 0xffff - ones a → b % 0xffff ≡ 0
sum_rest_zero a b u e whole part = ground arith

sum_front_zero :
    (a b u : ℕ) → 0 < a → u ≡ a + b → 0 ≡ 0xffff - ones u → b % 0xffff ≡ 0 → 0xffff - ones a ≡ 0
sum_front_zero a b u some e whole part = ground arith

-- For a packet whose padded whole has the checksum 0, the same of the header alone.
header_sum_iff :
    {d : TypestateDirection} (r : Ip d)
    → IsPacket r
    → 0 < r.version
    → of_span (packet_with r.header_checksum r) ≡ returns 0
    → (of_span (header_wire r) ≡ returns 0)
      ↔ (word_total (r.payload ++ padding r.payload) % 0xffff ≡ 0)
header_sum_iff r h v whole =
    let head_spec =
      of_span_sum (header_wire r) head_bytes (omega (arith, length-header_wire r h.fields))
        (omega (arith, length-header_wire r h.fields)) in
    let total =
      word_total-append (header_wire r) tail (omega (arith, length-header_wire r h.fields)) in
    let whole_sum : 0 ≡ 0xffff - ones (word_total (header_wire r ++ tail)) =
      returns-injective (rw (← split) at whole) (
        of_span_sum (header_wire r ++ tail)
          (All-append IsByte (header_wire r) tail head_bytes tail_bytes) (omega (arith, sized))
          (omega (arith, sized))) in
    (
      λ e.
          sum_rest_zero (word_total (header_wire r)) (word_total tail) _ total whole_sum
            (returns-injective e head_spec),
      λ e.
          head_spec
          ∙ ap returns (
              sum_front_zero (word_total (header_wire r)) (word_total tail) _ (omega arith) total
                whole_sum e),
    )
  where
    tail : List ℕ
    tail = r.payload ++ padding r.payload

    split : header_wire r ++ tail ≡ packet_with r.header_checksum r
    split = simp (append_assoc, append-nil)

    tail_bytes : All IsByte tail
    tail_bytes = All-append IsByte r.payload _ h.payload_bytes (padding-IsByte r.payload)

    head_bytes : All IsByte (header_wire r)
    head_bytes =
        All-append IsByte (front r) (be16 r.header_checksum ++ (r.src ++ (r.dst ++ [])))
          (front-IsByte r h)
          (
            omega (arith, h.fields.checksum_fits),
            (
              omega arith,
              All-append IsByte r.src (r.dst ++ []) h.src_bytes
                  (All-append IsByte r.dst [] h.dst_bytes tt),
            ),
          )

    sized : length (header_wire r ++ tail) ≡ 20 + length r.payload + length r.payload % 2
    sized = omega (
      arith,
      length-append (header_wire r) tail,
      length-header_wire r h.fields,
      length-append r.payload (padding r.payload),
      length-replicate {A = ℕ} (length r.payload % 2) 0,
    )

module _ {d : TypestateDirection} (payload : List ℕ) (ttl : ℕ) (p : Ip d) where
  abbrev with_sum : ℕ → Ip (reverse_direction d)
  with_sum c = record (prepare_response payload ttl p) { header_checksum = c }

  -- What `clone_as_response` returns: the prepared response with its checksum.
  record Made (c : ℕ) : Type 0 where
    made : clone_as_response payload ttl p ≡ returns (with_sum c)
    packet : IsPacket (with_sum c)
    sums : of_span (packet_with c (with_sum c)) ≡ returns 0

  response_Made :
      IsPacket p → ttl < 256 → All IsByte payload → length payload < 2 ^ 61 → (c : ℕ) × Made c
  unfolding clone_as_response
  response_Made h ht hb small =
      let q = prepare_response payload ttl p in
      let hq = prepare_response-IsPacket payload ttl p h ht hb small in
      let (c, e, fits, zero_sum) = calculate_checksum_lem q hq in
      (c, record { made = rw e; packet = with_checksum q c hq (omega arith); sums = zero_sum })

  -- The response to a packet is there; it goes back to the sender with the new payload and time to
  -- live, and with its checksum in place the whole packet, padded to even size, has the checksum 0.
  pub response_verifies :
      IsPacket p
      → ttl < 256
      → All IsByte payload
      → length payload < 2 ^ 61
      → (r : Ip (reverse_direction d)) × (clone_as_response payload ttl p ≡ returns r)
        × (r.src ≡ p.dst)
        × (r.dst ≡ p.src)
        × (r.ttl ≡ ttl)
        × (r.payload ≡ payload)
        × (of_span (wire r ++ padding (wire r)) ≡ returns 0)
  unfolding prepare_response
  response_verifies h ht hb small =
      let (c, m) = response_Made h ht hb small in
      (with_sum c, m.made, refl, refl, refl, refl, rw (padding-wire (with_sum c) m.packet) m.sums)

  -- The length in the response is that of the packet it answers: it is the response's own length,
  -- modulo 2 ^ 16, exactly when the two payloads have the same length modulo 2 ^ 16.
  pub response_total_length :
      IsPacket p
      → ttl < 256
      → All IsByte payload
      → length payload < 2 ^ 61
      → (r : Ip (reverse_direction d)) × (clone_as_response payload ttl p ≡ returns r)
        × ((r.total_length ≡ length (wire r) % 2 ^ 16)
            ↔ (length payload % 2 ^ 16 ≡ length p.payload % 2 ^ 16))
  unfolding prepare_response
  response_total_length h ht hb small =
      let (c, m) = response_Made h ht hb small in
      (
        with_sum c,
        m.made,
        (
          λ e. omega (arith, length-wire (with_sum c) m.packet.fields, h.object),
          λ e. omega (arith, length-wire (with_sum c) m.packet.fields, h.object),
        ),
      )

  -- A receiver sums the header alone. For a response of a nonzero version that sum is right exactly
  -- when the words of the payload sum to a multiple of 0xffff.
  pub response_header_verifies_iff :
      IsPacket p
      → ttl < 256
      → All IsByte payload
      → length payload < 2 ^ 61
      → 0 < p.version
      → (r : Ip (reverse_direction d)) × (clone_as_response payload ttl p ≡ returns r)
        × ((of_span (header_wire r) ≡ returns 0)
            ↔ (word_total (payload ++ padding payload) % 0xffff ≡ 0))
  unfolding prepare_response
  response_header_verifies_iff h ht hb small v =
      let (c, m) = response_Made h ht hb small in
      (with_sum c, m.made, header_sum_iff (with_sum c) m.packet v m.sums)
