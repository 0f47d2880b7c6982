-- ===== src/Nic/Arp/Codec.antt =====
-- The wire format of include/nic/arp.hpp: writing, reading back, and packets that are too short.
use toad_jawbreaker.Prelude.{
  ℕ, ◌+◌, ◌^◌, ◌≤◌, ◌<◌, ◌≡◌, refl, ◌∙◌, ◌↔◌, List, [], ◌∷◌, ◌++◌, length, arith, length-append,
  returns, aborts, append-nil, append_assoc,
}
use native.Mathlib.Decide.{dec_le}
use toad_jawbreaker.Bytes.Stream.{ByteIStream, ByteOStream, ok}
use toad_jawbreaker.Bytes.Stream.Reading.{
  IsObject, Reads, Reads-bind, Reads-pure, Reads-u8, Reads-u16, Reads-array, be16, skip,
}
use toad_jawbreaker.Bytes.Stream.Writing.{
  Room, Writes, Writes-seq, Writes-byte, Writes-u16, Writes-array,
}
use toad_jawbreaker.Bytes.Stream.Needing.{
  Needs, Needs-bind, Needs-pure, Needs-u8, Needs-u16, Needs-array,
}
use toad_jawbreaker.Bytes.Stream.RoundTrip.{Reads-Writes}
use toad_jawbreaker.Nic.Typestate.{TypestateDirection}
use toad_jawbreaker.Nic.Arp.{
  Arp, IsArp, read_fields, try_from_stream, try_to_stream, copy_as_response, expected_buffer_length,
}

returns-ne-aborts {ℓ} : {A : Type ℓ} {a : A} → returns a ≡ aborts → ⊥
returns-ne-aborts h = cc

module _ (htype ptype hlen plen : ℕ) where
  -- The bytes of a packet, field after field.
  abbrev pub wire : {d : TypestateDirection} → Arp d → List ℕ
  wire p =
      be16 htype
      ++ (be16 ptype
          ++ (hlen ∷ []
              ++ (plen ∷ []
                  ++ (be16 p.oper
                      ++ (p.sender_hardware_addr
                          ++ (p.sender_protocol_addr
                              ++ (p.target_hardware_addr ++ (p.target_protocol_addr ++ []))))))))

  -- The same bytes, bracketed as the writer chains them.
  abbrev flat_wire : {d : TypestateDirection} → Arp d → List ℕ
  flat_wire p =
      (((((((be16 htype ++ be16 ptype) ++ (hlen ∷ [])) ++ (plen ∷ [])) ++ be16 p.oper)
            ++ p.sender_hardware_addr)
          ++ p.sender_protocol_addr)
        ++ p.target_hardware_addr)
      ++ p.target_protocol_addr

  pub read_fields-wire :
      {d : TypestateDirection} (junk : ℕ) (ret p : Arp d)
      → htype < 2 ^ 16
      → ptype < 2 ^ 16
      → IsArp htype ptype hlen plen p
      → Reads (read_fields htype ptype hlen plen junk ret) (wire p) p
  unfolding read_fields
  read_fields-wire junk ret p hh hp h = Reads-bind _ (Reads-u16 junk htype hh) (
      Reads-bind _ (Reads-u16 junk ptype hp) (
        Reads-bind _ (Reads-u8 junk hlen) (
          Reads-bind _ (Reads-u8 junk plen) (
            Reads-bind _ (Reads-u16 ret.oper p.oper h.oper_fits) (
              Reads-bind _ (Reads-array hlen _ _ h.sha) (
                Reads-bind _ (Reads-array plen _ _ h.spa) (
                  Reads-bind _ (Reads-array hlen _ _ h.tha)
                    (Reads-bind _ (Reads-array plen _ _ h.tpa) (Reads-pure p)))))))))

  pub try_to_stream-wire :
      {d : TypestateDirection} (p : Arp d)
      → htype < 2 ^ 16
      → ptype < 2 ^ 16
      → hlen < 2 ^ 8
      → plen < 2 ^ 8
      → IsArp htype ptype hlen plen p
      → Writes (try_to_stream htype ptype hlen plen p) (flat_wire p)
  unfolding try_to_stream
  try_to_stream-wire p hh hp hl pl h =
      Writes-seq
        (Writes-seq
          (Writes-seq
            (Writes-seq
              (Writes-seq
                (Writes-seq
                  (Writes-seq (Writes-seq (Writes-u16 htype hh) (Writes-u16 ptype hp))
                    (Writes-byte hlen hl))
                  (Writes-byte plen pl))
                (Writes-u16 p.oper h.oper_fits))
              (Writes-array p.sender_hardware_addr))
            (Writes-array p.sender_protocol_addr))
          (Writes-array p.target_hardware_addr))
        (Writes-array p.target_protocol_addr)

  flat_wire-wire : {d : TypestateDirection} (p : Arp d) → flat_wire p ≡ wire p
  flat_wire-wire p = simp (append_assoc, append-nil)

  length-wire :
      {d : TypestateDirection} (p : Arp d)
      → IsArp htype ptype hlen plen p
      → length (wire p) ≡ expected_buffer_length htype ptype hlen plen
  length-wire p h = simp length-append (omega (arith, h.sha, h.spa, h.tha, h.tpa))

  -- A packet that is written where the buffer has room is read back from there, whatever the
  -- uninitialised variables hold, and the reading takes `expected_buffer_length` bytes.
  pub try_from_stream-try_to_stream :
      {d : TypestateDirection} (junk : ℕ) (ret p : Arp d) (s : ByteOStream) (i : ByteIStream)
      → htype < 2 ^ 16
      → ptype < 2 ^ 16
      → hlen < 2 ^ 8
      → plen < 2 ^ 8
      → IsArp htype ptype hlen plen p
      → Room (expected_buffer_length htype ptype hlen plen) s
      → i.cursor ≡ s.cursor
      → i.errc ≡ ok
      → try_from_stream htype ptype hlen plen junk ret
          (try_to_stream htype ptype hlen plen p s).content
          i
        ≡ returns (p, skip (expected_buffer_length htype ptype hlen plen) i)
  unfolding try_from_stream
  try_from_stream-try_to_stream junk ret p s i hh hp hl pl h room e good =
      rw
        (rw (length-wire p h) at (
          Reads-Writes (read_fields-wire junk ret p hh hp h)
            (rw (flat_wire-wire p) at (try_to_stream-wire p hh hp hl pl h)) s i
            (record { object = room.object; room = rw (length-wire p h) room.room }) e))
        (rw good)

  read_fields-Needs :
      {d : TypestateDirection} (junk : ℕ) (ret : Arp d)
      → hlen < 2 ^ 8
      → plen < 2 ^ 8
      → Needs
          (read_fields htype ptype hlen plen junk ret)
          (2 + (2 + (1 + (1 + (2 + (hlen + (plen + (hlen + (plen + 0)))))))))
  unfolding read_fields
  read_fields-Needs junk ret hl pl = Needs-bind _ (Needs-u16 junk) λ _.
      Needs-bind _ (Needs-u16 junk) λ _. Needs-bind _ (Needs-u8 junk) λ _.
        Needs-bind _ (Needs-u8 junk) λ _. Needs-bind _ (Needs-u16 ret.oper) λ _.
          Needs-bind _ (Needs-array hlen _ (omega arith)) λ _.
            Needs-bind _ (Needs-array plen _ (omega arith)) λ _.
              Needs-bind _ (Needs-array hlen _ (omega arith))
                λ _. Needs-bind _ (Needs-array plen _ (omega arith)) λ _. Needs-pure _

  -- On any bytes the parser of a stream with no error aborts exactly when fewer than
  -- `expected_buffer_length` bytes lie ahead of the cursor; else it returns a packet and has moved
  -- the cursor by that number.
  pub try_from_stream_enough :
      {d : TypestateDirection} (junk : ℕ) (ret : Arp d) (bytes : List ℕ) (s : ByteIStream)
      → hlen < 2 ^ 8
      → plen < 2 ^ 8
      → IsObject bytes
      → s.cursor ≤ length bytes
      → s.errc ≡ ok
      → ((try_from_stream htype ptype hlen plen junk ret bytes s ≡ aborts)
          ↔ (length bytes < s.cursor + expected_buffer_length htype ptype hlen plen))
        × (s.cursor + expected_buffer_length htype ptype hlen plen ≤ length bytes
            → (p : Arp d) × (t : ByteIStream) × (try_from_stream htype ptype hlen plen junk ret
                  bytes s
                ≡ returns (p, t))
              × (t.cursor ≡ s.cursor + expected_buffer_length htype ptype hlen plen))
  unfolding try_from_stream
  try_from_stream_enough junk ret bytes s hl pl object inside good =
      let r = read_fields htype ptype hlen plen junk ret bytes s in
      let a = (read_fields-Needs junk ret hl pl).asks bytes s object inside in
      (
        (
          λ stops.
              elim (dec_le (s.cursor + expected_buffer_length htype ptype hlen plen)
                (length bytes)) [
                  | yes fit ↦
                      absurd (returns-ne-aborts (rw ((a.enough (omega arith)).0 ∙ good) at stops))
                  | no over ↦ omega arith
                ],
          λ over. rw (a.short (omega arith)),
        ),
        λ fit. (
          r.0,
          r.1,
          rw ((a.enough (omega arith)).0 ∙ good),
          omega (arith, (a.enough (omega arith)).1),
        ),
      )

-- A reply goes to the sender of the request, from the address it asked for, and is a packet of the
-- same format; replying twice swaps the protocol addresses back.
pub copy_as_response_lem :
    {d : TypestateDirection} (htype ptype hlen plen : ℕ) (mac mac' : List ℕ) (p : Arp d)
    → length mac ≡ hlen
    → IsArp htype ptype hlen plen p
    → IsArp htype ptype hlen plen (copy_as_response mac p)
      × ((copy_as_response mac p).target_hardware_addr ≡ p.sender_hardware_addr)
      × ((copy_as_response mac p).sender_hardware_addr ≡ mac)
      × ((copy_as_response mac' (copy_as_response mac p)).sender_protocol_addr
          ≡ p.sender_protocol_addr)
      × ((copy_as_response mac' (copy_as_response mac p)).target_protocol_addr
          ≡ p.target_protocol_addr)
      × ((copy_as_response mac' (copy_as_response mac p)).target_hardware_addr ≡ mac)
unfolding copy_as_response
copy_as_response_lem htype ptype hlen plen mac mac' p e h = (
  record { oper_fits = omega arith; sha = e; tha = h.sha; spa = h.tpa; tpa = h.spa },
  refl,
  refl,
  refl,
  refl,
  refl,
)
