-- ===== src/Nic/Ethernet/Codec.antt =====
-- The wire format of include/nic/ethernet.hpp, and frames that do not fit their buffer.
use toad_jawbreaker.Prelude.{
  ℕ, ◌+◌, ◌^◌, ◌<◌, ◌≡◌, ◌≢◌, refl, ap, ◌∙◌, List, [], ◌++◌, length, arith, length-append, aborts,
  append-nil, append_assoc, replicate, Bool-cases, inl, inr, length-replicate, length-overwrite,
}
use toad_jawbreaker.Bytes.Stream.{
  ByteIStream, ByteOStream, not_enough_data, Writer, ◌⨾◌, read_buffer, write_array, write_u16,
}
use toad_jawbreaker.Bytes.Stream.Reading.{
  Reads, Reads-bind, Reads-pure, Reads-u16, Reads-array, be16, skip,
}
use toad_jawbreaker.Bytes.Stream.Writing.{
  Room, Writes, Writes-seq, Writes-u16, Writes-array, Writes-buffer, put_all,
}
use toad_jawbreaker.Bytes.Stream.RoundTrip.{Reads-Writes_front, write_overflow}
use toad_jawbreaker.Nic.Typestate.{TypestateDirection, reverse_direction}
use toad_jawbreaker.Nic.Mac.{is_default, is_default_iff, IsMac}
use toad_jawbreaker.Nic.Ethernet.{
  EthernetFrame, read_header, try_from_stream, try_to_stream, clone_as_response,
}
use mathlib.Core.Path.{subst}

pub record IsFrame {d : TypestateDirection} (f : EthernetFrame d) : Type 0 where
  pub dst_mac : IsMac f.dst
  pub src_mac : IsMac f.src
  pub ethertype_fits : f.ethertype < 2 ^ 16
  pub object : length f.payload < 2 ^ 62

abbrev pub header_wire : {d : TypestateDirection} → EthernetFrame d → List ℕ
header_wire f = f.dst ++ (f.src ++ (be16 f.ethertype ++ []))

abbrev pub wire : {d : TypestateDirection} → EthernetFrame d → List ℕ
wire f = header_wire f ++ f.payload

module _ {d : TypestateDirection} (f : EthernetFrame d) (h : IsFrame f) where
  abbrev write_header : Writer
  write_header = write_array f.dst ⨾ write_array f.src ⨾ write_u16 f.ethertype

  write_header-wire : Writes write_header (header_wire f)
  write_header-wire = subst (Writes write_header) (simp (append_assoc, append-nil)) (
      Writes-seq (Writes-seq (Writes-array f.dst) (Writes-array f.src))
        (Writes-u16 f.ethertype h.ethertype_fits))

  pub try_to_stream-wire : Writes (try_to_stream f) (wire f)
  unfolding try_to_stream
  try_to_stream-wire = Writes-seq write_header-wire (Writes-buffer f.payload)

  read_header-wire :
      (ret : EthernetFrame d)
      → Reads (read_header ret) (header_wire f) (record f { payload = ret.payload })
  unfolding read_header
  read_header-wire ret = Reads-bind _ (Reads-array 6 ret.dst _ h.dst_mac) (
      Reads-bind _ (Reads-array 6 ret.src _ h.src_mac)
        (Reads-bind _ (Reads-u16 ret.ethertype _ h.ethertype_fits) (Reads-pure _)))

  pub length-header_wire : length (header_wire f) ≡ 14
  length-header_wire = omega (
    arith,
    length-append f.dst (f.src ++ (be16 f.ethertype ++ [])),
    length-append f.src (be16 f.ethertype ++ []),
    h.dst_mac,
    h.src_mac,
  )

  -- A frame is written as 14 bytes of header and the payload; the header that is read back has
  -- every field as it was, and takes 14 bytes. Yet the parser, which goes on to read the payload,
  -- aborts.
  pub frame_header_round_trip :
      (ret : EthernetFrame d) (s : ByteOStream) (i : ByteIStream)
      → Room (14 + length f.payload) s
      → i.cursor ≡ s.cursor
      → (read_header ret (try_to_stream f s).content i
          ≡ (record f { payload = ret.payload }, skip 14 i))
        × (try_from_stream ret (try_to_stream f s).content i ≡ aborts)
  unfolding try_from_stream read_buffer
  frame_header_round_trip ret s i room e = (
    Reads-Writes_front f.payload (read_header-wire ret) try_to_stream-wire s i
          (record {
            object = room.object;
            room =
                omega
                  (arith, length-append (header_wire f) f.payload, length-header_wire, room.room);
          })
          e
        ∙ ap (λ (k : ℕ). (record f { payload = ret.payload }, skip k i)) length-header_wire,
    refl,
  )

  -- A frame whose header fits and whose payload does not: the header is written, and the error
  -- code set.
  pub try_to_stream_short :
      (s : ByteOStream)
      → Room 14 s
      → length s.content < s.cursor + 14 + length f.payload
      → try_to_stream f s ≡ record (put_all (header_wire f) s) { errc = not_enough_data }
  unfolding try_to_stream
  try_to_stream_short s room over =
      rw
        (write_header-wire.puts s
          (record { object = room.object; room = omega (arith, length-header_wire, room.room) }))
        ((write_overflow 0 f.payload (put_all (header_wire f) s)
            (omega (arith, room.object, put_length)) (omega (arith, h.object))
            (omega (arith, room.room, put_length, length-header_wire))).2
          (omega (arith, put_length, length-header_wire))).2
    where
      put_length : length (put_all (header_wire f) s).content ≡ length s.content
      put_length = length-overwrite s.content s.cursor (header_wire f)

-- A response goes to the sender of the frame, with a payload of zeros of the size that is asked
-- for. Its source is the sender that is given, unless that is the default address, the one of six
-- zeros: then the source stays as it was in the uninitialised response.
pub clone_as_response_lem :
    {d : TypestateDirection} (ret : EthernetFrame (reverse_direction d)) (ethertype n : ℕ)
    (sender : List ℕ) (f : EthernetFrame d)
    → IsMac sender
    → ((clone_as_response ret ethertype n sender f).dst ≡ f.src)
      × (length (clone_as_response ret ethertype n sender f).payload ≡ n)
      × (sender ≢ replicate 6 0 → (clone_as_response ret ethertype n sender f).src ≡ sender)
      × (sender ≡ replicate 6 0 → (clone_as_response ret ethertype n sender f).src ≡ ret.src)
unfolding clone_as_response
clone_as_response_lem ret ethertype n sender f h = (
  refl,
  length-replicate n 0,
  λ given. elim (Bool-cases (is_default sender)) [
    | inl yes_default ↦ absurd (given ((is_default_iff sender h).0 yes_default))
    | inr other ↦ rw other
  ],
  λ default. rw ((is_default_iff sender h).1 default),
)
