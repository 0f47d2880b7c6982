-- ===== src/Nic/Device.antt =====
-- include/nic/device.hpp: reading and writing frames. The system calls are outside: a `read` that
-- succeeds hands over the packet it took, and a `write` is the list of bytes it is given. The set-up
-- with `try_new` is in Nic/Setup.
use toad_jawbreaker.Prelude.{
  ℕ, ◌+◌, ◌^◌, ◌≤◌, ◌<◌, ◌≡◌, ◌∙◌, ap, List, Option, none, some, Outcome, aborts, length, replicate,
  take, drop, ltb, leb, if◌then◌else◌, arith, length-append, length-replicate, overwrite-zero,
  take-length_append, Bool-cases, inl, inr, leb→le, leb_false→lt,
}
use toad_jawbreaker.Prelude.Bits.{sz}
use toad_jawbreaker.Bytes.Stream.{ByteIStream, ByteOStream, new_istream, new_ostream}
use toad_jawbreaker.Bytes.Stream.Writing.{put_all}
use toad_jawbreaker.Nic.Typestate.{direction_in, direction_out}
use toad_jawbreaker.Nic.Ethernet.{EthernetFrame, try_from_stream, try_to_stream}
use toad_jawbreaker.Nic.Ethernet.Codec.{
  IsFrame, header_wire, wire, length-header_wire, try_to_stream-wire, try_to_stream_short,
}

-- `struct Device`, without its descriptor.
pub record Device : Type 0 where
  pub own_mac : List ℕ
  pub own_ip : List ℕ
  pub maximum_transmission_unit : ℕ

-- `received` is the packet that `read` takes, cut to the buffer; `none` is a failure. `frame` is
-- what the uninitialised frame of the parser holds.
pub read_next_eth :
    Device
    → Option (List ℕ)
    → EthernetFrame direction_in
    → Outcome (EthernetFrame direction_in × ByteIStream)
read_next_eth device none frame = aborts
read_next_eth device (some received) frame =
    let bytes = take (sz (device.maximum_transmission_unit + 14)) received in
    if ltb (length bytes) 14 then aborts else try_from_stream frame bytes new_istream

-- The bytes that are handed to `write`.
pub write_eth : Device → EthernetFrame direction_out → List ℕ
write_eth device frame =
    let stream = try_to_stream frame (new_ostream (replicate device.maximum_transmission_unit 0)) in
    take stream.cursor stream.content

-- What a buffer of `n` zeros holds up to the cursor after `vs` is put there.
taken :
    (vs : List ℕ) (n : ℕ)
    → length vs ≤ n
    → take
        (put_all vs (new_ostream (replicate n 0))).cursor
        (put_all vs (new_ostream (replicate n 0))).content
      ≡ vs
taken vs n fit =
    ap (λ (k : ℕ). take k (put_all vs (new_ostream (replicate n 0))).content) {x = 0 + length vs}
      {y = length vs} (omega arith)
    ∙ ap (λ l. take (length vs) l)
        (overwrite-zero (replicate n 0) vs (omega (arith, length-replicate {A = ℕ} n 0)))
    ∙ take-length_append vs (drop (length vs) (replicate n 0))

-- For a transmission unit of at least 14: the whole frame is sent if its header and payload together
-- fit the transmission unit, and else the 14 bytes of the header alone.
pub write_eth_lem :
    (device : Device) (f : EthernetFrame direction_out)
    → IsFrame f
    → 14 ≤ device.maximum_transmission_unit
    → device.maximum_transmission_unit < 2 ^ 62
    → write_eth device f ≡ (
        if leb (14 + length f.payload) device.maximum_transmission_unit
        then wire f
        else header_wire f)
unfolding write_eth
write_eth_lem device f h room small = elim (Bool-cases (leb (14 + length f.payload) mtu)) [
  | inl fit ↦ rw fit (
      rw
        ((try_to_stream-wire f h).puts start (record {
          object = omega (arith, size);
          room = omega (arith, size, whole, leb→le _ _ fit);
        }))
        (taken (wire f) mtu (omega (arith, whole, leb→le _ _ fit))))
  | inr over ↦ rw over (
      rw
        (try_to_stream_short f h start
          (record { object = omega (arith, size); room = omega (arith, size) })
          (omega (arith, size, leb_false→lt _ _ over)))
        (taken (header_wire f) mtu (omega (arith, length-header_wire f h))))
]
  where
    mtu : ℕ
    mtu = device.maximum_transmission_unit

    start : ByteOStream
    start = new_ostream (replicate mtu 0)

    size : length {A = ℕ} (replicate mtu 0) ≡ mtu
    size = length-replicate mtu 0

    whole : length (wire f) ≡ 14 + length f.payload
    whole = omega (arith, length-append (header_wire f) f.payload, length-header_wire f h)
