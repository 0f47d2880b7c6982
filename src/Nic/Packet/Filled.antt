-- ===== src/Nic/Packet/Filled.antt =====
-- Packets of include/nic/packet.hpp in buffers of their size, and in the payload of a frame.
use toad_jawbreaker.Prelude.{
  ℕ, ◌+◌, ◌-◌, ◌^◌, ◌<◌, ◌≡◌, sym, ap, ◌∙◌, List, ◌++◌, length, replicate, arith, overwrite-zero,
  drop-replicate, length-replicate, append-nil,
}
use mathlib.Core.Path.{subst}
use toad_jawbreaker.Bytes.Stream.{ByteOStream, ok, new_ostream}
use toad_jawbreaker.Bytes.Stream.Writing.{put_all}
use toad_jawbreaker.Nic.Typestate.{TypestateDirection}
use toad_jawbreaker.Nic.Ethernet as Ethernet
use toad_jawbreaker.Nic.Ethernet.{EthernetFrame}
use toad_jawbreaker.Nic.Ethernet.Codec as EthernetCodec
use toad_jawbreaker.Nic.Packet.{Packet, IsSized}
use toad_jawbreaker.Nic.Packet.Types.{ethernet_packet, ethernet_packet-IsSized}

abbrev pub filled : List ℕ → ℕ → ByteOStream
filled content cursor = record { content = content; cursor = cursor; errc = ok }

-- What is written into a buffer of just the right size.
put_all-exact :
    (vs : List ℕ) (n : ℕ) → length vs ≡ n → put_all vs (new_ostream (replicate n 0)) ≡ filled vs n
put_all-exact vs n e =
    let content =
      overwrite-zero (replicate n 0) vs (omega (arith, e, length-replicate {A = ℕ} n 0))
      ∙ ap (λ l. vs ++ l)
          (drop-replicate (length vs) n 0
            ∙ ap (λ (k : ℕ). replicate {A = ℕ} k 0) {x = n - length vs} {y = 0} (omega (arith, e)))
      ∙ append-nil vs in
    ap (λ l. filled l (0 + length vs)) content
    ∙ ap (filled vs) {x = 0 + length vs} (omega (arith, e))

module _ {P : Type 0} (ops : Packet P) (IsValid : P → Type 0) (wire : P → List ℕ)
    (sized : IsSized ops IsValid wire) where
  -- A packet fills a buffer of its size.
  pub fills :
      (p : P)
      → IsValid p
      → ops.size p < 2 ^ 63
      → ops.try_to_stream p (new_ostream (replicate (ops.size p) 0)) ≡ filled (wire p) (ops.size p)
  fills p h small =
      let n = ops.size p in
      (sized.writes p h).puts (new_ostream (replicate n 0)) (record {
        object = omega (arith, small, length-replicate {A = ℕ} n 0);
        room = omega (arith, sized.length-wire p h, length-replicate {A = ℕ} n 0);
      })
      ∙ put_all-exact (wire p) n (sized.length-wire p h)

module _ {P : Type 0} (ops : Packet P) (IsValid : P → Type 0) (wire : P → List ℕ)
    (sized : IsSized ops IsValid wire) where
  -- Any packet that is written into a buffer of its size, which becomes the payload of a frame: the
  -- frame is written without an error into a buffer of its own size, as 14 bytes of header and the
  -- bytes of the packet.
  pub encapsulated :
      {d : TypestateDirection} (p : P) (f : EthernetFrame d)
      → IsValid p
      → ops.size p < 2 ^ 62
      → EthernetCodec.IsFrame f
      → let payload = (ops.try_to_stream p (new_ostream (replicate (ops.size p) 0))).content in
        let frame : EthernetFrame d = record f { payload = payload } in
        (Ethernet.size frame ≡ 14 + ops.size p)
        × (Ethernet.try_to_stream frame (new_ostream (replicate (Ethernet.size frame) 0))
            ≡ filled (EthernetCodec.header_wire f ++ wire p) (14 + ops.size p))
  encapsulated {d} p f h small ok_frame =
      let n = ops.size p in
      let wired : EthernetFrame d = record f { payload = wire p } in
      let wired-IsFrame : EthernetCodec.IsFrame wired = record {
        dst_mac = ok_frame.dst_mac;
        src_mac = ok_frame.src_mac;
        ethertype_fits = ok_frame.ethertype_fits;
        object = omega (arith, small, sized.length-wire p h);
      } in
      let whole : Ethernet.size wired ≡ 14 + n = omega (arith, small, sized.length-wire p h) in
      let written =
        fills ethernet_packet EthernetCodec.IsFrame EthernetCodec.wire ethernet_packet-IsSized wired
          wired-IsFrame (omega (arith, small, whole)) in
      let payload =
        ap (λ (s : ByteOStream). s.content)
          (fills ops IsValid wire sized p h (omega (arith, small))) in
      subst
        (λ (l : List ℕ).
          let frame : EthernetFrame d = record f { payload = l } in
          (Ethernet.size frame ≡ 14 + n)
          × (Ethernet.try_to_stream frame (new_ostream (replicate (Ethernet.size frame) 0))
              ≡ filled (EthernetCodec.header_wire f ++ wire p) (14 + n)))
        (sym payload) (whole, written ∙ ap (filled (EthernetCodec.wire wired)) whole)
