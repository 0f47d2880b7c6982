-- ===== src/Tests/NicTests.antt =====
-- include/nic on concrete packets.
use toad_jawbreaker.Prelude.{ℕ, ◌-◌, ◌≡◌, refl, List, [], ◌∷◌, replicate, arith, returns}
use toad_jawbreaker.Bytes.Stream.{ByteOStream, new_istream, new_ostream}
use toad_jawbreaker.Bytes.Stream.Reading.{skip}
use toad_jawbreaker.Nic.Typestate.{direction_in}
use toad_jawbreaker.Nic.Checksum.{of_span, finish, sum_words, add_word}
use toad_jawbreaker.Nic.Checksum.Sum.{ones, word_total, of_span_sum}
use toad_jawbreaker.Nic.Arp
use toad_jawbreaker.Nic.Arp.{Arp}
use toad_jawbreaker.Nic.Arp.Codec as ArpCodec

-- The words 0x0001, 0xf203, 0xf4f5 and 0xf6f7, whose sum in ones' complement is 0xddf2.
abbrev words : List ℕ
words = 0x00 ∷ 0x01 ∷ 0xf2 ∷ 0x03 ∷ 0xf4 ∷ 0xf5 ∷ 0xf6 ∷ 0xf7 ∷ []

words_checksum : of_span words ≡ returns 0x220d
unfolding of_span finish sum_words add_word
words_checksum = refl

of_span_sum_example : of_span words ≡ returns (0xffff - ones (word_total words))
of_span_sum_example = of_span_sum words (omega arith) refl (omega arith)

short_checksum : of_span (0x45 ∷ 0 ∷ 0 ∷ 0 ∷ 1 ∷ 2 ∷ []) ≡ returns 0xb9fd
unfolding of_span finish sum_words add_word
short_checksum = refl

abbrev mac : List ℕ
mac = 2 ∷ 0 ∷ 0 ∷ 0 ∷ 0 ∷ 7 ∷ []

-- Who has 10.0.0.1?
abbrev request : Arp direction_in
request = record {
  oper = 1;
  sender_hardware_addr = mac;
  target_hardware_addr = replicate 6 0;
  sender_protocol_addr = 10 ∷ 0 ∷ 0 ∷ 9 ∷ [];
  target_protocol_addr = 10 ∷ 0 ∷ 0 ∷ 1 ∷ [];
}

abbrev blank : Arp direction_in
blank = record {
  oper = 0;
  sender_hardware_addr = [];
  target_hardware_addr = [];
  sender_protocol_addr = [];
  target_protocol_addr = [];
}

request-IsArp : Arp.IsArp 1 0x0800 6 4 request
request-IsArp = record { oper_fits = omega arith; sha = refl; tha = refl; spa = refl; tpa = refl }

abbrev frame_buffer : ByteOStream
frame_buffer = new_ostream (replicate 30 0)

arp_round_trip_example :
    Arp.try_from_stream 1 0x0800 6 4 99 blank
      (Arp.try_to_stream 1 0x0800 6 4 request frame_buffer).content
      new_istream
    ≡ returns (request, skip 28 new_istream)
arp_round_trip_example =
    ArpCodec.try_from_stream-try_to_stream 1 0x0800 6 4 99 blank request frame_buffer new_istream
      (omega arith) (omega arith) (omega arith) (omega arith) request-IsArp
      (record { object = omega arith; room = omega arith }) refl refl
