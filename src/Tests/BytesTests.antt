-- ===== src/Tests/BytesTests.antt =====
-- include/bytes on concrete buffers.
use toad_jawbreaker.Prelude.{◌+◌, ◌≡◌, refl, [], ◌∷◌, arith, ◌==◌, if◌then◌else◌}
use toad_jawbreaker.Bytes.Stream.{ByteOStream, new_ostream, write_u16}
use toad_jawbreaker.Bytes.Buffer.{Store, Buffer, read, write, slice}
use toad_jawbreaker.Bytes.Buffer.Aliasing.{IsView, read-write-slice}

abbrev four : ByteOStream
four = new_ostream (0 ∷ 0 ∷ 0 ∷ 0 ∷ [])

abbrev second : ByteOStream
second = record four { cursor = 1 }

big_endian : (write_u16 0xabcd second).content ≡ 0 ∷ 0xab ∷ 0xcd ∷ 0 ∷ []
unfolding write_u16
big_endian = refl

abbrev store : Store
store = record { allocation = λ _. 1 ∷ 2 ∷ 3 ∷ 4 ∷ 5 ∷ []; next = 1 }

abbrev whole : Buffer
whole = record { shared = 0; offset = 0; size = 5 }

whole-IsView : IsView store whole
whole-IsView = record { object = omega arith; inside = omega arith }

read-write-slice_example :
    read (write store (slice 1 4 whole) 2 9) whole 3
    ≡ (if 1 + 2 == 3 then 9 else read store whole 3)
read-write-slice_example =
    read-write-slice store whole 1 4 2 3 9 whole-IsView (omega arith) (omega arith) (omega arith)
      (omega arith)
