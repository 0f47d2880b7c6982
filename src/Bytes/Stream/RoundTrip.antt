-- ===== src/Bytes/Stream/RoundTrip.antt =====
-- Reading back what was written, through include/bytes/bytestream.hpp.
use toad_jawbreaker.Prelude.{
  ℕ, ◌+◌, ◌^◌, ◌≤◌, ◌<◌, ◌≡◌, refl, List, ◌++◌, some, length, take, ◌∙◌, append_assoc,
  take-overwrite, le→leb, lt→leb_false, arith, aborts,
}
use toad_jawbreaker.Prelude.Bits.{sz}
use toad_jawbreaker.Bytes.Stream.{
  ByteIStream, ByteOStream, not_enough_data, Reader, Writer, read_u16, write_u16, read_vector,
  write_vector, read_array, write_array, max_vector_size, write_u8, write_buffer,
}
use toad_jawbreaker.Bytes.Stream.Reading.{IsObject, Reads, Reads-u16, Reads-array, skip}
use toad_jawbreaker.Bytes.Stream.Writing.{
  Room, Writes, Writes-u16, Writes-array, put_all, Ahead-put_all,
}

-- A reader that understands what a writer writes gets the value back from where it was written, and
-- stops where the writer stopped.
pub Reads-Writes :
    {A : Type 0} {m : Reader A} {w : Writer} {vs : List ℕ} {a : A}
    → Reads m vs a
    → Writes w vs
    → (s : ByteOStream) (i : ByteIStream) → Room (length vs) s
    → i.cursor ≡ s.cursor
    → m (w s).content i ≡ (a, skip (length vs) i)
Reads-Writes {vs} hm hw s i h e =
    rw (hw.puts s h) (hm.takes (put_all vs s).content i _ (Ahead-put_all vs s i h e))

-- The same where the writer goes on to write more.
pub Reads-Writes_front :
    {A : Type 0} {m : Reader A} {w : Writer} {vs : List ℕ} {a : A} (more : List ℕ)
    → Reads m vs a
    → Writes w (vs ++ more)
    → (s : ByteOStream) (i : ByteIStream) → Room (length (vs ++ more)) s
    → i.cursor ≡ s.cursor
    → m (w s).content i ≡ (a, skip (length vs) i)
Reads-Writes_front {vs} more hm hw s i h e =
    let whole = Ahead-put_all (vs ++ more) s i h e in
    rw (hw.puts s h) (
      hm.takes (put_all (vs ++ more) s).content i _ (record {
        object = whole.object;
        inside = whole.inside;
        ahead = whole.ahead ∙ append_assoc vs more _;
      }))

-- A `u16` that was written where the buffer has room is read back from the same place.
pub read_u16-write_u16 :
    (v out : ℕ) (s : ByteOStream) (i : ByteIStream)
    → v < 2 ^ 16
    → Room 2 s
    → i.cursor ≡ s.cursor
    → read_u16 out (write_u16 v s).content i ≡ (v, skip 2 i)
read_u16-write_u16 v out s i small h e =
    Reads-Writes (Reads-u16 out v small) (Writes-u16 v small) s i h e

-- An array that was written where the buffer has room is read back from the same place, and the
-- bytes in front of it are as they were.
pub read_array-write_array :
    (arr out : List ℕ) (s : ByteOStream) (i : ByteIStream)
    → Room (length arr) s
    → i.cursor ≡ s.cursor
    → (read_array (length arr) out (write_array arr s).content i ≡ (arr, skip (length arr) i))
      × (take s.cursor (write_array arr s).content ≡ take s.cursor s.content)
read_array-write_array arr out s i h e = (
  Reads-Writes (Reads-array (length arr) out arr refl) (Writes-array arr) s i h e,
  rw ((Writes-array arr).puts s h) (take-overwrite s.content s.cursor arr),
)

-- A write that does not fit leaves the bytes and the cursor as they are, and sets the error code;
-- so it is for all five kinds of write.
pub write_overflow :
    (v : ℕ) (vs : List ℕ) (s : ByteOStream)
    → IsObject s.content
    → IsObject vs
    → s.cursor ≤ length s.content
    → (length s.content < s.cursor + 1 → write_u8 v s ≡ record s { errc = not_enough_data })
      × (length s.content < s.cursor + 2 → write_u16 v s ≡ record s { errc = not_enough_data })
      × (length s.content < s.cursor + length vs
          → (write_array vs s ≡ record s { errc = not_enough_data })
            × (write_vector vs s ≡ record s { errc = not_enough_data })
            × (write_buffer vs s ≡ record s { errc = not_enough_data }))
unfolding write_u8 write_u16 write_array write_vector write_buffer
write_overflow v vs s object object' inside = (
  λ over. rw (lt→leb_false (sz (s.cursor + 1)) (length s.content) (omega arith)),
  λ over. rw (lt→leb_false (sz (s.cursor + 2)) (length s.content) (omega arith)),
  λ over.
      let no_room = lt→leb_false (sz (s.cursor + length vs)) (length s.content) (omega arith) in
      (rw no_room, rw no_room, rw no_room),
)

-- A count for `read_vector` that makes the sum in its test wrap passes the test, and the resize
-- throws.
pub read_vector-wrap :
    (count : ℕ) (vec bytes : List ℕ) (i : ByteIStream)
    → IsObject bytes
    → i.cursor ≤ length bytes
    → count < 2 ^ 64
    → 2 ^ 64 ≤ i.cursor + count
    → read_vector (some count) vec bytes i ≡ aborts
unfolding read_vector
read_vector-wrap count vec bytes i object inside small wraps =
    rw (le→leb (sz (i.cursor + count)) (length bytes) (omega arith))
      (rw (lt→leb_false count max_vector_size (omega arith)))
