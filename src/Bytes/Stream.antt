-- ===== src/Bytes/Stream.antt =====
-- include/bytes/bytestream.hpp. A stream holds a reference to a buffer. The input stream takes the
-- bytes that the buffer holds at the time of the call; the output stream, which alone writes to its
-- buffer, carries them. A `sz` is a number below 2 ^ 64, and its sums wrap.
pub mod Reading
pub mod Writing
pub mod Needing
pub mod RoundTrip
use toad_jawbreaker.Prelude.{
  ℕ, ◌+◌, ◌-◌, ◌^◌, ◌<◌, bit_and, bit_or, List, Option, none, Bool, true, false, some, leb,
  if◌then◌else◌, length, get_or, take, drop, set, overwrite, Outcome, returns, aborts,
}
use toad_jawbreaker.Prelude.Bits.{u8, u16, sz, ◌<<<◌, ◌>>>◌}

pub data ByteStreamErrorCode : Type 0 where
  ok not_enough_data : ByteStreamErrorCode

-- `errc == ByteStreamErrorCode::Ok`
abbrev pub is_ok : ByteStreamErrorCode → Bool
is_ok ok = true
is_ok not_enough_data = false

-- `ByteIStream<B>`, without the reference to its buffer.
pub record ByteIStream : Type 0 where
  pub cursor : ℕ
  pub last_size : ℕ
  pub errc : ByteStreamErrorCode

-- The constructor.
abbrev pub new_istream : ByteIStream
new_istream = record { cursor = 0; last_size = 0; errc = ok }

-- A read from the bytes of the buffer. Where it fails it leaves `*out`, the variable that the
-- caller passes, as it was: such a read takes the old value, `out`, and returns the new one.
abbrev pub Reader : Type 0 → Type 0
Reader A = List ℕ → ByteIStream → A × ByteIStream

abbrev pub pure : {A : Type 0} → A → Reader A
pure a bytes s = (a, s)

infixl 5 ◌>>=◌
unfoldable pub ◌>>=◌ : {A B : Type 0} → Reader A → (A → Reader B) → Reader B
◌>>=◌ m f bytes s = f (m bytes s).0 bytes (m bytes s).1

abbrev advance : ℕ → ByteIStream → ByteIStream
advance n s = record s { cursor = sz (s.cursor + n) }

abbrev fail : ℕ → ByteIStream → ByteIStream
fail n s = record s { errc = not_enough_data; last_size = n }

unfoldable pub remaining : List ℕ → ByteIStream → ℕ
remaining bytes s = sz (length bytes + 2 ^ 64 - s.cursor)

unfoldable pub read_u8 : ℕ → Reader ℕ
read_u8 out bytes s =
    if leb (sz (s.cursor + 1)) (length bytes)
    then (get_or bytes s.cursor 0, advance 1 s)
    else (out, fail 1 s)

unfoldable pub read_u16 : ℕ → Reader ℕ
read_u16 out bytes s =
    let hi = get_or bytes s.cursor 0 in
    let lo = get_or bytes (sz (s.cursor + 1)) 0 in
    if leb (sz (s.cursor + 2)) (length bytes)
    then (u16 (bit_or (hi <<< 8) lo), advance 1 (advance 1 s))
    else (out, fail 2 s)

-- `read_array<size>`
unfoldable pub read_array : ℕ → List ℕ → Reader (List ℕ)
read_array size out bytes s =
    if leb (sz (s.cursor + size)) (length bytes)
    then (take size (drop s.cursor bytes), advance size s)
    else (out, fail size s)

-- The largest size that a vector can be resized to; `resize` throws beyond it.
abbrev pub max_vector_size : ℕ
max_vector_size = 2 ^ 63 - 1

abbrev count_or : Option ℕ → ℕ → ℕ
count_or none n = n
count_or (some c) n = c

-- `count` is the caller's, and nothing bounds it: the sum in the test may wrap.
unfoldable pub read_vector :
    Option ℕ → List ℕ → List ℕ → ByteIStream → Outcome (List ℕ × ByteIStream)
read_vector count vec bytes s =
    let size = count_or count (length vec) in
    if leb (sz (s.cursor + size)) (length bytes)
    then (if leb size max_vector_size
        then returns (take size (drop s.cursor bytes), advance size s)
        else aborts)
    else returns (vec, fail size s)

-- `ASSERT(false, ...)`
unfoldable pub read_buffer : List ℕ → List ℕ → ByteIStream → Outcome (List ℕ × ByteIStream)
read_buffer out bytes s = aborts

-- `ByteOStream<B>`; `content` holds the bytes of its buffer.
pub record ByteOStream : Type 0 where
  pub content : List ℕ
  pub cursor : ℕ
  pub errc : ByteStreamErrorCode

-- The constructor, for a buffer that holds `content`.
abbrev pub new_ostream : List ℕ → ByteOStream
new_ostream content = record { content = content; cursor = 0; errc = ok }

abbrev pub Writer : Type 0
Writer = ByteOStream → ByteOStream

-- `s.w().v()`: a write returns its stream, for the next one.
infixl 6 ◌⨾◌
abbrev pub ◌⨾◌ : Writer → Writer → Writer
(w ⨾ v) s = v (w s)

-- `buffer.data()[cursor++] = value`
abbrev put_byte : ℕ → ByteOStream → ByteOStream
put_byte value s = record s { content = set s.content s.cursor value; cursor = sz (s.cursor + 1) }

-- The parameter is a `u8`, to which the argument is cast.
unfoldable pub write_u8 : ℕ → Writer
write_u8 value s =
    if leb (sz (s.cursor + 1)) (length s.content)
    then put_byte (u8 value) s
    else record s { errc = not_enough_data }

unfoldable pub write_u16 : ℕ → Writer
write_u16 value s =
    let v = u16 value in
    if leb (sz (s.cursor + 2)) (length s.content)
    then put_byte (bit_and v 0xff) (put_byte (bit_and (v >>> 8) 0xff) s)
    else record s { errc = not_enough_data }

unfoldable pub write_array : List ℕ → Writer
write_array arr s =
    if leb (sz (s.cursor + length arr)) (length s.content)
    then record s {
      content = overwrite s.content s.cursor arr;
      cursor = sz (s.cursor + length arr);
    }
    else record s { errc = not_enough_data }

unfoldable pub write_vector : List ℕ → Writer
write_vector vec s =
    if leb (sz (s.cursor + length vec)) (length s.content)
    then record s {
      content = overwrite s.content s.cursor vec;
      cursor = sz (s.cursor + length vec);
    }
    else record s { errc = not_enough_data }

-- `buf` is the bytes that the buffer holds.
unfoldable pub write_buffer : List ℕ → Writer
write_buffer buf s =
    if leb (sz (s.cursor + length buf)) (length s.content)
    then record s {
      content = overwrite s.content s.cursor buf;
      cursor = sz (s.cursor + length buf);
    }
    else record s { errc = not_enough_data }
