-- ===== src/Bytes/Stream/Writing.antt =====
-- What a chain of writes of include/bytes/bytestream.hpp does to a buffer with room for it.
use toad_jawbreaker.Prelude.{
  ℕ, ◌+◌, ◌/◌, ◌%◌, ◌^◌, ◌≤◌, ◌<◌, ◌≡◌, refl, ap, ◌∙◌, List, [], ◌∷◌, ◌++◌, le→leb, length, set,
  drop, overwrite, length-overwrite, overwrite-append, arith, length-append, drop-overwrite,
}
use mathlib.Core.Path.{subst}
use toad_jawbreaker.Prelude.Bits.{u8, sz, bit_and_ones}
use toad_jawbreaker.Bytes.Stream.{
  ByteIStream, ByteOStream, Writer, ◌⨾◌, write_u8, write_u16, write_array, write_buffer,
}
use toad_jawbreaker.Bytes.Stream.Reading.{IsObject, Ahead, be16}

-- `vs` copied to the cursor, which moves past it.
abbrev pub put_all : List ℕ → ByteOStream → ByteOStream
put_all vs s = record s { content = overwrite s.content s.cursor vs; cursor = s.cursor + length vs }

-- The buffer has room for `n` more bytes.
pub record Room (n : ℕ) (s : ByteOStream) : Type 0 where
  pub object : IsObject s.content
  pub room : s.cursor + n ≤ length s.content

-- Where there is room, `w` writes exactly `vs`.
pub record Writes (w : Writer) (vs : List ℕ) : Type 0 where
  pub puts : (s : ByteOStream) → Room (length vs) s → w s ≡ put_all vs s

pub Writes-seq :
    {w v : Writer} {vs ws : List ℕ} → Writes w vs → Writes v ws → Writes (w ⨾ v) (vs ++ ws)
Writes-seq {w} {v} {vs} {ws} hw hv = record { puts = go }
  where
    go : (s : ByteOStream) → Room (length (vs ++ ws)) s → v (w s) ≡ put_all (vs ++ ws) s
    go s h =
        let both : s.cursor + (length vs + length ws) ≤ length s.content =
          omega (arith, h.room, length-append vs ws) in
        rw (hw.puts s (record { object = h.object; room = omega arith })) (
          hv.puts (put_all vs s) (record {
            object = omega (arith, length-overwrite s.content s.cursor vs, h.object);
            room = omega (arith, length-overwrite s.content s.cursor vs);
          })
          ∙ rw (← overwrite-append s.content s.cursor vs ws) (
              ap
                (λ (k : ℕ). record s {
                  content = overwrite s.content s.cursor (vs ++ ws);
                  cursor = k;
                })
                {x = s.cursor + length vs + length ws} {y = s.cursor + length (vs ++ ws)}
                (omega (arith, length-append vs ws))))

pub Writes-u8 : (v : ℕ) → Writes (write_u8 v) (u8 v ∷ [])
unfolding write_u8 overwrite
Writes-u8 v = record {
  puts = λ s h.
      rw (le→leb (sz (s.cursor + 1)) (length s.content) (omega (arith, h.object, h.room))) (
        ap (λ (k : ℕ). record s { content = set s.content s.cursor (u8 v); cursor = k })
          {x = sz (s.cursor + 1)} {y = s.cursor + 1} (omega (arith, h.object, h.room)));
}

pub Writes-byte : (v : ℕ) → v < 2 ^ 8 → Writes (write_u8 v) (v ∷ [])
Writes-byte v small =
    subst (λ (k : ℕ). Writes (write_u8 v) (k ∷ [])) {x = u8 v} {y = v} (omega arith) (Writes-u8 v)

pub Writes-u16 : (v : ℕ) → v < 2 ^ 16 → Writes (write_u16 v) (be16 v)
unfolding write_u16 overwrite
Writes-u16 v small = record { puts = go }
  where
    go : (s : ByteOStream) → Room 2 s → write_u16 v s ≡ put_all (be16 v) s
    go s h =
        let next : sz (s.cursor + 1) ≡ s.cursor + 1 = omega (arith, h.object, h.room) in
        let last : sz (sz (s.cursor + 1) + 1) ≡ s.cursor + 2 = omega (arith, h.object, h.room) in
        let whole : v % 2 ^ 16 ≡ v = omega arith in
        let high : v / 256 % 256 ≡ v / 256 = omega arith in
        rw (le→leb (sz (s.cursor + 2)) (length s.content) (omega (arith, h.object, h.room))) (
          rw (last, next)
            (rw whole
              (rw (bit_and_ones 8 v 0xff refl, bit_and_ones 8 (v / 256) 0xff refl) (rw high))))

pub Writes-array : (arr : List ℕ) → Writes (write_array arr) arr
unfolding write_array
Writes-array arr = record {
  puts = λ s h.
      rw (le→leb (sz (s.cursor + length arr)) (length s.content) (omega (arith, h.object, h.room)))
        (ap (λ (k : ℕ). record s { content = overwrite s.content s.cursor arr; cursor = k })
          {x = sz (s.cursor + length arr)} {y = s.cursor + length arr}
          (omega (arith, h.object, h.room)));
}

pub Writes-buffer : (buf : List ℕ) → Writes (write_buffer buf) buf
unfolding write_buffer
Writes-buffer buf = record {
  puts = λ s h.
      rw (le→leb (sz (s.cursor + length buf)) (length s.content) (omega (arith, h.object, h.room)))
        (ap (λ (k : ℕ). record s { content = overwrite s.content s.cursor buf; cursor = k })
          {x = sz (s.cursor + length buf)} {y = s.cursor + length buf}
          (omega (arith, h.object, h.room)));
}

-- What was written lies ahead of an input stream that stands where the writing began.
pub Ahead-put_all :
    (vs : List ℕ) (s : ByteOStream) (i : ByteIStream)
    → Room (length vs) s
    → i.cursor ≡ s.cursor
    → Ahead (put_all vs s).content i (vs ++ drop (s.cursor + length vs) s.content)
Ahead-put_all vs s i h e = record {
  object = omega (arith, length-overwrite s.content s.cursor vs, h.object);
  inside = omega (arith, length-overwrite s.content s.cursor vs, h.room, e);
  ahead = rw e (drop-overwrite s.content s.cursor vs h.room);
}
