-- ===== src/Bytes/Stream/Reading.antt =====
-- What a chain of reads of include/bytes/bytestream.hpp does with bytes that lie ahead of the
-- cursor, and what every chain does with the cursor and the error code.
use toad_jawbreaker.Prelude.{
  ℕ, ◌+◌, ◌*◌, ◌/◌, ◌%◌, ◌^◌, ◌≤◌, ◌<◌, ◌≡◌, ap, ◌∙◌, List, [], ◌∷◌, ◌++◌, le→leb, length, drop,
  arith, append_assoc, length-append, length-drop, drop-add, drop-length_append, take-length_append,
  get_or-drop,
}
use toad_jawbreaker.Prelude.Bits.{u16, sz, bit_or_shifted}
use toad_jawbreaker.Bytes.Stream.{ByteIStream, Reader, pure, ◌>>=◌, read_u8, read_u16, read_array}

-- An object in memory has less than 2 ^ 63 bytes.
abbrev pub IsObject : List ℕ → Type 0
IsObject bytes = length bytes < 2 ^ 63

-- The cursor stands inside the bytes, and `vs` is all that lies ahead of it.
pub record Ahead (bytes : List ℕ) (s : ByteIStream) (vs : List ℕ) : Type 0 where
  pub object : IsObject bytes
  pub inside : s.cursor ≤ length bytes
  pub ahead : drop s.cursor bytes ≡ vs

abbrev pub skip : ℕ → ByteIStream → ByteIStream
skip n s = record s { cursor = s.cursor + n }

-- Wherever `vs` lies ahead, `m` takes exactly that and returns `a`.
pub record Reads {A : Type 0} (m : Reader A) (vs : List ℕ) (a : A) : Type 0 where
  pub takes :
      (bytes : List ℕ) (s : ByteIStream) (rest : List ℕ)
      → Ahead bytes s (vs ++ rest)
      → m bytes s ≡ (a, skip (length vs) s)

Ahead-room :
    {bytes : List ℕ} {s : ByteIStream} (vs rest : List ℕ)
    → Ahead bytes s (vs ++ rest)
    → s.cursor + length vs ≤ length bytes
Ahead-room {bytes} {s} vs rest h =
    omega (arith, length-drop s.cursor bytes, ap length h.ahead, length-append vs rest, h.inside)

pub Ahead-skip :
    {bytes : List ℕ} {s : ByteIStream} (vs rest : List ℕ)
    → Ahead bytes s (vs ++ rest)
    → Ahead bytes (skip (length vs) s) rest
Ahead-skip {bytes} {s} vs rest h = record {
  object = h.object;
  inside = Ahead-room vs rest h;
  ahead =
      drop-add s.cursor (length vs) bytes
      ∙ ap (λ l. drop (length vs) l) h.ahead
      ∙ drop-length_append vs rest;
}

pub Reads-pure : {A : Type 0} (a : A) → Reads (pure a) [] a
Reads-pure a = record {
  takes = λ bytes s rest h.
      ap (λ (k : ℕ). (a, record s { cursor = k })) {x = s.cursor} {y = s.cursor + 0} (omega arith);
}

pub Reads-bind :
    {A B : Type 0} {m : Reader A} {vs ws : List ℕ} {a : A} {b : B} (f : A → Reader B)
    → Reads m vs a
    → Reads (f a) ws b
    → Reads (m >>= f) (vs ++ ws) b
unfolding ◌>>=◌
Reads-bind {m} {vs} {ws} {a} {b} f hm hf = record { takes = go }
  where
    go :
        (bytes : List ℕ) (s : ByteIStream) (rest : List ℕ)
        → Ahead bytes s ((vs ++ ws) ++ rest)
        → (m >>= f) bytes s ≡ (b, skip (length (vs ++ ws)) s)
    go bytes s rest h =
        let h' : Ahead bytes s (vs ++ (ws ++ rest)) = record {
          object = h.object;
          inside = h.inside;
          ahead = h.ahead ∙ append_assoc vs ws rest;
        } in
        rw (hm.takes bytes s (ws ++ rest) h') (
          hf.takes bytes (skip (length vs) s) rest (Ahead-skip vs (ws ++ rest) h')
          ∙ ap (λ (k : ℕ). (b, record s { cursor = k })) {x = s.cursor + length vs + length ws}
              {y = s.cursor + length (vs ++ ws)} (omega (arith, length-append vs ws)))

pub Reads-u8 : (out v : ℕ) → Reads (read_u8 out) (v ∷ []) v
unfolding read_u8
Reads-u8 out v = record {
  takes = λ bytes s rest h.
      let room : s.cursor + 1 ≤ length bytes = Ahead-room (v ∷ []) rest h in
      rw (le→leb (sz (s.cursor + 1)) (length bytes) (omega (arith, h.object))) (
        rw (get_or-drop bytes s.cursor 0 v rest h.ahead) (
          ap (λ (k : ℕ). (v, record s { cursor = k })) {x = sz (s.cursor + 1)} {y = s.cursor + 1}
            (omega (arith, h.object))));
}

-- The big-endian bytes of a `u16`.
abbrev pub be16 : ℕ → List ℕ
be16 v = v / 256 ∷ v % 256 ∷ []

pub Reads-u16 : (out v : ℕ) → v < 2 ^ 16 → Reads (read_u16 out) (be16 v) v
unfolding read_u16
Reads-u16 out v small = record { takes = go }
  where
    go :
        (bytes : List ℕ) (s : ByteIStream) (rest : List ℕ)
        → Ahead bytes s (be16 v ++ rest)
        → read_u16 out bytes s ≡ (v, skip 2 s)
    go bytes s rest h =
        let room : s.cursor + 2 ≤ length bytes = Ahead-room (be16 v) rest h in
        let next : sz (s.cursor + 1) ≡ s.cursor + 1 = omega (arith, h.object) in
        let last : sz (sz (s.cursor + 1) + 1) ≡ s.cursor + 2 = omega (arith, h.object) in
        let low : drop (s.cursor + 1) bytes ≡ v % 256 ∷ rest =
          drop-add s.cursor 1 bytes ∙ ap (λ l. drop 1 l) h.ahead in
        rw (le→leb (sz (s.cursor + 2)) (length bytes) (omega (arith, h.object))) (
          rw (last, next)
            (rw (get_or-drop bytes s.cursor 0 (v / 256) (v % 256 ∷ rest) h.ahead) (
              rw (get_or-drop bytes (s.cursor + 1) 0 (v % 256) rest low) (
                rw (bit_or_shifted 8 (v / 256) (v % 256) (omega arith)) (
                  ap (λ (k : ℕ). (k, skip 2 s)) {x = u16 (v / 256 * 256 + v % 256)} {y = v}
                    (omega arith))))))

pub Reads-array :
    (size : ℕ) (out vs : List ℕ) → length vs ≡ size → Reads (read_array size out) vs vs
unfolding read_array
Reads-array size out vs e = record { takes = go }
  where
    go :
        (bytes : List ℕ) (s : ByteIStream) (rest : List ℕ)
        → Ahead bytes s (vs ++ rest)
        → read_array size out bytes s ≡ (vs, skip (length vs) s)
    go bytes s rest h =
        let room : s.cursor + length vs ≤ length bytes = Ahead-room vs rest h in
        let next : sz (s.cursor + length vs) ≡ s.cursor + length vs = omega (arith, h.object) in
        rw (← e) (
          rw (le→leb (sz (s.cursor + length vs)) (length bytes) (omega (arith, h.object)))
            (rw (h.ahead, take-length_append vs rest, next)))
