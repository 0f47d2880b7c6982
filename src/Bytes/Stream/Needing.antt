-- ===== src/Bytes/Stream/Needing.antt =====
-- What a chain of reads does with the cursor and the error code on any bytes: the code says, at the
-- end of the chain, whether there were enough of them.
use toad_jawbreaker.Prelude.{ℕ, ◌+◌, ◌^◌, ◌≤◌, ◌<◌, ◌≡◌, refl, List, arith, length}
use toad_jawbreaker.Bytes.Stream.{
  ByteIStream, not_enough_data, Reader, pure, ◌>>=◌, read_u8, read_u16, read_array,
}
use toad_jawbreaker.Bytes.Stream.Reading.{IsObject}
use toad_jawbreaker.Prelude.{◌∙◌}
use native.Mathlib.Decide.{dec_le}

-- From `s` to `t` a chain asked for `n` bytes.
pub record Asked (bytes : List ℕ) (n : ℕ) (s t : ByteIStream) : Type 0 where
  pub inside : t.cursor ≤ length bytes
  pub sticky : s.errc ≡ not_enough_data → t.errc ≡ not_enough_data
  pub enough : s.cursor + n ≤ length bytes → (t.errc ≡ s.errc) × (t.cursor ≡ s.cursor + n)
  pub short : length bytes < s.cursor + n → t.errc ≡ not_enough_data

pub record Needs {A : Type 0} (m : Reader A) (n : ℕ) : Type 0 where
  pub asks :
      (bytes : List ℕ) (s : ByteIStream)
      → IsObject bytes
      → s.cursor ≤ length bytes
      → Asked bytes n s (m bytes s).1

Asked-trans :
    {bytes : List ℕ} {n k : ℕ} {s t u : ByteIStream}
    → Asked bytes n s t
    → Asked bytes k t u
    → Asked bytes (n + k) s u
Asked-trans {bytes} {n} {k} {s} {t} {u} a b = record {
  inside = b.inside;
  sticky = λ h. b.sticky (a.sticky h);
  enough = λ h.
      let (e, c) = a.enough (omega arith) in
      let (e', c') = b.enough (omega arith) in (e' ∙ e, omega arith);
  short = λ h. elim (dec_le (s.cursor + n) (length bytes)) [
    | yes fit ↦ let (e, c) = a.enough fit in b.short (omega arith)
    | no over ↦ b.sticky (a.short (omega arith))
  ];
}

pub Needs-pure : {A : Type 0} (a : A) → Needs (pure a) 0
Needs-pure a = record {
  asks = λ bytes s object inside. record {
    inside = inside;
    sticky = λ h. h;
    enough = λ h. (refl, omega arith);
    short = λ h. absurd (omega arith);
  };
}

pub Needs-bind :
    {A B : Type 0} {m : Reader A} {n k : ℕ} (f : A → Reader B)
    → Needs m n
    → ((a : A) → Needs (f a) k)
    → Needs (m >>= f) (n + k)
unfolding ◌>>=◌
Needs-bind {m} f hm hf = record {
  asks = λ bytes s object inside.
      let first = hm.asks bytes s object inside in
      Asked-trans first ((hf (m bytes s).0).asks bytes (m bytes s).1 object first.inside);
}

pub Needs-u8 : (out : ℕ) → Needs (read_u8 out) 1
unfolding read_u8
Needs-u8 out = record { asks = λ bytes s object inside. ground arith }

pub Needs-u16 : (out : ℕ) → Needs (read_u16 out) 2
unfolding read_u16
Needs-u16 out = record { asks = λ bytes s object inside. ground arith }

pub Needs-array : (size : ℕ) (out : List ℕ) → size < 2 ^ 62 → Needs (read_array size out) size
unfolding read_array
Needs-array size out small = record { asks = λ bytes s object inside. ground arith }
