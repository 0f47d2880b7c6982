-- ===== src/Socks5/Server/Methods.antt =====
-- The loop of include/socks5/server.hpp over the authentication methods ends, and finds whether
-- "no authentication", 0x00, is among them.
use toad_jawbreaker.Prelude.{
  ℕ, zero, suc, ◌+◌, ◌<◌, ◌≡◌, refl, sym, ap, ◌∙◌, Bool, true, false, ◌||◌, List, [], ◌∷◌, some,
  length, length-drop, ◌==◌, if◌then◌else◌, arith,
}
use toad_jawbreaker.Bytes.Stream.{ByteIStream, remaining}
use toad_jawbreaker.Bytes.Stream.Reading.{Ahead, Reads-u8, Ahead-skip, skip}
use toad_jawbreaker.Socks5.Server.{scan_methods}

abbrev pub has_zero : List ℕ → Bool
has_zero [] = false
has_zero (b ∷ bs) = (b == 0x00) || has_zero bs

pub remaining-Ahead :
    (vec : List ℕ) (s : ByteIStream) (vs : List ℕ) → Ahead vec s vs → remaining vec s ≡ length vs
unfolding remaining
remaining-Ahead vec s vs h =
    omega (arith, h.object, h.inside, length-drop s.cursor vec, ap length h.ahead)

or_false : (b : Bool) → (b || false) ≡ b
or_false true = refl
or_false false = refl

-- With more fuel than bytes ahead, the loop has a result: it has taken all of the bytes, and says
-- whether one of them was zero, or the flag was set before.
pub scan_methods_ends :
    (vs : List ℕ) (fuel junk : ℕ) (vec : List ℕ) (s : ByteIStream) (is_ok : Bool)
    → Ahead vec s vs
    → length vs < fuel
    → scan_methods fuel junk vec s is_ok ≡ some (is_ok || has_zero vs, skip (length vs) s)
unfolding scan_methods
scan_methods_ends vs zero junk vec s is_ok h enough = absurd (omega arith)
scan_methods_ends [] (suc fuel) junk vec s is_ok h enough = rw (remaining-Ahead vec s [] h) (
    ap (λ (k : ℕ). some (is_ok, record s { cursor = k })) {x = s.cursor} {y = s.cursor + 0}
      (omega arith)
    ∙ ap (λ b. some (b, skip 0 s)) (sym (or_false is_ok)))
scan_methods_ends (v ∷ vs) (suc fuel) junk vec s is_ok h enough =
    let more : (remaining vec s == 0) ≡ false = ground (arith, remaining-Ahead vec s (v ∷ vs) h) in
    rw ((Reads-u8 junk v).takes vec s vs h) (
      rw more (
        scan_methods_ends vs fuel junk vec (skip 1 s) (if v == 0x00 then true else is_ok)
          (Ahead-skip (v ∷ []) vs h) (omega arith)
        ∙ ground arith))
