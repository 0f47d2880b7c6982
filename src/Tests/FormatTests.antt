-- ===== src/Tests/FormatTests.antt =====
-- The formatters with the numbers of {fmt} written out, on concrete inputs.
use toad_jawbreaker.Prelude.{
  All-append, ℕ, zero, suc, ◌+◌, ◌-◌, ◌*◌, ◌/◌, ◌%◌, ◌^◌, ◌≡◌, ◌<◌, refl, ap, List, [], ◌∷◌, ◌++◌,
  All, length, length-append, arith, if◌then◌else◌, ltb, ltb→lt, ltb_false→le, if-elim, returns,
  aborts, Option, none, some, Outcome,
}
use native.Mathlib.Nat.{pow-suc}
use toad_jawbreaker.Nic.Typestate.{direction_in}
use toad_jawbreaker.Nic.Icmp.{Icmp}
use toad_jawbreaker.Format.{
  Fmt, IsFmt, IsDigit, codes, format_mac, format_ipv4, format_vector, format_buffer,
}

-- The digits of a number, which is below the fuel.
decimal_from : ℕ → ℕ → List ℕ
decimal_from zero n = []
decimal_from (suc fuel) n =
    let front = decimal_from fuel (n / 10) in
    if ltb n 10 then (b'0' + n) ∷ [] else front ++ ((b'0' + n % 10) ∷ [])

hex_digit : ℕ → ℕ
hex_digit d = if ltb d 10 then b'0' + d else b'A' + (d - 10)

-- The last digits of a number, as many as the width; a wider number does not come up.
hex_from : ℕ → ℕ → List ℕ
hex_from zero n = []
hex_from (suc w) n = hex_from w (n / 16) ++ (hex_digit (n % 16) ∷ [])

shown_text : Option (List ℕ) → Outcome (List ℕ)
shown_text none = aborts
shown_text (some text) = returns text

abbrev fmt : Fmt
fmt = record { decimal = λ n. decimal_from (suc n) n; hex = hex_from; c_string = shown_text }

-- The number that digits of a base stand for.
value : ℕ → (ℕ → ℕ) → ℕ → List ℕ → ℕ
value base digit acc [] = acc
value base digit acc (c ∷ l) = value base digit (base * acc + digit c) l

value-append :
    (base : ℕ) (digit : ℕ → ℕ) (acc : ℕ) (l : List ℕ) (c : ℕ)
    → value base digit acc (l ++ (c ∷ [])) ≡ base * value base digit acc l + digit c
unfolding value
value-append base digit acc [] c = refl
value-append base digit acc (x ∷ l) c = value-append base digit (base * acc + digit x) l c

abbrev decimal_value : List ℕ → ℕ
decimal_value l = value 10 (λ c. c - b'0') 0 l

decimal_from-value : (fuel n : ℕ) → n < fuel → decimal_value (decimal_from fuel n) ≡ n
unfolding decimal_from value
decimal_from-value zero n h = absurd (omega arith)
decimal_from-value (suc fuel) n h =
    if-elim (λ l. decimal_value l ≡ n) (ltb n 10) ((b'0' + n) ∷ [])
      (decimal_from fuel (n / 10) ++ ((b'0' + n % 10) ∷ [])) (λ e. omega arith)
      λ e.
        let large = ltb_false→le n 10 e in
        omega (
          arith,
          value-append 10 (λ c. c - b'0') 0 (decimal_from fuel (n / 10)) (b'0' + n % 10),
          decimal_from-value fuel (n / 10) (omega (arith, large)),
        )

decimal_from-digits : (fuel n : ℕ) → All IsDigit (decimal_from fuel n)
unfolding decimal_from
decimal_from-digits zero n = tt
decimal_from-digits (suc fuel) n =
    if-elim (λ l. All IsDigit l) (ltb n 10) ((b'0' + n) ∷ [])
      (decimal_from fuel (n / 10) ++ ((b'0' + n % 10) ∷ []))
      (λ e. let small = ltb→lt n 10 e in ((omega arith, omega (arith, small)), tt))
      λ e.
        All-append IsDigit (decimal_from fuel (n / 10)) ((b'0' + n % 10) ∷ [])
          (decimal_from-digits fuel (n / 10)) ((omega arith, omega arith), tt)

length-hex_from : (w n : ℕ) → length (hex_from w n) ≡ w
unfolding hex_from
length-hex_from zero n = refl
length-hex_from (suc w) n = omega (
  arith,
  length-append (hex_from w (n / 16)) (hex_digit (n % 16) ∷ []),
  length-hex_from w (n / 16),
)

hex_value : ℕ → ℕ
hex_value c = if ltb c b'A' then c - b'0' else c - 55

hex_digit-value : (d : ℕ) → d < 16 → hex_value (hex_digit d) ≡ d
unfolding hex_value hex_digit
hex_digit-value d h = ground arith

hex_from-value : (w n : ℕ) → n < 16 ^ w → value 16 hex_value 0 (hex_from w n) ≡ n
unfolding hex_from value
hex_from-value zero n h = omega arith
hex_from-value (suc w) n h = omega (
  arith,
  pow-suc 16 w,
  value-append 16 hex_value 0 (hex_from w (n / 16)) (hex_digit (n % 16)),
  hex_from-value w (n / 16) (omega (arith, pow-suc 16 w)),
  hex_digit-value (n % 16) (omega arith),
)

fmt-IsFmt : IsFmt fmt
unfolding shown_text
fmt-IsFmt = record {
  decimal_digits = λ n. decimal_from-digits (suc n) n;
  decimal_injective = λ m n e. omega (
    arith,
    decimal_from-value (suc m) m (omega arith),
    decimal_from-value (suc n) n (omega arith),
    ap decimal_value e,
  );
  hex_width = λ w n h. length-hex_from w n;
  hex_injective = λ w m n h k e.
      omega (arith, hex_from-value w m h, hex_from-value w n k, ap (λ l. value 16 hex_value 0 l) e);
  c_string_text = λ text. refl;
  c_string_null = refl;
}

shown_ipv4 : format_ipv4 fmt (10 ∷ 0 ∷ 0 ∷ 255 ∷ []) ≡ codes "10.0.0.255"
unfolding format_ipv4 decimal_from
shown_ipv4 = refl

shown_mac : format_mac fmt (2 ∷ 0 ∷ 0x5e ∷ 0xff ∷ 0 ∷ 9 ∷ []) ≡ codes "02:00:5E:FF:00:09"
unfolding format_mac hex_from hex_digit
shown_mac = refl

shown_buffer : format_buffer fmt (255 ∷ 1 ∷ []) ≡ codes "FF 01 "
unfolding format_buffer hex_from hex_digit
shown_buffer = refl

shown_vector : format_vector fmt (1 ∷ 20 ∷ 3 ∷ []) ≡ codes "[1 20 3]"
unfolding format_vector decimal_from
shown_vector = refl

-- Destination unreachable.
abbrev unreachable : Icmp direction_in
unreachable = record { type = 3; code = 1; checksum = 0; rest = 0 ∷ 0 ∷ 0 ∷ 0 ∷ []; payload = [] }
