-- ===== src/Nic/Checksum/Sum.antt =====
-- The loop of include/nic/checksum.hpp computes the sum in ones' complement, whatever the order of
-- its carries, and a packet that carries its checksum sums to all ones.
use toad_jawbreaker.Prelude.{
  All-append, returns-injective, ℕ, ◌+◌, ◌-◌, ◌*◌, ◌/◌, ◌%◌, ◌^◌, ◌≤◌, ◌<◌, ◌≡◌, refl, ap, ◌∙◌,
  List, [], ◌∷◌, ◌++◌, All, length, bit_and, bit_or, length-append, true, ◌⊎◌, ◌↔◌, inl, inr, ltb,
  ◌==◌, if◌then◌else◌, returns, aborts, arith,
}
use toad_jawbreaker.Prelude.Bits.{u16, u32, bit_or_shifted, bit_and_ones}
use toad_jawbreaker.Bytes.Stream.Reading.{be16}
use toad_jawbreaker.Nic.Checksum.{add_word, sum_words, finish, of_span, ◌⊞◌}

abbrev pub IsByte : ℕ → Type 0
IsByte b = b < 256

-- The specification: the total of the big-endian words, as a plain number.
abbrev pub word_total : List ℕ → ℕ
word_total [] = 0
word_total (b ∷ []) = 0
word_total (hi ∷ lo ∷ rest) = hi * 256 + lo + word_total rest

-- A total in ones' complement on 16 bits: zero only for zero, else from 1 to 0xffff.
abbrev pub ones : ℕ → ℕ
ones t = if t == 0 then 0 else (t - 1) % 0xffff + 1

pub ones_cases : (t : ℕ) → (ones t ≤ 0xffff) × (ones t % 0xffff ≡ t % 0xffff)
ones_cases t = ground arith

add_word_lem : (acc word : ℕ) → acc ≤ 0xffff → word ≤ 0xffff → add_word acc word ≡ ones (acc + word)
unfolding add_word
add_word_lem acc word ha hw = ground (arith, bit_and_ones 16 (u32 (acc + word)) 0xffff refl)

ones-add : (t word : ℕ) → ones (ones t + word) ≡ ones (t + word)
ones-add t word = ground arith

-- The state of the loop is always the ones' complement sum of what it has read.
sum_words-ones :
    (t : ℕ) (bytes : List ℕ)
    → All IsByte bytes
    → sum_words (ones t) bytes ≡ ones (t + word_total bytes)
unfolding sum_words
sum_words-ones t [] h = ap ones {x = t} {y = t + 0} (omega arith)
sum_words-ones t (b ∷ []) h = ap ones {x = t} {y = t + 0} (omega arith)
sum_words-ones t (hi ∷ lo ∷ rest) (h, (l, hs)) =
    let word : u16 (bit_or (hi * 2 ^ 8) lo) ≡ hi * 256 + lo =
      omega (arith, bit_or_shifted 8 hi lo (omega arith)) in
    rw word (
      rw (add_word_lem (ones t) (hi * 256 + lo) (ones_cases t).0 (omega arith)) (
        rw (ones-add t (hi * 256 + lo)) (
          sum_words-ones (t + (hi * 256 + lo)) rest hs
          ∙ ap ones {x = t + (hi * 256 + lo) + word_total rest}
              {y = t + (hi * 256 + lo + word_total rest)} (omega arith))))

finish_lem : (acc : ℕ) → acc ≤ 0xffff → finish acc ≡ 0xffff - acc
unfolding finish
finish_lem acc h = ground (
  arith,
  bit_and_ones 16 acc 0xffff refl,
  bit_and_ones 16 (2 ^ 32 - 1 - u32 (bit_and acc 0xffff + acc / 2 ^ 16)) 0xffff refl,
)

-- On a span of bytes of even, positive length the constructor returns the complement of the ones'
-- complement sum of its big-endian words, a `u16`.
pub of_span_sum :
    (bytes : List ℕ)
    → All IsByte bytes
    → length bytes % 2 ≡ 0
    → 0 < length bytes
    → of_span bytes ≡ returns (0xffff - ones (word_total bytes))
unfolding of_span
of_span_sum bytes h even some_bytes =
    let e : (length bytes % 2 == 0) ≡ true = ground arith in
    let p : ltb 0 (length bytes) ≡ true = ground arith in
    rw e (
      rw p (
        ap returns (
          ap finish (
            sum_words-ones 0 bytes h
            ∙ ap ones {x = 0 + word_total bytes} {y = word_total bytes} (omega arith))
          ∙ finish_lem (ones (word_total bytes)) (ones_cases (word_total bytes)).0)))

-- The constructor aborts exactly on a span that is empty or of odd length.
pub of_span-aborts_iff :
    (bytes : List ℕ) → (of_span bytes ≡ aborts) ↔ ((length bytes % 2 ≡ 1) ⊎ (length bytes ≡ 0))
unfolding of_span
of_span-aborts_iff bytes = ground arith

of_span-odd : (bytes : List ℕ) → length bytes % 2 ≡ 1 → of_span bytes ≡ aborts
of_span-odd bytes h = (of_span-aborts_iff bytes).1 (inl h)

dec_even : (n : ℕ) → (n % 2 ≡ 0) ⊎ (n % 2 ≡ 1)
dec_even n = ground arith

pub word_total-append :
    (xs ys : List ℕ) → length xs % 2 ≡ 0 → word_total (xs ++ ys) ≡ word_total xs + word_total ys
word_total-append [] ys even = omega arith
word_total-append (x ∷ []) ys even = absurd (omega arith)
word_total-append (x ∷ y ∷ xs) ys even = omega (arith, word_total-append xs ys (omega arith))

length-around :
    (front back : List ℕ) (a b : ℕ)
    → length (front ++ (a ∷ b ∷ back)) ≡ length front + 2 + length back
length-around front back a b = omega (arith, length-append front (a ∷ b ∷ back))

byte-range : (t c : ℕ) → c ≡ 0xffff - ones t → c ≤ 0xffff
byte-range t c e = omega arith

byte-div : (c : ℕ) → c ≤ 0xffff → c / 256 < 256
byte-div c h = omega arith

complement_lem : (c t u : ℕ) → c ≡ 0xffff - ones t → u ≡ t + c → 0xffff - ones u ≡ 0
complement_lem c t u e f = ground arith

-- A packet with its checksum in the place that was zero when the checksum was taken has the checksum
-- 0. The place begins at an even offset.
pub of_span_verifies :
    (front back : List ℕ) (c : ℕ)
    → All IsByte front
    → All IsByte back
    → length front % 2 ≡ 0
    → of_span (front ++ (0 ∷ 0 ∷ back)) ≡ returns c
    → of_span (front ++ (be16 c ++ back)) ≡ returns 0
of_span_verifies front back c hf hb even taken = elim (dec_even (length back)) [
  | inr odd ↦ cc (of_span-odd (front ++ (0 ∷ 0 ∷ back)) (omega (arith, before)))
  | inl evens ↦
      let zeroed =
        of_span_sum (front ++ (0 ∷ 0 ∷ back))
          (All-append IsByte front (0 ∷ 0 ∷ back) hf (omega arith, (omega arith, hb)))
          (omega (arith, before)) (omega (arith, before)) in
      let e : c ≡ 0xffff - ones (word_total (front ++ (0 ∷ 0 ∷ back))) =
        returns-injective taken zeroed in
      of_span_sum (front ++ (be16 c ++ back))
        (All-append IsByte front (be16 c ++ back) hf
          (byte-div c (byte-range _ c e), (omega arith, hb)))
        (omega (arith, after)) (omega (arith, after))
      ∙ ap returns (
          complement_lem c (word_total (front ++ (0 ∷ 0 ∷ back)))
            (word_total (front ++ (be16 c ++ back))) e
            (omega (
              arith,
              word_total-append front (0 ∷ 0 ∷ back) even,
              word_total-append front (be16 c ++ back) even,
            )))
]
  where
    before : length (front ++ (0 ∷ 0 ∷ back)) ≡ length front + 2 + length back
    before = length-around front back 0 0

    after : length (front ++ (be16 c ++ back)) ≡ length front + 2 + length back
    after = length-around front back (c / 256) (c % 256)

-- `operator+` is the sum in ones' complement of two checksums, and stays a `u16`.
pub add_checksums : (a b : ℕ) → a ≤ 0xffff → b ≤ 0xffff → (a ⊞ b ≡ ones (a + b)) × (a ⊞ b ≤ 0xffff)
unfolding ◌⊞◌
add_checksums a b ha hb = ground (arith, bit_and_ones 16 (u32 (a + b)) 0xffff refl)

-- On checksums `operator+` is associative and commutative, so the order of a sum does not matter.
pub add_checksums_order :
    (a b c : ℕ)
    → a ≤ 0xffff
    → b ≤ 0xffff
    → c ≤ 0xffff
    → (a ⊞ b ≡ b ⊞ a) × ((a ⊞ b) ⊞ c ≡ a ⊞ (b ⊞ c))
add_checksums_order a b c ha hb hc =
    let (e, small) = add_checksums a b ha hb in
    let (f, small') = add_checksums b c hb hc in
    let (g, _) = add_checksums b a hb ha in
    let (l, _) = add_checksums (a ⊞ b) c small hc in
    let (r, _) = add_checksums a (b ⊞ c) ha small' in ground (arith, e, f, g, l, r)
