-- ===== src/Nic/Checksum.antt =====
-- include/nic/checksum.hpp: the Internet checksum. `struct checksum` holds one `u16`, `n`, which
-- stands for it here.
pub mod Sum
use toad_jawbreaker.Prelude.{
  ℕ, ◌+◌, ◌-◌, ◌%◌, ◌^◌, bit_and, bit_or, List, [], ◌∷◌, length, ltb, ◌==◌, if◌then◌else◌, Outcome,
  returns, assert, ◌>>◌,
}
use toad_jawbreaker.Prelude.Bits.{u16, u32, ◌<<<◌, ◌>>>◌}

-- One round of the loop: `acc` is a `u32`.
unfoldable pub add_word : ℕ → ℕ → ℕ
add_word acc word =
    let sum = u32 (acc + word) in if ltb 0xffff sum then u32 (bit_and sum 0xffff + 1) else sum

-- The loop over the span, two bytes a round. An odd byte at the end, which the assertion of
-- `of_span` excludes, is left out.
unfoldable pub sum_words : ℕ → List ℕ → ℕ
sum_words acc [] = acc
sum_words acc (b ∷ []) = acc
sum_words acc (hi ∷ lo ∷ rest) = sum_words (add_word acc (u16 (bit_or (hi <<< 8) lo))) rest

-- `acc = (acc & 0xFFFF) + (acc >> 16); n = ~acc & 0xFFFF;`
unfoldable pub finish : ℕ → ℕ
finish acc =
    let folded = u32 (bit_and acc 0xffff + (acc >>> 16)) in
    u16 (bit_and (2 ^ 32 - 1 - folded) 0xffff)

-- `checksum(std::span<u8>)`
unfoldable pub of_span : List ℕ → Outcome ℕ
of_span span = do
  assert (length span % 2 == 0)
  assert (ltb 0 (length span))
  returns (finish (sum_words 0 span))

-- `operator+`; `operator+=` assigns its result.
infixl 65 ◌⊞◌
unfoldable pub ◌⊞◌ : ℕ → ℕ → ℕ
a ⊞ b = let sum = u32 (a + b) in u16 (bit_and sum 0xffff + (sum >>> 16))
