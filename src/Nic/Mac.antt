-- ===== src/Nic/Mac.antt =====
-- include/nic/mac.hpp: hardware addresses, arrays of six bytes.
use toad_jawbreaker.Prelude.{
  ℕ, zero, suc, ◌+◌, ◌≡◌, ◌↔◌, Bool, true, ◌&&◌, List, [], ◌∷◌, ◌==◌, length, replicate, get_or,
  arith,
}

-- `struct MAC : std::array<u8, 6>`
abbrev pub IsMac : List ℕ → Type 0
IsMac mac = length mac ≡ 6

-- The loop of `is_default`: `k` rounds are left, and the next index is `i`.
zero_from : ℕ → ℕ → Bool → List ℕ → Bool
zero_from zero i is_zero mac = is_zero
zero_from (suc k) i is_zero mac = zero_from k (i + 1) (is_zero && (get_or mac i 0 == 0)) mac

unfoldable pub is_default : List ℕ → Bool
unfolding zero_from
is_default mac = zero_from 6 0 true mac

-- `is_default` holds of the address of six zeros and of no other.
pub is_default_iff : (mac : List ℕ) → IsMac mac → (is_default mac ≡ true) ↔ (mac ≡ replicate 6 0)
unfolding is_default
is_default_iff (a ∷ b ∷ c ∷ d ∷ e ∷ f ∷ []) h = ground arith
is_default_iff mac h = ground arith
