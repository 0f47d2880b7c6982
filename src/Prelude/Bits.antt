-- ===== src/Prelude/Bits.antt =====
-- `|` of disjoint fields and `&` with a low mask, as arithmetic. Shifts are products and quotients
-- by powers of two: `x << k` is `x * 2 ^ k` and `x >> k` is `x / 2 ^ k`.
use Prim.Native.Nat.{
  ℕ, zero, suc, ◌+◌, ◌-◌, ◌*◌, ◌/◌, ◌%◌, ◌^◌, ◌≤◌, ◌<◌, min, max, bit_and, bit_or, digits,
  bit_and-bitwise, bit_or-bitwise,
}
use mathlib.Core.Path.{◌≡◌, refl, ap}
use native.Mathlib.Nat.{pow-suc}
use native.Mathlib.Omega.{arith}

-- The casts to the unsigned types of include/defs.hpp.
abbrev pub u8 : ℕ → ℕ
u8 n = n % 2 ^ 8

abbrev pub u16 : ℕ → ℕ
u16 n = n % 2 ^ 16

abbrev pub u32 : ℕ → ℕ
u32 n = n % 2 ^ 32

abbrev pub sz : ℕ → ℕ
sz n = n % 2 ^ 64

infixl 60 ◌<<<◌ ◌>>>◌
abbrev pub ◌<<<◌ : ℕ → ℕ → ℕ
x <<< k = x * 2 ^ k

abbrev pub ◌>>>◌ : ℕ → ℕ → ℕ
x >>> k = x / 2 ^ k

shift_suc : (q k : ℕ) → q * 2 ^ suc k ≡ 2 * (q * 2 ^ k)
shift_suc q k = omega (arith, ap (λ (t : ℕ). q * t) (pow-suc 2 k))

-- The recursion behind `|`, on `a` with `k` low zeros and `r` of at most `k` digits.
or_digits : (n k q r a : ℕ) → a ≡ q * 2 ^ k → r < 2 ^ k → a ≤ n → digits (λ x. x) max n a r ≡ a + r
or_digits zero k q r a e fits fuel = omega arith
or_digits (suc n) k q r zero e fits fuel = omega arith
or_digits (suc n) zero q r (suc a) e fits fuel = omega (
  arith,
  or_digits n zero (suc a / 2) (r / 2) (suc a / 2) (omega arith) (omega arith) (omega arith),
)
or_digits (suc n) (suc k) q r (suc a) e fits fuel = omega (
  arith,
  shift_suc q k,
  pow-suc 2 k,
  or_digits n k q (r / 2) (suc a / 2) (omega (arith, shift_suc q k)) (omega (arith, pow-suc 2 k))
      (omega arith),
)

-- `(q << k) | r` is a sum when `r` has at most `k` digits.
pub bit_or_shifted : (k q r : ℕ) → r < 2 ^ k → bit_or (q * 2 ^ k) r ≡ q * 2 ^ k + r
bit_or_shifted k q r fits =
    rw bit_or-bitwise (or_digits (q * 2 ^ k) k q r (q * 2 ^ k) refl fits (omega arith))

-- The recursion behind `&` with a mask `m` of `k` ones.
and_digits :
    (n k q r m a : ℕ)
    → a ≡ q * 2 ^ k + r
    → r < 2 ^ k
    → m + 1 ≡ 2 ^ k
    → a ≤ n
    → digits (λ x. 0) min n a m ≡ r
and_digits zero k q r m a e fits ones fuel = omega arith
and_digits (suc n) k q r m zero e fits ones fuel = omega arith
and_digits (suc n) zero q r m (suc a) e fits ones fuel = omega (
  arith,
  and_digits n zero (suc a / 2) 0 (m / 2) (suc a / 2) (omega arith) (omega arith) (omega arith)
      (omega arith),
)
and_digits (suc n) (suc k) q r m (suc a) e fits ones fuel = omega (
  arith,
  shift_suc q k,
  pow-suc 2 k,
  and_digits n k q (r / 2) (m / 2) (suc a / 2) (omega (arith, shift_suc q k))
      (omega (arith, pow-suc 2 k)) (omega (arith, pow-suc 2 k)) (omega arith),
)

-- A mask of `k` ones keeps the remainder by `2 ^ k`.
pub bit_and_ones : (k a m : ℕ) → m + 1 ≡ 2 ^ k → bit_and a m ≡ a % 2 ^ k
bit_and_ones k a m ones =
    rw bit_and-bitwise
      (and_digits a k (a / 2 ^ k) (a % 2 ^ k) m a (grind arith) (grind arith) ones (omega arith))

-- `x & ~1` clears the lowest digit.
pub bit_and_even : (a : ℕ) → a < 2 ^ 64 → bit_and a (2 ^ 64 - 2) ≡ a / 2 * 2
bit_and_even zero h = refl
bit_and_even (suc a) h = rw bit_and-bitwise (
    omega (
      arith,
      and_digits a 63 0 (suc a / 2) (2 ^ 63 - 1) (suc a / 2) (omega arith) (omega arith) refl
          (omega arith),
    ))
