-- ===== src/Nic/Padding.antt =====
-- A packet in a buffer of zeros whose size is rounded up to a multiple of two, as
-- `calculate_checksum` of include/nic/ipv4.hpp and include/nic/icmp.hpp lays it out.
use toad_jawbreaker.Prelude.{
  ℕ, ◌+◌, ◌*◌, ◌-◌, ◌/◌, ◌%◌, ◌^◌, ◌<◌, ◌≡◌, ap, ◌∙◌, List, ◌++◌, length, replicate, arith,
  length-replicate, overwrite-zero, drop-replicate, zero, suc, All,
}
use toad_jawbreaker.Prelude.Bits.{sz, bit_and_even}
use toad_jawbreaker.Bytes.Stream.{Writer, new_ostream}
use toad_jawbreaker.Bytes.Stream.Writing.{Writes}
use toad_jawbreaker.Nic.Checksum.Sum.{IsByte}
use toad_jawbreaker.Nic.Ip.{padded}

pub padded_lem : (n : ℕ) → n < 2 ^ 63 → padded n ≡ (n + 1) / 2 * 2
padded_lem n h = rw (bit_and_even (sz (n + 1)) (omega arith)) (omega arith)

-- The zero that pads a packet of odd size.
abbrev pub padding : List ℕ → List ℕ
padding vs = replicate (length vs % 2) 0

pub content-padded :
    {w : Writer} {vs : List ℕ} (n : ℕ)
    → Writes w vs
    → length vs ≡ n
    → n < 2 ^ 62
    → (w (new_ostream (replicate (padded n) 0))).content ≡ vs ++ padding vs
content-padded {vs} n hw e small =
    let size : padded n ≡ (n + 1) / 2 * 2 = padded_lem n (omega arith) in
    let room : length {A = ℕ} (replicate (padded n) 0) ≡ padded n = length-replicate (padded n) 0 in
    rw
      (hw.puts (new_ostream (replicate (padded n) 0))
        (record { object = omega (arith, size, room); room = omega (arith, size, room) }))
      (overwrite-zero (replicate (padded n) 0) vs (omega (arith, size, room))
        ∙ ap (λ l. vs ++ l)
            (drop-replicate (length vs) (padded n) 0
              ∙ ap (λ (k : ℕ). replicate k 0) {x = padded n - length vs} {y = length vs % 2}
                  (omega (arith, size))))

pub padding-IsByte : (vs : List ℕ) → All IsByte (padding vs)
padding-IsByte vs = zeros (length vs % 2)
  where
    zeros : (k : ℕ) → All IsByte (replicate k 0)
    zeros zero = tt
    zeros (suc k) = (omega arith, zeros k)
