-- ===== src/Socks5/Forward.antt =====
-- `forward_connection_data_` of include/socks5/server.hpp: what is read from one socket is written
-- to the other. `submit_read_some` appends to the vector.
use toad_jawbreaker.Prelude.{
  ℕ, ◌+◌, ◌*◌, ◌≤◌, ◌<◌, ◌≡◌, ◌≢◌, sym, ap, ◌∙◌, List, [], ◌∷◌, ◌++◌, length, take, arith,
  length-append, append_assoc, append-nil,
}

-- What `submit_read_some(lhs, buffer, 1024)` appends of what the socket has.
unfoldable pub read_some : List ℕ → List ℕ
read_some chunk = take 1024 chunk

-- The loop: for each read, one write of all of `buffer`. It ends with what the socket delivers.
unfoldable pub forward : List ℕ → List (List ℕ) → List (List ℕ)
forward buffer [] = []
forward buffer (chunk ∷ chunks) =
    let buffer' = buffer ++ read_some chunk in buffer' ∷ forward buffer' chunks

abbrev pub concat : List (List ℕ) → List ℕ
concat [] = []
concat (x ∷ xs) = x ++ concat xs

-- What the reads delivered, in the order of the reads.
abbrev pub delivered : List (List ℕ) → List ℕ
delivered [] = []
delivered (c ∷ cs) = read_some c ++ delivered cs

-- Everything delivered so far is in the last write.
abbrev pub last_write : List ℕ → List (List ℕ) → List ℕ
last_write d [] = d
last_write d (x ∷ xs) = last_write x xs

-- The last write of the loop holds all that the reads delivered, in order, behind what the buffer
-- held before.
pub forward_last :
    (buffer : List ℕ) (chunks : List (List ℕ))
    → last_write buffer (forward buffer chunks) ≡ buffer ++ delivered chunks
unfolding forward
forward_last buffer [] = sym (append-nil buffer)
forward_last buffer (c ∷ cs) =
    forward_last (buffer ++ read_some c) cs ∙ append_assoc buffer (read_some c) (delivered cs)

-- Every write but the first repeats the writes before it: the number of bytes written is that of
-- the buffer for every round, and of each chunk for every round from its own on.
abbrev pub repeated : List (List ℕ) → ℕ
repeated [] = 0
repeated (c ∷ cs) = (1 + length cs) * length (read_some c) + repeated cs

pub length-forward :
    (buffer : List ℕ) (chunks : List (List ℕ))
    → length (concat (forward buffer chunks)) ≡ length chunks * length buffer + repeated chunks
unfolding forward
length-forward buffer [] = omega arith
length-forward buffer (c ∷ cs) = omega (
  arith,
  length-forward (buffer ++ read_some c) cs,
  ap (λ (t : ℕ). length cs * t) (length-append buffer (read_some c)),
  length-append buffer (read_some c),
  length-append (buffer ++ read_some c) (concat (forward (buffer ++ read_some c) cs)),
)

length-delivered-le : (chunks : List (List ℕ)) → length (delivered chunks) ≤ repeated chunks
length-delivered-le [] = omega arith
length-delivered-le (c ∷ cs) =
    omega (arith, length-delivered-le cs, length-append (read_some c) (delivered cs))

-- If the first of two or more reads delivers any byte, even if the later ones deliver none, what is
-- written is not what was delivered.
pub forward_duplicates :
    (c d : List ℕ) (rest : List (List ℕ))
    → 0 < length (read_some c)
    → concat (forward [] (c ∷ d ∷ rest)) ≢ delivered (c ∷ d ∷ rest)
forward_duplicates c d rest some_bytes e = omega (
  arith,
  ap length e,
  length-forward [] (c ∷ d ∷ rest),
  length-append (read_some c) (delivered (d ∷ rest)),
  length-delivered-le (d ∷ rest),
)
