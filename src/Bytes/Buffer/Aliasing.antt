-- ===== src/Bytes/Buffer/Aliasing.antt =====
-- Slices of include/bytes/buffer.hpp share the bytes of the buffer they are cut from.
use toad_jawbreaker.Prelude.{
  ℕ, zero, suc, ◌+◌, ◌-◌, ◌^◌, ◌<◌, ◌≤◌, ◌≡◌, ◌≢◌, refl, ap, List, [], ◌∷◌, length, get_or, set,
  ◌==◌, if◌then◌else◌, arith, take, true, false, leb, le→leb, some, returns,
}
use toad_jawbreaker.Bytes.Buffer.{
  Store, Buffer, of_span, of_vector, allocate, read, write, slice, bytes,
}

-- The buffer lies inside its allocation, which is an object in memory.
pub record IsView (st : Store) (b : Buffer) : Type 0 where
  pub object : length (st.allocation b.shared) < 2 ^ 63
  pub inside : b.offset + b.size ≤ length (st.allocation b.shared)

get_or-set :
    (xs : List ℕ) (i j v : ℕ)
    → i < length xs
    → get_or (set xs i v) j 0 ≡ (if i == j then v else get_or xs j 0)
get_or-set [] i j v h = absurd (omega arith)
get_or-set (x ∷ xs) zero zero v h = ground arith
get_or-set (x ∷ xs) zero (suc j) v h = ground arith
get_or-set (x ∷ xs) (suc i) zero v h = ground arith
get_or-set (x ∷ xs) (suc i) (suc j) v h = ground (arith, get_or-set xs i j v (omega arith))

-- A slice within a view is a view.
pub slice-IsView :
    (st : Store) (b : Buffer) (from to : ℕ)
    → IsView st b
    → from ≤ to
    → to ≤ b.size
    → IsView st (slice from to b)
unfolding slice
slice-IsView st b from to h le inside = record {
  object = h.object;
  inside = omega (arith, h.object, h.inside);
}

-- A write through a slice is a write to the buffer it was cut from, at the slice's start further
-- on: a read of the buffer sees it there, and sees the old bytes at every other place.
pub read-write-slice :
    (st : Store) (b : Buffer) (from to i j v : ℕ)
    → IsView st b
    → from ≤ to
    → to ≤ b.size
    → i < to - from
    → j < b.size
    → read (write st (slice from to b) i v) b j ≡ (if from + i == j then v else read st b j)
unfolding read write slice
read-write-slice st b from to i j v h le inside hi hj = ground (
  arith,
  h.object,
  h.inside,
  get_or-set (st.allocation b.shared) (b.offset + from + i) (b.offset + j) v,
)

-- A slice of a slice is the slice at the sum of the two starts.
pub slice-slice :
    (st : Store) (b : Buffer) (from to from' to' : ℕ)
    → IsView st b
    → from ≤ to
    → to ≤ b.size
    → from' ≤ to'
    → to' ≤ to - from
    → slice from' to' (slice from to b) ≡ slice (from + from') (from + to') b
unfolding slice
slice-slice st b from to from' to' h le inside le' inside' = ground (arith, h.object, h.inside)

take_all : (xs : List ℕ) → take (length xs) xs ≡ xs
take_all [] = refl
take_all (x ∷ xs) = ap (λ l. x ∷ l) (take_all xs)

-- A fresh buffer shows what it was filled with, and leaves every buffer made before as it was.
pub of_span-bytes :
    (st : Store) (span : List ℕ) (b : Buffer)
    → b.shared < st.next
    → (bytes (of_span span st).1 (of_span span st).0 ≡ span)
      × (bytes (of_span span st).1 b ≡ bytes st b)
      × ((of_span span st).0.shared ≢ b.shared)
unfolding of_span bytes
of_span-bytes st span b old =
    let here : (st.next == st.next) ≡ true = ground arith in
    let there : (b.shared == st.next) ≡ false = ground arith in
    (rw here (take_all span), rw there, λ e. omega arith)

take-take : (n : ℕ) (xs : List ℕ) → take n (take n xs) ≡ take n xs
take-take zero xs = refl
take-take (suc n) [] = refl
take-take (suc n) (x ∷ xs) = ap (λ l. x ∷ l) (take-take n xs)

-- A buffer from as many bytes of a vector as there are shows these bytes.
pub of_vector-bytes :
    (vec : List ℕ) (n : ℕ) (st : Store)
    → n ≤ length vec
    → (b : Buffer) × (st' : Store) × (of_vector vec (some n) st ≡ returns (b, st'))
      × (bytes st' b ≡ take n vec)
unfolding of_vector allocate bytes
of_vector-bytes vec n st h =
    let fits : leb n (length vec) ≡ true = le→leb n (length vec) h in
    let found : (st.next == st.next) ≡ true = ground arith in
    (
      record { shared = st.next; offset = 0; size = n },
      (allocate (take n vec) st).1,
      rw fits refl,
      rw found (take-take n vec),
    )
