-- ===== src/Bytes/Buffer.antt =====
-- include/bytes/buffer.hpp: a view of a shared allocation. `Store` holds the allocations that the
-- shared pointers own, each under a number, so that two buffers may name the same one. Freeing is
-- left out: an allocation lives while a buffer names it.
pub mod Aliasing
use toad_jawbreaker.Prelude.{
  ℕ, ◌+◌, ◌-◌, ◌^◌, List, Option, none, some, take, length, replicate, get_or, set, ◌==◌,
  if◌then◌else◌, drop, leb, Outcome, returns, aborts,
}
use toad_jawbreaker.Prelude.Bits.{sz}

pub record Store : Type 0 where
  pub allocation : ℕ → List ℕ
  pub next : ℕ

pub record Buffer : Type 0 where
  pub shared : ℕ
  pub offset : ℕ
  pub size : ℕ

abbrev update : (ℕ → List ℕ) → ℕ → List ℕ → ℕ → List ℕ
update f a bytes b = if b == a then bytes else f b

-- `new u8[n]`, filled with `bytes`.
unfoldable pub allocate : List ℕ → Store → ℕ × Store
allocate bytes st =
    (st.next, record { allocation = update st.allocation st.next bytes; next = st.next + 1 })

-- `Buffer(std::span<u8, size>)` copies the span.
unfoldable pub of_span : List ℕ → Store → Buffer × Store
unfolding allocate
of_span span st =
    let (a, st') = allocate span st in (record { shared = a; offset = 0; size = length span }, st')

-- `Buffer(sz size)` is filled with zeros.
unfoldable pub of_size : ℕ → Store → Buffer × Store
unfolding allocate
of_size size st =
    let (a, st') = allocate (replicate size 0) st in
    (record { shared = a; offset = 0; size = size }, st')

-- `Buffer(u8 *ptr, sz size)` takes the allocation over.
unfoldable pub of_pointer : ℕ → ℕ → Buffer
of_pointer ptr size = record { shared = ptr; offset = 0; size = size }

abbrev value_or : Option ℕ → ℕ → ℕ
value_or none n = n
value_or (some m) n = m

-- `Buffer(const std::vector<u8> &, std::optional<sz>)` copies so many bytes from the vector's start; to
-- copy more than there are is undefined.
unfoldable pub of_vector : List ℕ → Option ℕ → Store → Outcome (Buffer × Store)
unfolding allocate
of_vector vec size st =
    let n = value_or size (length vec) in
    let (a, st') = allocate (take n vec) st in
    if leb n (length vec)
    then returns (record { shared = a; offset = 0; size = n }, st')
    else aborts

-- `data()[i]`, and the assignment to it.
unfoldable pub read : Store → Buffer → ℕ → ℕ
read st b i = get_or (st.allocation b.shared) (sz (b.offset + i)) 0

unfoldable pub write : Store → Buffer → ℕ → ℕ → Store
write st b i v = record st {
  allocation = update st.allocation b.shared (set (st.allocation b.shared) (sz (b.offset + i)) v);
}

-- `slice(from, to)`; nothing is tested.
unfoldable pub slice : ℕ → ℕ → Buffer → Buffer
slice from to b = record b { offset = sz (b.offset + from); size = sz (to + 2 ^ 64 - from) }

-- `slice(length)`
unfoldable pub slice_front : ℕ → Buffer → Buffer
unfolding slice
slice_front len b = slice 0 len b

-- The bytes that a buffer shows.
unfoldable pub bytes : Store → Buffer → List ℕ
bytes st b = take b.size (drop b.offset (st.allocation b.shared))
