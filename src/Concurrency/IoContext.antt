-- ===== src/Concurrency/IoContext.antt =====
-- include/concurrency/iocontext.hpp and include/concurrency/pending.hpp: what is submitted to the
-- kernel, and the handlers of the completions. A socket is its descriptor. The future of a handle is
-- the state that its weak pointer finds at the completion, `none` if that is gone. Every handler
-- returns false, so the pending object is deleted after it. The kernel is in the child Kernel.
pub mod Reading
pub mod Loop
pub mod Submission
pub mod Kernel
pub mod EventLoop
pub mod WriteBuffers
use toad_jawbreaker.Prelude.{
  ℕ, ◌+◌, ◌-◌, ◌*◌, ◌/◌, ◌%◌, ◌^◌, if◌then◌else◌, List, [], ◌++◌, Option, none, some, Outcome,
  returns, aborts, ◌>>=◌, ◌>>◌, length, take, replicate, leb,
}
use toad_jawbreaker.Prelude.Int.{ℤ, pos, negsuc, is_negative, equals}
use toad_jawbreaker.Prelude.Bits.{sz}
use toad_jawbreaker.Bytes.Stream.{max_vector_size}
use toad_jawbreaker.Bytes.Buffer.{Store, Buffer, of_size, slice_front}
use toad_jawbreaker.Concurrency.Future.{FutureState, new_state, set_value}

-- The conversion of an `int` to `sz`.
abbrev pub to_sz : ℤ → ℕ
to_sz (pos n) = sz n
to_sz (negsuc n) = 2 ^ 64 - 1 - n

-- `std::vector::resize`, with the exception of the standard library.
abbrev pub resize : ℕ → List ℕ → Outcome (List ℕ)
resize n vec =
    if leb n max_vector_size then returns (take n vec ++ replicate (n - length vec) 0) else aborts

-- A future after `set_value`, and the coroutines that it spawned.
abbrev pub Resolved : Type 0 → Type 0
Resolved T = Outcome (Option (FutureState T) × List ℕ)

pub record PendingListen : Type 0 where
  pub sockfd : ℕ
  pub handle : Option (FutureState ℤ)

-- The address, which only the kernel reads, is left out.
pub record PendingConnect : Type 0 where
  pub sockfd : ℕ
  pub handle : Option (FutureState (Option ℕ))

-- The vector is a reference: the handlers take it as it is at the completion.
pub record PendingReadSomeVec : Type 0 where
  pub sockfd : ℕ
  pub handle : Option (FutureState ℕ)
  pub initial_size : ℕ

pub record PendingReadSome : Type 0 where
  pub sockfd : ℕ
  pub handle : Option (FutureState (Option Buffer))
  pub buffer : Buffer

-- `submit_read_some(socket, max_size)`
unfoldable pub submit_read_some : ℕ → ℕ → Store → PendingReadSome × Store
submit_read_some sockfd max_size st =
    let (buffer, st') = of_size max_size st in
    (record { sockfd = sockfd; handle = some new_state; buffer = buffer }, st')

-- `submit_read_some(socket, vec, max_size)`, which makes room behind what is in the vector.
unfoldable pub submit_read_some_vec : ℕ → List ℕ → ℕ → Outcome (PendingReadSomeVec × List ℕ)
submit_read_some_vec sockfd vec max_size = resize (sz (length vec + max_size)) vec >>= λ vec'.
    returns (record { sockfd = sockfd; handle = some new_state; initial_size = length vec }, vec')

-- The handlers, with the result of the completion.
unfoldable pub handle_connect : ℤ → PendingConnect → Resolved (Option ℕ)
handle_connect res connect =
    if is_negative res
    then set_value none connect.handle
    else set_value (some connect.sockfd) connect.handle

unfoldable pub handle_read_some : ℤ → PendingReadSome → Resolved (Option Buffer)
handle_read_some res read_some =
    let value =
      if equals res (pos 0) then none else some (slice_front (to_sz res) read_some.buffer) in
    set_value value read_some.handle

abbrev pub econnreset : ℤ
econnreset = negsuc 103

-- With the vector, which is resized to what was read.
unfoldable pub handle_read_some_vec :
    ℤ → PendingReadSomeVec → List ℕ → Outcome (List ℕ × Option (FutureState ℕ) × List ℕ)
handle_read_some_vec res read_some vec =
    if equals res econnreset
    then returns (vec, read_some.handle, [])
    else (resize (sz (read_some.initial_size + to_sz res)) vec >>= λ vec'.
        set_value (to_sz res) read_some.handle >>= λ (handle, spawned).
        returns (vec', handle, spawned))

unfoldable pub handle_listen : ℤ → PendingListen → Resolved ℤ
handle_listen res listen = set_value res listen.handle

-- The time that `event_loop` waits for a completion: seconds and nanoseconds.
unfoldable pub timespec : ℕ → ℕ × ℕ
timespec timeout_ms = (timeout_ms / 1000, (timeout_ms % 1000) * 1000000 % 2 ^ 32)
