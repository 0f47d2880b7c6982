-- ===== src/Concurrency/IoContext/Submission.antt =====
-- include/concurrency/iocontext.hpp: the operations that coroutines submit. `address` is what `new`
-- gives for the pending object, and `fd` what `socket` gives; the entries of the ring that the kernel
-- has not been shown yet are a list.
use toad_jawbreaker.Prelude.{
  store, ℕ, ◌/◌, ◌^◌, Bool, if◌then◌else◌, List, [], ◌∷◌, ◌++◌, some, Outcome, returns, aborts,
  ◌>>=◌, ◌>>◌, assert, not,
}
use toad_jawbreaker.Prelude.Bits.{u8}
use toad_jawbreaker.Bytes.Buffer.{Store}
use toad_jawbreaker.Concurrency.Future.{new_state}
use toad_jawbreaker.Prelude.Int.{ℤ, is_negative}
use toad_jawbreaker.Concurrency.IoContext.{submit_read_some, submit_read_some_vec}
use toad_jawbreaker.Concurrency.IoContext.Loop.{
  PendingVariant, read_some, listen, connect, write_some, read_some_vec, Loop, submit_write_some,
}

-- What `IOContext` keeps beside the ring, and its constructor, with the answer of `io_uring_queue_init`.
pub record Settings : Type 0 where
  pub batch_size : ℕ
  pub timeout_ms : ℕ

unfoldable pub new_io_context : ℕ → ℕ → ℤ → Outcome Settings
new_io_context batch_size timeout_ms ret =
    assert (not (is_negative ret))
    >> returns (record { batch_size = batch_size; timeout_ms = timeout_ms })

-- `sockaddr_in`, with the port as the two bytes that `htons` lays out.
pub record SockaddrIn : Type 0 where
  pub sin_family : ℕ
  pub sin_port : List ℕ
  pub sin_addr : List ℕ

abbrev pub af_inet : ℕ
af_inet = 2

abbrev pub htons : ℕ → List ℕ
htons port = u8 (port / 2 ^ 8) ∷ u8 port ∷ []

-- `Listener`, and what the calls of `new_listener` answer.
pub record Listener : Type 0 where
  pub sockfd : ℤ
  pub port : ℕ

pub record ListenAnswers : Type 0 where
  pub socket : ℤ
  pub bind : ℤ
  pub listen : ℤ

-- The result, with the address that is bound.
unfoldable pub new_listener : ℕ → ListenAnswers → Outcome (Listener × SockaddrIn)
new_listener port answers =
    let addr : SockaddrIn = record {
      sin_family = af_inet;
      sin_port = htons port;
      sin_addr = 0 ∷ 0 ∷ 0 ∷ 0 ∷ [];
    } in
    assert (not (is_negative answers.bind))
    >> (assert (not (is_negative answers.listen))
        >> returns (record { sockfd = answers.socket; port = port }, addr))

-- What an entry asks of the kernel.
pub data Request : Type 0 where
  accept : ℕ → Request
  connecting : ℕ → SockaddrIn → Request
  read : ℕ → ℕ → Request
  write : ℕ → List ℕ → Request

-- `io_uring_sqe`
pub record Sqe : Type 0 where
  pub user_data : ℕ
  pub request : Request

-- `has_room` is what `io_uring_get_sqe` answers, with these entries queued: whether it is not null.
pub record Io : Type 0 where
  pub loop : Loop
  pub queue : List Sqe
  pub has_room : List Sqe → Bool

-- `new PendingVariant`, `io_uring_get_sqe` and what fills the entry. Without room the entry is the null
-- pointer, which is written through.
unfoldable pub submit : ℕ → PendingVariant → Request → Io → Outcome Io
submit address p request io =
    if io.has_room io.queue
    then returns (record io {
      loop = record io.loop { heap = store address (some p) io.loop.heap };
      queue = io.queue ++ (record { user_data = address; request = request } ∷ []);
    })
    else aborts

abbrev pub submit_accept_ipv4 : ℕ → ℕ → Io → Outcome Io
submit_accept_ipv4 address sockfd io =
    submit address (listen (record { sockfd = sockfd; handle = some new_state })) (accept sockfd) io

abbrev pub submit_connect : ℕ → ℕ → SockaddrIn → Io → Outcome Io
submit_connect address fd addr io =
    submit address (connect (record { sockfd = fd; handle = some new_state })) (connecting fd addr)
      io

abbrev pub submit_connect_ipv4 : ℕ → ℕ → List ℕ → ℕ → Io → Outcome Io
submit_connect_ipv4 address fd ip port io =
    submit_connect address fd
      (record { sin_family = af_inet; sin_port = htons port; sin_addr = ip }) io

abbrev pub queue_read_some : ℕ → ℕ → ℕ → Store → Io → Outcome (Store × Io)
queue_read_some address sockfd max_size st io =
    let (p, st') = submit_read_some sockfd max_size st in
    submit address (read_some p) (read sockfd max_size) io >>= λ io'. returns (st', io')

-- With the number of the vector.
abbrev pub queue_read_some_vec : ℕ → ℕ → ℕ → ℕ → Io → Outcome Io
queue_read_some_vec address sockfd v max_size io =
    submit_read_some_vec sockfd (io.loop.vectors v) max_size >>= λ (p, vec).
    submit address (read_some_vec p v) (read sockfd max_size)
      (record io { loop = record io.loop { vectors = store v vec io.loop.vectors } })

abbrev pub queue_write_some : ℕ → ℕ → List ℕ → Io → Outcome Io
queue_write_some address sockfd span io =
    let p = submit_write_some sockfd span in
    submit address (write_some p) (write sockfd p.buffer) io
