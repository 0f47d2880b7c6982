-- ===== src/Concurrency/IoContext/Loop.antt =====
-- include/concurrency/iocontext.hpp: a batch of `event_loop`. The pending objects stand on a heap,
-- under their addresses, and the vectors that reads refer to in a store. What becomes of the state of a
-- future after its completion is in Concurrency/Future.
pub mod Freed
pub mod Spawned
use toad_jawbreaker.Prelude.{
  store, ℕ, List, [], ◌∷◌, ◌++◌, Option, none, some, Outcome, returns, aborts, ◌>>=◌,
}
use toad_jawbreaker.Prelude.Int.{ℤ}
use toad_jawbreaker.Concurrency.IoContext.{
  PendingListen, PendingConnect, PendingReadSome, PendingReadSomeVec, handle_connect, handle_listen,
  handle_read_some, handle_read_some_vec,
}

-- The buffer is a copy of the span.
pub record PendingWriteSome : Type 0 where
  pub sockfd : ℕ
  pub buffer : List ℕ

abbrev pub submit_write_some : ℕ → List ℕ → PendingWriteSome
submit_write_some sockfd span = record { sockfd = sockfd; buffer = span }

-- A read into a vector has the number of the vector.
pub data PendingVariant : Type 0 where
  read_some : PendingReadSome → PendingVariant
  listen : PendingListen → PendingVariant
  connect : PendingConnect → PendingVariant
  write_some : PendingWriteSome → PendingVariant
  read_some_vec : PendingReadSomeVec → ℕ → PendingVariant

pub record Loop : Type 0 where
  pub heap : ℕ → Option PendingVariant
  pub vectors : ℕ → List ℕ
  pub spawned : List ℕ

-- `io_uring_cqe`
pub record Completion : Type 0 where
  pub user_data : ℕ
  pub res : ℤ

abbrev pub spawn_all : List ℕ → Loop → Loop
spawn_all l w = record w { spawned = w.spawned ++ l }

-- `std::visit` with the handlers; a write that ended has nobody to tell.
unfoldable pub handle_pending : ℤ → PendingVariant → Loop → Outcome Loop
handle_pending res (read_some p) w = handle_read_some res p >>= λ r. returns (spawn_all r.1 w)
handle_pending res (listen p) w = handle_listen res p >>= λ r. returns (spawn_all r.1 w)
handle_pending res (connect p) w = handle_connect res p >>= λ r. returns (spawn_all r.1 w)
handle_pending res (write_some p) w = returns w
handle_pending res (read_some_vec p v) w = handle_read_some_vec res p (w.vectors v) >>= λ r.
    returns (spawn_all r.2 (record w { vectors = store v r.0 w.vectors }))

-- The body of the loop over the completions: no handler keeps its object alive. An object that is not
-- there is a use after `delete`.
abbrev pub complete_with : Option PendingVariant → Completion → Loop → Outcome Loop
complete_with none c w = aborts
complete_with (some p) c w =
    handle_pending c.res p w >>= λ w'. returns (record w' { heap = store c.user_data none w'.heap })

abbrev pub complete : Completion → Loop → Outcome Loop
complete c w = complete_with (w.heap c.user_data) c w

-- The loop over the entries. A completion is what it reads of an entry, after it has given that back to the
-- kernel by `io_uring_cqe_seen`.
unfoldable pub batch : List Completion → Loop → Outcome Loop
batch [] w = returns w
batch (c ∷ cs) w = complete c w >>= λ w'. batch cs w'
