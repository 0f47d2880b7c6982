-- ===== src/Concurrency/IoContext/Kernel.antt =====
-- include/concurrency/iocontext.hpp with a kernel that completes what it is shown: whenever and with
-- whatever result, but each entry once and with the `user_data` of the entry.
pub mod Outstanding
pub mod Handled
pub mod Spawning
pub mod Room
pub mod Unawaited
use toad_jawbreaker.Prelude.{store, ℕ, ◌+◌, ◌≡◌, Bool, List, [], ◌∷◌, ◌++◌, none, some, returns}
use toad_jawbreaker.Prelude.Int.{ℤ}
use toad_jawbreaker.Concurrency.IoContext.Loop.{PendingVariant, Loop, Completion, batch}
use toad_jawbreaker.Concurrency.IoContext.Submission.{Request, Sqe, Io, submit}

pub record System : Type 0 where
  pub io : Io
  pub in_flight : List Sqe
  pub completed : List Completion

abbrev pub new_io : (List Sqe → Bool) → (ℕ → List ℕ) → Io
new_io has_room vectors = record {
  loop = record { heap = λ a. none; vectors = vectors; spawned = [] };
  queue = [];
  has_room = has_room;
}

-- `io_uring_submit`
abbrev pub enter : System → System
enter s = record s { io = record s.io { queue = [] }; in_flight = s.in_flight ++ s.io.queue }

pub data Step : System → System → Type 0 where
  -- An operation is submitted. `new` gives memory that is not in use.
  submits :
      {s : System} (address : ℕ) (p : PendingVariant) (request : Request) (io : Io)
      → s.io.loop.heap address ≡ none
      → submit address p request s.io ≡ returns io
      → Step s (record s { io = io })
  -- A coroutine awaits the future of a pending object, or lets go of it.
  awaits :
      {s : System} (address : ℕ) (p p' : PendingVariant)
      → s.io.loop.heap address ≡ some p
      → Step s (record s {
        io = record s.io {
          loop = record s.io.loop { heap = store address (some p') s.io.loop.heap };
        };
      })
  -- A vector is changed outside of the loop.
  writes_vector :
      {s : System} (vectors : ℕ → List ℕ)
      → Step s (record s { io = record s.io { loop = record s.io.loop { vectors = vectors } } })
  enters : {s : System} → Step s (enter s)
  finishes :
      {s : System} (front : List Sqe) (sqe : Sqe) (back : List Sqe) (res : ℤ)
      → s.in_flight ≡ front ++ (sqe ∷ back)
      → Step s (record s {
        in_flight = front ++ back;
        completed = s.completed ++ (record { user_data = sqe.user_data; res = res } ∷ []);
      })
  -- A batch of the event loop, which reads of each entry what the kernel wrote there: no entry is written
  -- again before it is read.
  handles :
      {s : System} (cs rest : List Completion) (loop : Loop)
      → s.completed ≡ cs ++ rest
      → batch cs s.io.loop ≡ returns loop
      → Step s (record s { io = record s.io { loop = loop }; completed = rest })

pub data Reachable (has_room : List Sqe → Bool) : System → Type 0 where
  starts :
      (vectors : ℕ → List ℕ)
      → Reachable has_room (record { io = new_io has_room vectors; in_flight = []; completed = [] })
  goes_on : {s s' : System} → Reachable has_room s → Step s s' → Reachable has_room s'

-- The addresses that the entries and the completions name.
abbrev pub names_of : List Sqe → List ℕ
names_of [] = []
names_of (sqe ∷ l) = sqe.user_data ∷ names_of l

abbrev pub completions_of : List Completion → List ℕ
completions_of [] = []
completions_of (c ∷ l) = c.user_data ∷ completions_of l

abbrev pub outstanding : System → List ℕ
outstanding s = names_of s.io.queue ++ (names_of s.in_flight ++ completions_of s.completed)
