-- ===== src/Main.antt =====
-- src/main.cpp: what `main` constructs, in its order, what the workers do meanwhile, and what the
-- destructors do at the end of its scope, in the reverse order.
pub mod Context
pub mod Ended
use toad_jawbreaker.Prelude.{ℕ, suc, ◌≡◌, List, [], ◌∷◌, ◌++◌, Outcome, returns, aborts, All}
use toad_jawbreaker.Prelude.Int.{ℤ}
use toad_jawbreaker.Concurrency.Executor.{Promise, Executor, Worker, new_executor, spawn, close}
use toad_jawbreaker.Concurrency.Executor.Steps.{WorkerStep}
use toad_jawbreaker.Concurrency.Executor.Shutdown.{Gone}
use toad_jawbreaker.Concurrency.IoContext.Submission.{Settings, new_io_context}
use toad_jawbreaker.Concurrency.IoContext.Loop.{Completion}
use toad_jawbreaker.Concurrency.IoContext.EventLoop.{
  Round, Outlook, loops, leaves, handles, outlook,
}

-- What `_this_io_context` points to: nothing yet, the context, or a context whose ring was left by
-- `~IOContext`, which does not reset the pointer.
pub data ThisIoContext : Type 0 where
  unset : ThisIoContext
  alive : Settings → ThisIoContext
  exited : ThisIoContext

-- `this_io_context()`, for a use of the ring.
unfoldable pub this_io_context : ThisIoContext → Outcome Settings
this_io_context unset = aborts
this_io_context (alive settings) = returns settings
this_io_context exited = aborts

-- The next statement of `main`: the construction of the context, the spawn of the server, the event
-- loop, and the destructors of the context and of the executor, whose last part joins the workers.
pub data Statement : Type 0 where
  constructs_context : Statement
  spawns_server : Statement
  event_loop : Statement
  destructs_context : Statement
  destructs_executor : Statement
  joins : Statement
  returned : Statement

pub record Program : Type 0 where
  pub next : Statement
  pub executor : Executor
  pub io_context : ThisIoContext

-- Behind the construction of the executor.
abbrev pub new_program : ℕ → (ℕ → Promise) → Program
new_program num_threads promises = record {
  next = constructs_context;
  executor = new_executor num_threads promises;
  io_context = unset;
}

abbrev pub batch_size : ℕ
batch_size = 64

abbrev pub timeout_ms : ℕ
timeout_ms = 5

-- The coroutines that the handlers of a batch spawn, on the thread of `main`, whose correlation id is 0.
abbrev pub spawn_all : List ℕ → Executor → Executor
spawn_all [] e = e
spawn_all (c ∷ cs) e = spawn_all cs (spawn 0 c e)

-- A step of `main`, for the coroutine `server`, or of a worker.
pub data ProgramStep (server : ℕ) : Program → Program → Type 0 where
  constructs :
      {p : Program} (ret : ℤ) (settings : Settings)
      → p.next ≡ constructs_context
      → new_io_context batch_size timeout_ms ret ≡ returns settings
      → ProgramStep server p (record p { next = spawns_server; io_context = alive settings })
  serves :
      {p : Program}
      → p.next ≡ spawns_server
      → ProgramStep server p (record p { next = event_loop; executor = spawn 0 server p.executor })
  waits_again :
      {p : Program} (round : Round)
      → p.next ≡ event_loop
      → outlook round ≡ loops
      → ProgramStep server p p
  -- The completions of a round are handled, and their handlers spawn these coroutines.
  handles_batch :
      {p : Program} (round : Round) (cs : List Completion) (spawned : List ℕ)
      → p.next ≡ event_loop
      → outlook round ≡ handles cs
      → ProgramStep server p (record p { executor = spawn_all spawned p.executor })
  leaves_loop :
      {p : Program} (round : Round)
      → p.next ≡ event_loop
      → outlook round ≡ leaves
      → ProgramStep server p (record p { next = destructs_context })
  exits :
      {p : Program}
      → p.next ≡ destructs_context
      → ProgramStep server p (record p { next = destructs_executor; io_context = exited })
  closes :
      {p : Program}
      → p.next ≡ destructs_executor
      → ProgramStep server p (record p { next = joins; executor = close p.executor })
  joined :
      {p : Program}
      → p.next ≡ joins
      → All Gone p.executor.workers
      → ProgramStep server p (record p { next = returned })
  works :
      {p : Program} {e : Executor} (front : List Worker) (w : Worker) (back : List Worker)
      → p.executor.workers ≡ front ++ (w ∷ back)
      → WorkerStep front back w p.executor e
      → ProgramStep server p (record p { executor = e })

pub data Runs (num_threads server : ℕ) : Program → Type 0 where
  starts : (promises : ℕ → Promise) → Runs num_threads server (new_program num_threads promises)
  goes_on :
      {p p' : Program}
      → Runs num_threads server p
      → ProgramStep server p p'
      → Runs num_threads server p'
