-- ===== src/Concurrency/Executor/Steps.antt =====
-- include/concurrency/executor.hpp as a step relation: one step is what a thread does under the lock
-- or between two uses of shared state, so the reachable states cover every interleaving.
use toad_jawbreaker.Prelude.{ℕ, false, List, ◌∷◌, ◌++◌, ◌≡◌}
use toad_jawbreaker.Concurrency.Executor.{
  Promise, waits, resumes, gone, Worker, Executor, new_executor, spawn, close, leaves, takes, turn,
  begin_task, end_task, complete,
}

-- The executor with a worker in its place.
abbrev pub with_worker : List Worker → Worker → List Worker → Executor → Executor
with_worker front w back e = record e { workers = front ++ (w ∷ back) }

-- A step of the worker between `front` and `back`.
pub data WorkerStep (front back : List Worker) : Worker → Executor → Executor → Type 0 where
  -- It takes the first task, and runs to its `resume` or, if the task is done, to the next turn.
  begins :
      {w : Worker} {e : Executor} (c : ℕ) (rest : List ℕ)
      → w.stage ≡ waits
      → turn e ≡ takes c rest
      → WorkerStep front back w e
          (with_worker front (begin_task c rest e).0 back (begin_task c rest e).1)
  -- It leaves the loop.
  quits :
      {w : Worker} {e : Executor}
      → w.stage ≡ waits
      → turn e ≡ leaves
      → WorkerStep front back w e (with_worker front (record w { stage = gone }) back e)
  -- The coroutine that it resumes spawns one.
  spawns :
      {w : Worker} {e : Executor} (d c : ℕ)
      → w.stage ≡ resumes d
      → WorkerStep front back w e (spawn w.correlation_id c e)
  -- The coroutine that it resumes reaches its end.
  completes :
      {w : Worker} {e : Executor} (d : ℕ)
      → w.stage ≡ resumes d
      → WorkerStep front back w e (complete d e)
  -- The coroutine that it resumes has suspended or ended: `resume` returns.
  ends :
      {w : Worker} {e : Executor} (d : ℕ)
      → w.stage ≡ resumes d
      → WorkerStep front back w e (with_worker front (end_task d e).0 back (end_task d e).1)

-- A step of a worker, or of the thread that owns the executor, which has the correlation id 0 and
-- spawns nothing once it is in the destructor.
pub data Step : Executor → Executor → Type 0 where
  works :
      {e e' : Executor} (front : List Worker) (w : Worker) (back : List Worker)
      → e.workers ≡ front ++ (w ∷ back)
      → WorkerStep front back w e e'
      → Step e e'
  owner_spawns : {e : Executor} (c : ℕ) → e.is_done ≡ false → Step e (spawn 0 c e)
  closes : {e : Executor} → Step e (close e)

pub data Reachable (num_threads : ℕ) : Executor → Type 0 where
  starts : (promises : ℕ → Promise) → Reachable num_threads (new_executor num_threads promises)
  goes_on : {e e' : Executor} → Reachable num_threads e → Step e e' → Reachable num_threads e'
