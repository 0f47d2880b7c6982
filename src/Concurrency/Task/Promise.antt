-- ===== src/Concurrency/Task/Promise.antt =====
-- `Task::promise_type` of include/concurrency/task.hpp: how the frame of a coroutine is made, and what
-- happens where its body is left. On the executor of include/concurrency/executor.hpp.
pub mod Waking
pub mod Leaving
pub mod Calling
use toad_jawbreaker.Prelude.{
  store, ℕ, zero, suc, List, [], ◌∷◌, Bool, true, false, Option, none, some, Outcome, returns,
  aborts, ◌>>=◌,
}
use toad_jawbreaker.Concurrency.Notify.{Notify, new_notify, fire, take_head}
use toad_jawbreaker.Concurrency.Executor.{
  Promise, Executor, Worker, idle, spawn, update, complete, end_task,
}
use toad_jawbreaker.Concurrency.Task.{Tasks, new_task}

-- The random number becomes the id.
abbrev pub new_promise : ℕ → Promise
new_promise random = record { parent_corr_id = 0; corr_id = random; done = false }

-- A call of a coroutine function: its frame with the promise, and the task that `get_return_object`
-- makes of it. As `initial_suspend` always suspends, nothing of the body runs.
unfoldable pub call : ℕ → ℕ → Executor → Tasks → Executor × Tasks
call c random e t =
    (record e { promises = store c (new_promise random) e.promises }, new_task (some c) t)

-- `Task::set_corr_id`
abbrev pub set_corr_id : ℕ → ℕ → Executor → Executor
set_corr_id c id e = record e { promises = update c (λ p. record p { corr_id = id }) e.promises }

-- The free function `spawn(std::coroutine_handle<>)` for each awaiter in turn; `continuation` has the
-- coroutines of the awaiters.
abbrev pub spawn_each : (ℕ → ℕ) → ℕ → List ℕ → Executor → Executor
spawn_each continuation id [] e = e
spawn_each continuation id (a ∷ l) e = spawn_each continuation id l (spawn id (continuation a) e)

-- What other threads do to the links between the spawn of an awaiter's coroutine and the read of the link
-- of the awaiter.
abbrev pub Meanwhile : Type 0
Meanwhile = ℕ → (ℕ → Option ℕ) → ℕ → Option ℕ

-- The loop of `Notify::notify_all`: each coroutine is spawned, and then the link is read. `none`: the fuel
-- ran out. The executor is followed for what this thread does to it.
unfoldable pub wake :
    ℕ
    → (ℕ → ℕ)
    → Meanwhile
    → ℕ
    → (ℕ → Option ℕ)
    → Option ℕ
    → Executor
    → Option ((ℕ → Option ℕ) × Executor)
wake zero continuation meanwhile id next current e = none
wake (suc fuel) continuation meanwhile id next none e = some (next, e)
wake (suc fuel) continuation meanwhile id next (some a) e =
    let next' = meanwhile a next in
    wake fuel continuation meanwhile id next' (next' a) (spawn id (continuation a) e)

-- `Notify::notify_all` on a thread with the given correlation id.
unfoldable pub notify_all :
    ℕ → (ℕ → ℕ) → Meanwhile → ℕ → Notify → Executor → Option (Notify × Executor)
notify_all fuel continuation meanwhile id n e =
    elim (wake fuel continuation meanwhile id n.next n.head e) [
      | none ↦ none
      | some (next, e') ↦ some (record (take_head (fire n)) { next = next }, e')
    ]

-- How the body comes back to the worker that resumes it: at an await, at its end, or by an exception.
pub data Exit : Type 0 where
  suspends : Exit
  co_returns : Exit
  throws : Exit

-- `final_suspend`: the coroutines that await the end are spawned, and the coroutine is suspended and done.
unfoldable pub final_suspend :
    ℕ → (ℕ → ℕ) → Meanwhile → ℕ → ℕ → Notify → Executor → Option (Notify × Executor)
final_suspend fuel continuation meanwhile id c n e =
    elim (notify_all fuel continuation meanwhile id n e) [
      | none ↦ none
      | some (n', e') ↦ some (n', complete c e')
    ]

-- From the exit of the body to the next turn of the worker, which has the given correlation id. An exception is thrown on by
-- `unhandled_exception`, out of `worker_thread`, and nothing catches it there.
unfoldable pub leave :
    Exit
    → ℕ
    → (ℕ → ℕ)
    → Meanwhile
    → ℕ
    → ℕ
    → Notify
    → Executor
    → Option (Outcome (Worker × Notify × Executor))
leave suspends fuel continuation meanwhile id c n e =
    let (w, e') = end_task c e in some (returns (w, n, e'))
leave co_returns fuel continuation meanwhile id c n e =
    elim (final_suspend fuel continuation meanwhile id c n e) [
      | none ↦ none
      | some (n', e') ↦ (let (w, e'') = end_task c e' in some (returns (w, n', e'')))
    ]
leave throws fuel continuation meanwhile id c n e = some aborts
