-- ===== src/Concurrency/Executor.antt =====
-- include/concurrency/executor.hpp: the queue of coroutines and the threads that resume them. A
-- coroutine is a number; its promise and whether it is done are in the state, as several handles may
-- name it.
pub mod Steps
pub mod Cases
pub mod Order
pub mod Shutdown
pub mod Correlation
pub mod Destruction
pub mod Ending
pub mod Race
pub mod Suspend
pub mod Current
use toad_jawbreaker.Prelude.{
  ℕ, zero, suc, Bool, true, false, if◌then◌else◌, List, [], ◌∷◌, ◌++◌, ◌==◌,
}

-- `Task::promise_type`, and `done()` of the handle.
pub record Promise : Type 0 where
  pub parent_corr_id : ℕ
  pub corr_id : ℕ
  pub done : Bool

-- A worker waits for its turn, is in `resume` of a coroutine, or has left the loop.
pub data Stage : Type 0 where
  waits : Stage
  resumes : ℕ → Stage
  gone : Stage

-- A worker with its thread-local correlation ids.
pub record Worker : Type 0 where
  pub stage : Stage
  pub parent_correlation_id : ℕ
  pub correlation_id : ℕ

-- `destroyed` has the coroutines whose frames were destroyed. `accepted` and `taken` only record
-- what went into the queue and came out of it: no operation reads them.
pub record Executor : Type 0 where
  pub queue : List ℕ
  pub is_done : Bool
  pub workers : List Worker
  pub promises : ℕ → Promise
  pub destroyed : List ℕ
  pub accepted : List ℕ
  pub taken : List ℕ

-- A worker between two tasks.
abbrev pub idle : Worker
idle = record { stage = waits; parent_correlation_id = 0; correlation_id = 0 }

abbrev pub repeat {ℓ} : {A : Type ℓ} → ℕ → A → List A
repeat zero x = []
repeat (suc n) x = x ∷ repeat n x

-- The constructor of `Executor`.
abbrev pub new_executor : ℕ → (ℕ → Promise) → Executor
new_executor num_threads promises = record {
  queue = [];
  is_done = false;
  workers = repeat num_threads idle;
  promises = promises;
  destroyed = [];
  accepted = [];
  taken = [];
}

abbrev pub update : ℕ → (Promise → Promise) → (ℕ → Promise) → ℕ → Promise
update c f promises d = if d == c then f (promises d) else promises d

-- `~Task` with a handle.
abbrev pub destroy_task : ℕ → Executor → Executor
destroy_task c e = record e { destroyed = c ∷ e.destroyed }

-- `Task::set_parent_corr_id`
abbrev pub set_parent_corr_id : ℕ → ℕ → Executor → Executor
set_parent_corr_id c id e = record e {
  promises = update c (λ p. record p { parent_corr_id = id }) e.promises;
}

abbrev pub enqueue : ℕ → Executor → Executor
enqueue c e = record e { queue = e.queue ++ (c ∷ []); accepted = e.accepted ++ (c ∷ []) }

-- `Executor::spawn` on a thread with the given `thread_correlation_id_`.
unfoldable pub spawn : ℕ → ℕ → Executor → Executor
spawn correlation_id c e =
    let e' = set_parent_corr_id c correlation_id e in
    if (e'.promises c).done then destroy_task c e' else enqueue c e'

-- The start of `~Executor`.
abbrev pub close : Executor → Executor
close e = record e { is_done = true }

-- What a worker does under the lock: it goes on waiting, leaves the loop, or takes the first task.
pub data Turn : Type 0 where
  stays : Turn
  leaves : Turn
  takes : ℕ → List ℕ → Turn

unfoldable pub turn : Executor → Turn
turn e = elim e.queue [ [] ↦ if e.is_done then leaves else stays | c ∷ rest ↦ takes c rest ]

-- The worker while it resumes the coroutine.
abbrev pub busy : ℕ → Promise → Worker
busy c p = record {
  stage = resumes c;
  parent_correlation_id = p.parent_corr_id;
  correlation_id = p.corr_id;
}

abbrev pub dequeue : ℕ → List ℕ → Executor → Executor
dequeue c rest e = record e { queue = rest; taken = e.taken ++ (c ∷ []) }

-- The rest of the loop's body up to `resume`, for the worker and the executor. A task that is done
-- already is destroyed, and the ids are reset.
unfoldable pub begin_task : ℕ → List ℕ → Executor → Worker × Executor
begin_task c rest e =
    let e' = dequeue c rest e in
    if (e.promises c).done then (idle, destroy_task c e') else (busy c (e.promises c), e')

-- The loop's body after `resume`: a coroutine that is done is destroyed, any other is leaked.
unfoldable pub end_task : ℕ → Executor → Worker × Executor
end_task c e = (idle, if (e.promises c).done then destroy_task c e else e)

-- The coroutine reaches its final suspension.
abbrev pub complete : ℕ → Executor → Executor
complete c e = record e { promises = update c (λ p. record p { done = true }) e.promises }
