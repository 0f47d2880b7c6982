-- ===== src/Concurrency/Executor/Order.antt =====
-- The order in which the executor of include/concurrency/executor.hpp takes its tasks.
use toad_jawbreaker.Prelude.{ℕ, ◌≡◌, refl, sym, ap, ◌∙◌, List, [], ◌∷◌, ◌++◌, append_assoc}
use toad_jawbreaker.Concurrency.Executor.{
  Worker, Executor, spawn, takes, turn, set_parent_corr_id, enqueue, dequeue,
}
use toad_jawbreaker.Concurrency.Executor.Steps.{
  WorkerStep, begins, quits, spawns, completes, ends, Step, works, owner_spawns, closes, Reachable,
  starts, goes_on,
}
use toad_jawbreaker.Concurrency.Executor.Cases.{
  spawn-elim, begin_task-elim, end_task-elim, turn-takes,
}

abbrev Fifo : Executor → Type 0
Fifo e = e.accepted ≡ e.taken ++ e.queue

enqueue-Fifo : (c : ℕ) (e : Executor) → Fifo e → Fifo (enqueue c e)
enqueue-Fifo c e h = ap (λ l. l ++ (c ∷ [])) h ∙ append_assoc e.taken e.queue (c ∷ [])

dequeue-Fifo :
    (c : ℕ) (rest : List ℕ) (e : Executor)
    → turn e ≡ takes c rest
    → Fifo e
    → Fifo (dequeue c rest e)
dequeue-Fifo c rest e t h =
    h ∙ ap (λ l. e.taken ++ l) (turn-takes e c rest t) ∙ sym (append_assoc e.taken (c ∷ []) rest)

spawn-Fifo : (id c : ℕ) (e : Executor) → Fifo e → Fifo (spawn id c e)
spawn-Fifo id c e h = spawn-elim Fifo id c e (λ _. h) (enqueue-Fifo c (set_parent_corr_id c id e) h)

WorkerStep-Fifo :
    {front back : List Worker} {w : Worker} {e e' : Executor}
    → WorkerStep front back w e e'
    → Fifo e
    → Fifo e'
WorkerStep-Fifo (begins {e} c rest s t) h =
    begin_task-elim (λ x. Fifo x.1) c rest e (λ _. dequeue-Fifo c rest e t h)
      (dequeue-Fifo c rest e t h)
WorkerStep-Fifo (quits s t) h = h
WorkerStep-Fifo (spawns {w} {e} d c s) h = spawn-Fifo w.correlation_id c e h
WorkerStep-Fifo (completes d s) h = h
WorkerStep-Fifo (ends {e} d s) h = end_task-elim (λ x. Fifo x.1) d e (λ _. h) h

step-Fifo : {e e' : Executor} → Step e e' → Fifo e → Fifo e'
step-Fifo (works front w back at s) h = WorkerStep-Fifo s h
step-Fifo (owner_spawns {e} c n) h = spawn-Fifo 0 c e h
step-Fifo closes h = h

-- The queue is first in, first out across all threads: the tasks that were accepted, in order, are
-- the ones that were taken, in order, and then the ones in the queue.
pub accepted-Fifo : {n : ℕ} {e : Executor} → Reachable n e → e.accepted ≡ e.taken ++ e.queue
accepted-Fifo (starts promises) = refl
accepted-Fifo (goes_on r s) = step-Fifo s (accepted-Fifo r)
