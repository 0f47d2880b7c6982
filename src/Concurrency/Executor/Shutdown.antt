-- ===== src/Concurrency/Executor/Shutdown.antt =====
-- The end of the executor of include/concurrency/executor.hpp.
use toad_jawbreaker.Prelude.{
  ℕ, suc, ◌≡◌, ◌≢◌, refl, sym, ap, ◌∙◌, Bool, true, false, List, [], ◌∷◌, ◌++◌, append-nil, All,
  All-middle,
}
use mathlib.Core.Path.{subst}
use toad_jawbreaker.Concurrency.Executor.{
  waits, resumes, gone, Worker, Executor, spawn, begin_task, end_task,
}
use toad_jawbreaker.Concurrency.Executor.Steps.{
  WorkerStep, begins, quits, spawns, completes, ends, Step, works, owner_spawns, closes, Reachable,
  starts, goes_on,
}
use toad_jawbreaker.Concurrency.Executor.Cases.{
  spawn-elim, begin_task-elim, end_task-elim, turn-leaves,
}
use toad_jawbreaker.Concurrency.Executor.Order.{accepted-Fifo}

abbrev pub Gone : Worker → Type 0
Gone w = w.stage ≡ gone

abbrev Shut : Executor → Type 0
Shut e = All Gone e.workers → (e.queue ≡ []) × (e.is_done ≡ true)

waits-ne-gone : waits ≢ gone
waits-ne-gone h = cc

resumes-ne-gone : (c : ℕ) → resumes c ≢ gone
resumes-ne-gone c h = cc

begin_task-stage : (c : ℕ) (rest : List ℕ) (e : Executor) → ¬ Gone (begin_task c rest e).0
begin_task-stage c rest e =
    begin_task-elim (λ x. ¬ Gone x.0) c rest e (λ _. waits-ne-gone) (resumes-ne-gone c)

end_task-stage : (c : ℕ) (e : Executor) → ¬ Gone (end_task c e).0
end_task-stage c e = end_task-elim (λ x. ¬ Gone x.0) c e (λ _. waits-ne-gone) waits-ne-gone

-- A worker that resumes a coroutine has not gone.
busy-Shut :
    {A : Type 0} (front : List Worker) (w : Worker) (back workers : List Worker) (d : ℕ)
    → workers ≡ front ++ (w ∷ back)
    → w.stage ≡ resumes d
    → All Gone workers
    → A
busy-Shut front w back workers d at s all =
    absurd (resumes-ne-gone d (sym s ∙ All-middle Gone front back (subst (All Gone) at all)))

pub spawn-workers : (id c : ℕ) (e : Executor) → (spawn id c e).workers ≡ e.workers
spawn-workers id c e = spawn-elim (λ x. x.workers ≡ e.workers) id c e (λ _. refl) refl

pub spawn-is_done : (id c : ℕ) (e : Executor) → (spawn id c e).is_done ≡ e.is_done
spawn-is_done id c e = spawn-elim (λ x. x.is_done ≡ e.is_done) id c e (λ _. refl) refl

WorkerStep-Shut :
    {front back : List Worker} {w : Worker} {e e' : Executor}
    → e.workers ≡ front ++ (w ∷ back)
    → WorkerStep front back w e e'
    → Shut e'
WorkerStep-Shut {front} {back} at (begins {e} c rest s t) all =
    absurd (begin_task-stage c rest e (All-middle Gone front back all))
WorkerStep-Shut at (quits {e} s t) all = turn-leaves e t
WorkerStep-Shut {front} {back} at (spawns {w} {e} d c s) all =
    busy-Shut front w back e.workers d at s
      (subst (All Gone) (spawn-workers w.correlation_id c e) all)
WorkerStep-Shut {front} {back} at (completes {w} {e} d s) all =
    busy-Shut front w back e.workers d at s all
WorkerStep-Shut {front} {back} at (ends {e} d s) all =
    absurd (end_task-stage d e (All-middle Gone front back all))

false-ne-true : (b : Bool) → b ≡ false → b ≢ true
false-ne-true b h k = cc

step-Shut : {e e' : Executor} → Step e e' → Shut e → Shut e'
step-Shut (works front w back at s) h all = WorkerStep-Shut at s all
step-Shut (owner_spawns {e} c n) h all =
    absurd (false-ne-true e.is_done n (h (subst (All Gone) (spawn-workers 0 c e) all)).1)
step-Shut closes h all = ((h all).0, refl)

Reachable-Shut : {n : ℕ} {e : Executor} → Reachable (suc n) e → Shut e
Reachable-Shut (starts promises) (h, hs) = absurd (waits-ne-gone h)
Reachable-Shut (goes_on r s) all = step-Shut s (Reachable-Shut r) all

-- Once every worker of an executor with at least one has left its loop, the destructor has started
-- and everything that was accepted, before that or later, was taken.
pub shutdown_complete :
    {n : ℕ} {e : Executor}
    → Reachable (suc n) e
    → All (λ w. w.stage ≡ gone) e.workers
    → (e.is_done ≡ true) × (e.queue ≡ []) × (e.taken ≡ e.accepted)
shutdown_complete {e = e} r all =
    let (empty, closed) = Reachable-Shut r all in
    (closed, empty, sym (accepted-Fifo r ∙ ap (λ l. e.taken ++ l) empty ∙ append-nil e.taken))
