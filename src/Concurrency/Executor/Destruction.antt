-- ===== src/Concurrency/Executor/Destruction.antt =====
-- The frames that the executor of include/concurrency/executor.hpp destroys.
use toad_jawbreaker.Prelude.{if-elim, ℕ, ◌≡◌, refl, true, List, All, All-map, ◌==◌}
use toad_jawbreaker.Concurrency.Executor.{Promise, Worker, Executor, spawn, update}
use toad_jawbreaker.Concurrency.Executor.Steps.{
  WorkerStep, begins, quits, spawns, completes, ends, Step, works, owner_spawns, closes, Reachable,
  starts, goes_on,
}
use toad_jawbreaker.Concurrency.Executor.Cases.{spawn-elim, begin_task-elim, end_task-elim}

abbrev Finished : Executor → Type 0
Finished e = All (λ c. (e.promises c).done ≡ true) e.destroyed

update-done :
    (promises : ℕ → Promise) (c : ℕ) (f : Promise → Promise) (d : ℕ)
    → ((p : Promise) → p.done ≡ true → (f p).done ≡ true)
    → (promises d).done ≡ true
    → (update c f promises d).done ≡ true
update-done promises c f d keeps h =
    if-elim (λ p. p.done ≡ true) (d == c) (f (promises d)) (promises d) (λ _. keeps (promises d) h)
      λ _. h

update-Finished :
    (promises : ℕ → Promise) (c : ℕ) (f : Promise → Promise) (destroyed : List ℕ)
    → ((p : Promise) → p.done ≡ true → (f p).done ≡ true)
    → All (λ d. (promises d).done ≡ true) destroyed
    → All (λ d. (update c f promises d).done ≡ true) destroyed
update-Finished promises c f destroyed keeps =
    All-map (λ d. (promises d).done ≡ true) (λ d. (update c f promises d).done ≡ true)
      (λ d h. update-done promises c f d keeps h) destroyed

spawn-Finished : (id c : ℕ) (e : Executor) → Finished e → Finished (spawn id c e)
spawn-Finished id c e h =
    let h' =
      update-Finished e.promises c (λ p. record p { parent_corr_id = id }) e.destroyed (λ p g. g)
        h in
    spawn-elim Finished id c e (λ done. (done, h')) h'

WorkerStep-Finished :
    {front back : List Worker} {w : Worker} {e e' : Executor}
    → WorkerStep front back w e e'
    → Finished e
    → Finished e'
WorkerStep-Finished (begins {e} c rest s t) h =
    begin_task-elim (λ x. Finished x.1) c rest e (λ done. (done, h)) h
WorkerStep-Finished (quits s t) h = h
WorkerStep-Finished (spawns {w} {e} d c s) h = spawn-Finished w.correlation_id c e h
WorkerStep-Finished (completes {e} d s) h =
    update-Finished e.promises d (λ p. record p { done = true }) e.destroyed (λ p g. refl) h
WorkerStep-Finished (ends {e} d s) h = end_task-elim (λ x. Finished x.1) d e (λ done. (done, h)) h

step-Finished : {e e' : Executor} → Step e e' → Finished e → Finished e'
step-Finished (works front w back at s) h = WorkerStep-Finished s h
step-Finished (owner_spawns {e} c n) h = spawn-Finished 0 c e h
step-Finished closes h = h

-- The executor destroys the frame of a coroutine only when the coroutine is done, in every
-- interleaving.
pub destroyed-All :
    {n : ℕ} {e : Executor} → Reachable n e → All (λ c. (e.promises c).done ≡ true) e.destroyed
destroyed-All (starts promises) = tt
destroyed-All (goes_on r s) = step-Finished s (destroyed-All r)
