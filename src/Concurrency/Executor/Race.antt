-- ===== src/Concurrency/Executor/Race.antt =====
-- A coroutine that two workers of include/concurrency/executor.hpp have.
use toad_jawbreaker.Prelude.{
  if-elim, ℕ, suc, ◌≡◌, refl, ap, ◌∙◌, true, false, List, [], ◌∷◌, ◌++◌, arith, ◌==◌, if◌then◌else◌,
}
use mathlib.Core.Path.{subst}
use toad_jawbreaker.Concurrency.Executor.{
  Promise, waits, resumes, Worker, Executor, new_executor, idle, spawn, takes, turn, begin_task,
  end_task, complete, destroy_task, repeat, set_parent_corr_id, enqueue, dequeue, busy,
}
use toad_jawbreaker.Concurrency.Executor.Steps.{
  begins, spawns, completes, ends, works, owner_spawns, Reachable, starts, goes_on, with_worker,
}
use toad_jawbreaker.Concurrency.Executor.Cases.{}

set_parent-done :
    (c id : ℕ) (e : Executor) → ((set_parent_corr_id c id e).promises c).done ≡ (e.promises c).done
set_parent-done c id e =
    if-elim (λ p. p.done ≡ (e.promises c).done) (c == c)
      (record (e.promises c) { parent_corr_id = id }) (e.promises c) (λ _. refl) λ _. refl

complete-done : (c : ℕ) (e : Executor) → ((complete c e).promises c).done ≡ true
complete-done c e =
    ap (λ b. (if b then record (e.promises c) { done = true } else e.promises c).done) {x = c == c}
      {y = true} (ground arith)

-- The branch that a coroutine takes that is not done, and the one that it takes when it is.
spawn-fresh :
    (id c : ℕ) (e : Executor)
    → (e.promises c).done ≡ false
    → spawn id c e ≡ enqueue c (set_parent_corr_id c id e)
unfolding spawn
spawn-fresh id c e h =
    ap
      (λ b.
        if b
        then destroy_task c (set_parent_corr_id c id e)
        else enqueue c (set_parent_corr_id c id e))
      (set_parent-done c id e ∙ h)

begin_task-fresh :
    (c : ℕ) (rest : List ℕ) (e : Executor)
    → (e.promises c).done ≡ false
    → begin_task c rest e ≡ (busy c (e.promises c), dequeue c rest e)
unfolding begin_task
begin_task-fresh c rest e h =
    ap
      (λ b.
        if b
        then (idle, destroy_task c (dequeue c rest e))
        else (busy c (e.promises c), dequeue c rest e))
      h

end_task-done :
    (c : ℕ) (e : Executor) → (e.promises c).done ≡ true → end_task c e ≡ (idle, destroy_task c e)
unfolding end_task
end_task-done c e h = ap (λ b. (idle, if b then destroy_task c e else e)) h

module _ {n : ℕ} {e : Executor} (r : Reachable n e) where
  owner_spawns_fresh :
      (c : ℕ)
      → e.is_done ≡ false
      → (e.promises c).done ≡ false
      → Reachable n (enqueue c (set_parent_corr_id c 0 e))
  owner_spawns_fresh c running h =
      subst (Reachable n) (spawn-fresh 0 c e h) (goes_on r (owner_spawns c running))

  module _ (front : List Worker) (w : Worker) (back : List Worker)
      (at : e.workers ≡ front ++ (w ∷ back)) (c : ℕ) where
    worker_spawns_fresh :
        w.stage ≡ resumes c
        → (e.promises c).done ≡ false
        → Reachable n (enqueue c (set_parent_corr_id c w.correlation_id e))
    worker_spawns_fresh s h =
        subst (Reachable n) (spawn-fresh w.correlation_id c e h)
          (goes_on r (works front w back at (spawns c c s)))

    begins_fresh :
        (rest : List ℕ)
        → w.stage ≡ waits
        → turn e ≡ takes c rest
        → (e.promises c).done ≡ false
        → Reachable n (with_worker front (busy c (e.promises c)) back (dequeue c rest e))
    begins_fresh rest s t h =
        subst (λ x. Reachable n (with_worker front x.0 back x.1)) (begin_task-fresh c rest e h)
          (goes_on r (works front w back at (begins c rest s t)))

    ends_done :
        w.stage ≡ resumes c
        → (e.promises c).done ≡ true
        → Reachable n (with_worker front idle back (destroy_task c e))
    ends_done s h =
        subst (λ x. Reachable n (with_worker front x.0 back x.1)) (end_task-done c e h)
          (goes_on r (works front w back at (ends c s)))

-- A coroutine that spawns itself, as `suspend` makes it do, and then ends on another worker before
-- the first one looks at it again, is destroyed by both workers: in an executor of two or more
-- threads, whatever the promises, a state is reachable in which a coroutine that was not done at the
-- start was destroyed twice.
pub suspended_destroyed_twice :
    (n : ℕ) (promises : ℕ → Promise) (c : ℕ)
    → (promises c).done ≡ false
    → (e : Executor) × Reachable (suc (suc n)) e × (e.destroyed ≡ c ∷ c ∷ [])
unfolding turn
suspended_destroyed_twice n promises c fresh =
    let others = repeat n idle in
    let e0 = new_executor (suc (suc n)) promises in
    let e1 = enqueue c (set_parent_corr_id c 0 e0) in
    let r1 = owner_spawns_fresh (starts promises) c refl fresh in
    let h1 = set_parent-done c 0 e0 ∙ fresh in
    let w1 = busy c (e1.promises c) in
    let e2 = with_worker [] w1 (idle ∷ others) (dequeue c [] e1) in
    let r2 = begins_fresh r1 [] idle (idle ∷ others) refl c [] refl refl h1 in
    let e3 = enqueue c (set_parent_corr_id c w1.correlation_id e2) in
    let r3 = worker_spawns_fresh r2 [] w1 (idle ∷ others) refl c refl h1 in
    let h3 = set_parent-done c w1.correlation_id e2 ∙ h1 in
    let w2 = busy c (e3.promises c) in
    let e4 = with_worker (w1 ∷ []) w2 others (dequeue c [] e3) in
    let r4 = begins_fresh r3 (w1 ∷ []) idle others refl c [] refl refl h3 in
    let e5 = complete c e4 in
    let r5 = goes_on r4 (works (w1 ∷ []) w2 others refl (completes c refl)) in
    let h5 = complete-done c e4 in
    let r6 = ends_done r5 [] w1 (w2 ∷ others) refl c refl h5 in
    let r7 = ends_done r6 (idle ∷ []) w2 others refl c refl h5 in (_, r7, refl)
