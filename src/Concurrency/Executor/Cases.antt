-- ===== src/Concurrency/Executor/Cases.antt =====
-- The branches of the operations of include/concurrency/executor.hpp.
use toad_jawbreaker.Prelude.{if-elim, ℕ, ◌≡◌, true, List, [], ◌∷◌, arith}
use toad_jawbreaker.Concurrency.Executor.{
  Worker, Executor, idle, spawn, leaves, takes, turn, begin_task, end_task, destroy_task,
  set_parent_corr_id, enqueue, dequeue, busy,
}

-- The two branches of each operation.
pub spawn-elim {κ} :
    (P : Executor → Type κ) (id c : ℕ) (e : Executor)
    → (((set_parent_corr_id c id e).promises c).done ≡ true
        → P (destroy_task c (set_parent_corr_id c id e)))
    → P (enqueue c (set_parent_corr_id c id e))
    → P (spawn id c e)
unfolding spawn
spawn-elim P id c e h k =
    if-elim P ((set_parent_corr_id c id e).promises c).done
      (destroy_task c (set_parent_corr_id c id e)) (enqueue c (set_parent_corr_id c id e)) h λ _. k

pub begin_task-elim {κ} :
    (P : Worker × Executor → Type κ) (c : ℕ) (rest : List ℕ) (e : Executor)
    → ((e.promises c).done ≡ true → P (idle, destroy_task c (dequeue c rest e)))
    → P (busy c (e.promises c), dequeue c rest e)
    → P (begin_task c rest e)
unfolding begin_task
begin_task-elim P c rest e h k =
    if-elim P (e.promises c).done (idle, destroy_task c (dequeue c rest e))
      (busy c (e.promises c), dequeue c rest e) h λ _. k

pub end_task-elim {κ} :
    (P : Worker × Executor → Type κ) (c : ℕ) (e : Executor)
    → ((e.promises c).done ≡ true → P (idle, destroy_task c e))
    → P (idle, e)
    → P (end_task c e)
unfolding end_task
end_task-elim P c e h k =
    if-elim (λ x. P (idle, x)) (e.promises c).done (destroy_task c e) e h λ _. k

pub turn-takes : (e : Executor) (c : ℕ) (rest : List ℕ) → turn e ≡ takes c rest → e.queue ≡ c ∷ rest
unfolding turn
turn-takes e c rest h = ground arith

pub turn-leaves : (e : Executor) → turn e ≡ leaves → (e.queue ≡ []) × (e.is_done ≡ true)
unfolding turn
turn-leaves e h = (ground arith, ground arith)
