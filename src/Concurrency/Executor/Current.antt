-- ===== src/Concurrency/Executor/Current.antt =====
-- `this_executor` and the free functions `spawn` of include/concurrency/executor.hpp: each thread has a
-- pointer to an executor, which the constructor and the workers set.
use toad_jawbreaker.Prelude.{
  store, store_self, store_other, ℕ, ◌≡◌, refl, ap, ◌∙◌, Option, none, some, Outcome, returns,
  aborts, ◌>>=◌, ◌≢◌,
}
use toad_jawbreaker.Concurrency.Executor.{Promise, Executor, new_executor, spawn}

-- The executors that there are, under their addresses, and the pointer of one thread.
pub record Thread : Type 0 where
  pub executors : ℕ → Option Executor
  pub this_executor : Option ℕ

-- `this_executor()`
unfoldable pub this_executor : Thread → Outcome ℕ
this_executor t = elim t.this_executor [ none ↦ aborts | some x ↦ returns x ]

-- The free `spawn`, of a task or of a handle. An executor that is gone is a use after its end.
abbrev pub spawn_on : ℕ → ℕ → ℕ → Option Executor → Thread → Outcome Thread
spawn_on correlation_id c x none t = aborts
spawn_on correlation_id c x (some e) t =
    returns (record t { executors = store x (some (spawn correlation_id c e)) t.executors })

unfoldable pub spawn_here : ℕ → ℕ → Thread → Outcome Thread
spawn_here correlation_id c t =
    this_executor t >>= λ x. spawn_on correlation_id c x (t.executors x) t

-- The constructor and, once it has joined its workers, the destructor.
abbrev pub construct_executor : ℕ → ℕ → (ℕ → Promise) → Thread → Thread
construct_executor x num_threads promises t = record t {
  executors = store x (some (new_executor num_threads promises)) t.executors;
  this_executor = some x;
}

abbrev pub destruct_executor : ℕ → Thread → Thread
destruct_executor x t = record t { executors = store x none t.executors }

-- The first line of `worker_thread` and the last.
abbrev pub enter_worker : ℕ → Thread → Thread
enter_worker x t = record t { this_executor = some x }

abbrev pub leave_worker : Thread → Thread
leave_worker t = record t { this_executor = none }

-- Between its first line and its last a worker spawns on its executor, and behind these nowhere.
pub worker_spawns :
    (x c correlation_id : ℕ) (e : Executor) (t : Thread)
    → t.executors x ≡ some e
    → (spawn_here correlation_id c (enter_worker x t)
        ≡ returns (record (enter_worker x t) {
          executors = store x (some (spawn correlation_id c e)) t.executors;
        }))
      × (spawn_here correlation_id c (leave_worker t) ≡ aborts)
unfolding spawn_here this_executor
worker_spawns x c correlation_id e t h =
    (ap (λ o. spawn_on correlation_id c x o (enter_worker x t)) h, refl)

-- A thread that constructs an executor while it has one, and destroys it, cannot spawn on the first
-- one any more: the destructor leaves the pointer to the executor that is gone.
pub first_executor_lost :
    (x y num_threads c correlation_id : ℕ) (promises : ℕ → Promise) (e : Executor) (t : Thread)
    → x ≢ y
    → t.executors x ≡ some e
    → let t' = destruct_executor y (construct_executor y num_threads promises t) in
      (t'.executors x ≡ some e) × (spawn_here correlation_id c t' ≡ aborts)
unfolding spawn_here this_executor
first_executor_lost x y num_threads c correlation_id promises e t n h = (
  store_other y none (construct_executor y num_threads promises t).executors x n
      ∙ store_other y (some (new_executor num_threads promises)) t.executors x n
      ∙ h,
  ap
      (λ o.
        spawn_on correlation_id c y o
          (destruct_executor y (construct_executor y num_threads promises t)))
      (store_self y none (construct_executor y num_threads promises t).executors),
)
