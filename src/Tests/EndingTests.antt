-- ===== src/Tests/EndingTests.antt =====
-- The end of an executor of include/concurrency/executor.hpp on a concrete input.
use toad_jawbreaker.Prelude.{ℕ, ◌+◌, ◌≡◌, ◌≤◌, ◌⊎◌, refl, true, false, [], ◌∷◌, All}
use toad_jawbreaker.Concurrency.Executor.{
  Promise, Executor, new_executor, idle, gone, update, spawn, turn, begin_task, end_task, busy,
}
use toad_jawbreaker.Concurrency.Executor.Steps.{
  Reachable, starts, goes_on, owner_spawns, closes, begins, quits, ends,
}
use toad_jawbreaker.Concurrency.Executor.Ending.{
  Quiet, QuietStep, quietly, rests, proceeds, measure, shutdown_ends,
}

abbrev promises : ℕ → Promise
promises c = record { parent_corr_id = 5; corr_id = c + 100; done = false }

-- One worker, a task in the queue, and the destructor has started.
abbrev closing : Executor
closing = record (new_executor 1 promises) {
  queue = 7 ∷ [];
  accepted = 7 ∷ [];
  promises = update 7 (λ p. record p { parent_corr_id = 0 }) promises;
  is_done = true;
}

abbrev ended : Executor
ended = record closing { queue = []; taken = 7 ∷ []; workers = record idle { stage = gone } ∷ [] }

closing-Reachable : Reachable 1 closing
unfolding spawn
closing-Reachable = goes_on (goes_on (starts promises) (owner_spawns 7 refl)) closes

closing-Quiet : Quiet 3 closing ended
unfolding turn begin_task end_task
closing-Quiet =
    let w = busy 7 (closing.promises 7) in
    proceeds
      (proceeds (proceeds rests (quietly [] idle [] refl (begins 7 [] refl refl) tt))
        (quietly [] w [] refl (ends 7 refl) tt))
      (quietly [] idle [] refl (quits refl refl) tt)

shutdown_ends_example :
    (3 ≤ measure closing)
    × ((All (λ w. w.stage ≡ gone) ended.workers × (ended.taken ≡ ended.accepted))
        ⊎ ((e : Executor) × QuietStep ended e))
shutdown_ends_example = shutdown_ends closing-Reachable refl closing-Quiet
