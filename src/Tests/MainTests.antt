-- ===== src/Tests/MainTests.antt =====
-- src/main.cpp and the waits of include/concurrency/join.hpp on concrete inputs.
use toad_jawbreaker.Prelude.{ℕ, ◌+◌, ◌≡◌, refl, true, false, [], ◌∷◌, returns, arith}
use toad_jawbreaker.Prelude.Int.{pos}
use toad_jawbreaker.Concurrency.Executor.{
  Promise, new_executor, idle, resumes, spawn, turn, begin_task, update,
}
use toad_jawbreaker.Concurrency.Executor.Steps.{begins}
use toad_jawbreaker.Concurrency.IoContext.Submission.{Settings, new_io_context}
use toad_jawbreaker.Concurrency.Join.{JoinSet, new_join_set, join_spawn, nothing_awaited}
use toad_jawbreaker.Concurrency.Join as Join
use toad_jawbreaker.Concurrency.Join.Blocking.{
  Blocking, BlockingStep, Later, at_start, blocked, IsSpurious, wait_blocking_stranded,
}
use toad_jawbreaker.Main.{
  Program, event_loop, alive, this_io_context, Runs, starts, goes_on, constructs, serves, works,
}
use toad_jawbreaker.Main.Context.{coroutines_find_context}

abbrev promises : ℕ → Promise
promises c = record { parent_corr_id = 5; corr_id = c + 100; done = false }

abbrev settings : Settings
settings = record { batch_size = 64; timeout_ms = 5 }

-- The only worker resumes the server, coroutine 7.
abbrev serving : Program
serving = record {
  next = event_loop;
  executor = record (new_executor 1 promises) {
    workers = record idle { stage = resumes 7; correlation_id = 107 } ∷ [];
    promises = update 7 (λ p. record p { parent_corr_id = 0 }) promises;
    accepted = 7 ∷ [];
    taken = 7 ∷ [];
  };
  io_context = alive settings;
}

serving-Runs : Runs 1 7 serving
unfolding new_io_context spawn turn begin_task
serving-Runs =
    let r1 = goes_on (starts promises) (constructs (pos 0) settings refl refl) in
    goes_on (goes_on r1 (serves refl)) (works [] idle [] refl (begins 7 [] refl refl))

coroutines_find_context_example : this_io_context (alive settings) ≡ returns settings
coroutines_find_context_example =
    coroutines_find_context [] (record idle { stage = resumes 7; correlation_id = 107 }) [] 7
      serving-Runs refl refl

-- One coroutine was spawned in a set and has not ended.
abbrev one_awaited : JoinSet
one_awaited = record new_join_set { awaiting = 1; spawned = 1 }

one_awaited-Reachable : Join.Reachable one_awaited
unfolding join_spawn
one_awaited-Reachable = Join.spawns one_awaited Join.starts refl

wait_blocking_stranded_example :
    (b : Blocking) × Later (at_start one_awaited) b
    × (nothing_awaited b.join ≡ true)
    × (b.waiter ≡ blocked)
    × ((b' : Blocking) (st : BlockingStep b b') → IsSpurious st)
wait_blocking_stranded_example =
    wait_blocking_stranded one_awaited one_awaited-Reachable (omega arith) refl
