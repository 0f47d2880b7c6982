-- ===== src/Tests/ConcurrencyTests.antt =====
-- The concurrency library of include/concurrency on concrete inputs.
use toad_jawbreaker.Prelude.{
  length, suc, none, ℕ, ◌+◌, ◌≡◌, refl, true, false, List, [], ◌∷◌, ◌++◌, some, returns,
}
use toad_jawbreaker.Concurrency.Future.{set_value, await_ready, await_suspend}
use toad_jawbreaker.Concurrency.Future.History
use toad_jawbreaker.Concurrency.Future.History.{
  completes, awaits, start, run-Inv, early_completion_lost, Inv, World,
}
use toad_jawbreaker.Concurrency.Executor.{
  Promise, Executor, new_executor, idle, gone, update, spawn, turn, begin_task, end_task, busy,
}
use toad_jawbreaker.Concurrency.Executor.Steps.{
  Reachable, starts, goes_on, works, owner_spawns, closes, begins, quits, ends,
}
use toad_jawbreaker.Concurrency.Executor.Steps as Steps
use toad_jawbreaker.Concurrency.Executor.Order.{accepted-Fifo}
use toad_jawbreaker.Concurrency.Executor.Shutdown.{shutdown_complete}
use toad_jawbreaker.Concurrency.Executor.Race.{suspended_destroyed_twice}
use toad_jawbreaker.Concurrency.Notify.{link, notify_loop, exchange_head}
use toad_jawbreaker.Concurrency.Notify.Stack as Notify
use toad_jawbreaker.Concurrency.Notify.Drained.{Unique, notify_all_drains}
use toad_jawbreaker.Concurrency.Join as Join
use toad_jawbreaker.Concurrency.Join.{JoinSet, new_join_set}

abbrev delivered : World ℕ
delivered = record {
  future = record { value = some 9; is_ready = true; continuation = some 4 };
  spawned = 4 ∷ [];
  went_on = 6 ∷ [];
}

abbrev history : List (History.Step ℕ)
history = completes 8 ∷ awaits 4 ∷ completes 9 ∷ awaits 6 ∷ []

history-run : History.run history start ≡ returns delivered
unfolding History.run History.step set_value await_ready await_suspend
history-run = refl

run-Inv_example : Inv delivered
run-Inv_example = run-Inv history delivered history-run

-- One worker and one coroutine, 7, from its spawn to the end of the executor.
abbrev promises : ℕ → Promise
promises c = record { parent_corr_id = 5; corr_id = c + 100; done = false }

abbrev spawned : Executor
spawned = record (new_executor 1 promises) {
  queue = 7 ∷ [];
  accepted = 7 ∷ [];
  promises = update 7 (λ p. record p { parent_corr_id = 0 }) promises;
}

abbrev running : Executor
running = record spawned { queue = []; taken = 7 ∷ []; workers = busy 7 (spawned.promises 7) ∷ [] }

abbrev over : Executor
over = record running {
  promises = update 7 (λ p. record p { done = true }) running.promises;
  workers = record idle { stage = gone } ∷ [];
  is_done = true;
  destroyed = 7 ∷ [];
}

running-Reachable : Reachable 1 running
unfolding spawn turn begin_task
running-Reachable =
    goes_on (goes_on (starts promises) (owner_spawns 7 refl))
      (works [] idle [] refl (begins 7 [] refl refl))

over-Reachable : Reachable 1 over
unfolding spawn turn begin_task end_task
over-Reachable =
    let w = busy 7 (spawned.promises 7) in
    goes_on
      (goes_on
        (goes_on (goes_on running-Reachable (works [] w [] refl (Steps.completes 7 refl)))
          (works [] w [] refl (ends 7 refl)))
        closes)
      (works [] idle [] refl (quits refl refl))

accepted-Fifo_example : over.accepted ≡ over.taken ++ over.queue
accepted-Fifo_example = accepted-Fifo over-Reachable

shutdown_complete_example : (true ≡ true) × (over.queue ≡ []) × (over.taken ≡ over.accepted)
shutdown_complete_example = shutdown_complete over-Reachable (refl, tt)

suspended_destroyed_twice_example : (e : Executor) × Reachable 2 e × (e.destroyed ≡ 7 ∷ 7 ∷ [])
suspended_destroyed_twice_example = suspended_destroyed_twice 0 promises 7 refl

-- Awaiter 4 is pushed and spawned, then awaiter 6 is pushed.
abbrev pushed_late : Notify.World
pushed_late = record Notify.start {
  notify = record { head = some 6; fired = true; next = link 6 none (link 4 none λ a. none) };
  stages = Notify.set_stage 6 Notify.linked (
      Notify.set_stage 6 (Notify.pushes none) (
        Notify.set_stage 4 Notify.linked (
          Notify.set_stage 4 (Notify.pushes none) (
            Notify.set_stage 6 Notify.suspends
              (Notify.set_stage 4 Notify.suspends λ a. Notify.fresh)))));
  pushed = 6 ∷ 4 ∷ [];
  spawned = 4 ∷ [];
  drained = 1;
}

pushed_late-Reachable : Notify.Reachable pushed_late
unfolding notify_loop exchange_head
pushed_late-Reachable =
    let r1 =
      Notify.goes_on (Notify.goes_on Notify.starts (Notify.asks 4 refl)) (Notify.asks 6 refl) in
    let r2 = Notify.goes_on (Notify.goes_on r1 (Notify.loads 4 refl)) (Notify.tries 4 none refl) in
    let r3 = Notify.goes_on (Notify.goes_on r2 Notify.fires) (Notify.drains 2 (4 ∷ []) refl) in
    Notify.goes_on (Notify.goes_on r3 (Notify.loads 6 refl)) (Notify.tries 6 none refl)

pushed_late-drains :
    (l : List ℕ) × (notify_loop (suc (length l)) pushed_late.notify.next (some 6) ≡ some l)
    × (6 ∷ 4 ∷ [] ≡ l ++ (4 ∷ []))
    × Unique (6 ∷ 4 ∷ [])
pushed_late-drains = notify_all_drains pushed_late-Reachable

-- Two coroutines are spawned, and one has counted itself out.
abbrev one_left : JoinSet
one_left = record new_join_set { awaiting = 1; spawned = 2; ended = 1 }
