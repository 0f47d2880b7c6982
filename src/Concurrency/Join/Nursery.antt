-- ===== src/Concurrency/Join/Nursery.antt =====
-- include/concurrency/join.hpp with one task: the coroutine that `JoinSet::spawn` starts awaits the
-- `continuations` of the task's promise, in include/concurrency/task.hpp, which `final_suspend` notifies
-- once. The coroutine's awaiter is number 0.
pub mod Missed
pub mod Joined
use toad_jawbreaker.Prelude.{times, ◌≡◌, ◌≢◌, ◌≤◌, ◌<◌, ◌⊎◌, Bool, true, false, returns}
use toad_jawbreaker.Concurrency.Notify.Stack as Stack
use toad_jawbreaker.Concurrency.Notify.Stack.{World, passed}
use toad_jawbreaker.Concurrency.Join.{JoinSet, new_join_set, join_spawn, join_subtract, join_notify}

-- The set, the notification of the task's end, and whether the coroutine that awaits it has counted itself
-- out.
pub record Nursery : Type 0 where
  pub join : JoinSet
  pub task : World
  pub ended : Bool

pub data Step : Nursery → Nursery → Type 0 where
  -- The coroutine awaits, or the task ends: `final_suspend` sets the flag and then empties the stack once.
  notifies :
      {n : Nursery} (w : World)
      → Stack.Step n.task w
      → w.drained ≤ 1
      → (w.drained ≡ n.task.drained) ⊎ (n.task.notify.fired ≡ true)
      → Step n (record n { task = w })
  -- The coroutine goes on, after it did not suspend or was spawned, and counts itself out.
  continues :
      {n : Nursery}
      → (n.task.stages 0 ≡ passed) ⊎ (times 0 n.task.spawned ≢ 0)
      → n.ended ≡ false
      → Step n (record n { join = join_subtract n.join; ended = true })
  sets_flag : {n : Nursery} → 0 < n.join.notifying → Step n (record n { join = join_notify n.join })

-- The states after one task was spawned in a new set.
pub data Reachable : Nursery → Type 0 where
  starts :
      (j : JoinSet)
      → join_spawn new_join_set ≡ returns j
      → Reachable (record { join = j; task = Stack.start; ended = false })
  goes_on : {n n' : Nursery} → Reachable n → Step n n' → Reachable n'

pub data Later (n : Nursery) : Nursery → Type 0 where
  now : Later n n
  and_then : {n' n'' : Nursery} → Later n n' → Step n' n'' → Later n n''
