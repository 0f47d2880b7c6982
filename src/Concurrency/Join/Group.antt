-- ===== src/Concurrency/Join/Group.antt =====
-- include/concurrency/join.hpp with any number of tasks: for each, `JoinSet::spawn` starts a coroutine
-- that awaits the `continuations` of the task's promise, in include/concurrency/task.hpp, which
-- `final_suspend` notifies once, its loop being one step as in Notify/Stack. The awaiter of that coroutine is number 0 of its task's.
pub mod Ordered
pub mod Joined
pub mod Joinable
use toad_jawbreaker.Prelude.{
  times, ◌≡◌, ◌≢◌, ◌≤◌, ◌<◌, ◌⊎◌, Bool, true, false, List, [], ◌∷◌, ◌++◌, returns,
}
use toad_jawbreaker.Concurrency.Notify.Stack as Stack
use toad_jawbreaker.Concurrency.Notify.Stack.{World, passed}
use toad_jawbreaker.Concurrency.Join.{JoinSet, new_join_set, join_spawn, join_subtract, join_notify}

-- A task's notification, and whether the coroutine that awaits it has counted itself out.
pub record Member : Type 0 where
  pub task : World
  pub ended : Bool

abbrev pub new_member : Member
new_member = record { task = Stack.start; ended = false }

pub record Group : Type 0 where
  pub join : JoinSet
  pub members : List Member

-- The coroutine of a member goes on: it did not suspend, or was spawned.
abbrev pub IsWoken : Member → Type 0
IsWoken m = (m.task.stages 0 ≡ passed) ⊎ (times 0 m.task.spawned ≢ 0)

pub data GroupStep : Group → Group → Type 0 where
  spawns :
      {g : Group} (j : JoinSet)
      → join_spawn g.join ≡ returns j
      → GroupStep g (record { join = j; members = g.members ++ (new_member ∷ []) })
  -- The coroutine awaits, or the task ends: `final_suspend` sets the flag and then empties the stack once.
  notifies :
      {g : Group} (front : List Member) (m : Member) (back : List Member) (w : World)
      → g.members ≡ front ++ (m ∷ back)
      → Stack.Step m.task w
      → w.drained ≤ 1
      → (w.drained ≡ m.task.drained) ⊎ (m.task.notify.fired ≡ true)
      → GroupStep g (record g { members = front ++ (record m { task = w } ∷ back) })
  -- The coroutine goes on and counts itself out.
  continues :
      {g : Group} (front : List Member) (m : Member) (back : List Member)
      → g.members ≡ front ++ (m ∷ back)
      → IsWoken m
      → m.ended ≡ false
      → GroupStep g (record {
        join = join_subtract g.join;
        members = front ++ (record m { ended = true } ∷ back);
      })
  -- The one that brought the counter to zero sets the flag of the set.
  sets_flag :
      {g : Group} → 0 < g.join.notifying → GroupStep g (record g { join = join_notify g.join })

pub data Reachable : Group → Type 0 where
  starts : Reachable (record { join = new_join_set; members = [] })
  goes_on : {g g' : Group} → Reachable g → GroupStep g g' → Reachable g'

pub data Later (g : Group) : Group → Type 0 where
  now : Later g g
  and_then : {g' g'' : Group} → Later g g' → GroupStep g' g'' → Later g g''
