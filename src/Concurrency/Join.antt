-- ===== src/Concurrency/Join.antt =====
-- include/concurrency/join.hpp: a set of coroutines that can be awaited together. `JoinSet` is not
-- for several threads, but the coroutines that it counts end on any; each operation on the counter
-- is atomic. `fired` is the flag of its `Notify`. `notifying` has the coroutines that brought the counter to
-- zero and have not set the flag yet. `spawned`, `ended` and `is_raced` only record what happened: how
-- often a task was spawned and a coroutine counted itself out, and whether a spawn came while one was
-- between the two.
pub mod Counting
pub mod Nursery
pub mod Group
pub mod Blocking
use toad_jawbreaker.Prelude.{
  ℕ, ◌+◌, ◌-◌, ◌^◌, ◌≡◌, ◌<◌, ◌>>◌, ◌==◌, Bool, true, false, not, if◌then◌else◌, Outcome, returns,
  assert,
}
use toad_jawbreaker.Prelude.Bits.{u32}

pub record JoinSet : Type 0 where
  pub awaiting : ℕ
  pub notifying : ℕ
  pub fired : Bool
  pub spawned : ℕ
  pub ended : ℕ
  pub is_raced : Bool

abbrev pub new_join_set : JoinSet
new_join_set = record {
  awaiting = 0;
  notifying = 0;
  fired = false;
  spawned = 0;
  ended = 0;
  is_raced = false;
}

-- `JoinSet::spawn`, up to the spawn of the coroutine that awaits the task.
unfoldable pub join_spawn : JoinSet → Outcome JoinSet
join_spawn j =
    assert (not j.fired)
    >> returns (record j {
      awaiting = u32 (j.awaiting + 1);
      spawned = j.spawned + 1;
      is_raced = if j.notifying == 0 then j.is_raced else true;
    })

-- What that coroutine does once the task has ended: `fetch_sub`, which gives the old value.
unfoldable pub join_subtract : JoinSet → JoinSet
join_subtract j = record j {
  awaiting = u32 (j.awaiting + 2 ^ 32 - 1);
  notifying = if j.awaiting == 1 then j.notifying + 1 else j.notifying;
  ended = j.ended + 1;
}

-- The flag that its `notify_all` sets then, if the old value was 1.
unfoldable pub join_notify : JoinSet → JoinSet
join_notify j = record j { notifying = j.notifying - 1; fired = true }

-- The predicate of `wait_blocking`.
unfoldable pub nothing_awaited : JoinSet → Bool
nothing_awaited j = j.awaiting == 0

-- `~JoinSet`
unfoldable pub destroy_join_set : JoinSet → Outcome (Unit {0})
destroy_join_set j = assert (j.awaiting == 0)

-- The histories of a set: a spawn that returns, or the next statement of a coroutine.
pub data Reachable : JoinSet → Type 0 where
  starts : Reachable new_join_set
  spawns : {j : JoinSet} (j' : JoinSet) → Reachable j → join_spawn j ≡ returns j' → Reachable j'
  subtracts : {j : JoinSet} → Reachable j → j.ended < j.spawned → Reachable (join_subtract j)
  notifies : {j : JoinSet} → Reachable j → 0 < j.notifying → Reachable (join_notify j)
