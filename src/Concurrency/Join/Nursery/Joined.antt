-- ===== src/Concurrency/Join/Nursery/Joined.antt =====
-- That a join set of include/concurrency/join.hpp with one task waits for it.
use toad_jawbreaker.Prelude.{◌≡◌, refl, ap, true, false, returns-injective, returns, [], ◌∷◌, arith}
use toad_jawbreaker.Concurrency.Join.{join_spawn, join_subtract, join_notify, destroy_join_set}
use toad_jawbreaker.Concurrency.Join.Group as Group
use toad_jawbreaker.Concurrency.Join.Group.{Group}
use toad_jawbreaker.Concurrency.Join.Group.Joined.{group_joined}
use toad_jawbreaker.Concurrency.Join.Nursery.{
  Nursery, notifies, continues, sets_flag, Reachable, starts, goes_on,
}

abbrev pub as_group : Nursery → Group
as_group n = record { join = n.join; members = record { task = n.task; ended = n.ended } ∷ [] }

-- A set with one task is a set with any number of them.
as_group-Reachable : {n : Nursery} → Reachable n → Group.Reachable (as_group n)
as_group-Reachable (starts j e) = Group.goes_on Group.starts (Group.spawns j e)
as_group-Reachable (goes_on {n} r (notifies w s once order)) =
    Group.goes_on (as_group-Reachable r)
      (Group.notifies [] (record { task = n.task; ended = n.ended }) [] w refl s once order)
as_group-Reachable (goes_on {n} r (continues woken left)) =
    Group.goes_on (as_group-Reachable r)
      (Group.continues [] (record { task = n.task; ended = n.ended }) [] refl woken left)
as_group-Reachable (goes_on r (sets_flag some_left)) =
    Group.goes_on (as_group-Reachable r) (Group.sets_flag some_left)

-- With one task no spawn can come after the first.
unraced : {n : Nursery} → Reachable n → n.join.is_raced ≡ false
unfolding join_spawn join_subtract join_notify
unraced (starts j e) = ap (λ k. k.is_raced) (returns-injective e refl)
unraced (goes_on r (notifies w s once order)) = unraced r
unraced (goes_on r (continues woken left)) = unraced r
unraced (goes_on r (sets_flag some_left)) = unraced r

-- A set with one task is notified only after the task has ended and set its flag, and then no more is
-- awaited in it: the assertion of its destructor holds.
pub joined_after :
    {n : Nursery}
    → Reachable n
    → n.join.fired ≡ true
    → (n.task.notify.fired ≡ true) × (destroy_join_set n.join ≡ returns tt)
joined_after r e =
    let (((over, fired), _), safe) =
      group_joined (as_group-Reachable r) (omega arith) (unraced r) e in
    (fired, safe)
