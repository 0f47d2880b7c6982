-- ===== src/Tests/GroupTests.antt =====
-- A join set of include/concurrency/join.hpp with two tasks.
use toad_jawbreaker.Prelude.{◌≡◌, refl, inl, true, false, [], ◌∷◌, arith}
use toad_jawbreaker.Concurrency.Notify.Stack as Stack
use toad_jawbreaker.Concurrency.Notify.Stack.{World, passed, fresh, set_stage}
use toad_jawbreaker.Concurrency.Join.{JoinSet, new_join_set, join_spawn, join_subtract, join_notify}
use toad_jawbreaker.Concurrency.Join.Group.{
  Member, new_member, Group, spawns, notifies, Reachable, starts, goes_on, Later,
}
use toad_jawbreaker.Concurrency.Join.Group.Joinable.{woken_joins}

-- Both tasks have set their flags before the coroutines ask.
abbrev flagged : World
flagged = record Stack.start { notify = record Stack.start.notify { fired = true } }

abbrev asked : World
asked = record flagged { stages = set_stage 0 passed λ a. fresh }

abbrev member : Member
member = record { task = asked; ended = false }

abbrev two_spawned : JoinSet
two_spawned = record new_join_set { awaiting = 2; spawned = 2 }

abbrev two_woken : Group
two_woken = record { join = two_spawned; members = member ∷ member ∷ [] }

two_woken-Reachable : Reachable two_woken
unfolding join_spawn
two_woken-Reachable =
    let r1 = goes_on starts (spawns (record new_join_set { awaiting = 1; spawned = 1 }) refl) in
    let r2 = goes_on r1 (spawns two_spawned refl) in
    let r3 = goes_on r2 (
      notifies [] new_member (new_member ∷ []) flagged refl Stack.fires (omega arith) (inl refl)) in
    let r4 = goes_on r3 (
      notifies [] (record new_member { task = flagged }) (new_member ∷ []) asked refl
        (Stack.asks 0 refl) (omega arith) (inl refl)) in
    let r5 =
      goes_on r4
        (notifies (member ∷ []) new_member [] flagged refl Stack.fires (omega arith) (inl refl)) in
    goes_on r5 (
      notifies (member ∷ []) (record new_member { task = flagged }) [] asked refl
        (Stack.asks 0 refl) (omega arith) (inl refl))

woken_joins_example : (g : Group) × Later two_woken g × (g.join.fired ≡ true)
woken_joins_example =
    woken_joins two_woken-Reachable (omega arith) (omega arith) (inl refl, (inl refl, tt))

abbrev over : Member
over = record member { ended = true }

abbrev two_over : Group
two_over = record {
  join = join_notify (join_subtract (join_subtract two_spawned));
  members = over ∷ over ∷ [];
}
