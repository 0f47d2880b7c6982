-- ===== src/Concurrency/Join/Nursery/Missed.antt =====
-- How a join set of include/concurrency/join.hpp can miss the end of its task.
use toad_jawbreaker.Prelude.{
  times, ℕ, ◌+◌, ◌≡◌, ◌≢◌, ◌≤◌, inl, inr, refl, ap, ◌∙◌, Bool, true, false, [], none, aborts,
  returns-injective, arith,
}
use toad_jawbreaker.Concurrency.Notify.{Notify, exchange_head, notify_loop, link}
use toad_jawbreaker.Concurrency.Notify.Stack as Stack
use toad_jawbreaker.Concurrency.Notify.Stack.{
  World, after_round, set_stage, passed, suspends, pushes, linked, asks, loads, tries, fails, fires,
  drains,
}
use toad_jawbreaker.Concurrency.Notify.Links.{set_stage_self, set_stage-linked}
use toad_jawbreaker.Concurrency.Join.{JoinSet, join_spawn, destroy_join_set}
use toad_jawbreaker.Concurrency.Join.Nursery.{
  Nursery, notifies, continues, sets_flag, Reachable, starts, goes_on, Later, now, and_then,
}

-- The coroutine's awaiter is in the stack, and the stack was emptied before.
record Missed (w : World) : Type 0 where
  is_linked : w.stages 0 ≡ linked
  silent : w.spawned ≡ []
  is_over : w.drained ≡ 1

stages-Missed :
    (a : ℕ) (st : Stack.Stage) (w : World)
    → w.stages a ≢ linked
    → Missed w
    → Missed (record w { stages = set_stage a st w.stages })
stages-Missed a st w out m = record {
  is_linked = set_stage-linked a st w.stages 0 out m.is_linked;
  silent = m.silent;
  is_over = m.is_over;
}

after_round-Missed :
    (a : ℕ) (r : Bool × Notify) (w : World)
    → w.stages a ≢ linked
    → Missed w
    → Missed (after_round a r w)
after_round-Missed a (true, n) w out m = record {
  is_linked = set_stage-linked a linked w.stages 0 out m.is_linked;
  silent = m.silent;
  is_over = m.is_over;
}
after_round-Missed a (false, n) w out m = record {
  is_linked = set_stage-linked a (pushes n.head) w.stages 0 out m.is_linked;
  silent = m.silent;
  is_over = m.is_over;
}

Step-Missed : {w w' : World} → Stack.Step w w' → w'.drained ≤ 1 → Missed w → Missed w'
Step-Missed (asks {w} a e) once m = stages-Missed a _ w (λ l. cc) m
Step-Missed (loads {w} a e) once m = stages-Missed a _ w (λ l. cc) m
Step-Missed (tries {w} a old_head e) once m =
    after_round-Missed a (exchange_head a old_head w.notify) w (λ l. cc) m
Step-Missed (fails {w} a old_head e) once m =
    after_round-Missed a (false, record w.notify { next = link a old_head w.notify.next }) w
      (λ l. cc) m
Step-Missed fires once m = record {
  is_linked = m.is_linked;
  silent = m.silent;
  is_over = m.is_over;
}
Step-Missed (drains fuel l e) once m = absurd (omega (arith, m.is_over, once))

Later-Missed :
    {n n' : Nursery}
    → Later n n'
    → n.join.notifying ≡ 0
    → Missed n.task
    → Missed n'.task × (n'.join ≡ n.join)
Later-Missed now nobody m = (m, refl)
Later-Missed (and_then l (sets_flag some_left)) nobody m =
    let (m', e) = Later-Missed l nobody m in
    absurd (omega (arith, some_left, nobody, ap (λ j. j.notifying) e))
Later-Missed (and_then l (notifies w s once order)) nobody m =
    let (m', e) = Later-Missed l nobody m in (Step-Missed s once m', e)
Later-Missed (and_then l (continues (inl p) left)) nobody m =
    let (m', e) = Later-Missed l nobody m in absurd (passed-linked p m'.is_linked)
  where
    passed-linked : {st : Stack.Stage} → st ≡ passed → st ≡ linked → ⊥
    passed-linked p l = cc
Later-Missed (and_then l (continues (inr some_spawned) left)) nobody m =
    let (m', e) = Later-Missed l nobody m in absurd (some_spawned (ap (times 0) m'.silent))

-- The set after one task was spawned in it.
abbrev pub one_awaited : JoinSet
one_awaited = record {
  awaiting = 1;
  notifying = 0;
  fired = false;
  spawned = 1;
  ended = 0;
  is_raced = false;
}

pub unended-join : {n : Nursery} → Reachable n → n.ended ≡ false → n.join ≡ one_awaited
unfolding join_spawn
unended-join (starts j e) u = returns-injective e refl
unended-join (goes_on r (notifies w s once order)) u = unended-join r u
unended-join (goes_on r (continues c left)) u = cc
unended-join (goes_on r (sets_flag some_left)) u =
    absurd (omega (arith, some_left, ap (λ j. j.notifying) (unended-join r u)))

-- A set with one task can miss its end: as soon as the coroutine that awaits the task has found the flag
-- unset, alone and before the task notifies, a state can follow in which the task has notified and from
-- which on, whatever happens, the set is never notified and cannot be destroyed without an abort.
pub join_missed :
    (n : Nursery)
    → Reachable n
    → n.ended ≡ false
    → n.task.stages 0 ≡ suspends
    → n.task.notify.head ≡ none
    → n.task.spawned ≡ []
    → n.task.drained ≡ 0
    → (n' : Nursery) × Later n n'
      × (n'.task.notify.fired ≡ true)
      × (n'.task.drained ≡ 1)
      × ((n'' : Nursery)
          → Later n' n''
          → (n''.join.fired ≡ false) × (destroy_join_set n''.join ≡ aborts))
unfolding notify_loop exchange_head destroy_join_set
join_missed n r u at_suspend empty silent before =
    let once : n.task.drained + 1 ≡ 1 = omega (arith, before) in
    let l1 = and_then now (notifies _ fires (omega (arith, before)) (inl refl)) in
    let l2 =
      and_then l1 (notifies _ (drains 1 [] (rw empty refl)) (omega (arith, once)) (inr refl)) in
    let l3 = and_then l2 (notifies _ (loads 0 at_suspend) (omega (arith, once)) (inl refl)) in
    let l4 = and_then l3 (
      notifies _ (tries 0 none (set_stage_self 0 (pushes none) n.task.stages)) (omega (arith, once))
        (inl refl)) in
    (
      _,
      l4,
      refl,
      once,
      λ n'' l.
          let (m, same) = Later-Missed l (ap (λ j. j.notifying) (unended-join r u)) (record {
            is_linked = set_stage_self 0 linked (set_stage 0 (pushes none) n.task.stages);
            silent = silent;
            is_over = once;
          }) in
          let join = same ∙ unended-join r u in
          (ap (λ j. j.fired) join, ap (λ j. destroy_join_set j) join),
    )
