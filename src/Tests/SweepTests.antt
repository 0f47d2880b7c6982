-- ===== src/Tests/SweepTests.antt =====
-- Notifications of include/concurrency/notify.hpp, statement by statement, on concrete inputs.
use toad_jawbreaker.Prelude.{
  ℕ, zero, suc, ◌≡◌, ◌≤◌, refl, true, false, List, [], ◌∷◌, ◌++◌, none, some, ◌+◌,
}
use toad_jawbreaker.Concurrency.Notify.{exchange_head, link}
use toad_jawbreaker.Concurrency.Notify.Stack as Stack
use toad_jawbreaker.Concurrency.Notify.Stack.{World, fresh, set_stage, Chain}
use toad_jawbreaker.Concurrency.Notify.Drained.{Unique}
use toad_jawbreaker.Concurrency.Notify.Spinning.{
  wait_blocking, Steps, stays, and_then, wait_blocking_returns,
}
use toad_jawbreaker.Concurrency.Notify.Sweep.{
  Sweep, outside, tests, links, at_start, Swept, starts, goes_on, acts, takes, spawns, IsCareful,
}
use toad_jawbreaker.Concurrency.Notify.Sweep.Refined.{foreseen, sweep-refines}
use toad_jawbreaker.Concurrency.Notify.Sweep.Accounted.{pushed_accounted}
use toad_jawbreaker.Concurrency.Notify.Sweep.Skipped.{others_skipped}

-- Two awaiters are in the stack, and the flag is set.
abbrev pushed_0 : World
pushed_0 = record Stack.start {
  notify = record { head = some 0; fired = false; next = link 0 none λ a. none };
  stages =
      set_stage 0 Stack.linked
        (set_stage 0 (Stack.pushes none) (set_stage 0 Stack.suspends λ b. fresh));
  pushed = 0 ∷ [];
}

abbrev pushed_1 : World
pushed_1 = record pushed_0 {
  notify = record { head = some 1; fired = true; next = link 1 (some 0) (link 0 none λ a. none) };
  stages =
      set_stage 1 Stack.linked
        (set_stage 1 (Stack.pushes (some 0)) (set_stage 1 Stack.suspends pushed_0.stages));
  pushed = 1 ∷ 0 ∷ [];
}

abbrev two_wait : Sweep
two_wait = record at_start { world = pushed_1 }

two_wait-Swept : Swept two_wait
unfolding exchange_head
two_wait-Swept =
    let r1 = goes_on starts (acts (Stack.asks 0 refl) tt) in
    let r2 = goes_on r1 (acts (Stack.loads 0 refl) tt) in
    let r3 = goes_on r2 (acts (Stack.tries 0 none refl) tt) in
    let r4 = goes_on r3 (acts (Stack.asks 1 refl) tt) in
    let r5 = goes_on r4 (acts (Stack.loads 1 refl) tt) in
    let r6 = goes_on r5 (acts (Stack.tries 1 (some 0) refl) tt) in goes_on r6 (acts Stack.fires tt)

two_wait-IsCareful : IsCareful two_wait-Swept
unfolding two_wait-Swept exchange_head
two_wait-IsCareful = (((((((tt, tt), tt), tt), tt), tt), tt), tt)

-- The coroutine of the last one was spawned, and its link is read next.
abbrev one_woken : Sweep
one_woken = record two_wait {
  world = record pushed_1 { notify = record pushed_1.notify { head = none }; drained = 1 };
  place = links 1;
}

one_woken-Swept : Swept one_woken
one_woken-Swept = goes_on (goes_on two_wait-Swept (takes refl)) (spawns 1 refl)

one_woken-IsCareful : IsCareful one_woken-Swept
unfolding one_woken-Swept
one_woken-IsCareful = ((two_wait-IsCareful, tt), tt)

sweep-refines_example :
    (ahead : List ℕ) × Chain one_woken.world.notify.next (some 1) ahead
    × Stack.Reachable (foreseen one_woken ahead)
sweep-refines_example = sweep-refines one_woken-Swept one_woken-IsCareful

pushed_accounted_example :
    (waiting : List ℕ) × (ahead : List ℕ) × Chain one_woken.world.notify.next none waiting
    × Chain one_woken.world.notify.next (some 1) ahead
    × (1 ∷ 0 ∷ [] ≡ waiting ++ (([] ++ ahead) ++ []))
    × Unique (1 ∷ 0 ∷ [])
    × (links 1 ≡ tests none → 1 ∷ 0 ∷ [] ≡ waiting ++ ([] ++ []))
pushed_accounted_example = pushed_accounted one_woken-Swept one_woken-IsCareful

others_skipped_example :
    (others : List ℕ) × (1 ∷ 0 ∷ [] ≡ 1 ∷ (others ++ []))
    × Unique (1 ∷ (others ++ []))
    × ((s' : Sweep) × Swept s'
        × (s'.place ≡ outside)
        × (s'.world.notify.head ≡ none)
        × (s'.world.pushed ≡ 1 ∷ 0 ∷ [])
        × (s'.world.spawned ≡ 1 ∷ []))
others_skipped_example = others_skipped two_wait-Swept two_wait-IsCareful refl 1 refl

-- The flag is set before the third load.
abbrev loads : ℕ → World
loads zero = Stack.start
loads (suc zero) = Stack.start
loads (suc (suc i)) = record Stack.start { notify = record Stack.start.notify { fired = true } }

loads-Steps : (i : ℕ) → Steps (loads i) (loads (suc i))
loads-Steps zero = stays
loads-Steps (suc zero) = and_then stays Stack.fires
loads-Steps (suc (suc i)) = stays

wait_blocking_returns_example :
    (m : ℕ) × (wait_blocking 3 (λ i. (loads i).notify.fired) 0 ≡ some m)
    × (m ≤ 2)
    × ((j : ℕ) → (loads (m + j)).notify.fired ≡ true)
wait_blocking_returns_example = wait_blocking_returns loads loads-Steps 2 refl

waits_twice : wait_blocking 3 (λ i. (loads i).notify.fired) 0 ≡ some 2
unfolding wait_blocking
waits_twice = refl
