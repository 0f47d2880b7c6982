-- ===== src/Concurrency/Notify/Lost.antt =====
-- An awaiter of include/concurrency/notify.hpp that no notification reaches.
use toad_jawbreaker.Prelude.{ℕ, ◌≡◌, refl, true, [], ◌∷◌, none}
use toad_jawbreaker.Concurrency.Notify.{exchange_head, notify_loop}
use toad_jawbreaker.Concurrency.Notify.Stack.{
  fresh, suspends, pushes, set_stage, World, asks, loads, tries, fires, drains, Reachable, starts,
  goes_on,
}
use toad_jawbreaker.Concurrency.Notify.Links.{set_stage_self}

-- An awaiter that finds the flag unset and is pushed after `notify_all` has emptied the stack stays
-- there: whichever awaiter it is, a state is reachable in which the flag is set, `notify_all` has
-- emptied the stack once, the awaiter is pushed, and nothing was spawned.
pub late_awaiter_lost :
    (a : ℕ)
    → (w : World) × Reachable w
      × (w.notify.fired ≡ true)
      × (w.drained ≡ 1)
      × (w.pushed ≡ a ∷ [])
      × (w.spawned ≡ [])
unfolding notify_loop exchange_head
late_awaiter_lost a =
    let at_suspend = set_stage a suspends (λ b. fresh) in
    let r1 = goes_on starts (asks a refl) in
    let r2 = goes_on r1 fires in
    let r3 = goes_on r2 (drains 1 [] refl) in
    let r4 = goes_on r3 (loads a (set_stage_self a suspends (λ b. fresh))) in
    let r5 = goes_on r4 (tries a none (set_stage_self a (pushes none) at_suspend)) in
    (_, r5, refl, refl, refl, refl)
