-- ===== src/Concurrency/Notify/Sweep/Accounted.antt =====
-- Which awaiters of include/concurrency/notify.hpp `notify_all` reaches, with its statements between those
-- of others.
use toad_jawbreaker.Prelude.{ℕ, ◌≡◌, ap, ◌∙◌, List, ◌++◌, append-nil, none}
use toad_jawbreaker.Concurrency.Notify.Stack.{Chain}
use toad_jawbreaker.Concurrency.Notify.Drained.{Unique, Reachable-Inv}
use toad_jawbreaker.Concurrency.Notify.Sweep.{tests, Sweep, Swept, IsCareful}
use toad_jawbreaker.Concurrency.Notify.Sweep.Refined.{pointer, sweep-refines, Chain-none}

-- However the statements of `notify_all` fall between those of the awaiters and of the coroutines that it
-- spawns, as long as no link is read from an awaiter that has ended: the links lead from the head through
-- finitely many awaiters, and from where the loop is through finitely many; and these, those that the loop
-- is done with, and those that earlier loops spawned are together the awaiters that were pushed, each
-- once. At the end of the loop none is left ahead: all that are not in the stack were spawned.
pub pushed_accounted :
    {s : Sweep} (r : Swept s)
    → IsCareful r
    → (waiting : List ℕ) × (ahead : List ℕ) × Chain s.world.notify.next s.world.notify.head waiting
      × Chain s.world.notify.next (pointer s.place) ahead
      × (s.world.pushed ≡ waiting ++ ((s.batch ++ ahead) ++ s.world.spawned))
      × Unique s.world.pushed
      × (s.place ≡ tests none → s.world.pushed ≡ waiting ++ (s.batch ++ s.world.spawned))
pushed_accounted {s} r q =
    let (ahead, chain, reached) = sweep-refines r q in
    let i = Reachable-Inv reached in
    (
      i.waiting,
      ahead,
      i.chain,
      chain,
      i.split,
      i.once,
      λ p.
          i.split
          ∙ ap (λ l. i.waiting ++ (l ++ s.world.spawned))
              (ap (λ l. s.batch ++ l) (Chain-none (pointer s.place) ahead chain (ap pointer p))
                ∙ append-nil s.batch),
    )
