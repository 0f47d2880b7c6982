-- ===== src/Concurrency/Notify/Sweep/Skipped.antt =====
-- An awaiter of include/concurrency/notify.hpp that ends before `notify_all` reads its link.
use toad_jawbreaker.Prelude.{
  store_self, ℕ, ◌≡◌, refl, ◌∙◌, ap, List, [], ◌∷◌, ◌++◌, true, none, some,
}
use mathlib.Core.Path.{subst}
use toad_jawbreaker.Concurrency.Notify.Drained.{Unique, Reachable-Inv}
use toad_jawbreaker.Concurrency.Notify.Sweep.{
  outside, tests, Sweep, takes, spawns, reads_freed, leaves, ends_awaiter, Swept, goes_on,
  IsCareful,
}
use toad_jawbreaker.Concurrency.Notify.Sweep.Refined.{no_batch, outside-Reachable, Chain-some}

-- Whenever awaiters are in the stack, no notification is in its loop, and so far no link was read from
-- an awaiter that had ended, `notify_all` may spawn the coroutine of the last one only: if it resumes at
-- once, the link that is read from its freed memory may be null. The others, which were pushed once
-- each and not spawned, are then neither in the stack nor spawned.
pub others_skipped :
    {s : Sweep} (r : Swept s)
    → IsCareful r
    → s.place ≡ outside
    → (b : ℕ) → s.world.notify.head ≡ some b
    → (others : List ℕ) × (s.world.pushed ≡ b ∷ (others ++ s.world.spawned))
      × Unique (b ∷ (others ++ s.world.spawned))
      × ((s' : Sweep) × Swept s'
          × (s'.place ≡ outside)
          × (s'.world.notify.head ≡ none)
          × (s'.world.pushed ≡ s.world.pushed)
          × (s'.world.spawned ≡ b ∷ s.world.spawned))
others_skipped {s} r q p b e =
    let i = Reachable-Inv (outside-Reachable r q p) in
    let (others, whole, _) = Chain-some s.world.notify.head i.waiting b i.chain e in
    let r1 = goes_on r (takes p) in
    let r2 = goes_on r1 (spawns b (ap tests e)) in
    let r3 = goes_on r2 (ends_awaiter s.batch b s.world.spawned refl) in
    let r4 = goes_on r3 (reads_freed b none refl (store_self b true s.ended)) in
    let r5 = goes_on r4 (leaves refl) in
    (
      others,
      (i.split ∙ ap (λ l. l ++ s.world.spawned) whole),
      (subst Unique (i.split ∙ ap (λ l. l ++ s.world.spawned) whole) i.once),
      (_, r5, refl, refl, refl, ap (λ l. (l ++ (b ∷ [])) ++ s.world.spawned) (no_batch r p)),
    )
