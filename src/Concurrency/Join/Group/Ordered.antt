-- ===== src/Concurrency/Join/Group/Ordered.antt =====
-- In which order the task of a member of a join set of include/concurrency/join.hpp and the coroutine
-- that awaits it end.
use toad_jawbreaker.Prelude.{
  times, sym, some, if-elim, if◌then◌else◌, ◌==◌, Option, Bool-cases, ℕ, ◌≡◌, ◌≢◌, ◌⊎◌, inl, inr,
  refl, ap, ◌∙◌, Bool, true, false, arith,
}
use toad_jawbreaker.Concurrency.Notify.{Notify, exchange_head, link, same}
use toad_jawbreaker.Concurrency.Notify.Stack as Stack
use toad_jawbreaker.Concurrency.Notify.Links.{after_round-spawned}
use toad_jawbreaker.Concurrency.Notify.Stack.{
  World, after_round, set_stage, passed, suspends, pushes, linked, asks, loads, tries, fails, fires,
  drains,
}
use toad_jawbreaker.Concurrency.Join.Group.{Member, IsWoken}

-- Only the awaiter's own step makes it pass.
passed-before :
    (a : ℕ) (st : Stack.Stage) (stages : ℕ → Stack.Stage)
    → st ≢ passed
    → set_stage a st stages 0 ≡ passed
    → stages 0 ≡ passed
passed-before a st stages other e =
    if-elim (λ x. x ≡ passed → stages 0 ≡ passed) (0 == a) st (stages 0) (λ q e'. absurd (other e'))
      (λ q e'. e') e

after_round-passed :
    (a : ℕ) (r : Bool × Notify) (w : World)
    → (after_round a r w).stages 0 ≡ passed
    → w.stages 0 ≡ passed
after_round-passed a (true, n) w e = passed-before a linked w.stages (λ q. cc) e
after_round-passed a (false, n) w e = passed-before a (pushes n.head) w.stages (λ q. cc) e

after_round-fired :
    (a : ℕ) (r : Bool × Notify) (w : World) → (after_round a r w).notify.fired ≡ r.1.fired
after_round-fired a (true, n) w = refl
after_round-fired a (false, n) w = refl

exchange_head-fired :
    (a : ℕ) (old_head : Option ℕ) (n : Notify) → (exchange_head a old_head n).1.fired ≡ n.fired
unfolding exchange_head
exchange_head-fired a old_head n =
    if-elim (λ (x : Bool × Notify). x.1.fired ≡ n.fired) (same n.head old_head)
      (true, record n { next = link a old_head n.next; head = some a })
      (false, record n { next = link a old_head n.next }) (λ q. refl) λ q. refl

-- The coroutine passes or is spawned, and ends, only after the task has set its flag.
pub record Ordered (m : Member) : Type 0 where
  pub seen : m.task.stages 0 ≡ passed → m.task.notify.fired ≡ true
  pub told : times 0 m.task.spawned ≢ 0 → m.task.notify.fired ≡ true
  pub over : m.ended ≡ true → m.task.notify.fired ≡ true

-- Where the flag and who was spawned stay as they are.
keeps-Ordered :
    (m : Member) (w : World)
    → w.notify.fired ≡ m.task.notify.fired
    → w.spawned ≡ m.task.spawned
    → (w.stages 0 ≡ passed → m.task.stages 0 ≡ passed)
    → Ordered m
    → Ordered (record m { task = w })
keeps-Ordered m w f s p o = record {
  seen = λ e. f ∙ o.seen (p e);
  told = λ e. f ∙ o.told (λ q. e (ap (times 0) s ∙ q));
  over = λ e. f ∙ o.over e;
}

fired-Ordered : (m : Member) (w : World) → w.notify.fired ≡ true → Ordered (record m { task = w })
fired-Ordered m w f = record { seen = λ e. f; told = λ e. f; over = λ e. f }

asks-Ordered :
    (m : Member) (a : ℕ)
    → Ordered m
    → Ordered (record m {
      task = record m.task {
        stages = set_stage a (if m.task.notify.fired then passed else suspends) m.task.stages;
      };
    })
asks-Ordered m a o = record {
  seen = elim (Bool-cases m.task.notify.fired) [
    | inl fired ↦ λ e. fired
    | inr unset ↦ λ e. o.seen (
        passed-before a suspends m.task.stages (λ q. cc)
          (ap (λ b. set_stage a (if b then passed else suspends) m.task.stages 0) (sym unset) ∙ e))
  ];
  told = o.told;
  over = o.over;
}

pub notifies-Ordered :
    (m : Member) (w : World)
    → Stack.Step m.task w
    → (w.drained ≡ m.task.drained) ⊎ (m.task.notify.fired ≡ true)
    → Ordered m
    → Ordered (record m { task = w })
notifies-Ordered m w (asks a e) order o = asks-Ordered m a o
notifies-Ordered m w (loads a e) order o =
    keeps-Ordered m _ refl refl (passed-before a _ m.task.stages (λ q. cc)) o
notifies-Ordered m w (tries a old_head e) order o =
    let r = exchange_head a old_head m.task.notify in
    keeps-Ordered m _ (after_round-fired a r m.task ∙ exchange_head-fired a old_head m.task.notify)
      (after_round-spawned a r m.task) (after_round-passed a r m.task) o
notifies-Ordered m w (fails a old_head e) order o =
    keeps-Ordered m _ refl refl (passed-before a _ m.task.stages (λ q. cc)) o
notifies-Ordered m w fires order o = fired-Ordered m _ refl
notifies-Ordered m w (drains fuel l e) (inl kept) o = absurd (omega (arith, kept))
notifies-Ordered m w (drains fuel l e) (inr fired) o = fired-Ordered m _ fired

pub woken-fired : (m : Member) → IsWoken m → Ordered m → m.task.notify.fired ≡ true
woken-fired m (inl p) o = o.seen p
woken-fired m (inr s) o = o.told s
