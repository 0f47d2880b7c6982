-- ===== src/Concurrency/Notify/Stack.antt =====
-- include/concurrency/notify.hpp as a step relation: awaiters that push themselves, statement by statement,
-- against each other and against the stores of `notify_all`. Its exchange with its loop is one step here,
-- as if nothing came in between: that is what the loop is measured by in Notify/Sweep, which has it
-- statement by statement.
use toad_jawbreaker.Prelude.{
  ℕ, ◌+◌, ◌≡◌, Bool, true, false, List, [], ◌∷◌, ◌++◌, ◌==◌, if◌then◌else◌, Option, none, some,
}
use toad_jawbreaker.Concurrency.Notify.{
  Notify, new_notify, link, exchange_head, fire, take_head, notify_loop,
}

-- Where an awaiter is: not yet asked, past `await_ready` with the answer yes or no, in the loop of
-- `push_awaiter_` with the head that it loaded, or in the stack.
pub data Stage : Type 0 where
  fresh : Stage
  passed : Stage
  suspends : Stage
  pushes : Option ℕ → Stage
  linked : Stage

abbrev pub set_stage : ℕ → Stage → (ℕ → Stage) → ℕ → Stage
set_stage a st stages b = if b == a then st else stages b

-- `pushed` and `spawned` record the awaiters that entered the stack and those whose coroutines were
-- spawned, the last one first, and `drained` how often `notify_all` has emptied the stack.
pub record World : Type 0 where
  pub notify : Notify
  pub stages : ℕ → Stage
  pub pushed : List ℕ
  pub spawned : List ℕ
  pub drained : ℕ

abbrev pub start : World
start = record { notify = new_notify; stages = λ a. fresh; pushed = []; spawned = []; drained = 0 }

-- What a round of the loop leaves: the awaiter is in the stack or loads the head again.
abbrev pub after_round : ℕ → Bool × Notify → World → World
after_round a (true, n) w = record w {
  notify = n;
  stages = set_stage a linked w.stages;
  pushed = a ∷ w.pushed;
}
after_round a (false, n) w = record w { notify = n; stages = set_stage a (pushes n.head) w.stages }

pub data Step : World → World → Type 0 where
  asks :
      {w : World} (a : ℕ)
      → w.stages a ≡ fresh
      → Step w
          (record w { stages = set_stage a (if w.notify.fired then passed else suspends) w.stages })
  loads :
      {w : World} (a : ℕ)
      → w.stages a ≡ suspends
      → Step w (record w { stages = set_stage a (pushes w.notify.head) w.stages })
  tries :
      {w : World} (a : ℕ) (old_head : Option ℕ)
      → w.stages a ≡ pushes old_head
      → Step w (after_round a (exchange_head a old_head w.notify) w)
  -- The exchange is weak: it may fail although the head is the old one.
  fails :
      {w : World} (a : ℕ) (old_head : Option ℕ)
      → w.stages a ≡ pushes old_head
      → Step w (after_round a (false, record w.notify { next = link a old_head w.notify.next }) w)
  fires : {w : World} → Step w (record w { notify = fire w.notify })
  -- The exchange of `notify_all` and its whole loop, uninterrupted.
  drains :
      {w : World} (fuel : ℕ) (l : List ℕ)
      → notify_loop fuel w.notify.next w.notify.head ≡ some l
      → Step w (record w {
        notify = take_head w.notify;
        spawned = l ++ w.spawned;
        drained = w.drained + 1;
      })

pub data Reachable : World → Type 0 where
  starts : Reachable start
  goes_on : {w w' : World} → Reachable w → Step w w' → Reachable w'

-- The links from a pointer on lead through these awaiters to the null pointer.
pub data Chain (next : ℕ → Option ℕ) : Option ℕ → List ℕ → Type 0 where
  ends : Chain next none []
  leads : {l : List ℕ} (a : ℕ) → Chain next (next a) l → Chain next (some a) (a ∷ l)
