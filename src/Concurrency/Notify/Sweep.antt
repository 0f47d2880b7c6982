-- ===== src/Concurrency/Notify/Sweep.antt =====
-- `notify_all` of include/concurrency/notify.hpp statement by statement, against awaiters that push
-- themselves and against coroutines that resume and end the awaiters in their frames.
pub mod Refined
pub mod Accounted
pub mod Skipped
use toad_jawbreaker.Prelude.{
  store, ℕ, ◌+◌, ◌≡◌, Bool, true, false, List, [], ◌∷◌, ◌++◌, Option, none, some,
}
use toad_jawbreaker.Concurrency.Notify.{take_head}
use toad_jawbreaker.Concurrency.Notify.Stack.{
  World, start, Step, asks, loads, tries, fails, fires, drains,
}

-- Where `notify_all` is: not in its loop, at the test of the loop with its `current`, or behind the
-- spawn of the coroutine of an awaiter, whose link it reads next.
pub data Place : Type 0 where
  outside : Place
  tests : Option ℕ → Place
  links : ℕ → Place

-- `batch` records the awaiters that the loop is done with, in their order, and `ended` says of which
-- the coroutine has gone on and the memory was given back. `world` records the loops before.
pub record Sweep : Type 0 where
  pub world : World
  pub place : Place
  pub batch : List ℕ
  pub ended : ℕ → Bool

abbrev pub at_start : Sweep
at_start = record { world = start; place = outside; batch = []; ended = λ a. false }

abbrev pub at_hand : Place → List ℕ
at_hand outside = []
at_hand (tests current) = []
at_hand (links a) = a ∷ []

-- The awaiters whose coroutines were spawned.
abbrev pub woken : Sweep → List ℕ
woken s = s.batch ++ (at_hand s.place ++ s.world.spawned)

-- The steps of the awaiters, and the store of the flag.
abbrev pub IsElsewhere : {w w' : World} → Step w w' → Type 0
IsElsewhere (asks a s) = Unit
IsElsewhere (loads a s) = Unit
IsElsewhere (tries a old_head s) = Unit
IsElsewhere (fails a old_head s) = Unit
IsElsewhere fires = Unit
IsElsewhere (drains fuel l e) = ⊥

pub data SweepStep : Sweep → Sweep → Type 0 where
  acts :
      {s : Sweep} {w : World} (st : Step s.world w)
      → IsElsewhere st
      → SweepStep s (record s { world = w })
  -- The exchange.
  takes :
      {s : Sweep}
      → s.place ≡ outside
      → SweepStep s (record s {
        world = record s.world { notify = take_head s.world.notify; drained = s.world.drained + 1 };
        place = tests s.world.notify.head;
      })
  spawns :
      {s : Sweep} (a : ℕ) → s.place ≡ tests (some a) → SweepStep s (record s { place = links a })
  reads :
      {s : Sweep} (a : ℕ)
      → s.place ≡ links a
      → s.ended a ≡ false
      → SweepStep s
          (record s { place = tests (s.world.notify.next a); batch = s.batch ++ (a ∷ []) })
  -- The memory of the awaiter was given back: the link may be anything.
  reads_freed :
      {s : Sweep} (a : ℕ) (to : Option ℕ)
      → s.place ≡ links a
      → s.ended a ≡ true
      → SweepStep s (record s { place = tests to; batch = s.batch ++ (a ∷ []) })
  leaves :
      {s : Sweep}
      → s.place ≡ tests none
      → SweepStep s (record s {
        world = record s.world { spawned = s.batch ++ s.world.spawned };
        place = outside;
        batch = [];
      })
  -- A coroutine that was spawned goes on and ends its awaiter.
  ends_awaiter :
      {s : Sweep} (front : List ℕ) (a : ℕ) (back : List ℕ)
      → woken s ≡ front ++ (a ∷ back)
      → SweepStep s (record s { ended = store a true s.ended })

pub data Swept : Sweep → Type 0 where
  starts : Swept at_start
  goes_on : {s s' : Sweep} → Swept s → SweepStep s s' → Swept s'

-- No link is read from an awaiter that has ended.
abbrev pub IsCarefulStep : {s s' : Sweep} → SweepStep s s' → Type 0
IsCarefulStep (acts st e) = Unit
IsCarefulStep (takes p) = Unit
IsCarefulStep (spawns a p) = Unit
IsCarefulStep (reads a p e) = Unit
IsCarefulStep (reads_freed a to p e) = ⊥
IsCarefulStep (leaves p) = Unit
IsCarefulStep (ends_awaiter front a back w) = Unit

abbrev pub IsCareful : {s : Sweep} → Swept s → Type 0
IsCareful starts = Unit
IsCareful (goes_on r st) = IsCareful r × IsCarefulStep st
