-- ===== src/Concurrency/Notify.antt =====
-- include/concurrency/notify.hpp: a flag and a stack of awaiters without a lock. An awaiter is a
-- number: each `co_await` makes a new one. `next` has the links of all of them.
pub mod Stack
pub mod Links
pub mod Drained
pub mod Lost
pub mod Sweep
pub mod Spinning
use toad_jawbreaker.Prelude.{
  ℕ, zero, suc, Bool, true, false, if◌then◌else◌, List, [], ◌∷◌, Option, none, some, ◌==◌,
}

pub record Notify : Type 0 where
  pub head : Option ℕ
  pub fired : Bool
  pub next : ℕ → Option ℕ

abbrev pub new_notify : Notify
new_notify = record { head = none; fired = false; next = λ a. none }

-- `operator==` of pointers.
abbrev pub same : Option ℕ → Option ℕ → Bool
same none none = true
same (some a) (some b) = a == b
same none (some b) = false
same (some a) none = false

abbrev pub link : ℕ → Option ℕ → (ℕ → Option ℕ) → ℕ → Option ℕ
link a to next b = if b == a then to else next b

-- A round of the loop in `push_awaiter_`: the link is written, and the awaiter becomes the head if
-- the head is still the old one.
unfoldable pub exchange_head : ℕ → Option ℕ → Notify → Bool × Notify
exchange_head a old_head n =
    let n' = record n { next = link a old_head n.next } in
    if same n.head old_head then (true, record n' { head = some a }) else (false, n')

-- The first line of `notify_all`, and the exchange in its second.
abbrev pub fire : Notify → Notify
fire n = record n { fired = true }

abbrev pub take_head : Notify → Notify
take_head n = record n { head = none }

abbrev pub prepend : ℕ → Option (List ℕ) → Option (List ℕ)
prepend a none = none
prepend a (some l) = some (a ∷ l)

-- The loop of `notify_all`, with the awaiters whose coroutines it spawns. `none`: the fuel ran out.
unfoldable pub notify_loop : ℕ → (ℕ → Option ℕ) → Option ℕ → Option (List ℕ)
notify_loop zero next current = none
notify_loop (suc fuel) next none = some []
notify_loop (suc fuel) next (some a) = prepend a (notify_loop fuel next (next a))
