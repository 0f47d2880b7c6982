-- ===== src/Concurrency/Join/Blocking.antt =====
-- `wait_blocking` of include/concurrency/join.hpp against the ends of the coroutines: the wait is on a
-- condition variable, but what a coroutine does at its end is not under the mutex of the wait.
use toad_jawbreaker.Prelude.{
  ℕ, zero, suc, ◌∙◌, ◌+◌, ◌-◌, ◌^◌, ◌≡◌, ◌<◌, refl, ap, Bool, true, false, ◌==◌, if◌then◌else◌,
  arith,
}
use mathlib.Core.Path.{subst}
use toad_jawbreaker.Prelude.Bits.{u32}
use toad_jawbreaker.Concurrency.Join.{
  JoinSet, join_subtract, join_notify, nothing_awaited, Reachable,
}
use toad_jawbreaker.Concurrency.Join.Counting.{Reachable-Counted}

-- The thread in `wait_blocking` evaluates the predicate next, has found it false, is blocked in the
-- wait, or has returned.
pub data Waiter : Type 0 where
  evaluates : Waiter
  unsatisfied : Waiter
  blocked : Waiter
  returned : Waiter

-- `signals`: a coroutine that has set the flag is in front of its `cv_.notify_one()`.
pub record Blocking : Type 0 where
  pub join : JoinSet
  pub waiter : Waiter
  pub signals : Bool

abbrev pub at_start : JoinSet → Blocking
at_start j = record { join = j; waiter = evaluates; signals = false }

abbrev woken : Waiter → Waiter
woken evaluates = evaluates
woken unsatisfied = unsatisfied
woken blocked = evaluates
woken returned = returned

pub data BlockingStep : Blocking → Blocking → Type 0 where
  checks :
      {b : Blocking}
      → b.waiter ≡ evaluates
      → BlockingStep b
          (record b { waiter = if nothing_awaited b.join then returned else unsatisfied })
  blocks : {b : Blocking} → b.waiter ≡ unsatisfied → BlockingStep b (record b { waiter = blocked })
  subtracts :
      {b : Blocking}
      → b.join.ended < b.join.spawned
      → BlockingStep b (record b { join = join_subtract b.join })
  sets_flag :
      {b : Blocking}
      → 0 < b.join.notifying
      → BlockingStep b (record b { join = join_notify b.join; signals = true })
  signals :
      {b : Blocking}
      → b.signals ≡ true
      → BlockingStep b (record b { waiter = woken b.waiter; signals = false })
  -- A wait may be woken without a signal, but need not be.
  spuriously :
      {b : Blocking} → b.waiter ≡ blocked → BlockingStep b (record b { waiter = evaluates })

pub data Later (b : Blocking) : Blocking → Type 0 where
  now : Later b b
  and_then : {b' b'' : Blocking} → Later b b' → BlockingStep b' b'' → Later b b''

abbrev pub IsSpurious : {b b' : Blocking} → BlockingStep b b' → Type 0
IsSpurious (checks w) = ⊥
IsSpurious (blocks w) = ⊥
IsSpurious (subtracts l) = ⊥
IsSpurious (sets_flag l) = ⊥
IsSpurious (signals s) = ⊥
IsSpurious (spuriously w) = Unit

no_more :
    (b b' : Blocking) (st : BlockingStep b b')
    → b.waiter ≡ blocked
    → b.signals ≡ false
    → ¬ (b.join.ended < b.join.spawned)
    → b.join.notifying ≡ 0
    → IsSpurious st
no_more b _ (checks w) h s n k = cc
no_more b _ (blocks w) h s n k = cc
no_more b _ (subtracts l) h s n k = absurd (n l)
no_more b _ (sets_flag l) h s n k = absurd (omega (arith, l, k))
no_more b _ (signals e) h s n k = cc
no_more b _ (spuriously w) h s n k = tt

-- The coroutines set the flag and signal while the thread does not wait.
record Drained (b c : Blocking) : Type 0 where
  later : Later b c
  waiter : c.waiter ≡ unsatisfied
  silent : c.signals ≡ false
  nobody : c.join.notifying ≡ 0
  same :
      (c.join.awaiting ≡ b.join.awaiting)
      × (c.join.ended ≡ b.join.ended)
      × (c.join.spawned ≡ b.join.spawned)

Later-trans : {b c d : Blocking} → Later b c → Later c d → Later b d
Later-trans l now = l
Later-trans l (and_then m s) = and_then (Later-trans l m) s

drained :
    (n : ℕ) (b : Blocking)
    → b.join.notifying ≡ n
    → b.waiter ≡ unsatisfied
    → b.signals ≡ false
    → (c : Blocking) × Drained b c
unfolding join_notify
drained zero b e w s =
    (b, record { later = now; waiter = w; silent = s; nobody = e; same = (refl, refl, refl) })
drained (suc n) b e w s =
    let l1 = and_then now (sets_flag {b = b} (omega (arith, e))) in
    let l2 = and_then l1 (signals refl) in
    let (c, d) =
      drained n (record b { join = join_notify b.join; waiter = woken b.waiter; signals = false })
        (omega (arith, e)) (ap woken w ∙ refl) refl in
    (
      c,
      record {
        later = Later-trans l2 d.later;
        waiter = d.waiter;
        silent = d.silent;
        nobody = d.nobody;
        same = d.same;
      },
    )

-- The thread has found the condition false, and the last coroutine counts itself out.
abbrev missing : JoinSet → Blocking
missing j = record { join = join_subtract j; waiter = unsatisfied; signals = false }

missing_after :
    (j : JoinSet) → j.awaiting ≡ 1 → j.ended < j.spawned → Later (at_start j) (missing j)
unfolding nothing_awaited
missing_after j one left =
    let more : (j.awaiting == 0) ≡ false = ap (λ n. n == 0) one in
    let s1 =
      subst (λ w. Later (at_start j) (record { join = j; waiter = w; signals = false }))
        (ap (λ b. if b then returned else unsatisfied) more) (and_then now (checks refl)) in
    and_then s1 (subtracts left)

-- If all but one of the coroutines of a set have counted themselves out, fewer than 2 ^ 32, the last one
-- may do so, set the flag and signal after the thread in `wait_blocking` has evaluated its condition and
-- before it is blocked: nothing is awaited then, the thread is blocked, and only a wake-up without a
-- signal can follow.
pub wait_blocking_stranded :
    (j : JoinSet)
    → Reachable j
    → j.spawned < 2 ^ 32
    → j.ended + 1 ≡ j.spawned
    → (b : Blocking) × Later (at_start j) b
      × (nothing_awaited b.join ≡ true)
      × (b.waiter ≡ blocked)
      × ((b' : Blocking) (st : BlockingStep b b') → IsSpurious st)
unfolding nothing_awaited join_subtract
wait_blocking_stranded j r small left =
    let c = Reachable-Counted r small in
    let one : j.awaiting ≡ 1 = omega (arith, c.counter, left) in
    let (b, d) = drained (join_subtract j).notifying (missing j) refl refl refl in
    let (awaiting, ended, spawned) = d.same in
    (
      record b { waiter = blocked },
      and_then (Later-trans (missing_after j one (omega (arith, left))) d.later) (blocks d.waiter),
      ap (λ n. n == 0) awaiting ∙ ap (λ n. u32 (n + 2 ^ 32 - 1) == 0) one,
      refl,
      λ b' st.
          no_more (record b { waiter = blocked }) b' st refl d.silent
            (λ l. omega (arith, l, left, ended, spawned)) d.nobody,
    )
