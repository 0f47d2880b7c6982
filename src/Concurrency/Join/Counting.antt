-- ===== src/Concurrency/Join/Counting.antt =====
-- What the counter of include/concurrency/join.hpp counts.
use toad_jawbreaker.Prelude.{
  eq→≡, ℕ, zero, suc, ◌⊎◌, inl, inr, ◌∙◌, ◌+◌, ◌-◌, ◌^◌, ◌≡◌, ◌<◌, ◌≤◌, ◌==◌, Bool, true, false,
  not, if◌then◌else◌, if-elim, returns, aborts, assert, refl, arith, returns-injective,
  >>=-eq-returns, sym, ap,
}
use toad_jawbreaker.Prelude.Bits.{u32}
use mathlib.Core.Path.{subst}
use toad_jawbreaker.Concurrency.Join.{
  JoinSet, join_spawn, join_subtract, join_notify, destroy_join_set, Reachable, starts, spawns,
  subtracts, notifies,
}

-- What holds in any case.
pub record Counted (j : JoinSet) : Type 0 where
  pub in_order : j.ended ≤ j.spawned
  pub counter : j.awaiting ≡ j.spawned - j.ended
  pub once_done : 0 < j.spawned → j.ended ≡ j.spawned → (j.fired ≡ true) ⊎ (0 < j.notifying)

-- What holds if no spawn came between a coroutine's `fetch_sub` and the flag.
pub record Unraced (j : JoinSet) : Type 0 where
  pub is_set : j.fired ≡ true → (0 < j.spawned) × (j.ended ≡ j.spawned) × (j.notifying ≡ 0)
  pub sets : 0 < j.notifying → (0 < j.spawned) × (j.ended ≡ j.spawned) × (j.notifying ≡ 1)

assert-true : (b : Bool) (u : Unit {0}) → assert b ≡ returns u → b ≡ true
assert-true true u e = refl
assert-true false u e = cc

not-true : (b : Bool) → not b ≡ true → b ≡ false
not-true true e = cc
not-true false e = refl

false-true : (b : Bool) → b ≡ false → ¬ (b ≡ true)
false-true b h k = cc

≡→eq : (a b : ℕ) → a ≡ b → (a == b) ≡ true
≡→eq a b h = ground arith

positive→eq_false : (a : ℕ) → 0 < a → (a == 0) ≡ false
positive→eq_false a h = ground arith

positive-or-zero : (n : ℕ) → (n ≡ 0) ⊎ (0 < n)
positive-or-zero zero = inl refl
positive-or-zero (suc n) = inr (omega arith)

-- A spawn that returns has found the flag unset.
abbrev pub spawned_in : JoinSet → JoinSet
spawned_in j = record j {
  awaiting = u32 (j.awaiting + 1);
  spawned = j.spawned + 1;
  is_raced = if j.notifying == 0 then j.is_raced else true;
}

pub join_spawn-eq :
    (j j' : JoinSet) → join_spawn j ≡ returns j' → (j.fired ≡ false) × (spawned_in j ≡ j')
unfolding join_spawn
join_spawn-eq j j' e =
    let (u, tested, rest) = >>=-eq-returns (assert (not j.fired)) (λ u. returns (spawned_in j)) e in
    (not-true j.fired (assert-true (not j.fired) u tested), returns-injective refl rest)

spawn-Counted : (j : JoinSet) → Counted j → j.spawned + 1 < 2 ^ 32 → Counted (spawned_in j)
spawn-Counted j c small = record {
  in_order = omega (arith, c.in_order);
  counter = omega (arith, c.in_order, c.counter);
  once_done = λ p q. absurd (omega (arith, c.in_order, q));
}

subtract-Counted :
    (j : JoinSet) → Counted j → j.spawned < 2 ^ 32 → j.ended < j.spawned → Counted (join_subtract j)
unfolding join_subtract
subtract-Counted j c small left = record {
  in_order = omega arith;
  counter = omega (arith, c.counter);
  once_done = λ p q. inr (
      subst (λ n. 0 < n)
        (sym (
          ap (λ b. if b then j.notifying + 1 else j.notifying)
            (≡→eq j.awaiting 1 (omega (arith, c.counter, q)))))
        (omega arith));
}

notify-Counted : (j : JoinSet) → Counted j → Counted (join_notify j)
unfolding join_notify
notify-Counted j c = record {
  in_order = c.in_order;
  counter = c.counter;
  once_done = λ p q. inl refl;
}

pub Reachable-Counted : {j : JoinSet} → Reachable j → j.spawned < 2 ^ 32 → Counted j
unfolding join_subtract join_notify
Reachable-Counted starts small = record {
  in_order = omega arith;
  counter = omega arith;
  once_done = λ p q. absurd (omega arith);
}
Reachable-Counted (spawns {j} j' r e) small =
    let (unset, next) = join_spawn-eq j j' e in
    let before : j.spawned + 1 < 2 ^ 32 = subst (λ k. k.spawned < 2 ^ 32) (sym next) small in
    subst Counted next (spawn-Counted j (Reachable-Counted r (omega arith)) before)
Reachable-Counted (subtracts {j} r left) small =
    subtract-Counted j (Reachable-Counted r small) small left
Reachable-Counted (notifies {j} r some_left) small = notify-Counted j (Reachable-Counted r small)

unraced_before : (n : ℕ) (b : Bool) → (if n == 0 then b else true) ≡ false → (n ≡ 0) × (b ≡ false)
unraced_before n b =
    if-elim (λ x. x ≡ false → (n ≡ 0) × (b ≡ false)) (n == 0) b true (λ e h. (eq→≡ n 0 e, h))
      (λ e h. absurd (false-true true h refl))

spawn-Unraced : (j : JoinSet) → j.fired ≡ false → j.notifying ≡ 0 → Unraced (spawned_in j)
spawn-Unraced j unset n = record {
  is_set = λ h. absurd (false-true j.fired unset h);
  sets = λ h. absurd (omega (arith, h, n));
}

-- A coroutine that is not counted out yet has found the flag unset, with nobody about to set it.
subtract-Unraced :
    (j : JoinSet)
    → Counted j
    → Unraced j
    → j.spawned < 2 ^ 32
    → j.ended < j.spawned
    → Unraced (join_subtract j)
unfolding join_subtract
subtract-Unraced j c u small left = record {
  is_set = λ h. absurd (omega (arith, (u.is_set h).1, left));
  sets =
      if-elim (λ n. 0 < n → (0 < j.spawned) × (j.ended + 1 ≡ j.spawned) × (n ≡ 1)) (j.awaiting == 1)
        (j.notifying + 1) j.notifying
        (λ e h. (omega arith, omega (arith, c.counter, eq→≡ j.awaiting 1 e), omega (arith, nobody)))
        (λ e h. absurd (omega (arith, nobody, h)));
}
  where
    nobody : j.notifying ≡ 0
    nobody = elim (positive-or-zero j.notifying) [
      | inl z ↦ z
      | inr p ↦ absurd (omega (arith, (u.sets p).1, left))
    ]

notify-Unraced : (j : JoinSet) → Unraced j → 0 < j.notifying → Unraced (join_notify j)
unfolding join_notify
notify-Unraced j u p =
    let (more, over, one) = u.sets p in
    record {
      is_set = λ h. (more, over, omega (arith, one));
      sets = λ h. absurd (omega (arith, one, h));
    }

pub Reachable-Unraced :
    {j : JoinSet} → Reachable j → j.spawned < 2 ^ 32 → j.is_raced ≡ false → Unraced j
unfolding join_subtract join_notify
Reachable-Unraced starts small u = record { is_set = λ h. cc; sets = λ h. absurd (omega arith) }
Reachable-Unraced (spawns {j} j' r e) small u =
    let (unset, next) = join_spawn-eq j j' e in
    let (nobody, before) = unraced_before j.notifying j.is_raced (ap (λ k. k.is_raced) next ∙ u) in
    subst Unraced next (spawn-Unraced j unset nobody)
Reachable-Unraced (subtracts {j} r left) small u =
    subtract-Unraced j (Reachable-Counted r small) (Reachable-Unraced r small u) small left
Reachable-Unraced (notifies {j} r p) small u = notify-Unraced j (Reachable-Unraced r small u) p

-- A spawn between the `fetch_sub` that brings the counter to zero and the flag finds the flag unset: a
-- state can follow in which the set counts as joined, a further spawn aborts, and so does the destructor, as
-- the new coroutine is still awaited.
pub notified_early :
    (j : JoinSet)
    → Reachable j
    → j.spawned + 1 < 2 ^ 32
    → j.fired ≡ false
    → 0 < j.notifying
    → (j' : JoinSet) × Reachable j'
      × (j'.fired ≡ true)
      × (join_spawn j' ≡ aborts)
      × (destroy_join_set j' ≡ aborts)
unfolding join_spawn join_notify destroy_join_set
notified_early j r small unset some_left =
    let c = Reachable-Counted r (omega (arith, small)) in
    let r1 = spawns (spawned_in j) r (rw (join_spawn, unset) refl) in
    let c1 = Reachable-Counted r1 small in
    (
      join_notify (spawned_in j),
      notifies r1 some_left,
      refl,
      refl,
      ap assert (positive→eq_false (u32 (j.awaiting + 1)) (omega (arith, c.in_order, c1.counter))),
    )
