-- ===== src/Concurrency/Notify/Spinning.antt =====
-- `wait_blocking` of include/concurrency/notify.hpp: a loop on the flag.
use toad_jawbreaker.Prelude.{
  ℕ, zero, suc, ◌+◌, ◌≤◌, ◌≡◌, refl, Bool, true, if◌then◌else◌, Option, none, some, Bool-cases, inl,
  inr, arith,
}
use mathlib.Core.Path.{subst}
use toad_jawbreaker.Concurrency.Notify.Stack.{
  World, after_round, Step, asks, loads, tries, fails, fires, drains,
}
use toad_jawbreaker.Concurrency.Notify.Links.{exchange_head-elim}

-- `flags` has what the loads find from now on, and the result is the first load that finds the flag set.
-- `none`: the fuel ran out.
unfoldable pub wait_blocking : ℕ → (ℕ → Bool) → ℕ → Option ℕ
wait_blocking zero flags i = none
wait_blocking (suc fuel) flags i =
    let rest = wait_blocking fuel flags (suc i) in if flags i then some i else rest

-- The states in which the loads fall, in their order: between two of them others take steps.
pub data Steps : World → World → Type 0 where
  stays : {w : World} → Steps w w
  and_then : {w w' w'' : World} → Steps w w' → Step w' w'' → Steps w w''

step-fired : {w w' : World} → Step w w' → w.notify.fired ≡ true → w'.notify.fired ≡ true
step-fired (asks a s) h = h
step-fired (loads a s) h = h
step-fired (tries {w} a to s) h =
    exchange_head-elim (λ r. (after_round a r w).notify.fired ≡ true) a to w.notify (λ _. h) h
step-fired (fails a to s) h = h
step-fired fires h = refl
step-fired (drains fuel l e) h = h

Steps-fired : {w w' : World} → Steps w w' → w.notify.fired ≡ true → w'.notify.fired ≡ true
Steps-fired stays h = h
Steps-fired (and_then r s) h = step-fired s (Steps-fired r h)

-- The flag is never unset: a load after one that found it set finds it set.
fired_stays :
    (run : ℕ → World)
    → ((i : ℕ) → Steps (run i) (run (suc i)))
    → (i k : ℕ) → (run i).notify.fired ≡ true
    → (run (i + k)).notify.fired ≡ true
fired_stays run steps i zero h = subst (λ n. (run n).notify.fired ≡ true) {x = i} (omega arith) h
fired_stays run steps i (suc k) h =
    subst (λ n. (run n).notify.fired ≡ true) {x = suc (i + k)} (omega arith)
      (Steps-fired (steps (i + k)) (fired_stays run steps i k h))

returns_by :
    (flags : ℕ → Bool) (k i : ℕ)
    → flags (i + k) ≡ true
    → (m : ℕ) × (wait_blocking (suc k) flags i ≡ some m) × (m ≤ i + k) × (flags m ≡ true)
unfolding wait_blocking
returns_by flags zero i h =
    let h' : flags i ≡ true = subst (λ n. flags n ≡ true) {x = i + 0} (omega arith) h in
    (i, rw h' refl, omega arith, h')
returns_by flags (suc k) i h = elim (Bool-cases (flags i)) [
  | inl e ↦ (i, rw e refl, omega arith, e)
  | inr e ↦
      let (m, result, bound, found) =
        returns_by flags k (suc i) (subst (λ n. flags n ≡ true) {x = i + suc k} (omega arith) h) in
      (m, rw e result, omega (arith, bound), found)
]

-- Whatever awaiters and notifications do between its loads, `wait_blocking` returns with the flag set,
-- at the first load behind the store of `notify_all` at the latest, and the flag is set for good.
pub wait_blocking_returns :
    (run : ℕ → World)
    → ((i : ℕ) → Steps (run i) (run (suc i)))
    → (k : ℕ) → (run k).notify.fired ≡ true
    → (m : ℕ) × (wait_blocking (suc k) (λ i. (run i).notify.fired) 0 ≡ some m)
      × (m ≤ k)
      × ((j : ℕ) → (run (m + j)).notify.fired ≡ true)
wait_blocking_returns run steps k h =
    let (m, result, bound, found) =
      returns_by (λ i. (run i).notify.fired) k 0
        (subst (λ n. (run n).notify.fired ≡ true) {x = k} (omega arith) h) in
    (m, result, omega (arith, bound), λ j. fired_stays run steps m j found)
