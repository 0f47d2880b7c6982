-- ===== src/Concurrency/Executor/Suspend.antt =====
-- `suspend` of include/concurrency/executor.hpp: a coroutine that comes back through the queue.
use toad_jawbreaker.Prelude.{
  arith, ℕ, suc, ◌≡◌, refl, Bool, true, false, if◌then◌else◌, if-elim, ◌==◌, [], ◌∷◌, ◌++◌,
}
use toad_jawbreaker.Prelude.Int.{ℤ, pos, negsuc, equals}
use toad_jawbreaker.Concurrency.Executor.{Executor, set_parent_corr_id, spawn}

pub record SuspendAwaitable : Type 0 where
  pub times : ℤ

abbrev pub suspend : ℤ → SuspendAwaitable
suspend times = record { times = times }

abbrev decrement : ℤ → ℤ
decrement (pos ℕ.zero) = negsuc 0
decrement (pos (suc n)) = pos n
decrement (negsuc n) = negsuc (suc n)

unfoldable pub await_ready : SuspendAwaitable → Bool
await_ready a = equals a.times (pos 0)

-- By coroutine c on a thread with the given correlation id.
unfoldable pub await_suspend : ℕ → ℕ → SuspendAwaitable → Executor → SuspendAwaitable × Executor
await_suspend correlation_id c a e =
    (record { times = decrement a.times }, spawn correlation_id c e)

-- `co_await suspend(times)`: whether the coroutine is suspended, and the awaitable and the executor then.
abbrev pub co_await : ℕ → ℕ → SuspendAwaitable → Executor → Bool × SuspendAwaitable × Executor
co_await correlation_id c a e =
    let (a', e') = await_suspend correlation_id c a e in
    if await_ready a then (false, a, e) else (true, a', e')

-- A coroutine that suspends n + 1 times is put into the queue once, and the other n times are left over.
pub suspends_once :
    (correlation_id c n : ℕ) (e : Executor)
    → (e.promises c).done ≡ false
    → let (suspended, a, e') = co_await correlation_id c (suspend (pos (suc n))) e in
      (suspended ≡ true) × (a.times ≡ pos n) × (e'.queue ≡ e.queue ++ (c ∷ []))
unfolding await_ready await_suspend spawn
suspends_once correlation_id c n e running =
    let kept : ((set_parent_corr_id c correlation_id e).promises c).done ≡ false =
      if-elim (λ p. p.done ≡ false) (c == c)
        (record (e.promises c) { parent_corr_id = correlation_id }) (e.promises c) (λ _. running)
        λ _. running in
    let more : (suc n == 0) ≡ false = ground arith in
    (rw more refl, rw more refl, rw (more, kept) refl)
