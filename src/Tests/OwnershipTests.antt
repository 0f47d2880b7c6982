-- ===== src/Tests/OwnershipTests.antt =====
-- Futures and join sets of include/concurrency in concrete histories.
use toad_jawbreaker.Prelude.{
  inl, ℕ, ◌≡◌, refl, true, false, [], ◌∷◌, Option, none, some, aborts, store, arith,
}
use toad_jawbreaker.Net.Ownership.Conserved.{times_held}
use toad_jawbreaker.Concurrency.Future.{
  FutureState, new_state, set_value, await_suspend, await_resume, destroy,
}
use toad_jawbreaker.Concurrency.Future.Handles.{
  Futures, no_futures, makes, copies_handle, suspends, sets, resumes, ends, Reachable, starts,
  goes_on,
}
use toad_jawbreaker.Concurrency.Future.Handles.Owned.{there, state_owned}
use toad_jawbreaker.Concurrency.Notify.Stack as Stack
use toad_jawbreaker.Concurrency.Notify.Stack.{fresh, set_stage, asks}
use toad_jawbreaker.Concurrency.Join.{join_spawn, destroy_join_set}
use toad_jawbreaker.Concurrency.Join.Nursery as Nursery
use toad_jawbreaker.Concurrency.Join.Nursery.{Nursery, Later}
use toad_jawbreaker.Concurrency.Join.Nursery.Missed.{one_awaited, join_missed}

-- A future is awaited by coroutine 4, completed through a copy of its handle, resumed and ended.
abbrev awaited : FutureState ℕ
awaited = record new_state { continuation = some 4 }

abbrev completed : FutureState ℕ
completed = record { value = some 9; is_ready = true; continuation = some 4 }

-- The states that stood at number 0, the last one first.
abbrev states : ℕ → Option (FutureState ℕ)
states = store 0 none (
    store 0 (some (record completed { value = none }))
      (store 0 (some completed) (store 0 (some awaited) (store 0 (some new_state) λ a. none))))

abbrev finished : Futures ℕ
finished = record {
  futures = none ∷ [];
  handles = some 0 ∷ some 0 ∷ [];
  states = states;
  next = 1;
  spawned = 4 ∷ [];
}

finished-Reachable : Reachable finished
unfolding set_value await_suspend await_resume destroy
finished-Reachable =
    let r0 : Reachable {T = ℕ} no_futures = starts in
    let r1 = goes_on makes r0 tt refl in
    let r2 = goes_on (copies_handle 0) r1 tt refl in
    let r3 = goes_on (suspends 0 4) r2 (omega arith) refl in
    let r4 = goes_on (sets 1 9) r3 tt refl in
    let r5 = goes_on (resumes 0) r4 (omega arith) refl in goes_on (ends 0) r5 (omega arith) refl

state_owned_example : times_held 0 finished.futures ≡ there (finished.states 0)
state_owned_example = state_owned finished-Reachable 0

-- The coroutine of a set has found the flag of its task unset.
abbrev asked : Nursery
asked = record {
  join = one_awaited;
  task = record Stack.start { stages = set_stage 0 Stack.suspends (λ b. fresh) };
  ended = false;
}

asked-Reachable : Nursery.Reachable asked
unfolding join_spawn
asked-Reachable =
    let r0 : Nursery.Reachable (record { join = one_awaited; task = Stack.start; ended = false }) =
      Nursery.starts one_awaited refl in
    Nursery.goes_on r0 (Nursery.notifies _ (asks 0 refl) (omega arith) (inl refl))

join_missed_example :
    (n' : Nursery) × Later asked n'
    × (n'.task.notify.fired ≡ true)
    × (n'.task.drained ≡ 1)
    × ((n'' : Nursery)
        → Later n' n''
        → (n''.join.fired ≡ false) × (destroy_join_set n''.join ≡ aborts))
join_missed_example = join_missed asked asked-Reachable refl refl refl refl refl
