-- ===== src/Tests/RaceTests.antt =====
-- The completion of a future of include/concurrency/future.hpp, statement by statement, and the end of a
-- coroutine, on concrete inputs.
use toad_jawbreaker.Prelude.{
  ℕ, suc, ◌+◌, store, ◌≡◌, refl, true, false, List, [], ◌∷◌, ◌++◌, map, Option, none, some, returns,
  aborts, All, length,
}
use toad_jawbreaker.Concurrency.Future.{await_ready, await_suspend}
use toad_jawbreaker.Concurrency.Future.History as History
use toad_jawbreaker.Concurrency.Future.Racing.{
  Race, at_start, marked, fresh, asked, suspended, Raced, starts, goes_on, asks, suspends, locks,
  marks,
}
use toad_jawbreaker.Concurrency.Future.Racing.Refined.{completed, race-refines}
use toad_jawbreaker.Concurrency.Notify.{exchange_head, fire, take_head, link}
use toad_jawbreaker.Concurrency.Notify.Stack as Stack
use toad_jawbreaker.Concurrency.Notify.Stack.{World, set_stage}
use toad_jawbreaker.Concurrency.Notify.Drained.{Unique}
use toad_jawbreaker.Concurrency.Executor.{
  Promise, Executor, new_executor, idle, resumes, spawn, turn, begin_task, update,
}
use toad_jawbreaker.Concurrency.Executor.Steps as Steps
use toad_jawbreaker.Concurrency.Task.Promise.{
  Meanwhile, leave, suspends as at_await, co_returns, throws,
}
use toad_jawbreaker.Concurrency.Task.Promise.Leaving.{leave_lem, ended}

-- Coroutine 4 is suspended, and the value 9 is on its way: the flag is set.
abbrev flagged : Race ℕ
flagged = record at_start {
  future = record { value = none; is_ready = true; continuation = some 4 };
  completer = marked 4;
  awaiters = store 4 suspended (store 4 asked λ c. fresh);
}

flagged-Raced : Raced 9 flagged
unfolding await_ready await_suspend
flagged-Raced =
    let r1 = goes_on starts (asks 4 refl) in
    let r2 = goes_on r1 (suspends 4 refl refl) in
    goes_on (goes_on r2 (locks 4 refl refl)) (marks 4 refl refl)

race-refines_example :
    (steps : List (History.Step ℕ)) × (History.run steps History.start
      ≡ returns (completed 9 (marked 4) flagged))
race-refines_example = race-refines 9 flagged-Raced

-- One worker resumes coroutine 7, and coroutine 8 awaits its end.
abbrev promises : ℕ → Promise
promises c = record { parent_corr_id = 5; corr_id = c + 100; done = false }

abbrev running : Executor
running = record (new_executor 1 promises) {
  workers = record idle { stage = resumes 7; correlation_id = 107 } ∷ [];
  promises = update 7 (λ p. record p { parent_corr_id = 0 }) promises;
  accepted = 7 ∷ [];
  taken = 7 ∷ [];
}

running-Reachable : Steps.Reachable 1 running
unfolding spawn turn begin_task
running-Reachable =
    Steps.goes_on (Steps.goes_on (Steps.starts promises) (Steps.owner_spawns 7 refl))
      (Steps.works [] idle [] refl (Steps.begins 7 [] refl refl))

abbrev awaited : World
awaited = record Stack.start {
  notify = record { head = some 0; fired = false; next = link 0 none λ a. none };
  stages =
      set_stage 0 Stack.linked
        (set_stage 0 (Stack.pushes none) (set_stage 0 Stack.suspends λ b. Stack.fresh));
  pushed = 0 ∷ [];
}

awaited-Reachable : Stack.Reachable awaited
unfolding exchange_head
awaited-Reachable =
    let r1 = Stack.goes_on Stack.starts (Stack.asks 0 refl) in
    Stack.goes_on (Stack.goes_on r1 (Stack.loads 0 refl)) (Stack.tries 0 none refl)

-- Another thread writes the link of awaiter 3.
abbrev others : Meanwhile
others a next = link 3 (some 0) next

leave_lem_example :
    ((l : List ℕ) × (e' : Executor) × (next : ℕ → Option ℕ) × (0 ∷ [] ≡ l ++ [])
      × Unique (0 ∷ [])
      × (leave co_returns (suc (length l)) (λ a. 8) others 107 7 awaited.notify running
          ≡ some (
              returns (idle, record (take_head (fire awaited.notify)) { next = next }, ended 7 e')))
      × (e'.queue ≡ map (λ a. 8) l)
      × (e'.destroyed ≡ [])
      × All (λ a. (e'.promises 8).parent_corr_id ≡ 107) l)
    × (leave at_await 2 (λ a. 8) others 107 7 awaited.notify running
        ≡ some (returns (idle, awaited.notify, running)))
    × (leave throws 2 (λ a. 8) others 107 7 awaited.notify running ≡ some aborts)
leave_lem_example =
    leave_lem [] (record idle { stage = resumes 7; correlation_id = 107 }) [] 7 2 (λ a. 8) others
      running-Reachable refl refl awaited-Reachable (λ a k. (refl, tt)) (refl, tt) refl
