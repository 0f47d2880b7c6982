-- ===== src/Concurrency/Task/Promise/Leaving.antt =====
-- How a coroutine of include/concurrency/task.hpp leaves the worker that resumes it.
use toad_jawbreaker.Prelude.{
  ℕ, suc, ◌≡◌, refl, sym, List, [], Option, none, ◌∷◌, ◌++◌, map, All, All-front, true, false, ◌==◌,
  some, length, arith, returns, aborts,
}
use mathlib.Core.Path.{subst}
use toad_jawbreaker.Concurrency.Notify.{Notify, fire, take_head}
use toad_jawbreaker.Concurrency.Notify.Stack as Stack
use toad_jawbreaker.Concurrency.Notify.Stack.{World, Chain, ends, leads}
use toad_jawbreaker.Concurrency.Notify.Drained.{Unique, Reachable-Inv}
use toad_jawbreaker.Concurrency.Executor.{
  Executor, Worker, idle, resumes, spawn, complete, end_task, destroy_task,
}
use toad_jawbreaker.Concurrency.Executor.Steps.{Reachable}
use toad_jawbreaker.Concurrency.Executor.Correlation.{worker-correlation_id}
use toad_jawbreaker.Concurrency.Task.Promise.{
  Meanwhile, suspends, co_returns, throws, spawn_each, wake, notify_all, final_suspend, leave,
}
use toad_jawbreaker.Concurrency.Task.Promise.Waking.{
  spawn_each-queue, spawn_each-destroyed, spawn_each-parent,
}

-- The executor once the coroutine is done and its frame destroyed.
abbrev pub ended : ℕ → Executor → Executor
ended c e = destroy_task c (complete c e)

end_task-complete : (c : ℕ) (e : Executor) → end_task c (complete c e) ≡ (idle, ended c e)
unfolding end_task
end_task-complete c e = let same : (c == c) ≡ true = ground arith in rw same refl

-- Others leave the links of these awaiters: none of them ends, as its coroutine may do once it is spawned,
-- before its link is read.
abbrev pub Keeps : Meanwhile → List ℕ → Type 0
Keeps meanwhile l = (a : ℕ) (next : ℕ → Option ℕ) → All (λ b. meanwhile a next b ≡ next b) l

kept-Chain :
    (next next' : ℕ → Option ℕ) (current : Option ℕ) (l : List ℕ)
    → Chain next current l
    → All (λ b. next' b ≡ next b) l
    → Chain next' current l
kept-Chain next next' _ _ ends all = ends
kept-Chain next next' _ _ (leads {l} a c) (e, all) =
    leads a (subst (λ x. Chain next' x l) (sym e) (kept-Chain next next' (next a) l c all))

Chain-nil : {next : ℕ → Option ℕ} {current : Option ℕ} → Chain next current [] → current ≡ none
Chain-nil ends = refl

Chain-cons :
    {next : ℕ → Option ℕ} {current : Option ℕ} {a : ℕ} {l : List ℕ}
    → Chain next current (a ∷ l)
    → (current ≡ some a) × Chain next (next a) l
Chain-cons (leads a c) = (refl, c)

wake-Chain :
    (continuation : ℕ → ℕ) (meanwhile : Meanwhile) (id : ℕ) (next : ℕ → Option ℕ)
    (current : Option ℕ) (l : List ℕ) (e : Executor)
    → Chain next current l
    → Keeps meanwhile l
    → (next' : ℕ → Option ℕ) × (wake (suc (length l)) continuation meanwhile id next current e
        ≡ some (next', spawn_each continuation id l e))
unfolding wake
wake-Chain continuation meanwhile id next current [] e chain keeps =
    (next, rw (wake, Chain-nil chain) refl)
wake-Chain continuation meanwhile id next current (a ∷ l) e chain keeps =
    let (at_a, c) = Chain-cons chain in
    let next' = meanwhile a next in
    let (same, rest) = keeps a next in
    let (last, whole) =
      wake-Chain continuation meanwhile id next' (next' a) l (spawn id (continuation a) e)
        (subst (λ x. Chain next' x l) (sym same) (kept-Chain next next' (next a) l c rest))
        (λ b k. (keeps b k).1) in
    (
      last,
      subst
          (λ x.
            wake (suc (suc (length l))) continuation meanwhile id next x e
            ≡ some (last, spawn_each continuation id l (spawn id (continuation a) e)))
          (sym at_a) whole,
    )

leave-at_end :
    (fuel : ℕ) (continuation : ℕ → ℕ) (meanwhile : Meanwhile) (id c : ℕ) (n : Notify)
    (e e' : Executor) (next : ℕ → Option ℕ)
    → wake fuel continuation meanwhile id n.next n.head e ≡ some (next, e')
    → leave co_returns fuel continuation meanwhile id c n e
      ≡ some (returns (idle, record (take_head (fire n)) { next = next }, ended c e'))
unfolding leave final_suspend notify_all
leave-at_end fuel continuation meanwhile id c n e e' next h =
    rw (leave, final_suspend, notify_all, h, end_task-complete) refl

leave-early :
    (fuel : ℕ) (continuation : ℕ → ℕ) (meanwhile : Meanwhile) (id c : ℕ) (n : Notify) (e : Executor)
    → (e.promises c).done ≡ false
    → (leave suspends fuel continuation meanwhile id c n e ≡ some (returns (idle, n, e)))
      × (leave throws fuel continuation meanwhile id c n e ≡ some aborts)
unfolding leave end_task
leave-early fuel continuation meanwhile id c n e h = (rw (leave, end_task, h) refl, refl)

-- A coroutine that a worker resumes ends, however awaiters of its end have pushed themselves so far, and as
-- long as other threads leave the links of those awaiters: each that was pushed by then and not spawned
-- before gets its coroutine into the queue once, the last one first, with the id of the ended coroutine as
-- its parent's; the flag is set, the frame is destroyed, and the worker is idle. One round of fuel more
-- than there are such awaiters is enough. At an await the executor and the awaiters stay as they are, and
-- an exception ends the process. All this for coroutines that are not done before, and of the executor what
-- this worker does to it.
pub leave_lem :
    {k : ℕ} {e : Executor} {t : World} (front : List Worker) (w : Worker) (back : List Worker)
    (c fuel : ℕ) (continuation : ℕ → ℕ) (meanwhile : Meanwhile)
    → Reachable k e
    → e.workers ≡ front ++ (w ∷ back)
    → w.stage ≡ resumes c
    → Stack.Reachable t
    → Keeps meanwhile t.pushed
    → All (λ a. (e.promises (continuation a)).done ≡ false) t.pushed
    → (e.promises c).done ≡ false
    → ((l : List ℕ) × (e' : Executor) × (next : ℕ → Option ℕ) × (t.pushed ≡ l ++ t.spawned)
        × Unique t.pushed
        × (leave co_returns (suc (length l)) continuation meanwhile w.correlation_id c t.notify e
            ≡ some (returns (idle, record (take_head (fire t.notify)) { next = next }, ended c e')))
        × (e'.queue ≡ e.queue ++ map continuation l)
        × (e'.destroyed ≡ e.destroyed)
        × All (λ a. (e'.promises (continuation a)).parent_corr_id ≡ (e.promises c).corr_id) l)
      × (leave suspends fuel continuation meanwhile w.correlation_id c t.notify e
          ≡ some (returns (idle, t.notify, e)))
      × (leave throws fuel continuation meanwhile w.correlation_id c t.notify e ≡ some aborts)
leave_lem {e = e} {t = t} front w back c fuel continuation meanwhile r at s r' keeps running n =
    let i = Reachable-Inv r' in
    let l = i.waiting in
    let id = w.correlation_id in
    let e' = spawn_each continuation id l e in
    let P : ℕ → Type 0 = λ a. (e.promises (continuation a)).done ≡ false in
    let running' = All-front P l t.spawned (subst (All P) i.split running) in
    let (next, whole) =
      wake-Chain continuation meanwhile id t.notify.next t.notify.head l e i.chain λ a k.
        let Q : ℕ → Type 0 = λ b. meanwhile a k b ≡ k b in
        All-front Q l t.spawned (subst (All Q) i.split (keeps a k)) in
    (
      (
        l,
        e',
        next,
        i.split,
        i.once,
        leave-at_end (suc (length l)) continuation meanwhile id c t.notify e e' next whole,
        spawn_each-queue continuation id l e running',
        spawn_each-destroyed continuation id l e running',
        subst (λ i. All (λ a. (e'.promises (continuation a)).parent_corr_id ≡ i) l)
            (worker-correlation_id front w back c r at s) (spawn_each-parent continuation id l e),
      ),
      (leave-early fuel continuation meanwhile id c t.notify e n).0,
      (leave-early fuel continuation meanwhile id c t.notify e n).1,
    )
