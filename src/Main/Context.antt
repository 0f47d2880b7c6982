-- ===== src/Main/Context.antt =====
-- When the coroutines of src/main.cpp find the `IOContext` that they use.
use toad_jawbreaker.Prelude.{
  ℕ, suc, ◌≡◌, ◌≢◌, refl, sym, ap, ◌∙◌, Bool, if◌then◌else◌, false, true, List, [], ◌∷◌, ◌++◌, All,
  All-middle, All-replace, returns, aborts, not, assert, >>=-eq-returns, returns-injective,
}
use mathlib.Core.Path.{subst}
use toad_jawbreaker.Prelude.Int.{ℤ, pos, negsuc, is_negative}
use toad_jawbreaker.Concurrency.Executor.{
  Promise, new_executor, Worker, Executor, resumes, idle, begin_task, spawn, turn, takes, repeat,
}
use toad_jawbreaker.Concurrency.Executor.Steps.{WorkerStep, begins, quits, spawns, completes, ends}
use toad_jawbreaker.Concurrency.Executor.Cases.{turn-takes}
use toad_jawbreaker.Concurrency.IoContext.Submission.{Settings, new_io_context}
use toad_jawbreaker.Concurrency.Executor.Shutdown.{spawn-workers}
use toad_jawbreaker.Concurrency.Task.Promise.Waking.{spawn-done, spawn-queue}
use toad_jawbreaker.Concurrency.IoContext.EventLoop.{outlook}
use toad_jawbreaker.Main.{
  ThisIoContext, alive, exited, this_io_context, batch_size, timeout_ms, Statement,
  constructs_context, spawn_all, spawns_server, event_loop, destructs_context, destructs_executor,
  joins, returned, Program, ProgramStep, constructs, serves, waits_again, handles_batch,
  leaves_loop, exits, closes, joined, works, Runs, starts, goes_on,
}

-- Whether the destructor of the context has run.
abbrev pub is_over : Statement → Bool
is_over constructs_context = false
is_over spawns_server = false
is_over event_loop = false
is_over destructs_context = false
is_over destructs_executor = true
is_over joins = true
is_over returned = true

abbrev settings : Settings
settings = record { batch_size = batch_size; timeout_ms = timeout_ms }

IsResting : Worker → Type 0
IsResting w = (c : ℕ) → w.stage ≢ resumes c

-- There is nothing to resume.
IsEmpty : Executor → Type 0
IsEmpty e = (e.queue ≡ []) × All IsResting e.workers

abbrev Knows : Statement → Executor → ThisIoContext → Type 0
Knows constructs_context e io = IsEmpty e
Knows spawns_server e io = IsEmpty e × (io ≡ alive settings)
Knows event_loop e io = io ≡ alive settings
Knows destructs_context e io = io ≡ alive settings
Knows destructs_executor e io = io ≡ exited
Knows joins e io = io ≡ exited
Knows returned e io = io ≡ exited

no_takes : (e : Executor) (c : ℕ) (rest : List ℕ) → e.queue ≡ [] → turn e ≢ takes c rest
no_takes e c rest h t = let h' = turn-takes e c rest t in cc

WorkerStep-IsEmpty :
    {front back : List Worker} {w : Worker} {e e' : Executor}
    → e.workers ≡ front ++ (w ∷ back)
    → WorkerStep front back w e e'
    → IsEmpty e
    → IsEmpty e'
unfolding IsEmpty IsResting
WorkerStep-IsEmpty at (begins {w} {e} c rest s t) (q, all) = absurd (no_takes e c rest q t)
WorkerStep-IsEmpty {front} {back} at (quits {w} s t) (q, all) =
    (q, All-replace IsResting front w back (λ c h. cc) (subst (All IsResting) at all))
WorkerStep-IsEmpty {front} {back} at (spawns d c s) (q, all) =
    absurd (All-middle IsResting front back (subst (All IsResting) at all) d s)
WorkerStep-IsEmpty {front} {back} at (completes d s) (q, all) =
    absurd (All-middle IsResting front back (subst (All IsResting) at all) d s)
WorkerStep-IsEmpty {front} {back} at (ends d s) (q, all) =
    absurd (All-middle IsResting front back (subst (All IsResting) at all) d s)

works-Knows :
    (st : Statement) {front back : List Worker} {w : Worker} {e e' : Executor} (io : ThisIoContext)
    → e.workers ≡ front ++ (w ∷ back)
    → WorkerStep front back w e e'
    → Knows st e io
    → Knows st e' io
works-Knows constructs_context io at s k = WorkerStep-IsEmpty at s k
works-Knows spawns_server io at s (k, a) = (WorkerStep-IsEmpty at s k, a)
works-Knows event_loop io at s k = k
works-Knows destructs_context io at s k = k
works-Knows destructs_executor io at s k = k
works-Knows joins io at s k = k
works-Knows returned io at s k = k

new_io_context-settings :
    (ret : ℤ) (s : Settings) → new_io_context batch_size timeout_ms ret ≡ returns s → s ≡ settings
unfolding new_io_context
new_io_context-settings ret s h =
    let (_, _, e) = >>=-eq-returns (assert (not (is_negative ret))) (λ _. returns settings) h in
    returns-injective e refl

step-Knows :
    {server : ℕ} {p p' : Program}
    → ProgramStep server p p'
    → Knows p.next p.executor p.io_context
    → Knows p'.next p'.executor p'.io_context
step-Knows (constructs {p} ret s q c) k =
    (subst (λ st. Knows st p.executor p.io_context) q k, ap alive (new_io_context-settings ret s c))
step-Knows (serves {p} q) k = (subst (λ st. Knows st p.executor p.io_context) q k).1
step-Knows (waits_again round q o) k = k
step-Knows (handles_batch {p} round cs spawned q o) k =
    subst (λ st. Knows st (spawn_all spawned p.executor) p.io_context) (sym q)
      (subst (λ st. Knows st p.executor p.io_context) q k)
step-Knows (leaves_loop {p} round q o) k = subst (λ st. Knows st p.executor p.io_context) q k
step-Knows (exits q) k = refl
step-Knows (closes {p} q) k = subst (λ st. Knows st p.executor p.io_context) q k
step-Knows (joined {p} q all) k = subst (λ st. Knows st p.executor p.io_context) q k
step-Knows (works {p} front w back at s) k = works-Knows p.next p.io_context at s k

repeat-IsResting : (n : ℕ) → All IsResting (repeat n idle)
unfolding IsResting
repeat-IsResting ℕ.zero = tt
repeat-IsResting (suc n) = (λ c h. cc, repeat-IsResting n)

Runs-Knows : {n server : ℕ} {p : Program} → Runs n server p → Knows p.next p.executor p.io_context
unfolding IsEmpty
Runs-Knows {n} (starts promises) = (refl, repeat-IsResting n)
Runs-Knows (goes_on r s) = step-Knows s (Runs-Knows r)

Knows-found :
    (st : Statement) (e : Executor) (io : ThisIoContext)
    → ¬ IsEmpty e
    → Knows st e io
    → this_io_context io ≡ (if is_over st then aborts else returns settings)
unfolding this_io_context
Knows-found constructs_context e io n k = absurd (n k)
Knows-found spawns_server e io n (k, a) = absurd (n k)
Knows-found event_loop e io n k = rw k refl
Knows-found destructs_context e io n k = rw k refl
Knows-found destructs_executor e io n k = rw k refl
Knows-found joins e io n k = rw k refl
Knows-found returned e io n k = rw k refl

busy-IsEmpty :
    (e : Executor) (front : List Worker) (w : Worker) (back : List Worker) (d : ℕ)
    → e.workers ≡ front ++ (w ∷ back)
    → w.stage ≡ resumes d
    → ¬ IsEmpty e
unfolding IsEmpty IsResting
busy-IsEmpty e front w back d at s (q, all) =
    All-middle IsResting front back (subst (All IsResting) at all) d s

-- Whenever a worker resumes a coroutine, `this_io_context()` gives the context of `main`, whatever the
-- workers do meanwhile, up to the destructor of the context; behind that it gives one that is gone.
pub coroutines_find_context :
    {n server : ℕ} {p : Program} (front : List Worker) (w : Worker) (back : List Worker) (d : ℕ)
    → Runs n server p
    → p.executor.workers ≡ front ++ (w ∷ back)
    → w.stage ≡ resumes d
    → this_io_context p.io_context ≡ (if is_over p.next then aborts else returns settings)
coroutines_find_context {p = p} front w back d r at s =
    Knows-found p.next p.executor p.io_context (busy-IsEmpty p.executor front w back d at s)
      (Runs-Knows r)

turn-front : (e : Executor) (c : ℕ) (rest : List ℕ) → e.queue ≡ c ∷ rest → turn e ≡ takes c rest
unfolding turn
turn-front e c rest h = rw (turn, h) refl

begin_task-resumes :
    (c : ℕ) (rest : List ℕ) (e : Executor)
    → (e.promises c).done ≡ false
    → (begin_task c rest e).0.stage ≡ resumes c
unfolding begin_task
begin_task-resumes c rest e h = rw h refl

-- The wait of the event loop may fail before a worker has resumed the server: then the destructor of
-- the context runs first, and the server that the executor still resumes finds it gone.
pub context_gone :
    (n server : ℕ) (promises : ℕ → Promise)
    → (promises server).done ≡ false
    → (p : Program) × Runs (suc n) server p
      × ((w : Worker) × (back : List Worker) × (p.executor.workers ≡ w ∷ back)
          × (w.stage ≡ resumes server))
      × (this_io_context p.io_context ≡ aborts)
unfolding this_io_context
context_gone n server promises h =
    let r1 =
      goes_on (starts promises)
        (constructs (pos 0) settings refl (unfold new_io_context in refl)) in
    let r2 = goes_on r1 (serves refl) in
    let r3 =
      goes_on r2
        (leaves_loop (record { ret = negsuc 0; seen = [] }) refl (unfold outlook in refl)) in
    let r4 = goes_on r3 (exits refl) in
    let e0 = new_executor (suc n) promises in
    let e = spawn 0 server e0 in
    let first = turn-front e server [] (spawn-queue 0 server e0 h) in
    let r5 =
      goes_on r4
        (works [] idle (repeat n idle) (spawn-workers 0 server e0) (begins server [] refl first)) in
    (_, r5, (_, _, refl, begin_task-resumes server [] e (spawn-done 0 server server e0 ∙ h)), refl)
