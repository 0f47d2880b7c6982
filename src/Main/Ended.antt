-- ===== src/Main/Ended.antt =====
-- The executor of src/main.cpp, up to the return of `main`.
use toad_jawbreaker.Prelude.{
  ℕ, suc, ◌≡◌, refl, sym, ◌∙◌, false, List, [], ◌∷◌, ◌++◌, All, All-middle,
}
use mathlib.Core.Path.{subst}
use toad_jawbreaker.Concurrency.Executor.{Worker, Executor, spawn}
use toad_jawbreaker.Concurrency.Executor.Steps as Steps
use toad_jawbreaker.Concurrency.Executor.Steps.{
  WorkerStep, begins, quits, spawns, completes, ends, Reachable,
}
use toad_jawbreaker.Concurrency.Executor.Cases.{begin_task-elim, end_task-elim}
use toad_jawbreaker.Concurrency.Executor.Shutdown.{Gone, spawn-is_done, shutdown_complete}
use toad_jawbreaker.Main.{
  Statement, spawn_all, constructs_context, spawns_server, event_loop, destructs_context,
  destructs_executor, joins, returned, Program, ProgramStep, constructs, serves, waits_again,
  handles_batch, leaves_loop, exits, closes, joined, works, Runs, starts, goes_on,
}

WorkerStep-is_done :
    {front back : List Worker} {w : Worker} {e e' : Executor}
    → WorkerStep front back w e e'
    → e'.is_done ≡ e.is_done
WorkerStep-is_done (begins {e} c rest s t) =
    begin_task-elim (λ x. x.1.is_done ≡ e.is_done) c rest e (λ _. refl) refl
WorkerStep-is_done (quits s t) = refl
WorkerStep-is_done (spawns {w} {e} d c s) = spawn-is_done w.correlation_id c e
WorkerStep-is_done (completes d s) = refl
WorkerStep-is_done (ends {e} d s) =
    end_task-elim (λ x. x.1.is_done ≡ e.is_done) d e (λ _. refl) refl

-- Up to its destructor the executor is not done; once `main` has returned the workers are gone.
abbrev Knows : Statement → Executor → Type 0
Knows constructs_context e = e.is_done ≡ false
Knows spawns_server e = e.is_done ≡ false
Knows event_loop e = e.is_done ≡ false
Knows destructs_context e = e.is_done ≡ false
Knows destructs_executor e = e.is_done ≡ false
Knows joins e = Unit
Knows returned e = All Gone e.workers

WorkerStep-not_gone :
    {A : Type 0} {front back : List Worker} {w : Worker} {e e' : Executor}
    → WorkerStep front back w e e'
    → Gone w
    → A
WorkerStep-not_gone (begins c rest s t) g = cc
WorkerStep-not_gone (quits s t) g = cc
WorkerStep-not_gone (spawns d c s) g = cc
WorkerStep-not_gone (completes d s) g = cc
WorkerStep-not_gone (ends d s) g = cc

works-Knows :
    (st : Statement) {front back : List Worker} {w : Worker} {e e' : Executor}
    → e.workers ≡ front ++ (w ∷ back)
    → WorkerStep front back w e e'
    → Knows st e
    → Knows st e'
works-Knows constructs_context at s h = WorkerStep-is_done s ∙ h
works-Knows spawns_server at s h = WorkerStep-is_done s ∙ h
works-Knows event_loop at s h = WorkerStep-is_done s ∙ h
works-Knows destructs_context at s h = WorkerStep-is_done s ∙ h
works-Knows destructs_executor at s h = WorkerStep-is_done s ∙ h
works-Knows joins at s h = tt
works-Knows returned {front} {back} at s h =
    WorkerStep-not_gone s (All-middle Gone front back (subst (All Gone) at h))

-- The executor of a run of the program is one that its own steps reach.
IsRun : ℕ → Program → Type 0
IsRun n p = Reachable n p.executor × Knows p.next p.executor

-- What the event loop spawns are steps of the executor, which is not done yet.
spawn_all-Reachable :
    {n : ℕ} {e : Executor} (cs : List ℕ)
    → Reachable n e
    → e.is_done ≡ false
    → Reachable n (spawn_all cs e) × ((spawn_all cs e).is_done ≡ false)
spawn_all-Reachable [] r d = (r, d)
spawn_all-Reachable {e = e} (c ∷ cs) r d =
    spawn_all-Reachable {e = spawn 0 c e} cs (Steps.goes_on r (Steps.owner_spawns c d))
      (spawn-is_done 0 c e ∙ d)

step-IsRun :
    (n : ℕ) {server : ℕ} {p p' : Program} → ProgramStep server p p' → IsRun n p → IsRun n p'
unfolding IsRun
step-IsRun n (constructs {p} ret settings q c) (r, k) = (r, subst (λ st. Knows st p.executor) q k)
step-IsRun n {server} (serves {p} q) (r, k) =
    let open_still = subst (λ st. Knows st p.executor) q k in
    (
      Steps.goes_on r (Steps.owner_spawns server open_still),
      spawn-is_done 0 server p.executor ∙ open_still,
    )
step-IsRun n (waits_again round q o) (r, k) = (r, k)
step-IsRun n (handles_batch {p} round cs spawned q o) (r, k) =
    let (r', open_still) = spawn_all-Reachable spawned r (subst (λ st. Knows st p.executor) q k) in
    (r', subst (λ st. Knows st (spawn_all spawned p.executor)) (sym q) open_still)
step-IsRun n (leaves_loop {p} round q o) (r, k) = (r, subst (λ st. Knows st p.executor) q k)
step-IsRun n (exits {p} q) (r, k) = (r, subst (λ st. Knows st p.executor) q k)
step-IsRun n (closes {p} q) (r, k) = (Steps.goes_on r Steps.closes, tt)
step-IsRun n (joined {p} q all) (r, k) = (r, all)
step-IsRun n (works {p} front w back at s) (r, k) =
    (Steps.goes_on r (Steps.works front w back at s), works-Knows p.next at s k)

pub Runs-Reachable :
    {n server : ℕ} {p : Program}
    → Runs n server p
    → Reachable n p.executor × Knows p.next p.executor
unfolding IsRun
Runs-Reachable (starts promises) = (Steps.starts promises, refl)
Runs-Reachable {n} (goes_on r s) = step-IsRun n s (Runs-Reachable r)

-- When `main` returns, every worker has left its loop, and every coroutine that was accepted, by
-- `main` or by a coroutine, was taken.
pub main_returned :
    {n server : ℕ} {p : Program}
    → Runs (suc n) server p
    → p.next ≡ returned
    → All Gone p.executor.workers × (p.executor.taken ≡ p.executor.accepted)
main_returned {p = p} r q =
    let (r', k) = Runs-Reachable r in
    let all = subst (λ st. Knows st p.executor) q k in (all, (shutdown_complete r' all).2)
