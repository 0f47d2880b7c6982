-- ===== src/Concurrency/Executor/Ending.antt =====
-- How the executor of include/concurrency/executor.hpp comes to its end once the destructor has
-- started and the coroutines spawn nothing more: they suspend or reach their ends.
use toad_jawbreaker.Prelude.{
  ℕ, suc, ◌+◌, ◌*◌, ◌≡◌, ◌≤◌, ◌<◌, ◌⊎◌, inl, inr, refl, sym, ap, ◌∙◌, Bool, true, false, ◌==◌,
  if-elim, List, [], ◌∷◌, ◌++◌, append_assoc, All, length, arith,
}
use toad_jawbreaker.Concurrency.Executor.{
  Promise, complete, Stage, waits, resumes, gone, Worker, Executor, Turn, stays, leaves, takes,
  turn, begin_task, end_task,
}
use toad_jawbreaker.Concurrency.Executor.Steps.{
  WorkerStep, begins, quits, spawns, completes, ends, works, Reachable, goes_on,
}
use toad_jawbreaker.Concurrency.Executor.Cases.{begin_task-elim, end_task-elim, turn-takes}
use toad_jawbreaker.Concurrency.Executor.Shutdown.{Gone, shutdown_complete}

-- A worker takes a task, leaves, or is back from `resume`, or a coroutine that is not done reaches its end;
-- no coroutine spawns anything.
abbrev IsQuiet :
    {front back : List Worker} {w : Worker} {e e' : Executor}
    → WorkerStep front back w e e'
    → Type 0
IsQuiet (begins c rest s t) = Unit
IsQuiet (quits s t) = Unit
IsQuiet (spawns d c s) = ⊥
IsQuiet (completes {e = e} d s) = (e.promises d).done ≡ false
IsQuiet (ends d s) = Unit

pub data QuietStep : Executor → Executor → Type 0 where
  quietly :
      {e e' : Executor} (front : List Worker) (w : Worker) (back : List Worker)
      → e.workers ≡ front ++ (w ∷ back)
      → (s : WorkerStep front back w e e') → IsQuiet s
      → QuietStep e e'

-- So many such steps, one after the other.
pub data Quiet : ℕ → Executor → Executor → Type 0 where
  rests : {e : Executor} → Quiet 0 e e
  proceeds : {n : ℕ} {e e' e'' : Executor} → Quiet n e e' → QuietStep e' e'' → Quiet (suc n) e e''

-- What is left to do: a task is taken, ends and is returned from, and a worker leaves.
abbrev busy_weight : Bool → ℕ
busy_weight true = 2
busy_weight false = 3

abbrev weight : (ℕ → Promise) → Stage → ℕ
weight p waits = 1
weight p (resumes c) = busy_weight (p c).done
weight p gone = 0

abbrev weights : (ℕ → Promise) → List Worker → ℕ
weights p [] = 0
weights p (w ∷ ws) = weight p w.stage + weights p ws

pub measure : Executor → ℕ
measure e = 3 * length e.queue + weights e.promises e.workers

weights-middle :
    (p : ℕ → Promise) (front : List Worker) (w : Worker) (back : List Worker)
    → weights p (front ++ (w ∷ back)) ≡ weight p w.stage + weights p (front ++ back)
weights-middle p [] w back = refl
weights-middle p (x ∷ front) w back = omega (arith, weights-middle p front w back)

busy_weight-bounds : (b : Bool) → (2 ≤ busy_weight b) × (busy_weight b ≤ 3)
busy_weight-bounds true = (omega arith, omega arith)
busy_weight-bounds false = (omega arith, omega arith)

begin_task-left :
    (c : ℕ) (rest : List ℕ) (e : Executor)
    → (weight e.promises (begin_task c rest e).0.stage ≤ 3)
      × ((begin_task c rest e).1.queue ≡ rest)
      × ((begin_task c rest e).1.promises ≡ e.promises)
begin_task-left c rest e =
    begin_task-elim
      (λ x. (weight e.promises x.0.stage ≤ 3) × (x.1.queue ≡ rest) × (x.1.promises ≡ e.promises)) c
      rest e (λ _. (omega arith, refl, refl))
      ((busy_weight-bounds (e.promises c).done).1, refl, refl)

end_task-left :
    (c : ℕ) (e : Executor)
    → (weight e.promises (end_task c e).0.stage ≡ 1)
      × ((end_task c e).1.queue ≡ e.queue)
      × ((end_task c e).1.promises ≡ e.promises)
end_task-left c e =
    end_task-elim
      (λ x. (weight e.promises x.0.stage ≡ 1) × (x.1.queue ≡ e.queue) × (x.1.promises ≡ e.promises))
      c e (λ _. (refl, refl, refl)) (refl, refl, refl)

complete-lighter :
    (d : ℕ) (e : Executor) (st : Stage) → weight (complete d e).promises st ≤ weight e.promises st
complete-lighter d e waits = omega arith
complete-lighter d e gone = omega arith
complete-lighter d e (resumes c) =
    if-elim (λ (p : Promise). busy_weight p.done ≤ busy_weight (e.promises c).done) (c == d)
      (record (e.promises c) { done = true }) (e.promises c)
      (λ _. (busy_weight-bounds (e.promises c).done).0) λ _. omega arith

complete-lightens :
    (d : ℕ) (e : Executor) (ws : List Worker)
    → weights (complete d e).promises ws ≤ weights e.promises ws
complete-lightens d e [] = omega arith
complete-lightens d e (w ∷ ws) =
    omega (arith, complete-lighter d e w.stage, complete-lightens d e ws)

complete-done : (d : ℕ) (e : Executor) → ((complete d e).promises d).done ≡ true
complete-done d e = let same : (d == d) ≡ true = ground arith in rw same refl

-- A worker in its place that changes, with the promises as they were.
replaced-measure :
    (front : List Worker) (w w' : Worker) (back : List Worker) (e e' : Executor)
    → e.workers ≡ front ++ (w ∷ back)
    → e'.promises ≡ e.promises
    → 3 * length e'.queue + weight e.promises w'.stage
      < 3 * length e.queue + weight e.promises w.stage
    → measure (record e' { workers = front ++ (w' ∷ back) }) < measure e
unfolding measure
replaced-measure front w w' back e e' at same less = omega (
  arith,
  less,
  ap (λ p. weights p (front ++ (w' ∷ back))) same,
  ap (weights e.promises) at,
  weights-middle e.promises front w back,
  weights-middle e.promises front w' back,
)

WorkerStep-measure :
    {front back : List Worker} {w : Worker} {e e' : Executor}
    → e.workers ≡ front ++ (w ∷ back)
    → (s : WorkerStep front back w e e') → IsQuiet s
    → measure e' < measure e
unfolding measure
WorkerStep-measure {front} {back} at (begins {w} {e} c rest s t) q =
    let (light, queue, same) = begin_task-left c rest e in
    replaced-measure front w (begin_task c rest e).0 back e (begin_task c rest e).1 at same (
      omega (
        arith,
        light,
        ap length queue,
        ap length (turn-takes e c rest t),
        ap (weight e.promises) s,
      ))
WorkerStep-measure {front} {back} at (quits {w} {e} s t) q =
    replaced-measure front w (record w { stage = gone }) back e e at refl
      (omega (arith, ap (weight e.promises) s))
WorkerStep-measure at (spawns d c s) q = elim q [ ]
WorkerStep-measure {front} {back} at (completes {w} {e} d s) q =
    let p = (complete d e).promises in
    omega (
      arith,
      ap (weights e.promises) at,
      ap (weights p) at,
      weights-middle e.promises front w back,
      weights-middle p front w back,
      complete-lightens d e (front ++ back),
      ap (weight e.promises) s,
      ap (weight p) s,
      ap busy_weight q,
      ap busy_weight (complete-done d e),
    )
WorkerStep-measure {front} {back} at (ends {w} {e} d s) q =
    let (light, queue, same) = end_task-left d e in
    replaced-measure front w (end_task d e).0 back e (end_task d e).1 at same (
      omega (
        arith,
        light,
        ap length queue,
        ap (weight e.promises) s,
        (busy_weight-bounds (e.promises d).done).0,
      ))

Quiet-measure : {n : ℕ} {e e' : Executor} → Quiet n e e' → n + measure e' ≤ measure e
Quiet-measure rests = omega arith
Quiet-measure (proceeds r (quietly front w back at s q)) =
    omega (arith, Quiet-measure r, WorkerStep-measure at s q)

turn-busy : (e : Executor) → e.is_done ≡ true → ¬ (turn e ≡ stays)
unfolding turn
turn-busy e d t = ground arith

-- Quiet steps are steps, and leave the flag of the destructor set.
WorkerStep-is_done :
    {front back : List Worker} {w : Worker} {e e' : Executor}
    → (s : WorkerStep front back w e e') → IsQuiet s
    → e'.is_done ≡ e.is_done
WorkerStep-is_done (begins {e} c rest s t) q =
    begin_task-elim (λ x. x.1.is_done ≡ e.is_done) c rest e (λ _. refl) refl
WorkerStep-is_done (quits s t) q = refl
WorkerStep-is_done (spawns d c s) q = elim q [ ]
WorkerStep-is_done (completes d s) q = refl
WorkerStep-is_done (ends {e} d s) q =
    end_task-elim (λ x. x.1.is_done ≡ e.is_done) d e (λ _. refl) refl

Quiet-Reachable :
    {n k : ℕ} {e e' : Executor}
    → Reachable n e
    → e.is_done ≡ true
    → Quiet k e e'
    → Reachable n e' × (e'.is_done ≡ true)
Quiet-Reachable r d rests = (r, d)
Quiet-Reachable r d (proceeds q (quietly front w back at s quiet)) =
    let (r', d') = Quiet-Reachable r d q in
    (goes_on r' (works front w back at s), WorkerStep-is_done s quiet ∙ d')

-- A worker that has not left can take a step once the destructor has started.
worker_goes_on :
    (e : Executor) (front : List Worker) (w : Worker) (back : List Worker)
    → e.workers ≡ front ++ (w ∷ back)
    → e.is_done ≡ true
    → (st : Stage) → w.stage ≡ st
    → (st ≡ gone) ⊎ ((e' : Executor) × QuietStep e e')
worker_goes_on e front w back at d gone s = inl refl
worker_goes_on e front w back at d (resumes c) s = inr (_, quietly front w back at (ends c s) tt)
worker_goes_on e front w back at d waits s = turns (turn e) refl
  where
    turns : (t : Turn) → turn e ≡ t → (waits ≡ gone) ⊎ ((e' : Executor) × QuietStep e e')
    turns stays t = absurd (turn-busy e d t)
    turns leaves t = inr (_, quietly front w back at (quits s t) tt)
    turns (takes c rest) t = inr (_, quietly front w back at (begins c rest s t) tt)

some_worker :
    (e : Executor) (front back : List Worker)
    → e.workers ≡ front ++ back
    → e.is_done ≡ true
    → All Gone back ⊎ ((e' : Executor) × QuietStep e e')
some_worker e front [] at d = inl tt
some_worker e front (w ∷ back) at d = elim (worker_goes_on e front w back at d w.stage refl) [
  | inr moves ↦ inr moves
  | inl left ↦
      elim (some_worker e (front ++ (w ∷ [])) back (at ∙ sym (append_assoc front (w ∷ []) back))
        d) [ inr moves ↦ inr moves | inl all ↦ inl (left, all) ]
]

-- Once the destructor has started, the workers of an executor with at least one come to an end if the
-- coroutines spawn nothing more, each suspends or reaches its end, and every `resume` returns: a run of their steps is no longer than a
-- number that the state gives, and where it stops, every worker has left its loop and every accepted
-- task was taken, or else another step can follow.
pub shutdown_ends :
    {n k : ℕ} {e e' : Executor}
    → Reachable (suc n) e
    → e.is_done ≡ true
    → Quiet k e e'
    → (k ≤ measure e)
      × ((All Gone e'.workers × (e'.taken ≡ e'.accepted)) ⊎ ((e'' : Executor) × QuietStep e' e''))
shutdown_ends {e' = e'} r d q =
    let (r', d') = Quiet-Reachable r d q in
    (
      omega (arith, Quiet-measure q),
      elim (some_worker e' [] e'.workers refl d') [
        | inl all ↦ inl (all, (shutdown_complete r' all).2)
        | inr moves ↦ inr moves
      ],
    )
