-- ===== src/Concurrency/Task/Frames.antt =====
-- Which frames the tasks of include/concurrency/task.hpp destroy.
use toad_jawbreaker.Prelude.{
  ℕ, zero, suc, ◌+◌, ◌≡◌, ◌<◌, refl, ap, Bool, if◌then◌else◌, List, [], ◌∷◌, Option, none, some,
  set, get_or, length, returns, times, All, arith, Bool-cases, inl, inr,
}
use toad_jawbreaker.Net.Ownership as Ownership
use toad_jawbreaker.Net.Ownership.Conserved as Conserved
use toad_jawbreaker.Net.Ownership.Conserved.{holds, times_held, total}
use toad_jawbreaker.Concurrency.Task.{
  Tasks, no_tasks, task_at, leak, keep_if_held, run_task, Operation, constructs, move_constructs,
  move_assigns, leaks, destructs, apply, run,
}

-- The places that an operation names are variables.
abbrev pub IsPlaced : Operation → ℕ → Type 0
IsPlaced (constructs handle) n = Unit
IsPlaced (move_constructs other) n = other < n
IsPlaced (move_assigns this other) n = (this < n) × (other < n)
IsPlaced (leaks this) n = this < n
IsPlaced (destructs this) n = this < n

abbrev pub IsRun : List Operation → Tasks → Type 0
IsRun [] t = Unit
IsRun (op ∷ ops) t = IsPlaced op (length t.variables.held) × IsRun ops (apply op t)

-- How often tasks are constructed from the handle.
abbrev pub adopts : ℕ → Operation → ℕ
adopts d (constructs handle) = holds d handle
adopts d (move_constructs other) = 0
adopts d (move_assigns this other) = 0
adopts d (leaks this) = 0
adopts d (destructs this) = 0

abbrev pub adopted : ℕ → List Operation → ℕ
adopted d [] = 0
adopted d (op ∷ ops) = adopts d op + adopted d ops

-- Held, destroyed or leaked.
abbrev accounted : ℕ → Tasks → ℕ
accounted d t = total d t.variables + times d t.leaked

times-keep :
    (d : ℕ) (x : Option ℕ) (l : List ℕ) → times d (keep_if_held x l) ≡ holds d x + times d l
times-keep d none l = omega arith
times-keep d (some c) l = refl

apply-accounted :
    (d : ℕ) (op : Operation) (t : Tasks)
    → IsPlaced op (length t.variables.held)
    → accounted d (apply op t) ≡ adopts d op + accounted d t
unfolding leak
apply-accounted d (constructs handle) t h =
    omega (arith, Conserved.times_held-append d t.variables.held (handle ∷ []))
apply-accounted d (move_constructs other) t h =
    omega (arith, Conserved.apply-total d (Ownership.move_constructs other) t.variables h)
apply-accounted d (move_assigns this other) t h =
    omega (arith, Conserved.apply-total d (Ownership.move_assigns this other) t.variables h)
apply-accounted d (leaks this) t h = omega (
  arith,
  Conserved.times_held-set d t.variables.held this none h,
  times-keep d (task_at this t) t.leaked,
)
apply-accounted d (destructs this) t h =
    omega (arith, Conserved.apply-total d (Ownership.destructs this) t.variables h)

run-accounted :
    (d : ℕ) (ops : List Operation) (t : Tasks)
    → IsRun ops t
    → accounted d (run ops t) ≡ adopted d ops + accounted d t
run-accounted d [] t h = omega arith
run-accounted d (op ∷ ops) t (h, hs) =
    omega (arith, run-accounted d ops (apply op t) hs, apply-accounted d op t h)

-- However tasks are constructed, moved, assigned, to themselves too, leaked and destroyed: once no
-- variable holds a handle, the frame of each coroutine was destroyed or leaked, together exactly as
-- often as a task was constructed from its handle.
pub frames_accounted :
    (d : ℕ) (ops : List Operation)
    → IsRun ops no_tasks
    → All (λ x. x ≡ none) (run ops no_tasks).variables.held
    → times d (run ops no_tasks).variables.closed + times d (run ops no_tasks).leaked
      ≡ adopted d ops
frames_accounted d ops h gone = omega (
  arith,
  run-accounted d ops no_tasks h,
  Conserved.none_held d (run ops no_tasks).variables.held gone,
)

set-none :
    (l : List (Option ℕ)) (i : ℕ)
    → (get_or (set l i none) i none ≡ none) × (set (set l i none) i none ≡ set l i none)
set-none [] i = (refl, refl)
set-none (x ∷ l) zero = (refl, refl)
set-none (x ∷ l) (suc i) = ((set-none l i).0, ap (λ k. x ∷ k) (set-none l i).1)

-- A round of a worker with a task ends with the frame destroyed if the coroutine was done or is done
-- after it ran, and leaked if not.
pub run_task_lem :
    (this c : ℕ) (body : ℕ → (ℕ → Bool) → ℕ → Bool) (done : ℕ → Bool) (t : Tasks)
    → this < length t.variables.held
    → task_at this t ≡ some c
    → let done' = (if done c then done else body c done) in
      run_task this body done t
      ≡ returns (
        done',
        record {
          variables = record {
            held = set t.variables.held this none;
            closed = if done' c then c ∷ t.variables.closed else t.variables.closed;
          };
          leaked = if done' c then t.leaked else c ∷ t.leaked;
        },
      )
unfolding run_task leak Ownership.destruct
run_task_lem this c body done t h e = elim (Bool-cases (done c)) [
  | inl q ↦ rw (e, q) (rw q)
  | inr q ↦ elim (Bool-cases (body c done c)) [
    | inl r ↦ rw (e, q, r) (rw e)
    | inr r ↦ rw (e, q, r, (set-none t.variables.held this).0, (set-none t.variables.held this).1)
  ]
]
