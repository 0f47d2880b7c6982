-- ===== src/Concurrency/Executor/Correlation.antt =====
-- The correlation ids of include/concurrency/executor.hpp.
use toad_jawbreaker.Prelude.{
  if-elim, ℕ, zero, suc, ◌≡◌, refl, sym, ap, ◌∙◌, true, List, ◌∷◌, ◌++◌, All, All-middle,
  All-replace, All-map, arith, ◌==◌, if◌then◌else◌,
}
use mathlib.Core.Path.{subst}
use toad_jawbreaker.Concurrency.Executor.{
  Promise, waits, resumes, Worker, Executor, idle, spawn, update, repeat, set_parent_corr_id, busy,
}
use toad_jawbreaker.Concurrency.Executor.Steps.{
  WorkerStep, begins, quits, spawns, completes, ends, Step, works, owner_spawns, closes, Reachable,
  starts, goes_on, with_worker,
}
use toad_jawbreaker.Concurrency.Executor.Cases.{spawn-elim, begin_task-elim, end_task-elim}

-- The worker's id is that of the coroutine it resumes, and 0 between two tasks.
abbrev Ids : (ℕ → Promise) → Worker → Type 0
Ids promises w =
    ((c : ℕ) → w.stage ≡ resumes c → w.correlation_id ≡ (promises c).corr_id)
    × (w.stage ≡ waits → w.correlation_id ≡ 0)

abbrev Tracked : Executor → Type 0
Tracked e = All (Ids e.promises) e.workers

idle-Ids : (promises : ℕ → Promise) → Ids promises idle
idle-Ids promises = (λ c h. cc, λ _. refl)

resumes-injective : {c d : ℕ} → resumes c ≡ resumes d → c ≡ d
resumes-injective h = cc

busy-Ids : (promises : ℕ → Promise) (c : ℕ) → Ids promises (busy c (promises c))
busy-Ids promises c = (λ d h. ap (λ x. (promises x).corr_id) (resumes-injective h), λ h. cc)

-- An update that keeps the ids keeps what is tracked.
update-corr_id :
    (promises : ℕ → Promise) (c : ℕ) (f : Promise → Promise) (d : ℕ)
    → ((p : Promise) → (f p).corr_id ≡ p.corr_id)
    → (update c f promises d).corr_id ≡ (promises d).corr_id
update-corr_id promises c f d keeps =
    if-elim (λ p. p.corr_id ≡ (promises d).corr_id) (d == c) (f (promises d)) (promises d)
      (λ _. keeps (promises d)) λ _. refl

update-Ids :
    (promises : ℕ → Promise) (c : ℕ) (f : Promise → Promise) (workers : List Worker)
    → ((p : Promise) → (f p).corr_id ≡ p.corr_id)
    → All (Ids promises) workers
    → All (Ids (update c f promises)) workers
update-Ids promises c f workers keeps =
    All-map (Ids promises) (Ids (update c f promises))
      (λ w (at_task, at_rest).
        (λ d h. at_task d h ∙ sym (update-corr_id promises c f d keeps), at_rest))
      workers

set_parent_corr_id-Tracked :
    (c id : ℕ) (e : Executor) → Tracked e → Tracked (set_parent_corr_id c id e)
set_parent_corr_id-Tracked c id e h =
    update-Ids e.promises c (λ p. record p { parent_corr_id = id }) e.workers (λ p. refl) h

spawn-Tracked : (id c : ℕ) (e : Executor) → Tracked e → Tracked (spawn id c e)
spawn-Tracked id c e h =
    let h' = set_parent_corr_id-Tracked c id e h in spawn-elim Tracked id c e (λ _. h') h'

WorkerStep-Tracked :
    {front back : List Worker} {w : Worker} {e e' : Executor}
    → e.workers ≡ front ++ (w ∷ back)
    → WorkerStep front back w e e'
    → Tracked e
    → Tracked e'
WorkerStep-Tracked {front} {back} at (begins {w} {e} c rest s t) h =
    let here = subst (All (Ids e.promises)) at h in
    begin_task-elim (λ x. Tracked (with_worker front x.0 back x.1)) c rest e
      (λ _. All-replace (Ids e.promises) front w back (idle-Ids e.promises) here)
      (All-replace (Ids e.promises) front w back (busy-Ids e.promises c) here)
WorkerStep-Tracked {front} {back} at (quits {w} {e} s t) h =
    All-replace (Ids e.promises) front w back (λ c g. cc, λ g. cc)
      (subst (All (Ids e.promises)) at h)
WorkerStep-Tracked at (spawns {w} {e} d c s) h = spawn-Tracked w.correlation_id c e h
WorkerStep-Tracked at (completes {e} d s) h =
    update-Ids e.promises d (λ p. record p { done = true }) e.workers (λ p. refl) h
WorkerStep-Tracked {front} {back} at (ends {w} {e} d s) h =
    let here =
      All-replace (Ids e.promises) front w back (idle-Ids e.promises)
        (subst (All (Ids e.promises)) at h) in
    end_task-elim (λ x. Tracked (with_worker front x.0 back x.1)) d e (λ _. here) here

step-Tracked : {e e' : Executor} → Step e e' → Tracked e → Tracked e'
step-Tracked (works front w back at s) h = WorkerStep-Tracked at s h
step-Tracked (owner_spawns {e} c n) h = spawn-Tracked 0 c e h
step-Tracked closes h = h

repeat-Tracked : (promises : ℕ → Promise) (n : ℕ) → All (Ids promises) (repeat n idle)
repeat-Tracked promises zero = tt
repeat-Tracked promises (suc n) = (idle-Ids promises, repeat-Tracked promises n)

Reachable-Tracked : {n : ℕ} {e : Executor} → Reachable n e → Tracked e
Reachable-Tracked {n} (starts promises) = repeat-Tracked promises n
Reachable-Tracked (goes_on r s) = step-Tracked s (Reachable-Tracked r)

eq_self : (n : ℕ) → (n == n) ≡ true
eq_self n = ground arith

set_parent-read :
    (c id : ℕ) (e : Executor) → ((set_parent_corr_id c id e).promises c).parent_corr_id ≡ id
set_parent-read c id e =
    ap
      (λ b.
        (if b then record (e.promises c) { parent_corr_id = id } else e.promises c).parent_corr_id)
      (eq_self c)

pub spawn-parent : (id c : ℕ) (e : Executor) → ((spawn id c e).promises c).parent_corr_id ≡ id
spawn-parent id c e =
    let h = set_parent-read c id e in
    spawn-elim (λ x. (x.promises c).parent_corr_id ≡ id) id c e (λ _. h) h

-- In every reachable state the id of a worker is that of the coroutine that it resumes.
pub worker-correlation_id :
    {n : ℕ} {e : Executor} (front : List Worker) (w : Worker) (back : List Worker) (d : ℕ)
    → Reachable n e
    → e.workers ≡ front ++ (w ∷ back)
    → w.stage ≡ resumes d
    → w.correlation_id ≡ (e.promises d).corr_id
worker-correlation_id {e = e} front w back d r at s =
    (All-middle (Ids e.promises) front back
        (subst (All (Ids e.promises)) at (Reachable-Tracked r))).0
      d s

-- A coroutine that is spawned from a worker gets the id of the coroutine that the worker resumes as
-- its parent's, in every reachable state.
pub spawn-inherits :
    {n : ℕ} {e : Executor} (front : List Worker) (w : Worker) (back : List Worker) (d c : ℕ)
    → Reachable n e
    → e.workers ≡ front ++ (w ∷ back)
    → w.stage ≡ resumes d
    → ((spawn w.correlation_id c e).promises c).parent_corr_id ≡ (e.promises d).corr_id
spawn-inherits {e = e} front w back d c r at s =
    spawn-parent w.correlation_id c e ∙ worker-correlation_id front w back d r at s
