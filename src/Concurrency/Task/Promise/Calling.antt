-- ===== src/Concurrency/Task/Promise/Calling.antt =====
-- A coroutine function of include/concurrency/task.hpp that is called and given to the executor.
use toad_jawbreaker.Prelude.{
  store_self, if-elim, ℕ, ◌≡◌, refl, ap, ◌∙◌, [], ◌∷◌, ◌++◌, false, ◌==◌, arith,
}
use toad_jawbreaker.Concurrency.Executor.{Promise, Executor, spawn, update}
use toad_jawbreaker.Concurrency.Executor.Cases.{spawn-elim}
use toad_jawbreaker.Concurrency.Executor.Shutdown.{spawn-workers}
use toad_jawbreaker.Concurrency.Task.{Tasks}
use toad_jawbreaker.Concurrency.Task.Promise.{new_promise, call, set_corr_id}
use toad_jawbreaker.Concurrency.Task.Promise.Waking.{spawn-queue, spawn-destroyed}

update_self :
    (c : ℕ) (f : Promise → Promise) (promises : ℕ → Promise)
    → update c f promises c ≡ f (promises c)
update_self c f promises =
    if-elim (λ p. p ≡ f (promises c)) (c == c) (f (promises c)) (promises c) (λ _. refl)
      λ h. absurd (ground arith)

spawn-promise :
    (id c : ℕ) (e : Executor)
    → (spawn id c e).promises c ≡ record (e.promises c) { parent_corr_id = id }
spawn-promise id c e =
    let h = update_self c (λ p. record p { parent_corr_id = id }) e.promises in
    spawn-elim (λ x. x.promises c ≡ record (e.promises c) { parent_corr_id = id }) id c e (λ _. h) h

-- Nothing of a coroutine runs when its function is called and its task spawned: the coroutine is at the
-- end of the queue, with the spawner's id as its parent's and the random number, or what
-- `set_corr_id` gives, as its own, and no worker has anything to do with it.
pub call_lem :
    (id c random own : ℕ) (e : Executor) (t : Tasks)
    → let called = (call c random e t).0 in
      let e' = spawn id c called in
      let e'' = spawn id c (set_corr_id c own called) in
      (e'.queue ≡ e.queue ++ (c ∷ []))
      × (e'.workers ≡ e.workers)
      × (e'.destroyed ≡ e.destroyed)
      × (e'.promises c ≡ record { parent_corr_id = id; corr_id = random; done = false })
      × (e''.promises c ≡ record { parent_corr_id = id; corr_id = own; done = false })
unfolding call
call_lem id c random own e t =
    let called : Executor = (call c random e t).0 in
    let fresh : called.promises c ≡ new_promise random =
      store_self c (new_promise random) e.promises in
    let running : (called.promises c).done ≡ false = ap (λ p. p.done) fresh in
    (
      spawn-queue id c called running,
      spawn-workers id c called,
      spawn-destroyed id c called running,
      spawn-promise id c called
          ∙ ap {B = Promise} (λ (p : Promise). record p { parent_corr_id = id }) fresh,
      spawn-promise id c (set_corr_id c own called)
          ∙ ap {B = Promise} (λ (p : Promise). record p { parent_corr_id = id })
              (update_self c (λ p. record p { corr_id = own }) called.promises
                ∙ ap {B = Promise} (λ (p : Promise). record p { corr_id = own }) fresh),
    )
