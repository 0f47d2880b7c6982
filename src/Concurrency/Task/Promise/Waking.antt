-- ===== src/Concurrency/Task/Promise/Waking.antt =====
-- What the end of a coroutine of include/concurrency/task.hpp does to those that await it.
use toad_jawbreaker.Prelude.{
  if-elim, ℕ, ◌≡◌, refl, sym, ap, ◌∙◌, List, [], ◌∷◌, ◌++◌, map, append_assoc, append-nil, All,
  All-map, false, ◌==◌,
}
use toad_jawbreaker.Concurrency.Executor.{Promise, Executor, spawn, update}
use toad_jawbreaker.Concurrency.Executor.Cases.{spawn-elim}
use toad_jawbreaker.Concurrency.Executor.Correlation.{spawn-parent}
use toad_jawbreaker.Concurrency.Task.Promise.{spawn_each}

update-done :
    (c d id : ℕ) (promises : ℕ → Promise)
    → (update c (λ p. record p { parent_corr_id = id }) promises d).done ≡ (promises d).done
update-done c d id promises =
    if-elim (λ p. p.done ≡ (promises d).done) (d == c) (record (promises d) { parent_corr_id = id })
      (promises d) (λ _. refl) λ _. refl

pub spawn-done :
    (id c d : ℕ) (e : Executor) → ((spawn id c e).promises d).done ≡ (e.promises d).done
spawn-done id c d e =
    let h = update-done c d id e.promises in
    spawn-elim (λ e'. (e'.promises d).done ≡ (e.promises d).done) id c e (λ _. h) h

-- A coroutine that is not done goes to the end of the queue.
pub spawn-queue :
    (id c : ℕ) (e : Executor)
    → (e.promises c).done ≡ false
    → (spawn id c e).queue ≡ e.queue ++ (c ∷ [])
spawn-queue id c e h =
    spawn-elim (λ e'. e'.queue ≡ e.queue ++ (c ∷ [])) id c e
      (λ k. cc (k, update-done c c id e.promises, h)) refl

pub spawn_each-queue :
    (continuation : ℕ → ℕ) (id : ℕ) (l : List ℕ) (e : Executor)
    → All (λ a. (e.promises (continuation a)).done ≡ false) l
    → (spawn_each continuation id l e).queue ≡ e.queue ++ map continuation l
spawn_each-queue continuation id [] e h = sym (append-nil e.queue)
spawn_each-queue continuation id (a ∷ l) e (h, hs) =
    let e' = spawn id (continuation a) e in
    spawn_each-queue continuation id l e' (
      All-map (λ b. (e.promises (continuation b)).done ≡ false)
        (λ b. (e'.promises (continuation b)).done ≡ false)
        (λ b k. spawn-done id (continuation a) (continuation b) e ∙ k) l hs)
    ∙ ap (λ q. q ++ map continuation l) (spawn-queue id (continuation a) e h)
    ∙ append_assoc e.queue (continuation a ∷ []) (map continuation l)

pub spawn-destroyed :
    (id c : ℕ) (e : Executor) → (e.promises c).done ≡ false → (spawn id c e).destroyed ≡ e.destroyed
spawn-destroyed id c e h =
    spawn-elim (λ e'. e'.destroyed ≡ e.destroyed) id c e
      (λ k. cc (k, update-done c c id e.promises, h)) refl

pub spawn_each-destroyed :
    (continuation : ℕ → ℕ) (id : ℕ) (l : List ℕ) (e : Executor)
    → All (λ a. (e.promises (continuation a)).done ≡ false) l
    → (spawn_each continuation id l e).destroyed ≡ e.destroyed
spawn_each-destroyed continuation id [] e h = refl
spawn_each-destroyed continuation id (a ∷ l) e (h, hs) =
    let e' = spawn id (continuation a) e in
    spawn_each-destroyed continuation id l e' (
      All-map (λ b. (e.promises (continuation b)).done ≡ false)
        (λ b. (e'.promises (continuation b)).done ≡ false)
        (λ b k. spawn-done id (continuation a) (continuation b) e ∙ k) l hs)
    ∙ spawn-destroyed id (continuation a) e h

-- A parent's id stays if what is spawned gets the same one.
spawn-keeps_parent :
    (id c d : ℕ) (e : Executor)
    → (e.promises d).parent_corr_id ≡ id
    → ((spawn id c e).promises d).parent_corr_id ≡ id
spawn-keeps_parent id c d e h =
    let k =
      if-elim (λ p. p.parent_corr_id ≡ id) (d == c) (record (e.promises d) { parent_corr_id = id })
        (e.promises d) (λ _. refl) (λ _. h) in
    spawn-elim (λ e'. (e'.promises d).parent_corr_id ≡ id) id c e (λ _. k) k

spawn_each-keeps_parent :
    (continuation : ℕ → ℕ) (id : ℕ) (l : List ℕ) (d : ℕ) (e : Executor)
    → (e.promises d).parent_corr_id ≡ id
    → ((spawn_each continuation id l e).promises d).parent_corr_id ≡ id
spawn_each-keeps_parent continuation id [] d e h = h
spawn_each-keeps_parent continuation id (a ∷ l) d e h =
    spawn_each-keeps_parent continuation id l d (spawn id (continuation a) e)
      (spawn-keeps_parent id (continuation a) d e h)

pub spawn_each-parent :
    (continuation : ℕ → ℕ) (id : ℕ) (l : List ℕ) (e : Executor)
    → All (λ a. ((spawn_each continuation id l e).promises (continuation a)).parent_corr_id ≡ id) l
spawn_each-parent continuation id [] e = tt
spawn_each-parent continuation id (a ∷ l) e =
    let e' = spawn id (continuation a) e in
    (
      spawn_each-keeps_parent continuation id l (continuation a) e'
          (spawn-parent id (continuation a) e),
      spawn_each-parent continuation id l e',
    )
