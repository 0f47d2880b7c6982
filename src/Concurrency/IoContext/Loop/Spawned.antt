-- ===== src/Concurrency/IoContext/Loop/Spawned.antt =====
-- How many coroutines the completions of include/concurrency/iocontext.hpp spawn.
use toad_jawbreaker.Prelude.{
  store, ℕ, ◌+◌, ◌≡◌, ◌≤◌, refl, ap, Bool, true, false, if-elim, List, [], ◌∷◌, ◌++◌, Option, none,
  some, Outcome, returns, ◌>>=◌, >>=-eq-returns, returns-injective, length, length-append, arith,
}
use mathlib.Core.Path.{subst}
use toad_jawbreaker.Prelude.Int.{ℤ, is_negative, equals}
use toad_jawbreaker.Prelude.Bits.{sz}
use toad_jawbreaker.Concurrency.Future.{FutureState, set_value}
use toad_jawbreaker.Concurrency.IoContext.{
  PendingConnect, PendingReadSomeVec, to_sz, resize, econnreset, handle_connect, handle_listen,
  handle_read_some, handle_read_some_vec,
}
use toad_jawbreaker.Concurrency.IoContext.Loop.{
  PendingVariant, read_some, listen, connect, write_some, read_some_vec, Loop, Completion,
  spawn_all, handle_pending, complete_with, complete, batch,
}

module _ {T : Type 0} where
  set_value_few :
      (v : T) (value : Option T) (is_ready : Bool) (continuation : Option ℕ)
      (r : Option (FutureState T) × List ℕ)
      → set_value v
          (some (record { value = value; is_ready = is_ready; continuation = continuation }))
        ≡ returns r
      → length r.1 ≤ 1
  unfolding set_value
  set_value_few v value is_ready none r e =
      subst (λ x. length x.1 ≤ 1) (returns-injective refl e) (omega arith)
  set_value_few v value true (some h) r e = cc
  set_value_few v value false (some h) r e =
      subst (λ x. length x.1 ≤ 1) (returns-injective refl e) (omega arith)

  set_value-length :
      (v : T) (o : Option (FutureState T)) (r : Option (FutureState T) × List ℕ)
      → set_value v o ≡ returns r
      → length r.1 ≤ 1
  unfolding set_value
  set_value-length v none r e = subst (λ x. length x.1 ≤ 1) (returns-injective refl e) (omega arith)
  set_value-length v (some s) r e = set_value_few v s.value s.is_ready s.continuation r e

-- So many more coroutines were spawned.
abbrev Spawns : ℕ → Loop → Loop → Type 0
Spawns n w w' = length w'.spawned ≤ length w.spawned + n

mapped-Spawns {ℓ} :
    {A : Type ℓ} (m : Outcome A) (l : A → List ℕ) (f : A → Loop) (w w' : Loop)
    → ((r : A) → (f r).spawned ≡ w.spawned ++ l r)
    → ((r : A) → m ≡ returns r → length (l r) ≤ 1)
    → (m >>= λ r. returns (f r)) ≡ returns w'
    → Spawns 1 w w'
mapped-Spawns m l f w w' adds few e =
    let (r, first, last) = >>=-eq-returns m (λ r. returns (f r)) e in
    omega (
      arith,
      ap (λ x. length x.spawned) (returns-injective last refl),
      ap length (adds r),
      length-append w.spawned (l r),
      few r first,
    )

handle_connect_few :
    (res : ℤ) (p : PendingConnect) (r : Option (FutureState (Option ℕ)) × List ℕ)
    → handle_connect res p ≡ returns r
    → length r.1 ≤ 1
unfolding handle_connect
handle_connect_few res p r =
    if-elim (λ x. x ≡ returns r → length r.1 ≤ 1) (is_negative res) (set_value none p.handle)
      (set_value (some p.sockfd) p.handle) (λ _ e. set_value-length none p.handle r e)
      λ _ e. set_value-length (some p.sockfd) p.handle r e

handle_read_some_vec_few :
    (res : ℤ) (p : PendingReadSomeVec) (vec : List ℕ) (r : List ℕ × Option (FutureState ℕ) × List ℕ)
    → handle_read_some_vec res p vec ≡ returns r
    → length r.2 ≤ 1
unfolding handle_read_some_vec
handle_read_some_vec_few res p vec r =
    if-elim (λ x. x ≡ returns r → length r.2 ≤ 1) (equals res econnreset)
      (returns (vec, p.handle, [])) _
      (λ _ e. subst (λ x. length x.2 ≤ 1) (returns-injective refl e) (omega arith))
      λ _ e.
        let (vec', resized, then_set) =
          >>=-eq-returns (resize (sz (p.initial_size + to_sz res)) vec)
            (λ vec'. set_value (to_sz res) p.handle >>= λ t. returns (vec', t.0, t.1)) e in
        let (t, set, last) =
          >>=-eq-returns (set_value (to_sz res) p.handle) (λ t. returns (vec', t.0, t.1))
            then_set in
        subst (λ x. length x.2 ≤ 1) (returns-injective refl last)
          (set_value-length (to_sz res) p.handle t set)

handle_pending-Spawns :
    (res : ℤ) (p : PendingVariant) (w w' : Loop)
    → handle_pending res p w ≡ returns w'
    → Spawns 1 w w'
unfolding handle_pending handle_listen handle_read_some
handle_pending-Spawns res (read_some p) w w' e =
    mapped-Spawns (handle_read_some res p) (λ r. r.1) (λ r. spawn_all r.1 w) w w' (λ r. refl)
      (λ r q. set_value-length _ p.handle r q) e
handle_pending-Spawns res (listen p) w w' e =
    mapped-Spawns (handle_listen res p) (λ r. r.1) (λ r. spawn_all r.1 w) w w' (λ r. refl)
      (λ r q. set_value-length res p.handle r q) e
handle_pending-Spawns res (connect p) w w' e =
    mapped-Spawns (handle_connect res p) (λ r. r.1) (λ r. spawn_all r.1 w) w w' (λ r. refl)
      (λ r q. handle_connect_few res p r q) e
handle_pending-Spawns res (write_some p) w w' e =
    omega (arith, ap (λ x. length x.spawned) (returns-injective e refl))
handle_pending-Spawns res (read_some_vec p v) w w' e =
    mapped-Spawns (handle_read_some_vec res p (w.vectors v)) (λ r. r.2)
      (λ r. spawn_all r.2 (record w { vectors = store v r.0 w.vectors })) w w' (λ r. refl)
      (λ r q. handle_read_some_vec_few res p (w.vectors v) r q) e

complete_with-Spawns :
    (o : Option PendingVariant) (c : Completion) (w w' : Loop)
    → complete_with o c w ≡ returns w'
    → Spawns 1 w w'
complete_with-Spawns none c w w' e = cc
complete_with-Spawns (some p) c w w' e =
    let (w₁, first, last) =
      >>=-eq-returns (handle_pending c.res p w)
        (λ x. returns (record x { heap = store c.user_data none x.heap })) e in
    omega (
      arith,
      handle_pending-Spawns c.res p w w₁ first,
      ap (λ x. length x.spawned) (returns-injective last refl),
    )

-- A batch spawns at most one coroutine for each completion.
pub batch-Spawns :
    (cs : List Completion) (w w' : Loop)
    → batch cs w ≡ returns w'
    → length w'.spawned ≤ length w.spawned + length cs
unfolding batch
batch-Spawns [] w w' e = omega (arith, ap (λ x. length x.spawned) (returns-injective e refl))
batch-Spawns (c ∷ cs) w w' e =
    let (w₁, first, last) = >>=-eq-returns (complete c w) (λ x. batch cs x) e in
    omega
      (arith, batch-Spawns cs w₁ w' last, complete_with-Spawns (w.heap c.user_data) c w w₁ first)
