-- ===== src/Concurrency/Future/Handles/Owned.antt =====
-- How long the state of a future of include/concurrency/future.hpp is there.
use toad_jawbreaker.Prelude.{
  store, ℕ, ◌≡◌, ◌≢◌, ◌≤◌, ◌<◌, refl, sym, ap, ◌∙◌, Bool, true, false, if-elim, ◌==◌, List, [], ◌∷◌,
  ◌++◌, Option, none, some, returns, aborts, ◌>>=◌, >>=-eq-returns, >>=-assoc, returns-injective,
  get_or, set, length, arith, eq→≡, eq_false→≢,
}
use mathlib.Core.Path.{subst}
use toad_jawbreaker.Net.Ownership.Conserved.{holds, times_held, times_held-append, times_held-set}
use toad_jawbreaker.Concurrency.Future.{
  FutureState, new_state, set_value, await_suspend, await_resume,
}
use toad_jawbreaker.Concurrency.Future.Handles.{
  Futures, make_future, future_move_construct, find, replace, release, suspend_at, resume_at,
  Operation, makes, moves, assigns, ends, copies_handle, assigns_handle, ends_handle, sets,
  suspends, resumes, apply, IsPlaced, Reachable, starts, goes_on,
}

holds_same : (d c : ℕ) → d ≡ c → holds d (some c) ≡ 1
holds_same d c e = ground arith

holds_other : (d c : ℕ) → d ≢ c → holds d (some c) ≡ 0
holds_other d c e = ground arith

module _ {T : Type 0} where
  abbrev pub there : Option (FutureState T) → ℕ
  there none = 0
  there (some s) = 1

  -- Each state that is there is held once, and the numbers from `next` on are not in use.
  record Owned (w : Futures T) : Type 0 where
    held : (a : ℕ) → times_held a w.futures ≡ there (w.states a)
    fresh : (a : ℕ) → w.next ≤ a → there (w.states a) ≡ 0

  there-bound : (s : Option (FutureState T)) → there s ≤ 1
  there-bound none = omega arith
  there-bound (some s) = omega arith

  -- The state that a pointer shows is replaced by another one.
  replace-Owned :
      (pointer : Option ℕ) (s : Option (FutureState T)) (w : Futures T)
      → there s ≡ there (find pointer w)
      → Owned w
      → Owned (replace pointer s w)
  replace-Owned none s w e h = h
  replace-Owned (some a) s w e h =
      let same : (b : ℕ) → there (store a s w.states b) ≡ there (w.states b) = λ b.
        if-elim (λ x. there x ≡ there (w.states b)) (b == a) s (w.states b)
          (λ q. e ∙ ap (λ c. there (w.states c)) (sym (eq→≡ b a q))) λ q. refl in
      record { held = λ b. h.held b ∙ sym (same b); fresh = λ b l. same b ∙ h.fresh b l }

  make-Owned : (w : Futures T) → Owned w → Owned (make_future w)
  make-Owned w h = record {
    held = λ d.
        let more = times_held-append d w.futures (some w.next ∷ []) in
        if-elim (λ x. times_held d (make_future w).futures ≡ there x) (d == w.next) (some new_state)
          (w.states d)
          (λ q.
            let e = eq→≡ d w.next q in
            omega (arith, more, holds_same d w.next e, h.held d, h.fresh d (omega (arith, e))))
          λ q. omega (arith, more, holds_other d w.next (eq_false→≢ d w.next q), h.held d);
    fresh = λ d l.
        if-elim (λ x. there x ≡ 0) (d == w.next) (some new_state) (w.states d)
          (λ q. absurd (omega (arith, l, eq→≡ d w.next q))) λ q. h.fresh d (omega (arith, l));
  }

  move-Owned :
      (other : ℕ) (w : Futures T)
      → other < length w.futures
      → Owned w
      → Owned (future_move_construct other w)
  move-Owned other w l h = record {
    held = λ d. omega (
      arith,
      h.held d,
      times_held-append d (set w.futures other none) (get_or w.futures other none ∷ []),
      times_held-set d w.futures other none l,
    );
    fresh = h.fresh;
  }

  -- The future at a place ends, and the state that it held is gone.
  destruct-Owned :
      (this : ℕ) (pointer : Option ℕ) (w : Futures T)
      → get_or w.futures this none ≡ pointer
      → this < length w.futures
      → Owned w
      → Owned (record (replace pointer none w) { futures = set w.futures this none })
  destruct-Owned this none w e l h = record {
    held = λ d. omega (arith, h.held d, times_held-set d w.futures this none l, ap (holds d) e);
    fresh = h.fresh;
  }
  destruct-Owned this (some a) w e l h = record {
    held = λ d.
        let less = times_held-set d w.futures this none l in
        if-elim (λ x. times_held d (set w.futures this none) ≡ there x) (d == a) none (w.states d)
          (λ q. omega (
            arith,
            less,
            ap (holds d) e,
            holds_same d a (eq→≡ d a q),
            h.held d,
            there-bound (w.states d),
          ))
          λ q. omega (arith, less, ap (holds d) e, holds_other d a (eq_false→≢ d a q), h.held d);
    fresh =
        λ d l. if-elim (λ x. there x ≡ 0) (d == a) none (w.states d) (λ q. refl) λ q. h.fresh d l;
  }

  there-completed :
      (v : T) (value : Option T) (is_ready : Bool) (continuation : Option ℕ)
      (s : Option (FutureState T)) (l : List ℕ)
      → set_value v
          (some (record { value = value; is_ready = is_ready; continuation = continuation }))
        ≡ returns (s, l)
      → there s ≡ 1
  unfolding set_value
  there-completed v value is_ready none s l e = sym (ap (λ x. there x.0) (returns-injective refl e))
  there-completed v value true (some h) s l e = cc
  there-completed v value false (some h) s l e =
      sym (ap (λ x. there x.0) (returns-injective refl e))

  set_value-there :
      (v : T) (o s : Option (FutureState T)) (l : List ℕ)
      → set_value v o ≡ returns (s, l)
      → there s ≡ there o
  unfolding set_value
  set_value-there v none s l e = sym (ap (λ x. there x.0) (returns-injective refl e))
  set_value-there v (some o) s l e = there-completed v o.value o.is_ready o.continuation s l e

  suspend-Owned :
      (pointer : Option ℕ) (h : ℕ) (o : Option (FutureState T)) (w w' : Futures T)
      → find pointer w ≡ o
      → (suspend_at pointer h w o >>= λ r. returns r.1) ≡ returns w'
      → Owned w
      → Owned w'
  suspend-Owned pointer h none w w' f e k = cc
  suspend-Owned pointer h (some s) w w' f e k =
      subst Owned (returns-injective refl e)
        (replace-Owned pointer (some (await_suspend h s).1) w (sym (ap there f)) k)

  resume-Owned :
      (pointer : Option ℕ) (o : Option (FutureState T)) (w w' : Futures T)
      → find pointer w ≡ o
      → (resume_at pointer w o >>= λ r. returns r.1) ≡ returns w'
      → Owned w
      → Owned w'
  resume-Owned pointer none w w' f e k = cc
  resume-Owned pointer (some s) w w' f e k =
      let (r, first, later) =
        >>=-eq-returns (await_resume s) (λ r. returns (replace pointer (some r.1) w))
          (sym (
              >>=-assoc (await_resume s) (λ r. returns (r.0, replace pointer (some r.1) w))
                (λ r. returns r.1))
            ∙ e) in
      subst Owned (returns-injective refl later)
        (replace-Owned pointer (some r.1) w (sym (ap there f)) k)

  apply-Owned :
      (op : Operation T) (w w' : Futures T)
      → IsPlaced op (length w.futures)
      → apply op w ≡ returns w'
      → Owned w
      → Owned w'
  apply-Owned makes w w' p e h = subst Owned (returns-injective refl e) (make-Owned w h)
  apply-Owned (moves other) w w' p e h =
      subst Owned (returns-injective refl e) (move-Owned other w p h)
  apply-Owned (assigns this other) w w' p e h =
      if-elim (λ x. x ≡ returns w' → Owned w') (this == other) (returns w) aborts
        (λ q e'. subst Owned (returns-injective refl e') h) (λ q e'. cc) e
  apply-Owned (ends this) w w' p e h =
      let held = get_or w.futures this none in
      let (t, first, later) =
        >>=-eq-returns (release (find held w))
          (λ t. returns (record (replace held none w) { futures = set w.futures this none })) e in
      subst Owned (returns-injective refl later) (destruct-Owned this held w refl p h)
  apply-Owned (copies_handle other) w w' p e h =
      subst Owned (returns-injective refl e) (record { held = h.held; fresh = h.fresh })
  apply-Owned (assigns_handle this other) w w' p e h =
      subst Owned (returns-injective refl e) (record { held = h.held; fresh = h.fresh })
  apply-Owned (ends_handle this) w w' p e h =
      subst Owned (returns-injective refl e) (record { held = h.held; fresh = h.fresh })
  apply-Owned (sets this v) w w' p e h =
      let pointer = get_or w.handles this none in
      let (r, first, later) =
        >>=-eq-returns (set_value v (find pointer w))
          (λ r. returns (record (replace pointer r.0 w) { spawned = w.spawned ++ r.1 })) e in
      let k = replace-Owned pointer r.0 w (set_value-there v (find pointer w) r.0 r.1 first) h in
      subst Owned (returns-injective refl later) (record { held = k.held; fresh = k.fresh })
  apply-Owned (suspends this c) w w' p e h =
      suspend-Owned (get_or w.futures this none) c _ w w' refl e h
  apply-Owned (resumes this) w w' p e h = resume-Owned (get_or w.futures this none) _ w w' refl e h

  Reachable-Owned : {w : Futures T} → Reachable w → Owned w
  Reachable-Owned starts = record { held = λ a. refl; fresh = λ a l. refl }
  Reachable-Owned (goes_on {w} {w'} op r p e) = apply-Owned op w w' p e (Reachable-Owned r)

  -- In every history of futures and handles that does not abort, the state that they share is there as
  -- long as exactly one future holds it, so that a handle finds it only then.
  pub state_owned :
      {w : Futures T} → Reachable w → (a : ℕ) → times_held a w.futures ≡ there (w.states a)
  state_owned r = (Reachable-Owned r).held
