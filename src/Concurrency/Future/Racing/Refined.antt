-- ===== src/Concurrency/Future/Racing/Refined.antt =====
-- `set_value` of include/concurrency/future.hpp with its statements between those of others, against
-- `set_value` as one step.
use toad_jawbreaker.Prelude.{
  ℕ, ◌≡◌, refl, if-elim, sym, ap, ◌∙◌, Bool, true, false, List, [], ◌∷◌, ◌++◌, none, some, returns,
  ◌>>=◌, >>=-eq-returns, returns-injective,
}
use mathlib.Core.Path.{subst}
use toad_jawbreaker.Concurrency.Future.{
  FutureState, set_value, await_ready, await_suspend, await_resume,
}
use toad_jawbreaker.Concurrency.Future.Racing.Early.{is_built, resumed-none, resumed-value}
use toad_jawbreaker.Concurrency.Future.History as History
use toad_jawbreaker.Concurrency.Future.History.{World, completes, awaits, step, run}
use toad_jawbreaker.Concurrency.Future.Racing.{
  Completer, calls, dropped, holds, marked, built, returned, has_lock, Race, answered,
  after_suspend, Awaiter, asked, suspended, RaceStep, drops, locks, marks, builds, spawns, asks,
  suspends, resumes, Raced, starts, goes_on,
}

module _ {ℓ} {T : Type ℓ} (v : T) where
  -- The state once `set_value` has done what it does after its exchange.
  abbrev pub completed : Completer → Race T → World T
  completed calls r = record { future = r.future; spawned = r.spawned; went_on = r.went_on }
  completed dropped r = record { future = r.future; spawned = r.spawned; went_on = r.went_on }
  completed (holds h) r = record { future = r.future; spawned = r.spawned; went_on = r.went_on }
  completed (marked h) r = record {
    future = record r.future { value = some v };
    spawned = h ∷ r.spawned;
    went_on = r.went_on;
  }
  completed (built h) r = record { future = r.future; spawned = h ∷ r.spawned; went_on = r.went_on }
  completed (returned h) r = record { future = r.future; spawned = r.spawned; went_on = r.went_on }

  -- The state is that of a history in which `set_value` and an await are one step each.
  pub record Refines (r : Race T) : Type ℓ where
    pub history : List (History.Step T)
    pub ran : run history History.start ≡ returns (completed r.completer r)
    pub found : (h : ℕ) → r.completer ≡ holds h → r.future.continuation ≡ some h
    pub unbuilt : is_built v r.completer ≡ false → r.future.value ≡ none

  run-append :
      (steps : List (History.Step T)) (st : History.Step T) (w w' : World T) {w'' : World T}
      → run steps w ≡ returns w'
      → step st w' ≡ returns w''
      → run (steps ++ (st ∷ [])) w ≡ returns w''
  unfolding run
  run-append [] st w w' {w''} h k =
      subst (λ x. (step st x >>= λ w₂. returns w₂) ≡ returns w'') (sym (returns-injective refl h))
        (ap (λ o. o >>= λ w₂. returns w₂) k)
  run-append (s ∷ steps) st w w' {w''} h k =
      let (w₁, first, later) = >>=-eq-returns (step s w) (λ w₂. run steps w₂) h in
      ap (λ o. o >>= λ w₂. run (steps ++ (st ∷ [])) w₂) first ∙ run-append steps st w₁ w' later k

  -- The steps of a history.
  awaits-ready :
      (c : ℕ) (w : World T)
      → w.future.is_ready ≡ true
      → step (awaits c) w ≡ returns (record w { went_on = c ∷ w.went_on })
  unfolding step await_ready await_suspend
  awaits-ready c w h = rw (step, await_ready, h) refl

  awaits-unready :
      (c : ℕ) (w : World T)
      → w.future.is_ready ≡ false
      → step (awaits c) w
        ≡ returns (record w { future = record w.future { continuation = some c } })
  unfolding step await_ready await_suspend
  awaits-unready c w h = rw (step, await_ready, await_suspend, h) refl

  completes-waiting :
      (h : ℕ) (w : World T)
      → w.future.is_ready ≡ false
      → w.future.continuation ≡ some h
      → step (completes v) w
        ≡ returns (record w {
          future = record w.future { value = some v; is_ready = true };
          spawned = h ∷ w.spawned;
        })
  unfolding step set_value
  completes-waiting h w n k = rw (step, set_value, k, n) (rw k refl)

  completes-alone : (w : World T) → w.future.continuation ≡ none → step (completes v) w ≡ returns w
  unfolding step set_value
  completes-alone w k = rw (step, set_value, k) (rw k refl)

  completed-is_ready :
      (x : Completer) (r : Race T) → (completed x r).future.is_ready ≡ r.future.is_ready
  completed-is_ready calls r = refl
  completed-is_ready dropped r = refl
  completed-is_ready (holds h) r = refl
  completed-is_ready (marked h) r = refl
  completed-is_ready (built h) r = refl
  completed-is_ready (returned h) r = refl

  completed-went_on :
      (x : Completer) (c : ℕ) (st : Awaiter) (r : Race T)
      → completed x (answered c true st r)
        ≡ record (completed x r) { went_on = c ∷ (completed x r).went_on }
  completed-went_on calls c st r = refl
  completed-went_on dropped c st r = refl
  completed-went_on (holds h) c st r = refl
  completed-went_on (marked h) c st r = refl
  completed-went_on (built h) c st r = refl
  completed-went_on (returned h) c st r = refl

  completed-asked :
      (x : Completer) (c : ℕ) (st : Awaiter) (r : Race T)
      → completed x (answered c false st r) ≡ completed x r
  completed-asked calls c st r = refl
  completed-asked dropped c st r = refl
  completed-asked (holds h) c st r = refl
  completed-asked (marked h) c st r = refl
  completed-asked (built h) c st r = refl
  completed-asked (returned h) c st r = refl

  completed-suspended :
      (x : Completer) (c : ℕ) (r : Race T)
      → has_lock x ≡ false
      → completed x (
          answered c false suspended
            (record r { future = record r.future { continuation = some c } }))
        ≡ record (completed x r) {
          future = record (completed x r).future { continuation = some c };
        }
  completed-suspended calls c r n = refl
  completed-suspended dropped c r n = refl
  completed-suspended (holds h) c r n = cc
  completed-suspended (marked h) c r n = cc
  completed-suspended (built h) c r n = cc
  completed-suspended (returned h) c r n = refl

  went_on-Refines :
      (c : ℕ) (st : Awaiter) (r : Race T)
      → r.future.is_ready ≡ true
      → Refines r
      → Refines (answered c true st r)
  went_on-Refines c st r e i = record {
    history = i.history ++ (awaits c ∷ []);
    ran =
        run-append i.history (awaits c) History.start (completed r.completer r) i.ran
          (awaits-ready c (completed r.completer r) (completed-is_ready r.completer r ∙ e))
        ∙ ap returns (sym (completed-went_on r.completer c st r));
    found = i.found;
    unbuilt = i.unbuilt;
  }

  asks-Refines :
      (c : ℕ) (r : Race T) (b : Bool)
      → r.future.is_ready ≡ b
      → Refines r
      → Refines (answered c b asked r)
  asks-Refines c r true e i = went_on-Refines c asked r e i
  asks-Refines c r false e i = record {
    history = i.history;
    ran = i.ran ∙ ap returns (sym (completed-asked r.completer c asked r));
    found = i.found;
    unbuilt = i.unbuilt;
  }

  suspends-Refines :
      (c : ℕ) (r : Race T)
      → has_lock r.completer ≡ false
      → Refines r
      → Refines (after_suspend c (await_suspend c r.future) r)
  unfolding await_suspend
  suspends-Refines c r n i =
      if-elim (λ a. Refines (after_suspend c a r)) r.future.is_ready (false, r.future)
        (true, record r.future { continuation = some c }) (λ e. went_on-Refines c suspended r e i)
        λ e. record {
          history = i.history ++ (awaits c ∷ []);
          ran =
              run-append i.history (awaits c) History.start (completed r.completer r) i.ran
                (awaits-unready c (completed r.completer r) (completed-is_ready r.completer r ∙ e))
              ∙ ap returns (sym (completed-suspended r.completer c r n));
          found = λ h k. absurd (locked h (sym (ap has_lock k) ∙ n));
          unbuilt = i.unbuilt;
        }
    where
      locked : (h : ℕ) → has_lock (holds h) ≡ false → ⊥
      locked h e = cc

  -- The call of `set_value` proceeds, and the state that is foreseen stays.
  at-Refines :
      (x y : Completer) (r r' : Race T)
      → r.completer ≡ x
      → r'.completer ≡ y
      → completed x r ≡ completed y r'
      → ((h : ℕ) → y ≡ holds h → r'.future.continuation ≡ some h)
      → (is_built v y ≡ false → r'.future.value ≡ none)
      → Refines r
      → Refines r'
  at-Refines x y r r' p q e found unbuilt i = record {
    history = i.history;
    ran = i.ran ∙ ap returns (ap (λ z. completed z r) p ∙ e ∙ ap (λ z. completed z r') (sym q));
    found = λ h k. found h (sym q ∙ k);
    unbuilt = λ k. unbuilt (sym (ap (is_built v) q) ∙ k);
  }

  -- What is resumed with a value is resumed with it in the history.
  resumes-step :
      (w : World T) (u : T) (s' : FutureState T)
      → await_resume w.future ≡ returns (u, s')
      → step History.resumes w ≡ returns (record w { future = s' })
  unfolding step
  resumes-step w u s' e = rw (step, e) refl

  resumes-Refines :
      (c : ℕ) (r : Race T) (x : Completer)
      → r.completer ≡ x
      → (u : T) (s' : FutureState T) → await_resume r.future ≡ returns (u, s')
      → Refines r
      → Refines (record r { future = s'; resumed = c ∷ r.resumed })
  resumes-Refines c r calls p u s' e i =
      absurd (resumed-none v s' u r.future (i.unbuilt (ap (is_built v) p)) e)
  resumes-Refines c r dropped p u s' e i =
      absurd (resumed-none v s' u r.future (i.unbuilt (ap (is_built v) p)) e)
  resumes-Refines c r (holds h) p u s' e i =
      absurd (resumed-none v s' u r.future (i.unbuilt (ap (is_built v) p)) e)
  resumes-Refines c r (marked h) p u s' e i =
      absurd (resumed-none v s' u r.future (i.unbuilt (ap (is_built v) p)) e)
  resumes-Refines c r (built h) p u s' e i = record {
    history = i.history ++ (History.resumes ∷ []);
    ran =
        run-append i.history History.resumes History.start (completed r.completer r) i.ran
          (rw p (resumes-step (completed (built h) r) u s' e))
        ∙ ap (λ z. returns (completed z (record r { future = s'; resumed = c ∷ r.resumed })))
            (sym p);
    found = λ h' k. absurd (other h' (sym p ∙ k));
    unbuilt = λ k. resumed-value v u r.future s' e;
  }
    where
      other : (h' : ℕ) → built h ≡ holds h' → ⊥
      other h' k = cc
  resumes-Refines c r (returned h) p u s' e i = record {
    history = i.history ++ (History.resumes ∷ []);
    ran =
        run-append i.history History.resumes History.start (completed r.completer r) i.ran
          (rw p (resumes-step (completed (returned h) r) u s' e))
        ∙ ap (λ z. returns (completed z (record r { future = s'; resumed = c ∷ r.resumed })))
            (sym p);
    found = λ h' k. absurd (other h' (sym p ∙ k));
    unbuilt = λ k. resumed-value v u r.future s' e;
  }
    where
      other : (h' : ℕ) → returned h ≡ holds h' → ⊥
      other h' k = cc

  step-Refines : {r r' : Race T} → RaceStep v r r' → Refines r → Refines r'
  step-Refines (drops {r} p k) i = record {
    history = i.history ++ (completes v ∷ []);
    ran =
        run-append i.history (completes v) History.start (completed r.completer r) i.ran
          (rw p (completes-alone (completed calls r) k));
    found = λ h e. cc;
    unbuilt = λ k'. i.unbuilt (ap (is_built v) p);
  }
  step-Refines (locks {r} h p k) i =
      at-Refines calls (holds h) r (record r { completer = holds h }) p refl refl (λ h' e. cc)
        (λ k'. i.unbuilt (ap (is_built v) p)) i
  step-Refines (marks {r} h p n) i = record {
    history = i.history ++ (completes v ∷ []);
    ran =
        run-append i.history (completes v) History.start (completed r.completer r) i.ran
          (rw p (completes-waiting h (completed (holds h) r) n (i.found h p)));
    found = λ h' e. cc;
    unbuilt = λ k'. i.unbuilt (ap (is_built v) p);
  }
  step-Refines (builds {r} h p) i =
      at-Refines (marked h) (built h) r
        (record r { future = record r.future { value = some v }; completer = built h }) p refl refl
        (λ h' e. cc) (λ k'. cc) i
  step-Refines (spawns {r} h p) i =
      at-Refines (built h) (returned h) r
        (record r { completer = returned h; spawned = h ∷ r.spawned }) p refl refl (λ h' e. cc)
        (λ k'. cc) i
  step-Refines (asks {r} c a) i =
      asks-Refines c r (await_ready r.future) (unfold await_ready in refl) i
  step-Refines (suspends {r} c a n) i = suspends-Refines c r n i
  step-Refines (resumes {r} c u s' woken e) i = resumes-Refines c r r.completer refl u s' e i

  Raced-Refines : {r : Race T} → Raced v r → Refines r
  unfolding run
  Raced-Refines starts = record { history = []; ran = refl; found = λ h e. cc; unbuilt = λ e. refl }
  Raced-Refines (goes_on q st) = step-Refines st (Raced-Refines q)

  -- However the statements of a call of `set_value` fall between what coroutines do, resumptions included,
  -- as long as no `await_resume` aborts for want of a value: the state is, but for what the call has still to
  -- do after its exchange, that of a history in which the call, each await and each resumption are one step.
  pub race-refines :
      {r : Race T}
      → Raced v r
      → (steps : List (History.Step T)) × (run steps History.start
          ≡ returns (completed r.completer r))
  race-refines q = let i = Raced-Refines q in (i.history, i.ran)
