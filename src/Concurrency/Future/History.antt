-- ===== src/Concurrency/Future/History.antt =====
-- The sequences of steps on one future of include/concurrency/future.hpp.
use toad_jawbreaker.Prelude.{
  ℕ, ◌≡◌, refl, sym, map, Bool, true, false, List, [], ◌∷◌, ◌++◌, none, some, Outcome, returns,
  aborts, ◌>>=◌, >>=-eq-returns, returns-injective, if◌then◌else◌,
}
use mathlib.Core.Path.{subst}
use toad_jawbreaker.Concurrency.Future.{
  FutureState, new_state, set_value, await_ready, await_suspend, await_resume, destroy,
}

-- One thread completes the operation; another awaits the future: it goes on at once if
-- `await_ready` says so, and else calls `await_suspend`. Then a coroutine that goes on or was spawned takes
-- the value by `await_resume`.
pub data Step {ℓ} (T : Type ℓ) : Type ℓ where
  completes : T → Step T
  awaits : ℕ → Step T
  resumes : Step T

-- The future, the coroutines that were spawned, and those that went on without suspending.
pub record World {ℓ} (T : Type ℓ) : Type ℓ where
  pub future : FutureState T
  pub spawned : List ℕ
  pub went_on : List ℕ

false-ne-true : ◌≡◌ {A = Bool} false true → ⊥
false-ne-true h = cc

module _ {ℓ} {T : Type ℓ} where
  abbrev pub start : World T
  start = record { future = new_state; spawned = []; went_on = [] }

  abbrev proceed : ℕ → World T → World T
  proceed handle w = record w { went_on = handle ∷ w.went_on }

  unfoldable pub step : Step T → World T → Outcome (World T)
  step (completes v) w = elim (set_value v (some w.future)) [
    | aborts ↦ aborts
    | returns (none, l) ↦ returns w
    | returns (some s, l) ↦ returns (record w { future = s; spawned = l ++ w.spawned })
  ]
  step (awaits handle) w =
      if await_ready w.future
      then returns (proceed handle w)
      else (let (suspended, s) = await_suspend handle w.future in
          if suspended
          then returns (record w { future = s })
          else returns (proceed handle (record w { future = s })))
  step resumes w = await_resume w.future >>= λ (v, s). returns (record w { future = s })

  unfoldable pub run : List (Step T) → World T → Outcome (World T)
  run [] w = returns w
  run (st ∷ steps) w = step st w >>= λ w'. run steps w'

  -- No coroutine waits: whatever was completed is lost. One waits, and nothing was delivered. The
  -- value is there, and the coroutine that waited, and no other, was spawned, once. The value was taken.
  pub data Inv : World T → Type ℓ where
    fresh : Inv start
    waiting : (h : ℕ) → Inv (record start { future = record new_state { continuation = some h } })
    done :
        (v : T) (h : ℕ) (went_on : List ℕ)
        → Inv (record {
          future = record { value = some v; is_ready = true; continuation = some h };
          spawned = h ∷ [];
          went_on = went_on;
        })
    taken :
        (h : ℕ) (went_on : List ℕ)
        → Inv (record {
          future = record { value = none; is_ready = true; continuation = some h };
          spawned = h ∷ [];
          went_on = went_on;
        })

  step-Inv : {w : World T} → Inv w → (st : Step T) (w' : World T) → step st w ≡ returns w' → Inv w'
  unfolding step set_value await_ready await_suspend await_resume
  step-Inv fresh (completes v) w' e = subst Inv (returns-injective refl e) fresh
  step-Inv fresh (awaits h) w' e = subst Inv (returns-injective refl e) (waiting h)
  step-Inv (waiting h) (completes v) w' e = subst Inv (returns-injective refl e) (done v h [])
  step-Inv (waiting h) (awaits h') w' e = subst Inv (returns-injective refl e) (waiting h')
  step-Inv (done v h l) (completes v') w' e = cc
  step-Inv (done v h l) (awaits h') w' e = subst Inv (returns-injective refl e) (done v h (h' ∷ l))
  step-Inv (taken h l) (completes v') w' e = cc
  step-Inv (taken h l) (awaits h') w' e = subst Inv (returns-injective refl e) (taken h (h' ∷ l))
  step-Inv fresh resumes w' e = cc
  step-Inv (waiting h) resumes w' e = cc
  step-Inv (done v h l) resumes w' e = subst Inv (returns-injective refl e) (taken h l)
  step-Inv (taken h l) resumes w' e = cc

  run-Inv-from :
      (steps : List (Step T)) (w w' : World T) → Inv w → run steps w ≡ returns w' → Inv w'
  unfolding run
  run-Inv-from [] w w' inv e = subst Inv (returns-injective refl e) inv
  run-Inv-from (st ∷ steps) w w' inv e =
      let (w₁, first, later) = >>=-eq-returns (step st w) (λ w₂. run steps w₂) e in
      run-Inv-from steps w₁ w' (step-Inv inv st w₁ first) later

  -- Every history of completions, awaits and resumptions that does not abort ends in one of four ways: no
  -- coroutine waits and nothing was spawned; one waits and nothing was spawned; or the coroutine that
  -- waited was spawned once, and the value is there, or was taken and destroyed, after which the future
  -- still counts as ready.
  pub run-Inv : (steps : List (Step T)) (w : World T) → run steps start ≡ returns w → Inv w
  run-Inv steps w e = run-Inv-from steps start w fresh e

  -- Completions that come before the coroutine suspends are lost: it waits for a future that nobody
  -- completes, and nothing is spawned.
  pub early_completion_lost :
      (vs : List T) (h : ℕ)
      → run (map completes vs ++ (awaits h ∷ [])) start
        ≡ returns (record start { future = record new_state { continuation = some h } })
  unfolding run step set_value await_ready await_suspend
  early_completion_lost [] h = refl
  early_completion_lost (v ∷ vs) h = early_completion_lost vs h

  -- A coroutine that suspends before the completion is spawned, and resumes with the value; a second
  -- completion aborts.
  pub completion_delivered :
      (h : ℕ) (v v' : T)
      → (w : World T) × (run (awaits h ∷ completes v ∷ []) start ≡ returns w)
        × (w.spawned ≡ h ∷ [])
        × (await_resume w.future ≡ returns (v, record w.future { value = none }))
        × (run (awaits h ∷ completes v ∷ completes v' ∷ []) start ≡ aborts)
  unfolding run step set_value await_ready await_suspend await_resume
  completion_delivered h v v' = (_, refl, refl, refl, refl)

  -- The destructor of the state, after any history: if the future is ready it destroys nothing, neither the
  -- value nor, once that was taken, what is no object; if it is not, memory that holds no object is
  -- destroyed.
  pub destroy_after :
      (steps : List (Step T)) (w : World T)
      → run steps start ≡ returns w
      → (w.future.is_ready ≡ false → destroy w.future ≡ aborts)
        × (w.future.is_ready ≡ true → destroy w.future ≡ returns tt)
  destroy_after steps w e = at_end (run-Inv steps w e)
    where
      at_end :
          {w : World T}
          → Inv w
          → (w.future.is_ready ≡ false → destroy w.future ≡ aborts)
            × (w.future.is_ready ≡ true → destroy w.future ≡ returns tt)
      at_end fresh = (λ _. unfold destroy in refl, λ q. absurd (false-ne-true q))
      at_end (waiting h) = (λ _. unfold destroy in refl, λ q. absurd (false-ne-true q))
      at_end (done v h l) = (λ q. absurd (false-ne-true (sym q)), λ _. unfold destroy in refl)
      at_end (taken h l) = (λ q. absurd (false-ne-true (sym q)), λ _. unfold destroy in refl)
