-- ===== src/Concurrency/Future.antt =====
-- include/concurrency/future.hpp: the state that a future and its handle share. `set_value` and
-- `await_suspend` run under its mutex, so each of them is one step here; Racing has the statements of
-- `set_value` one by one, as `await_ready` is a load without the mutex. A continuation is the number
-- of its coroutine.
pub mod History
pub mod Handles
pub mod Racing
use toad_jawbreaker.Prelude.{
  ℕ, Bool, true, false, not, List, [], ◌∷◌, Option, none, some, Outcome, returns, aborts,
  if◌then◌else◌, ◌>>◌, assert,
}

-- `_value` is a union: `none` is memory that holds no object.
pub record FutureState {ℓ} (T : Type ℓ) : Type ℓ where
  pub value : Option T
  pub is_ready : Bool
  pub continuation : Option ℕ

abbrev pub new_state {ℓ} : {T : Type ℓ} → FutureState T
new_state = record { value = none; is_ready = false; continuation = none }

module _ {ℓ} {T : Type ℓ} where
  -- `FutureHandle::set_value`, with the coroutines that it spawns. A future that is gone, `none`, or
  -- one without a continuation is left as it is.
  unfoldable pub set_value : T → Option (FutureState T) → Outcome (Option (FutureState T) × List ℕ)
  set_value v none = returns (none, [])
  set_value v (some s) = elim s.continuation [
    | none ↦ returns (some s, [])
    | some handle ↦
        assert (not s.is_ready)
        >> returns (some (record s { value = some v; is_ready = true }), handle ∷ [])
  ]

  unfoldable pub await_ready : FutureState T → Bool
  await_ready s = s.is_ready

  -- The result says whether the coroutine stays suspended.
  unfoldable pub await_suspend : ℕ → FutureState T → Bool × FutureState T
  await_suspend handle s =
      if s.is_ready then (false, s) else (true, record s { continuation = some handle })

  -- The value is moved out and destroyed. To move from memory that holds no object is undefined.
  unfoldable pub await_resume : FutureState T → Outcome (T × FutureState T)
  await_resume s =
      assert s.is_ready
      >> elim s.value [ none ↦ aborts | some v ↦ returns (v, record s { value = none }) ]

  -- `~FutureState`: to destroy what is no object is undefined.
  unfoldable pub destroy : FutureState T → Outcome (Unit {0})
  destroy s =
      if not s.is_ready then elim s.value [ none ↦ aborts | some v ↦ returns tt ] else returns tt

-- `FutureHandle<void>::set`
abbrev pub set_void :
    Option (FutureState (Unit {0})) → Outcome (Option (FutureState (Unit {0})) × List ℕ)
set_void s = set_value tt s
