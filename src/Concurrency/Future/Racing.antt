-- ===== src/Concurrency/Future/Racing.antt =====
-- `set_value` of include/concurrency/future.hpp statement by statement: it holds the mutex, which
-- `await_suspend` waits for, but the load of `await_ready` falls anywhere between its statements.
pub mod Refined
pub mod Early
use toad_jawbreaker.Prelude.{
  store, times, ℕ, ◌≡◌, ◌≢◌, ◌⊎◌, returns, Bool, true, false, if◌then◌else◌, List, [], ◌∷◌, Option,
  none, some,
}
use toad_jawbreaker.Concurrency.Future.{
  FutureState, new_state, await_ready, await_suspend, await_resume,
}

-- Where the call of `set_value` is: before the lock, returned without a continuation, under the lock
-- before the exchange, after it, after the value is built, and returned after the spawn. The
-- continuation is the one that it found.
pub data Completer : Type 0 where
  calls : Completer
  dropped : Completer
  holds : ℕ → Completer
  marked : ℕ → Completer
  built : ℕ → Completer
  returned : ℕ → Completer

abbrev pub has_lock : Completer → Bool
has_lock calls = false
has_lock dropped = false
has_lock (holds h) = true
has_lock (marked h) = true
has_lock (built h) = true
has_lock (returned h) = false

-- A coroutine has not asked yet, goes on without being suspended, was told that the future is not
-- ready, or is suspended.
pub data Awaiter : Type 0 where
  fresh : Awaiter
  proceeds : Awaiter
  asked : Awaiter
  suspended : Awaiter

pub record Race {ℓ} (T : Type ℓ) : Type ℓ where
  pub future : FutureState T
  pub completer : Completer
  pub awaiters : ℕ → Awaiter
  pub spawned : List ℕ
  pub went_on : List ℕ
  pub resumed : List ℕ

module _ {ℓ} {T : Type ℓ} where
  abbrev pub at_start : Race T
  at_start = record {
    future = new_state;
    completer = calls;
    awaiters = λ c. fresh;
    spawned = [];
    went_on = [];
    resumed = [];
  }

  -- What the answer to a coroutine leaves, with its stage if it is the negative one.
  abbrev pub answered : ℕ → Bool → Awaiter → Race T → Race T
  answered c true st r = record r {
    awaiters = store c proceeds r.awaiters;
    went_on = c ∷ r.went_on;
  }
  answered c false st r = record r { awaiters = store c st r.awaiters }

  -- `await_suspend`, whose result says whether the coroutine stays suspended.
  abbrev pub after_suspend : ℕ → Bool × FutureState T → Race T → Race T
  after_suspend c (true, s) r = answered c false suspended (record r { future = s })
  after_suspend c (false, s) r = answered c true suspended (record r { future = s })

  -- The steps with one call of `set_value`, for the value v.
  pub data RaceStep (v : T) : Race T → Race T → Type ℓ where
    drops :
        {r : Race T}
        → r.completer ≡ calls
        → r.future.continuation ≡ none
        → RaceStep v r (record r { completer = dropped })
    locks :
        {r : Race T} (h : ℕ)
        → r.completer ≡ calls
        → r.future.continuation ≡ some h
        → RaceStep v r (record r { completer = holds h })
    -- The exchange of the flag, which succeeds, as there is one call.
    marks :
        {r : Race T} (h : ℕ)
        → r.completer ≡ holds h
        → r.future.is_ready ≡ false
        → RaceStep v r
            (record r { future = record r.future { is_ready = true }; completer = marked h })
    builds :
        {r : Race T} (h : ℕ)
        → r.completer ≡ marked h
        → RaceStep v r
            (record r { future = record r.future { value = some v }; completer = built h })
    spawns :
        {r : Race T} (h : ℕ)
        → r.completer ≡ built h
        → RaceStep v r (record r { completer = returned h; spawned = h ∷ r.spawned })
    asks :
        {r : Race T} (c : ℕ)
        → r.awaiters c ≡ fresh
        → RaceStep v r (answered c (await_ready r.future) asked r)
    suspends :
        {r : Race T} (c : ℕ)
        → r.awaiters c ≡ asked
        → has_lock r.completer ≡ false
        → RaceStep v r (after_suspend c (await_suspend c r.future) r)
    -- A coroutine that went on or was spawned resumes. Where `await_resume` aborts there is no step.
    resumes :
        {r : Race T} (c : ℕ) (u : T) (s : FutureState T)
        → (times c r.spawned ≢ 0) ⊎ (times c r.went_on ≢ 0)
        → await_resume r.future ≡ returns (u, s)
        → RaceStep v r (record r { future = s; resumed = c ∷ r.resumed })

  pub data Raced (v : T) : Race T → Type ℓ where
    starts : Raced v at_start
    goes_on : {r r' : Race T} → Raced v r → RaceStep v r r' → Raced v r'
