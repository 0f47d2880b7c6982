-- ===== src/Concurrency/Future/Handles.antt =====
-- include/concurrency/future.hpp: who owns the state of a future. The variables that hold futures, and
-- those that hold handles, stand in lists, under their places; `none` is a pointer to nothing. The state
-- that `make_shared` gives is a number, which is not given again, and is gone once no future holds it;
-- a handle only finds a state that is there.
pub mod Owned
use toad_jawbreaker.Prelude.{
  store, ℕ, ◌+◌, ◌<◌, ◌≡◌, Bool, if◌then◌else◌, ◌==◌, List, [], ◌∷◌, ◌++◌, Option, none, some,
  Outcome, returns, aborts, ◌>>=◌, ◌>>◌, get_or, set, length,
}
use toad_jawbreaker.Concurrency.Future.{
  FutureState, new_state, set_value, await_suspend, await_resume, destroy,
}

pub record Futures (T : Type 0) : Type 0 where
  pub futures : List (Option ℕ)
  pub handles : List (Option ℕ)
  pub states : ℕ → Option (FutureState T)
  pub next : ℕ
  pub spawned : List ℕ

module _ {T : Type 0} where
  abbrev pub no_futures : Futures T
  no_futures = record { futures = []; handles = []; states = λ a. none; next = 0; spawned = [] }

  -- `make_future`
  abbrev pub make_future : Futures T → Futures T
  make_future w = record {
    futures = w.futures ++ (some w.next ∷ []);
    handles = w.handles ++ (some w.next ∷ []);
    states = store w.next (some new_state) w.states;
    next = w.next + 1;
    spawned = w.spawned;
  }

  -- `Future(Future &&other)`
  abbrev pub future_move_construct : ℕ → Futures T → Futures T
  future_move_construct other w = record w {
    futures = set w.futures other none ++ (get_or w.futures other none ∷ []);
  }

  -- `Future &operator=(Future &&other)`, which has no `return` but for an assignment to itself: to come
  -- to its end is undefined.
  abbrev pub future_move_assign : ℕ → ℕ → Futures T → Outcome (Futures T)
  future_move_assign this other w = if this == other then returns w else aborts

  -- The state that a pointer shows, and what replaces it.
  abbrev pub find : Option ℕ → Futures T → Option (FutureState T)
  find none w = none
  find (some a) w = w.states a

  abbrev pub replace : Option ℕ → Option (FutureState T) → Futures T → Futures T
  replace none s w = w
  replace (some a) s w = record w { states = store a s w.states }

  -- The end of a future, which held the only pointer that keeps its state.
  abbrev pub release : Option (FutureState T) → Outcome (Unit {0})
  release none = returns tt
  release (some s) = destroy s

  abbrev pub future_destruct : ℕ → Futures T → Outcome (Futures T)
  future_destruct this w =
      let held = get_or w.futures this none in
      release (find held w) >>= λ t.
      returns (record (replace held none w) { futures = set w.futures this none })

  -- `FutureHandle(const FutureHandle &other)`, `operator=` and `~FutureHandle`
  abbrev pub handle_copy : ℕ → Futures T → Futures T
  handle_copy other w = record w { handles = w.handles ++ (get_or w.handles other none ∷ []) }

  abbrev pub handle_assign : ℕ → ℕ → Futures T → Futures T
  handle_assign this other w = record w {
    handles = set w.handles this (get_or w.handles other none);
  }

  abbrev pub handle_destruct : ℕ → Futures T → Futures T
  handle_destruct this w = record w { handles = set w.handles this none }

  -- `set_value` through a handle.
  abbrev pub handle_set_value : ℕ → T → Futures T → Outcome (Futures T)
  handle_set_value this v w =
      let pointer = get_or w.handles this none in
      set_value v (find pointer w) >>= λ (s, spawned).
      returns (record (replace pointer s w) { spawned = w.spawned ++ spawned })

  -- `await_suspend` and `await_resume` with what a future's pointer shows, which must not be null.
  abbrev pub suspend_at :
      Option ℕ → ℕ → Futures T → Option (FutureState T) → Outcome (Bool × Futures T)
  suspend_at pointer h w none = aborts
  suspend_at pointer h w (some s) =
      let (stays, s') = await_suspend h s in returns (stays, replace pointer (some s') w)

  abbrev pub future_suspend : ℕ → ℕ → Futures T → Outcome (Bool × Futures T)
  future_suspend this h w =
      let pointer = get_or w.futures this none in suspend_at pointer h w (find pointer w)

  abbrev pub resume_at : Option ℕ → Futures T → Option (FutureState T) → Outcome (T × Futures T)
  resume_at pointer w none = aborts
  resume_at pointer w (some s) =
      await_resume s >>= λ (v, s'). returns (v, replace pointer (some s') w)

  abbrev pub future_resume : ℕ → Futures T → Outcome (T × Futures T)
  future_resume this w =
      let pointer = get_or w.futures this none in resume_at pointer w (find pointer w)

pub data Operation (T : Type 0) : Type 0 where
  makes : Operation T
  moves : ℕ → Operation T
  assigns : ℕ → ℕ → Operation T
  ends : ℕ → Operation T
  copies_handle : ℕ → Operation T
  assigns_handle : ℕ → ℕ → Operation T
  ends_handle : ℕ → Operation T
  sets : ℕ → T → Operation T
  suspends : ℕ → ℕ → Operation T
  resumes : ℕ → Operation T

module _ {T : Type 0} where
  abbrev pub apply : Operation T → Futures T → Outcome (Futures T)
  apply makes w = returns (make_future w)
  apply (moves other) w = returns (future_move_construct other w)
  apply (assigns this other) w = future_move_assign this other w
  apply (ends this) w = future_destruct this w
  apply (copies_handle other) w = returns (handle_copy other w)
  apply (assigns_handle this other) w = returns (handle_assign this other w)
  apply (ends_handle this) w = returns (handle_destruct this w)
  apply (sets this v) w = handle_set_value this v w
  apply (suspends this h) w = future_suspend this h w >>= λ r. returns r.1
  apply (resumes this) w = future_resume this w >>= λ r. returns r.1

  -- The futures that an operation moves, ends or awaits are variables.
  abbrev pub IsPlaced : Operation T → ℕ → Type 0
  IsPlaced (moves other) n = other < n
  IsPlaced (ends this) n = this < n
  IsPlaced (suspends this h) n = this < n
  IsPlaced (resumes this) n = this < n
  IsPlaced op n = Unit

pub data Reachable {T : Type 0} : Futures T → Type 0 where
  starts : Reachable no_futures
  goes_on :
      {w w' : Futures T} (op : Operation T)
      → Reachable w
      → IsPlaced op (length w.futures)
      → apply op w ≡ returns w'
      → Reachable w'
