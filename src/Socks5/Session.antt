-- ===== src/Socks5/Session.antt =====
-- A coroutine of include/socks5/server.hpp on the handlers of include/concurrency/iocontext.hpp and the
-- futures of include/concurrency/future.hpp: what it awaits is submitted, completed by the kernel,
-- handled, and handed to it by the future.
pub mod Fits
pub mod Refined
pub mod Failing
pub mod Forwarding
use toad_jawbreaker.Prelude.{
  ℕ, Bool, true, false, if◌then◌else◌, ◌==◌, List, [], ◌∷◌, Option, none, some, Outcome, returns,
  aborts, ◌>>=◌, length, take, drop, overwrite,
}
use toad_jawbreaker.Prelude.Int.{ℤ, pos, negsuc}
use toad_jawbreaker.Concurrency.Future.{FutureState, new_state, await_suspend, await_resume}
use toad_jawbreaker.Concurrency.IoContext.{
  submit_read_some_vec, handle_read_some_vec, handle_connect,
}
use toad_jawbreaker.Socks5.Process.{
  Process, returned, await_read, submit_write, await_connect, relay, diverges, Action, wrote,
  connecting, relaying, closed, stuck,
}

-- How an operation is completed once the coroutine awaits it: the kernel writes of these bytes as many as
-- there is room for, a read fails with an error -(k + 1), or a connect has a result. Or likewise, but the
-- event loop handles the completion before the coroutine awaits it; or the ring has no room for the
-- operation.
pub data Answer : Type 0 where
  delivers : List ℕ → Answer
  fails : ℕ → Answer
  connects : ℤ → Answer
  delivers_early : List ℕ → Answer
  fails_early : ℕ → Answer
  connects_early : ℤ → Answer
  no_room : Answer

abbrev pub is_early : Answer → Bool
is_early (delivers bytes) = false
is_early (fails k) = false
is_early (connects res) = false
is_early (delivers_early bytes) = true
is_early (fails_early k) = true
is_early (connects_early res) = true
is_early no_room = false

-- The actions of the coroutine, up to where it waits for ever, ends, or is misled: is resumed with a
-- number of bytes that is not that of the bytes that were appended.
pub record Followed : Type 0 where
  pub actions : List Action
  pub is_misled : Bool

abbrev pub stops : List Action → Outcome Followed
stops actions = returns (record { actions = actions; is_misled = false })

abbrev pub and_then : Action → Outcome Followed → Outcome Followed
and_then a m = m >>= λ r. returns (record r { actions = a ∷ r.actions })

-- The future of a pending operation when its completion is handled: as it was submitted if that is early,
-- and else awaited by coroutine h.
abbrev pub suspended {ℓ} : {T : Type ℓ} → Bool → ℕ → Option (FutureState T) → Option (FutureState T)
suspended early h none = none
suspended true h (some s) = some s
suspended false h (some s) = some (await_suspend h s).1

-- The result and the vector in which the kernel has written, from where the room begins.
abbrev pub completed : ℕ → List ℕ → List ℕ → Answer → Option (ℤ × List ℕ)
completed max_size vec grown (delivers bytes) =
    let chunk = take max_size bytes in some (pos (length chunk), overwrite grown (length vec) chunk)
completed max_size vec grown (fails k) = some (negsuc k, grown)
completed max_size vec grown (connects res) = none
completed max_size vec grown (delivers_early bytes) =
    let chunk = take max_size bytes in some (pos (length chunk), overwrite grown (length vec) chunk)
completed max_size vec grown (fails_early k) = some (negsuc k, grown)
completed max_size vec grown (connects_early res) = none
completed max_size vec grown no_room = none

-- A read of `max_size` bytes into the vector by coroutine h, from the submission to the completion: the
-- vector and the future after it, and who is spawned. `none`: no answer to a read.
unfoldable pub read_into :
    ℕ → ℕ → List ℕ → ℕ → Answer → Option (Outcome (List ℕ × Option (FutureState ℕ) × List ℕ))
read_into h fd vec max_size no_room = some aborts
read_into h fd vec max_size answer = elim (submit_read_some_vec fd vec max_size) [
  | aborts ↦ some aborts
  | returns (p, grown) ↦ elim (completed max_size vec grown answer) [
    | none ↦ none
    | some (res, vec') ↦ some (
        handle_read_some_vec res (record p { handle = suspended (is_early answer) h p.handle })
          vec')
  ]
]

-- A connect by coroutine h, whose completion is handled early or not, likewise.
unfoldable pub connect_by : Bool → ℕ → ℕ → ℤ → Outcome (Option (FutureState (Option ℕ)) × List ℕ)
connect_by early h fd res =
    handle_connect res (record { sockfd = fd; handle = suspended early h (some new_state) })

abbrev pub is_some {ℓ} : {A : Type ℓ} → Option A → Bool
is_some none = false
is_some (some a) = true

-- The coroutine is resumed if it was spawned, and else waits for ever, as it suspends after an early
-- completion, which nobody repeats; `next` takes the value of the future.
abbrev pub resumed {ℓ} :
    {T : Type ℓ} → Option (FutureState T) → List ℕ → (T → Outcome Followed) → Outcome Followed
resumed handle [] next = stops []
resumed none (h ∷ spawned) next = aborts
resumed (some s) (h ∷ spawned) next = await_resume s >>= λ (value, s'). next value

-- What follows a read. The number of bytes says what the coroutine takes to be appended.
abbrev pub after_read :
    List ℕ
    → Option (Outcome (List ℕ × Option (FutureState ℕ) × List ℕ))
    → (List ℕ → List ℕ → Outcome Followed)
    → Outcome Followed
after_read vec none next = stops []
after_read vec (some m) next = m >>= λ (vec', handle, spawned).
    let more = drop (length vec) vec' in
    let goes_on = next more vec' in
    resumed handle spawned λ count.
      if count == length more then goes_on else returns (record { actions = []; is_misled = true })

-- The run of coroutine h, with the socket fd of the client, its vector, and `remote` for the
-- descriptor of the socket that it connects.
unfoldable pub execute : ℕ → ℕ → ℕ → Process → List ℕ → List Answer → Outcome Followed
execute h fd remote returned vec answers = stops (closed ∷ [])
execute h fd remote (await_read n k) vec [] = stops []
execute h fd remote (await_read n k) vec (a ∷ answers) =
    after_read vec (read_into h fd vec n a) λ more vec'. execute h fd remote (k more) vec' answers
execute h fd remote (submit_write bytes p) vec answers =
    and_then (wrote bytes) (execute h fd remote p vec answers)
execute h fd remote (await_connect ip port k) vec (connects res ∷ answers) =
    and_then (connecting ip port) (
      connect_by false h remote res >>= λ (handle, spawned).
      resumed handle spawned λ socket. execute h fd remote (k (is_some socket)) vec answers)
execute h fd remote (await_connect ip port k) vec (connects_early res ∷ answers) =
    and_then (connecting ip port) (
      connect_by true h remote res >>= λ (handle, spawned).
      resumed handle spawned λ socket. execute h fd remote (k (is_some socket)) vec answers)
execute h fd remote (await_connect ip port k) vec (no_room ∷ answers) = aborts
execute h fd remote (await_connect ip port k) vec answers = stops (connecting ip port ∷ [])
execute h fd remote relay vec answers = stops (relaying ∷ [])
execute h fd remote diverges vec answers = stops (stuck ∷ [])
