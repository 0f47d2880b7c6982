-- ===== src/Concurrency/IoContext/Kernel/Unawaited.antt =====
-- An operation of include/concurrency/iocontext.hpp that is completed before its coroutine suspends.
use toad_jawbreaker.Prelude.{
  store, store_self, ℕ, ◌≡◌, refl, sym, ap, ◌∙◌, Bool, true, List, [], ◌∷◌, ◌++◌, append_assoc,
  append-nil, none, some, returns, ◌>>=◌, times,
}
use mathlib.Core.Path.{subst}
use toad_jawbreaker.Prelude.Int.{ℤ}
use toad_jawbreaker.Concurrency.Future.{new_state, set_value, await_suspend}
use toad_jawbreaker.Concurrency.IoContext.{PendingListen, handle_listen}
use toad_jawbreaker.Concurrency.IoContext.Loop.{
  PendingVariant, listen, Loop, handle_pending, complete_with, batch,
}
use toad_jawbreaker.Concurrency.IoContext.Submission.{Request, accept, Sqe, Io, submit}
use toad_jawbreaker.Concurrency.IoContext.Kernel.{
  System, submits, enters, finishes, handles, Reachable, goes_on, outstanding,
}
use toad_jawbreaker.Concurrency.IoContext.Kernel.Outstanding.{present, outstanding_live}

abbrev pub accepting : ℕ → PendingListen
accepting sockfd = record { sockfd = sockfd; handle = some new_state }

-- The handler leaves the future as it is, and spawns nobody.
handle_listen-unawaited :
    (res : ℤ) (sockfd : ℕ) → handle_listen res (accepting sockfd) ≡ returns (some new_state, [])
unfolding handle_listen set_value
handle_listen-unawaited res sockfd = refl

complete_with-unawaited :
    (res : ℤ) (sockfd a : ℕ) (w : Loop)
    → complete_with (some (listen (accepting sockfd))) (record { user_data = a; res = res }) w
      ≡ returns (record w { heap = store a none w.heap })
unfolding handle_pending
complete_with-unawaited res sockfd a w =
    rw (handle_pending, handle_listen-unawaited res sockfd, append-nil w.spawned) refl

batch-unawaited :
    (res : ℤ) (sockfd a : ℕ) (w : Loop)
    → w.heap a ≡ some (listen (accepting sockfd))
    → batch (record { user_data = a; res = res } ∷ []) w
      ≡ returns (record w { heap = store a none w.heap })
unfolding batch
batch-unawaited res sockfd a w e =
    ap (λ p. complete_with p (record { user_data = a; res = res }) w >>= λ w'. returns w') e
    ∙ ap (λ o. o >>= λ w'. returns w') (complete_with-unawaited res sockfd a w)

-- The system once the entries in the queue were shown and the last one was completed and handled.
abbrev pub handled_alone : Io → Loop → System → System
handled_alone io loop s = record {
  io = record io { queue = []; loop = loop };
  in_flight = s.in_flight ++ s.io.queue;
  completed = [];
}

submit-room :
    (a : ℕ) (p : PendingVariant) (r : Request) (io : Io)
    → io.has_room io.queue ≡ true
    → submit a p r io
      ≡ returns (record io {
        loop = record io.loop { heap = store a (some p) io.loop.heap };
        queue = io.queue ++ (record { user_data = a; request = r } ∷ []);
      })
unfolding submit
submit-room a p r io h = rw (submit, h) refl

-- Wherever the event loop has handled the completions that there are, the ring has room and memory is
-- free at an address, an accept is submitted with its pending object there; and a state can follow in which
-- the batch of its completion was handled before the coroutine that submitted it awaits it. Whatever the
-- result: that batch spawns nobody and deletes the pending object, and nothing names it any more; the
-- handler leaves the future as it was, and the coroutine, which then awaits it, is told to suspend.
pub accept_lost :
    {has_room : List Sqe → Bool} {s : System} (address sockfd h : ℕ) (res : ℤ)
    → Reachable has_room s
    → s.io.loop.heap address ≡ none
    → s.completed ≡ []
    → s.io.has_room s.io.queue ≡ true
    → ((io : Io) × (submit address (listen (accepting sockfd)) (accept sockfd) s.io ≡ returns io)
        × (loop : Loop) × (batch (record { user_data = address; res = res } ∷ []) io.loop
            ≡ returns loop)
        × Reachable has_room (handled_alone io loop s)
        × (loop.spawned ≡ s.io.loop.spawned)
        × (loop.heap address ≡ none)
        × (times address (outstanding (handled_alone io loop s)) ≡ 0))
      × (handle_listen res (accepting sockfd) ≡ returns (some new_state, []))
      × (await_suspend h (new_state {T = ℤ}) ≡ (true, record new_state { continuation = some h }))
accept_lost {has_room} {s} address sockfd h res r unused none_left room =
    let p = listen (accepting sockfd) in
    let sqe : Sqe = record { user_data = address; request = accept sockfd } in
    let heap = store address (some p) s.io.loop.heap in
    let io : Io = record s.io {
      loop = record s.io.loop { heap = heap };
      queue = s.io.queue ++ (sqe ∷ []);
    } in
    let loop : Loop = record s.io.loop { heap = store address none heap } in
    let submitted = submit-room address p (accept sockfd) s.io room in
    let whole =
      batch-unawaited res sockfd address (record s.io.loop { heap = heap })
        (store_self address (some p) s.io.loop.heap) in
    let r1 = goes_on r (submits address p (accept sockfd) io unused submitted) in
    let r2 = goes_on r1 enters in
    let r3 = goes_on r2 (
      finishes (s.in_flight ++ s.io.queue) sqe [] res
        (sym (append_assoc s.in_flight s.io.queue (sqe ∷ [])))) in
    let r4 = goes_on r3 (
      handles (record { user_data = address; res = res } ∷ []) [] loop
        (ap (λ l. l ++ (record { user_data = address; res = res } ∷ [])) none_left) whole) in
    let r5 : Reachable has_room (handled_alone io loop s) =
      subst
        (λ l.
          Reachable has_room
            (record { io = record io { queue = []; loop = loop }; in_flight = l; completed = [] }))
        (append-nil (s.in_flight ++ s.io.queue)) r4 in
    let gone = store_self address none heap in
    (
      (io, submitted, loop, whole, r5, refl, gone, outstanding_live r5 address ∙ ap present gone),
      handle_listen-unawaited res sockfd,
      unfold await_suspend in refl,
    )
