-- ===== src/Tests/KernelTests.antt =====
-- The operations that are submitted to a kernel, the event loop, the tasks and the set-up of a device, on
-- concrete inputs.
use toad_jawbreaker.Prelude.{
  ◌≤◌, store, ℕ, ◌+◌, ◌≡◌, ◌<◌, ◌↔◌, map, refl, Bool, true, false, List, [], ◌∷◌, ◌++◌, none, some,
  returns, aborts, ◌>>=◌, arith, times, length, ltb,
}
use toad_jawbreaker.Prelude.Int.{ℤ, pos, negsuc, is_negative, is_positive}
use toad_jawbreaker.Concurrency.Future.{new_state, await_suspend}
use toad_jawbreaker.Concurrency.IoContext.Loop.{
  PendingVariant, Loop, listen, write_some, submit_write_some, batch,
}
use toad_jawbreaker.Concurrency.IoContext.Submission.{Sqe, Io, submit, accept, write}
use toad_jawbreaker.Concurrency.IoContext.Kernel.{
  System, new_io, Reachable, starts, goes_on, submits, enters, finishes, outstanding,
}
use toad_jawbreaker.Concurrency.IoContext.Kernel.Outstanding.{outstanding_live, present}
use toad_jawbreaker.Concurrency.IoContext.Kernel.Spawning.{submitted, spawned_bound}
use toad_jawbreaker.Concurrency.IoContext.Kernel.Room.{
  Submission, submit_all, submit_all-aborts_iff,
}
use toad_jawbreaker.Concurrency.IoContext.EventLoop.{event_loop}
use toad_jawbreaker.Concurrency.IoContext.EventLoop.Batches.{
  Wait, times_out, fails, succeeds, round_of, before_failure, some_fails, event_loop-waits,
}
use toad_jawbreaker.Concurrency.IoContext.{handle_listen}
use toad_jawbreaker.Concurrency.IoContext.Kernel.Unawaited.{accepting, handled_alone, accept_lost}
use toad_jawbreaker.Concurrency.Task.{
  no_tasks, Operation, constructs, move_assigns, leaks, destructs, run, leak,
}
use toad_jawbreaker.Concurrency.Task.Frames.{adopted, frames_accounted}
use toad_jawbreaker.Net.Ownership as Ownership
use toad_jawbreaker.Nic.Setup.{
  DeviceAnswers, try_new, is_open, device_fd, mac_sock, sock_fd, try_new-is_open,
}

abbrev nothing : ℕ → List ℕ
nothing v = []

-- Two entries.
abbrev room : List Sqe → Bool
room queue = ltb (length queue) 2

abbrev hello : PendingVariant
hello = write_some (submit_write_some 8 (1 ∷ 2 ∷ []))

abbrev client : PendingVariant
client = listen (record { sockfd = 3; handle = some new_state })

-- A write and an accept are submitted, and the write is completed.
abbrev with_write : Io
with_write = record (new_io room nothing) {
  loop = record (new_io room nothing).loop {
    heap = store 16 (some hello) (new_io room nothing).loop.heap;
  };
  queue = record { user_data = 16; request = write 8 (1 ∷ 2 ∷ []) } ∷ [];
}

abbrev with_both : Io
with_both = record with_write {
  loop = record with_write.loop { heap = store 32 (some client) with_write.loop.heap };
  queue = with_write.queue ++ (record { user_data = 32; request = accept 3 } ∷ []);
}

abbrev written : System
written = record {
  io = record with_both { queue = [] };
  in_flight = record { user_data = 32; request = accept 3 } ∷ [];
  completed = record { user_data = 16; res = pos 2 } ∷ [];
}

-- Only the write is submitted.
abbrev writing : System
writing = record { io = with_write; in_flight = []; completed = [] }

writing-Reachable : Reachable room writing
unfolding submit
writing-Reachable =
    goes_on (starts nothing) (submits 16 hello (write 8 (1 ∷ 2 ∷ [])) with_write refl refl)

accept_lost_example :
    ((io : Io) × (submit 32 (listen (accepting 3)) (accept 3) with_write ≡ returns io)
      × (loop : Loop) × (batch (record { user_data = 32; res = pos 7 } ∷ []) io.loop ≡ returns loop)
      × Reachable room (handled_alone io loop writing)
      × (loop.spawned ≡ [])
      × (loop.heap 32 ≡ none)
      × (times 32 (outstanding (handled_alone io loop writing)) ≡ 0))
    × (handle_listen (pos 7) (accepting 3) ≡ returns (some new_state, []))
    × (await_suspend 5 (new_state {T = ℤ}) ≡ (true, record new_state { continuation = some 5 }))
accept_lost_example = accept_lost 32 3 5 (pos 7) writing-Reachable refl refl refl

written-Reachable : Reachable room written
unfolding submit
written-Reachable =
    let r0 : Reachable room (record { io = new_io room nothing; in_flight = []; completed = [] }) =
      starts nothing in
    let r1 = goes_on r0 (submits 16 hello (write 8 (1 ∷ 2 ∷ [])) with_write refl refl) in
    let r2 = goes_on r1 (submits 32 client (accept 3) with_both refl refl) in
    goes_on (goes_on r2 enters) (
      finishes [] (record { user_data = 16; request = write 8 (1 ∷ 2 ∷ []) })
        (record { user_data = 32; request = accept 3 } ∷ []) (pos 2) refl)

outstanding_live_example : times 32 (outstanding written) ≡ present (written.io.loop.heap 32)
outstanding_live_example = outstanding_live written-Reachable 32

spawned_bound_example :
    length written.io.loop.spawned + length (outstanding written) ≤ submitted written-Reachable
spawned_bound_example = spawned_bound written-Reachable

abbrev three : List Submission
three =
    record { address = 16; pending = hello; request = write 8 (1 ∷ 2 ∷ []) }
    ∷ record { address = 32; pending = client; request = accept 3 }
    ∷ record { address = 48; pending = client; request = accept 3 }
    ∷ []

submit_all-aborts_iff_example : (submit_all three (new_io room nothing) ≡ aborts) ↔ (2 < 0 + 3)
submit_all-aborts_iff_example =
    submit_all-aborts_iff 2 three (new_io room nothing) (λ queue. refl) (omega arith)

-- A wait without events, one with a completion, and one that fails.
abbrev waits : List Wait
waits =
    succeeds 0 (record { user_data = 16; res = pos 2 } ∷ []) ∷ fails 3 (λ e. omega (arith, e)) ∷ []

event_loop-waits_example : event_loop (map round_of (times_out ∷ waits)) with_both [] ≡ (
    batch (before_failure (times_out ∷ waits)) with_both.loop >>= λ loop. returns (record {
      io = record with_both { loop = loop; queue = [] };
      shown = [] ++ with_both.queue;
      is_left = some_fails (times_out ∷ waits);
    }))
event_loop-waits_example = event_loop-waits times_out waits with_both []

-- Two tasks; one is assigned over the other and leaked.
abbrev uses : List Operation
uses =
    constructs (some 7)
    ∷ constructs (some 9)
    ∷ move_assigns 0 1
    ∷ leaks 0
    ∷ destructs 1
    ∷ destructs 0
    ∷ []

frames_accounted_example :
    times 9 (run uses no_tasks).variables.closed + times 9 (run uses no_tasks).leaked
    ≡ adopted 9 uses
unfolding leak Ownership.move_assign Ownership.destruct
frames_accounted_example =
    frames_accounted 9 uses
      (tt, (tt, ((omega arith, omega arith), (omega arith, (omega arith, (omega arith, tt))))))
      (refl, (refl, tt))

-- The question for the transmission unit fails.
abbrev no_mtu : DeviceAnswers
no_mtu = record {
  open_tun = pos 5;
  set_iff = pos 0;
  mac = record { socket = pos 6; get_hwaddr = pos 0; sa_data = 2 ∷ 0 ∷ 0 ∷ 0 ∷ 0 ∷ 1 ∷ 0 ∷ 0 ∷ [] };
  socket = pos 6;
  own_ip = some (10 ∷ 0 ∷ 0 ∷ 1 ∷ []);
  network_mask = some (255 ∷ 255 ∷ 255 ∷ 0 ∷ []);
  if_flags = 2;
  get_mtu = negsuc 18;
  if_mtu = 0;
}

try_new-is_open_example :
    (is_open mac_sock false (try_new [] no_mtu).effects ≡ false)
    × (is_open sock_fd false (try_new [] no_mtu).effects ≡ false)
    × ((is_open device_fd false (try_new [] no_mtu).effects ≡ true) ↔ (
        (is_positive no_mtu.open_tun ≡ true)
        × (is_negative no_mtu.set_iff ≡ false)
        × (is_negative no_mtu.socket ≡ false)))
    × ((((try_new [] no_mtu).result ≡ returns none)
          × (is_open device_fd false (try_new [] no_mtu).effects ≡ true))
        ↔ ((is_positive no_mtu.open_tun ≡ true)
            × (is_negative no_mtu.set_iff ≡ false)
            × (is_negative no_mtu.socket ≡ false)
            × (is_negative no_mtu.get_mtu ≡ true)))
try_new-is_open_example = try_new-is_open [] no_mtu
