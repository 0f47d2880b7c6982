-- ===== src/Lib.antt =====
-- toad-jawbreaker: a network tool in C++20 with its own coroutine executor. It has byte buffers and
-- streams (include/bytes), the packets of a TAP device (include/nic), and a SOCKS5 proxy
-- (include/socks5) that runs on the concurrency library (include/concurrency).
--
-- The files. Each models the source file of its name; paths are from the repository's root.
--
-- - Prelude: shared names. Prelude/Bits has the unsigned types of include/defs.hpp as remainders,
--   and shifts and masks as arithmetic; Prelude/Int the signed results of calls; Prelude/Aborts the
--   outcome of code that may abort, with the `ASSERT` of include/defs.hpp; Prelude/Lists the
--   copying of bytes; Prelude/Counting how often a number stands in a list.
-- - Bytes/Buffer: include/bytes/buffer.hpp. Allocations stand in a store, so that slices share
--   bytes.
-- - Bytes/Stream: include/bytes/bytestream.hpp. A read takes the bytes of the buffer and the state
--   of the stream, and where it fails returns the old value of the variable that it was to set. Its
--   children say what chains of reads and writes do: Reading and Writing where the bytes are there,
--   Needing on any bytes, RoundTrip one after the other.
-- - Nic/Checksum, Nic/Mac, Nic/Typestate, Nic/Arp, Nic/Ethernet, Nic/Ip (ipv4.hpp), Nic/Icmp,
--   Nic/Device: the files of include/nic, with `try_new` and `system_addr` in Nic/Setup. A packet
--   is a record, with the direction as a parameter of its type; its payload, a buffer that it only
--   reads, is the list of its bytes. `wire` describes the bytes of a packet, independently of the
--   code. Nic/Packet is the concept of packet.hpp, a record of operations with laws, which the
--   types of packets fill. Nic/Padding is the part that `calculate_checksum` of IPv4 and ICMP
--   share.
-- - Socks5/Process: what a coroutine awaits and submits, and its run against the answers of the
--   outside. Socks5/Server: include/socks5/server.hpp, `handle_client_handshake` statement by
--   statement; Handshake has the protocol that it is compared with. Socks5/Forward:
--   `forward_connection_data_`. Socks5/Session runs a coroutine on the pending operations, handlers
--   and futures of include/concurrency; Socks5/Serving is `serve_socks5` with all its clients.
-- - Net/Ownership: socket.hpp and listener.hpp of include/net, with the calls of `close` as a
--   record.
-- - Concurrency/Ring, Concurrency/Future, Concurrency/Executor: the files of include/concurrency.
--   Each operation runs under a lock or is one step between two uses of shared state.
--   Future/History has the sequences of operations on a future, Future/Racing the statements of
--   `set_value` between the steps of coroutines, Future/Handles who owns its state, Executor/Steps
--   the step relation of the executor with all its threads; a coroutine is a number. Order,
--   Shutdown, Correlation, Destruction and Race have what holds in the reachable states; Ending has
--   how the workers end, Suspend the awaitable of `suspend`, and Current the pointer of a thread to
--   its executor.
-- - Concurrency/Task: task.hpp, the ownership of frames by moves. Task/Frames has which are
--   destroyed. Task/Promise is `promise_type`: how a coroutine is called, and what its end does to
--   the executor and to the coroutines that await it, with what others do to the links of awaiters
--   meanwhile as a parameter.
-- - Concurrency/Notify: notify.hpp. Stack is the step relation of awaiters and of notifications
--   whose loop is one step, Links the pointers between awaiters, Drained and Lost which awaiters
--   are spawned; Sweep has `notify_all` statement by statement, against coroutines that end their
--   awaiters, Sweep/Refined and Sweep/Accounted when it does what the one step does, and Spinning
--   `wait_blocking`. Concurrency/Join: join.hpp; Join/Group puts it together with the notifications
--   of its tasks, Join/Nursery with that of its only one, and Join/Blocking has its
--   `wait_blocking`. The condition variables are the conditions that they wait for.
-- - Concurrency/IoContext: the pending objects of pending.hpp and the handlers of iocontext.hpp,
--   which complete futures with `set_value`. What the kernel delivers is a parameter.
--   IoContext/Loop is a batch of completions over a heap of pending objects, IoContext/Submission
--   what coroutines submit, IoContext/EventLoop the rounds of `event_loop`, IoContext/WriteBuffers
--   who frees what is written. IoContext/Kernel is the step relation of these with a kernel; its
--   children have which pending objects are live, how many coroutines they spawn, when the ring is
--   full, and what is lost if a completion comes before its coroutine suspends. A completion is
--   what the loop reads of an entry; that this is what the kernel wrote, although the loop gives
--   the entry back before it reads it, is assumed in IoContext/Kernel.
-- - Format: the formatters of all files. A text is a list of codes, and {fmt} a record `Fmt` of
--   what the formatters use of it, with what its documentation says of that as `IsFmt`.
-- - Random: prng.hpp, with the engine and the distribution of the standard library as a record.
-- - Main: src/main.cpp. Main/Context has when coroutines find the context of `main`, Main/Ended
--   what is left when `main` returns.
-- - Tests: runs and theorems at concrete inputs.
--
-- Conventions. What an uninitialised variable holds is a parameter. A `sz` is a number whose sums
-- wrap at 2 ^ 64; objects in memory are below 2 ^ 63 bytes, which theorems take as a hypothesis.
-- Loops on fuel: that over the methods of a SOCKS5 client, in Socks5/Server, gets one more than the
-- length of the vector, and each round takes a byte; that of `notify_all` one more than there are
-- awaiters, and that of `wait_blocking` one more than the loads before the flag is set.
--
-- Not modelled: the set-up of the log, the formatter of Ethernet frames, which does not compile
-- when it is used, and the Python tools in scripts. System calls are their answers, as parameters.
pub mod Prelude
pub mod Bytes
pub mod Nic
pub mod Net
pub mod Socks5
pub mod Concurrency
pub mod Format
pub mod Main
pub mod Random
mod Tests
