-- ===== src/Socks5/Process.antt =====
-- A coroutine of include/socks5/server.hpp as the operations it awaits and submits, and its run
-- against what the outside answers. Its run on the event loop is in Socks5/Session.
use toad_jawbreaker.Prelude.{ℕ, Bool, List, [], ◌∷◌, take}

-- What the coroutine does until it returns. A continuation waits for the answer.
pub data Process : Type 0 where
  -- `co_return`
  returned : Process
  -- `co_await io.submit_read_some(client, buffer, max_size)`; the answer is what was appended.
  await_read : (max_size : ℕ) → (List ℕ → Process) → Process
  -- `io.submit_write_some(client, bytes)`, which nobody waits for.
  submit_write : (bytes : List ℕ) → Process → Process
  -- `co_await handle_connection(ip, port)`; the answer says whether there is a socket.
  await_connect : (ip : List ℕ) (port : ℕ) → (Bool → Process) → Process
  -- The join set of the two forwarding tasks.
  relay : Process
  -- A loop that does not end.
  diverges : Process

-- The answers, in the order of the questions.
pub data Event : Type 0 where
  received : List ℕ → Event
  connected : Bool → Event

pub data Action : Type 0 where
  wrote : List ℕ → Action
  connecting : List ℕ → ℕ → Action
  relaying closed stuck : Action

-- The trace of a run. A read delivers at most what was asked for. With no event left, or one that
-- answers another question, the coroutine stays suspended, and the trace ends there.
abbrev pub run : Process → List Event → List Action
run returned es = closed ∷ []
run (await_read n k) (received bytes ∷ es) = run (k (take n bytes)) es
run (await_read n k) es = []
run (submit_write bytes p) es = wrote bytes ∷ run p es
run (await_connect ip port k) (connected b ∷ es) = connecting ip port ∷ run (k b) es
run (await_connect ip port k) es = connecting ip port ∷ []
run relay es = relaying ∷ []
run diverges es = stuck ∷ []
