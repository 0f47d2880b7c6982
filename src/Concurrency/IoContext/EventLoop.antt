-- ===== src/Concurrency/IoContext/EventLoop.antt =====
-- include/concurrency/iocontext.hpp: `event_loop`, for the rounds that the kernel answers. What the
-- coroutines submit meanwhile comes in between, and is in Concurrency/IoContext/Kernel.
pub mod Batches
use toad_jawbreaker.Prelude.{
  Bool, true, false, List, [], ◌∷◌, ◌++◌, Outcome, returns, ◌>>=◌, if◌then◌else◌,
}
use toad_jawbreaker.Prelude.Int.{ℤ, negsuc, is_negative, equals}
use toad_jawbreaker.Concurrency.IoContext.Loop.{Completion, batch}
use toad_jawbreaker.Concurrency.IoContext.Submission.{Sqe, Io}

-- What `io_uring_wait_cqe_timeout` returns in a round, and what `io_uring_peek_batch_cqe` gives then.
pub record Round : Type 0 where
  pub ret : ℤ
  pub seen : List Completion

-- -ETIME
abbrev pub etime : ℤ
etime = negsuc 61

-- The entries that were shown to the kernel, and whether the loop was left.
pub record Ran : Type 0 where
  pub io : Io
  pub shown : List Sqe
  pub is_left : Bool

-- What a round does after the wait: it goes on without completions, leaves the loop, or handles those
-- that it was given.
pub data Outlook : Type 0 where
  loops : Outlook
  leaves : Outlook
  handles : List Completion → Outlook

unfoldable pub outlook : Round → Outlook
outlook round =
    if is_negative round.ret
    then (if equals round.ret etime then loops else leaves)
    else handles round.seen

-- A round, `next` being the rounds after it.
abbrev pub go_on : Outlook → (Io → Outcome Ran) → Io → List Sqe → Outcome Ran
go_on loops next io shown = next io
go_on leaves next io shown = returns (record { io = io; shown = shown; is_left = true })
go_on (handles cs) next io shown = batch cs io.loop >>= λ loop. next (record io { loop = loop })

unfoldable pub event_loop : List Round → Io → List Sqe → Outcome Ran
event_loop [] io shown = returns (record { io = io; shown = shown; is_left = false })
event_loop (round ∷ rounds) io shown =
    let shown' = shown ++ io.queue in
    go_on (outlook round) (λ io'. event_loop rounds io' shown') (record io { queue = [] }) shown'
