-- ===== src/Concurrency/IoContext/EventLoop/Batches.antt =====
-- The event loop of include/concurrency/iocontext.hpp as one batch.
use toad_jawbreaker.Prelude.{
  ℕ, ◌≡◌, ◌≢◌, ◌==◌, map, arith, refl, sym, ap, ◌∙◌, Bool, true, false, List, [], ◌∷◌, ◌++◌,
  append-nil, Outcome, returns, ◌>>=◌, >>=-assoc, >>=-ext,
}
use toad_jawbreaker.Prelude.Int.{pos, negsuc}
use toad_jawbreaker.Concurrency.IoContext.Loop.{Completion, Loop, batch, complete}
use toad_jawbreaker.Concurrency.IoContext.Submission.{Sqe, Io}
use toad_jawbreaker.Concurrency.IoContext.EventLoop.{
  Round, Ran, Outlook, loops, leaves, handles, outlook, go_on, event_loop,
}

abbrev pub handled_by : Outlook → List Completion → List Completion
handled_by loops later = later
handled_by leaves later = []
handled_by (handles cs) later = cs ++ later

-- The completions of the rounds up to the one that leaves the loop.
abbrev handled : List Round → List Completion
handled [] = []
handled (round ∷ rounds) = handled_by (outlook round) (handled rounds)

abbrev pub left_by : Outlook → Bool → Bool
left_by loops later = later
left_by leaves later = true
left_by (handles cs) later = later

-- Whether some round leaves the loop.
abbrev is_left_by : List Round → Bool
is_left_by [] = false
is_left_by (round ∷ rounds) = left_by (outlook round) (is_left_by rounds)

batch-append :
    (cs ds : List Completion) (w : Loop) → batch (cs ++ ds) w ≡ (batch cs w >>= λ w'. batch ds w')
unfolding batch
batch-append [] ds w = refl
batch-append (c ∷ cs) ds w =
    >>=-ext (complete c w) (λ x. batch (cs ++ ds) x) (λ x. batch cs x >>= λ w'. batch ds w')
      (λ x. batch-append cs ds x)
    ∙ sym (>>=-assoc (complete c w) (λ x. batch cs x) λ w'. batch ds w')

-- What the rounds come to, with the loop that the batch of their completions leaves.
abbrev pub ran : Bool → Io → List Sqe → Loop → Ran
ran is_left io shown loop = record {
  io = record io { loop = loop };
  shown = shown;
  is_left = is_left;
}

go_on_lem :
    (o : Outlook) (next : Io → Outcome Ran) (later : List Completion) (is_left : Bool) (io : Io)
    (shown : List Sqe)
    → ((loop : Loop)
        → next (record io { loop = loop })
          ≡ (batch later loop >>= λ l. returns (ran is_left io shown l)))
    → go_on o next io shown
      ≡ (batch (handled_by o later) io.loop >>= λ l. returns (ran (left_by o is_left) io shown l))
unfolding batch
go_on_lem loops next later is_left io shown h = h io.loop
go_on_lem leaves next later is_left io shown h = refl
go_on_lem (handles cs) next later is_left io shown h =
    let end = λ (l : Loop). returns (ran is_left io shown l) in
    >>=-ext (batch cs io.loop) (λ l. next (record io { loop = l })) (λ l. batch later l >>= end) h
    ∙ sym (>>=-assoc (batch cs io.loop) (λ l. batch later l) end)
    ∙ ap (λ m. m >>= end) (sym (batch-append cs later io.loop))

rounds_lem :
    (rounds : List Round) (io : Io) (shown : List Sqe)
    → event_loop rounds (record io { queue = [] }) shown ≡ (
        batch (handled rounds) io.loop >>= λ l.
        returns (ran (is_left_by rounds) (record io { queue = [] }) shown l))
unfolding event_loop batch
rounds_lem [] io shown = refl
rounds_lem (round ∷ rounds) io shown = rw (append-nil shown) (
    go_on_lem (outlook round) (λ io'. event_loop rounds io' shown) (handled rounds)
      (is_left_by rounds) (record io { queue = [] }) shown
      λ loop. rounds_lem rounds (record io { loop = loop }) shown)

-- The event loop, for a round or more, shows the kernel the entries that were queued, handles the
-- completions of all rounds up to the one that leaves the loop as if they were one batch, and is left
-- if there is such a round.
event_loop-batch :
    (round : Round) (rounds : List Round) (io : Io) (shown : List Sqe)
    → event_loop (round ∷ rounds) io shown ≡ (
        batch (handled (round ∷ rounds)) io.loop >>= λ loop. returns (record {
          io = record io { loop = loop; queue = [] };
          shown = shown ++ io.queue;
          is_left = is_left_by (round ∷ rounds);
        }))
unfolding event_loop
event_loop-batch round rounds io shown =
    go_on_lem (outlook round) (λ io'. event_loop rounds io' (shown ++ io.queue)) (handled rounds)
      (is_left_by rounds) (record io { queue = [] }) (shown ++ io.queue)
      λ loop. rounds_lem rounds (record io { loop = loop }) (shown ++ io.queue)

-- What a wait can come to: the timeout runs out, it fails with another error -(k + 1), or it succeeds and
-- completions are there.
pub data Wait : Type 0 where
  times_out : Wait
  fails : (k : ℕ) → k ≢ 61 → Wait
  succeeds : ℕ → List Completion → Wait

abbrev pub round_of : Wait → Round
round_of times_out = record { ret = negsuc 61; seen = [] }
round_of (fails k other) = record { ret = negsuc k; seen = [] }
round_of (succeeds n cs) = record { ret = pos n; seen = cs }

-- The completions that come before a wait fails, and whether one fails.
abbrev pub before_failure : List Wait → List Completion
before_failure [] = []
before_failure (times_out ∷ waits) = before_failure waits
before_failure (fails k other ∷ waits) = []
before_failure (succeeds n cs ∷ waits) = cs ++ before_failure waits

abbrev pub some_fails : List Wait → Bool
some_fails [] = false
some_fails (times_out ∷ waits) = some_fails waits
some_fails (fails k other ∷ waits) = true
some_fails (succeeds n cs ∷ waits) = some_fails waits

outlook-fails : (k : ℕ) (other : k ≢ 61) → outlook (round_of (fails k other)) ≡ leaves
unfolding outlook
outlook-fails k other = let e : (k == 61) ≡ false = ground (arith, other) in rw (outlook, e) refl

handled-round_of :
    (waits : List Wait)
    → (handled (map round_of waits) ≡ before_failure waits)
      × (is_left_by (map round_of waits) ≡ some_fails waits)
unfolding outlook
handled-round_of [] = (refl, refl)
handled-round_of (times_out ∷ waits) = handled-round_of waits
handled-round_of (fails k other ∷ waits) = (
  ap (λ o. handled_by o (handled (map round_of waits))) (outlook-fails k other),
  ap (λ o. left_by o (is_left_by (map round_of waits))) (outlook-fails k other),
)
handled-round_of (succeeds n cs ∷ waits) =
    let (h, l) = handled-round_of waits in (ap (λ ds. cs ++ ds) h, l)

-- The event loop, for one wait or more, shows the kernel the entries that were queued, goes on after a wait
-- that times out, handles the completions of the waits that succeed, up to the first that fails, as if they
-- were one batch, and is left exactly if a wait fails.
pub event_loop-waits :
    (wait : Wait) (waits : List Wait) (io : Io) (shown : List Sqe)
    → event_loop (map round_of (wait ∷ waits)) io shown ≡ (
        batch (before_failure (wait ∷ waits)) io.loop >>= λ loop. returns (record {
          io = record io { loop = loop; queue = [] };
          shown = shown ++ io.queue;
          is_left = some_fails (wait ∷ waits);
        }))
event_loop-waits wait waits io shown =
    let (h, l) = handled-round_of (wait ∷ waits) in
    event_loop-batch (round_of wait) (map round_of waits) io shown
    ∙ ap
        (λ cs. batch cs io.loop >>= λ loop. returns (record {
          io = record io { loop = loop; queue = [] };
          shown = shown ++ io.queue;
          is_left = is_left_by (map round_of (wait ∷ waits));
        }))
        h
    ∙ ap
        (λ b. batch (before_failure (wait ∷ waits)) io.loop >>= λ loop. returns (record {
          io = record io { loop = loop; queue = [] };
          shown = shown ++ io.queue;
          is_left = b;
        }))
        l
