-- ===== src/Concurrency/IoContext/Kernel/Handled.antt =====
-- What the completions that the event loop of include/concurrency/iocontext.hpp handles name.
use toad_jawbreaker.Prelude.{
  ℕ, ◌≡◌, ◌≢◌, ◌≤◌, refl, sym, ap, Bool, List, [], ◌∷◌, Option, arith, times, times-one, All,
}
use toad_jawbreaker.Concurrency.IoContext.Loop.{PendingVariant, Completion}
use toad_jawbreaker.Concurrency.IoContext.Loop.Freed.{Live, Distinct}
use toad_jawbreaker.Concurrency.IoContext.Submission.{Sqe}
use toad_jawbreaker.Concurrency.IoContext.Kernel.{System, Reachable, completions_of}
use toad_jawbreaker.Concurrency.IoContext.Kernel.Outstanding.{
  present, present-bound, times-outstanding, outstanding_live,
}

times-others :
    (a : ℕ) (cs : List Completion) → times a (completions_of cs) ≡ 0 → All (λ c. c.user_data ≢ a) cs
times-others a [] h = tt
times-others a (c ∷ cs) h = (
  λ e. absurd (omega (arith, h, times-one a c.user_data (sym e))),
  times-others a cs (omega (arith, h)),
)

times-Distinct : (cs : List Completion) → ((d : ℕ) → times d (completions_of cs) ≤ 1) → Distinct cs
times-Distinct [] h = tt
times-Distinct (c ∷ cs) h = (
  times-others c.user_data cs
      (omega (arith, h c.user_data, times-one c.user_data c.user_data refl)),
  times-Distinct cs (λ d. omega (arith, h d)),
)

times-Live :
    (heap : ℕ → Option PendingVariant) (cs : List Completion)
    → ((d : ℕ) → times d (completions_of cs) ≤ present (heap d))
    → All (Live heap) cs
times-Live heap [] h = tt
times-Live heap (c ∷ cs) h = (
  λ e. absurd (omega (arith, h c.user_data, ap present e, times-one c.user_data c.user_data refl)),
  times-Live heap cs (λ d. omega (arith, h d)),
)

-- In every reachable state the completions that are there name pending objects that are live, and each
-- another one: no batch of the event loop uses an object after it was deleted, or deletes it twice.
pub completed_safe :
    {has_room : List Sqe → Bool} {s : System}
    → Reachable has_room s
    → All (Live s.io.loop.heap) s.completed × Distinct s.completed
completed_safe {s = s} r =
    let below : (d : ℕ) → times d (completions_of s.completed) ≤ present (s.io.loop.heap d) =
      λ d. omega (arith, outstanding_live r d, times-outstanding d s) in
    (
      times-Live s.io.loop.heap s.completed below,
      times-Distinct s.completed (λ d. omega (arith, below d, present-bound (s.io.loop.heap d))),
    )
