-- ===== src/Concurrency/IoContext/Kernel/Spawning.antt =====
-- How many coroutines the operations that are submitted in include/concurrency/iocontext.hpp spawn.
use toad_jawbreaker.Prelude.{
  ℕ, suc, ◌+◌, ◌≡◌, ◌≤◌, refl, ap, Bool, List, [], ◌∷◌, ◌++◌, length, length-append, arith,
}
use toad_jawbreaker.Concurrency.IoContext.Loop.{Completion}
use toad_jawbreaker.Concurrency.IoContext.Loop.Spawned.{batch-Spawns}
use toad_jawbreaker.Concurrency.IoContext.Submission.{Sqe, Io}
use toad_jawbreaker.Concurrency.IoContext.Kernel.{
  System, Step, submits, awaits, writes_vector, enters, finishes, handles, Reachable, starts,
  goes_on, names_of, completions_of, outstanding,
}
use toad_jawbreaker.Concurrency.IoContext.Kernel.Outstanding.{submit-eq}

abbrev pub submitted_by : {s s' : System} → Step s s' → ℕ
submitted_by (submits a p r io unused e) = 1
submitted_by (awaits a p p' e) = 0
submitted_by (writes_vector vectors) = 0
submitted_by enters = 0
submitted_by (finishes front sqe back res at) = 0
submitted_by (handles cs rest loop at e) = 0

-- How many operations were submitted on the way to a state.
abbrev pub submitted : {has_room : List Sqe → Bool} {s : System} → Reachable has_room s → ℕ
submitted (starts vectors) = 0
submitted (goes_on r st) = submitted r + submitted_by st

length-names_of : (l : List Sqe) → length (names_of l) ≡ length l
length-names_of [] = refl
length-names_of (x ∷ l) = ap suc (length-names_of l)

length-completions_of : (l : List Completion) → length (completions_of l) ≡ length l
length-completions_of [] = refl
length-completions_of (x ∷ l) = ap suc (length-completions_of l)

length-outstanding :
    (s : System)
    → length (outstanding s) ≡ length s.io.queue + (length s.in_flight + length s.completed)
length-outstanding s = omega (
  arith,
  length-append (names_of s.io.queue) (names_of s.in_flight ++ completions_of s.completed),
  length-append (names_of s.in_flight) (completions_of s.completed),
  length-names_of s.io.queue,
  length-names_of s.in_flight,
  length-completions_of s.completed,
)

-- Coroutines that were spawned, and operations that can still spawn one.
abbrev spending : System → ℕ
spending s =
    length s.io.loop.spawned + (length s.io.queue + (length s.in_flight + length s.completed))

Step-spending : {s s' : System} (st : Step s s') → spending s' ≤ spending s + submitted_by st
Step-spending (submits {s} a p r io unused e) =
    let same = submit-eq a p r s.io io e in
    omega (
      arith,
      ap (λ (x : Io). length x.queue) same,
      ap (λ (x : Io). length x.loop.spawned) same,
      length-append s.io.queue (record { user_data = a; request = r } ∷ []),
    )
Step-spending (awaits a p p' e) = omega arith
Step-spending (writes_vector vectors) = omega arith
Step-spending (enters {s}) = omega (arith, length-append s.in_flight s.io.queue)
Step-spending (finishes {s} front sqe back res at) = omega (
  arith,
  ap length at,
  length-append front (sqe ∷ back),
  length-append front back,
  length-append s.completed (record { user_data = sqe.user_data; res = res } ∷ []),
)
Step-spending (handles {s} cs rest loop at e) =
    omega (arith, ap length at, length-append cs rest, batch-Spawns cs s.io.loop loop e)

submitted-spending :
    {has_room : List Sqe → Bool} {s : System} (r : Reachable has_room s) → spending s ≤ submitted r
submitted-spending (starts vectors) = omega arith
submitted-spending (goes_on r st) = omega (arith, submitted-spending r, Step-spending st)

-- However the kernel completes what it is shown, the coroutines that were spawned and the operations that
-- are outstanding are together no more than the operations that were submitted.
pub spawned_bound :
    {has_room : List Sqe → Bool} {s : System} (r : Reachable has_room s)
    → length s.io.loop.spawned + length (outstanding s) ≤ submitted r
spawned_bound {s = s} r = omega (arith, submitted-spending r, length-outstanding s)
