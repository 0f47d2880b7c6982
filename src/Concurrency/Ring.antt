-- ===== src/Concurrency/Ring.antt =====
-- include/concurrency/ring.hpp: a queue behind a mutex. Each operation runs under the lock, so the
-- uses of several threads are one sequence of operations. The capacity is not used.
use toad_jawbreaker.Prelude.{
  ◌≡◌, sym, ap, ◌∙◌, List, [], ◌∷◌, ◌++◌, Option, none, some, Outcome, returns, aborts,
  append_assoc, append-nil,
}

pub data Operation {ℓ} (T : Type ℓ) : Type ℓ where
  pushes : T → Operation T
  tries : Operation T

module _ {ℓ} {T : Type ℓ} where
  -- `push`, and `emplace`, which copies its argument too.
  unfoldable pub push : T → List T → List T
  push value ring = ring ++ (value ∷ [])

  -- `pop` of an empty queue is undefined: nothing is tested.
  unfoldable pub pop : List T → Outcome (T × List T)
  pop [] = aborts
  pop (value ∷ ring) = returns (value, ring)

  unfoldable pub try_pop : List T → Option T × List T
  try_pop [] = (none, [])
  try_pop (value ∷ ring) = (some value, ring)

  -- The values that a sequence of operations pops, and what it leaves.
  pub run : List (Operation T) → List T → List T × List T
  run [] ring = ([], ring)
  run (pushes value ∷ ops) ring = run ops (push value ring)
  run (tries ∷ ops) ring =
      let (popped, ring') = try_pop ring in
      let (values, left) = run ops ring' in
      (elim popped [ none ↦ values | some value ↦ value ∷ values ], left)

  abbrev pub pushed : List (Operation T) → List T
  pushed [] = []
  pushed (pushes value ∷ ops) = value ∷ pushed ops
  pushed (tries ∷ ops) = pushed ops

  -- First in, first out, with nothing lost and nothing made up: what was popped, and then what is
  -- left, is what was there, and then what was pushed.
  pub run_fifo :
      (ops : List (Operation T)) (ring : List T)
      → (run ops ring).0 ++ (run ops ring).1 ≡ ring ++ pushed ops
  unfolding run push try_pop
  run_fifo [] ring = sym (append-nil ring)
  run_fifo (pushes value ∷ ops) ring =
      run_fifo ops (ring ++ (value ∷ [])) ∙ append_assoc ring (value ∷ []) (pushed ops)
  run_fifo (tries ∷ ops) [] = run_fifo ops []
  run_fifo (tries ∷ ops) (value ∷ ring) = ap (λ l. value ∷ l) (run_fifo ops ring)
