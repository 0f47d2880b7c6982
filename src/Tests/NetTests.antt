-- ===== src/Tests/NetTests.antt =====
-- The sockets of include/net on a concrete input.
use toad_jawbreaker.Prelude.{times, ◌≡◌, refl, List, [], ◌∷◌, arith}
use toad_jawbreaker.Net.Ownership.{
  Operation, constructs, move_constructs, move_assigns, destructs, run, move_construct, move_assign,
  destruct,
}
use toad_jawbreaker.Net.Ownership.Conserved.{opened, no_variables, closes_each}

-- Two sockets from 7 and 9; the first is assigned to the second and to itself, and moved on.
abbrev moves : List Operation
moves =
    constructs 7
    ∷ constructs 9
    ∷ move_assigns 0 0
    ∷ move_assigns 1 0
    ∷ move_constructs 1
    ∷ destructs 2
    ∷ destructs 1
    ∷ destructs 0
    ∷ []

closes_each_example : times 9 (run moves no_variables).closed ≡ opened 9 moves
unfolding move_construct move_assign destruct
closes_each_example =
    closes_each 9 moves
      (
        tt,
        (
          tt,
          (
            (omega arith, omega arith),
            (
              (omega arith, omega arith),
              (omega arith, (omega arith, (omega arith, (omega arith, tt)))),
            ),
          ),
        ),
      )
      (refl, (refl, (refl, tt)))
