-- ===== src/Tests/LoopTests.antt =====
-- A batch of the event loop of include/concurrency on a concrete input.
use toad_jawbreaker.Prelude.{
  store, ◌≡◌, refl, List, [], ◌∷◌, none, some, returns, if◌then◌else◌, ◌==◌,
}
use toad_jawbreaker.Concurrency.Future.{set_value}
use toad_jawbreaker.Prelude.Int.{pos, negsuc}
use toad_jawbreaker.Concurrency.IoContext.{handle_connect, handle_read_some_vec}
use toad_jawbreaker.Concurrency.IoContext.Reading.{waiting}
use toad_jawbreaker.Concurrency.IoContext.Loop.{
  connect, write_some, read_some_vec, Loop, Completion, submit_write_some, handle_pending, batch,
}

-- Object 1 connects socket 8, object 2 reads into vector 0, and object 3 writes.
abbrev before : Loop
before = record {
  heap = λ a.
      if a == 1
      then some (connect (record { sockfd = 8; handle = some (waiting 4) }))
      else (if a == 2
          then some
              (read_some_vec (record { sockfd = 8; handle = some (waiting 5); initial_size = 1 }) 0)
          else (if a == 3 then some (write_some (submit_write_some 8 (1 ∷ 2 ∷ []))) else none));
  vectors = λ v. 9 ∷ 6 ∷ 0 ∷ [];
  spawned = [];
}

abbrev completions : List Completion
completions =
    record { user_data = 2; res = pos 1 }
    ∷ record { user_data = 1; res = negsuc 110 }
    ∷ record { user_data = 3; res = pos 2 }
    ∷ []

abbrev after : Loop
after = record {
  heap = store 3 none (store 1 none (store 2 none before.heap));
  vectors = store 0 (9 ∷ 6 ∷ []) before.vectors;
  spawned = 5 ∷ 4 ∷ [];
}

completions-batch : batch completions before ≡ returns after
unfolding batch handle_pending handle_connect handle_read_some_vec set_value
completions-batch = refl
