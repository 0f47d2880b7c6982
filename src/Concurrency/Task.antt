-- ===== src/Concurrency/Task.antt =====
-- include/concurrency/task.hpp: a task owns the frame of a coroutine. The variables that hold tasks
-- stand in a list, under their places, `none` being the null handle; the handle of a task is moved
-- and given up as the descriptor of a socket is, so the operations are those of Net/Ownership.
pub mod Frames
pub mod Promise
use toad_jawbreaker.Prelude.{
  ℕ, Bool, not, if◌then◌else◌, List, [], ◌∷◌, Option, none, some, set, get_or, Outcome, returns,
  aborts, ◌>>=◌,
}
use toad_jawbreaker.Net.Ownership as Ownership
use toad_jawbreaker.Net.Ownership.{Variables}

-- `leaked` records the handles that `leak` forgot, and `closed` of the variables the frames that were
-- destroyed.
pub record Tasks : Type 0 where
  pub variables : Variables
  pub leaked : List ℕ

abbrev pub no_tasks : Tasks
no_tasks = record { variables = record { held = []; closed = [] }; leaked = [] }

abbrev pub task_at : ℕ → Tasks → Option ℕ
task_at this t = get_or t.variables.held this none

-- `Task()` and `Task(coroutine_handle)`
abbrev pub new_task : Option ℕ → Tasks → Tasks
new_task handle t = record t { variables = Ownership.construct handle t.variables }

-- `Task(Task &&other)`
abbrev pub task_move_construct : ℕ → Tasks → Tasks
task_move_construct other t = record t { variables = Ownership.move_construct other t.variables }

-- `Task &operator=(Task &&other)`
abbrev pub task_move_assign : ℕ → ℕ → Tasks → Tasks
task_move_assign this other t = record t {
  variables = Ownership.move_assign this other t.variables;
}

abbrev pub keep_if_held : Option ℕ → List ℕ → List ℕ
keep_if_held none leaked = leaked
keep_if_held (some handle) leaked = handle ∷ leaked

-- `leak`
unfoldable pub leak : ℕ → Tasks → Tasks
leak this t = record t {
  variables = record t.variables { held = set t.variables.held this none };
  leaked = keep_if_held (task_at this t) t.leaked;
}

-- `~Task`
abbrev pub task_destruct : ℕ → Tasks → Tasks
task_destruct this t = record t { variables = Ownership.destruct this t.variables }

-- `done`: the null handle has no coroutine.
abbrev pub task_done : Option ℕ → (ℕ → Bool) → Outcome Bool
task_done none done = aborts
task_done (some handle) done = returns (done handle)

-- `resume`, when running the coroutine from one suspension to the next does `body` to what is done.
abbrev pub resume :
    Option ℕ → (ℕ → (ℕ → Bool) → ℕ → Bool) → (ℕ → Bool) → Outcome (Bool × (ℕ → Bool))
resume none body done = aborts
resume (some handle) body done =
    let done' = if done handle then done else body handle done in
    returns (not (done' handle), done')

-- A round of `worker_thread` after the task at place `this` is taken from the queue, up to the end of
-- the scope of the task.
unfoldable pub run_task :
    ℕ → (ℕ → (ℕ → Bool) → ℕ → Bool) → (ℕ → Bool) → Tasks → Outcome ((ℕ → Bool) × Tasks)
run_task this body done t = task_done (task_at this t) done >>= λ ended.
    if ended
    then returns (done, task_destruct this t)
    else (resume (task_at this t) body done >>= λ r. task_done (task_at this t) r.1 >>= λ ended'.
        returns (r.1, task_destruct this (if ended' then t else leak this t)))

pub data Operation : Type 0 where
  constructs : Option ℕ → Operation
  move_constructs : ℕ → Operation
  move_assigns : ℕ → ℕ → Operation
  leaks : ℕ → Operation
  destructs : ℕ → Operation

abbrev pub apply : Operation → Tasks → Tasks
apply (constructs handle) t = new_task handle t
apply (move_constructs other) t = task_move_construct other t
apply (move_assigns this other) t = task_move_assign this other t
apply (leaks this) t = leak this t
apply (destructs this) t = task_destruct this t

abbrev pub run : List Operation → Tasks → Tasks
run [] t = t
run (op ∷ ops) t = run ops (apply op t)
