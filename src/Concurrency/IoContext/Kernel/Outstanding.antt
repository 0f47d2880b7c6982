-- ===== src/Concurrency/IoContext/Kernel/Outstanding.antt =====
-- What of the pending objects of include/concurrency/iocontext.hpp is live.
use toad_jawbreaker.Prelude.{
  store, ℕ, ◌+◌, ◌≡◌, ◌≤◌, refl, sym, ap, ◌∙◌, Bool, true, false, List, [], ◌∷◌, ◌++◌, Option, none,
  some, returns, aborts, arith, times, times-append, times-one, times-zero, Bool-cases, inl, inr,
  if◌then◌else◌, if-elim, ◌==◌, returns-injective, eq→≡, eq_false→≢,
}
use mathlib.Core.Path.{subst}
use toad_jawbreaker.Prelude.Int.{ℤ}
use toad_jawbreaker.Concurrency.IoContext.Loop.{PendingVariant, Loop, Completion, batch}
use toad_jawbreaker.Concurrency.IoContext.Loop.Freed.{listed, batch-heap}
use toad_jawbreaker.Concurrency.IoContext.Submission.{Request, Sqe, Io, submit}
use toad_jawbreaker.Concurrency.IoContext.Kernel.{
  System, enter, Step, submits, awaits, writes_vector, enters, finishes, handles, Reachable, starts,
  goes_on, names_of, completions_of, outstanding,
}

abbrev pub present : Option PendingVariant → ℕ
present none = 0
present (some p) = 1

abbrev Counted : System → Type 0
Counted s = (a : ℕ) → times a (outstanding s) ≡ present (s.io.loop.heap a)

times-names_of :
    (d : ℕ) (l k : List Sqe)
    → times d (names_of (l ++ k)) ≡ times d (names_of l) + times d (names_of k)
times-names_of d [] k = omega arith
times-names_of d (x ∷ l) k = omega (arith, times-names_of d l k)

times-completions_of :
    (d : ℕ) (l k : List Completion)
    → times d (completions_of (l ++ k)) ≡ times d (completions_of l) + times d (completions_of k)
times-completions_of d [] k = omega arith
times-completions_of d (x ∷ l) k = omega (arith, times-completions_of d l k)

pub times-outstanding :
    (d : ℕ) (s : System)
    → times d (outstanding s)
      ≡ times d (names_of s.io.queue)
        + (times d (names_of s.in_flight) + times d (completions_of s.completed))
times-outstanding d s = omega (
  arith,
  times-append d (names_of s.io.queue) (names_of s.in_flight ++ completions_of s.completed),
  times-append d (names_of s.in_flight) (completions_of s.completed),
)

-- A submission that returns has found room.
pub submit-eq :
    (a : ℕ) (p : PendingVariant) (r : Request) (io io' : Io)
    → submit a p r io ≡ returns io'
    → record io {
      loop = record io.loop { heap = store a (some p) io.loop.heap };
      queue = io.queue ++ (record { user_data = a; request = r } ∷ []);
    }
      ≡ io'
unfolding submit
submit-eq a p r io io' =
    if-elim
      (λ x.
        x ≡ returns io'
        → record io {
          loop = record io.loop { heap = store a (some p) io.loop.heap };
          queue = io.queue ++ (record { user_data = a; request = r } ∷ []);
        }
          ≡ io')
      (io.has_room io.queue) _ aborts (λ _ e. returns-injective refl e) λ _ e. cc

-- An address that is not in use comes to hold an object.
store-present :
    (a : ℕ) (p : PendingVariant) (heap : ℕ → Option PendingVariant) (d : ℕ)
    → present (heap a) ≡ 0
    → present (store a (some p) heap d) ≡ times d (a ∷ []) + present (heap d)
store-present a p heap d unused =
    if-elim (λ x. present x ≡ times d (a ∷ []) + present (heap d)) (d == a) (some p) (heap d)
      (λ q.
        omega (arith, unused, times-one d a (eq→≡ d a q), ap (λ x. present (heap x)) (eq→≡ d a q)))
      λ q. omega (arith, times-zero d a (eq_false→≢ d a q))

replace-present :
    (a : ℕ) (p p' : PendingVariant) (heap : ℕ → Option PendingVariant) (d : ℕ)
    → heap a ≡ some p
    → present (store a (some p') heap d) ≡ present (heap d)
replace-present a p p' heap d e =
    if-elim (λ x. present x ≡ present (heap d)) (d == a) (some p') (heap d)
      (λ q. ap present (sym e) ∙ ap (λ x. present (heap x)) (sym (eq→≡ d a q))) λ _. refl

pub present-bound : (o : Option PendingVariant) → present o ≤ 1
present-bound none = omega arith
present-bound (some p) = omega arith

-- What a batch lists is completed, and what it does not list is not.
listed-times :
    (d : ℕ) (cs : List Completion)
    → (listed d cs ≡ true → 1 ≤ times d (completions_of cs))
      × (listed d cs ≡ false → times d (completions_of cs) ≡ 0)
listed-times d [] = (λ e. cc, λ e. refl)
listed-times d (c ∷ cs) = ground (arith, listed-times d cs)

-- The batch of completions that was handled leaves the count right.
handles-Counted :
    (s : System) (cs rest : List Completion) (loop : Loop)
    → s.completed ≡ cs ++ rest
    → batch cs s.io.loop ≡ returns loop
    → Counted s
    → Counted (record s { io = record s.io { loop = loop }; completed = rest })
handles-Counted s cs rest loop at e h d =
    let s' : System = record s { io = record s.io { loop = loop }; completed = rest } in
    let freed = (batch-heap cs s.io.loop loop e).2 d in
    let split =
      times-outstanding d s
      ∙ ap (λ (n : ℕ). times d (names_of s.io.queue) + (times d (names_of s.in_flight) + n))
          (ap (λ l. times d (completions_of l)) at ∙ times-completions_of d cs rest) in
    elim (Bool-cases (listed d cs)) [
      | inl gone ↦ omega (
        arith,
        h d,
        split,
        times-outstanding d s',
        (listed-times d cs).0 gone,
        present-bound (s.io.loop.heap d),
        ap present (freed ∙ ap (λ b. if b then none else s.io.loop.heap d) gone),
      )
      | inr kept ↦ omega (
        arith,
        h d,
        split,
        times-outstanding d s',
        (listed-times d cs).1 kept,
        ap present (freed ∙ ap (λ b. if b then none else s.io.loop.heap d) kept),
      )
    ]

finishes-Counted :
    (s : System) (front : List Sqe) (sqe : Sqe) (back : List Sqe) (res : ℤ)
    → s.in_flight ≡ front ++ (sqe ∷ back)
    → Counted s
    → Counted (record s {
      in_flight = front ++ back;
      completed = s.completed ++ (record { user_data = sqe.user_data; res = res } ∷ []);
    })
finishes-Counted s front sqe back res at h d = omega (
  arith,
  h d,
  times-outstanding d s,
  times-outstanding d (record s {
    in_flight = front ++ back;
    completed = s.completed ++ (record { user_data = sqe.user_data; res = res } ∷ []);
  }),
  ap (λ l. times d (names_of l)) at,
  times-names_of d front (sqe ∷ back),
  times-names_of d front back,
  times-completions_of d s.completed (record { user_data = sqe.user_data; res = res } ∷ []),
)

submits-Counted :
    (s : System) (a : ℕ) (p : PendingVariant) (r : Request) (io : Io)
    → s.io.loop.heap a ≡ none
    → submit a p r s.io ≡ returns io
    → Counted s
    → Counted (record s { io = io })
submits-Counted s a p r io unused e h d =
    subst (λ (x : Io). times d (outstanding (record s { io = x })) ≡ present (x.loop.heap d))
      (submit-eq a p r s.io io e)
      (omega (
        arith,
        h d,
        times-outstanding d s,
        times-outstanding d (record s {
          io = record s.io {
            loop = record s.io.loop { heap = store a (some p) s.io.loop.heap };
            queue = s.io.queue ++ (record { user_data = a; request = r } ∷ []);
          };
        }),
        times-names_of d s.io.queue (record { user_data = a; request = r } ∷ []),
        store-present a p s.io.loop.heap d (ap present unused),
      ))

Step-Counted : {s s' : System} → Step s s' → Counted s → Counted s'
Step-Counted (submits {s} a p r io unused e) h d = submits-Counted s a p r io unused e h d
Step-Counted (awaits {s} a p p' e) h d = h d ∙ sym (replace-present a p p' s.io.loop.heap d e)
Step-Counted (writes_vector vectors) h d = h d
Step-Counted (enters {s}) h d = omega (
  arith,
  h d,
  times-outstanding d s,
  times-outstanding d (enter s),
  times-names_of d s.in_flight s.io.queue,
)
Step-Counted (finishes {s} front sqe back res at) h d = finishes-Counted s front sqe back res at h d
Step-Counted (handles {s} cs rest loop at e) h d = handles-Counted s cs rest loop at e h d

-- In every reachable state, whatever the kernel and the coroutines do, a pending object is live as long
-- as exactly one entry or completion names it, and nothing names memory that is not in use.
pub outstanding_live :
    {has_room : List Sqe → Bool} {s : System}
    → Reachable has_room s
    → (a : ℕ) → times a (outstanding s) ≡ present (s.io.loop.heap a)
outstanding_live (starts vectors) a = refl
outstanding_live (goes_on r st) a = Step-Counted st (outstanding_live r) a
