-- ===== src/Concurrency/Notify/Sweep/Refined.antt =====
-- The loop of `notify_all` of include/concurrency/notify.hpp, with its steps between those of others,
-- against the loop as one step.
use toad_jawbreaker.Prelude.{
  ℕ, suc, ◌+◌, ◌≡◌, refl, sym, ap, ◌∙◌, List, [], ◌∷◌, ◌++◌, append_assoc, append-nil, All,
  All-front, All-back, Option, none, some, length, Bool, true, false,
}
use mathlib.Core.Path.{subst}
use toad_jawbreaker.Concurrency.Notify.{Notify, take_head, exchange_head}
use toad_jawbreaker.Concurrency.Notify.Stack.{
  Stage, linked, World, after_round, Step, asks, loads, tries, fails, fires, drains, Reachable,
  Chain, ends, leads,
}
use toad_jawbreaker.Concurrency.Notify.Stack as Stack
use toad_jawbreaker.Concurrency.Notify.Links.{
  notify_loop-Chain, link-Chain, exchange_head-elim, after_round-spawned,
}
use toad_jawbreaker.Concurrency.Notify.Drained.{Reachable-Inv, pushes-out}
use toad_jawbreaker.Concurrency.Notify.Sweep.{
  Place, outside, tests, links, Sweep, IsElsewhere, SweepStep, acts, takes, spawns, reads,
  reads_freed, leaves, ends_awaiter, Swept, starts, goes_on, IsCarefulStep, IsCareful,
}

-- The pointer from which the loop goes on.
abbrev pub pointer : Place → Option ℕ
pointer outside = none
pointer (tests current) = current
pointer (links a) = some a

-- The state once the loop has spawned the awaiters ahead of it, too.
abbrev pub foreseen : Sweep → List ℕ → World
foreseen s ahead = record s.world { spawned = (s.batch ++ ahead) ++ s.world.spawned }

-- The links lead through the awaiters ahead of the loop, and with these spawned the state is one that
-- loops which are one step reach.
pub record Refines (s : Sweep) : Type 0 where
  pub ahead : List ℕ
  pub chain : Chain s.world.notify.next (pointer s.place) ahead
  pub reached : Reachable (foreseen s ahead)

pub Chain-none :
    {next : ℕ → Option ℕ} (current : Option ℕ) (l : List ℕ)
    → Chain next current l
    → current ≡ none
    → l ≡ []
Chain-none _ _ ends e = refl
Chain-none _ _ (leads a c) e = cc

pub Chain-some :
    {next : ℕ → Option ℕ} (current : Option ℕ) (l : List ℕ) (a : ℕ)
    → Chain next current l
    → current ≡ some a
    → (rest : List ℕ) × (l ≡ a ∷ rest) × Chain next (next a) rest
Chain-some _ _ a ends e = cc
Chain-some {next} _ _ a (leads {l} b c) e =
    let same : b ≡ a = cc in (l, ap (λ x. x ∷ l) same, subst (λ x. Chain next (next x) l) same c)

append-nils : {l m : List ℕ} → l ≡ [] → m ≡ [] → l ++ m ≡ []
append-nils h k = rw (h, k) refl

-- Outside of the loop there is no batch.
no_batch-step :
    {s s' : Sweep}
    → SweepStep s s'
    → (s.place ≡ outside → s.batch ≡ [])
    → s'.place ≡ outside
    → s'.batch ≡ []
no_batch-step (acts st e) h p = h p
no_batch-step (takes q) h p = cc
no_batch-step (spawns a q) h p = cc
no_batch-step (reads a q e) h p = cc
no_batch-step (reads_freed a to q e) h p = cc
no_batch-step (leaves q) h p = refl
no_batch-step (ends_awaiter front a back w) h p = h p

pub no_batch : {s : Sweep} → Swept s → s.place ≡ outside → s.batch ≡ []
no_batch starts p = refl
no_batch (goes_on r st) p = no_batch-step st (no_batch r) p

-- A step of others leaves the links between the awaiters that are in the stack or ahead.
elsewhere-Chain :
    {w w' : World} (st : Step w w')
    → IsElsewhere st
    → (current : Option ℕ) (l : List ℕ) → Chain w.notify.next current l
    → All (λ b. w.stages b ≡ linked) l
    → Chain w'.notify.next current l
elsewhere-Chain (asks a s) e current l c all = c
elsewhere-Chain (loads a s) e current l c all = c
elsewhere-Chain (tries {w} a to s) e current l c all =
    let c' =
      link-Chain a to w.notify.next w.stages current l (pushes-out (w.stages a) to s) c all in
    exchange_head-elim (λ r. Chain (after_round a r w).notify.next current l) a to w.notify
      (λ _. c') c'
elsewhere-Chain (fails {w} a to s) e current l c all =
    link-Chain a to w.notify.next w.stages current l (pushes-out (w.stages a) to s) c all
elsewhere-Chain fires e current l c all = c
elsewhere-Chain (drains fuel k e') e current l c all = elim e [ ]

-- A step of others does not look at what was spawned.
after_round-recorded :
    (a : ℕ) (r : Bool × Notify) (w : World) (l : List ℕ)
    → after_round a r (record w { spawned = l }) ≡ record (after_round a r w) { spawned = l }
after_round-recorded a (true, n) w l = refl
after_round-recorded a (false, n) w l = refl

elsewhere-spawned :
    {w w' : World} (st : Step w w')
    → IsElsewhere st
    → (front : List ℕ)
    → Step (record w { spawned = front ++ w.spawned }) (record w' { spawned = front ++ w'.spawned })
elsewhere-spawned (asks a s) e front = asks a s
elsewhere-spawned (loads a s) e front = loads a s
elsewhere-spawned (tries {w} a to s) e front =
    let r = exchange_head a to w.notify in
    let l = front ++ w.spawned in
    subst (Step (record w { spawned = l }))
      (after_round-recorded a r w l
        ∙ ap (λ k. record (after_round a r w) { spawned = front ++ k })
            (sym (after_round-spawned a r w)))
      (tries {w = record w { spawned = l }} a to s)
elsewhere-spawned (fails {w} a to s) e front =
    fails {w = record w { spawned = front ++ w.spawned }} a to s
elsewhere-spawned fires e front = fires
elsewhere-spawned (drains fuel k e') e front = elim e [ ]

-- The awaiters ahead are in the stack's links.
ahead-linked : (s : Sweep) (h : Refines s) → All (λ b. s.world.stages b ≡ linked) h.ahead
ahead-linked s h =
    let i = Reachable-Inv h.reached in
    let P : ℕ → Type 0 = λ b. s.world.stages b ≡ linked in
    All-back P s.batch h.ahead (
      All-front P (s.batch ++ h.ahead) s.world.spawned (
        All-back P i.waiting ((s.batch ++ h.ahead) ++ s.world.spawned)
          (subst (All P) i.split i.all_linked)))

step-Refines :
    {s s' : Sweep} → Swept s → (st : SweepStep s s') → IsCarefulStep st → Refines s → Refines s'
step-Refines r (acts {s} st e) q h = record {
  ahead = h.ahead;
  chain = elsewhere-Chain st e (pointer s.place) h.ahead h.chain (ahead-linked s h);
  reached = Stack.goes_on h.reached (elsewhere-spawned st e (s.batch ++ h.ahead));
}
step-Refines r (takes {s} p) q h =
    let i = Reachable-Inv h.reached in
    let none_ahead = Chain-none (pointer s.place) h.ahead h.chain (ap pointer p) in
    record {
      ahead = i.waiting;
      chain = i.chain;
      reached =
          subst
            (λ l. Reachable (record s.world {
              notify = take_head s.world.notify;
              spawned = l;
              drained = s.world.drained + 1;
            }))
            (ap (λ l. i.waiting ++ (l ++ s.world.spawned)) (append-nils (no_batch r p) none_ahead)
              ∙ sym (ap (λ l. (l ++ i.waiting) ++ s.world.spawned) (no_batch r p)))
            (Stack.goes_on h.reached (
              drains (suc (length i.waiting)) i.waiting
                (notify_loop-Chain s.world.notify.next s.world.notify.head i.waiting i.chain)));
    }
step-Refines r (spawns {s} a p) q h = record {
  ahead = h.ahead;
  chain = subst (λ x. Chain s.world.notify.next x h.ahead) (ap pointer p) h.chain;
  reached = h.reached;
}
step-Refines r (reads {s} a p e) q h =
    let (rest, whole, chain) = Chain-some (pointer s.place) h.ahead a h.chain (ap pointer p) in
    record {
      ahead = rest;
      chain = chain;
      reached =
          subst (λ l. Reachable (record s.world { spawned = l ++ s.world.spawned }))
            (ap (λ l. s.batch ++ l) whole ∙ sym (append_assoc s.batch (a ∷ []) rest)) h.reached;
    }
step-Refines r (reads_freed a to p e) q h = elim q [ ]
step-Refines r (leaves {s} p) q h =
    let none_ahead = Chain-none (pointer s.place) h.ahead h.chain (ap pointer p) in
    record {
      ahead = [];
      chain = ends;
      reached =
          subst (λ l. Reachable (record s.world { spawned = l ++ s.world.spawned }))
            (ap (λ l. s.batch ++ l) none_ahead ∙ append-nil s.batch) h.reached;
    }
step-Refines r (ends_awaiter front a back w) q h = record {
  ahead = h.ahead;
  chain = h.chain;
  reached = h.reached;
}

Swept-Refines : {s : Sweep} (r : Swept s) → IsCareful r → Refines s
Swept-Refines starts q = record { ahead = []; chain = ends; reached = Stack.starts }
Swept-Refines (goes_on r st) (q, qs) = step-Refines r st qs (Swept-Refines r q)

-- However its steps fall between those of others, `notify_all` reaches nothing that it does not reach
-- in one step, if no link is read from an awaiter that has ended: the links lead from where the loop is
-- through the awaiters that are ahead of it, and with these spawned, the state is one of the step
-- relation in which the loop is one step.
pub sweep-refines :
    {s : Sweep} (r : Swept s)
    → IsCareful r
    → (ahead : List ℕ) × Chain s.world.notify.next (pointer s.place) ahead
      × Reachable (foreseen s ahead)
sweep-refines {s} r q = let h = Swept-Refines r q in (h.ahead, h.chain, h.reached)

-- Outside of the loop the state is one of that relation itself.
pub outside-Reachable :
    {s : Sweep} (r : Swept s) → IsCareful r → s.place ≡ outside → Reachable s.world
outside-Reachable {s} r q p =
    let h = Swept-Refines r q in
    let none_ahead = Chain-none (pointer s.place) h.ahead h.chain (ap pointer p) in
    subst (λ l. Reachable (record s.world { spawned = l ++ s.world.spawned }))
      (append-nils (no_batch r p) none_ahead) h.reached
