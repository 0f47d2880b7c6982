-- ===== src/Concurrency/Notify/Drained.antt =====
-- Which awaiters of include/concurrency/notify.hpp a notification reaches.
use toad_jawbreaker.Prelude.{
  ℕ, suc, ◌≡◌, ◌≢◌, refl, sym, ap, ◌∙◌, true, false, List, [], ◌∷◌, ◌++◌, All, All-map, All-front,
  if◌then◌else◌, Option, some, length,
}
use mathlib.Core.Path.{subst}
use toad_jawbreaker.Concurrency.Notify.{link, notify_loop}
use toad_jawbreaker.Concurrency.Notify.Stack.{
  Stage, fresh, passed, suspends, pushes, linked, set_stage, World, after_round, Step, asks, loads,
  tries, fails, fires, drains, Reachable, starts, goes_on, Chain, ends, leads,
}
use toad_jawbreaker.Concurrency.Notify.Links.{
  notify_loop-Chain, notify_loop-only, set_stage-linked, link-Chain, link_self, set_stage_self,
  exchange_head-elim,
}

-- An awaiter is pushed at most once.
abbrev pub Unique : List ℕ → Type 0
Unique [] = Unit
Unique (a ∷ l) = All (λ b. b ≢ a) l × Unique l

-- The links lead through the awaiters that were pushed and not spawned yet.
pub record Inv (w : World) : Type 0 where
  pub waiting : List ℕ
  pub chain : Chain w.notify.next w.notify.head waiting
  pub split : w.pushed ≡ waiting ++ w.spawned
  pub all_linked : All (λ b. w.stages b ≡ linked) w.pushed
  pub once : Unique w.pushed

waiting-linked : (w : World) (i : Inv w) → All (λ b. w.stages b ≡ linked) i.waiting
waiting-linked w i =
    All-front (λ b. w.stages b ≡ linked) i.waiting w.spawned
      (subst (All (λ b. w.stages b ≡ linked)) i.split i.all_linked)

-- An awaiter that is not in the stack changes its stage.
stages-Inv :
    (w : World) (a : ℕ) (st : Stage)
    → w.stages a ≢ linked
    → Inv w
    → Inv (record w { stages = set_stage a st w.stages })
stages-Inv w a st out i = record {
  waiting = i.waiting;
  chain = i.chain;
  split = i.split;
  all_linked =
      All-map (λ b. w.stages b ≡ linked) (λ b. set_stage a st w.stages b ≡ linked)
        (λ b h. set_stage-linked a st w.stages b out h) w.pushed i.all_linked;
  once = i.once;
}

-- It writes its link.
links-Inv :
    (w : World) (a : ℕ) (to : Option ℕ)
    → w.stages a ≢ linked
    → Inv w
    → Inv (record w { notify = record w.notify { next = link a to w.notify.next } })
links-Inv w a to out i = record {
  waiting = i.waiting;
  chain =
      link-Chain a to w.notify.next w.stages w.notify.head i.waiting out i.chain
        (waiting-linked w i);
  split = i.split;
  all_linked = i.all_linked;
  once = i.once;
}

-- It becomes the head.
pushes-Inv :
    (w : World) (a : ℕ) (to : Option ℕ)
    → w.stages a ≢ linked
    → w.notify.head ≡ to
    → Inv w
    → Inv
        (after_round a (true, record w.notify { next = link a to w.notify.next; head = some a }) w)
pushes-Inv w a to out e i = record {
  waiting = a ∷ i.waiting;
  chain = leads a (
      subst (λ x. Chain (link a to w.notify.next) x i.waiting) (e ∙ link_self a to w.notify.next)
        (link-Chain a to w.notify.next w.stages w.notify.head i.waiting out i.chain
          (waiting-linked w i)));
  split = ap (λ l. a ∷ l) i.split;
  all_linked = (set_stage_self a linked w.stages, (stages-Inv w a linked out i).all_linked);
  once = (
    All-map (λ b. w.stages b ≡ linked) (λ b. b ≢ a) (λ b h e'. out (ap w.stages (sym e') ∙ h))
        w.pushed i.all_linked,
    i.once,
  );
}

fresh-out : (s : Stage) → s ≡ fresh → s ≢ linked
fresh-out s h e = cc

suspends-out : (s : Stage) → s ≡ suspends → s ≢ linked
suspends-out s h e = cc

pub pushes-out : (s : Stage) (to : Option ℕ) → s ≡ pushes to → s ≢ linked
pushes-out s to h e = cc

failed-Inv :
    (w : World) (a : ℕ) (to : Option ℕ)
    → w.stages a ≢ linked
    → Inv w
    → Inv (after_round a (false, record w.notify { next = link a to w.notify.next }) w)
failed-Inv w a to out i =
    stages-Inv (record w { notify = record w.notify { next = link a to w.notify.next } }) a
      (pushes w.notify.head) out (links-Inv w a to out i)

step-Inv : {w w' : World} → Step w w' → Inv w → Inv w'
step-Inv (asks {w} a s) i =
    stages-Inv w a (if w.notify.fired then passed else suspends) (fresh-out _ s) i
step-Inv (loads {w} a s) i = stages-Inv w a (pushes w.notify.head) (suspends-out _ s) i
step-Inv (tries {w} a to s) i =
    exchange_head-elim (λ r. Inv (after_round a r w)) a to w.notify
      (λ e. pushes-Inv w a to (pushes-out _ to s) e i) (failed-Inv w a to (pushes-out _ to s) i)
step-Inv (fails {w} a to s) i = failed-Inv w a to (pushes-out _ to s) i
step-Inv (fires {w}) i = record {
  waiting = i.waiting;
  chain = i.chain;
  split = i.split;
  all_linked = i.all_linked;
  once = i.once;
}
step-Inv (drains {w} fuel l e) i = record {
  waiting = [];
  chain = ends;
  split =
      i.split
      ∙ ap (λ k. k ++ w.spawned)
          (sym (notify_loop-only fuel w.notify.next w.notify.head i.waiting l i.chain e));
  all_linked = i.all_linked;
  once = i.once;
}

pub Reachable-Inv : {w : World} → Reachable w → Inv w
Reachable-Inv starts = record {
  waiting = [];
  chain = ends;
  split = refl;
  all_linked = tt;
  once = tt;
}
Reachable-Inv (goes_on r s) = step-Inv s (Reachable-Inv r)

-- In every state that is reachable with uninterrupted loops, an uninterrupted loop of `notify_all` ends, and what it spawns are the awaiters that
-- were pushed and not spawned before, each once, the last one that was pushed first.
pub notify_all_drains :
    {w : World}
    → Reachable w
    → (l : List ℕ) × (notify_loop (suc (length l)) w.notify.next w.notify.head ≡ some l)
      × (w.pushed ≡ l ++ w.spawned)
      × Unique w.pushed
notify_all_drains {w} r =
    let i = Reachable-Inv r in
    (i.waiting, notify_loop-Chain w.notify.next w.notify.head i.waiting i.chain, i.split, i.once)
