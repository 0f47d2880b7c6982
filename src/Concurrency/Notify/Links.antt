-- ===== src/Concurrency/Notify/Links.antt =====
-- The links between the awaiters of include/concurrency/notify.hpp.
use toad_jawbreaker.Prelude.{
  eq→≡, ℕ, zero, suc, ◌≡◌, ◌≢◌, refl, sym, ap, ◌∙◌, Bool, true, false, List, ◌∷◌, All, arith, ◌==◌,
  if◌then◌else◌, if-elim, Option, none, some, length,
}
use mathlib.Core.Path.{subst}
use toad_jawbreaker.Concurrency.Notify.{Notify, same, link, exchange_head, prepend, notify_loop}
use toad_jawbreaker.Concurrency.Notify.Stack.{
  Stage, linked, set_stage, Chain, ends, leads, World, after_round,
}

-- The loop ends, with one round more than there are awaiters, and spawns these.
pub notify_loop-Chain :
    (next : ℕ → Option ℕ) (current : Option ℕ) (l : List ℕ)
    → Chain next current l
    → notify_loop (suc (length l)) next current ≡ some l
unfolding notify_loop
notify_loop-Chain next _ _ ends = refl
notify_loop-Chain next _ _ (leads {l} a c) = ap (prepend a) (notify_loop-Chain next (next a) l c)

prepend-eq :
    (a : ℕ) (r : Option (List ℕ)) (k : List ℕ)
    → prepend a r ≡ some k
    → (t : List ℕ) × (r ≡ some t) × (k ≡ a ∷ t)
prepend-eq a none k e = cc
prepend-eq a (some t) k e = (t, refl, cc)

-- Whatever the fuel, a loop that ends spawns these.
pub notify_loop-only :
    (fuel : ℕ) (next : ℕ → Option ℕ) (current : Option ℕ) (l k : List ℕ)
    → Chain next current l
    → notify_loop fuel next current ≡ some k
    → k ≡ l
unfolding notify_loop
notify_loop-only zero next current l k c e = cc
notify_loop-only (suc fuel) next _ _ k ends e = cc
notify_loop-only (suc fuel) next _ _ k (leads {l} a c) e =
    let (t, rest, whole) = prepend-eq a (notify_loop fuel next (next a)) k e in
    whole ∙ ap (λ m. a ∷ m) (notify_loop-only fuel next (next a) l t c rest)

same→≡ : (x y : Option ℕ) → same x y ≡ true → x ≡ y
same→≡ none none h = refl
same→≡ none (some b) h = cc
same→≡ (some a) none h = cc
same→≡ (some a) (some b) h = ap some (eq→≡ a b h)

-- An update at an awaiter that is not in the stack leaves the others.
pub set_stage-linked :
    (a : ℕ) (st : Stage) (stages : ℕ → Stage) (b : ℕ)
    → stages a ≢ linked
    → stages b ≡ linked
    → set_stage a st stages b ≡ linked
set_stage-linked a st stages b out h =
    if-elim (λ x. x ≡ linked) (b == a) st (stages b)
      (λ e. absurd (out (ap stages (sym (eq→≡ b a e)) ∙ h))) λ _. h

link-linked :
    (a : ℕ) (to : Option ℕ) (next : ℕ → Option ℕ) (stages : ℕ → Stage) (b : ℕ)
    → stages a ≢ linked
    → stages b ≡ linked
    → next b ≡ link a to next b
link-linked a to next stages b out h =
    if-elim (λ x. next b ≡ x) (b == a) to (next b)
      (λ e. absurd (out (ap stages (sym (eq→≡ b a e)) ∙ h))) λ _. refl

pub link-Chain :
    (a : ℕ) (to : Option ℕ) (next : ℕ → Option ℕ) (stages : ℕ → Stage) (current : Option ℕ)
    (l : List ℕ)
    → stages a ≢ linked
    → Chain next current l
    → All (λ b. stages b ≡ linked) l
    → Chain (link a to next) current l
link-Chain a to next stages _ _ out ends all = ends
link-Chain a to next stages _ _ out (leads {l} b c) (h, hs) = leads b (
    subst (λ x. Chain (link a to next) x l) (link-linked a to next stages b out h)
      (link-Chain a to next stages (next b) l out c hs))

pub link_self : (a : ℕ) (to : Option ℕ) (next : ℕ → Option ℕ) → to ≡ link a to next a
link_self a to next = ap (λ b. if b then to else next a) {x = true} {y = a == a} (ground arith)

pub set_stage_self : (a : ℕ) (st : Stage) (stages : ℕ → Stage) → set_stage a st stages a ≡ st
set_stage_self a st stages =
    ap (λ b. if b then st else stages a) {x = a == a} {y = true} (ground arith)

pub exchange_head-elim {κ} :
    (P : Bool × Notify → Type κ) (a : ℕ) (old_head : Option ℕ) (n : Notify)
    → (n.head ≡ old_head → P (true, record n { next = link a old_head n.next; head = some a }))
    → P (false, record n { next = link a old_head n.next })
    → P (exchange_head a old_head n)
unfolding exchange_head
exchange_head-elim P a old_head n h k =
    if-elim P (same n.head old_head)
      (true, record n { next = link a old_head n.next; head = some a })
      (false, record n { next = link a old_head n.next }) (λ e. h (same→≡ n.head old_head e)) λ _. k

-- A round does not look at what was spawned.
pub after_round-spawned :
    (a : ℕ) (r : Bool × Notify) (w : World) → (after_round a r w).spawned ≡ w.spawned
after_round-spawned a (true, n) w = refl
after_round-spawned a (false, n) w = refl
