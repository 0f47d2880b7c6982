-- ===== src/Concurrency/IoContext/Loop/Freed.antt =====
-- What a batch of the event loop of include/concurrency/iocontext.hpp frees.
use toad_jawbreaker.Prelude.{
  store, eq_false→≢, ℕ, ◌≡◌, ◌≢◌, refl, ap, ◌∙◌, List, [], ◌∷◌, Option, none, some, Outcome,
  returns, ◌>>=◌, ◌==◌, if◌then◌else◌, if-elim, returns-injective, >>=-eq-returns, All, All-map,
  true, false, Bool,
}
use mathlib.Core.Path.{subst}
use toad_jawbreaker.Prelude.Int.{ℤ}
use toad_jawbreaker.Concurrency.IoContext.{
  handle_connect, handle_listen, handle_read_some, handle_read_some_vec,
}
use toad_jawbreaker.Concurrency.IoContext.Loop.{
  PendingVariant, read_some, listen, connect, write_some, read_some_vec, Loop, Completion,
  spawn_all, handle_pending, complete_with, complete, batch,
}

-- A result that is mapped to loops with one heap has that heap.
mapped_heap {ℓ} :
    {A : Type ℓ} (m : Outcome A) (f : A → Loop) (h : ℕ → Option PendingVariant) (w' : Loop)
    → ((r : A) → (f r).heap ≡ h)
    → (m >>= λ r. returns (f r)) ≡ returns w'
    → w'.heap ≡ h
mapped_heap m f h w' keeps e =
    let (r, first, last) = >>=-eq-returns m (λ r. returns (f r)) e in
    ap (λ x. x.heap) (returns-injective last refl) ∙ keeps r

handle_pending-heap :
    (res : ℤ) (p : PendingVariant) (w w' : Loop)
    → handle_pending res p w ≡ returns w'
    → w'.heap ≡ w.heap
unfolding handle_pending
handle_pending-heap res (read_some p) w w' e =
    mapped_heap (handle_read_some res p) (λ r. spawn_all r.1 w) w.heap w' (λ r. refl) e
handle_pending-heap res (listen p) w w' e =
    mapped_heap (handle_listen res p) (λ r. spawn_all r.1 w) w.heap w' (λ r. refl) e
handle_pending-heap res (connect p) w w' e =
    mapped_heap (handle_connect res p) (λ r. spawn_all r.1 w) w.heap w' (λ r. refl) e
handle_pending-heap res (write_some p) w w' e = ap (λ x. x.heap) (returns-injective e refl)
handle_pending-heap res (read_some_vec p v) w w' e =
    mapped_heap (handle_read_some_vec res p (w.vectors v))
      (λ r. spawn_all r.2 (record w { vectors = store v r.0 w.vectors })) w.heap w' (λ r. refl) e

-- A completion that is handled had its object, and frees it alone.
complete_with-heap :
    (o : Option PendingVariant) (c : Completion) (w w' : Loop)
    → complete_with o c w ≡ returns w'
    → (o ≢ none) × (w'.heap ≡ store c.user_data none w.heap)
complete_with-heap none c w w' e = cc
complete_with-heap (some p) c w w' e =
    let (w₁, first, last) =
      >>=-eq-returns (handle_pending c.res p w)
        (λ x. returns (record x { heap = store c.user_data none x.heap })) e in
    (
      λ q. cc,
      ap (λ x. x.heap) (returns-injective last refl)
          ∙ ap (λ k. store c.user_data none k) (handle_pending-heap c.res p w w₁ first),
    )

abbrev pub Live : (ℕ → Option PendingVariant) → Completion → Type 0
Live heap c = heap c.user_data ≢ none

abbrev pub Distinct : List Completion → Type 0
Distinct [] = Unit
Distinct (c ∷ cs) = All (λ d. d.user_data ≢ c.user_data) cs × Distinct cs

abbrev pub listed : ℕ → List Completion → Bool
listed a [] = false
listed a (c ∷ cs) = if a == c.user_data then true else listed a cs

-- What is live after one object is freed was live before, and is another.
Live-store :
    (a : ℕ) (heap : ℕ → Option PendingVariant) (d : Completion)
    → Live (store a none heap) d
    → (d.user_data ≢ a) × Live heap d
Live-store a heap d =
    if-elim (λ x. x ≢ none → (d.user_data ≢ a) × Live heap d) (d.user_data == a) none
      (heap d.user_data) (λ e h. absurd (h refl)) λ e h. (eq_false→≢ d.user_data a e, h)

if_if {ℓ} :
    {A : Type ℓ} (x y : Bool) (a b : A)
    → (if y then a else (if x then a else b)) ≡ (if (if x then true else y) then a else b)
if_if true true a b = refl
if_if true false a b = refl
if_if false true a b = refl
if_if false false a b = refl

store-listed :
    (a : ℕ) (c : Completion) (cs : List Completion) (heap : ℕ → Option PendingVariant)
    → (if listed a cs then none else store c.user_data none heap a)
      ≡ (if listed a (c ∷ cs) then none else heap a)
store-listed a c cs heap = if_if (a == c.user_data) (listed a cs) none (heap a)

-- A batch that does not abort names every object once and only objects that are there, and in the end
-- these are freed and no other is.
pub batch-heap :
    (cs : List Completion) (w w' : Loop)
    → batch cs w ≡ returns w'
    → All (Live w.heap) cs
      × Distinct cs
      × ((a : ℕ) → w'.heap a ≡ (if listed a cs then none else w.heap a))
unfolding batch
batch-heap [] w w' e = (tt, tt, λ a. ap (λ x. x.heap a) (returns-injective e refl))
batch-heap (c ∷ cs) w w' e =
    let (w₁, first, later) = >>=-eq-returns (complete c w) (λ x. batch cs x) e in
    let (there, freed) = complete_with-heap (w.heap c.user_data) c w w₁ first in
    let (live, distinct, left) = batch-heap cs w₁ w' later in
    let both =
      All-map (Live w₁.heap) (λ d. (d.user_data ≢ c.user_data) × Live w.heap d)
        (λ d h. Live-store c.user_data w.heap d (subst (λ k. Live k d) freed h)) cs live in
    (
      (
        there,
        All-map (λ d. (d.user_data ≢ c.user_data) × Live w.heap d) (Live w.heap) (λ d h. h.1) cs
            both,
      ),
      (
        All-map (λ d. (d.user_data ≢ c.user_data) × Live w.heap d) (λ d. d.user_data ≢ c.user_data)
            (λ d h. h.0) cs both,
        distinct,
      ),
      λ a. left a ∙ ap (λ k. if listed a cs then none else k a) freed ∙ store-listed a c cs w.heap,
    )
