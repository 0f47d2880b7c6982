-- ===== src/Net/Ownership/Conserved.antt =====
-- How often the sockets of include/net/socket.hpp close a descriptor.
use toad_jawbreaker.Prelude.{
  times, eq_false→≢, ℕ, zero, suc, ◌+◌, ◌≡◌, ◌≢◌, ◌<◌, refl, ap, false, if◌then◌else◌, if-elim,
  List, [], ◌∷◌, ◌++◌, Option, none, some, ◌==◌, get_or, set, length, arith, All, length-set, eq→≡,
}
use toad_jawbreaker.Net.Ownership.{
  Variables, close_if_held, move_construct, move_assign, destruct, listener_move_assign, Operation,
  constructs, move_constructs, move_assigns, destructs, apply, run,
}

abbrev pub holds : ℕ → Option ℕ → ℕ
holds d none = 0
holds d (some fd) = if fd == d then 1 else 0

abbrev pub times_held : ℕ → List (Option ℕ) → ℕ
times_held d [] = 0
times_held d (x ∷ l) = holds d x + times_held d l

-- The places that an operation names are variables.
abbrev pub IsPlaced : Operation → ℕ → Type 0
IsPlaced (constructs fd) n = Unit
IsPlaced (move_constructs other) n = other < n
IsPlaced (move_assigns this other) n = (this < n) × (other < n)
IsPlaced (destructs this) n = this < n

pub times_held-append :
    (d : ℕ) (l k : List (Option ℕ)) → times_held d (l ++ k) ≡ times_held d l + times_held d k
times_held-append d [] k = omega arith
times_held-append d (x ∷ l) k = omega (arith, times_held-append d l k)

pub times_held-set :
    (d : ℕ) (l : List (Option ℕ)) (i : ℕ) (x : Option ℕ)
    → i < length l
    → times_held d (set l i x) + holds d (get_or l i none) ≡ times_held d l + holds d x
times_held-set d [] i x h = absurd (omega arith)
times_held-set d (y ∷ l) zero x h = omega arith
times_held-set d (y ∷ l) (suc i) x h = omega (arith, times_held-set d l i x (omega arith))

get_or-set :
    (l : List (Option ℕ)) (i j : ℕ) (x : Option ℕ)
    → i ≢ j
    → get_or (set l i x) j none ≡ get_or l j none
get_or-set [] i j x h = refl
get_or-set (y ∷ l) zero zero x h = absurd (h refl)
get_or-set (y ∷ l) zero (suc j) x h = refl
get_or-set (y ∷ l) (suc i) zero x h = refl
get_or-set (y ∷ l) (suc i) (suc j) x h = get_or-set l i j x (λ e. h (ap suc e))

times-close :
    (d : ℕ) (x : Option ℕ) (closed : List ℕ)
    → times d (close_if_held x closed) ≡ holds d x + times d closed
times-close d none closed = omega arith
times-close d (some fd) closed = refl

-- How often an operation takes the descriptor over from outside.
abbrev pub opens : ℕ → Operation → ℕ
opens d (constructs fd) = holds d (some fd)
opens d (move_constructs other) = 0
opens d (move_assigns this other) = 0
opens d (destructs this) = 0

abbrev pub total : ℕ → Variables → ℕ
total d v = times_held d v.held + times d v.closed

pub apply-total :
    (d : ℕ) (op : Operation) (v : Variables)
    → IsPlaced op (length v.held)
    → total d (apply op v) ≡ opens d op + total d v
unfolding move_construct move_assign destruct
apply-total d (constructs fd) v h = omega (arith, times_held-append d v.held (some fd ∷ []))
apply-total d (move_constructs other) v h = omega (
  arith,
  times_held-append d (set v.held other none) (get_or v.held other none ∷ []),
  times_held-set d v.held other none h,
)
apply-total d (move_assigns this other) v (h, k) =
    if-elim (λ x. total d x ≡ 0 + total d v) (this == other) v _ (λ e. omega arith)
      λ e.
        let moved = get_or v.held other none in
        omega (
          arith,
          times_held-set d v.held this moved h,
          times_held-set d (set v.held this moved) other none
              (omega (arith, k, length-set {A = Option ℕ} v.held this moved)),
          ap (holds d) (get_or-set v.held this other moved (eq_false→≢ this other e)),
          times-close d (get_or v.held this none) v.closed,
        )
apply-total d (destructs this) v h =
    omega
      (arith, times_held-set d v.held this none h, times-close d (get_or v.held this none) v.closed)

-- A sequence of operations whose places are variables when their turn comes.
abbrev pub IsRun : List Operation → Variables → Type 0
IsRun [] v = Unit
IsRun (op ∷ ops) v = IsPlaced op (length v.held) × IsRun ops (apply op v)

abbrev pub opened : ℕ → List Operation → ℕ
opened d [] = 0
opened d (op ∷ ops) = opens d op + opened d ops

run-total :
    (d : ℕ) (ops : List Operation) (v : Variables)
    → IsRun ops v
    → total d (run ops v) ≡ opened d ops + total d v
run-total d [] v h = omega arith
run-total d (op ∷ ops) v (h, hs) =
    omega (arith, run-total d ops (apply op v) hs, apply-total d op v h)

abbrev pub no_variables : Variables
no_variables = record { held = []; closed = [] }

pub none_held : (d : ℕ) (l : List (Option ℕ)) → All (λ x. x ≡ none) l → times_held d l ≡ 0
none_held d [] h = refl
none_held d (x ∷ l) (h, hs) = omega (arith, ap (holds d) h, none_held d l hs)

-- However sockets are constructed, moved, assigned, to themselves too, and destroyed: once no
-- variable holds a descriptor, each was closed exactly as often as a socket was constructed from it.
pub closes_each :
    (d : ℕ) (ops : List Operation)
    → IsRun ops no_variables
    → All (λ x. x ≡ none) (run ops no_variables).held
    → times d (run ops no_variables).closed ≡ opened d ops
closes_each d ops h gone =
    omega (arith, run-total d ops no_variables h, none_held d (run ops no_variables).held gone)

-- The assignment of a listener to another variable forgets the descriptor that was there.
pub listener_assign_leaks :
    (d this other : ℕ) (v : Variables)
    → this < length v.held
    → other < length v.held
    → (this == other) ≡ false
    → total d (listener_move_assign this other v) + holds d (get_or v.held this none) ≡ total d v
unfolding listener_move_assign
listener_assign_leaks d this other v h k e =
    if-elim (λ x. total d x + holds d (get_or v.held this none) ≡ total d v) (this == other) v _
      (λ e'. absurd (eq_false→≢ this other e (eq→≡ this other e')))
      λ e'.
        let moved = get_or v.held other none in
        omega (
          arith,
          times_held-set d v.held this moved h,
          times_held-set d (set v.held this moved) other none
              (omega (arith, k, length-set {A = Option ℕ} v.held this moved)),
          ap (holds d) (get_or-set v.held this other moved (eq_false→≢ this other e)),
        )
