-- ===== src/Concurrency/IoContext/WriteBuffers.antt =====
-- Who frees the copy of the bytes that a write of include/concurrency/iocontext.hpp makes:
-- `PendingWriteSome` of include/concurrency/pending.hpp. The objects stand in a list, `none` being the
-- null pointer, and are moved and destroyed as the sockets of Net/Ownership are; `closed` has the
-- buffers that were given to `delete[]`.
use toad_jawbreaker.Prelude.{
  ℕ, ◌+◌, ◌≡◌, refl, ap, if◌then◌else◌, ◌==◌, List, [], ◌∷◌, ◌++◌, append_assoc, Option, none, some,
  get_or, set, length, length-append, arith,
}
use toad_jawbreaker.Net.Ownership.{Variables, construct, move_construct, destruct}

abbrev pub write_move_construct : ℕ → Variables → Variables
write_move_construct other v = move_construct other v

-- The buffer that was there before is overwritten.
abbrev pub write_move_assign : ℕ → ℕ → Variables → Variables
write_move_assign this other v =
    if this == other
    then v
    else record v { held = set (set v.held this (get_or v.held other none)) other none }

abbrev pub write_destruct : ℕ → Variables → Variables
write_destruct this v = destruct this v

-- `new PendingVariant(PendingWriteSome(socket._sockfd, buf))`: a temporary is moved into the new object, and
-- destroyed.
unfoldable pub new_pending_write : ℕ → Variables → Variables
new_pending_write buf v =
    let temporary = length v.held in
    write_destruct temporary (write_move_construct temporary (construct (some buf) v))

get_or-middle :
    (l : List (Option ℕ)) (x : Option ℕ) (k : List (Option ℕ))
    → get_or (l ++ (x ∷ k)) (length l) none ≡ x
get_or-middle [] x k = refl
get_or-middle (y ∷ l) x k = get_or-middle l x k

set-middle :
    (l : List (Option ℕ)) (x y : Option ℕ) (k : List (Option ℕ))
    → set (l ++ (x ∷ k)) (length l) y ≡ l ++ (y ∷ k)
set-middle [] x y k = refl
set-middle (z ∷ l) x y k = ap (λ m. z ∷ m) (set-middle l x y k)

new_pending_write_lem :
    (buf : ℕ) (v : Variables)
    → new_pending_write buf v ≡ record v { held = v.held ++ (none ∷ some buf ∷ []) }
unfolding new_pending_write move_construct destruct
new_pending_write_lem buf v =
    rw
      (
        get_or-middle v.held (some buf) [],
        set-middle v.held (some buf) none [],
        append_assoc v.held (none ∷ []) (some buf ∷ []),
      )
      (rw (get_or-middle v.held none (some buf ∷ []), set-middle v.held none none (some buf ∷ []))
        refl)

-- A write that is submitted frees nothing, and when its pending object is deleted, its buffer is freed
-- and no other.
pub write_buffer_freed :
    (buf : ℕ) (v : Variables)
    → ((new_pending_write buf v).closed ≡ v.closed)
      × ((write_destruct (length v.held + 1) (new_pending_write buf v)).closed ≡ buf ∷ v.closed)
unfolding destruct
write_buffer_freed buf v =
    let front = v.held ++ (none ∷ []) in
    let place : length v.held + 1 ≡ length front =
      omega (arith, length-append v.held (none ∷ [])) in
    rw (new_pending_write_lem buf v) (
      refl,
      rw (← append_assoc v.held (none ∷ []) (some buf ∷ []), place)
          (rw (get_or-middle front (some buf) []) refl),
    )
