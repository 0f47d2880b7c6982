-- ===== src/Socks5/Session/Forwarding.antt =====
-- `forward_connection_data_` of include/socks5/server.hpp on the pending reads, the handlers and the futures
-- of include/concurrency.
use toad_jawbreaker.Prelude.{
  zero, suc, replicate, append-nil, length-replicate, ℕ, ◌+◌, ◌*◌, ◌^◌, ◌<◌, ◌≡◌, refl, ap, ◌∙◌,
  List, [], ◌∷◌, ◌++◌, Option, none, some, Outcome, returns, aborts, ◌>>=◌, length, take, arith,
  length-append, length-take,
}
use toad_jawbreaker.Concurrency.Future.{FutureState, await_resume}
use toad_jawbreaker.Socks5.Forward.{read_some, forward}
use toad_jawbreaker.Socks5.Session.{Answer, delivers, delivers_early, read_into}
use toad_jawbreaker.Socks5.Session.Refined.{read_into-delivers, read_into-early}

-- The number of bytes that the future delivers is not looked at. The coroutine is resumed if it was spawned.
abbrev goes_on : Option (FutureState ℕ) → List ℕ → Outcome (List (List ℕ)) → Outcome (List (List ℕ))
goes_on handle [] next = returns []
goes_on none (h ∷ spawned) next = aborts
goes_on (some s) (h ∷ spawned) next = await_resume s >>= λ r. next

abbrev writes :
    Option (Outcome (List ℕ × Option (FutureState ℕ) × List ℕ))
    → (List ℕ → Outcome (List (List ℕ)))
    → Outcome (List (List ℕ))
writes none next = returns []
writes (some m) next = m >>= λ (buffer, handle, spawned).
    let later = next buffer in goes_on handle spawned (later >>= λ l. returns (buffer ∷ l))

-- The loop by coroutine h with the socket fd, for the reads that are answered: what it writes.
unfoldable pub forward_on : ℕ → ℕ → List ℕ → List Answer → Outcome (List (List ℕ))
forward_on h fd buffer [] = returns []
forward_on h fd buffer (a ∷ answers) =
    writes (read_into h fd buffer 1024 a) λ buffer'. forward_on h fd buffer' answers

abbrev pub deliveries : List (List ℕ) → List Answer
deliveries [] = []
deliveries (chunk ∷ chunks) = delivers chunk ∷ deliveries chunks

-- On the event loop the forwarding writes, for what the kernel delivers in whatever portions, what the loop
-- over these portions writes, as long as the buffer fits in memory and the ring has room. A read that is
-- completed before it is awaited ends the forwarding: nothing more is written, whatever follows.
pub forward_on-forward :
    (h fd : ℕ) (buffer : List ℕ) (chunks : List (List ℕ))
    → length buffer + 1024 * (length chunks + 1) < 2 ^ 63
    → (forward_on h fd buffer (deliveries chunks) ≡ returns (forward buffer chunks))
      × ((bytes : List ℕ) (later : List Answer)
          → forward_on h fd buffer (deliveries chunks ++ (delivers_early bytes ∷ later))
            ≡ returns (forward buffer chunks))
unfolding forward_on forward read_some await_resume
forward_on-forward h fd buffer [] small = (
  refl,
  λ bytes later.
      let (buffer', e) = read_into-early h fd 1024 buffer bytes (omega (arith, small)) in rw e refl,
)
forward_on-forward h fd buffer (chunk ∷ chunks) small =
    let (whole, cut) =
      forward_on-forward h fd (buffer ++ take 1024 chunk) chunks
        (omega (arith, small, length-append buffer (take 1024 chunk), length-take 1024 chunk)) in
    let first = read_into-delivers h fd 1024 buffer chunk (omega (arith, small)) in
    (rw first (rw whole refl), λ bytes later. rw first (rw (cut bytes later) refl))

forward_repeats : (n : ℕ) (buffer : List ℕ) → forward buffer (replicate n []) ≡ replicate n buffer
unfolding forward read_some
forward_repeats zero buffer = refl
forward_repeats (suc n) buffer =
    rw (append-nil buffer) (ap (λ l. buffer ∷ l) (forward_repeats n buffer))

length-deliveries : (n : ℕ) → length (replicate {A = List ℕ} n []) ≡ n
length-deliveries n = length-replicate {A = List ℕ} n []

-- The end of the stream, at which every read delivers no bytes, does not end the forwarding: each round
-- writes all that was read so far once more.
pub end_of_stream_repeats :
    (h fd n : ℕ) (buffer : List ℕ)
    → length buffer + 1024 * (n + 1) < 2 ^ 63
    → forward_on h fd buffer (deliveries (replicate n [])) ≡ returns (replicate n buffer)
end_of_stream_repeats h fd n buffer small =
    (forward_on-forward h fd buffer (replicate n []) (omega (arith, small, length-deliveries n))).0
    ∙ ap returns (forward_repeats n buffer)
