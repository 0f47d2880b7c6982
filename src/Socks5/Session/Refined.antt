-- ===== src/Socks5/Session/Refined.antt =====
-- What a coroutine of include/socks5/server.hpp does on the handlers of the event loop is what it does
-- on the bytes that are delivered.
use toad_jawbreaker.Prelude.{
  ℕ, zero, suc, ◌+◌, ◌^◌, ◌≤◌, ◌<◌, ◌≡◌, refl, ap, ◌∙◌, true, false, not, ◌==◌, List, [], ◌∷◌, ◌++◌,
  none, some, returns, length, take, drop, replicate, overwrite, All, arith, length-take,
  length-append, length-overwrite, length-replicate, take-overwrite, drop-overwrite,
  take-length_append, drop-length_append,
}
use toad_jawbreaker.Prelude.Int.{ℤ, pos, negsuc, is_negative}
use toad_jawbreaker.Nic.Checksum.Sum.{IsByte}
use toad_jawbreaker.Concurrency.Future.{new_state, set_value, await_suspend, await_resume}
use toad_jawbreaker.Concurrency.IoContext.{handle_connect}
use toad_jawbreaker.Concurrency.IoContext.Reading.{
  resolved, read_some_appends, read_some_unawaited, submit_read_some_vec_lem,
}
use toad_jawbreaker.Socks5.Process.{
  Process, returned, await_read, submit_write, await_connect, relay, diverges, Event, received,
  connected, run,
}
use toad_jawbreaker.Socks5.Session.{
  Answer, delivers, fails, connects, delivers_early, fails_early, connects_early, no_room, stops,
  read_into, connect_by, execute,
}
use toad_jawbreaker.Socks5.Session.Fits.{Fits, handshake-Fits}
use toad_jawbreaker.Socks5.Server.{Uninit, handle_client_handshake}
use toad_jawbreaker.Socks5.Server.Handshake.{session, Bytes}
use toad_jawbreaker.Socks5.Server.Stages.{handshake-session}

-- No read fails, what is delivered is bytes, and the ring has room for each operation.
abbrev pub Delivered : List Answer → Type 0
Delivered [] = Unit
Delivered (delivers bytes ∷ answers) = All IsByte bytes × Delivered answers
Delivered (fails k ∷ answers) = ⊥
Delivered (connects res ∷ answers) = Delivered answers
Delivered (delivers_early bytes ∷ answers) = Delivered answers
Delivered (fails_early k ∷ answers) = ⊥
Delivered (connects_early res ∷ answers) = Delivered answers
Delivered (no_room ∷ answers) = ⊥

-- What comes to the coroutine: up to the first completion that is early, which leaves it waiting for ever.
abbrev pub events : List Answer → List Event
events [] = []
events (delivers bytes ∷ answers) = received bytes ∷ events answers
events (delivers_early bytes ∷ answers) = []
events (fails_early k ∷ answers) = []
events (connects_early res ∷ answers) = []
events (no_room ∷ answers) = []
events (fails k ∷ answers) = events answers
events (connects res ∷ answers) = connected (not (is_negative res)) ∷ events answers

take-add : (m n : ℕ) (xs : List ℕ) → take (m + n) xs ≡ take m xs ++ take n (drop m xs)
take-add zero n xs = ap (λ (k : ℕ). take k xs) (omega arith)
take-add (suc m) zero [] = ap (λ (k : ℕ). take k []) {x = suc m + 0} {y = suc m} (omega arith)
take-add (suc m) (suc n) [] =
    ap (λ (k : ℕ). take k []) {x = suc m + suc n} {y = suc (m + suc n)} (omega arith)
take-add (suc m) n (x ∷ xs) =
    ap (λ (k : ℕ). take k (x ∷ xs)) {x = suc m + n} {y = suc (m + n)} (omega arith)
    ∙ ap (λ l. x ∷ l) (take-add m n xs)

-- The kernel writes behind the vector.
written :
    (n : ℕ) (vec chunk : List ℕ)
    → length chunk ≤ n
    → take (length vec + length chunk) (overwrite (vec ++ replicate n 0) (length vec) chunk)
      ≡ vec ++ chunk
written n vec chunk h =
    let grown = vec ++ replicate n 0 in
    let room : length vec + length chunk ≤ length grown =
      omega (arith, h, length-append vec (replicate n 0), length-replicate {A = ℕ} n 0) in
    take-add (length vec) (length chunk) (overwrite grown (length vec) chunk)
    ∙ rw
        (
          take-overwrite grown (length vec) chunk,
          drop-overwrite grown (length vec) chunk room,
          take-length_append vec (replicate n 0),
          take-length_append chunk (drop (length vec + length chunk) grown),
        )
        refl

pub read_into-delivers :
    (h fd n : ℕ) (vec bytes : List ℕ)
    → length vec + n < 2 ^ 63
    → read_into h fd vec n (delivers bytes)
      ≡ some (returns (vec ++ take n bytes, some (resolved h (length (take n bytes))), h ∷ []))
unfolding read_into await_suspend
read_into-delivers h fd n vec bytes small =
    let chunk = take n bytes in
    let few : length chunk ≤ n = omega (arith, length-take n bytes) in
    let grown = vec ++ replicate n 0 in
    rw (submit_read_some_vec_lem fd n vec small, read_into)
      (ap some (
        read_some_appends fd n h vec chunk (overwrite grown (length vec) chunk) small few
          (length-overwrite grown (length vec) chunk
            ∙ length-append vec (replicate n 0)
            ∙ ap (λ (k : ℕ). length vec + k) (length-replicate {A = ℕ} n 0))
          (written n vec chunk few)))

pub read_into-early :
    (h fd n : ℕ) (vec bytes : List ℕ)
    → length vec + n < 2 ^ 63
    → (vec' : List ℕ) × (read_into h fd vec n (delivers_early bytes)
        ≡ some (returns (vec', some new_state, [])))
unfolding read_into
read_into-early h fd n vec bytes small =
    let chunk = take n bytes in
    let grown = vec ++ replicate n 0 in
    let filled = overwrite grown (length vec) chunk in
    (
      take (length vec + length chunk) filled,
      rw (submit_read_some_vec_lem fd n vec small, read_into)
          (ap some (
            read_some_unawaited fd n (length vec) (length chunk) filled small
              (omega (arith, length-take n bytes))
              (length-overwrite grown (length vec) chunk
                ∙ length-append vec (replicate n 0)
                ∙ ap (λ (k : ℕ). length vec + k) (length-replicate {A = ℕ} n 0)))),
    )

read_into-connects_early :
    (h fd n : ℕ) (vec : List ℕ) (res : ℤ)
    → length vec + n < 2 ^ 63
    → read_into h fd vec n (connects_early res) ≡ none
unfolding read_into
read_into-connects_early h fd n vec res small =
    rw (submit_read_some_vec_lem fd n vec small, read_into)

read_into-connects :
    (h fd n : ℕ) (vec : List ℕ) (res : ℤ)
    → length vec + n < 2 ^ 63
    → read_into h fd vec n (connects res) ≡ none
unfolding read_into
read_into-connects h fd n vec res small = rw (submit_read_some_vec_lem fd n vec small, read_into)

All-take : (n : ℕ) (bytes : List ℕ) → All IsByte bytes → All IsByte (take n bytes)
All-take zero bytes b = tt
All-take (suc n) [] b = tt
All-take (suc n) (x ∷ bytes) (b, bs) = (b, All-take n bytes bs)

eq_refl : (n : ℕ) → (n == n) ≡ true
eq_refl n = ground arith

Delivered-Bytes : (answers : List Answer) → Delivered answers → Bytes (events answers)
Delivered-Bytes [] d = tt
Delivered-Bytes (delivers bytes ∷ answers) (d, ds) = (d, Delivered-Bytes answers ds)
Delivered-Bytes (fails k ∷ answers) d = elim d [ ]
Delivered-Bytes (connects res ∷ answers) d = Delivered-Bytes answers d
Delivered-Bytes (delivers_early bytes ∷ answers) d = tt
Delivered-Bytes (fails_early k ∷ answers) d = elim d [ ]
Delivered-Bytes (connects_early res ∷ answers) d = tt
Delivered-Bytes (no_room ∷ answers) d = elim d [ ]

execute-run :
    (h fd remote : ℕ) (p : Process) (v : ℕ) (vec : List ℕ) (answers : List Answer)
    → Fits p v
    → length vec ≤ v
    → Delivered answers
    → execute h fd remote p vec answers ≡ stops (run p (events answers))
unfolding execute connect_by handle_connect set_value await_resume await_suspend
execute-run h fd remote returned v vec answers f l d = refl
execute-run h fd remote (await_read n k) v vec [] f l d = refl
execute-run h fd remote (await_read n k) v vec (delivers bytes ∷ answers) f l d =
    let chunk = take n bytes in
    let few : length chunk ≤ n = omega (arith, length-take n bytes) in
    rw (read_into-delivers h fd n vec bytes (omega (arith, l, f.0))) (
      rw (drop-length_append vec chunk, eq_refl (length chunk))
        (execute-run h fd remote (k chunk) (v + n) (vec ++ chunk) answers
          (f.1 chunk (All-take n bytes d.0) few) (omega (arith, l, few, length-append vec chunk))
          d.1))
execute-run h fd remote (await_read n k) v vec (connects res ∷ answers) f l d =
    rw (read_into-connects h fd n vec res (omega (arith, l, f.0)))
execute-run h fd remote (await_read n k) v vec (fails _ ∷ answers) f l d = elim d [ ]
execute-run h fd remote (await_read n k) v vec (delivers_early bytes ∷ answers) f l d =
    let (vec', e) = read_into-early h fd n vec bytes (omega (arith, l, f.0)) in rw e refl
execute-run h fd remote (await_read n k) v vec (fails_early _ ∷ answers) f l d = elim d [ ]
execute-run h fd remote (await_read n k) v vec (connects_early res ∷ answers) f l d =
    rw (read_into-connects_early h fd n vec res (omega (arith, l, f.0)))
execute-run h fd remote (await_read n k) v vec (no_room ∷ answers) f l d = elim d [ ]
execute-run h fd remote (submit_write bytes p) v vec answers f l d =
    rw (execute-run h fd remote p v vec answers f l d)
execute-run h fd remote (await_connect ip port k) v vec [] f l d = refl
execute-run h fd remote (await_connect ip port k) v vec (delivers bytes ∷ answers) f l d = refl
execute-run h fd remote (await_connect ip port k) v vec (fails _ ∷ answers) f l d = elim d [ ]
execute-run h fd remote (await_connect ip port k) v vec (delivers_early b ∷ answers) f l d = refl
execute-run h fd remote (await_connect ip port k) v vec (fails_early _ ∷ answers) f l d = elim d [ ]
execute-run h fd remote (await_connect ip port k) v vec (connects_early (pos n) ∷ answers) f l d =
    refl
execute-run h fd remote (await_connect ip port k) v vec (connects_early (negsuc n) ∷ answers) f l
      d =
    refl
execute-run h fd remote (await_connect ip port k) v vec (no_room ∷ answers) f l d = elim d [ ]
execute-run h fd remote (await_connect ip port k) v vec (connects (pos n) ∷ answers) f l d =
    rw (execute-run h fd remote (k true) v vec answers (f true) l d)
execute-run h fd remote (await_connect ip port k) v vec (connects (negsuc n) ∷ answers) f l d =
    rw (execute-run h fd remote (k false) v vec answers (f false) l d)
execute-run h fd remote relay v vec answers f l d = refl
execute-run h fd remote diverges v vec answers f l d = refl

-- The handshake on the pending reads, the handlers and the futures, with a kernel that delivers bytes
-- in whatever portions and whose reads do not fail, and on a ring with room, does exactly what the protocol
-- description says of the bytes up to the first completion that is handled before it is awaited: it is never misled by a number of bytes, resumed without a value, or aborted.
pub handshake_execute-session :
    (h fd remote : ℕ) (u : Uninit) (answers : List Answer)
    → Delivered answers
    → execute h fd remote (handle_client_handshake u) [] answers
      ≡ stops (session u (events answers))
handshake_execute-session h fd remote u answers d =
    execute-run h fd remote (handle_client_handshake u) 0 [] answers (handshake-Fits u)
      (omega arith) d
    ∙ ap stops (handshake-session u (events answers) (Delivered-Bytes answers d))
