-- ===== src/Socks5/Session/Failing.antt =====
-- What a read that fails does to a coroutine of include/socks5/server.hpp.
use toad_jawbreaker.Prelude.{
  ℕ, suc, ◌+◌, ◌-◌, ◌^◌, ◌≤◌, ◌<◌, ◌≡◌, ◌≢◌, refl, true, false, if◌then◌else◌, ◌==◌, leb, leb→le,
  leb_false→lt, eq→≡, eq_false→≢, Bool-cases, inl, inr, List, [], ◌∷◌, ◌++◌, some, returns, aborts,
  length, take, drop, replicate, arith, length-take, length-drop, length-append, length-replicate,
}
use toad_jawbreaker.Prelude.Int.{negsuc}
use toad_jawbreaker.Concurrency.Future.{await_suspend, await_resume}
use toad_jawbreaker.Concurrency.IoContext.{PendingReadSomeVec, handle_read_some_vec}
use toad_jawbreaker.Concurrency.IoContext.Reading.{
  waiting, submit_read_some_vec_lem, read_some_fails, read_some_reset,
}
use toad_jawbreaker.Socks5.Process.{Process, await_read}
use toad_jawbreaker.Socks5.Session.{Answer, fails, stops, read_into, execute}

length-nil : (l : List ℕ) → length l ≡ 0 → l ≡ []
length-nil [] e = refl
length-nil (x ∷ l) e = absurd (omega (arith, e))

nothing_more : (m n : ℕ) (l : List ℕ) → m ≤ n → drop n (take m l) ≡ []
nothing_more m n l h =
    length-nil (drop n (take m l)) (omega (arith, h, length-drop n (take m l), length-take m l))

read_into-fails :
    (h fd n k : ℕ) (vec : List ℕ)
    → length vec + n < 2 ^ 63
    → read_into h fd vec n (fails k)
      ≡ some (
          handle_read_some_vec
            (negsuc k)
            (record { sockfd = fd; handle = some (waiting h); initial_size = length vec })
            (vec ++ replicate n 0))
unfolding read_into await_suspend
read_into-fails h fd n k vec small = rw (submit_read_some_vec_lem fd n vec small, read_into)

-- A read that a coroutine awaits and that fails with the error -(k + 1): after a reset it waits for ever;
-- with another error the process aborts if the vector had no more than k bytes, as it always does at the
-- first read; and else the coroutine is misled about the number of bytes.
pub failed_read_ends :
    (h fd remote n k : ℕ) (cont : List ℕ → Process) (vec : List ℕ) (answers : List Answer)
    → length vec + n < 2 ^ 63
    → k < 2 ^ 31
    → execute h fd remote (await_read n cont) vec (fails k ∷ answers) ≡ (
        if k == 103
        then stops []
        else if leb (length vec) k
        then aborts
        else returns (record { actions = []; is_misled = true }))
unfolding execute await_resume
failed_read_ends h fd remote n k cont vec answers small code =
    let p : PendingReadSomeVec = record {
      sockfd = fd;
      handle = some (waiting h);
      initial_size = length vec;
    } in
    let grown = vec ++ replicate n 0 in
    let size : length grown ≡ length vec + n =
      omega (arith, length-append vec (replicate n 0), length-replicate {A = ℕ} n 0) in
    let failed = λ (other : k ≢ 103).
      read_some_fails k h p grown code other refl (omega (arith, size))
        (omega (arith, size, small)) in
    elim (Bool-cases (k == 103)) [
      | inl reset ↦
          rw (read_into-fails h fd n k vec small, reset)
            (rw (eq→≡ k 103 reset, read_some_reset h p grown refl) refl)
      | inr other ↦ elim (Bool-cases (leb (length vec) k)) [
        | inl short ↦
            rw (read_into-fails h fd n k vec small, other, short)
              (rw ((failed (eq_false→≢ k 103 other)).1 (leb→le (length vec) k short)) refl)
        | inr enough ↦
            let wrong : (2 ^ 64 - suc k == 0) ≡ false = ground (arith, code) in
            rw (read_into-fails h fd n k vec small, other, enough)
              (rw
                (
                  (failed (eq_false→≢ k 103 other)).0 (leb_false→lt (length vec) k enough),
                  nothing_more (length vec - suc k) (length vec) grown (omega arith),
                  wrong,
                )
                refl)
      ]
    ]
