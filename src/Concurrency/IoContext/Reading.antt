-- ===== src/Concurrency/IoContext/Reading.antt =====
-- The completions of include/concurrency/iocontext.hpp for reads.
use toad_jawbreaker.Prelude.{
  ℕ, zero, suc, ◌+◌, ◌-◌, ◌*◌, ◌^◌, ◌≤◌, ◌<◌, ◌≡◌, ◌≢◌, refl, ap, ◌∙◌, true, false, if◌then◌else◌,
  List, [], ◌∷◌, ◌++◌, some, append-nil, returns, aborts, length, take, replicate, arith, le→leb,
  lt→leb_false, ◌>>=◌,
}
use toad_jawbreaker.Prelude.Bits.{sz}
use toad_jawbreaker.Bytes.Stream.{max_vector_size}
use toad_jawbreaker.Concurrency.Future.{FutureState, new_state, set_value}
use toad_jawbreaker.Prelude.Int.{ℤ, pos, negsuc, equals}
use toad_jawbreaker.Concurrency.IoContext.{
  to_sz, resize, PendingReadSomeVec, submit_read_some_vec, handle_read_some_vec, timespec,
}

-- A future that a coroutine waits for, and one that it is resumed from.
abbrev pub waiting {ℓ} : {T : Type ℓ} → ℕ → FutureState T
waiting h = record new_state { continuation = some h }

abbrev pub resolved {ℓ} : {T : Type ℓ} → ℕ → T → FutureState T
resolved h v = record { value = some v; is_ready = true; continuation = some h }

set_value-waiting {ℓ} :
    {T : Type ℓ} (v : T) (h : ℕ)
    → set_value v (some (waiting h)) ≡ returns (some (resolved h v), h ∷ [])
unfolding set_value
set_value-waiting v h = refl

take-all : (k : ℕ) (vec : List ℕ) → take (length vec + k) vec ≡ vec
take-all zero [] = refl
take-all (suc k) [] = ap (λ (n : ℕ). take n []) {x = 0 + suc k} {y = suc k} (omega arith)
take-all k (x ∷ vec) =
    ap (λ (n : ℕ). take n (x ∷ vec)) {x = suc (length vec) + k} {y = suc (length vec + k)}
      (omega arith)
    ∙ ap (λ l. x ∷ l) (take-all k vec)

resize_lem :
    (n : ℕ) (vec : List ℕ)
    → n ≤ max_vector_size
    → resize n vec ≡ returns (take n vec ++ replicate (n - length vec) 0)
resize_lem n vec small =
    ap (λ b. if b then returns (take n vec ++ replicate (n - length vec) 0) else aborts)
      (le→leb n max_vector_size small)

resize-fits :
    (n : ℕ) (vec : List ℕ)
    → n ≤ max_vector_size
    → n ≤ length vec
    → resize n vec ≡ returns (take n vec)
resize-fits n vec small inside =
    let nothing_more : n - length vec ≡ 0 = omega arith in
    resize_lem n vec small ∙ rw (nothing_more, append-nil (take n vec))

resize-grows :
    (k : ℕ) (vec : List ℕ)
    → length vec + k ≤ max_vector_size
    → resize (length vec + k) vec ≡ returns (vec ++ replicate k 0)
resize-grows k vec small =
    let more : length vec + k - length vec ≡ k = omega arith in
    resize_lem (length vec + k) vec small ∙ rw (more, take-all k vec)

resize-throws : (n : ℕ) (vec : List ℕ) → max_vector_size < n → resize n vec ≡ aborts
resize-throws n vec large =
    ap (λ b. if b then returns (take n vec ++ replicate (n - length vec) 0) else aborts)
      (lt→leb_false n max_vector_size large)

-- The handler for a result that is no reset, while a coroutine waits for the future.
handle-resize :
    (res : ℤ) (p : PendingReadSomeVec) (vec : List ℕ) (h : ℕ)
    → equals res (negsuc 103) ≡ false
    → p.handle ≡ some (waiting h)
    → handle_read_some_vec res p vec ≡ (
        resize (sz (p.initial_size + to_sz res)) vec >>= λ vec'.
        returns (vec', some (resolved h (to_sz res)), h ∷ []))
unfolding handle_read_some_vec set_value
handle-resize res p vec h e w = rw (e, w)

-- A read into a vector of what the kernel delivered, as many bytes as were asked for or fewer, in the
-- room behind the vector's end and with the bytes before it untouched: the vector ends as it was with
-- these bytes appended, the future has their number, and the coroutine that waits is spawned once.
pub read_some_appends :
    (fd max_size h : ℕ) (vec chunk filled : List ℕ)
    → length vec + max_size < 2 ^ 63
    → length chunk ≤ max_size
    → length filled ≡ length vec + max_size
    → take (length vec + length chunk) filled ≡ vec ++ chunk
    → handle_read_some_vec
        (pos (length chunk))
        (record { sockfd = fd; handle = some (waiting h); initial_size = length vec })
        filled
      ≡ returns (vec ++ chunk, some (resolved h (length chunk)), h ∷ [])
read_some_appends fd max_size h vec chunk filled small fits size delivered =
    let p : PendingReadSomeVec = record {
      sockfd = fd;
      handle = some (waiting h);
      initial_size = length vec;
    } in
    let n = length vec + length chunk in
    let fits_sz : sz (length chunk) ≡ length chunk = omega arith in
    let fits_sum : sz (length vec + sz (length chunk)) ≡ n = omega arith in
    handle-resize (pos (length chunk)) p filled h refl refl
    ∙ ap
        (λ (m : ℕ).
          resize m filled >>= λ vec'. returns (vec', some (resolved h (sz (length chunk))), h ∷ []))
        fits_sum
    ∙ rw (resize-fits n filled (omega arith) (omega arith), delivered, fits_sz)

-- The same read, handled before a coroutine awaits its future: the bytes are there, but nobody is spawned
-- and the future has no value.
pub read_some_unawaited :
    (fd max_size initial_size res : ℕ) (filled : List ℕ)
    → initial_size + max_size < 2 ^ 63
    → res ≤ max_size
    → length filled ≡ initial_size + max_size
    → handle_read_some_vec
        (pos res)
        (record { sockfd = fd; handle = some new_state; initial_size = initial_size })
        filled
      ≡ returns (take (initial_size + res) filled, some new_state, [])
unfolding handle_read_some_vec set_value
read_some_unawaited fd max_size initial_size res filled small fits size =
    let fits_sum : sz (initial_size + sz res) ≡ initial_size + res = omega arith in
    ap (λ (m : ℕ). resize m filled >>= λ vec'. returns (vec', some new_state, [])) fits_sum
    ∙ rw (resize-fits (initial_size + res) filled (omega arith) (omega arith))

-- The room for a read: the vector, and zeros behind it, as many as the bytes that are asked for. The
-- pending read remembers where the room begins.
pub submit_read_some_vec_lem :
    (fd max_size : ℕ) (vec : List ℕ)
    → length vec + max_size < 2 ^ 63
    → submit_read_some_vec fd vec max_size
      ≡ returns (
        record { sockfd = fd; handle = some new_state; initial_size = length vec },
        vec ++ replicate max_size 0,
      )
unfolding submit_read_some_vec
submit_read_some_vec_lem fd max_size vec small =
    let fits : sz (length vec + max_size) ≡ length vec + max_size = omega arith in
    rw (fits, resize-grows max_size vec (omega arith))

not_reset : (k : ℕ) → k ≢ 103 → equals (negsuc k) (negsuc 103) ≡ false
not_reset k other = ground arith

value_lem : (k : ℕ) → k < 2 ^ 31 → to_sz (negsuc k) ≡ 2 ^ 64 - suc k
value_lem k code = omega arith

-- A read that fails with an error -(k + 1) other than a reset cuts off the k + 1 bytes before the
-- place where the read began, or aborts if there are not so many; the future has 2 ^ 64 - (k + 1) as
-- the number of bytes that were read.
pub read_some_fails :
    (k h : ℕ) (p : PendingReadSomeVec) (vec : List ℕ)
    → k < 2 ^ 31
    → k ≢ 103
    → p.handle ≡ some (waiting h)
    → p.initial_size ≤ length vec
    → length vec < 2 ^ 63
    → (k < p.initial_size
        → handle_read_some_vec (negsuc k) p vec
          ≡ returns (take (p.initial_size - suc k) vec, some (resolved h (2 ^ 64 - suc k)), h ∷ []))
      × (p.initial_size ≤ k → handle_read_some_vec (negsuc k) p vec ≡ aborts)
read_some_fails k h p vec code other w from small =
    let n = sz (p.initial_size + to_sz (negsuc k)) in
    let run = handle-resize (negsuc k) p vec h (not_reset k other) w in
    (
      λ enough.
          let back : n ≡ p.initial_size - suc k = omega arith in
          run ∙ rw (resize-fits n vec (omega arith) (omega arith), back, value_lem k code),
      λ short. run ∙ rw (resize-throws n vec (omega arith)),
    )

-- A reset leaves the vector with the room for what was not read, the future without a value and the
-- coroutine that waits for it asleep: nothing is spawned, and the pending read is deleted.
pub read_some_reset :
    (h : ℕ) (p : PendingReadSomeVec) (vec : List ℕ)
    → p.handle ≡ some (waiting h)
    → handle_read_some_vec (negsuc 103) p vec ≡ returns (vec, some (waiting h), [])
unfolding handle_read_some_vec
read_some_reset h p vec w = rw w

-- The time to wait is the timeout, with less than a second in the nanoseconds.
pub timespec_lem :
    (timeout_ms : ℕ)
    → ((timespec timeout_ms).1 < 1000000000)
      × ((timespec timeout_ms).0 * 1000000000 + (timespec timeout_ms).1 ≡ timeout_ms * 1000000)
unfolding timespec
timespec_lem timeout_ms = (omega arith, omega arith)
