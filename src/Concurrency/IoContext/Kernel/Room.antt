-- ===== src/Concurrency/IoContext/Kernel/Room.antt =====
-- How many operations of include/concurrency/iocontext.hpp can be submitted before the event loop shows
-- them to the kernel.
use toad_jawbreaker.Prelude.{
  store, ltb→lt, ltb_false→le, ℕ, ◌+◌, ◌≡◌, ◌≤◌, ◌<◌, ◌↔◌, refl, sym, ◌∙◌, List, [], ◌∷◌, ◌++◌,
  some, Outcome, returns, aborts, ◌>>=◌, arith, if-elim, ltb, length, length-append,
}
use toad_jawbreaker.Concurrency.IoContext.Loop.{PendingVariant}
use toad_jawbreaker.Concurrency.IoContext.Submission.{Request, Sqe, Io, submit}

-- An address, the pending object and the request.
pub record Submission : Type 0 where
  pub address : ℕ
  pub pending : PendingVariant
  pub request : Request

abbrev pub submit_all : List Submission → Io → Outcome Io
submit_all [] io = returns io
submit_all (p ∷ ps) io = submit p.address p.pending p.request io >>= λ io'. submit_all ps io'

abbrev pub accepted : Submission → Io → Io
accepted p io = record io {
  loop = record io.loop { heap = store p.address (some p.pending) io.loop.heap };
  queue = io.queue ++ (record { user_data = p.address; request = p.request } ∷ []);
}

submit-elim {κ} :
    (P : Outcome Io → Type κ) (entries : ℕ) (p : Submission) (io : Io)
    → ((queue : List Sqe) → io.has_room queue ≡ ltb (length queue) entries)
    → (length io.queue < entries → P (returns (accepted p io)))
    → (entries ≤ length io.queue → P aborts)
    → P (submit p.address p.pending p.request io)
unfolding submit
submit-elim P entries p io ring room full =
    if-elim P (io.has_room io.queue) (returns (accepted p io)) aborts
      (λ e. room (ltb→lt (length io.queue) entries (sym (ring io.queue) ∙ e)))
      λ e. full (ltb_false→le (length io.queue) entries (sym (ring io.queue) ∙ e))

length-accepted : (p : Submission) (io : Io) → length (accepted p io).queue ≡ length io.queue + 1
length-accepted p io =
    omega
      (arith, length-append io.queue (record { user_data = p.address; request = p.request } ∷ []))

-- Where `io_uring_get_sqe` is null exactly once so many entries are queued, submissions one after the
-- other return exactly as long as there is room for all of them with what is there already: one more
-- writes through the null pointer.
pub submit_all-aborts_iff :
    (entries : ℕ) (ps : List Submission) (io : Io)
    → ((queue : List Sqe) → io.has_room queue ≡ ltb (length queue) entries)
    → length io.queue ≤ entries
    → (submit_all ps io ≡ aborts) ↔ (entries < length io.queue + length ps)
submit_all-aborts_iff entries [] io ring fits = (λ e. cc, λ h. absurd (omega (arith, h)))
submit_all-aborts_iff entries (p ∷ ps) io ring fits =
    submit-elim
      (λ o.
        ((o >>= λ io'. submit_all ps io') ≡ aborts) ↔ (entries < length io.queue + length (p ∷ ps)))
      entries p io ring
      (λ room.
        let (there, back) =
          submit_all-aborts_iff entries ps (accepted p io) ring
            (omega (arith, room, length-accepted p io)) in
        (
          λ e. omega (arith, there e, length-accepted p io),
          λ h. back (omega (arith, h, length-accepted p io)),
        ))
      λ full. (λ e. omega (arith, full), λ h. refl)
