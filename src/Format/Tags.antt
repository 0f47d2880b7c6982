-- ===== src/Format/Tags.antt =====
-- `CorrelationIdFormatter` of include/concurrency/task.hpp, in the workers of an executor.
use toad_jawbreaker.Prelude.{ℕ, ◌^◌, ◌<◌, ◌≡◌, ◌↔◌, sym, ap, ◌∙◌, List, ◌∷◌, ◌++◌, length, arith}
use toad_jawbreaker.Concurrency.Executor.{Worker, Executor, resumes}
use toad_jawbreaker.Concurrency.Executor.Steps.{Reachable}
use toad_jawbreaker.Concurrency.Executor.Correlation.{worker-correlation_id}
use toad_jawbreaker.Format.{Fmt, IsFmt}

-- `{:08X}` of `thread_correlation_id_`.
abbrev pub format_correlation_id : Fmt → Worker → List ℕ
format_correlation_id f w = f.hex 8 w.correlation_id

module _ (f : Fmt) (h : IsFmt f) where
  -- In every reachable state of an executor: two workers that resume coroutines log eight characters
  -- each, the same ones exactly if the coroutines have the same id, for ids below 2 ^ 32.
  pub tags-distinct :
      {n : ℕ} {e : Executor} (front front' : List Worker) (w w' : Worker) (back back' : List Worker)
      (c d : ℕ)
      → Reachable n e
      → e.workers ≡ front ++ (w ∷ back)
      → e.workers ≡ front' ++ (w' ∷ back')
      → w.stage ≡ resumes c
      → w'.stage ≡ resumes d
      → (e.promises c).corr_id < 2 ^ 32
      → (e.promises d).corr_id < 2 ^ 32
      → (length (format_correlation_id f w) ≡ 8)
        × ((format_correlation_id f w ≡ format_correlation_id f w')
            ↔ ((e.promises c).corr_id ≡ (e.promises d).corr_id))
  tags-distinct front front' w w' back back' c d r at at' s s' small small' =
      let k = worker-correlation_id front w back c r at s in
      let k' = worker-correlation_id front' w' back' d r at' s' in
      (
        h.hex_width 8 w.correlation_id (omega (arith, k, small)),
        (
          λ q.
              sym k
              ∙ h.hex_injective 8 w.correlation_id w'.correlation_id (omega (arith, k, small))
                  (omega (arith, k', small')) q
              ∙ k',
          λ q. ap (f.hex 8) (k ∙ q ∙ sym k'),
        ),
      )
