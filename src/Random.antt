-- ===== src/Random.antt =====
-- include/prng.hpp: a generator for each thread. The engine and the distribution are the standard
-- library's: `Rng` has what the code uses of them, and `IsUniform` what is documented of the distribution.
use toad_jawbreaker.Prelude.{
  store, store_self, store_other, ℕ, ◌-◌, ◌^◌, ◌≤◌, ◌<◌, ◌≡◌, ◌≢◌, sym, ap, ◌∙◌, Option, none, some,
  arith,
}

-- `std::mt19937(seed)`, and `std::uniform_int_distribution<u32>(min, max)` applied to an engine.
pub record Rng (G : Type 0) : Type 0 where
  pub engine : ℕ → G
  pub draw : ℕ → ℕ → G → ℕ × G

abbrev pub IsUniform : {G : Type 0} → Rng G → Type 0
IsUniform {G} r =
    (min max : ℕ) (g : G) → min ≤ max → (min ≤ (r.draw min max g).0) × ((r.draw min max g).0 ≤ max)

module _ {G : Type 0} (r : Rng G) where
  -- `get_thread_rng` on a thread; `device` is what `std::random_device` gives if it is asked.
  abbrev pub seeded : ℕ → Option G → G
  seeded device none = r.engine device
  seeded device (some g) = g

  unfoldable pub get_thread_rng : ℕ → ℕ → (ℕ → Option G) → G
  get_thread_rng device thread rngs = seeded device (rngs thread)

  -- `thread_safe_random_u32(min, max)`
  unfoldable pub random_u32_between : ℕ → ℕ → ℕ → ℕ → (ℕ → Option G) → ℕ × (ℕ → Option G)
  random_u32_between min max device thread rngs =
      let (n, g) = r.draw min max (get_thread_rng device thread rngs) in
      (n, store thread (some g) rngs)

  -- `thread_safe_random_u32()`: `~0` as a `u32`.
  abbrev pub thread_safe_random_u32 : ℕ → ℕ → (ℕ → Option G) → ℕ × (ℕ → Option G)
  thread_safe_random_u32 device thread rngs = random_u32_between 0 (2 ^ 32 - 1) device thread rngs

  -- The number fits in 32 bits, another thread's generator is left as it is, and a thread asks the
  -- random device once: what a second number is does not depend on what the device would give.
  pub thread_safe_random_u32_lem :
      IsUniform r
      → (device device' device'' thread other : ℕ) (rngs : ℕ → Option G) → other ≢ thread
      → let (n, rngs') = thread_safe_random_u32 device thread rngs in
        (n < 2 ^ 32)
        × (rngs' other ≡ rngs other)
        × (thread_safe_random_u32 device' thread rngs'
            ≡ thread_safe_random_u32 device'' thread rngs')
  unfolding random_u32_between get_thread_rng
  thread_safe_random_u32_lem u device device' device'' thread other rngs n = (
    omega (arith, (u 0 (2 ^ 32 - 1) (get_thread_rng device thread rngs) (omega arith)).1),
    store_other thread (some engine) rngs other n,
    again device' ∙ sym (again device''),
  )
    where
      engine : G
      engine = (r.draw 0 (2 ^ 32 - 1) (seeded device (rngs thread))).1

      drawn : G → ℕ × (ℕ → Option G)
      drawn g =
          let (n, g') = r.draw 0 (2 ^ 32 - 1) g in
          (n, store thread (some g') (store thread (some engine) rngs))

      again : (d : ℕ) → drawn (seeded d (store thread (some engine) rngs thread)) ≡ drawn engine
      again d = ap (λ o. drawn (seeded d o)) (store_self thread (some engine) rngs)
