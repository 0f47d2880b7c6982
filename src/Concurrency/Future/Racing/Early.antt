-- ===== src/Concurrency/Future/Racing/Early.antt =====
-- The load of `await_ready` of include/concurrency/future.hpp between the statements of `set_value`.
use toad_jawbreaker.Prelude.{
  store_self, ℕ, ◌≡◌, ◌≢◌, ◌⊎◌, refl, sym, [], ◌∷◌, returns-injective, if-elim, ap, ◌∙◌, Bool, true,
  false, Bool-cases, inl, inr, Option, none, some, returns, aborts,
}
use mathlib.Core.Path.{subst}
use toad_jawbreaker.Concurrency.Future.{FutureState, await_ready, await_suspend, await_resume}
use toad_jawbreaker.Concurrency.Future.Racing.{
  Completer, calls, dropped, holds, marked, built, returned, Race, answered, after_suspend, Awaiter,
  fresh, proceeds, asked, RaceStep, drops, locks, marks, builds, spawns, asks, suspends, resumes,
  Raced, starts, goes_on,
}

module _ {ℓ} {T : Type ℓ} (v : T) where
  abbrev pub flag_of : Completer → Bool
  flag_of calls = false
  flag_of dropped = false
  flag_of (holds h) = false
  flag_of (marked h) = true
  flag_of (built h) = true
  flag_of (returned h) = true

  abbrev pub value_of : Completer → Option T
  value_of calls = none
  value_of dropped = none
  value_of (holds h) = none
  value_of (marked h) = none
  value_of (built h) = some v
  value_of (returned h) = some v

  abbrev pub is_built : Completer → Bool
  is_built calls = false
  is_built dropped = false
  is_built (holds h) = false
  is_built (marked h) = false
  is_built (built h) = true
  is_built (returned h) = true

  unbuilt-none : (x : Completer) → is_built x ≡ false → value_of x ≡ none
  unbuilt-none calls e = refl
  unbuilt-none dropped e = refl
  unbuilt-none (holds h) e = refl
  unbuilt-none (marked h) e = refl
  unbuilt-none (built h) e = cc
  unbuilt-none (returned h) e = cc

  await_resume-built :
      (s : FutureState T)
      → s.is_ready ≡ true
      → s.value ≡ some v
      → await_resume s ≡ returns (v, record s { value = none })
  unfolding await_resume
  await_resume-built s e k = rw (await_resume, e, k) (rw e refl)

  await_resume-unbuilt : (s : FutureState T) → s.value ≡ none → await_resume s ≡ aborts
  unfolding await_resume
  await_resume-unbuilt s k = elim (Bool-cases s.is_ready) [
    | inl e ↦ rw (e, k) refl
    | inr e ↦ rw e refl
  ]

  -- Nothing is taken where the value is not built.
  pub resumed-none :
      (s' : FutureState T) (u : T) (s : FutureState T)
      → s.value ≡ none
      → ¬ (await_resume s ≡ returns (u, s'))
  resumed-none s' u s k e = let e' = sym (await_resume-unbuilt s k) ∙ e in cc

  resumes-parts :
      (x : Option T) (b : Bool) (k : Option ℕ) (u : T) (s' : FutureState T)
      → await_resume (record { value = x; is_ready = b; continuation = k }) ≡ returns (u, s')
      → (s'.value ≡ none) × (s'.is_ready ≡ b)
  unfolding await_resume
  resumes-parts x false k u s' e = cc
  resumes-parts none true k u s' e = cc
  resumes-parts (some y) true k u s' e =
      let p = returns-injective refl e in
      (ap (λ q. q.1.value) (sym p), ap (λ q. q.1.is_ready) (sym p))

  pub resumed-value :
      (u : T) (s s' : FutureState T) → await_resume s ≡ returns (u, s') → s'.value ≡ none
  resumed-value u s s' e = (resumes-parts s.value s.is_ready s.continuation u s' e).0

  resumed-flag :
      (u : T) (s s' : FutureState T) → await_resume s ≡ returns (u, s') → s'.is_ready ≡ s.is_ready
  resumed-flag u s s' e = (resumes-parts s.value s.is_ready s.continuation u s' e).1

  -- The flag is that which the call of `set_value` has set so far, and the value that which it has built,
  -- or it was taken.
  record Agrees (r : Race T) : Type ℓ where
    flag : r.future.is_ready ≡ flag_of r.completer
    value :
        ((r.future.value ≡ value_of r.completer) × (r.resumed ≡ []))
        ⊎ ((r.future.value ≡ none) × (is_built r.completer ≡ true) × (r.resumed ≢ []))

  true-false : true ≡ false → ⊥
  true-false e = cc

  unbuilt-value : (r : Race T) → is_built r.completer ≡ false → Agrees r → r.future.value ≡ none
  unbuilt-value r b i = elim i.value [
    | inl (k, n) ↦ k ∙ unbuilt-none r.completer b
    | inr (k, n, m) ↦ k
  ]

  -- The call proceeds without a change of the value.
  at-Agrees :
      (x y : Completer) (r r' : Race T)
      → r.completer ≡ x
      → r'.completer ≡ y
      → r'.future.is_ready ≡ flag_of y
      → r'.future.value ≡ r.future.value
      → value_of x ≡ value_of y
      → is_built x ≡ is_built y
      → r'.resumed ≡ r.resumed
      → Agrees r
      → Agrees r'
  at-Agrees x y r r' p q f same e b l i = record {
    flag = f ∙ sym (ap flag_of q);
    value = elim i.value [
      | inl (k, n) ↦ inl (same ∙ k ∙ ap value_of p ∙ e ∙ sym (ap value_of q), l ∙ n)
      | inr (k, n, m) ↦
          inr (same ∙ k, ap is_built q ∙ sym b ∙ sym (ap is_built p) ∙ n, λ z. m (sym l ∙ z))
    ];
  }

  after_suspend-Agrees :
      (c : ℕ) (r : Race T) → Agrees r → Agrees (after_suspend c (await_suspend c r.future) r)
  unfolding await_suspend
  after_suspend-Agrees c r i =
      if-elim (λ a. Agrees (after_suspend c a r)) r.future.is_ready (false, r.future)
        (true, record r.future { continuation = some c })
        (λ _. record { flag = i.flag; value = i.value })
        λ _. record { flag = i.flag; value = i.value }

  asks-Agrees :
      (c : ℕ) (b : Bool) (st : Awaiter) (r : Race T) → Agrees r → Agrees (answered c b st r)
  asks-Agrees c true st r i = record { flag = i.flag; value = i.value }
  asks-Agrees c false st r i = record { flag = i.flag; value = i.value }

  builds-Agrees :
      (h : ℕ) (r : Race T)
      → r.completer ≡ marked h
      → Agrees r
      → Agrees (record r { future = record r.future { value = some v }; completer = built h })
  builds-Agrees h r p i = record {
    flag = i.flag ∙ ap flag_of p;
    value = elim i.value [
      | inl (k, n) ↦ inl (refl, n)
      | inr (k, n, m) ↦ absurd (true-false (sym n ∙ ap is_built p))
    ];
  }

  resumes-Agrees :
      (c : ℕ) (u : T) (s' : FutureState T) (r : Race T)
      → await_resume r.future ≡ returns (u, s')
      → Agrees r
      → Agrees (record r { future = s'; resumed = c ∷ r.resumed })
  resumes-Agrees c u s' r e i = record {
    flag = resumed-flag u r.future s' e ∙ i.flag;
    value = inr (
      resumed-value u r.future s' e,
      elim (Bool-cases (is_built r.completer)) [
        | inl b ↦ b
        | inr b ↦ absurd (resumed-none s' u r.future (unbuilt-value r b i) e)
      ],
      λ l. cc,
    );
  }

  step-Agrees : {r r' : Race T} → RaceStep v r r' → Agrees r → Agrees r'
  step-Agrees (drops {r} p k) i =
      at-Agrees calls dropped r (record r { completer = dropped }) p refl (i.flag ∙ ap flag_of p)
        refl refl refl refl i
  step-Agrees (locks {r} h p k) i =
      at-Agrees calls (holds h) r (record r { completer = holds h }) p refl (i.flag ∙ ap flag_of p)
        refl refl refl refl i
  step-Agrees (marks {r} h p n) i =
      at-Agrees (holds h) (marked h) r
        (record r { future = record r.future { is_ready = true }; completer = marked h }) p refl
        refl refl refl refl refl i
  step-Agrees (builds {r} h p) i = builds-Agrees h r p i
  step-Agrees (spawns {r} h p) i =
      at-Agrees (built h) (returned h) r
        (record r { completer = returned h; spawned = h ∷ r.spawned }) p refl
        (i.flag ∙ ap flag_of p) refl refl refl refl i
  step-Agrees (asks {r} c a) i = asks-Agrees c (await_ready r.future) asked r i
  step-Agrees (suspends {r} c a n) i = after_suspend-Agrees c r i
  step-Agrees (resumes {r} c u s' woken e) i = resumes-Agrees c u s' r e i

  Raced-Agrees : {r : Race T} → Raced v r → Agrees r
  Raced-Agrees starts = record { flag = refl; value = inl (refl, refl) }
  Raced-Agrees (goes_on q st) = step-Agrees st (Raced-Agrees q)

  -- The coroutine that waited is spawned behind the construction of the value, and as long as no coroutine
  -- has resumed it resumes with it.
  pub resumes_with_value :
      {r : Race T}
      → Raced v r
      → (h : ℕ) → r.completer ≡ returned h
      → r.resumed ≡ []
      → await_resume r.future ≡ returns (v, record r.future { value = none })
  resumes_with_value {r} q h p first =
      let i = Raced-Agrees q in
      elim i.value [
        | inl (k, n) ↦ await_resume-built r.future (i.flag ∙ ap flag_of p) (k ∙ ap value_of p)
        | inr (k, n, m) ↦ absurd (m first)
      ]

  -- Any other coroutine that asks for the future between the exchange of its flag and the construction
  -- of its value is told to go on, and takes a value that is not there.
  pub loads_early :
      {r : Race T}
      → Raced v r
      → (h : ℕ) → r.completer ≡ marked h
      → (c : ℕ) → r.awaiters c ≡ fresh
      → (r' : Race T) × Raced v r' × (r'.awaiters c ≡ proceeds) × (await_resume r'.future ≡ aborts)
  unfolding await_ready
  loads_early {r} q h p c f =
      let i = Raced-Agrees q in
      (
        answered c true asked r,
        subst (λ b. Raced v (answered c b asked r)) (i.flag ∙ ap flag_of p) (goes_on q (asks c f)),
        store_self c proceeds r.awaiters,
        await_resume-unbuilt r.future (unbuilt-value r (ap is_built p) i),
      )
