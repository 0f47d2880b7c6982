-- ===== src/Concurrency/Join/Group/Joinable.antt =====
-- That a join set of include/concurrency/join.hpp whose coroutines are woken can be joined.
use toad_jawbreaker.Prelude.{
  Bool-cases, ℕ, zero, suc, ◌+◌, ◌-◌, ◌^◌, ◌<◌, ◌≡◌, inl, inr, refl, ap, true, false, arith, List,
  [], ◌∷◌, ◌++◌, All, All-middle, All-replace, length,
}
use mathlib.Core.Path.{subst}
use toad_jawbreaker.Concurrency.Join.{join_notify}
use toad_jawbreaker.Concurrency.Join.Counting.{Reachable-Counted}
use toad_jawbreaker.Concurrency.Join.Group.{
  Member, Group, IsWoken, GroupStep, continues, sets_flag, Reachable, goes_on, Later, now, and_then,
}
use toad_jawbreaker.Concurrency.Join.Group.Joined.{
  one_if, ended_of, ended_of-middle, length-middle, ended_of-le, Reachable-Inv,
}

Later-first : {g g' g'' : Group} → GroupStep g g' → Later g' g'' → Later g g''
Later-first s now = and_then now s
Later-first s (and_then l s') = and_then (Later-first s l) s'

some_left :
    (l : List Member)
    → ended_of l < length l
    → (front : List Member) × (m : Member) × (back : List Member) × (l ≡ front ++ (m ∷ back))
      × (m.ended ≡ false)
some_left [] h = absurd (omega (arith, h))
some_left (m ∷ l) h = elim (Bool-cases m.ended) [
  | inr left ↦ ([], m, l, refl, left)
  | inl over ↦
      let (front, m', back, at, left) = some_left l (omega (arith, h, ap one_if over)) in
      (m ∷ front, m', back, ap (λ k. m ∷ k) at, left)
]

joined_within :
    (n : ℕ) {g : Group}
    → Reachable g
    → length g.members < 2 ^ 32
    → 0 < length g.members
    → All IsWoken g.members
    → n + ended_of g.members ≡ length g.members
    → (g' : Group) × Later g g' × (g'.join.fired ≡ true)
joined_within zero {g} r small more woken e =
    let i = Reachable-Inv r in
    let c = Reachable-Counted i.reached (omega (arith, small, i.spawned)) in
    elim (c.once_done (omega (arith, more, i.spawned)) (omega (arith, e, i.spawned, i.ended))) [
      | inl fired ↦ (g, now, fired)
      | inr some_left ↦ (_, and_then now (sets_flag some_left), unfold join_notify in refl)
    ]
joined_within (suc n) {g} r small more woken e =
    let (front, m, back, at, left) = some_left g.members (omega (arith, e)) in
    let woken' = subst (All IsWoken) at woken in
    let m' : Member = record m { ended = true } in
    let same : length (front ++ (m' ∷ back)) ≡ length g.members =
      omega (arith, ap length at, length-middle front m back, length-middle front m' back) in
    let (g', later, fired) =
      joined_within n
        (goes_on r (continues front m back at (All-middle IsWoken front back woken') left))
        (omega (arith, small, same)) (omega (arith, more, same))
        (All-replace IsWoken front m back (All-middle IsWoken front back woken') woken')
        (omega (
          arith,
          e,
          same,
          ap ended_of at,
          ended_of-middle front m back,
          ended_of-middle front m' back,
          ap one_if left,
        )) in
    (
      g',
      Later-first (continues front m back at (All-middle IsWoken front back woken') left) later,
      fired,
    )

-- Wherever the coroutines of all members of a set have passed or were spawned, and there are some but
-- fewer than 2 ^ 32, the set is notified in a later state, once those coroutines have gone on that have
-- not yet and the last one has set the flag.
pub woken_joins :
    {g : Group}
    → Reachable g
    → length g.members < 2 ^ 32
    → 0 < length g.members
    → All IsWoken g.members
    → (g' : Group) × Later g g' × (g'.join.fired ≡ true)
woken_joins {g} r small more woken =
    joined_within (length g.members - ended_of g.members) r small more woken
      (omega (arith, ended_of-le g.members))
