-- ===== src/Concurrency/Join/Group/Joined.antt =====
-- That a join set of include/concurrency/join.hpp waits for all its tasks.
use toad_jawbreaker.Prelude.{
  ◌==◌, Bool-cases, ℕ, suc, ◌+◌, ◌^◌, ◌<◌, ◌≤◌, ◌≡◌, inl, inr, refl, ap, ◌∙◌, Bool, true, false,
  returns, assert, arith, List, [], ◌∷◌, ◌++◌, All, All-middle, All-replace, All-append, length,
  length-append,
}
use mathlib.Core.Path.{subst}
use toad_jawbreaker.Concurrency.Notify.Stack.{World}
use toad_jawbreaker.Concurrency.Join as Join
use toad_jawbreaker.Concurrency.Join.{
  JoinSet, join_spawn, join_subtract, join_notify, destroy_join_set,
}
use toad_jawbreaker.Concurrency.Join.Counting.{join_spawn-eq, Reachable-Counted, Reachable-Unraced}
use toad_jawbreaker.Concurrency.Join.Group.Ordered.{Ordered, notifies-Ordered, woken-fired}
use toad_jawbreaker.Concurrency.Join.Group.{
  Member, new_member, Group, IsWoken, GroupStep, spawns, notifies, continues, sets_flag, Reachable,
  starts, goes_on,
}

abbrev pub one_if : Bool → ℕ
one_if true = 1
one_if false = 0

-- How many of the coroutines have counted themselves out.
abbrev pub ended_of : List Member → ℕ
ended_of [] = 0
ended_of (m ∷ l) = one_if m.ended + ended_of l

pub ended_of-middle :
    (front : List Member) (m : Member) (back : List Member)
    → ended_of (front ++ (m ∷ back)) ≡ one_if m.ended + ended_of (front ++ back)
ended_of-middle [] m back = refl
ended_of-middle (x ∷ front) m back = omega (arith, ended_of-middle front m back)

pub length-middle :
    {A : Type 0} (front : List A) (x : A) (back : List A)
    → length (front ++ (x ∷ back)) ≡ suc (length (front ++ back))
length-middle [] x back = refl
length-middle (y ∷ front) x back = ap suc (length-middle front x back)

ended_of-append : (l k : List Member) → ended_of (l ++ k) ≡ ended_of l + ended_of k
ended_of-append [] k = omega arith
ended_of-append (m ∷ l) k = omega (arith, ended_of-append l k)

pub ended_of-le : (l : List Member) → ended_of l ≤ length l
ended_of-le [] = omega arith
ended_of-le (m ∷ l) = elim (Bool-cases m.ended) [
  | inl e ↦ omega (arith, ended_of-le l, ap one_if e)
  | inr e ↦ omega (arith, ended_of-le l, ap one_if e)
]

-- The counter of the set counts the members.
pub record Inv (g : Group) : Type 0 where
  pub reached : Join.Reachable g.join
  pub spawned : g.join.spawned ≡ length g.members
  pub ended : g.join.ended ≡ ended_of g.members
  pub ordered : All Ordered g.members

new_member-Ordered : Ordered new_member
new_member-Ordered = record { seen = λ e. cc; told = λ e. absurd (e refl); over = λ e. cc }

spawns-Inv :
    (g : Group) (j : JoinSet)
    → join_spawn g.join ≡ returns j
    → Inv g
    → Inv (record { join = j; members = g.members ++ (new_member ∷ []) })
spawns-Inv g j e i =
    let (unset, next) = join_spawn-eq g.join j e in
    record {
      reached = Join.spawns j i.reached e;
      spawned =
          omega
            (arith, ap (λ x. x.spawned) next, i.spawned, length-append g.members (new_member ∷ []));
      ended =
          omega
            (arith, ap (λ x. x.ended) next, i.ended, ended_of-append g.members (new_member ∷ []));
      ordered = All-append Ordered g.members (new_member ∷ []) i.ordered (new_member-Ordered, tt);
    }

-- A member in its place that changes.
replaced-Inv :
    (g : Group) (front : List Member) (m : Member) (back : List Member) (w : World)
    → g.members ≡ front ++ (m ∷ back)
    → Ordered (record m { task = w })
    → Inv g
    → Inv (record g { members = front ++ (record m { task = w } ∷ back) })
replaced-Inv g front m back w at o i = record {
  reached = i.reached;
  spawned = omega (
    arith,
    i.spawned,
    ap length at,
    length-middle front m back,
    length-middle front (record m { task = w }) back,
  );
  ended = omega (
    arith,
    i.ended,
    ap ended_of at,
    ended_of-middle front m back,
    ended_of-middle front (record m { task = w }) back,
  );
  ordered = All-replace Ordered front m back o (subst (All Ordered) at i.ordered);
}

continues-Inv :
    (g : Group) (front : List Member) (m : Member) (back : List Member)
    → g.members ≡ front ++ (m ∷ back)
    → IsWoken m
    → m.ended ≡ false
    → Inv g
    → Inv (record {
      join = join_subtract g.join;
      members = front ++ (record m { ended = true } ∷ back);
    })
unfolding join_subtract
continues-Inv g front m back at woken left i =
    let ordered = subst (All Ordered) at i.ordered in
    let o = All-middle Ordered front back ordered in
    let fired = woken-fired m woken o in
    let ended : ended_of g.members ≡ ended_of (front ++ back) =
      omega (arith, ap ended_of at, ended_of-middle front m back, ap one_if left) in
    let longer = ap length at ∙ length-middle front m back in
    record {
      reached =
          Join.subtracts i.reached
            (omega (arith, i.ended, i.spawned, ended, longer, ended_of-le (front ++ back)));
      spawned =
          omega (arith, i.spawned, longer, length-middle front (record m { ended = true }) back);
      ended = omega (arith, i.ended, ended, ended_of-middle front (record m { ended = true }) back);
      ordered =
          All-replace Ordered front m back
            (record { seen = o.seen; told = o.told; over = λ e. fired }) ordered;
    }

sets_flag-Inv :
    (g : Group) → 0 < g.join.notifying → Inv g → Inv (record g { join = join_notify g.join })
unfolding join_notify
sets_flag-Inv g some_left i = record {
  reached = Join.notifies i.reached some_left;
  spawned = i.spawned;
  ended = i.ended;
  ordered = i.ordered;
}

step-Inv : {g g' : Group} → GroupStep g g' → Inv g → Inv g'
step-Inv (spawns {g} j e) i = spawns-Inv g j e i
step-Inv (notifies {g} front m back w at s once order) i =
    replaced-Inv g front m back w at
      (notifies-Ordered m w s order
        (All-middle Ordered front back (subst (All Ordered) at i.ordered)))
      i
step-Inv (continues {g} front m back at woken left) i = continues-Inv g front m back at woken left i
step-Inv (sets_flag {g} some_left) i = sets_flag-Inv g some_left i

pub Reachable-Inv : {g : Group} → Reachable g → Inv g
Reachable-Inv starts = record { reached = Join.starts; spawned = refl; ended = refl; ordered = tt }
Reachable-Inv (goes_on r s) = step-Inv s (Reachable-Inv r)

each_ended :
    (l : List Member)
    → ended_of l ≡ length l
    → All Ordered l
    → All (λ m. (m.ended ≡ true) × (m.task.notify.fired ≡ true)) l
each_ended [] e o = tt
each_ended (m ∷ l) e (o, os) = elim (Bool-cases m.ended) [
  | inl over ↦ ((over, o.over over), each_ended l (omega (arith, e, ap one_if over)) os)
  | inr left ↦ absurd (omega (arith, e, ended_of-le l, ap one_if left))
]

pub group_joined :
    {g : Group}
    → Reachable g
    → length g.members < 2 ^ 32
    → g.join.is_raced ≡ false
    → g.join.fired ≡ true
    → All (λ m. (m.ended ≡ true) × (m.task.notify.fired ≡ true)) g.members
      × (destroy_join_set g.join ≡ returns tt)
unfolding destroy_join_set
group_joined {g} r small unraced f =
    let i = Reachable-Inv r in
    let small' : g.join.spawned < 2 ^ 32 = omega (arith, small, i.spawned) in
    let c = Reachable-Counted i.reached small' in
    let over = ((Reachable-Unraced i.reached small' unraced).is_set f).1 in
    (
      each_ended g.members (omega (arith, over, i.spawned, i.ended)) i.ordered,
      ap (λ n. assert (n == 0)) {x = g.join.awaiting} {y = 0} (omega (arith, c.counter, over)),
    )
