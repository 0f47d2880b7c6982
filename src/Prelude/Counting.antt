-- ===== src/Prelude/Counting.antt =====
-- How often a list of numbers has one.
use Prim.Native.Nat.{ℕ, ◌+◌}
use mathlib.Core.Path.{◌≡◌}
use mathlib.Core.Logic.{◌≢◌}
use mathlib.Core.List.{List, [], ◌∷◌, ◌++◌}
use native.Mathlib.Omega.{arith}
use toad_jawbreaker.Prelude.Tests.{if◌then◌else◌, ◌==◌}

abbrev pub times : ℕ → List ℕ → ℕ
times d [] = 0
times d (x ∷ l) = (if x == d then 1 else 0) + times d l

pub times-append : (d : ℕ) (l k : List ℕ) → times d (l ++ k) ≡ times d l + times d k
times-append d [] k = omega arith
times-append d (x ∷ l) k = omega (arith, times-append d l k)

pub times-one : (d a : ℕ) → d ≡ a → times d (a ∷ []) ≡ 1
times-one d a e = ground arith

pub times-zero : (d a : ℕ) → d ≢ a → times d (a ∷ []) ≡ 0
times-zero d a e = ground arith
