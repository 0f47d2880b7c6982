-- ===== src/Format/Texts.antt =====
-- Texts that are put together and taken apart again.
use toad_jawbreaker.Prelude.{ℕ, ◌≡◌, refl, sym, List, [], ◌∷◌, ◌++◌, length, All, arith}
use mathlib.Core.Path.{subst}
use toad_jawbreaker.Format.{IsDigit}

pub ∷-injective {ℓ} : {A : Type ℓ} {x y : A} {l k : List A} → x ∷ l ≡ y ∷ k → (x ≡ y) × (l ≡ k)
∷-injective h = (cc, cc)

-- Parts of one length.
pub append-injective {ℓ} :
    {A : Type ℓ} (xs ys r s : List A)
    → length xs ≡ length ys
    → xs ++ r ≡ ys ++ s
    → (xs ≡ ys) × (r ≡ s)
append-injective [] [] r s h e = (refl, e)
append-injective [] (y ∷ ys) r s h e = absurd (omega (arith, h))
append-injective (x ∷ xs) [] r s h e = absurd (omega (arith, h))
append-injective (x ∷ xs) (y ∷ ys) r s h e =
    let (first, rest) = ∷-injective e in
    let (same, left) = append-injective xs ys r s (omega (arith, h)) rest in
    (cc (first, same), left)

-- Digits up to a character that is none.
pub digits-injective :
    (c : ℕ) (xs ys r s : List ℕ)
    → ¬ IsDigit c
    → All IsDigit xs
    → All IsDigit ys
    → xs ++ (c ∷ r) ≡ ys ++ (c ∷ s)
    → (xs ≡ ys) × (r ≡ s)
digits-injective c [] [] r s out h k e = (refl, (∷-injective e).1)
digits-injective c [] (y ∷ ys) r s out h (d, ds) e =
    absurd (out (subst IsDigit (sym (∷-injective e).0) d))
digits-injective c (x ∷ xs) [] r s out (d, ds) k e =
    absurd (out (subst IsDigit (∷-injective e).0 d))
digits-injective c (x ∷ xs) (y ∷ ys) r s out (h, hs) (k, ks) e =
    let (first, rest) = ∷-injective e in
    let (same, left) = digits-injective c xs ys r s out hs ks rest in (cc (first, same), left)
