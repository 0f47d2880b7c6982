-- ===== src/Prelude/Lists.antt =====
-- Lists measured and indexed by native numbers, and the copying of bytes.
use Prim.Native.Nat.{ℕ, zero, suc, ◌+◌, ◌-◌, ◌≤◌, min}
use mathlib.Core.Path.{◌≡◌, refl, ap, ◌∙◌}
use mathlib.Core.List.{List, [], ◌∷◌, ◌++◌}
use native.Mathlib.Omega.{arith}

module _ {ℓ} {A : Type ℓ} where
  abbrev pub length : List A → ℕ
  length [] = 0
  length (x ∷ xs) = suc (length xs)

  abbrev pub get_or : List A → ℕ → A → A
  get_or [] i d = d
  get_or (x ∷ xs) zero d = x
  get_or (x ∷ xs) (suc i) d = get_or xs i d

  -- A write out of range changes nothing.
  abbrev pub set : List A → ℕ → A → List A
  set [] i v = []
  set (x ∷ xs) zero v = v ∷ xs
  set (x ∷ xs) (suc i) v = x ∷ set xs i v

  abbrev pub take : ℕ → List A → List A
  take zero xs = []
  take (suc n) [] = []
  take (suc n) (x ∷ xs) = x ∷ take n xs

  abbrev pub drop : ℕ → List A → List A
  drop zero xs = xs
  drop (suc n) [] = []
  drop (suc n) (x ∷ xs) = drop n xs

  abbrev pub replicate : ℕ → A → List A
  replicate zero a = []
  replicate (suc n) a = a ∷ replicate n a

  abbrev pub All {κ} : (A → Type κ) → List A → Type κ
  All P [] = Unit {κ}
  All P (x ∷ xs) = P x × All P xs

  pub length-append : (xs ys : List A) → length (xs ++ ys) ≡ length xs + length ys
  length-append [] ys = omega arith
  length-append (x ∷ xs) ys = omega (arith, length-append xs ys)

module _ {ℓ} {A : Type ℓ} where
  -- `memcpy` of `vs` to position `i` of `dst`, byte by byte.
  unfoldable pub overwrite : List A → ℕ → List A → List A
  overwrite dst i [] = dst
  overwrite dst i (v ∷ vs) = overwrite (set dst i v) (i + 1) vs

  pub length-set : (xs : List A) (i : ℕ) (v : A) → length (set xs i v) ≡ length xs
  length-set [] i v = refl
  length-set (x ∷ xs) zero v = refl
  length-set (x ∷ xs) (suc i) v = ap suc (length-set xs i v)

  pub length-overwrite :
      (dst : List A) (i : ℕ) (vs : List A) → length (overwrite dst i vs) ≡ length dst
  unfolding overwrite
  length-overwrite dst i [] = refl
  length-overwrite dst i (v ∷ vs) = length-overwrite (set dst i v) (i + 1) vs ∙ length-set dst i v

  pub length-take : (n : ℕ) (xs : List A) → length (take n xs) ≡ min n (length xs)
  length-take zero xs = omega arith
  length-take (suc n) [] = omega arith
  length-take (suc n) (x ∷ xs) = omega (arith, length-take n xs)

  pub length-drop : (n : ℕ) (xs : List A) → length (drop n xs) ≡ length xs - n
  length-drop zero xs = omega arith
  length-drop (suc n) [] = omega arith
  length-drop (suc n) (x ∷ xs) = omega (arith, length-drop n xs)

  pub length-replicate : (n : ℕ) (a : A) → length (replicate n a) ≡ n
  length-replicate zero a = refl
  length-replicate (suc n) a = ap suc (length-replicate n a)

module _ {ℓ} {A : Type ℓ} where
  pub overwrite-append :
      (dst : List A) (i : ℕ) (vs ws : List A)
      → overwrite dst i (vs ++ ws) ≡ overwrite (overwrite dst i vs) (i + length vs) ws
  unfolding overwrite
  overwrite-append dst i [] ws = ap (λ (k : ℕ). overwrite dst k ws) (omega arith)
  overwrite-append dst i (v ∷ vs) ws =
      overwrite-append (set dst i v) (i + 1) vs ws
      ∙ ap (λ (k : ℕ). overwrite (overwrite (set dst i v) (i + 1) vs) k ws) (omega arith)

  overwrite-suc :
      (x : A) (dst : List A) (i : ℕ) (vs : List A)
      → overwrite (x ∷ dst) (suc i) vs ≡ x ∷ overwrite dst i vs
  unfolding overwrite
  overwrite-suc x dst i [] = refl
  overwrite-suc x dst i (v ∷ vs) =
      ap (λ (k : ℕ). overwrite (x ∷ set dst i v) k vs) (omega arith)
      ∙ overwrite-suc x (set dst i v) (i + 1) vs

  -- At the front of a long enough destination the copy replaces a prefix.
  pub overwrite-zero :
      (dst vs : List A) → length vs ≤ length dst → overwrite dst 0 vs ≡ vs ++ drop (length vs) dst
  unfolding overwrite
  overwrite-zero dst [] h = refl
  overwrite-zero [] (v ∷ vs) h = absurd (omega arith)
  overwrite-zero (d ∷ dst) (v ∷ vs) h =
      ap (λ (k : ℕ). overwrite (v ∷ dst) k vs) (omega arith)
      ∙ overwrite-suc v dst 0 vs
      ∙ ap (λ l. v ∷ l) (overwrite-zero dst vs (omega arith))

  pub drop-nil : (n : ℕ) → drop {A = A} n [] ≡ []
  drop-nil zero = refl
  drop-nil (suc n) = refl

  pub drop-add : (m n : ℕ) (xs : List A) → drop (m + n) xs ≡ drop n (drop m xs)
  drop-add zero n xs = ap (λ (k : ℕ). drop k xs) (omega arith)
  drop-add (suc m) zero [] =
      ap (λ (k : ℕ). drop {A = A} k []) {x = suc m + 0} {y = suc m} (omega arith)
  drop-add (suc m) (suc n) [] =
      ap (λ (k : ℕ). drop {A = A} k []) {x = suc m + suc n} {y = suc (m + suc n)} (omega arith)
  drop-add (suc m) n (x ∷ xs) =
      ap (λ (k : ℕ). drop k (x ∷ xs)) {x = suc m + n} {y = suc (m + n)} (omega arith)
      ∙ drop-add m n xs

  pub drop-length_append : (xs ys : List A) → drop (length xs) (xs ++ ys) ≡ ys
  drop-length_append [] ys = refl
  drop-length_append (x ∷ xs) ys = drop-length_append xs ys

  pub take-length_append : (xs ys : List A) → take (length xs) (xs ++ ys) ≡ xs
  take-length_append [] ys = refl
  take-length_append (x ∷ xs) ys = ap (λ l. x ∷ l) (take-length_append xs ys)

  pub get_or-drop :
      (xs : List A) (i : ℕ) (d v : A) (rest : List A) → drop i xs ≡ v ∷ rest → get_or xs i d ≡ v
  get_or-drop [] zero d v rest h = cc
  get_or-drop [] (suc i) d v rest h = cc
  get_or-drop (x ∷ xs) zero d v rest h = cc
  get_or-drop (x ∷ xs) (suc i) d v rest h = get_or-drop xs i d v rest h

  pub drop-replicate : (m n : ℕ) (a : A) → drop m (replicate n a) ≡ replicate (n - m) a
  drop-replicate zero n a = ap (λ (k : ℕ). replicate k a) (omega arith)
  drop-replicate (suc m) zero a =
      ap (λ (k : ℕ). replicate k a) {x = 0} {y = 0 - suc m} (omega arith)
  drop-replicate (suc m) (suc n) a =
      drop-replicate m n a
      ∙ ap (λ (k : ℕ). replicate k a) {x = n - m} {y = suc n - suc m} (omega arith)

module _ {ℓ} {A : Type ℓ} where
  -- What a copy leaves at and behind its place, and that it leaves what is in front.
  pub drop-overwrite :
      (dst : List A) (i : ℕ) (vs : List A)
      → i + length vs ≤ length dst
      → drop i (overwrite dst i vs) ≡ vs ++ drop (i + length vs) dst
  drop-overwrite dst zero vs h =
      overwrite-zero dst vs (omega arith)
      ∙ ap (λ (k : ℕ). vs ++ drop k dst) {x = length vs} {y = 0 + length vs} (omega arith)
  drop-overwrite [] (suc i) vs h = absurd (omega arith)
  drop-overwrite (x ∷ dst) (suc i) vs h = rw (overwrite-suc x dst i vs) (
      drop-overwrite dst i vs (omega arith)
      ∙ ap (λ (k : ℕ). vs ++ drop k (x ∷ dst)) {x = suc (i + length vs)} {y = suc i + length vs}
          (omega arith))

  overwrite-nil : (i : ℕ) (vs : List A) → overwrite [] i vs ≡ []
  unfolding overwrite
  overwrite-nil i [] = refl
  overwrite-nil i (v ∷ vs) = overwrite-nil (i + 1) vs

  pub take-overwrite :
      (dst : List A) (i : ℕ) (vs : List A) → take i (overwrite dst i vs) ≡ take i dst
  take-overwrite dst zero vs = refl
  take-overwrite [] (suc i) vs = rw (overwrite-nil (suc i) vs)
  take-overwrite (x ∷ dst) (suc i) vs =
      rw (overwrite-suc x dst i vs) (ap (λ l. x ∷ l) (take-overwrite dst i vs))

-- The element in the middle, and the whole list with another in its place.
pub All-middle {ℓ κ} :
    {A : Type ℓ} (P : A → Type κ) (front : List A) {x : A} (back : List A)
    → All P (front ++ (x ∷ back))
    → P x
All-middle P [] back (h, hs) = h
All-middle P (y ∷ front) back (h, hs) = All-middle P front back hs

pub All-replace {ℓ κ} :
    {A : Type ℓ} (P : A → Type κ) (front : List A) (x : A) {y : A} (back : List A)
    → P y
    → All P (front ++ (x ∷ back))
    → All P (front ++ (y ∷ back))
All-replace P [] x back p (h, hs) = (p, hs)
All-replace P (z ∷ front) x back p (h, hs) = (h, All-replace P front x back p hs)

pub All-map {ℓ κ μ} :
    {A : Type ℓ} (P : A → Type κ) (Q : A → Type μ)
    → ((a : A) → P a → Q a)
    → (l : List A) → All P l
    → All Q l
All-map P Q f [] h = tt
All-map P Q f (x ∷ l) (h, hs) = (f x h, All-map P Q f l hs)

pub All-append {ℓ κ} :
    {A : Type ℓ} (P : A → Type κ) (xs ys : List A) → All P xs → All P ys → All P (xs ++ ys)
All-append P [] ys h k = k
All-append P (x ∷ xs) ys (h, hs) k = (h, All-append P xs ys hs k)

-- Of two lists, one after the other.
pub All-front {ℓ κ} : {A : Type ℓ} (P : A → Type κ) (l m : List A) → All P (l ++ m) → All P l
All-front P [] m h = tt
All-front P (x ∷ l) m (h, hs) = (h, All-front P l m hs)

pub All-back {ℓ κ} : {A : Type ℓ} (P : A → Type κ) (l m : List A) → All P (l ++ m) → All P m
All-back P [] m h = h
All-back P (x ∷ l) m (h, hs) = All-back P l m hs
