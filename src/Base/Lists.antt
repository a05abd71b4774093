-- ===== src/Base/Lists.antt =====
-- Lists measured, indexed and searched by native numbers and Boolean tests.
use Prim.Native.Nat.{ℕ, zero, suc, ◌+◌, ◌-◌, ◌≤◌, min}
use mathlib.Core.Path.{◌≡◌, refl, ap}
use mathlib.Core.Bool.{Bool, true, false, ◌&&◌, ◌||◌}
use mathlib.Core.List.{List, [], ◌∷◌, ◌++◌, map}
use mathlib.Core.Option.{Option, none, some}
use native.Mathlib.Omega.{arith}
use s3pgstore.Base.Tests.{if◌then◌else◌}

module _ {ℓ} {A : Type ℓ} where
  abbrev pub length : List A → ℕ
  length [] = 0
  length (x ∷ xs) = suc (length xs)

  abbrev pub take : ℕ → List A → List A
  take zero xs = []
  take (suc n) [] = []
  take (suc n) (x ∷ xs) = x ∷ take n xs

  abbrev pub drop : ℕ → List A → List A
  drop zero xs = xs
  drop (suc n) [] = []
  drop (suc n) (x ∷ xs) = drop n xs

  -- The elements that pass a test, in order.
  abbrev pub keep : (A → Bool) → List A → List A
  keep p [] = []
  keep p (x ∷ xs) = if p x then x ∷ keep p xs else keep p xs

  -- Some element passes the test.
  abbrev pub any : (A → Bool) → List A → Bool
  any p [] = false
  any p (x ∷ xs) = p x || any p xs

  -- The first element that passes the test.
  abbrev pub find : (A → Bool) → List A → Option A
  find p [] = none
  find p (x ∷ xs) = if p x then some x else find p xs

  -- How many elements pass the test.
  abbrev pub count_if : (A → Bool) → List A → ℕ
  count_if p [] = 0
  count_if p (x ∷ xs) = (if p x then 1 else 0) + count_if p xs

  pub length-append : (xs ys : List A) → length (xs ++ ys) ≡ length xs + length ys
  length-append [] ys = omega arith
  length-append (x ∷ xs) ys = omega (arith, length-append xs ys)

  pub take-append-drop : (n : ℕ) (xs : List A) → take n xs ++ drop n xs ≡ xs
  take-append-drop zero xs = refl
  take-append-drop (suc n) [] = refl
  take-append-drop (suc n) (x ∷ xs) = ap (λ r. x ∷ r) (take-append-drop n xs)

  pub length-take : (n : ℕ) (xs : List A) → length (take n xs) ≡ min n (length xs)
  length-take zero xs = omega arith
  length-take (suc n) [] = omega arith
  length-take (suc n) (x ∷ xs) = omega (arith, length-take n xs)

  pub length-drop : (n : ℕ) (xs : List A) → length (drop n xs) ≡ length xs - n
  length-drop zero xs = omega arith
  length-drop (suc n) [] = omega arith
  length-drop (suc n) (x ∷ xs) = omega (arith, length-drop n xs)

  pub any-append : (p : A → Bool) (xs ys : List A) → any p (xs ++ ys) ≡ (any p xs || any p ys)
  any-append p [] ys = refl
  any-append p (x ∷ xs) ys = ground (arith, any-append p xs ys)

  pub count_if-append :
      (p : A → Bool) (xs ys : List A) → count_if p (xs ++ ys) ≡ count_if p xs + count_if p ys
  count_if-append p [] ys = omega arith
  count_if-append p (x ∷ xs) ys = omega (arith, count_if-append p xs ys)

module _ {ℓ κ} {A : Type ℓ} (P : A → Type κ) where
  abbrev pub All : List A → Type κ
  All [] = Unit
  All (x ∷ xs) = P x × All xs

  pub All-append : (xs ys : List A) → All xs → All ys → All (xs ++ ys)
  All-append [] ys hx hy = hy
  All-append (x ∷ xs) ys (px, hx) hy = (px, All-append xs ys hx hy)

  pub All-parts : (xs ys : List A) → All (xs ++ ys) → All xs × All ys
  All-parts [] ys h = (tt, h)
  All-parts (x ∷ xs) ys (px, h) = let (hx, hy) = All-parts xs ys h in ((px, hx), hy)

pub All-of {ℓ κ} : {A : Type ℓ} {P : A → Type κ} → ((a : A) → P a) → (xs : List A) → All P xs
All-of f [] = tt
All-of f (x ∷ xs) = (f x, All-of f xs)

pub All-map {ℓ κ μ} :
    {A : Type ℓ} {P : A → Type κ} {Q : A → Type μ}
    → ((a : A) → P a → Q a)
    → (xs : List A) → All P xs
    → All Q xs
All-map f [] h = tt
All-map f (x ∷ xs) (px, hx) = (f x px, All-map f xs hx)

pub All-zip {ℓ κ μ ν} :
    {A : Type ℓ} {P : A → Type κ} {Q : A → Type μ} {R : A → Type ν}
    → ((a : A) → P a → Q a → R a)
    → (xs : List A) → All P xs
    → All Q xs
    → All R xs
All-zip f [] h k = tt
All-zip f (x ∷ xs) (px, hx) (qx, kx) = (f x px qx, All-zip f xs hx kx)

pub length-map {ℓ κ} :
    {A : Type ℓ} {B : Type κ} (f : A → B) (xs : List A) → length (map f xs) ≡ length xs
length-map f [] = refl
length-map f (x ∷ xs) = ap suc (length-map f xs)

module _ {ℓ} {A : Type ℓ} where
  pub count_if-keep :
      (p q : A → Bool) (xs : List A) → count_if p (keep q xs) ≡ count_if (λ x. p x && q x) xs
  count_if-keep p q [] = refl
  count_if-keep p q (x ∷ xs) = ground (arith, count_if-keep p q xs)

  pub count_if-take-le :
      (p : A → Bool) (n : ℕ) (xs : List A) → count_if p (take n xs) ≤ count_if p xs
  count_if-take-le p zero xs = omega arith
  count_if-take-le p (suc n) [] = omega arith
  count_if-take-le p (suc n) (x ∷ xs) = omega (arith, count_if-take-le p n xs)

  pub count_if-and-le :
      (p q : A → Bool) (xs : List A) → count_if (λ x. p x && q x) xs ≤ count_if p xs
  count_if-and-le p q [] = omega arith
  count_if-and-le p q (x ∷ xs) = ground (arith, count_if-and-le p q xs)

  -- Where every element that passes `p` is counted by `p and q` too, it passes `q`.
  pub count_if-and-All :
      (p q : A → Bool) (xs : List A)
      → count_if p xs ≤ count_if (λ x. p x && q x) xs
      → All (λ x. p x ≡ true → q x ≡ true) xs
  count_if-and-All p q [] h = tt
  count_if-and-All p q (x ∷ xs) h = (
    (λ e. ground (arith, count_if-and-le p q xs)),
    count_if-and-All p q xs (ground (arith, count_if-and-le p q xs)),
  )

  pub keep-length : (p : A → Bool) (xs : List A) → length (keep p xs) ≡ count_if p xs
  keep-length p [] = refl
  keep-length p (x ∷ xs) = ground (arith, keep-length p xs)

  pub length-count_if : (xs : List A) → length xs ≡ count_if (λ x. true) xs
  length-count_if [] = refl
  length-count_if (x ∷ xs) = omega (arith, length-count_if xs)

-- The numbers `start`, `start + 1`, and so on, `n` of them.
abbrev pub range : ℕ → ℕ → List ℕ
range start zero = []
range start (suc n) = start ∷ range (start + 1) n

pub range-append : (start m n : ℕ) → range start m ++ range (start + m) n ≡ range start (m + n)
range-append start zero n = ground arith
range-append start (suc m) n =
    let e : suc m + n ≡ suc (m + n) = omega arith in
    let e' : start + suc m ≡ start + 1 + m = omega arith in
    rw (e, e') (ap (λ r. start ∷ r) (range-append (start + 1) m n))
