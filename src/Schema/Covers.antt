-- ===== src/Schema/Covers.antt =====
-- Lists of names: which covers which.
use s3pgstore.Base.{
  ◌≡◌, refl, ap, subst, Bool, true, List, [], ◌∷◌, ◌++◌, map, arith, Bool-cases, inl, inr, Bytes,
  bytes_eq, bytes_eq_iff, bytes_eq_refl, keep, any, any-append, All, All-map,
}

-- Every name of the first list is in the second.
abbrev pub Covers : List Bytes → List Bytes → Type 0
Covers ys xs = All (λ x. any (λ y. bytes_eq y x) ys ≡ true) xs

pub Covers-left : (ys zs xs : List Bytes) → Covers ys xs → Covers (ys ++ zs) xs
Covers-left ys zs xs =
    All-map (λ x e. let all = any-append (λ y. bytes_eq y x) ys zs in ground (arith, e, all)) xs

pub Covers-right : (ys zs xs : List Bytes) → Covers zs xs → Covers (ys ++ zs) xs
Covers-right ys zs xs =
    All-map (λ x e. let all = any-append (λ y. bytes_eq y x) ys zs in ground (arith, e, all)) xs

pub Covers-refl : (xs : List Bytes) → Covers xs xs
Covers-refl [] = tt
Covers-refl (x ∷ xs) = (rw (bytes_eq_refl x) refl, Covers-right (x ∷ []) xs xs (Covers-refl xs))

pub keep-append :
    {A : Type 0} (p : A → Bool) (xs ys : List A) → keep p (xs ++ ys) ≡ keep p xs ++ keep p ys
keep-append p [] ys = refl
keep-append p (x ∷ xs) ys = ground (arith, keep-append p xs ys)

pub map-append :
    {A B : Type 0} (f : A → B) (xs ys : List A) → map f (xs ++ ys) ≡ map f xs ++ map f ys
map-append f [] ys = refl
map-append f (x ∷ xs) ys = ap (λ r. f x ∷ r) (map-append f xs ys)

pub All-any :
    (P : Bytes → Type 0) (x : Bytes) (ys : List Bytes)
    → All P ys
    → any (λ y. bytes_eq y x) ys ≡ true
    → P x
All-any P x [] all e = absurd cc
All-any P x (y ∷ ys) (py, all) e = elim (Bool-cases (bytes_eq y x)) [
  | inl same ↦ subst P ((bytes_eq_iff y x).0 same) py
  | inr other ↦ All-any P x ys all (ground (arith, e, other))
]

pub Covers-trans : (zs ys xs : List Bytes) → Covers zs ys → Covers ys xs → Covers zs xs
Covers-trans zs ys xs first =
    All-map (λ x e. All-any (λ y. any (λ z. bytes_eq z y) zs ≡ true) x ys first e) xs
