-- ===== src/Base/Groups.antt =====
-- Elements grouped by a key: `m[key(x)] = append(m[key(x)], x)` in a loop, and the keys of the map.
use s3pgstore.Base.{
  max, ◌≡◌, refl, sym, ap, ◌∙◌, Bool, true, false, Option, none, some, List, [], ◌∷◌, ◌++◌,
  append_assoc, append-nil, arith, if◌then◌else◌, Bytes, bytes_eq, bytes_eq_iff, any, keep,
  count_if, All, Bool-cases, inl, inr,
}
use s3pgstore.Base.Dict.{Dict, lookup, put, lookup-put}

abbrev pub or_nil {ℓ} : {A : Type ℓ} → Option (List A) → List A
or_nil none = []
or_nil (some xs) = xs

abbrev pub keys_of {ℓ} : {A : Type ℓ} → Dict A → List Bytes
keys_of [] = []
keys_of ((k, v) ∷ m) = k ∷ keys_of m

module _ {ℓ} {A : Type ℓ} (key : A → Bytes) where
  unfoldable pub group_into : List A → Dict (List A) → Dict (List A)
  group_into [] m = m
  group_into (x ∷ xs) m = group_into xs (put (key x) (or_nil (lookup (key x) m) ++ (x ∷ [])) m)

  abbrev pub has_group_key : Bytes → A → Bool
  has_group_key k x = bytes_eq (key x) k

  or_nil-put :
      (k j : Bytes) (x : A) (m : Dict (List A))
      → or_nil (lookup k (put j (or_nil (lookup j m) ++ (x ∷ [])) m))
        ≡ or_nil (lookup k m) ++ (if bytes_eq j k then x ∷ [] else [])
  or_nil-put k j x m =
      rw (lookup-put j k (or_nil (lookup j m) ++ (x ∷ [])) m) (elim (Bool-cases (bytes_eq j k)) [
        | inl e ↦ rw e (ap (λ i. or_nil (lookup i m) ++ (x ∷ [])) ((bytes_eq_iff j k).0 e))
        | inr e ↦ rw e (sym (append-nil (or_nil (lookup k m))))
      ])

  keep_head :
      (b : Bool) (x : A) (ys : List A)
      → (if b then x ∷ [] else []) ++ ys ≡ (if b then x ∷ ys else ys)
  keep_head true x ys = refl
  keep_head false x ys = refl

  -- The group of a key: the elements that have it, in order.
  pub lookup-group_into :
      (k : Bytes) (xs : List A) (m : Dict (List A))
      → or_nil (lookup k (group_into xs m)) ≡ or_nil (lookup k m) ++ keep (has_group_key k) xs
  unfolding group_into
  lookup-group_into k [] m = sym (append-nil _)
  lookup-group_into k (x ∷ xs) m =
      lookup-group_into k xs (put (key x) (or_nil (lookup (key x) m) ++ (x ∷ [])) m)
      ∙ ap (λ r. r ++ keep (has_group_key k) xs) (or_nil-put k (key x) x m)
      ∙ append_assoc (or_nil (lookup k m)) _ (keep (has_group_key k) xs)
      ∙ ap (λ r. or_nil (lookup k m) ++ r)
          (keep_head (has_group_key k x) x (keep (has_group_key k) xs))

  count_if-put :
      (k j : Bytes) (v : List A) (m : Dict (List A))
      → count_if (bytes_eq k) (keys_of (put j v m))
        ≡ max (count_if (bytes_eq k) (keys_of m)) (if bytes_eq k j then 1 else 0)
  unfolding put
  count_if-put k j v [] = ground arith
  count_if-put k j v ((i, w) ∷ m) =
      ground (arith, bytes_eq_iff k j, bytes_eq_iff i j, bytes_eq_iff k i, count_if-put k j v m)

  -- The keys: each of an element, and each once.
  pub count_if-group_into :
      (k : Bytes) (xs : List A) (m : Dict (List A))
      → count_if (bytes_eq k) (keys_of (group_into xs m))
        ≡ max (count_if (bytes_eq k) (keys_of m)) (if any (has_group_key k) xs then 1 else 0)
  unfolding group_into
  count_if-group_into k [] m = ground arith
  count_if-group_into k (x ∷ xs) m = ground (
    arith,
    bytes_eq_iff k (key x),
    bytes_eq_iff (key x) k,
    count_if-group_into k xs (put (key x) (or_nil (lookup (key x) m) ++ (x ∷ [])) m),
    count_if-put k (key x) (or_nil (lookup (key x) m) ++ (x ∷ [])) m,
  )

put-All :
    {A : Type 0} (P : Bytes → Type 0) (k : Bytes) (v : A) (m : Dict A)
    → P k
    → All P (keys_of m)
    → All P (keys_of (put k v m))
unfolding put
put-All P k v [] pk h = (pk, tt)
put-All P k v ((j, w) ∷ m) pk (pj, h) = elim (Bool-cases (bytes_eq j k)) [
  | inl e ↦ rw e (pk, h)
  | inr e ↦ rw e (pj, put-All P k v m pk h)
]

-- What holds of the keys of the elements holds of the keys of the groups.
pub keys-All :
    {A : Type 0} (key : A → Bytes) (P : Bytes → Type 0) (xs : List A) (m : Dict (List A))
    → All (λ x. P (key x)) xs
    → All P (keys_of m)
    → All P (keys_of (group_into key xs m))
unfolding group_into
keys-All key P [] m h hm = hm
keys-All key P (x ∷ xs) m (px, h) hm = keys-All key P xs _ h (put-All P (key x) _ m px hm)

from_zero : (b : Bool) → max 0 (if b then 1 else 0) ≡ (if b then 1 else 0)
from_zero true = refl
from_zero false = refl

pub count_if-groups :
    {A : Type 0} (key : A → Bytes) (k : Bytes) (xs : List A)
    → count_if (bytes_eq k) (keys_of (group_into key xs []))
      ≡ (if any (has_group_key key k) xs then 1 else 0)
count_if-groups key k xs =
    count_if-group_into key k xs [] ∙ from_zero (any (has_group_key key k) xs)
