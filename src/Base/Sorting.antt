-- ===== src/Base/Sorting.antt =====
-- `sort.Strings`, `sort.SliceStable` and `slices.SortFunc`: a stable sort by a key.
use s3pgstore.Base.{
  ◌≡◌, refl, subst, Bool, false, List, [], ◌∷◌, arith, if◌then◌else◌, count_if, Bool-cases, inl,
  inr, All, All-map,
}
use s3pgstore.Base.Orders.{StrictOrder, not_lt_trans}

module _ {ℓ} {A : Type ℓ} (less : A → A → Bool) where
  -- `x` stood before the elements of the list, and stays before those that are not less.
  unfoldable pub insert : A → List A → List A
  insert x [] = x ∷ []
  insert x (y ∷ ys) = if less y x then y ∷ insert x ys else x ∷ y ∷ ys

  unfoldable pub sort : List A → List A
  unfolding insert
  sort [] = []
  sort (x ∷ xs) = insert x (sort xs)

  -- No element is less than one before it.
  abbrev pub IsSorted : List A → Type ℓ
  IsSorted [] = Unit
  IsSorted (x ∷ xs) = All (λ y. less y x ≡ false) xs × IsSorted xs

  pub count_if-insert :
      (p : A → Bool) (x : A) (xs : List A) → count_if p (insert x xs) ≡ count_if p (x ∷ xs)
  unfolding insert
  count_if-insert p x [] = refl
  count_if-insert p x (y ∷ ys) = ground (arith, count_if-insert p x ys)

  -- Sorting keeps every element, as often as it occurs.
  pub count_if-sort : (p : A → Bool) (xs : List A) → count_if p (sort xs) ≡ count_if p xs
  unfolding sort
  count_if-sort p [] = refl
  count_if-sort p (x ∷ xs) = ground (arith, count_if-insert p x (sort xs), count_if-sort p xs)

  pub All-insert {κ} : (P : A → Type κ) (x : A) (xs : List A) → P x → All P xs → All P (insert x xs)
  unfolding insert
  All-insert P x [] px hx = (px, tt)
  All-insert P x (y ∷ ys) px (py, hys) = elim (Bool-cases (less y x)) [
    | inl e ↦ rw e (py, All-insert P x ys px hys)
    | inr e ↦ rw e (px, (py, hys))
  ]

  pub All-sort {κ} : (P : A → Type κ) (xs : List A) → All P xs → All P (sort xs)
  unfolding sort
  All-sort P [] h = tt
  All-sort P (x ∷ xs) (px, hx) = All-insert P x (sort xs) px (All-sort P xs hx)

  All-uninsert {κ} : (P : A → Type κ) (x : A) (xs : List A) → All P (insert x xs) → P x × All P xs
  unfolding insert
  All-uninsert P x [] h = h
  All-uninsert P x (y ∷ ys) h = elim (Bool-cases (less y x)) [
    | inl e ↦
        let (py, hr) = subst (λ b. All P (if b then y ∷ insert x ys else x ∷ y ∷ ys)) e h in
        let (px, hys) = All-uninsert P x ys hr in (px, (py, hys))
    | inr e ↦ subst (λ b. All P (if b then y ∷ insert x ys else x ∷ y ∷ ys)) e h
  ]

  pub All-unsort {κ} : (P : A → Type κ) (xs : List A) → All P (sort xs) → All P xs
  unfolding sort
  All-unsort P [] h = tt
  All-unsort P (x ∷ xs) h = let (px, hr) = All-uninsert P x (sort xs) h in (px, All-unsort P xs hr)

module _ {ℓ κ} {A : Type ℓ} {K : Type κ} (o : StrictOrder K) (key : A → K) where
  abbrev pub by : A → A → Bool
  by a b = o.lt (key a) (key b)

  insert-IsSorted : (x : A) (xs : List A) → IsSorted by xs → IsSorted by (insert by x xs)
  unfolding insert
  insert-IsSorted x [] h = (tt, tt)
  insert-IsSorted x (y ∷ ys) (hy, hys) = elim (Bool-cases (by y x)) [
    | inl e ↦
        rw e
          (All-insert by (λ z. by z y ≡ false) x ys (o.lt_asymm _ _ e) hy, insert-IsSorted x ys hys)
    | inr e ↦
        rw e ((e, All-map (λ z p. not_lt_trans o (key x) (key y) (key z) e p) ys hy), (hy, hys))
  ]

  pub sort-IsSorted : (xs : List A) → IsSorted by (sort by xs)
  unfolding sort
  sort-IsSorted [] = tt
  sort-IsSorted (x ∷ xs) = insert-IsSorted x (sort by xs) (sort-IsSorted xs)
