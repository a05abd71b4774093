-- ===== src/Views/Tuples.antt =====
-- materialized_view.go and sql.go: the key of a tuple, and the tuples of a view's table as a set.
use s3pgstore.Base.{
  ◌≡◌, refl, sym, ap, ap₂, ◌∙◌, Bool, true, false, ◌&&◌, ◌||◌, List, [], ◌∷◌, ◌++◌, arith,
  if◌then◌else◌, Bool-cases, inl, inr, Bytes, bytes_eq, bytes_eq_iff, bytes_eq_refl, length, any,
  any-append, count_if, count_if-append, All,
}
use s3pgstore.Base.Separated.{Lacks, join, split, split-join}
use s3pgstore.Catalog.Tables.{ViewRow}
use s3pgstore.Catalog.Views.{tuple_eq, same_view_row, insert_rows}
use s3pgstore.Views.{tuple_key}

pub tuple_eq_refl : (a : List Bytes) → tuple_eq a a ≡ true
unfolding tuple_eq
tuple_eq_refl [] = refl
tuple_eq_refl (x ∷ a) = ground (arith, bytes_eq_refl x, tuple_eq_refl a)

pub tuple_eq_sound : (a b : List Bytes) → tuple_eq a b ≡ true → a ≡ b
unfolding tuple_eq
tuple_eq_sound [] [] e = refl
tuple_eq_sound [] (y ∷ b) e = absurd cc
tuple_eq_sound (x ∷ a) [] e = absurd cc
tuple_eq_sound (x ∷ a) (y ∷ b) e = ground (arith, bytes_eq_iff x y, tuple_eq_sound a b, e)

both_or_none : (p q : Bool) → (p ≡ true → q ≡ true) → (q ≡ true → p ≡ true) → p ≡ q
both_or_none true q there back = sym (there refl)
both_or_none false true there back = back refl
both_or_none false false there back = refl

-- Tuples of one length without NUL have the same key only when they are the same.
pub tuple_key-eq :
    (a b : List Bytes)
    → length a ≡ length b
    → All (Lacks 0) a
    → All (Lacks 0) b
    → bytes_eq (tuple_key a) (tuple_key b) ≡ tuple_eq a b
unfolding tuple_key
tuple_key-eq [] [] same clean_a clean_b = bytes_eq_refl (join (0 ∷ []) []) ∙ sym (tuple_eq_refl [])
tuple_key-eq [] (y ∷ b) same clean_a clean_b = absurd (omega (arith, same))
tuple_key-eq (x ∷ a) [] same clean_a clean_b = absurd (omega (arith, same))
tuple_key-eq (x ∷ a) (y ∷ b) same clean_a clean_b =
    let (sound, complete) = bytes_eq_iff (join (0 ∷ []) (x ∷ a)) (join (0 ∷ []) (y ∷ b)) in
    both_or_none (bytes_eq (join (0 ∷ []) (x ∷ a)) (join (0 ∷ []) (y ∷ b)))
      (tuple_eq (x ∷ a) (y ∷ b))
      (λ e.
        let tuples : (x ∷ a) ≡ (y ∷ b) =
          sym (split-join 0 (x ∷ a) (λ n. absurd cc) clean_a)
          ∙ ap (split 0) (sound e)
          ∙ split-join 0 (y ∷ b) (λ n. absurd cc) clean_b in
        ap (tuple_eq (x ∷ a)) (sym tuples) ∙ tuple_eq_refl (x ∷ a))
      (λ e. complete (ap (join (0 ∷ [])) (tuple_eq_sound (x ∷ a) (y ∷ b) e)))

pub none_counted : {A : Type 0} (p : A → Bool) (xs : List A) → any p xs ≡ false → count_if p xs ≡ 0
none_counted p [] e = refl
none_counted p (x ∷ xs) e = ground (arith, none_counted p xs, e)

-- Every tuple stands in the table of its view once, or not at all.
abbrev pub AreDistinct : List ViewRow → Type 0
AreDistinct rows =
    (name : Bytes) (r : List Bytes)
    → count_if (same_view_row name r) rows ≡ (if any (same_view_row name r) rows then 1 else 0)

-- An insert that skips what is there.
abbrev added : Bytes → List Bytes → List ViewRow → List ViewRow
added view tuple rows =
    if any (same_view_row view tuple) rows
    then rows
    else rows ++ (record { view = view; tuple = tuple } ∷ [])

-- The tuple that is inserted, under the name of its view.
one_row :
    (view : Bytes) (tuple : List Bytes) (name : Bytes) (r : List Bytes)
    → (bytes_eq view name && tuple_eq tuple r) ≡ true
    → (view ≡ name) × (tuple ≡ r)
one_row view tuple name r e =
    ((bytes_eq_iff view name).0 (ground (arith, e)), tuple_eq_sound tuple r (ground (arith, e)))

pub added-any :
    (view : Bytes) (tuple : List Bytes) (rows : List ViewRow) (name : Bytes) (r : List Bytes)
    → any (same_view_row name r) (added view tuple rows)
      ≡ (any (same_view_row name r) rows || (bytes_eq view name && tuple_eq tuple r))
added-any view tuple rows name r = elim (Bool-cases (any (same_view_row view tuple) rows)) [
  | inl e ↦ elim (Bool-cases (bytes_eq view name && tuple_eq tuple r)) [
    | inl hit ↦
        let (view_is, tuple_is) = one_row view tuple name r hit in
        let there : any (same_view_row name r) rows ≡ true =
          ap₂ (λ v u. any (same_view_row v u) rows) (sym view_is) (sym tuple_is) ∙ e in
        rw e (ground (arith, there))
    | inr miss ↦ rw e (ground (arith, miss))
  ]
  | inr e ↦ rw e (
      any-append (same_view_row name r) rows (record { view = view; tuple = tuple } ∷ [])
      ∙ ground arith)
]

added-AreDistinct :
    (view : Bytes) (tuple : List Bytes) (rows : List ViewRow)
    → AreDistinct rows
    → AreDistinct (added view tuple rows)
added-AreDistinct view tuple rows once name r =
    elim (Bool-cases (any (same_view_row view tuple) rows)) [
      | inl e ↦ rw e (once name r)
      | inr e ↦
          let x : ViewRow = record { view = view; tuple = tuple } in
          rw e (
            count_if-append (same_view_row name r) rows (x ∷ [])
            ∙ elim (Bool-cases (bytes_eq view name && tuple_eq tuple r)) [
              | inl hit ↦
                  let (view_is, tuple_is) = one_row view tuple name r hit in
                  let gone : any (same_view_row name r) rows ≡ false =
                    ap₂ (λ v u. any (same_view_row v u) rows) (sym view_is) (sym tuple_is) ∙ e in
                  ground
                    (arith, hit, gone, once name r, any-append (same_view_row name r) rows (x ∷ []))
              | inr miss ↦
                  ground (arith, miss, once name r, any-append (same_view_row name r) rows (x ∷ []))
            ])
    ]

-- MVInsertSQL adds the tuples that are missing, and leaves a set a set.
pub insert_rows-any :
    (view : Bytes) (tuples : List (List Bytes)) (rows : List ViewRow) (name : Bytes)
    (r : List Bytes)
    → any (same_view_row name r) (insert_rows view tuples rows)
      ≡ (any (same_view_row name r) rows || (bytes_eq view name && any (λ u. tuple_eq u r) tuples))
unfolding insert_rows
insert_rows-any view [] rows name r = ground arith
insert_rows-any view (u ∷ tuples) rows name r =
    ground
      (arith, insert_rows-any view tuples (added view u rows) name r, added-any view u rows name r)

pub insert_rows-AreDistinct :
    (view : Bytes) (tuples : List (List Bytes)) (rows : List ViewRow)
    → AreDistinct rows
    → AreDistinct (insert_rows view tuples rows)
unfolding insert_rows
insert_rows-AreDistinct view [] rows once = once
insert_rows-AreDistinct view (u ∷ tuples) rows once =
    insert_rows-AreDistinct view tuples (added view u rows) (added-AreDistinct view u rows once)
