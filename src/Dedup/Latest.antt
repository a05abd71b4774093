-- ===== src/Dedup/Latest.antt =====
-- What sortAndDedup leaves without history: the newest record of each entity, in order.
use s3pgstore.Base.{
  ◌≤◌, ◌≡◌, refl, Bool, true, false, not, ◌&&◌, some, List, [], ◌∷◌, arith, Bytes, bytes_eq,
  bytes_eq_iff, bytes_eq_refl, bytes_ltb, bytes_lt_trans, bytes_lt_connex, any, count_if, All,
  All-map, if-split,
}
use s3pgstore.Base.Int.{ℤ, int_ltb}
use s3pgstore.Base.Orders.{not_lt_trans, lt_irrefl, bytes_order, int_order}
use s3pgstore.Base.Sorting.{sort, IsSorted, sort-IsSorted, count_if-sort}
use s3pgstore.Dedup.{sort_key, key_order, less, latest_after, dedup_latest, sort_and_dedup}

module _ {T : Type 0} (e : T → Bytes) (v : T → ℤ) where
  -- A record of the entity of `r`, of a version that is not older.
  abbrev pub supersedes : T → T → Bool
  supersedes r s = bytes_eq (e s) (e r) && not (int_ltb (v s) (v r))

  abbrev pub IsCovered : List T → T → Type 0
  IsCovered out r = any (supersedes r) out ≡ true

  -- Each record's entity is strictly before those behind it.
  abbrev pub IsAscending : List T → Type 0
  IsAscending [] = Unit
  IsAscending (x ∷ xs) = All (λ y. bytes_ltb (e x) (e y) ≡ true) xs × IsAscending xs

  IsCovered-older :
      (out : List T) (p r : T)
      → e r ≡ e p
      → int_ltb (v r) (v p) ≡ false
      → IsCovered out r
      → IsCovered out p
  IsCovered-older [] p r same older h = cc
  IsCovered-older (s ∷ out) p r same older h = ground (
    arith,
    same,
    older,
    h,
    IsCovered-older out p r same older,
    not_lt_trans int_order (v p) (v r) (v s),
    bytes_eq_iff (e s) (e r),
    bytes_eq_iff (e s) (e p),
  )

  latest_after-IsCovered :
      (p : T) (rs : List T)
      → IsSorted (less e v) (p ∷ rs)
      → All (IsCovered (latest_after e v p rs)) (p ∷ rs)
  unfolding latest_after
  latest_after-IsCovered p [] h =
      (ground (arith, bytes_eq_refl (e p), lt_irrefl int_order (v p)), tt)
  latest_after-IsCovered p (r ∷ rs) ((hr, hrs), h) =
      let later = latest_after-IsCovered r rs h in
      if-split (λ out. All (IsCovered out) (p ∷ r ∷ rs)) (not (bytes_eq (e r) (e p))) _ _
        (λ _. (
          ground (arith, bytes_eq_refl (e p), lt_irrefl int_order (v p)),
          All-map (λ x c. ground (arith, c)) (r ∷ rs) later,
        ))
        (λ same. (
          IsCovered-older (latest_after e v r rs) p r
              (ground (arith, same, bytes_eq_iff (e r) (e p)))
              (ground (arith, same, hr, bytes_eq_iff (e r) (e p), lt_irrefl bytes_order (e p)))
              later.0,
          later,
        ))

  abbrev NotBefore : T → T → Type 0
  NotBefore p s = bytes_ltb (e s) (e p) ≡ false

  latest_after-NotBefore :
      (p : T) (rs : List T)
      → IsSorted (less e v) (p ∷ rs)
      → All (NotBefore p) (latest_after e v p rs)
  unfolding latest_after
  latest_after-NotBefore p [] h = (lt_irrefl bytes_order (e p), tt)
  latest_after-NotBefore p (r ∷ rs) ((hr, hrs), h) =
      let later : All (NotBefore p) (latest_after e v r rs) =
        All-map (λ s c. not_lt_trans bytes_order (e p) (e r) (e s) (ground (arith, hr)) c)
          (latest_after e v r rs) (latest_after-NotBefore r rs h) in
      if-split (All (NotBefore p)) (not (bytes_eq (e r) (e p))) _ _
        (λ _. (lt_irrefl bytes_order (e p), later)) λ _. later

  -- Before one entity, and that before another.
  before_both :
      (a b c : Bytes)
      → bytes_eq b a ≡ false
      → bytes_ltb b a ≡ false
      → bytes_ltb c b ≡ false
      → bytes_ltb a c ≡ true
  before_both a b c apart h k = ground (
    arith,
    apart,
    h,
    k,
    bytes_eq_iff b a,
    bytes_lt_connex a b,
    bytes_lt_connex b c,
    bytes_lt_trans a b c,
  )

  latest_after-IsAscending :
      (p : T) (rs : List T) → IsSorted (less e v) (p ∷ rs) → IsAscending (latest_after e v p rs)
  unfolding latest_after
  latest_after-IsAscending p [] h = (tt, tt)
  latest_after-IsAscending p (r ∷ rs) ((hr, hrs), h) =
      let later = latest_after-IsAscending r rs h in
      if-split IsAscending (not (bytes_eq (e r) (e p))) _ _
        (λ apart. (
          All-map
              (λ s c. before_both (e p) (e r) (e s) (ground (arith, apart)) (ground (arith, hr)) c)
              (latest_after e v r rs) (latest_after-NotBefore r rs h),
          later,
        ))
        (λ _. later)

  latest_after-count :
      (q : T → Bool) (p : T) (rs : List T)
      → count_if q (latest_after e v p rs) ≤ count_if q (p ∷ rs)
  unfolding latest_after
  latest_after-count q p [] = omega arith
  latest_after-count q p (r ∷ rs) =
      if-split (λ out. count_if q out ≤ count_if q (p ∷ r ∷ rs)) (not (bytes_eq (e r) (e p))) _ _
        (λ _. omega (arith, latest_after-count q r rs))
        (λ _. omega (arith, latest_after-count q r rs))

  -- What is promised of the newest records of a list.
  unfoldable pub AreNewest : List T → List T → Type 0
  AreNewest records out =
      All (IsCovered out) records
      × IsAscending out
      × ((q : T → Bool) → count_if q out ≤ count_if q records)

  dedup_latest-AreNewest :
      (sorted : List T) → IsSorted (less e v) sorted → AreNewest sorted (dedup_latest e v sorted)
  unfolding dedup_latest AreNewest
  dedup_latest-AreNewest [] h = (tt, tt, (λ q. omega arith))
  dedup_latest-AreNewest (r ∷ rs) h = (
    latest_after-IsCovered r rs h,
    latest_after-IsAscending r rs h,
    (λ q. latest_after-count q r rs),
  )

  count_if-All :
      (P : T → Bool) (xs : List T) → All (λ x. P x ≡ true) xs → count_if (λ x. not (P x)) xs ≡ 0
  count_if-All P [] h = refl
  count_if-All P (x ∷ xs) (px, h) = ground (arith, px, count_if-All P xs h)

  All-count_if :
      (P : T → Bool) (xs : List T) → count_if (λ x. not (P x)) xs ≡ 0 → All (λ x. P x ≡ true) xs
  All-count_if P [] h = tt
  All-count_if P (x ∷ xs) h = (ground (arith, h), All-count_if P xs (ground (arith, h)))

  -- A property of every element of a sorted list holds of the list it was sorted from.
  unsorted :
      (P : T → Bool) (less : T → T → Bool) (xs : List T)
      → All (λ x. P x ≡ true) (sort less xs)
      → All (λ x. P x ≡ true) xs
  unsorted P less xs h =
      All-count_if P xs
        (omega (arith, count_if-All P (sort less xs) h, count_if-sort less (λ x. not (P x)) xs))

-- Without history, a call of sortAndDedup, which a read makes for each partition, returns the newest
-- of each entity among the records that it is given: for every record there is one of its entity
-- whose version is not older, the entities are strictly ascending, and each record that is returned
-- was given, as often at most.
pub sort_and_dedup-AreNewest :
    {T : Type 0} (e : T → Bytes) (v : T → ℤ) (records : List T)
    → AreNewest e v records (sort_and_dedup (some e) (some v) false records)
unfolding sort_and_dedup AreNewest
sort_and_dedup-AreNewest e v records =
    let sorted = sort (less e v) records in
    let newest =
      dedup_latest-AreNewest e v sorted (sort-IsSorted (key_order e v) (sort_key e v) records) in
    (
      unsorted e v (λ r. any (supersedes e v r) (dedup_latest e v sorted)) (less e v) records
          newest.0,
      newest.1,
      (λ q. omega (arith, newest.2 q, count_if-sort (less e v) q records)),
    )
