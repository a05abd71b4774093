-- ===== src/Base/Keyed.antt =====
-- A list made from sorted keys, one element for each key.
use s3pgstore.Base.{
  ◌≡◌, refl, ap₂, ◌∙◌, Bool, false, List, [], ◌∷◌, map, ◌+◌, if◌then◌else◌, Bytes, bytes_eq,
  count_if, All,
}
use s3pgstore.Base.Orders.{bytes_order}
use s3pgstore.Base.Sorting.{by, IsSorted}

abbrev pub by_name : Bytes → Bytes → Bool
by_name = by bytes_order (λ k. k)

module _ {A : Type 0} (f : Bytes → A) where
  pub map-All : (P : A → Type 0) (ks : List Bytes) → All (λ k. P (f k)) ks → All P (map f ks)
  map-All P [] h = tt
  map-All P (k ∷ ks) (pk, h) = (pk, map-All P ks h)

  module _ (key : A → Bytes) (same : (k : Bytes) → key (f k) ≡ k) where
    map-not_less :
        (k : Bytes) (ks : List Bytes)
        → All (λ j. by_name j k ≡ false) ks
        → All (λ a. by bytes_order key a (f k) ≡ false) (map f ks)
    map-not_less k [] h = tt
    map-not_less k (j ∷ ks) (hj, h) =
        (ap₂ bytes_order.lt (same j) (same k) ∙ hj, map-not_less k ks h)

    pub map-IsSorted :
        (ks : List Bytes) → IsSorted by_name ks → IsSorted (by bytes_order key) (map f ks)
    map-IsSorted [] h = tt
    map-IsSorted (k ∷ ks) (hk, h) = (map-not_less k ks hk, map-IsSorted ks h)

    pub count_if-map :
        (k : Bytes) (ks : List Bytes)
        → count_if (λ a. bytes_eq k (key a)) (map f ks) ≡ count_if (bytes_eq k) ks
    count_if-map k [] = refl
    count_if-map k (j ∷ ks) =
        ap₂ (λ i n. (if bytes_eq k i then 1 else 0) + n) (same j) (count_if-map k ks)
