-- ===== src/Fanout/Values.antt =====
-- write.go, Write: the values of the keys that its loop has seen.
use s3pgstore.Base.{
  ◌≡◌, refl, sym, ap, subst, ◌∙◌, Bool, true, false, Option, none, some, List, if◌then◌else◌, Bytes,
  bytes_eq, bytes_eq_iff, Result, ok, err, Bool-cases, ◌⊎◌, inl, inr,
}
use s3pgstore.Base.Dict.{Dict, lookup, put, lookup-put}
use s3pgstore.Partition.{PartitionError, partition_key_values}
use s3pgstore.Fanout.{add_values, validate_partition_key}

abbrev pub is_err {ℓ} : {E V : Type ℓ} → Result E V → Bool
is_err (err e) = true
is_err (ok v) = false

-- The values of a key are there, and are those that the key gives.
abbrev pub HasValues : List Bytes → Dict (List Bytes) → Bytes → Type 0
HasValues parts m k =
    (vs : List Bytes) × (lookup k m ≡ some vs) × (partition_key_values k parts ≡ ok vs)

-- The values that are there are those that their keys give.
abbrev pub AreValues : List Bytes → Dict (List Bytes) → Type 0
AreValues parts m =
    (k : Bytes) (vs : List Bytes) → lookup k m ≡ some vs → partition_key_values k parts ≡ ok vs

pub validate_partition_key_sound :
    (parts : List Bytes) (key k : Bytes) (vs : List Bytes)
    → validate_partition_key parts key ≡ ok (k, vs)
    → (k ≡ key) × (partition_key_values key parts ≡ ok vs)
unfolding validate_partition_key
validate_partition_key_sound parts key k vs e = go (partition_key_values key parts) refl e
  where
    go :
        (r : Result PartitionError (List Bytes))
        → partition_key_values key parts ≡ r
        → ◌≡◌ {A = Result PartitionError (Bytes × List Bytes)}
            (elim r [ err e ↦ err e | ok values ↦ ok (key, values) ])
            (ok (k, vs))
        → (k ≡ key) × (partition_key_values key parts ≡ ok vs)
    go (err x) q e = absurd cc
    go (ok ws) q e = (cc, cc)

pub validate_partition_key_refused :
    (parts : List Bytes) (key : Bytes) (x : PartitionError)
    → validate_partition_key parts key ≡ err x
    → is_err (partition_key_values key parts) ≡ true
unfolding validate_partition_key
validate_partition_key_refused parts key x e = go (partition_key_values key parts) e
  where
    go :
        (r : Result PartitionError (List Bytes))
        → ◌≡◌ {A = Result PartitionError (Bytes × List Bytes)}
            (elim r [ err e ↦ err e | ok values ↦ ok (key, values) ])
            (err x)
        → is_err r ≡ true
    go (err y) e = refl
    go (ok ws) e = absurd cc

put-HasValues :
    (parts : List Bytes) (m : Dict (List Bytes)) (key k : Bytes) (vs : List Bytes)
    → partition_key_values key parts ≡ ok vs
    → HasValues parts m k
    → HasValues parts (put key vs m) k
put-HasValues parts m key k vs p (ws, l, q) = elim (Bool-cases (bytes_eq key k)) [
  | inl e ↦
      let same : key ≡ k = (bytes_eq_iff key k).0 e in
      (
        vs,
        lookup-put key k vs m ∙ rw e refl,
        subst (λ j. partition_key_values j parts ≡ ok vs) same p,
      )
  | inr e ↦ (ws, lookup-put key k vs m ∙ rw e l, q)
]

put-AreValues :
    (parts : List Bytes) (m : Dict (List Bytes)) (key : Bytes) (vs : List Bytes)
    → partition_key_values key parts ≡ ok vs
    → AreValues parts m
    → AreValues parts (put key vs m)
put-AreValues parts m key vs p h k ws l = here (Bool-cases (bytes_eq key k))
  where
    looked : (if bytes_eq key k then some vs else lookup k m) ≡ some ws
    looked = sym (lookup-put key k vs m) ∙ l

    here : (bytes_eq key k ≡ true) ⊎ (bytes_eq key k ≡ false) → partition_key_values k parts ≡ ok ws
    here (inl e) =
        let same : key ≡ k = (bytes_eq_iff key k).0 e in
        let found : some vs ≡ some ws =
          subst (λ b. (if b then some vs else lookup k m) ≡ some ws) e looked in
        let vals : vs ≡ ws = cc in
        subst (λ j. partition_key_values j parts ≡ ok ws) same (p ∙ ap ok vals)
    here (inr e) = h k ws (subst (λ b. (if b then some vs else lookup k m) ≡ some ws) e looked)

-- What a round of the loop does to the values.
pub add_values-HasValues :
    (parts : List Bytes) (m : Dict (List Bytes)) (key : Bytes) (vs : List Bytes)
    (o : Option (List Bytes))
    → lookup key m ≡ o
    → partition_key_values key parts ≡ ok vs
    → AreValues parts m
    → HasValues parts (add_values key vs m o) key
      × AreValues parts (add_values key vs m o)
      × ((k : Bytes) → HasValues parts m k → HasValues parts (add_values key vs m o) k)
add_values-HasValues parts m key vs none e p h = (
  (vs, lookup-put key key vs m ∙ rw ((bytes_eq_iff key key).1 refl) refl, p),
  put-AreValues parts m key vs p h,
  (λ k. put-HasValues parts m key k vs p),
)
add_values-HasValues parts m key vs (some ws) e p h = ((ws, e, h key ws e), h, (λ k old. old))
