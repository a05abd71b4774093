-- ===== src/Rebuild/Groups.antt =====
-- rebuild.go, groupByPartition: the partition that a key names, and the objects of the groups.
use s3pgstore.Base.{
  ℕ, ◌≡◌, ◌≢◌, ◌⊎◌, refl, sym, ap, ◌∙◌, subst, Option, none, some, List, [], ◌∷◌, ◌++◌,
  append_assoc, arith, if◌then◌else◌, Bytes, bytes_eq, codes, length, Result, ok, err, All,
  All-append, All-parts, Bool-cases, inl, inr,
}
use s3pgstore.Base.Separated.{Lacks, has_prefix-append, take-length_append, drop-length_append}
use s3pgstore.Base.Sorting.{sort, All-unsort}
use s3pgstore.Partition.{PartitionError, partition_key_values}
use s3pgstore.Store.{data_path, data_key}
use s3pgstore.Listing.{
  RebuildError, bad_key, PartitionGroup, data_prefix_of, last_index_byte, cut, partition_of,
  add_key, group_keys, by_partition, group_by_partition,
}
use s3pgstore.Rebuild.Rows.{AllKeys}

last_index_byte-Lacks : (b : ℕ) (s : Bytes) → Lacks b s → last_index_byte b s ≡ none
unfolding last_index_byte
last_index_byte-Lacks b [] h = refl
last_index_byte-Lacks b (c ∷ s) (hc, hs) = ground (arith, last_index_byte-Lacks b s hs)

last_index_byte-append :
    (b : ℕ) (p s : Bytes) → Lacks b s → last_index_byte b (p ++ (b ∷ s)) ≡ some (length p)
unfolding last_index_byte
last_index_byte-append b [] s h = ground (arith, last_index_byte-Lacks b s h)
last_index_byte-append b (c ∷ p) s h = ground (arith, last_index_byte-append b p s h)

data_prefix_of-path : (prefix : Bytes) → data_prefix_of prefix ≡ data_path prefix ++ (b'/' ∷ [])
unfolding data_prefix_of data_path
data_prefix_of-path [] = refl
data_prefix_of-path (c ∷ prefix) = ap (λ r. c ∷ r) (sym (append_assoc prefix _ _))

data_key-prefix :
    (prefix key uuid : Bytes)
    → data_key prefix key uuid
      ≡ data_prefix_of prefix ++ (key ++ (b'/' ∷ (uuid ++ codes ".parquet")))
unfolding data_key
data_key-prefix prefix key uuid =
    sym (append_assoc (data_path prefix) (b'/' ∷ []) _)
    ∙ ap (λ r. r ++ (key ++ (b'/' ∷ (uuid ++ codes ".parquet")))) (sym (data_prefix_of-path prefix))

cut-append : (p s : Bytes) → p ≢ [] → cut (p ++ s) (some (length p)) ≡ some p
unfolding cut
cut-append [] s h = absurd (h refl)
cut-append (c ∷ p) s h = ground (arith, take-length_append p s)

parquet-Lacks : Lacks b'/' (codes ".parquet")
parquet-Lacks = (
  (λ e. omega arith),
  (
    (λ e. omega arith),
    (
      (λ e. omega arith),
      (
        (λ e. omega arith),
        ((λ e. omega arith), ((λ e. omega arith), ((λ e. omega arith), ((λ e. omega arith), tt)))),
      ),
    ),
  ),
)

-- The key of an object that a write puts under a partition names that partition, if the partition
-- key is not empty and the uuid holds no slash.
pub partition_of-data_key :
    (prefix key uuid : Bytes)
    → key ≢ []
    → Lacks b'/' uuid
    → partition_of (data_prefix_of prefix) (data_key prefix key uuid) ≡ some key
unfolding partition_of
partition_of-data_key prefix key uuid h hu =
    let name = uuid ++ codes ".parquet" in
    let rest = key ++ (b'/' ∷ name) in
    let slash_free = All-append (λ c. c ≢ b'/') uuid (codes ".parquet") hu parquet-Lacks in
    rw (data_key-prefix prefix key uuid) (
      rw (has_prefix-append (data_prefix_of prefix) rest) (
        rw (drop-length_append (data_prefix_of prefix) rest)
          (rw (last_index_byte-append b'/' key name slash_free) (cut-append key (b'/' ∷ name) h))))

add_key-AllKeys :
    (P : Bytes → Type 0) (key : Bytes) (values : List Bytes) (k : Bytes) (gs : List PartitionGroup)
    → AllKeys P (add_key key values k gs)
    → P k × AllKeys P gs
unfolding add_key
add_key-AllKeys P key values k [] ((h, _), _) = (h, tt)
add_key-AllKeys P key values k (g ∷ gs) h = elim (Bool-cases (bytes_eq g.partition_key key)) [
  | inl e ↦
      let (here, rest) = subst (λ b. AllKeys P (if b then joined ∷ gs else g ∷ later)) e h in
      let (old, (new, _)) = All-parts P g.s3_keys (k ∷ []) here in (new, (old, rest))
  | inr e ↦
      let (here, rest) = subst (λ b. AllKeys P (if b then joined ∷ gs else g ∷ later)) e h in
      let (new, old) = add_key-AllKeys P key values k gs rest in (new, (here, old))
]
  where
    joined : PartitionGroup
    joined = record g { s3_keys = g.s3_keys ++ (k ∷ []) }

    later : List PartitionGroup
    later = add_key key values k gs

-- The object has the property, unless it is in no partition.
abbrev pub OrOutside : Bytes → (Bytes → Type 0) → Bytes → Type 0
OrOutside data_prefix P k = (partition_of data_prefix k ≡ none) ⊎ P k

group_keys-AllKeys :
    (P : Bytes → Type 0) (prefix : Bytes) (parts keys : List Bytes)
    (gs groups : List PartitionGroup)
    → group_keys prefix parts keys gs ≡ ok groups
    → AllKeys P groups
    → AllKeys P gs × All (OrOutside prefix P) keys
unfolding group_keys
group_keys-AllKeys P prefix parts [] gs groups e h =
    let same : gs ≡ groups = cc in (subst (AllKeys P) (sym same) h, tt)
group_keys-AllKeys P prefix parts (k ∷ keys) gs groups e h =
    placed (λ hs q. group_keys-AllKeys P prefix parts keys hs groups q h) (partition_of prefix k)
      refl e
  where
    Goal : Type 0
    Goal = AllKeys P gs × (OrOutside prefix P k × All (OrOutside prefix P) keys)

    Step : Type 0
    Step =
        (hs : List PartitionGroup)
        → group_keys prefix parts keys hs ≡ ok groups
        → AllKeys P hs × All (OrOutside prefix P) keys

    valued :
        Step
        → (key : Bytes) (r : Result PartitionError (List Bytes))
        → (elim r [
          | err e ↦ err (bad_key k e)
          | ok values ↦ group_keys prefix parts keys (add_key key values k gs)
        ])
          ≡ ok groups
        → Goal
    valued go key (err x) e = absurd cc
    valued go key (ok values) e =
        let (all, rest) = go _ e in
        let (here, old) = add_key-AllKeys P key values k gs all in (old, (inr here, rest))

    placed :
        Step
        → (o : Option Bytes) → partition_of prefix k ≡ o
        → (elim o [
          | none ↦ group_keys prefix parts keys gs
          | some key ↦ elim (partition_key_values key parts) [
            | err e ↦ err (bad_key k e)
            | ok values ↦ group_keys prefix parts keys (add_key key values k gs)
          ]
        ])
          ≡ ok groups
        → Goal
    placed go none o e = let (old, rest) = go gs e in (old, (inl o, rest))
    placed go (some key) o e = valued go key (partition_key_values key parts) e

-- Every object of a listing is in a group, or in no partition.
pub group_by_partition-AllKeys :
    (P : Bytes → Type 0) (prefix : Bytes) (parts keys : List Bytes) (groups : List PartitionGroup)
    → group_by_partition keys prefix parts ≡ ok groups
    → AllKeys P groups
    → All (OrOutside prefix P) keys
unfolding group_by_partition
group_by_partition-AllKeys P prefix parts keys groups e h =
    sorted (group_keys prefix parts keys []) refl e
  where
    sorted :
        (r : Result RebuildError (List PartitionGroup))
        → group_keys prefix parts keys [] ≡ r
        → (elim r [ err e ↦ err e | ok gs ↦ ok (sort by_partition gs) ]) ≡ ok groups
        → All (OrOutside prefix P) keys
    sorted (err x) q e = absurd cc
    sorted (ok gs) q e =
        let same : sort by_partition gs ≡ groups = cc in
        let all =
          All-unsort by_partition (λ g. All P g.s3_keys) gs (subst (AllKeys P) (sym same) h) in
        (group_keys-AllKeys P prefix parts keys [] gs q all).1
