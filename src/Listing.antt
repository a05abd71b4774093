-- ===== src/Listing.antt =====
-- cmd/s3pgstore-rebuild/rebuild.go: the keys of a bucket, listed and grouped by partition.
use s3pgstore.Base.{
  ℕ, suc, ◌-◌, Bool, not, ◌&&◌, Option, none, some, List, [], ◌∷◌, ◌++◌, if◌then◌else◌, leb, ◌==◌,
  Bytes, bytes_eq, codes, length, take, drop, Result, ok, err,
}
use s3pgstore.Base.Orders.{bytes_order}
use s3pgstore.Base.Separated.{has_prefix}
use s3pgstore.Base.Sorting.{sort, by}
use s3pgstore.Metadata.Bag.{RecoverError}
use s3pgstore.Partition.{PartitionError, partition_key_values}

pub data RebuildError : Type 0 where
  list_failed head_failed no_footer insert_failed upsert_failed negative_field : RebuildError
  bad_ext : RecoverError → RebuildError
  bad_key : Bytes → PartitionError → RebuildError

-- dataPrefixOf
unfoldable pub data_prefix_of : Bytes → Bytes
data_prefix_of [] = codes "data/"
data_prefix_of (c ∷ prefix) = (c ∷ prefix) ++ codes "/data/"

-- `strings.LastIndexByte`, and `none` for -1.
unfoldable pub last_index_byte : ℕ → Bytes → Option ℕ
last_index_byte b [] = none
last_index_byte b (c ∷ s) = elim (last_index_byte b s) [
  | some i ↦ some (suc i)
  | none ↦ if c == b then some 0 else none
]

-- `strings.HasSuffix`
unfoldable pub has_suffix : Bytes → Bytes → Bool
has_suffix s suffix =
    leb (length suffix) (length s) && bytes_eq (drop (length s - length suffix) s) suffix

-- A page of ListObjectsV2: the keys, nil or not, and whether there is another page.
pub record Page : Type 0 where
  pub keys : List (Option Bytes)
  pub is_truncated : Bool

unfoldable pub parquet_keys : List (Option Bytes) → List Bytes
unfolding has_suffix bytes_eq
parquet_keys [] = []
parquet_keys (none ∷ keys) = parquet_keys keys
parquet_keys (some k ∷ keys) =
    if has_suffix k (codes ".parquet") then k ∷ parquet_keys keys else parquet_keys keys

-- listAllKeys, over the answers of S3: `none` is an error, and a list that ends is one too.
unfoldable pub list_all_keys : List (Option Page) → List Bytes → Option (List Bytes)
unfolding parquet_keys
list_all_keys [] out = none
list_all_keys (none ∷ pages) out = none
list_all_keys (some p ∷ pages) out =
    let all = out ++ parquet_keys p.keys in
    let rest = list_all_keys pages all in if p.is_truncated then rest else some all

pub record PartitionGroup : Type 0 where
  pub partition_key : Bytes
  pub part_values : List Bytes
  pub s3_keys : List Bytes

-- The partition key that a key under the prefix names, if there is one.
unfoldable pub cut : Bytes → Option ℕ → Option Bytes
cut rest none = none
cut rest (some slash) = if slash == 0 then none else some (take slash rest)

unfoldable pub partition_of : Bytes → Bytes → Option Bytes
unfolding cut last_index_byte
partition_of data_prefix k =
    let rest = drop (length data_prefix) k in
    if not (has_prefix k data_prefix) then none else cut rest (last_index_byte b'/' rest)

-- `byKey[partKey]`, with the key appended to the group that is there, or to a new one.
unfoldable pub add_key : Bytes → List Bytes → Bytes → List PartitionGroup → List PartitionGroup
add_key part_key values k [] =
    record { partition_key = part_key; part_values = values; s3_keys = k ∷ [] } ∷ []
add_key part_key values k (g ∷ groups) =
    let rest = add_key part_key values k groups in
    if bytes_eq g.partition_key part_key
    then record g { s3_keys = g.s3_keys ++ (k ∷ []) } ∷ groups
    else g ∷ rest

-- The loop over the keys.
unfoldable pub group_keys :
    Bytes
    → List Bytes
    → List Bytes
    → List PartitionGroup
    → Result RebuildError (List PartitionGroup)
unfolding partition_of add_key
group_keys data_prefix parts [] groups = ok groups
group_keys data_prefix parts (k ∷ keys) groups = elim (partition_of data_prefix k) [
  | none ↦ group_keys data_prefix parts keys groups
  | some part_key ↦ elim (partition_key_values part_key parts) [
    | err e ↦ err (bad_key k e)
    | ok values ↦ group_keys data_prefix parts keys (add_key part_key values k groups)
  ]
]

abbrev pub by_partition : PartitionGroup → PartitionGroup → Bool
by_partition = by bytes_order (λ g. g.partition_key)

-- groupByPartition
unfoldable pub group_by_partition :
    List Bytes → Bytes → List Bytes → Result RebuildError (List PartitionGroup)
unfolding group_keys
group_by_partition keys data_prefix parts = elim (group_keys data_prefix parts keys []) [
  | err e ↦ err e
  | ok groups ↦ ok (sort by_partition groups)
]
