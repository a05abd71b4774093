-- ===== src/Read/Partitions.antt =====
-- read.go, preparePartitions: the partitions of the entries, their files and their versions.
use s3pgstore.Base.{
  ℕ, ◌≤◌, ◌≡◌, refl, ap, ◌∙◌, Bool, List, [], ◌∷◌, arith, if◌then◌else◌, ltb, Bytes, bytes_eq, any,
  keep, count_if, All, All-of,
}
use s3pgstore.Base.Dict.{Dict, lookup}
use s3pgstore.Base.Groups.{keys_of, group_into, has_group_key, lookup-group_into, count_if-groups}
use s3pgstore.Base.Keyed.{by_name, map-All, map-IsSorted, count_if-map}
use s3pgstore.Base.Orders.{bytes_order}
use s3pgstore.Base.Sorting.{sort, by, IsSorted, sort-IsSorted, count_if-sort}
use s3pgstore.Store.{FileRef}
use s3pgstore.Read.{PartState, by_s3_key, highest, part_state, prepare_partitions}

abbrev pub in_partition : Bytes → FileRef → Bool
in_partition = has_group_key (λ e. e.partition_key)

abbrev pub by_partition_key : PartState → PartState → Bool
by_partition_key = by bytes_order (λ p. p.partition_key)

-- The partition holds the entries with its key, sorted by their object's key, and no version of
-- them is above its own.
abbrev pub IsPartOf : List FileRef → PartState → Type 0
IsPartOf entries p =
    (p.files ≡ sort by_s3_key (keep (in_partition p.partition_key) entries))
    × All (λ f. f.version ≤ p.version) p.files

highest-le : (v : ℕ) (fs : List FileRef) → v ≤ highest v fs
unfolding highest
highest-le v [] = omega arith
highest-le v (f ∷ fs) = ground (arith, highest-le (if ltb v f.version then f.version else v) fs)

highest-All : (v : ℕ) (fs : List FileRef) → All (λ f. f.version ≤ highest v fs) fs
unfolding highest
highest-All v [] = tt
highest-All v (f ∷ fs) = (
  ground (arith, highest-le (if ltb v f.version then f.version else v) fs),
  highest-All (if ltb v f.version then f.version else v) fs,
)

part_state-IsPartOf :
    (entries : List FileRef) (k : Bytes)
    → IsPartOf entries (part_state (group_into (λ e. e.partition_key) entries []) k)
unfolding part_state lookup
part_state-IsPartOf entries k = (
  ap (λ fs. sort by_s3_key fs) (lookup-group_into (λ e. e.partition_key) k entries []),
  highest-All 0 _,
)

key-part_state : (m : Dict (List FileRef)) (k : Bytes) → (part_state m k).partition_key ≡ k
unfolding part_state
key-part_state m k = refl

-- The partitions of a read stand in the order of their keys, one for each key that an entry has,
-- and each holds all the entries with its key.
pub prepare_partitions-IsPartOf :
    (entries : List FileRef)
    → All (IsPartOf entries) (prepare_partitions entries)
      × IsSorted by_partition_key (prepare_partitions entries)
      × ((k : Bytes)
          → count_if (λ p. bytes_eq k p.partition_key) (prepare_partitions entries)
            ≡ (if any (in_partition k) entries then 1 else 0))
unfolding prepare_partitions
prepare_partitions-IsPartOf entries =
    let m = group_into (λ (e : FileRef). e.partition_key) entries [] in
    let ks = keys_of m in
    (
      map-All (part_state m) (IsPartOf entries) (sort by_name ks)
          (All-of (part_state-IsPartOf entries) (sort by_name ks)),
      map-IsSorted (part_state m) (λ p. p.partition_key) (key-part_state m) (sort by_name ks)
          (sort-IsSorted bytes_order (λ k. k) ks),
      λ k.
          count_if-map (part_state m) (λ p. p.partition_key) (key-part_state m) k (sort by_name ks)
          ∙ count_if-sort by_name (bytes_eq k) ks
          ∙ count_if-groups (λ e. e.partition_key) k entries,
    )
