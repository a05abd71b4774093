-- ===== src/Catalog/Partitions.antt =====
-- sql.go, s3pgstore_partitions: the upsert and the compare-and-swap update of a partition's version.
pub mod Versions
use s3pgstore.Base.{
  ℕ, ◌+◌, Bool, ◌&&◌, not, Option, none, some, List, [], ◌∷◌, ◌++◌, map, if◌then◌else◌, ◌==◌, Bytes,
  bytes_eq, find,
}
use s3pgstore.Catalog.Tables.{PartitionRow, Tables}

abbrev pub has_key : Bytes → PartitionRow → Bool
has_key key r = bytes_eq r.partition_key key

-- `version = version + 1, file_count = file_count + 1, updated_at = now()` at the rows of a key.
unfoldable pub bump : Bytes → ℕ → PartitionRow → PartitionRow
bump key now r =
    if bytes_eq r.partition_key key
    then record r { version = r.version + 1; file_count = r.file_count + 1; updated_at = now }
    else r

abbrev pub first_row : Bytes → List Bytes → ℕ → PartitionRow
first_row key part_values now = record {
  partition_key = key;
  part_values = part_values;
  version = 1;
  file_count = 1;
  updated_at = now;
}

upsert_found : Bool → Bytes → List Bytes → ℕ → Tables → Option PartitionRow → Option ℕ × Tables
unfolding bump
upsert_found expect_zero key part_values now t none =
    (some 1, record t { partitions = t.partitions ++ (first_row key part_values now ∷ []) })
upsert_found expect_zero key part_values now t (some r) =
    if expect_zero && not (r.version == 0)
    then (none, t)
    else (some (r.version + 1), record t { partitions = map (bump key now) t.partitions })

-- PartitionUpsertSQL: the version that the statement returns, or no row.
unfoldable pub partition_upsert : Bool → Bytes → List Bytes → ℕ → Tables → Option ℕ × Tables
unfolding upsert_found
partition_upsert expect_zero key part_values now t =
    upsert_found expect_zero key part_values now t (find (has_key key) t.partitions)

update_found : Bytes → ℕ → ℕ → Tables → Option PartitionRow → Option ℕ × Tables
unfolding bump
update_found key expected now t none = (none, t)
update_found key expected now t (some r) =
    if r.version == expected
    then (some (r.version + 1), record t { partitions = map (bump key now) t.partitions })
    else (none, t)

-- PartitionUpdateOCCSQL
unfoldable pub partition_update_occ : Bytes → ℕ → ℕ → Tables → Option ℕ × Tables
unfolding update_found
partition_update_occ key expected now t =
    update_found key expected now t (find (has_key key) t.partitions)

abbrev version_or_zero : Option PartitionRow → ℕ
version_or_zero none = 0
version_or_zero (some r) = r.version

-- The version of a partition, 0 while it has no row.
unfoldable pub version_of : Bytes → Tables → ℕ
version_of key t = version_or_zero (find (has_key key) t.partitions)
