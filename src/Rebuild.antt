-- ===== src/Rebuild.antt =====
-- cmd/s3pgstore-rebuild/rebuild.go: the rows of the catalog, made again from the objects.
pub mod Groups
pub mod Rows
pub mod Quiet
pub mod Again
use s3pgstore.Base.{
  ℕ, suc, ◌+◌, ◌-◌, max, Bool, true, false, not, ◌&&◌, ◌||◌, Option, none, some, List, [], ◌∷◌,
  ◌++◌, map, if◌then◌else◌, leb, ltb, ◌==◌, Bytes, bytes_eq, codes, length, take, drop, any, find,
  Result, ok, err,
}
use s3pgstore.Base.Int.{ℤ, pos, negsuc}
use s3pgstore.Base.Dict.{Dict, lookup}
use s3pgstore.Base.Orders.{bytes_order}
use s3pgstore.Base.Separated.{has_prefix}
use s3pgstore.Base.Sorting.{sort, by}
use s3pgstore.Metadata.Values.{GoValue, ExtensionColumn}
use s3pgstore.Metadata.Format.{Codec}
use s3pgstore.Metadata.Bag.{
  RecoveredFields, RecoverError, new_recovered_fields, parse_ext_values, has_footer_fields,
}
use s3pgstore.Catalog.Tables.{FileRow, PartitionRow, Tables}
use s3pgstore.Catalog.Files.{NewFile, clashes, file_row}
use s3pgstore.Catalog.Partitions.{has_key}
use s3pgstore.Partition.{PartitionError, partition_key_values}
use s3pgstore.Listing.{
  Page, PartitionGroup, RebuildError, add_key, bad_ext, bad_key, by_partition, cut, data_prefix_of,
  group_by_partition, group_keys, has_suffix, head_failed, insert_failed, last_index_byte,
  list_all_keys, list_failed, negative_field, no_footer, parquet_keys, partition_of, upsert_failed,
}

-- The answer of HeadObject; LastModified may be missing.
pub record Head : Type 0 where
  pub content_length : ℕ
  pub metadata : Dict Bytes
  pub last_modified : Option ℕ

-- The surroundings: HeadObject, the calls of the pool that fail, and the server's clock.
pub record RebuildCalls : Type 0 where
  pub head : Bytes → Option Head
  pub insert_fails : Bytes → Bool
  pub upsert_fails : Bytes → Bool
  pub now : ℕ

pub record RebuildConfig : Type 0 where
  pub parts : List Bytes
  pub exts : List ExtensionColumn
  pub codec : Codec

abbrev pub time_or : Option ℕ → ℕ → ℕ
time_or none now = now
time_or (some t) now = t

abbrev pub non_empty : Bytes → Option Bytes
non_empty [] = none
non_empty (c ∷ s) = some (c ∷ s)

-- The row of an object. The tables hold natural numbers: a field below zero, which no write makes,
-- is outside the model and ends it.
unfoldable pub recovered_file :
    RebuildConfig → Bytes → PartitionGroup → Head → RecoveredFields → Dict GoValue → Option NewFile
recovered_file cfg k g h r values = elim r.version [
  | negsuc _ ↦ none
  | pos version ↦ elim r.record_count [
    | negsuc _ ↦ none
    | pos count ↦ elim r.uncompressed_size [
      | negsuc _ ↦ none
      | pos size ↦ some (record {
        partition_key = g.partition_key;
        s3_key = k;
        version = version;
        file_size = h.content_length;
        uncompressed_size = size;
        record_count = count;
        token = non_empty r.token;
        part_values = g.part_values;
        ext_values = map (λ c. lookup c.name values) cfg.exts;
      })
    ]
  ]
]

-- INSERT … ON CONFLICT (s3_key) DO NOTHING: a clash on the token alone is a violation. The id is
-- drawn in any case.
unfoldable pub insert_on_conflict : NewFile → ℕ → Tables → Result RebuildError Bool × Tables
insert_on_conflict f time t =
    let drawn = record t { next_file_id = t.next_file_id + 1 } in
    if any (λ r. bytes_eq r.s3_key f.s3_key) t.files
    then (ok false, drawn)
    else if any (clashes f) t.files
    then (err insert_failed, drawn)
    else (ok true, record drawn { files = t.files ++ (file_row f t.next_file_id time ∷ []) })

abbrev pub with_version :
    ℕ → Result RebuildError Bool × Tables → Result RebuildError (ℕ × Bool) × Tables
with_version version (err e, t) = (err e, t)
with_version version (ok inserted, t) = (ok (version, inserted), t)

-- The INSERT of insertFileRow, which may fail.
unfoldable pub exec_insert :
    RebuildCalls → Head → Option NewFile → Tables → Result RebuildError (ℕ × Bool) × Tables
unfolding insert_on_conflict
exec_insert calls h none t = (err negative_field, t)
exec_insert calls h (some f) t =
    if calls.insert_fails f.s3_key
    then (err insert_failed, t)
    else with_version f.version (insert_on_conflict f (time_or h.last_modified calls.now) t)

-- insertFileRow
unfoldable pub insert_file_row :
    RebuildConfig
    → RebuildCalls
    → PartitionGroup
    → Bytes
    → ℕ
    → Tables
    → Result RebuildError (ℕ × Bool) × Tables
unfolding recovered_file exec_insert
insert_file_row cfg calls g k fallback t = elim (calls.head k) [
  | none ↦ (err head_failed, t)
  | some h ↦
      let r = new_recovered_fields h.metadata cfg.exts (pos fallback) in
      elim (parse_ext_values cfg.codec r.raw_ext cfg.exts []) [
        | err e ↦ (err (bad_ext e), t)
        | ok values ↦
            if not (has_footer_fields r)
            then (err no_footer, t)
            else exec_insert calls h (recovered_file cfg k g h r values) t
      ]
]

-- INSERT … ON CONFLICT (partition_key) DO UPDATE
unfoldable pub set_partition : Bytes → List Bytes → ℕ → ℕ → ℕ → Tables → Tables
set_partition key values version file_count now t = elim (find (has_key key) t.partitions) [
  | none ↦ record t {
    partitions =
        t.partitions
        ++ (record {
          partition_key = key;
          part_values = values;
          version = version;
          file_count = file_count;
          updated_at = now;
        }
            ∷ []);
  }
  | some _ ↦ record t {
    partitions =
        map
          (λ r.
            if has_key key r
            then record r { version = version; file_count = file_count; updated_at = now }
            else r)
          t.partitions;
  }
]

abbrev pub after_file :
    (ℕ × ℕ → Tables → Result RebuildError (ℕ × ℕ) × Tables)
    → ℕ × ℕ
    → Result RebuildError (ℕ × Bool) × Tables
    → Result RebuildError (ℕ × ℕ) × Tables
after_file go (added, version) (err e, t) = (err e, t)
after_file go (added, version) (ok (v, new), t) =
    go ((if new then added + 1 else added), max version v) t

-- The loop over the files of a group: the files added and the highest version.
unfoldable pub insert_files :
    RebuildConfig
    → RebuildCalls
    → PartitionGroup
    → List Bytes
    → ℕ
    → ℕ × ℕ
    → Tables
    → Result RebuildError (ℕ × ℕ) × Tables
unfolding insert_file_row
insert_files cfg calls g [] i so_far t = (ok so_far, t)
insert_files cfg calls g (k ∷ keys) i so_far t =
    after_file (insert_files cfg calls g keys (i + 1)) so_far
      (insert_file_row cfg calls g k (i + 1) t)

pub record RebuildResult : Type 0 where
  pub files_inserted : ℕ
  pub partitions_inserted : ℕ

abbrev pub by_key : Bytes → Bytes → Bool
by_key = by bytes_order (λ k. k)

-- The upsert inserts or updates a row, and counts it in both cases.
unfoldable pub after_files :
    (RebuildResult → Tables → Result RebuildError RebuildResult × Tables)
    → RebuildCalls
    → PartitionGroup
    → RebuildResult
    → Result RebuildError (ℕ × ℕ) × Tables
    → Result RebuildError RebuildResult × Tables
unfolding set_partition
after_files go calls g res (err e, t) = (err e, t)
after_files go calls g res (ok (added, version), t) =
    if calls.upsert_fails g.partition_key
    then (err upsert_failed, t)
    else go
        (record {
          files_inserted = res.files_inserted + added;
          partitions_inserted = res.partitions_inserted + 1;
        })
        (set_partition g.partition_key g.part_values version (length g.s3_keys) calls.now t)

-- The loop over the groups.
unfoldable pub insert_groups :
    RebuildConfig
    → RebuildCalls
    → List PartitionGroup
    → RebuildResult
    → Tables
    → Result RebuildError RebuildResult × Tables
unfolding insert_files after_files
insert_groups cfg calls [] res t = (ok res, t)
insert_groups cfg calls (g ∷ groups) res t =
    after_files (insert_groups cfg calls groups) calls g res
      (insert_files cfg calls g (sort by_key g.s3_keys) 0 (0, 0) t)

-- Rebuild, after validateRebuildConfig.
unfoldable pub rebuild :
    RebuildConfig
    → RebuildCalls
    → Bytes
    → List (Option Page)
    → Tables
    → Result RebuildError RebuildResult × Tables
unfolding list_all_keys group_by_partition insert_groups data_prefix_of
rebuild cfg calls s3_prefix pages t = elim (list_all_keys pages []) [
  | none ↦ (err list_failed, t)
  | some keys ↦ elim (group_by_partition keys (data_prefix_of s3_prefix) cfg.parts) [
    | err e ↦ (err e, t)
    | ok groups ↦
        insert_groups cfg calls groups (record { files_inserted = 0; partitions_inserted = 0 }) t
  ]
]
