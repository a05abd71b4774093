-- ===== src/Tests/Batches.antt =====
-- The partitions of three entries, and a read of them.
use s3pgstore.Base.Int.{pos}
use s3pgstore.Base.{
  false, ◌≡◌, none, List, [], ◌∷◌, ℕ, any, count_if, if◌then◌else◌, All, codes, Bytes, bytes_eq,
}
use s3pgstore.Base.Sorting.{IsSorted}
use s3pgstore.Store.{FileRef}
use s3pgstore.Read.{ReadOpts, prepare_partitions}
use s3pgstore.Read.Partitions.{
  IsPartOf, by_partition_key, in_partition, prepare_partitions-IsPartOf,
}

abbrev entry_of : Bytes → Bytes → ℕ → FileRef
entry_of partition key version = record {
  file_id = 1;
  partition_key = partition;
  s3_key = key;
  version = version;
  written_at = 7;
  file_size = 2;
  uncompressed_size = 5;
  record_count = 1;
  offset = 0;
  extensions = [];
}

abbrev pub three_entries : List FileRef
three_entries =
    entry_of (codes "b") (codes "k3") 2
    ∷ entry_of (codes "a") (codes "k2") 1
    ∷ entry_of (codes "b") (codes "k1") 1
    ∷ []

abbrev pub unset : ReadOpts
unset = record {
  include_history = false;
  decode_workers = 0;
  decode_ahead_partitions = none;
  fetch_ahead_files = 0;
  decode_ahead_bytes = pos 0;
}

prepare_partitions-IsPartOf_example :
    All (IsPartOf three_entries) (prepare_partitions three_entries)
    × IsSorted by_partition_key (prepare_partitions three_entries)
    × ((k : Bytes)
        → count_if (λ p. bytes_eq k p.partition_key) (prepare_partitions three_entries)
          ≡ (if any (in_partition k) three_entries then 1 else 0))
prepare_partitions-IsPartOf_example = prepare_partitions-IsPartOf three_entries
