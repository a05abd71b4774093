-- ===== src/Catalog/Tables.antt =====
-- The tables of ddl.go, a row as a record, an SQL NULL as `none`.
use s3pgstore.Base.{ℕ, Option, List, [], Bytes}
use s3pgstore.Metadata.Values.{GoValue}

-- s3pgstore_files
pub record FileRow : Type 0 where
  pub file_id : ℕ
  pub s3_key : Bytes
  pub partition_key : Bytes
  pub part_values : List Bytes
  pub file_size : ℕ
  pub uncompressed_size : ℕ
  pub record_count : ℕ
  pub written_at_version : ℕ
  pub written_at : ℕ
  pub idempotency_token : Option Bytes
  pub feed_seq : Option ℕ
  pub feed_seq_at : Option ℕ
  pub ext_values : List (Option GoValue)

-- s3pgstore_partitions
pub record PartitionRow : Type 0 where
  pub partition_key : Bytes
  pub part_values : List Bytes
  pub version : ℕ
  pub file_count : ℕ
  pub updated_at : ℕ

-- s3pgstore_pending_writes
pub record PendingRow : Type 0 where
  pub s3_key : Bytes
  pub intended_at : ℕ

-- A row of a materialized view's table: the view's name and the tuple.
pub record ViewRow : Type 0 where
  pub view : Bytes
  pub tuple : List Bytes

-- `next_file_id` is the sequence behind the BIGSERIAL column.
pub record Tables : Type 0 where
  pub files : List FileRow
  pub partitions : List PartitionRow
  pub pending_writes : List PendingRow
  pub views : List ViewRow
  pub next_file_id : ℕ

abbrev pub no_tables : Tables
no_tables = record {
  files = [];
  partitions = [];
  pending_writes = [];
  views = [];
  next_file_id = 1;
}
