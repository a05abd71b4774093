-- ===== src/Store.antt =====
-- store.go, target.go: a Store's configuration, the keys of its objects, the bucket, and FileRef.
use s3pgstore.Base.{ℕ, Bool, Option, none, some, List, [], ◌∷◌, ◌++◌, Bytes, bytes_eq, codes, any}
use s3pgstore.Base.Dict.{Dict}
use s3pgstore.Metadata.Values.{GoValue, Meta, ExtensionColumn}
use s3pgstore.Metadata.Format.{Codec}
use s3pgstore.Catalog.Tables.{FileRow, Tables}
use s3pgstore.Catalog.Feed.{seq_or_zero}

-- The parts of the configuration that writes and reads consult.
pub record Store : Type 0 where
  pub parts : List Bytes
  pub exts : List ExtensionColumn
  pub s3_prefix : Bytes
  pub notify_channel : Bytes
  pub codec : Codec

pub record Object : Type 0 where
  pub key : Bytes
  pub body : Bytes
  pub metadata : Dict Bytes

-- The database, the bucket, and the channels of the notifications delivered so far.
pub record World : Type 0 where
  pub tables : Tables
  pub objects : List Object
  pub delivered : List Bytes

-- FileRef; an offset of 0 is OffsetNone.
pub record FileRef : Type 0 where
  pub file_id : ℕ
  pub partition_key : Bytes
  pub s3_key : Bytes
  pub version : ℕ
  pub written_at : ℕ
  pub file_size : ℕ
  pub uncompressed_size : ℕ
  pub record_count : ℕ
  pub offset : ℕ
  pub extensions : Meta

-- The extension values of a row that are not NULL, under their columns' names.
unfoldable pub extensions_of : List ExtensionColumn → List (Option GoValue) → Meta
extensions_of [] values = []
extensions_of (c ∷ exts) [] = []
extensions_of (c ∷ exts) (none ∷ values) = extensions_of exts values
extensions_of (c ∷ exts) (some v ∷ values) = (c.name, some v) ∷ extensions_of exts values

-- The scan of a row into a FileRef.
unfoldable pub file_ref_of : List ExtensionColumn → FileRow → FileRef
unfolding extensions_of
file_ref_of exts r = record {
  file_id = r.file_id;
  partition_key = r.partition_key;
  s3_key = r.s3_key;
  version = r.written_at_version;
  written_at = r.written_at;
  file_size = r.file_size;
  uncompressed_size = r.uncompressed_size;
  record_count = r.record_count;
  offset = seq_or_zero r.feed_seq;
  extensions = extensions_of exts r.ext_values;
}

-- dataPath
unfoldable pub data_path : Bytes → Bytes
data_path [] = codes "data"
data_path (c ∷ prefix) = (c ∷ prefix) ++ codes "/data"

-- dataKey
unfoldable pub data_key : Bytes → Bytes → Bytes → Bytes
unfolding data_path
data_key prefix partition_key uuid =
    data_path prefix ++ (b'/' ∷ (partition_key ++ (b'/' ∷ (uuid ++ codes ".parquet"))))

-- An object with the key is in the bucket.
unfoldable pub stored : Bytes → World → Bool
stored k w = any (λ o. bytes_eq o.key k) w.objects

-- A row of s3pgstore_files, or of s3pgstore_pending_writes, has the key.
unfoldable pub filed : Bytes → Tables → Bool
filed k t = any (λ r. bytes_eq r.s3_key k) t.files

unfoldable pub pending : Bytes → Tables → Bool
pending k t = any (λ r. bytes_eq r.s3_key k) t.pending_writes
