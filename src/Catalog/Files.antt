-- ===== src/Catalog/Files.antt =====
-- sql.go, s3pgstore_files: the insert, the token lookup and the read query.
use s3pgstore.Base.{
  ℕ, ◌+◌, Bool, false, ◌&&◌, ◌||◌, Option, none, some, List, [], ◌∷◌, ◌++◌, if◌then◌else◌, Bytes,
  bytes_eq, find, any, keep,
}
use s3pgstore.Base.Orders.{bytes_order, lex_order}
use s3pgstore.Base.Sorting.{sort, by}
use s3pgstore.Catalog.Tables.{FileRow, Tables}
use s3pgstore.Metadata.Values.{GoValue}

-- The parameters of FilesInsertSQL.
pub record NewFile : Type 0 where
  pub partition_key : Bytes
  pub s3_key : Bytes
  pub version : ℕ
  pub file_size : ℕ
  pub uncompressed_size : ℕ
  pub record_count : ℕ
  pub token : Option Bytes
  pub part_values : List Bytes
  pub ext_values : List (Option GoValue)

abbrev pub same_token : Option Bytes → Option Bytes → Bool
same_token none _ = false
same_token (some a) none = false
same_token (some a) (some b) = bytes_eq a b

-- The UNIQUE constraint on s3_key, and the partial one on (partition_key, idempotency_token).
abbrev pub clashes : NewFile → FileRow → Bool
clashes f r =
    bytes_eq r.s3_key f.s3_key
    || bytes_eq r.partition_key f.partition_key && same_token r.idempotency_token f.token

abbrev pub file_row : NewFile → ℕ → ℕ → FileRow
file_row f id now = record {
  file_id = id;
  s3_key = f.s3_key;
  partition_key = f.partition_key;
  part_values = f.part_values;
  file_size = f.file_size;
  uncompressed_size = f.uncompressed_size;
  record_count = f.record_count;
  written_at_version = f.version;
  written_at = now;
  idempotency_token = f.token;
  feed_seq = none;
  feed_seq_at = none;
  ext_values = f.ext_values;
}

-- FilesInsertSQL: the row's file_id and written_at, or `none` for a unique violation. The id is
-- drawn from the sequence in both cases.
unfoldable pub files_insert : NewFile → ℕ → Tables → Option (ℕ × ℕ) × Tables
files_insert f now t =
    if any (clashes f) t.files then (none, record t { next_file_id = t.next_file_id + 1 }) else (
      some (t.next_file_id, now),
      record t {
        files = t.files ++ (file_row f t.next_file_id now ∷ []);
        next_file_id = t.next_file_id + 1;
      },
    )

-- IdempotencyLookupSQL
unfoldable pub idempotency_lookup : Bytes → Bytes → Tables → Option FileRow
idempotency_lookup key token t =
    find (λ r. bytes_eq r.partition_key key && same_token r.idempotency_token (some token)) t.files

abbrev pub by_key : FileRow → FileRow → Bool
by_key = by (lex_order bytes_order bytes_order) (λ r. (r.partition_key, r.s3_key))

-- FilesQuerySQL with a WHERE clause: `ORDER BY partition_key, s3_key`.
unfoldable pub files_query : (FileRow → Bool) → Tables → List FileRow
files_query where_clause t = sort by_key (keep where_clause t.files)
