-- ===== src/Schema.antt =====
-- schema.go: the tables and columns that a configuration expects, and the check that a database has
-- them.
pub mod Ddl
pub mod Covers
pub mod Checked
pub mod Rows
pub mod Columns
pub mod Created
use s3pgstore.Base.{
  Bool, true, false, ◌&&◌, Option, none, some, List, [], ◌∷◌, ◌++◌, map, if◌then◌else◌, Bytes,
  bytes_eq, codes, keep, any, Result, ok, err, ◌>>=◌,
}
use s3pgstore.Config.{Config, ConfigError, MaterializedViewDef, validate, resolved}
use s3pgstore.Config.Names.{
  files_bare, partitions_bare, pending_writes_bare, mv_bare, part_column, ext_column,
}

-- expectedTable
pub record ExpectedTable : Type 0 where
  pub name : Bytes
  pub columns : List Bytes

-- expectedSchema
unfoldable pub expected_schema : Config → List ExpectedTable
unfolding files_bare partitions_bare pending_writes_bare mv_bare part_column ext_column
expected_schema r =
    record {
      name = files_bare r.table_prefix;
      columns =
          (codes "file_id"
            ∷ codes "partition_key"
            ∷ codes "s3_key"
            ∷ codes "feed_seq"
            ∷ codes "feed_seq_at"
            ∷ codes "written_at_version"
            ∷ codes "idempotency_token"
            ∷ codes "file_size"
            ∷ codes "uncompressed_size"
            ∷ codes "record_count"
            ∷ codes "written_at"
            ∷ [])
          ++ (map part_column r.partition_key_parts
              ++ map (λ e. ext_column e.name) r.extension_columns);
    }
    ∷ record {
      name = partitions_bare r.table_prefix;
      columns =
          (codes "partition_key" ∷ codes "version" ∷ codes "file_count" ∷ codes "updated_at" ∷ [])
          ++ map part_column r.partition_key_parts;
    }
    ∷ record {
      name = pending_writes_bare r.table_prefix;
      columns = codes "s3_key" ∷ codes "intended_at" ∷ [];
    }
    ∷ map
        (λ (mv : MaterializedViewDef). record {
          name = mv_bare r.table_prefix mv.name;
          columns = mv.columns;
        })
        r.materialized_views

-- The rows of information_schema.columns and information_schema.tables, and the tables for which
-- either query fails.
pub record ColumnRow : Type 0 where
  pub table_schema : Bytes
  pub table_name : Bytes
  pub column_name : Bytes

pub record TableRow : Type 0 where
  pub table_schema : Bytes
  pub table_name : Bytes

pub record Information : Type 0 where
  pub tables : List TableRow
  pub columns : List ColumnRow
  pub tables_fails : Bytes → Bool
  pub columns_fails : Bytes → Bool

pub data Missing : Type 0 where
  missing_table : Bytes → Bytes → Missing
  missing_column : Bytes → Bytes → Bytes → Missing

pub data SchemaError : Type 0 where
  bad_config : List ConfigError → SchemaError
  check_failed inspect_failed : Bytes → SchemaError
  schema_validation : List Missing → SchemaError

-- tableExists
unfoldable pub table_exists : Information → Bytes → Bytes → Result SchemaError Bool
table_exists info schema table =
    if info.tables_fails table
    then err (check_failed table)
    else ok (any (λ r. bytes_eq r.table_schema schema && bytes_eq r.table_name table) info.tables)

-- tableColumns
unfoldable pub table_columns : Information → Bytes → Bytes → Result SchemaError (List Bytes)
table_columns info schema table =
    if info.columns_fails table
    then err (inspect_failed table)
    else ok (
        map (λ (r : ColumnRow). r.column_name)
          (keep (λ r. bytes_eq r.table_schema schema && bytes_eq r.table_name table) info.columns))

-- The loop over the columns of a table.
unfoldable pub missing_columns : Bytes → Bytes → List Bytes → List Bytes → List Missing
missing_columns schema table cols [] = []
missing_columns schema table cols (want ∷ wanted) =
    let rest = missing_columns schema table cols wanted in
    if any (λ c. bytes_eq c want) cols then rest else missing_column schema table want ∷ rest

-- The loop over the tables.
unfoldable pub missing_of :
    Information → Bytes → List ExpectedTable → Result SchemaError (List Missing)
unfolding table_exists table_columns missing_columns
missing_of info schema [] = ok []
missing_of info schema (t ∷ expected) = table_exists info schema t.name >>= λ found. elim found [
  | false ↦ missing_of info schema expected >>= λ rest. ok (missing_table schema t.name ∷ rest)
  | true ↦ table_columns info schema t.name >>= λ cols. missing_of info schema expected >>= λ rest.
      ok (missing_columns schema t.name cols t.columns ++ rest)
]

-- A SchemaValidationError when something is missing.
unfoldable pub as_error : List Missing → Result SchemaError Unit
as_error [] = ok tt
as_error (m ∷ missing) = err (schema_validation (m ∷ missing))

-- SchemaManager.Validate
unfoldable pub validate_schema : Config → Information → Result SchemaError Unit
unfolding missing_of as_error expected_schema
validate_schema c info = elim (validate c) [
  | f ∷ faults ↦ err (bad_config (f ∷ faults))
  | [] ↦ missing_of info (resolved c).schema_name (expected_schema (resolved c)) >>= as_error
]
