-- ===== src/Metadata/Check.antt =====
-- metadata.go: validateMetadata and checkGoTypeMatchesSQL.
use s3pgstore.Base.{
  Bool, true, false, Option, none, some, List, [], ◌∷◌, if◌then◌else◌, Bytes, bytes_eq, Result, ok,
  err, ◌>>=◌,
}
use s3pgstore.Metadata.Values.{
  GoValue, go_string, go_uuid, go_bytes16, go_time, go_int, go_uint, go_float32, go_float64,
  go_bool, Meta, ExtensionColumn, SqlType, text, uuid, timestamptz, bigint, boolean, numeric,
  sql_type_of, upper, trim_space,
}

pub data CheckError : Type 0 where
  unknown_key : Bytes → CheckError
  mismatch : Bytes → SqlType → CheckError
  unrecognized_type : Bytes → CheckError

-- The Go types that a declared SQL type accepts.
unfoldable pub type_accepts : SqlType → GoValue → Bool
type_accepts text (go_string s) = true
type_accepts uuid (go_string s) = true
type_accepts uuid (go_uuid u) = true
type_accepts uuid (go_bytes16 u) = true
type_accepts timestamptz (go_time t) = true
type_accepts SqlType.int (go_int k z) = true
type_accepts SqlType.int (go_uint k n) = true
type_accepts bigint (go_int k z) = true
type_accepts bigint (go_uint k n) = true
type_accepts boolean (go_bool b) = true
type_accepts numeric (go_string s) = true
type_accepts numeric (go_float32 f) = true
type_accepts numeric (go_float64 f) = true
type_accepts numeric (go_int k z) = true
type_accepts numeric (go_uint k n) = true
type_accepts _ _ = false

unfoldable pub check_type : Bytes → Option SqlType → GoValue → Result CheckError (Unit {0})
unfolding type_accepts
check_type name none v = err (unrecognized_type name)
check_type name (some t) v = if type_accepts t v then ok tt else err (mismatch name t)

-- checkGoTypeMatchesSQL: nil fits every type, before the type is looked at.
unfoldable pub check_go_type_matches_sql :
    Bytes → Bytes → Option GoValue → Result CheckError (Unit {0})
unfolding check_type sql_type_of
check_go_type_matches_sql name sql_type none = ok tt
check_go_type_matches_sql name sql_type (some v) = check_type name (sql_type_of sql_type) v

-- `declared[c.Name] = …`, over the columns in order: the last of a name counts.
unfoldable pub declared_type : List ExtensionColumn → Bytes → Option Bytes
unfolding upper trim_space
declared_type [] k = none
declared_type (c ∷ cols) k = elim (declared_type cols k) [
  | some t ↦ some t
  | none ↦ if bytes_eq c.name k then some (upper (trim_space c.type)) else none
]

check_entry : Bytes → Option GoValue → Option Bytes → Result CheckError (Unit {0})
unfolding check_go_type_matches_sql
check_entry k v none = err (unknown_key k)
check_entry k v (some sql_type) = check_go_type_matches_sql k sql_type v

-- validateMetadata, over the entries in the order that the map yields them.
unfoldable pub validate_metadata : Meta → List ExtensionColumn → Result CheckError (Unit {0})
unfolding check_entry declared_type
validate_metadata [] cols = ok tt
validate_metadata ((k, v) ∷ m) cols =
    let rest = validate_metadata m cols in check_entry k v (declared_type cols k) >>= λ _. rest
