-- ===== src/Metadata/Format.antt =====
-- metadata_s3.go: formatExtForS3 and its inverse ParseExtFromS3.
pub mod RoundTrip
use s3pgstore.Base.{
  ℕ, ◌≡◌, Bool, true, false, Option, none, some, List, [], ◌∷◌, if◌then◌else◌, Bytes, bytes_eq,
  codes, Result, ok, err,
}
use s3pgstore.Base.Int.{pos}
use s3pgstore.Base.Decimal.{format_int, format_uint, parse_int}
use s3pgstore.Metadata.Values.{
  IntKind, UintKind, int, int8, int16, int32, int64, uint, uint8, uint16, uint32, uint64, GoValue,
  go_string, go_uuid, go_bytes16, go_time, go_int, go_uint, go_float32, go_float64, go_bool,
  go_other, ExtensionColumn, SqlType, text, uuid, timestamptz, bigint, boolean, numeric,
  sql_type_of, normalize_ext_type,
}

-- github.com/google/uuid, and the layouts of package time and of floats in package strconv.
pub record Codec : Type 0 where
  pub uuid_string : Bytes → Bytes
  pub uuid_parses : Bytes → Bool
  pub format_time : ℕ → Bytes
  pub parse_time : Bytes → Option ℕ
  pub format_float32 : ℕ → Bytes
  pub format_float64 : ℕ → Bytes

pub data FormatError : Type 0 where
  expected_time expected_bool unsupported type_assertion_panic : FormatError

format_text : GoValue → Result FormatError Bytes
format_text (go_string s) = ok s
format_text _ = err type_assertion_panic

format_uuid : Codec → GoValue → Result FormatError Bytes
format_uuid codec (go_string s) = ok s
format_uuid codec (go_uuid u) = ok (codec.uuid_string u)
format_uuid codec (go_bytes16 u) = ok (codec.uuid_string u)
format_uuid codec _ = err unsupported

format_timestamp : Codec → GoValue → Result FormatError Bytes
format_timestamp codec (go_time t) = ok (codec.format_time t)
format_timestamp codec _ = err expected_time

format_integer : GoValue → Result FormatError Bytes
format_integer (go_int k z) = ok (format_int z)
format_integer (go_uint k n) = ok (format_uint n)
format_integer _ = err unsupported

format_boolean : GoValue → Result FormatError Bytes
format_boolean (go_bool true) = ok (codes "true")
format_boolean (go_bool false) = ok (codes "false")
format_boolean _ = err expected_bool

-- The NUMERIC switch has a case for `int` and `int64`, and none for the other integer types.
format_numeric : Codec → GoValue → Result FormatError Bytes
format_numeric codec (go_string s) = ok s
format_numeric codec (go_float32 f) = ok (codec.format_float32 f)
format_numeric codec (go_float64 f) = ok (codec.format_float64 f)
format_numeric codec (go_int int z) = ok (format_int z)
format_numeric codec (go_int int64 z) = ok (format_int z)
format_numeric codec _ = err unsupported

format_by_type : Codec → Option SqlType → GoValue → Result FormatError Bytes
unfolding format_text format_uuid format_timestamp format_integer format_boolean format_numeric
format_by_type codec none v = err unsupported
format_by_type codec (some text) v = format_text v
format_by_type codec (some uuid) v = format_uuid codec v
format_by_type codec (some timestamptz) v = format_timestamp codec v
format_by_type codec (some SqlType.int) v = format_integer v
format_by_type codec (some bigint) v = format_integer v
format_by_type codec (some boolean) v = format_boolean v
format_by_type codec (some numeric) v = format_numeric codec v

unfoldable pub format_ext_for_s3 : Codec → ExtensionColumn → GoValue → Result FormatError Bytes
unfolding format_by_type
format_ext_for_s3 codec c v = format_by_type codec (sql_type_of (normalize_ext_type c.type)) v

pub data ParseError : Type 0 where
  invalid_uuid invalid_time invalid_integer invalid_boolean unrecognized_type : ParseError

parse_timestamp : Codec → Bytes → Result ParseError GoValue
parse_timestamp codec raw = elim (codec.parse_time raw) [
  | none ↦ err invalid_time
  | some t ↦ ok (go_time t)
]

parse_integer : Bytes → Result ParseError GoValue
parse_integer raw = elim (parse_int raw) [
  | none ↦ err invalid_integer
  | some z ↦ ok (go_int int64 z)
]

parse_boolean : Bytes → Result ParseError GoValue
unfolding bytes_eq
parse_boolean raw =
    if bytes_eq raw (codes "true")
    then ok (go_bool true)
    else if bytes_eq raw (codes "false")
    then ok (go_bool false)
    else err invalid_boolean

parse_by_type : Codec → Option SqlType → Bytes → Result ParseError GoValue
unfolding parse_timestamp parse_integer parse_boolean
parse_by_type codec none raw = err unrecognized_type
parse_by_type codec (some text) raw = ok (go_string raw)
parse_by_type codec (some uuid) raw =
    if codec.uuid_parses raw then ok (go_string raw) else err invalid_uuid
parse_by_type codec (some timestamptz) raw = parse_timestamp codec raw
parse_by_type codec (some SqlType.int) raw = parse_integer raw
parse_by_type codec (some bigint) raw = parse_integer raw
parse_by_type codec (some boolean) raw = parse_boolean raw
parse_by_type codec (some numeric) raw = ok (go_string raw)

unfoldable pub parse_ext_from_s3 : Codec → ExtensionColumn → Bytes → Result ParseError GoValue
unfolding parse_by_type
parse_ext_from_s3 codec c raw = parse_by_type codec (sql_type_of (normalize_ext_type c.type)) raw
