-- ===== src/Metadata/Format/RoundTrip.antt =====
-- What formatExtForS3 writes and ParseExtFromS3 reads back.
use s3pgstore.Base.{
  ◌^◌, ◌<◌, ◌≡◌, Bool, true, false, some, arith, if◌then◌else◌, Bytes, codes, ok, err, bytes_eq, [],
  ◌||◌, ◌&&◌, Result, ◌∙◌,
}
use s3pgstore.Base.Int.{pos}
use s3pgstore.Base.Decimal.{
  format_int, format_uint, IsInt64, parse_int-format_int, parse_int-format_uint,
}
use s3pgstore.Metadata.Values.{
  int8, int16, int32, int64, GoValue, go_string, go_uuid, go_bytes16, go_time, go_int, go_uint,
  go_float32, go_float64, go_bool, go_other, ExtensionColumn, SqlType, text, uuid, timestamptz,
  bigint, boolean, numeric, sql_type_of, normalize_ext_type, upper, trim_space,
}
use s3pgstore.Metadata.Check.{type_accepts, check_type, check_go_type_matches_sql}
use s3pgstore.Metadata.Format.{
  Codec, unsupported, format_by_type, format_ext_for_s3, parse_by_type, parse_ext_from_s3,
}

-- Integers under NUMERIC that are neither `int` nor `int64`.
abbrev pub is_narrow : SqlType → GoValue → Bool
is_narrow numeric (go_int int8 z) = true
is_narrow numeric (go_int int16 z) = true
is_narrow numeric (go_int int32 z) = true
is_narrow numeric (go_uint k n) = true
is_narrow _ _ = false

-- What a reader gets for a value that was written.
abbrev pub recovered_value : Codec → SqlType → GoValue → GoValue
recovered_value codec uuid (go_uuid u) = go_string (codec.uuid_string u)
recovered_value codec uuid (go_bytes16 u) = go_string (codec.uuid_string u)
recovered_value codec SqlType.int (go_int k z) = go_int int64 z
recovered_value codec SqlType.int (go_uint k n) = go_int int64 (pos n)
recovered_value codec bigint (go_int k z) = go_int int64 z
recovered_value codec bigint (go_uint k n) = go_int int64 (pos n)
recovered_value codec numeric (go_float32 f) = go_string (codec.format_float32 f)
recovered_value codec numeric (go_float64 f) = go_string (codec.format_float64 f)
recovered_value codec numeric (go_int k z) = go_string (format_int z)
recovered_value codec _ v = v

-- The values that the text form keeps: integers in the int64 range, UUIDs and times that the
-- codec reads back.
abbrev pub IsReadable : Codec → SqlType → GoValue → Type 0
IsReadable codec uuid (go_string s) = codec.uuid_parses s ≡ true
IsReadable codec uuid (go_uuid u) = codec.uuid_parses (codec.uuid_string u) ≡ true
IsReadable codec uuid (go_bytes16 u) = codec.uuid_parses (codec.uuid_string u) ≡ true
IsReadable codec timestamptz (go_time t) = codec.parse_time (codec.format_time t) ≡ some t
IsReadable codec _ (go_int k z) = IsInt64 z
IsReadable codec _ (go_uint k n) = n < 2 ^ 63
IsReadable codec _ _ = Unit

-- The text of an accepted value.
abbrev pub text_of : Codec → SqlType → GoValue → Bytes
text_of codec t (go_string s) = s
text_of codec t (go_uuid u) = codec.uuid_string u
text_of codec t (go_bytes16 u) = codec.uuid_string u
text_of codec t (go_time i) = codec.format_time i
text_of codec t (go_int k z) = format_int z
text_of codec t (go_uint k n) = format_uint n
text_of codec t (go_float32 f) = codec.format_float32 f
text_of codec t (go_float64 f) = codec.format_float64 f
text_of codec t (go_bool b) = if b then codes "true" else codes "false"
text_of codec t go_other = []

format_accepted :
    (codec : Codec) (t : SqlType) (v : GoValue)
    → type_accepts t v ≡ true
    → format_by_type codec (some t) v
      ≡ (if is_narrow t v then err unsupported else ok (text_of codec t v))
unfolding format_by_type type_accepts
format_accepted codec t v h = ground arith

parse_recovered :
    (codec : Codec) (t : SqlType) (v : GoValue)
    → type_accepts t v ≡ true
    → is_narrow t v ≡ false
    → IsReadable codec t v
    → parse_by_type codec (some t) (text_of codec t v) ≡ ok (recovered_value codec t v)
unfolding parse_by_type type_accepts bytes_eq
parse_recovered codec text v h k r = ground arith
parse_recovered codec uuid v h k r = ground arith
parse_recovered codec timestamptz v h k r = ground arith
parse_recovered codec SqlType.int (go_int i z) h k r = ground (arith, parse_int-format_int z r)
parse_recovered codec SqlType.int (go_uint i n) h k r = ground (arith, parse_int-format_uint n r)
parse_recovered codec SqlType.int v h k r = cc
parse_recovered codec bigint (go_int i z) h k r = ground (arith, parse_int-format_int z r)
parse_recovered codec bigint (go_uint i n) h k r = ground (arith, parse_int-format_uint n r)
parse_recovered codec bigint v h k r = cc
parse_recovered codec boolean v h k r = ground arith
parse_recovered codec numeric v h k r = ground arith

format_of_accepted :
    (codec : Codec) (c : ExtensionColumn) (t : SqlType) (v : GoValue)
    → sql_type_of (normalize_ext_type c.type) ≡ some t
    → type_accepts t v ≡ true
    → format_ext_for_s3 codec c v
      ≡ (if is_narrow t v then err unsupported else ok (text_of codec t v))
unfolding format_ext_for_s3
format_of_accepted codec c t v e h = rw e (format_accepted codec t v h)

pub is_ok {ℓ} : {E A : Type ℓ} → Result E A → Bool
is_ok (ok a) = true
is_ok (err e) = false

type_accepts-format :
    (codec : Codec) (t : SqlType) (v : GoValue)
    → (type_accepts t v ≡ is_narrow t v || is_ok (format_by_type codec (some t) v))
      × ((is_narrow t v && is_ok (format_by_type codec (some t) v)) ≡ false)
unfolding type_accepts format_by_type is_ok
type_accepts-format codec t v = ground arith

checked :
    (name : Bytes) (t : SqlType) (v : GoValue)
    → is_ok (check_type name (some t) v) ≡ type_accepts t v
unfolding check_type is_ok
checked name t v = ground arith

-- For a column whose declared type is one SQL type `t`, trimmed as validateMetadata does and with
-- its spaces and tabs dropped as formatExtForS3 does: the values that the check of validateMetadata
-- accepts are those that formatExtForS3 formats and, under NUMERIC, the integers other than `int`
-- and `int64`, which it refuses.
pub format-accepts :
    (codec : Codec) (c : ExtensionColumn) (t : SqlType) (v : GoValue)
    → sql_type_of (upper (trim_space c.type)) ≡ some t
    → sql_type_of (normalize_ext_type c.type) ≡ some t
    → (is_ok (check_go_type_matches_sql c.name (upper (trim_space c.type)) (some v))
        ≡ is_narrow t v || is_ok (format_ext_for_s3 codec c v))
      × ((is_narrow t v && is_ok (format_ext_for_s3 codec c v)) ≡ false)
unfolding check_go_type_matches_sql format_ext_for_s3
format-accepts codec c t v trimmed e =
    rw (trimmed, e)
      (checked c.name t v ∙ (type_accepts-format codec t v).0, (type_accepts-format codec t v).1)

-- An accepted value that is not a narrow NUMERIC integer and whose text is readable is read back
-- from its S3 text, as the value of the column's canonical Go type.
pub parse-format :
    (codec : Codec) (c : ExtensionColumn) (t : SqlType) (v : GoValue)
    → sql_type_of (normalize_ext_type c.type) ≡ some t
    → type_accepts t v ≡ true
    → is_narrow t v ≡ false
    → IsReadable codec t v
    → (format_ext_for_s3 codec c v ≡ ok (text_of codec t v))
      × (parse_ext_from_s3 codec c (text_of codec t v) ≡ ok (recovered_value codec t v))
parse-format codec c t v e h k r = (
  format_of_accepted codec c t v e h ∙ (rw k),
  unfold parse_ext_from_s3 in rw e (parse_recovered codec t v h k r),
)
