-- ===== src/Metadata/Bag.antt =====
-- metadata_s3.go: BuildS3Metadata and the checks of the user-metadata bag; rebuild.go: the fields
-- that newRecoveredFields and parseExtValues read back from it.
pub mod Puts
pub mod RoundTrip
use s3pgstore.Base.{
  ℕ, ◌+◌, ◌≡◌, Bool, true, false, ◌&&◌, ◌||◌, not, Option, none, some, List, [], ◌∷◌, ◌++◌,
  if◌then◌else◌, ltb, leb, ◌==◌, Bytes, bytes_eq, codes, length, Result, ok, err, ◌>>=◌,
}
use s3pgstore.Base.Int.{ℤ, pos, int_ltb}
use s3pgstore.Base.Decimal.{format_int, parse_int}
use s3pgstore.Base.Dict.{Dict, lookup, put}
use s3pgstore.Metadata.Values.{GoValue, Meta, ExtensionColumn, metadata_value_for}
use s3pgstore.Metadata.Format.{Codec, FormatError, format_ext_for_s3, ParseError, parse_ext_from_s3}

abbrev pub s3_meta_token : Bytes
s3_meta_token = codes "s3pgstore-token"

abbrev pub s3_meta_record_count : Bytes
s3_meta_record_count = codes "s3pgstore-records"

abbrev pub s3_meta_uncompressed_size : Bytes
s3_meta_uncompressed_size = codes "s3pgstore-uncompressed"

abbrev pub s3_meta_written_at_version : Bytes
s3_meta_written_at_version = codes "s3pgstore-version"

abbrev pub s3_meta_ext_prefix : Bytes
s3_meta_ext_prefix = codes "s3pgstore-ext-"

abbrev pub s3_metadata_max_bytes : ℕ
s3_metadata_max_bytes = 2048

pub data BagError : Type 0 where
  ext_column : Bytes → FormatError → BagError
  too_large : ℕ → BagError
  unsafe_value : Bytes → ℕ → BagError

-- s3MetadataSize
unfoldable pub s3_metadata_size : Dict Bytes → ℕ
s3_metadata_size [] = 0
s3_metadata_size ((k, v) ∷ m) = length k + length v + s3_metadata_size m

-- The bytes that an HTTP header value may hold.
abbrev pub header_byte : ℕ → Bool
header_byte c = c == 32 || c == 9 || (leb 0x21 c && leb c 0x7E)

-- validateS3HeaderValue: the offset of the first byte that is refused.
unfoldable pub unsafe_offset : ℕ → Bytes → Option ℕ
unsafe_offset i [] = none
unsafe_offset i (c ∷ s) =
    let rest = unsafe_offset (i + 1) s in if header_byte c then rest else some i

unfoldable pub validate_values : Dict Bytes → Result BagError (Unit {0})
unfolding unsafe_offset
validate_values [] = ok tt
validate_values ((k, v) ∷ m) =
    let rest = validate_values m in
    elim (unsafe_offset 0 v) [ none ↦ rest | some i ↦ err (unsafe_value k i) ]

put_ext : Codec → ExtensionColumn → Option GoValue → Dict Bytes → Result BagError (Dict Bytes)
unfolding format_ext_for_s3
put_ext codec c none out = ok out
put_ext codec c (some v) out = elim (format_ext_for_s3 codec c v) [
  | ok s ↦ ok (put (s3_meta_ext_prefix ++ c.name) s out)
  | err e ↦ err (ext_column c.name e)
]

-- The loop over the extension columns.
unfoldable pub put_exts :
    Codec → List ExtensionColumn → Meta → Dict Bytes → Result BagError (Dict Bytes)
unfolding put_ext
put_exts codec [] values out = ok out
put_exts codec (c ∷ exts) values out =
    put_ext codec c (metadata_value_for values c) out >>= λ out'. put_exts codec exts values out'

-- The fields that the library sets.
unfoldable pub library_fields : Bytes → ℤ → ℤ → ℤ → Dict Bytes
library_fields token record_count uncompressed_size version =
    let fields =
      (s3_meta_record_count, format_int record_count)
      ∷ (s3_meta_uncompressed_size, format_int uncompressed_size)
      ∷ (s3_meta_written_at_version, format_int version)
      ∷ [] in
    elim token [ [] ↦ fields | c ∷ s ↦ (s3_meta_token, c ∷ s) ∷ fields ]

unfoldable pub check_bag : Dict Bytes → Result BagError (Dict Bytes)
unfolding s3_metadata_size validate_values
check_bag out =
    if ltb s3_metadata_max_bytes (s3_metadata_size out)
    then err (too_large (s3_metadata_size out))
    else (validate_values out >>= λ _. ok out)

-- BuildS3Metadata
unfoldable pub build_s3_metadata :
    Codec → Bytes → ℤ → ℤ → ℤ → List ExtensionColumn → Meta → Result BagError (Dict Bytes)
unfolding library_fields put_exts check_bag
build_s3_metadata codec token record_count uncompressed_size version exts values =
    put_exts codec exts values (library_fields token record_count uncompressed_size version)
    >>= check_bag

pub record RecoveredFields : Type 0 where
  pub token : Bytes
  pub record_count : ℤ
  pub uncompressed_size : ℤ
  pub version : ℤ
  pub raw_ext : Dict Bytes

abbrev pub token_or_empty : Option Bytes → Bytes
token_or_empty none = []
token_or_empty (some token) = token

-- A field that is missing or no integer leaves its default.
abbrev pub recovered_int : Dict Bytes → Bytes → ℤ → ℤ
recovered_int md k default = elim (lookup k md) [
  | none ↦ default
  | some v ↦ elim (parse_int v) [ none ↦ default | some n ↦ n ]
]

add_raw : Bytes → Option Bytes → Dict Bytes → Dict Bytes
add_raw name none raw = raw
add_raw name (some v) raw = put name v raw

unfoldable pub raw_exts : Dict Bytes → List ExtensionColumn → Dict Bytes → Dict Bytes
unfolding add_raw
raw_exts md [] raw = raw
raw_exts md (c ∷ exts) raw =
    raw_exts md exts (add_raw c.name (lookup (s3_meta_ext_prefix ++ c.name) md) raw)

-- newRecoveredFields
unfoldable pub new_recovered_fields : Dict Bytes → List ExtensionColumn → ℤ → RecoveredFields
unfolding raw_exts
new_recovered_fields md exts fallback_version = record {
  token = token_or_empty (lookup s3_meta_token md);
  record_count = recovered_int md s3_meta_record_count (pos 0);
  uncompressed_size = recovered_int md s3_meta_uncompressed_size (pos 0);
  version = recovered_int md s3_meta_written_at_version fallback_version;
  raw_ext = raw_exts md exts [];
}

-- hasFooterFields
unfoldable pub has_footer_fields : RecoveredFields → Bool
has_footer_fields r = int_ltb (pos 0) r.record_count && int_ltb (pos 0) r.uncompressed_size

pub data RecoverError : Type 0 where
  recover_ext : Bytes → ParseError → RecoverError

-- parseExtValues
unfoldable pub parse_ext_values :
    Codec → Dict Bytes → List ExtensionColumn → Dict GoValue → Result RecoverError (Dict GoValue)
parse_ext_values codec raw [] out = ok out
parse_ext_values codec raw (c ∷ exts) out = elim (lookup c.name raw) [
  | none ↦ parse_ext_values codec raw exts out
  | some s ↦ elim (parse_ext_from_s3 codec c s) [
    | ok v ↦ parse_ext_values codec raw exts (put c.name v out)
    | err e ↦ err (recover_ext c.name e)
  ]
]
