-- ===== src/Tests/Texts.antt =====
-- Partition keys, and the metadata bag of an object.
use s3pgstore.Base.{
  ◌≡◌, ◌≢◌, refl, true, false, ◌||◌, ◌&&◌, some, [], ◌∷◌, arith, Bytes, bytes_eq, codes, ok, length,
  All,
}
use s3pgstore.Base.Int.{pos}
use s3pgstore.Base.Dict.{Dict, lookup, put}
use s3pgstore.Metadata.Values.{
  Meta, ExtensionColumn, bigint, numeric, int32, int64, go_int, metadata_value_for, sql_type_of,
  normalize_ext_type, upper, trim_space,
}
use s3pgstore.Base.Separated.{split, index_byte}
use s3pgstore.Metadata.Check.{type_accepts, check_go_type_matches_sql}
use s3pgstore.Metadata.Format.{format_ext_for_s3, parse_ext_from_s3}
use s3pgstore.Metadata.Format.RoundTrip.{text_of, is_ok, format-accepts, parse-format}
use s3pgstore.Metadata.Bag.{build_s3_metadata, new_recovered_fields}
use s3pgstore.Base.Decimal.{format_int}
use s3pgstore.Metadata.Bag.Puts.{stored}
use s3pgstore.Metadata.Bag.RoundTrip.{recover-build}
use s3pgstore.Partition.{partition_key_values}
use s3pgstore.Partition.Grammar.{
  IsPart, IsValue, render_key, partition_key_values_sound, partition_key_values-render_key,
}
use s3pgstore.Tests.{toy_codec, toy_exts}

abbrev numeric_column : ExtensionColumn
numeric_column = record { name = codes "a"; type = codes "numeric" }

abbrev bigint_column : ExtensionColumn
bigint_column = record { name = codes "n"; type = codes "bigint" }

format-accepts_example :
    (is_ok (
        check_go_type_matches_sql numeric_column.name
          (upper (trim_space numeric_column.type))
          (some (go_int int32 (pos 1))))
      ≡ (true || is_ok (format_ext_for_s3 toy_codec numeric_column (go_int int32 (pos 1)))))
    × ((true && is_ok (format_ext_for_s3 toy_codec numeric_column (go_int int32 (pos 1)))) ≡ false)
unfolding sql_type_of normalize_ext_type upper trim_space
format-accepts_example =
    format-accepts toy_codec numeric_column numeric (go_int int32 (pos 1)) refl refl

parse-format_example :
    (format_ext_for_s3 toy_codec bigint_column (go_int int32 (pos 12))
      ≡ ok (text_of toy_codec bigint (go_int int32 (pos 12))))
    × (parse_ext_from_s3 toy_codec bigint_column (text_of toy_codec bigint (go_int int32 (pos 12)))
        ≡ ok (go_int int64 (pos 12)))
unfolding sql_type_of normalize_ext_type type_accepts
parse-format_example =
    parse-format toy_codec bigint_column bigint (go_int int32 (pos 12)) refl refl refl (omega arith)

partition_key_values_sound_example :
    (codes "day=1" ≡ render_key (codes "day" ∷ []) (codes "1" ∷ []))
    × (length (codes "1" ∷ []) ≡ length (codes "day" ∷ []))
    × All (λ v. v ≢ []) (codes "1" ∷ [])
unfolding partition_key_values split index_byte bytes_eq
partition_key_values_sound_example =
    partition_key_values_sound (codes "day=1") (codes "day" ∷ []) refl

day_fits : IsPart (codes "day") × IsValue (codes "1=2")
day_fits = ground arith

partition_key_values-render_key_example :
    partition_key_values (render_key (codes "day" ∷ []) (codes "1=2" ∷ [])) (codes "day" ∷ [])
    ≡ ok (codes "1=2" ∷ [])
partition_key_values-render_key_example =
    partition_key_values-render_key (codes "day") [] (codes "1=2") [] (day_fits, tt)

abbrev toy_values : Meta
toy_values = (codes "n", some (go_int int64 (pos 12))) ∷ []

abbrev toy_bag : Dict Bytes
toy_bag =
    (codes "s3pgstore-token", codes "t")
    ∷ (codes "s3pgstore-records", codes "3")
    ∷ (codes "s3pgstore-uncompressed", codes "5")
    ∷ (codes "s3pgstore-version", codes "1")
    ∷ (codes "s3pgstore-ext-n", codes "12")
    ∷ []

toy_bag_built :
    build_s3_metadata toy_codec (codes "t") (pos 3) (pos 5) (pos 1) toy_exts toy_values ≡ ok toy_bag
unfolding build_s3_metadata metadata_value_for bytes_eq sql_type_of normalize_ext_type put
    format_int
toy_bag_built = refl

recover-build_example :
    ((new_recovered_fields toy_bag toy_exts (pos 9)).token ≡ codes "t")
    × ((new_recovered_fields toy_bag toy_exts (pos 9)).record_count ≡ pos 3)
    × ((new_recovered_fields toy_bag toy_exts (pos 9)).uncompressed_size ≡ pos 5)
    × ((new_recovered_fields toy_bag toy_exts (pos 9)).version ≡ pos 1)
    × All
        (λ c.
          lookup c.name (new_recovered_fields toy_bag toy_exts (pos 9)).raw_ext
          ≡ stored toy_codec c (metadata_value_for toy_values c))
        toy_exts
recover-build_example =
    recover-build toy_codec (codes "t") (pos 3) (pos 5) (pos 1) toy_exts toy_values toy_bag_built
      (pos 9) (omega arith) (omega arith) (omega arith) (tt, tt)
