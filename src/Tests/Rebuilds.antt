-- ===== src/Tests/Rebuilds.antt =====
-- A rebuild of a bucket with one object.
use s3pgstore.Base.{◌≡◌, refl, false, Option, some, none, List, [], ◌∷◌, All, ok, codes, Bytes}
use s3pgstore.Base.Separated.{has_prefix, split, index_byte}
use s3pgstore.Base.Sorting.{sort}
use s3pgstore.Base.Dict.{lookup}
use s3pgstore.Base.Int.{int_ltb}
use s3pgstore.Base.Decimal.{parse_int}
use s3pgstore.Metadata.Bag.{parse_ext_values, new_recovered_fields, has_footer_fields}
use s3pgstore.Partition.{partition_key_values}
use s3pgstore.Catalog.Tables.{Tables, no_tables}
use s3pgstore.Listing.{Page, list_all_keys, data_prefix_of}
use s3pgstore.Rebuild.{RebuildCalls, RebuildConfig, RebuildResult, rebuild}
use s3pgstore.Rebuild.Rows.{IsFiled, IsKeptIn}
use s3pgstore.Rebuild.Groups.{OrOutside}
use s3pgstore.Rebuild.Again.{rebuild-IsFiled, rebuild-again}
use s3pgstore.Tests.{toy_codec, toy_exts}

abbrev toy_rebuild : RebuildConfig
toy_rebuild = record { parts = codes "day" ∷ []; exts = toy_exts; codec = toy_codec }

abbrev toy_calls : RebuildCalls
toy_calls = record {
  head = λ k. some (record {
    content_length = 2;
    metadata =
        (codes "s3pgstore-records", codes "1") ∷ (codes "s3pgstore-uncompressed", codes "5") ∷ [];
    last_modified = none;
  });
  insert_fails = λ k. false;
  upsert_fails = λ k. false;
  now = 7;
}

abbrev one_key : Bytes
one_key = codes "p/data/day=1/u.parquet"

abbrev one_page : List (Option Page)
one_page = some (record { keys = some one_key ∷ none ∷ []; is_truncated = false }) ∷ []

abbrev rebuilt : Tables
rebuilt = (rebuild toy_rebuild toy_calls (codes "p") one_page no_tables).1

abbrev one_file : RebuildResult
one_file = record { files_inserted = 1; partitions_inserted = 1 }

one_page_keys : list_all_keys one_page [] ≡ some (one_key ∷ [])
unfolding list_all_keys
one_page_keys = refl

one_page-rebuilt :
    rebuild toy_rebuild toy_calls (codes "p") one_page no_tables ≡ (ok one_file, rebuilt)
unfolding rebuild has_prefix partition_key_values split index_byte sort parse_ext_values lookup
    new_recovered_fields has_footer_fields int_ltb parse_int
one_page-rebuilt = refl

rebuild-IsFiled_example :
    All (OrOutside (data_prefix_of (codes "p")) (IsFiled rebuilt)) (one_key ∷ [])
    × IsKeptIn no_tables rebuilt
rebuild-IsFiled_example =
    rebuild-IsFiled toy_rebuild toy_calls (codes "p") one_page (one_key ∷ []) no_tables rebuilt
      one_file one_page_keys one_page-rebuilt

rebuild-again_example :
    (rebuild toy_rebuild toy_calls (codes "p") one_page rebuilt).1.files ≡ rebuilt.files
rebuild-again_example =
    rebuild-again toy_rebuild toy_calls toy_calls (codes "p") one_page no_tables rebuilt one_file
      one_page-rebuilt
