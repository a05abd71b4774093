-- ===== src/Tests/Configs.antt =====
-- A configuration without a fault.
use s3pgstore.Base.{◌≡◌, refl, true, [], ◌∷◌, arith, All, ok, codes}
use s3pgstore.Base.Int.{pos, int_ltb}
use s3pgstore.Config.{Config, validate, resolved}
use s3pgstore.Config.Names.{identifiers}
use s3pgstore.Config.Valid.{validate-partition_key_values}
use s3pgstore.Config.Kept.{IsKept, validate-IsKept}
use s3pgstore.Partition.{partition_key_values}
use s3pgstore.Partition.Grammar.{render_key}
use s3pgstore.Tests.{toy_exts}

abbrev pub toy_config : Config
toy_config = record {
  has_executor = true;
  s3_bucket = codes "b";
  has_s3_client = true;
  partition_key_parts = codes "day" ∷ codes "hour" ∷ [];
  has_partition_key_of = true;
  table_prefix = codes "s3_";
  schema_name = [];
  extension_columns = toy_exts;
  materialized_views = record { name = codes "mv"; columns = codes "c" ∷ []; has_of = true } ∷ [];
  has_entity_key_of = true;
  has_version_of = true;
  encode_buf_pool_max_bytes = pos 0;
  notify_channel = [];
}

pub toy_config_valid : validate toy_config ≡ []
unfolding validate int_ltb
toy_config_valid = refl

validate-partition_key_values_example :
    partition_key_values
      (render_key toy_config.partition_key_parts (codes "1" ∷ codes "2" ∷ []))
      toy_config.partition_key_parts
    ≡ ok (codes "1" ∷ codes "2" ∷ [])
validate-partition_key_values_example =
    validate-partition_key_values toy_config (codes "1" ∷ codes "2" ∷ []) toy_config_valid
      (((λ e. cc), ((λ e. omega arith), tt)), (((λ e. cc), ((λ e. omega arith), tt)), tt)) refl

validate-IsKept_example : All IsKept (identifiers (resolved toy_config))
validate-IsKept_example = validate-IsKept toy_config toy_config_valid
