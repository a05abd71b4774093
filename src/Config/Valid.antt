-- ===== src/Config/Valid.antt =====
-- What a configuration without a fault gives the rest of the program.
use s3pgstore.Base.{◌≤◌, ◌≡◌, false, List, [], ◌∷◌, arith, Bytes, length, All, ok}
use s3pgstore.Metadata.Bag.Puts.{DistinctNames}
use s3pgstore.Partition.{partition_key_values}
use s3pgstore.Partition.Grammar.{IsPart, IsValue, Fits, render_key, partition_key_values-render_key}
use s3pgstore.Config.{Config, ConfigError, is_empty, validate}
use s3pgstore.Config.Checks.{check_parts-nil, check_distinct-DistinctNames, passed}

-- The extension columns of a configuration without a fault have different names.
pub validate-DistinctNames : (c : Config) → validate c ≡ [] → DistinctNames c.extension_columns
validate-DistinctNames c valid =
    check_distinct-DistinctNames ConfigError.duplicate_ext [] c.extension_columns (passed c valid).5

parts-Fits :
    (parts values : List Bytes)
    → All (λ p. IsPart p × (length p ≤ 30)) parts
    → All IsValue values
    → length values ≡ length parts
    → Fits parts values
parts-Fits [] [] hp hv e = tt
parts-Fits [] (v ∷ values) hp hv e = absurd (omega arith)
parts-Fits (p ∷ parts) [] hp hv e = absurd (omega arith)
parts-Fits (p ∷ parts) (v ∷ values) (hp, hps) (hv, hvs) e =
    ((hp.0, hv), parts-Fits parts values hps hvs (omega arith))

-- With a configuration without a fault, the key that names each of its parts with a value, none
-- empty or with a slash, is accepted as a partition key and gives the values back.
pub validate-partition_key_values :
    (c : Config) (values : List Bytes)
    → validate c ≡ []
    → All IsValue values
    → length values ≡ length c.partition_key_parts
    → partition_key_values (render_key c.partition_key_parts values) c.partition_key_parts
      ≡ ok values
validate-partition_key_values c values valid hv e =
    fits c.partition_key_parts values (passed c valid).0 (
      parts-Fits c.partition_key_parts values
        (check_parts-nil c.partition_key_parts (passed c valid).1) hv e)
  where
    fits :
        (parts values : List Bytes)
        → is_empty parts ≡ false
        → Fits parts values
        → partition_key_values (render_key parts values) parts ≡ ok values
    fits [] values h f = cc
    fits (p ∷ parts) [] h f = absurd f
    fits (p ∷ parts) (v ∷ values) h f = partition_key_values-render_key p parts v values f
