-- ===== src/Tests/Schemas.antt =====
-- The schema of a configuration, and the witnesses of the theorems about its check.
use s3pgstore.Base.{◌≡◌, ◌↔◌, refl, [], All, ok}
use s3pgstore.Config.{validate, resolved}
use s3pgstore.Schema.{Information, expected_schema, validate_schema}
use s3pgstore.Schema.Checked.{IsPresent, validate_schema_iff}
use s3pgstore.Schema.Rows.{created}
use s3pgstore.Schema.Created.{validate_schema-created}
use s3pgstore.Tests.Configs.{toy_config, toy_config_valid}

abbrev migrated : Information
migrated = created (λ c. c) (resolved toy_config) [] []

validate_schema_iff_example : (validate_schema toy_config migrated ≡ ok tt) ↔ (
    (validate toy_config ≡ [])
    × All
        (IsPresent migrated (resolved toy_config).schema_name)
        (expected_schema (resolved toy_config)))
validate_schema_iff_example = validate_schema_iff toy_config migrated (λ t. (refl, refl))

validate_schema-created_example : validate_schema toy_config migrated ≡ ok tt
validate_schema-created_example = validate_schema-created (λ c. c) toy_config [] [] toy_config_valid
