-- ===== src/Config.antt =====
-- config.go: the configuration of a Store, its check and its defaults.
pub mod Checks
pub mod Valid
pub mod Kept
pub mod Names
use s3pgstore.Base.{
  ℕ, suc, ◌+◌, Bool, true, false, not, ◌&&◌, ◌||◌, List, [], ◌∷◌, ◌++◌, map, if◌then◌else◌, ltb,
  leb, ◌==◌, Bytes, bytes_eq, codes, length, any,
}
use s3pgstore.Base.Int.{ℤ, pos, int_ltb}
use s3pgstore.Base.Defaults.{or_default}
use s3pgstore.Metadata.Values.{ExtensionColumn, upper, trim_space}

-- MaterializedViewDef; `has_of` is false for a nil closure.
pub record MaterializedViewDef : Type 0 where
  pub name : Bytes
  pub columns : List Bytes
  pub has_of : Bool

-- The fields that validate looks at; the tests are false for a nil pointer or closure.
pub record Config : Type 0 where
  pub has_executor : Bool
  pub s3_bucket : Bytes
  pub has_s3_client : Bool
  pub partition_key_parts : List Bytes
  pub has_partition_key_of : Bool
  pub table_prefix : Bytes
  pub schema_name : Bytes
  pub extension_columns : List ExtensionColumn
  pub materialized_views : List MaterializedViewDef
  pub has_entity_key_of : Bool
  pub has_version_of : Bool
  pub encode_buf_pool_max_bytes : ℤ
  pub notify_channel : Bytes

pub data ConfigError : Type 0 where
  executor_required bucket_required client_required parts_required key_of_required : ConfigError
  bad_part : Bytes → ConfigError
  bad_prefix bad_schema : ConfigError
  bad_ext_name bad_ext_type : ℕ → ConfigError
  duplicate_ext : Bytes → ConfigError
  bad_view_name no_view_columns no_view_of : ℕ → ConfigError
  bad_view_column : ℕ → ℕ → ConfigError
  duplicate_view_column : ℕ → Bytes → ConfigError
  duplicate_view : Bytes → ConfigError
  entity_without_version negative_buffer channel_too_long : ConfigError

abbrev pub max_ident_len : ℕ
max_ident_len = 30

abbrev pub max_table_prefix_len : ℕ
max_table_prefix_len = 21

abbrev pub max_schema_name_len : ℕ
max_schema_name_len = 63

abbrev pub max_notify_channel_len : ℕ
max_notify_channel_len = 63

abbrev pub is_lower : ℕ → Bool
is_lower c = leb b'a' c && leb c b'z'

-- [a-z0-9_]
abbrev pub is_word : ℕ → Bool
is_word c = is_lower c || (leb b'0' c && leb c b'9') || c == b'_'

abbrev pub all_word : Bytes → Bool
all_word [] = true
all_word (c ∷ s) = is_word c && all_word s

-- ^[a-z][a-z0-9_]*$
unfoldable pub ident_regex : Bytes → Bool
ident_regex [] = false
ident_regex (c ∷ s) = is_lower c && all_word s

abbrev pub last_is_underscore : Bytes → Bool
last_is_underscore [] = false
last_is_underscore (c ∷ []) = c == b'_'
last_is_underscore (c ∷ d ∷ s) = last_is_underscore (d ∷ s)

-- ^[a-z][a-z0-9_]*_$: the last underscore is not the first letter.
unfoldable pub table_prefix_regex : Bytes → Bool
table_prefix_regex [] = false
table_prefix_regex (c ∷ s) = is_lower c && all_word s && last_is_underscore s

unfoldable pub valid_ident : Bytes → Bool
unfolding ident_regex
valid_ident s = not (length s == 0 || ltb max_ident_len (length s)) && ident_regex s

unfoldable pub valid_table_prefix : Bytes → Bool
unfolding table_prefix_regex
valid_table_prefix s =
    not (length s == 0 || ltb max_table_prefix_len (length s)) && table_prefix_regex s

unfoldable pub valid_schema_name : Bytes → Bool
unfolding ident_regex
valid_schema_name s = not (length s == 0 || ltb max_schema_name_len (length s)) && ident_regex s

abbrev pub allowed_extension_types : List Bytes
allowed_extension_types =
    codes "TEXT"
    ∷ codes "UUID"
    ∷ codes "TIMESTAMPTZ"
    ∷ codes "INT"
    ∷ codes "BIGINT"
    ∷ codes "BOOLEAN"
    ∷ codes "NUMERIC"
    ∷ []

unfoldable pub allowed_extension_type : Bytes → Bool
unfolding upper trim_space bytes_eq
allowed_extension_type t = any (bytes_eq (upper (trim_space t))) allowed_extension_types

-- `strings.ToLower` on ASCII.
unfoldable pub lower : Bytes → Bytes
lower [] = []
lower (c ∷ s) = (if leb b'A' c && leb c b'Z' then c + 32 else c) ∷ lower s

-- An error, if a condition holds.
abbrev pub unless : Bool → ConfigError → List ConfigError
unless true e = []
unless false e = e ∷ []

unfoldable pub check_parts : List Bytes → List ConfigError
unfolding valid_ident
check_parts [] = []
check_parts (p ∷ parts) = unless (valid_ident p) (bad_part p) ++ check_parts parts

unfoldable pub check_exts : ℕ → List ExtensionColumn → List ConfigError
unfolding valid_ident allowed_extension_type
check_exts i [] = []
check_exts i (c ∷ exts) =
    unless (valid_ident c.name) (bad_ext_name i)
    ++ (unless (allowed_extension_type c.type) (bad_ext_type i) ++ check_exts (suc i) exts)

-- A loop over names with a set of those seen, in lower case.
unfoldable pub check_distinct : (Bytes → ConfigError) → List Bytes → List Bytes → List ConfigError
unfolding lower
check_distinct duplicate seen [] = []
check_distinct duplicate seen (name ∷ names) =
    unless (not (any (bytes_eq (lower name)) seen)) (duplicate name)
    ++ check_distinct duplicate (lower name ∷ seen) names

unfoldable pub check_columns : ℕ → ℕ → List Bytes → List ConfigError
unfolding valid_ident
check_columns i j [] = []
check_columns i j (c ∷ columns) =
    unless (valid_ident c) (bad_view_column i j) ++ check_columns i (suc j) columns

abbrev pub is_empty {ℓ} : {A : Type ℓ} → List A → Bool
is_empty [] = true
is_empty (x ∷ xs) = false

unfoldable pub check_views : ℕ → List MaterializedViewDef → List ConfigError
unfolding valid_ident check_columns check_distinct
check_views i [] = []
check_views i (v ∷ views) =
    unless (valid_ident v.name) (bad_view_name i)
    ++ (unless (not (is_empty v.columns)) (no_view_columns i)
        ++ (unless v.has_of (no_view_of i)
            ++ (check_columns i 0 v.columns
                ++ (check_distinct (duplicate_view_column i) [] v.columns
                    ++ check_views (suc i) views))))

abbrev pub same_bool : Bool → Bool → Bool
same_bool true b = b
same_bool false b = not b

-- validate: every fault, in order; none is a nil error.
unfoldable pub validate : Config → List ConfigError
unfolding check_parts valid_table_prefix valid_schema_name check_exts check_distinct check_views
validate c =
    unless c.has_executor executor_required
    ++ (unless (not (is_empty c.s3_bucket)) bucket_required
        ++ (unless c.has_s3_client client_required
            ++ (unless (not (is_empty c.partition_key_parts)) parts_required
                ++ (check_parts c.partition_key_parts
                    ++ (unless c.has_partition_key_of key_of_required
                        ++ (unless (is_empty c.table_prefix || valid_table_prefix c.table_prefix)
                              bad_prefix
                            ++ (unless (is_empty c.schema_name || valid_schema_name c.schema_name)
                                  bad_schema
                                ++ (check_exts 0 c.extension_columns
                                    ++ (check_distinct duplicate_ext []
                                          (map (λ e. e.name) c.extension_columns)
                                        ++ (check_views 0 c.materialized_views
                                            ++ (check_distinct duplicate_view []
                                                  (map (λ v. v.name) c.materialized_views)
                                                ++ (unless
                                                      (same_bool c.has_entity_key_of
                                                        c.has_version_of)
                                                      entity_without_version
                                                    ++ (unless
                                                          (not (
                                                            int_ltb c.encode_buf_pool_max_bytes
                                                            (pos 0)))
                                                          negative_buffer
                                                        ++ unless
                                                            (leb (length c.notify_channel)
                                                            max_notify_channel_len)
                                                            channel_too_long)))))))))))))

-- resolved
unfoldable pub resolved : Config → Config
resolved c = record c {
  schema_name = or_default c.schema_name (codes "public");
  table_prefix = or_default c.table_prefix (codes "s3pgstore_");
  notify_channel = or_default c.notify_channel (codes "s3pgstore_writes");
}
