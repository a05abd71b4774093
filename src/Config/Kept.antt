-- ===== src/Config/Kept.antt =====
-- names.go and ddl.go: how long the names of a configuration without a fault are.
use s3pgstore.Base.{
  ℕ, ◌+◌, ◌≤◌, ◌≡◌, true, ◌||◌, List, [], ◌∷◌, ◌++◌, map, arith, Bytes, codes, length,
  length-append, All, All-append, All-map,
}
use s3pgstore.Base.Defaults.{or_default}
use s3pgstore.Metadata.Values.{ExtensionColumn}
use s3pgstore.Config.{
  Config, MaterializedViewDef, is_empty, valid_table_prefix, valid_schema_name, validate, resolved,
}
use s3pgstore.Config.Names.{
  files_bare, partitions_bare, pending_writes_bare, mv_bare, files_indexes, other_indexes,
  part_column, ext_column, view_columns, identifiers,
}
use s3pgstore.Config.Checks.{check_parts-nil, check_exts-nil, check_views-nil, passed}

-- A prefix that is checked or the default one, and a schema likewise.
prefix_fits : (c : Config) → validate c ≡ [] → length (resolved c).table_prefix ≤ 21
unfolding resolved valid_table_prefix
prefix_fits c valid = default c.table_prefix (passed c valid).2
  where
    default :
        (s : Bytes)
        → (is_empty s || valid_table_prefix s) ≡ true
        → length (or_default s (codes "s3pgstore_")) ≤ 21
    default [] h = omega arith
    default (c ∷ s) h = ground (arith, h)

schema_fits : (c : Config) → validate c ≡ [] → length (resolved c).schema_name ≤ 63
unfolding resolved valid_schema_name
schema_fits c valid = default c.schema_name (passed c valid).3
  where
    default :
        (s : Bytes)
        → (is_empty s || valid_schema_name s) ≡ true
        → length (or_default s (codes "public")) ≤ 63
    default [] h = omega arith
    default (c ∷ s) h = ground (arith, h)

map-All {ℓ} :
    {A : Type ℓ} (P : Bytes → Type 0) (f : A → Bytes) (xs : List A)
    → All (λ x. P (f x)) xs
    → All P (map f xs)
map-All P f [] h = tt
map-All P f (x ∷ xs) (px, h) = (px, map-All P f xs h)

-- PostgreSQL keeps an identifier of up to 63 bytes whole.
abbrev pub IsKept : Bytes → Type 0
IsKept s = length s ≤ 63

IsKept-append : (a b : Bytes) (m n : ℕ) → length a ≤ m → length b ≤ n → m + n ≤ 63 → IsKept (a ++ b)
IsKept-append a b m n ha hb fits = omega (arith, length-append a b)

length-append_le : (a b : Bytes) (m n : ℕ) → length a ≤ m → length b ≤ n → length (a ++ b) ≤ m + n
length-append_le a b m n ha hb = omega (arith, length-append a b)

-- The names that a prefix of at most 21 bytes makes by itself.
tables_fit :
    (schema p : Bytes)
    → length schema ≤ 63
    → length p ≤ 21
    → All IsKept
        (schema ∷ files_bare p ∷ partitions_bare p ∷ pending_writes_bare p ∷ files_indexes p)
unfolding files_bare partitions_bare pending_writes_bare files_indexes
tables_fit schema p hs hp =
    let by = λ (b : Bytes) (h : length b ≤ 14). IsKept-append p b 21 14 hp h (omega arith) in
    let index = λ (b : Bytes) (h : length b ≤ 22).
      IsKept-append (p ++ codes "files") b 26 22
        (length-append_le p (codes "files") 21 5 hp (omega arith)) h (omega arith) in
    (
      hs,
      (
        by (codes "files") (omega arith),
        (
          by (codes "partitions") (omega arith),
          (
            by (codes "pending_writes") (omega arith),
            (
              index (codes "_partition_written_idx") (omega arith),
              (
                index (codes "_written_at_idx") (omega arith),
                (
                  index (codes "_feed_seq_idx") (omega arith),
                  (
                    index (codes "_seq_scan_idx") (omega arith),
                    (
                      index (codes "_part_idx") (omega arith),
                      (index (codes "_token_idx") (omega arith), tt),
                    ),
                  ),
                ),
              ),
            ),
          ),
        ),
      ),
    )

indexes_fit : (p : Bytes) → length p ≤ 21 → All IsKept (other_indexes p)
unfolding other_indexes
indexes_fit p hp = (
  IsKept-append (p ++ codes "partitions") (codes "_part_idx") 31 9
      (length-append_le p (codes "partitions") 21 10 hp (omega arith)) (omega arith) (omega arith),
  (
    IsKept-append (p ++ codes "pending_writes") (codes "_intended_idx") 35 13
        (length-append_le p (codes "pending_writes") 21 14 hp (omega arith)) (omega arith)
        (omega arith),
    tt,
  ),
)

view_columns-IsKept :
    (views : List MaterializedViewDef)
    → All (λ v. (length v.name ≤ 30) × All (λ c. length c ≤ 30) v.columns) views
    → All IsKept (view_columns views)
unfolding view_columns
view_columns-IsKept [] h = tt
view_columns-IsKept (v ∷ views) (h, hs) =
    All-append IsKept v.columns (view_columns views)
      (All-map (λ c fits. omega (arith, fits)) v.columns h.1) (view_columns-IsKept views hs)

-- Every name of a table, an index or a column, and the schema's, that a configuration without a
-- fault makes is at most 63 bytes long.
pub validate-IsKept : (c : Config) → validate c ≡ [] → All IsKept (identifiers (resolved c))
unfolding identifiers resolved part_column ext_column mv_bare
validate-IsKept c valid =
    let p = (resolved c).table_prefix in
    let short = prefix_fits c valid in
    let parts = map-All IsKept part_column c.partition_key_parts (
      All-map (λ s h. IsKept-append (codes "part_") s 5 30 (omega arith) h.1 (omega arith))
        c.partition_key_parts (check_parts-nil c.partition_key_parts (passed c valid).1)) in
    let exts =
      map-All IsKept (λ (e : ExtensionColumn). ext_column e.name) c.extension_columns
        (All-map (λ e h. IsKept-append (codes "ext_") e.name 4 30 (omega arith) h (omega arith))
          c.extension_columns (check_exts-nil 0 c.extension_columns (passed c valid).4)) in
    let views =
      map-All IsKept (λ (v : MaterializedViewDef). mv_bare p v.name) c.materialized_views
        (All-map
          (λ v h.
            IsKept-append p (codes "mv_" ++ v.name) 21 33 short
              (length-append_le (codes "mv_") v.name 3 30 (omega arith) h.0) (omega arith))
          c.materialized_views (check_views-nil 0 c.materialized_views (passed c valid).6)) in
    let columns = map part_column c.partition_key_parts in
    let ext_columns = map (λ (e : ExtensionColumn). ext_column e.name) c.extension_columns in
    let view_tables = map (λ (v : MaterializedViewDef). mv_bare p v.name) c.materialized_views in
    All-append IsKept
      ((resolved c).schema_name
        ∷ files_bare p
        ∷ partitions_bare p
        ∷ pending_writes_bare p
        ∷ files_indexes p)
      (other_indexes p
        ++ (columns ++ (ext_columns ++ (view_tables ++ view_columns c.materialized_views))))
      (tables_fit (resolved c).schema_name p (schema_fits c valid) short)
      (All-append IsKept (other_indexes p)
        (columns ++ (ext_columns ++ (view_tables ++ view_columns c.materialized_views)))
        (indexes_fit p short)
        (All-append IsKept columns
          (ext_columns ++ (view_tables ++ view_columns c.materialized_views)) parts
          (All-append IsKept ext_columns (view_tables ++ view_columns c.materialized_views) exts (
            All-append IsKept view_tables (view_columns c.materialized_views) views (
              view_columns-IsKept c.materialized_views
                (check_views-nil 0 c.materialized_views (passed c valid).6))))))
