-- ===== src/Schema/Created.antt =====
-- schema.go, ddl.go: Validate finds nothing missing behind RenderDDL.
use s3pgstore.Base.{◌≡◌, refl, sym, ap, subst, ◌∙◌, List, [], ◌∷◌, ◌++◌, map, Bytes, codes, All, ok}
use s3pgstore.Metadata.Values.{ExtensionColumn, upper}
use s3pgstore.Config.{Config, MaterializedViewDef, validate, resolved}
use s3pgstore.Config.Names.{
  files_bare, partitions_bare, pending_writes_bare, mv_bare, part_column, ext_column,
}
use s3pgstore.Schema.{expected_schema, ColumnRow, TableRow, Information, validate_schema}
use s3pgstore.Schema.Ddl.{
  column, Table, ddl_tables, files_table, partitions_table, pending_writes_table, mv_table,
}
use s3pgstore.Schema.Covers.{Covers, Covers-refl}
use s3pgstore.Schema.Checked.{IsPresent, validate_schema_iff}
use s3pgstore.Schema.Rows.{created, names_of, IsThere, All-IsThere, Provides, provided}
use s3pgstore.Schema.Columns.{
  map_id, names-map, names_behind, first_names, later_names, expected_first, expected_later,
  files_cover, version_names, partitions_cover,
}

module _ (sanitize : Bytes → Bytes) (r : Config) (info : Information) where
  abbrev There : Table → Type 0
  There = IsThere r.schema_name info.tables info.columns

  views-IsPresent :
      (views : List MaterializedViewDef)
      → All There (map (mv_table sanitize r) views)
      → All (IsPresent info r.schema_name) (
          map
            (λ (mv : MaterializedViewDef). record {
              name = mv_bare r.table_prefix mv.name;
              columns = mv.columns;
            })
            views)
  unfolding mv_table Provides
  views-IsPresent [] all = tt
  views-IsPresent (mv ∷ views) (here, all) = (
    provided info r.schema_name (mv_table sanitize r mv) _ here (
      refl,
      subst (λ ys. Covers ys mv.columns)
          (sym (names-map _ (λ c. c) mv.columns (λ c. refl) ∙ map_id mv.columns))
          (Covers-refl mv.columns),
    ),
    views-IsPresent views all,
  )

  files_names :
      names_of (files_table r).columns
      ≡ first_names
        ++ (map part_column r.partition_key_parts
            ++ (later_names
                ++ map (λ (e : ExtensionColumn). ext_column e.name) r.extension_columns))
  unfolding files_table
  files_names =
      ap (λ ns. first_names ++ ns)
        (names_behind (λ p. column (part_column p) (codes "            TEXT NOT NULL")) part_column
            r.partition_key_parts _ (λ p. refl)
          ∙ ap (λ ns. map part_column r.partition_key_parts ++ (later_names ++ ns))
              (names-map
                (λ (e : ExtensionColumn).
                  column (ext_column e.name) (codes "         " ++ upper e.type))
                (λ e. ext_column e.name) r.extension_columns (λ e. refl)))

  partitions_names :
      names_of (partitions_table r).columns
      ≡ (codes "partition_key" ∷ []) ++ (map part_column r.partition_key_parts ++ version_names)
  unfolding partitions_table
  partitions_names =
      ap (λ ns. codes "partition_key" ∷ ns)
        (names_behind (λ p. column (part_column p) (codes "       TEXT NOT NULL")) part_column
          r.partition_key_parts _ (λ p. refl))

  files-IsPresent :
      There (files_table r)
      → IsPresent info r.schema_name (record {
        name = files_bare r.table_prefix;
        columns =
            (expected_first ++ expected_later)
            ++ (map part_column r.partition_key_parts
                ++ map (λ (e : ExtensionColumn). ext_column e.name) r.extension_columns);
      })
  unfolding files_table Provides
  files-IsPresent there =
      let parts = map part_column r.partition_key_parts in
      let exts = map (λ (e : ExtensionColumn). ext_column e.name) r.extension_columns in
      provided info r.schema_name (files_table r)
        (record {
          name = files_bare r.table_prefix;
          columns = (expected_first ++ expected_later) ++ (parts ++ exts);
        })
        there
        (
          refl,
          subst (λ ys. Covers ys ((expected_first ++ expected_later) ++ (parts ++ exts)))
              (sym files_names) (files_cover parts exts),
        )

  partitions-IsPresent :
      There (partitions_table r)
      → IsPresent info r.schema_name (record {
        name = partitions_bare r.table_prefix;
        columns = (codes "partition_key" ∷ version_names) ++ map part_column r.partition_key_parts;
      })
  unfolding partitions_table Provides
  partitions-IsPresent there =
      let parts = map part_column r.partition_key_parts in
      provided info r.schema_name (partitions_table r)
        (record {
          name = partitions_bare r.table_prefix;
          columns = (codes "partition_key" ∷ version_names) ++ parts;
        })
        there
        (
          refl,
          subst (λ ys. Covers ys ((codes "partition_key" ∷ version_names) ++ parts))
              (sym partitions_names) (partitions_cover parts),
        )

  pending_writes-IsPresent :
      There (pending_writes_table r)
      → IsPresent info r.schema_name (record {
        name = pending_writes_bare r.table_prefix;
        columns = codes "s3_key" ∷ codes "intended_at" ∷ [];
      })
  unfolding pending_writes_table Provides
  pending_writes-IsPresent there =
      let columns = codes "s3_key" ∷ codes "intended_at" ∷ [] in
      provided info r.schema_name (pending_writes_table r)
        (record { name = pending_writes_bare r.table_prefix; columns = columns }) there
        (refl, Covers-refl columns)

  expected-IsPresent :
      All There (ddl_tables sanitize r) → All (IsPresent info r.schema_name) (expected_schema r)
  unfolding ddl_tables expected_schema
  expected-IsPresent (files, (parts, (pending, views))) = (
    files-IsPresent files,
    (
      partitions-IsPresent parts,
      (pending_writes-IsPresent pending, views-IsPresent r.materialized_views views),
    ),
  )

-- In a database that has the tables that RenderDDL creates for a configuration without a fault,
-- whatever other tables and columns it has, Validate succeeds.
pub validate_schema-created :
    (sanitize : Bytes → Bytes) (c : Config) (tables : List TableRow) (columns : List ColumnRow)
    → validate c ≡ []
    → validate_schema c (created sanitize (resolved c) tables columns) ≡ ok tt
validate_schema-created sanitize c tables columns valid =
    let info = created sanitize (resolved c) tables columns in
    (validate_schema_iff c info (λ t. (refl, refl))).1 (
      valid,
      expected-IsPresent sanitize (resolved c) info
          (All-IsThere (resolved c).schema_name (ddl_tables sanitize (resolved c)) tables columns),
    )
